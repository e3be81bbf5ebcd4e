-- ===== src/Proxy/Exchange/Tests.antt =====
-- A request for http://h/a with a hop-by-hop header, over header maps that are association lists and
-- URLs that are written out.
use aiautotest.Common.{
  ltb, leb, if◌then◌else◌, ◌≡◌, refl, true, ◌&&◌, ◌||◌, none, some, List, [], ◌∷◌, ◌++◌, arith,
  Text, text, text_eq, starts_with, lookup, insert, remove,
}
use aiautotest.Proxy.Intercept.{
  InterceptEdit, forwarded, dropped, should_intercept_request, should_intercept_response, init,
  set_enabled,
}
use aiautotest.Proxy.Http.Utf8.{is_utf8}
use aiautotest.Workflow.Exec.State.{show}
use aiautotest.Proxy.Rules.{Crates, new, apply_to_response_headers}
use aiautotest.Proxy.Relay.Collect.{bytes, trailers}
use aiautotest.Proxy.Exchange.Answer.{
  Setting, Response, answer, whole, build_ctx, answer_whole, without_framing,
}
use aiautotest.Proxy.Exchange.Answer.Laws.{answer-joined}
use aiautotest.Proxy.Exchange.{
  Draft, Uri, Wire, Request, Server, Upstream, exchange, sent, dropped_answer,
}
use aiautotest.Proxy.Exchange.Laws.{exchange-transparent, exchange-IsFit, IsFit}
use aiautotest.Proxy.Exchange.Edits.{exchange-IsDecided, IsDecided}

abbrev texts : Crates
texts = record {
  Regex = Text;
  HeaderName = Text;
  HeaderValue = Text;
  HeaderMap = List (Text × Text);
  new_regex = λ p. some p;
  header_name = λ n. elim n [ [] ↦ none | c ∷ s ↦ some (c ∷ s) ];
  header_value = λ v. some v;
  is_match = text_eq;
  replace_all = λ re t r. if text_eq re t then r else t;
  get = lookup;
  insert = insert;
  remove = remove;
  to_str = λ v. some v;
}

abbrev url_a : Uri
url_a = record {
  scheme = some (text "http");
  authority = some (text "h");
  path_and_query = some (text "/a");
}

abbrev url_b : Uri
url_b = record { scheme = some (text "https"); authority = some (text "k"); path_and_query = none }

abbrev wires : Wire texts
wires = record {
  parse_uri = λ url.
      if text_eq url (text "http://h/a")
      then some url_a
      else if text_eq url (text "https://k")
      then some url_b
      else none;
  entries = λ headers. headers;
  empty = [];
  append = λ name value headers. headers ++ (name, value) ∷ [];
  is_method = λ m. text_eq m (text "GET") || text_eq m (text "PUT");
  is_uri = λ url. starts_with (text "http") url;
}

abbrev get_a : Request texts wires
get_a = record {
  tunnel_host = none;
  method = text "GET";
  uri = url_a;
  headers = (text "Connection", text "close") ∷ (text "x-a", text "1") ∷ [];
  body = text "b";
}

abbrev relaying : Server texts wires
relaying = record { rules = new texts []; intercept = init }

abbrev intercepting : Server texts wires
intercepting = record { rules = new texts []; intercept = set_enabled true init }

abbrev put_b : InterceptEdit
put_b = record {
  method = text "PUT";
  url = text "https://k";
  status = none;
  reason = none;
  headers = record { name = text " x-b "; value = text "2" } ∷ [];
  body = text "cd";
}

abbrev sent_a : Upstream texts wires
sent_a = record {
  method = text "GET";
  uri = text "http://h/a";
  headers = (text "x-a", text "1") ∷ [];
  body = text "b";
}

exchange-edits :
    exchange texts wires intercepting (forwarded (some put_b)) get_a
    ≡ sent (record {
      method = text "PUT";
      uri = text "https://k/";
      headers = (text "x-b", text "2") ∷ (text "content-length", text "2") ∷ [];
      body = text "cd";
    })
unfolding exchange new set_enabled init text_eq is_utf8 insert show
exchange-edits = refl

exchange-drops : exchange texts wires intercepting dropped get_a ≡ dropped_answer
unfolding exchange new set_enabled init text_eq is_utf8
exchange-drops = refl

exchange-transparent_example : exchange texts wires relaying dropped get_a ≡ sent sent_a
unfolding exchange new init text_eq
exchange-transparent_example =
    exchange-transparent wires relaying dropped get_a (text "http") (text "h") tt refl refl refl
      refl

exchange-IsFit_example :
    IsFit wires (exchange texts wires intercepting (forwarded (some put_b)) get_a)
exchange-IsFit_example = exchange-IsFit wires intercepting (forwarded (some put_b)) get_a

exchange-IsDecided_example :
    IsDecided wires dropped (exchange texts wires intercepting dropped get_a)
unfolding init set_enabled should_intercept_request
exchange-IsDecided_example = exchange-IsDecided wires intercepting dropped get_a refl

abbrev draft_a : Draft texts wires
draft_a = record {
  method = text "GET";
  scheme = text "http";
  host = text "h";
  path = text "/a";
  headers = [];
  body = text "b";
}

abbrev setting : Setting texts wires
setting = record {
  capture = true;
  max_body_bytes = 4;
  client_ip = text "127.0.0.1";
  timestamp = 0;
  duration_ms = 1;
  is_status = λ n. leb 100 n && ltb n 1000;
}

abbrev abcdef : Response texts wires
abcdef = record {
  status = 200;
  headers = (text "content-length", text "6") ∷ (text "x-c", text "1") ∷ [];
  items = bytes (text "abc") ∷ trailers ∷ bytes (text "def") ∷ [];
}

-- The answer to a held response has no length of the upstream's, and is captured whole.
answer-forwarded :
    answer texts wires setting intercepting draft_a (forwarded none) abcdef
    ≡ whole 200 ((text "x-c", text "1") ∷ []) (text "abcdef") (
        (build_ctx texts wires setting draft_a 200 ((text "x-c", text "1") ∷ []), text "abcdef")
        ∷ [])
unfolding answer new set_enabled init build_ctx remove
answer-forwarded = refl

answer-joined_example :
    answer texts wires setting intercepting draft_a (forwarded none) abcdef
    ≡ answer_whole texts wires setting draft_a (
        without_framing texts wires
          (record { status = 200; headers = abcdef.headers; body = text "abcdef" }))
unfolding init set_enabled should_intercept_response new apply_to_response_headers
answer-joined_example =
    answer-joined wires setting intercepting draft_a abcdef refl refl (omega arith)
