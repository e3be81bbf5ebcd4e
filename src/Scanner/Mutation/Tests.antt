-- ===== src/Scanner/Mutation/Tests.antt =====
-- Mutations of a small flow, and values put at paths.
use aiautotest.Common.{
  ℕ, ◌*◌, ◌%◌, ◌^◌, ◌≡◌, refl, true, false, none, some, List, [], ◌∷◌, arith, length, take, Text,
  text, text_eq, to_ascii_lowercase, contains_text,
}
use aiautotest.Domain.Flow.{HttpFlow, get}
use aiautotest.Workflow.Json.{Value, null, string, array, object, nil, cons, end, field}
use aiautotest.Scanner.Verifier.{Analyzers, classify, high, warning}
use aiautotest.Scanner.Payloads.{payloads_for}
use aiautotest.Scanner.Mutation.{
  Outside, AnalyzedParam, InjectionLocation, mutations_for, replace_from, Mutation,
}
use aiautotest.Scanner.Mutation.Laws.{all_mutations, mutations_for-take}
use aiautotest.Scanner.Mutation.Path.{
  child_field, child_item, key, index, parse_path, set_json_path,
}
use aiautotest.Scanner.Mutation.Path.Laws.{
  Leads, at_key, in_key, in_index, past_null, resolve, set_json_path-resolve,
}

-- URLs are not parsed.
abbrev outside : Outside
outside = record {
  N = ℕ;
  Url = Text;
  url_parse = λ u. none;
  parse_with_base = λ b u. none;
  query_pairs = λ u. [];
  set_query = λ q u. u;
  url_path = λ u. u;
  set_path = λ p u. p;
  url_to_string = λ u. u;
  serialize_pairs = λ ps. [];
  from_slice = λ s. none;
  to_vec = λ v. none;
  payloads_for = payloads_for;
}

abbrev flow : HttpFlow
flow = record {
  id = text "f";
  session_id = text "s";
  timestamp = 0;
  method = get;
  host = text "h";
  ip = [];
  path = text "/a";
  full_url = text "http://h/a";
  request_headers = [];
  request_body = none;
  request_cookies = [];
  request_cookie_values = [];
  response_status = 200;
  response_headers = [];
  response_body = none;
  response_body_len = 0;
  response_cookies = [];
  response_cookie_values = [];
  content_type = [];
  duration_ms = 1;
}

abbrev param : Text → AnalyzedParam ℕ
param name = record { name = name; location = InjectionLocation.header; sample_value = none }

abbrev params : List (AnalyzedParam ℕ)
params = param (text "x-a") ∷ param (text "x-b") ∷ []

-- The first parameter takes both places.
mutations_for-take_example :
    mutations_for outside 1 flow params (text "xss" ∷ [])
    ≡ take ((1 * length params) % 2 ^ 64) (all_mutations outside flow params (text "xss" ∷ []))
mutations_for-take_example = mutations_for-take outside 1 flow params (text "xss" ∷ [])

-- An object with an array of one item.
abbrev document : Value ℕ
document = object (field (text "a") (array (cons (string (text "x")) nil)) end)

document-path : parse_path (text "a.c") ≡ key (text "a") ∷ key (text "c") ∷ []
unfolding parse_path
document-path = refl

replaced : replace_from (text "12") (text "x") 0 (text "/a/12/b/112") ≡ text "/a/x/b/1x"
unfolding replace_from
replaced = refl

-- A list of one empty object; the key on the way to it and the index are there.
abbrev listed : Value ℕ
listed = object (field (text "a") (array (cons (object end) nil)) end)

way_in : Leads (parse_path (text "a[0].b.c")) listed true
unfolding parse_path child_field child_item text_eq
way_in = in_key (text "a") (index 0) _ _ true (
    in_index 0 (key (text "b")) _ _ true (omega arith)
      (in_key (text "b") (key (text "c")) [] end true (at_key (text "c") end)))

set_json_path-resolve_example :
    resolve
      (parse_path (text "a[0].b.c"))
      (set_json_path listed (text "a[0].b.c") (string (text "v")))
    ≡ some (string (text "v"))
set_json_path-resolve_example =
    set_json_path-resolve listed (text "a[0].b.c") (string (text "v")) true way_in

way_past : Leads (parse_path (text "a[1].b")) listed false
unfolding parse_path child_field text_eq
way_past = in_key (text "a") (index 1) _ _ false (past_null 1 (key (text "b")) [] _ (omega arith))

past_end-lost :
    resolve (parse_path (text "a[1].b")) (set_json_path listed (text "a[1].b") (string (text "v")))
    ≡ none
past_end-lost = set_json_path-resolve listed (text "a[1].b") (string (text "v")) false way_past

-- The array grows by a null, which has no key to set.
nested_test :
    set_json_path document (text "a[1].b") (string (text "v"))
    ≡ object (field (text "a") (array (cons (string (text "x")) (cons null nil))) end)
unfolding set_json_path text_eq
nested_test = refl

abbrev probed : Text → Mutation ℕ
probed skill = record {
  request = record { method = text "GET"; url = text "http://h/a"; headers = []; body = none };
  param = param (text "x-a");
  payload = record {
    value = text "1=1";
    location = InjectionLocation.header;
    param_name = text "x-a";
    skill_name = skill;
    description = [];
  };
}

abbrev unsuspicious : Analyzers
unsuspicious = record { is_overfetching = λ b. false; has_secrets = λ b. false }

classify_tests :
    (classify unsuspicious (probed (text "sqli")) 200 (text "a 1=1 b") ≡ some high)
    × (classify unsuspicious (probed (text "idor")) 200 (text "a 1=1 b") ≡ some warning)
    × (classify unsuspicious (probed (text "sqli")) 500 (text "b") ≡ some warning)
    × (classify unsuspicious (probed (text "idor")) 500 (text "b") ≡ none)
unfolding classify contains_text to_ascii_lowercase text_eq
classify_tests = (refl, refl, refl, refl)
