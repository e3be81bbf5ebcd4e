-- ===== src/Proxy/Exchange.antt =====
-- `proxy_request_inner` of crates/proxy/src/server.rs, from the request of a client to the request that
-- goes upstream. The crate http is a parameter, as is the decision of the user on an intercepted item.
pub mod Laws
pub mod Edits
pub mod Answer
mod Tests
use aiautotest.Common.{
  ◌+◌, ◌-◌, ◌/◌, if◌then◌else◌, unwrap_or, Bool, true, false, not, ◌&&◌, Option, none, some, List,
  [], ◌∷◌, ◌++◌, length, filter, Text, text, text_eq, insert, remove, trim, is_empty_text,
}
use aiautotest.Auth.{Result, ok, err}
use aiautotest.Domain.Rules.{RuleDirection}
use aiautotest.Proxy.Http.Utf8.{is_utf8, from_utf8_lossy}
use aiautotest.Proxy.Intercept.{
  InterceptController, InterceptDecision, InterceptEdit, InterceptHeader, forwarded, dropped,
  should_intercept_request,
}
use aiautotest.Proxy.Relay.{is_hop_by_hop}
use aiautotest.Proxy.Rules.{
  Crates, MatchReplaceEngine, apply_to_request_headers, apply_to_body, apply_to_url,
}
use aiautotest.Workflow.Exec.State.{show}

pub record Uri : Type 0 where
  pub scheme : Option Text
  pub authority : Option Text
  pub path_and_query : Option Text

-- The parts of the crate http: `parse::<Uri>`, the entries of a header map in order, the empty map and
-- `append`, and whether a text is a method or the URI of a request.
pub record Wire (crates : Crates) : Type 0 where
  pub parse_uri : Text → Option Uri
  pub entries : crates.HeaderMap → List (Text × crates.HeaderValue)
  pub empty : crates.HeaderMap
  pub append : crates.HeaderName → crates.HeaderValue → crates.HeaderMap → crates.HeaderMap
  pub is_method : Text → Bool
  pub is_uri : Text → Bool

pub data ProxyError : Type 0 where
  missing_target_host bad_header_value bad_request : ProxyError

unfoldable pub parse_edited_url : (Text → Option Uri) → Text → Option (Text × Text × Text)
parse_edited_url parse_uri url = elim (parse_uri url) [
  | none ↦ none
  | some uri ↦ elim uri.scheme [
    | none ↦ none
    | some scheme ↦ elim uri.authority [
      | none ↦ none
      | some host ↦ some (scheme, host, unwrap_or uri.path_and_query (text "/"))
    ]
  ]
]

module _ (crates : Crates) (wire : Wire crates) where
  open crates use {
    HeaderMap, HeaderName, HeaderValue, header_name, header_value, insert, remove, get, to_str,
  }
  open wire use {parse_uri, entries, empty, append, is_method, is_uri}

  -- A request of a client; a tunnel knows its host.
  pub record Request : Type 0 where
    pub tunnel_host : Option Text
    pub method : Text
    pub uri : Uri
    pub headers : HeaderMap
    pub body : Text

  pub record Server : Type 0 where
    pub rules : MatchReplaceEngine crates
    pub intercept : InterceptController

  -- The request while it is rewritten and edited.
  pub record Draft : Type 0 where
    pub method : Text
    pub scheme : Text
    pub host : Text
    pub path : Text
    pub headers : HeaderMap
    pub body : Text

  pub record Upstream : Type 0 where
    pub method : Text
    pub uri : Text
    pub headers : List (Text × HeaderValue)
    pub body : Text

  -- `headers.insert("name", ..)`, `headers.get("name")` and `headers.remove("name")`.
  unfoldable pub insert_named : Text → HeaderValue → HeaderMap → HeaderMap
  insert_named name value headers = elim (header_name name) [
    | none ↦ headers
    | some n ↦ insert n value headers
  ]

  unfoldable pub remove_named : Text → HeaderMap → HeaderMap
  remove_named name headers = elim (header_name name) [ none ↦ headers | some n ↦ remove n headers ]

  unfoldable pub get_str : Text → HeaderMap → Option Text
  get_str name headers = elim (header_name name) [
    | none ↦ none
    | some n ↦ elim (get n headers) [ none ↦ none | some value ↦ to_str value ]
  ]

  some_or : Option Text → Option Text → Option Text
  some_or none other = other
  some_or (some a) other = some a

  -- The scheme and the host of the request.
  unfoldable pub origin : Request → Option (Text × Text)
  unfolding some_or get_str
  origin r = elim r.tunnel_host [
    | some host ↦ some (text "https", host)
    | none ↦ elim (some_or r.uri.authority (get_str (text "host") r.headers)) [
      | none ↦ none
      | some host ↦ some (unwrap_or r.uri.scheme (text "http"), host)
    ]
  ]

  unfoldable pub path_of : Request → Text
  path_of r = unwrap_or r.uri.path_and_query (text "/")

  unfoldable pub draft_of : Request → (scheme host : Text) → Draft
  unfolding path_of
  draft_of r scheme host = record {
    method = r.method;
    scheme = scheme;
    host = host;
    path = path_of r;
    headers = r.headers;
    body = r.body;
  }

  unfoldable pub url_of : Draft → Text
  url_of d = d.scheme ++ (text "://" ++ (d.host ++ d.path))

  -- A new URL, and the Host header for it when its text can be a header.
  unfoldable pub move_to : Option (Text × Text × Text) → Draft → Draft
  unfolding insert_named
  move_to none d = d
  move_to (some (scheme, host, path)) d = record d {
    scheme = scheme;
    host = host;
    path = path;
    headers = elim (header_value host) [
      | none ↦ d.headers
      | some value ↦ insert_named (text "host") value d.headers
    ];
  }

  unfoldable pub rewrite_url_of : Server → Draft → Draft
  unfolding move_to url_of parse_edited_url apply_to_url from_utf8_lossy
  rewrite_url_of server d =
      let after =
        apply_to_url crates server.rules (url_of d) d.headers d.path
          (some (from_utf8_lossy d.body)) in
      if text_eq after (url_of d) then d else move_to (parse_edited_url parse_uri after) d

  unfoldable pub rewrite_headers_of : Server → (body_text : Text) → Draft → Draft
  unfolding apply_to_request_headers
  rewrite_headers_of server body_text d = record d {
    headers = apply_to_request_headers crates server.rules d.headers d.path (some body_text);
  }

  -- A body that changed, with its length.
  unfoldable pub with_length : Option HeaderValue → (body : Text) → Draft → Result ProxyError Draft
  unfolding insert_named
  with_length none body d = err bad_header_value
  with_length (some value) body d =
      ok (record d { headers = insert_named (text "content-length") value d.headers; body = body })

  unfoldable pub set_body : (body : Text) → Draft → Result ProxyError Draft
  unfolding with_length
  set_body body d = with_length (header_value (show (length body))) body d

  unfoldable pub rewrite_body_of : Server → Draft → Result ProxyError Draft
  unfolding set_body apply_to_body
  rewrite_body_of server d =
      let rewritten =
        apply_to_body crates server.rules d.body RuleDirection.request d.headers d.path in
      if is_utf8 d.body && not (text_eq rewritten d.body) then set_body rewritten d else ok d

  unfoldable pub rewrite : Server → Draft → Result ProxyError Draft
  unfolding rewrite_url_of rewrite_headers_of rewrite_body_of from_utf8_lossy
  rewrite server d =
      rewrite_body_of server
        (rewrite_headers_of server (from_utf8_lossy d.body) (rewrite_url_of server d))

  -- The headers that the user left: those with a name and a value that can stand there.
  append_valid : Option HeaderName → Option HeaderValue → HeaderMap → HeaderMap
  append_valid (some name) (some value) headers = append name value headers
  append_valid _ _ headers = headers

  headers_into : HeaderMap → List InterceptHeader → HeaderMap
  unfolding append_valid trim
  headers_into headers [] = headers
  headers_into headers (h ∷ hs) =
      headers_into
        (if is_empty_text (trim h.name)
          then headers
          else append_valid (header_name (trim h.name)) (header_value h.value) headers)
        hs

  unfoldable pub headers_from_intercept : List InterceptHeader → HeaderMap
  unfolding headers_into
  headers_from_intercept hs = headers_into empty hs

  unfoldable pub edited_url : Option (Text × Text × Text) → Draft → Draft
  edited_url none d = d
  edited_url (some (scheme, host, path)) d = record d { scheme = scheme; host = host; path = path }

  unfoldable pub apply_edit : InterceptEdit → Draft → Result ProxyError Draft
  unfolding edited_url headers_from_intercept set_body parse_edited_url
  apply_edit edit d =
      let moved = edited_url (parse_edited_url parse_uri edit.url) d in
      set_body edit.body (record moved {
        method = if is_method edit.method then edit.method else d.method;
        headers = headers_from_intercept edit.headers;
      })

  unfoldable pub edited : Result ProxyError Draft → Result ProxyError (Option Draft)
  edited (err e) = err e
  edited (ok d) = ok (some d)

  -- `none` is an item that the user drops.
  unfoldable pub decide : InterceptDecision → Draft → Result ProxyError (Option Draft)
  unfolding apply_edit edited
  decide dropped d = ok none
  decide (forwarded none) d = ok (some d)
  decide (forwarded (some edit)) d = edited (apply_edit edit d)

  unfoldable pub intercepted :
      (intercepts : Bool)
      → InterceptDecision
      → Result ProxyError Draft
      → Result ProxyError (Option Draft)
  unfolding decide
  intercepted intercepts decision (err e) = err e
  intercepted true decision (ok d) = decide decision d
  intercepted false decision (ok d) = ok (some d)

  unfoldable pub forwardable : HeaderMap → List (Text × HeaderValue)
  unfolding is_hop_by_hop
  forwardable headers = filter (λ h. not (is_hop_by_hop h.0)) (entries headers)

  unfoldable pub upstream_of : Draft → Upstream
  unfolding forwardable url_of
  upstream_of d = record {
    method = d.method;
    uri = url_of d;
    headers = forwardable d.headers;
    body = d.body;
  }

  -- A request for the list of revoked certificates, which the proxy serves itself.
  unfoldable pub asks_crl : Request → Bool
  unfolding path_of
  asks_crl r = elim r.tunnel_host [
    | none ↦ text_eq (path_of r) (text "/ca.crl")
    | some host ↦ false
  ]

  -- What is ready to be sent: the draft, or none if the user dropped it.
  unfoldable pub prepare :
      Server → InterceptDecision → Request → (scheme host : Text) → Result ProxyError (Option Draft)
  unfolding draft_of rewrite intercepted should_intercept_request
  prepare server decision r scheme host =
      intercepted (should_intercept_request server.intercept) decision
        (rewrite server (draft_of r scheme host))

  pub data Sent : Type 0 where
    not_sent : ProxyError → Sent
    serve_crl : Sent
    dropped_answer : Sent
    sent : Upstream → Sent

  unfoldable pub send_draft : Result ProxyError (Option Draft) → Sent
  unfolding upstream_of url_of
  send_draft (err e) = not_sent e
  send_draft (ok none) = dropped_answer
  send_draft (ok (some d)) =
      if is_uri (url_of d) then sent (upstream_of d) else not_sent bad_request

  -- What the proxy does with a request whose target is known.
  unfoldable pub handle : Server → InterceptDecision → Request → Option (Text × Text) → Sent
  unfolding prepare send_draft asks_crl
  handle server decision r none = not_sent missing_target_host
  handle server decision r (some (scheme, host)) =
      if asks_crl r then serve_crl else send_draft (prepare server decision r scheme host)

  unfoldable pub exchange : Server → InterceptDecision → Request → Sent
  unfolding origin handle
  exchange server decision r = handle server decision r (origin r)
