-- ===== src/Proxy/Exchange/Answer.antt =====
-- `proxy_request_inner` of crates/proxy/src/server.rs, from the response of the upstream to the answer
-- for the client, with the captures that it starts. What the request became is a `Draft`. The parts of
-- a response come from the crate http, so the response builder takes them.
pub mod Laws
use aiautotest.Common.{
  ℕ, ◌*◌, max, if◌then◌else◌, Bool, Option, none, some, List, [], ◌∷◌, take, Text, text, text_eq,
  unwrap_or, parse_usize,
}
use aiautotest.Auth.{Result, ok, err}
use aiautotest.Domain.Flow.{HttpMethod}
use aiautotest.Proxy.Intercept.{
  InterceptDecision, InterceptEdit, forwarded, dropped, should_intercept_response,
}
use aiautotest.Proxy.Relay.{TeeBody}
use aiautotest.Proxy.Relay
use aiautotest.Proxy.Relay.Collect.{Item, collect_body}
use aiautotest.Proxy.Rules.{Crates, apply_to_response_headers}
use aiautotest.Proxy.Exchange.{
  Wire, ProxyError, Server, Draft, forwardable, headers_from_intercept, remove_named, get_str,
}

unfoldable pub method_from_str : Text → HttpMethod
unfolding text_eq
method_from_str value =
    if text_eq value (text "GET")
    then HttpMethod.get
    else if text_eq value (text "POST")
    then HttpMethod.post
    else if text_eq value (text "PUT")
    then HttpMethod.put
    else if text_eq value (text "DELETE")
    then HttpMethod.delete
    else if text_eq value (text "PATCH")
    then HttpMethod.patch
    else if text_eq value (text "OPTIONS")
    then HttpMethod.options
    else if text_eq value (text "HEAD")
    then HttpMethod.head
    else HttpMethod.other value

module _ (crates : Crates) (wire : Wire crates) where
  open crates use {HeaderMap, HeaderValue}

  pub record FlowCaptureCtx : Type 0 where
    pub timestamp : ℕ
    pub duration_ms : ℕ
    pub method : HttpMethod
    pub host : Text
    pub ip : Text
    pub scheme : Text
    pub path : Text
    pub request_headers : HeaderMap
    pub request_body : Text
    pub status : ℕ
    pub response_headers : HeaderMap

  -- What the exchange knows beside the request: whether it is captured, the cap, the client and the
  -- clock, and the statuses that `StatusCode::from_u16` takes.
  pub record Setting : Type 0 where
    pub capture : Bool
    pub max_body_bytes : ℕ
    pub client_ip : Text
    pub timestamp : ℕ
    pub duration_ms : ℕ
    pub is_status : ℕ → Bool

  -- The response of the upstream. Its body is read as a whole or frame by frame.
  pub record Response : Type 0 where
    pub status : ℕ
    pub headers : HeaderMap
    pub items : List (Item ProxyError)

  -- The response while the user edits it.
  pub record Held : Type 0 where
    pub status : ℕ
    pub headers : HeaderMap
    pub body : Text

  -- An answer with its whole body and the captures that were started, or with a body that relays the
  -- upstream's.
  pub data Answer : Type 0 where
    failed : ProxyError → Answer
    dropped_answer : Answer
    whole :
        (status : ℕ) (headers : List (Text × HeaderValue)) (body : Text)
        (spawned : List (FlowCaptureCtx × Text))
        → Answer
    relayed :
        (status : ℕ) (headers : List (Text × HeaderValue)) (body : TeeBody FlowCaptureCtx) → Answer

  unfoldable pub build_ctx : Setting → Draft crates wire → (status : ℕ) → HeaderMap → FlowCaptureCtx
  unfolding method_from_str
  build_ctx setting d status headers = record {
    timestamp = setting.timestamp;
    duration_ms = setting.duration_ms;
    method = method_from_str d.method;
    host = d.host;
    ip = setting.client_ip;
    scheme = d.scheme;
    path = d.path;
    request_headers = d.headers;
    request_body = take setting.max_body_bytes d.body;
    status = status;
    response_headers = headers;
  }

  unfoldable pub edited_response : Setting → Option InterceptEdit → Held → Held
  unfolding headers_from_intercept
  edited_response setting none h = h
  edited_response setting (some edit) h = record {
    status =
        if setting.is_status (unwrap_or edit.status h.status)
        then unwrap_or edit.status h.status
        else h.status;
    headers = headers_from_intercept crates wire edit.headers;
    body = edit.body;
  }

  -- The body is whole, so the framing that the upstream declared goes.
  unfoldable pub without_framing : Held → Held
  unfolding remove_named
  without_framing h = record h {
    headers =
        remove_named crates wire (text "transfer-encoding")
          (remove_named crates wire (text "content-length") h.headers);
  }

  unfoldable pub answer_whole : Setting → Draft crates wire → Held → Answer
  unfolding build_ctx forwardable
  answer_whole setting d h =
      whole h.status (forwardable crates wire h.headers) h.body
        (if setting.capture then (build_ctx setting d h.status h.headers, h.body) ∷ [] else [])

  unfoldable pub answer_held :
      Setting
      → Draft crates wire
      → InterceptDecision
      → Response
      → HeaderMap
      → Result ProxyError (Text × Bool)
      → Answer
  unfolding answer_whole without_framing edited_response
  answer_held setting d decision r headers (err e) = failed e
  answer_held setting d dropped r headers (ok _) = dropped_answer
  answer_held setting d (forwarded edit) r headers (ok (body, truncated)) = answer_whole setting d (
      without_framing (
        edited_response setting edit
          (record { status = r.status; headers = headers; body = body })))

  -- The length that the upstream declared.
  unfoldable pub expected_of : HeaderMap → Option ℕ
  unfolding get_str parse_usize
  expected_of headers = elim (get_str crates wire (text "content-length") headers) [
    | none ↦ none
    | some value ↦ parse_usize value
  ]

  unfoldable pub answer_relayed : Setting → Draft crates wire → Response → HeaderMap → Answer
  unfolding build_ctx forwardable Relay.new expected_of
  answer_relayed setting d r headers = relayed r.status (forwardable crates wire headers) (
      Relay.new setting.max_body_bytes (expected_of r.headers)
        (if setting.capture then some (build_ctx setting d r.status r.headers) else none))

  -- The cap on a body that the user sees.
  unfoldable pub held_cap : Setting → ℕ
  held_cap setting = max setting.max_body_bytes (64 * 1024)

  unfoldable pub answer :
      Setting → Server crates wire → Draft crates wire → InterceptDecision → Response → Answer
  unfolding answer_held answer_relayed held_cap collect_body apply_to_response_headers
      should_intercept_response
  answer setting server d decision r =
      let headers = apply_to_response_headers crates server.rules r.headers d.path in
      if should_intercept_response server.intercept
      then answer_held setting d decision r headers (collect_body (held_cap setting) r.items)
      else answer_relayed setting d r headers
