-- ===== src/Proxy/Flow.antt =====
-- crates/proxy/src/flow.rs: the flow that a captured request and its response make. The crate http
-- is a parameter, and so are the decoders, the new id and the clock's answers.
pub mod Headers
use aiautotest.Common.{
  ℕ, zero, suc, ◌+◌, ◌-◌, ◌*◌, ◌/◌, ◌%◌, ◌≤◌, ltb, if◌then◌else◌, Option-cases, unwrap_or, inl, inr,
  true, false, Option, none, some, List, [], ◌∷◌, ◌++◌, map, arith, length, take, drop, length-take,
  Text, text,
}
use aiautotest.Domain.Flow.{HttpFlow, HttpMethod}
use aiautotest.Proxy.Http.{Header}
use aiautotest.Proxy.Http.Utf8.{is_utf8, from_utf8_lossy}
use aiautotest.Proxy.Http.Cookies.{cookie_names, cookie_values}
use aiautotest.Proxy.Http.Decode.{
  Decoders, content_encoding, decode_body, decode_body-take, decoder_for, whole,
}
use aiautotest.Proxy.Flow.Headers.{headers_to_map}

pub record Http : Type 1 where
  pub HeaderMap : Type 0
  -- `headers.keys()` with `get_all`: each name with the bytes of its values, in their order.
  pub keys : HeaderMap → List (Text × List Text)
  -- `headers.get("content-type")` with `to_str`, where the first is there and the second succeeds.
  pub get_str : Text → HeaderMap → Option Text

module _ (http : Http) where
  open http use {HeaderMap, keys, get_str}

  pub record FlowParts : Type 0 where
    pub timestamp : ℕ
    pub duration_ms : ℕ
    pub method : HttpMethod
    pub host : Text
    pub ip : Text
    pub scheme : Text
    pub path : Text
    pub request_headers : HeaderMap
    pub request_body : Option Text
    pub status : ℕ
    pub response_headers : HeaderMap
    pub response_body : Option Text

pub record FlowBuilder : Type 0 where
  pub session_id : Text
  pub max_body_bytes : ℕ

values_of : (name : Text) → List Text → List Header
unfolding from_utf8_lossy
values_of name [] = []
values_of name (value ∷ values) =
    record { name = name; value = from_utf8_lossy value } ∷ values_of name values

unfoldable pub headers_of : List (Text × List Text) → List Header
unfolding values_of
headers_of [] = []
headers_of ((name, values) ∷ keys) = values_of name values ++ headers_of keys

hex_char : ℕ → ℕ
hex_char d = if ltb d 10 then b'0' + d else b'a' + (d - 10)

-- `{:0width$x}` of a number below `16 ^ width`.
unfoldable pub hex_padded : (width : ℕ) → ℕ → Text
unfolding hex_char
hex_padded zero n = []
hex_padded (suc width) n = hex_padded width (n / 16) ++ hex_char (n % 16) ∷ []

unfoldable pub join : (sep : Text) → List Text → Text
join sep [] = []
join sep (a ∷ []) = a
join sep (a ∷ b ∷ rest) = a ++ (sep ++ join sep (b ∷ rest))

-- One line for each sixteen bytes, with the offset of the first. A captured body is below 4 GB.
unfoldable pub dump_lines : (fuel : ℕ) → (offset : ℕ) → Text → List Text
unfolding hex_padded join
dump_lines fuel offset [] = []
dump_lines zero offset (b ∷ body) = []
dump_lines (suc fuel) offset (b ∷ body) =
    (hex_padded 8 (offset * 16)
      ++ (text "  " ++ join (text " ") (map (hex_padded 2) (take 16 (b ∷ body)))))
    ∷ dump_lines fuel (offset + 1) (drop 16 (b ∷ body))

unfoldable pub decoded_to_string : Text → Text
unfolding is_utf8 dump_lines
decoded_to_string decoded =
    if is_utf8 decoded then decoded else join (text "\n") (dump_lines (length decoded) 0 decoded)

map_text : (Text → Text) → Option Text → Option Text
map_text f none = none
map_text f (some s) = some (f s)

len_or_zero : Option Text → ℕ
len_or_zero none = 0
len_or_zero (some s) = length s

module _ (http : Http) (decoders : Decoders) where
  open http use {keys, get_str}

  -- The response body as it is stored: decoded, up to `max_body_bytes`.
  unfoldable pub decoded_body : FlowBuilder → FlowParts http → Option Text
  unfolding map_text headers_of content_encoding decode_body
  decoded_body builder parts =
      map_text
        (λ body.
          decode_body decoders body (content_encoding (headers_of (keys parts.response_headers)))
            builder.max_body_bytes)
        parts.response_body

  -- The flow that `capture` pushes into the sink.
  unfoldable pub flow_of : FlowBuilder → (id : Text) → FlowParts http → HttpFlow
  unfolding decoded_body headers_of headers_to_map cookie_names cookie_values decoded_to_string
      len_or_zero from_utf8_lossy
  flow_of builder id parts =
      let request_headers = headers_of (keys parts.request_headers) in
      let response_headers = headers_of (keys parts.response_headers) in
      let decoded = decoded_body builder parts in
      record {
        id = id;
        session_id = builder.session_id;
        timestamp = parts.timestamp;
        method = parts.method;
        host = parts.host;
        ip = parts.ip;
        path = parts.path;
        full_url = parts.scheme ++ (text "://" ++ (parts.host ++ parts.path));
        request_headers = headers_to_map request_headers;
        request_body = map_text from_utf8_lossy parts.request_body;
        request_cookies = cookie_names request_headers false;
        request_cookie_values = cookie_values request_headers false;
        response_status = parts.status;
        response_headers = headers_to_map response_headers;
        response_body = map_text decoded_to_string decoded;
        response_body_len = len_or_zero decoded;
        response_cookies = cookie_names response_headers true;
        response_cookie_values = cookie_values response_headers true;
        content_type = unwrap_or (get_str (text "content-type") parts.response_headers) [];
        duration_ms = parts.duration_ms;
      }

  -- `push` is the sink's.
  unfoldable pub capture :
      {W E : Type 0}
      → (push : HttpFlow → W → Option E × W) → FlowBuilder
      → (id : Text) → FlowParts http
      → W
      → Option E × W
  unfolding flow_of
  capture push builder id parts w = push (flow_of builder id parts) w

  -- No flow is pushed with more of the response body than the configured limit.
  pub flow_of-response_body_len :
      (builder : FlowBuilder) (id : Text) (parts : FlowParts http)
      → (flow_of builder id parts).response_body_len ≤ builder.max_body_bytes
  unfolding flow_of decoded_body map_text len_or_zero
  flow_of-response_body_len builder id parts = elim (Option-cases parts.response_body) [
    | inl e ↦ rw e (omega arith)
    | inr (body, e) ↦
        let encoding = content_encoding (headers_of (keys parts.response_headers)) in
        let cut = decode_body-take decoders body encoding builder.max_body_bytes in
        let short =
          length-take builder.max_body_bytes
            (whole decoders body builder.max_body_bytes (decoder_for decoders encoding)) in
        rw e (rw cut (omega (arith, short)))
  ]
