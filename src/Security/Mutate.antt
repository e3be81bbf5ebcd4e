-- ===== src/Security/Mutate.antt =====
-- crates/security/src/executor.rs: the request of a test. The crates url and serde_json are
-- parameters, and so is `to_uppercase`, which goes by Unicode. `none` is a panic: an index past the
-- end of a text, or inside of a character.
use aiautotest.Common.{
  ℕ, zero, suc, ◌+◌, ◌==◌, ltb, leb, if◌then◌else◌, unwrap_or, Bool, true, not, ◌&&◌, ◌||◌, Option,
  none, some, List, [], ◌∷◌, ◌++◌, reverse, length, take, drop, filter, Text, text, text_eq,
  starts_with, trim, find_split, eq_ignore_ascii_case, is_empty_text, contains_text,
}
use aiautotest.Workflow.Graph.{trim_end_char}
use aiautotest.Workflow.Json.{Value, string, array, object, end, field}
use aiautotest.Scanner.Request.{HttpRequest}
use aiautotest.Security.{SecurityTest}

pub record Crates : Type 1 where
  pub N : Type 0
  -- `url::form_urlencoded::byte_serialize`, `serde_json::from_str` and `Value::to_string`.
  pub byte_serialize : Text → Text
  pub from_str : Text → Option (Value N)
  pub to_string : Value N → Text
  pub to_uppercase : Text → Text

unfoldable pub join_url : (base path : Text) → Text
unfolding trim_end_char
join_url base path =
    let base = trim_end_char b'/' base in
    if starts_with (text "/") path then base ++ path else base ++ (text "/" ++ path)

-- A byte that continues a character.
abbrev is_continuation : ℕ → Bool
is_continuation b = leb 128 b && ltb b 192

boundary_before : Text → Bool
boundary_before [] = true
boundary_before (b ∷ s) = not (is_continuation b)

-- `s.is_char_boundary(i)`, and `&s[..i]`.
unfoldable pub is_boundary : ℕ → Text → Bool
unfolding boundary_before
is_boundary zero s = true
is_boundary (suc i) s = leb (suc i) (length s) && boundary_before (drop (suc i) s)

unfoldable pub slice_to : ℕ → Text → Option Text
unfolding is_boundary
slice_to i s = if is_boundary i s then some (take i s) else none

-- `rfind` of one ASCII character.
unfoldable pub rfind : ℕ → Text → Option ℕ
rfind c [] = none
rfind c (d ∷ s) = elim (rfind c s) [
  | some i ↦ some (suc i)
  | none ↦ if d == c then some 0 else none
]

unfoldable pub after_colon : (otherwise : Text) → (location : Text) → Text
unfolding find_split
after_colon otherwise location = unwrap_or (find_split b':' location).1 otherwise

abbrev json_header : Text × Text
json_header = (text "Content-Type", text "application/json")

-- What the payload changes: the path, the headers and the body.
pub record Parts : Type 0 where
  pub path : Text
  pub headers : List (Text × Text)
  pub body : Option Text

unfoldable pub with_query : (path addition : Text) → Text
unfolding contains_text
with_query path addition =
    path ++ ((if contains_text (text "?") path then text "&" else text "?") ++ addition)

query_suffix : Option Text → Text
query_suffix none = []
query_suffix (some query) = text "?" ++ query

unfoldable pub path_with : Option Text → (segment : Text) → Option Text → Option Parts
unfolding query_suffix
path_with none segment query = none
path_with (some prefix) segment query =
    some (record { path = prefix ++ (segment ++ query_suffix query); headers = []; body = none })

-- The last segment of the path is replaced; `&base[..=last_slash]` is the text before it.
unfoldable pub replace_segment : (segment path : Text) → Option Parts
unfolding path_with find_split slice_to rfind trim_end_char
replace_segment segment path =
    let (before, query) = find_split b'?' path in
    let base = trim_end_char b'/' before in
    path_with (slice_to (unwrap_or (rfind b'/' base) 0 + 1) base) segment query

-- `path.pop()`: the last character, which may have several bytes. The path is reversed.
pop_char : Text → Text
pop_char [] = []
pop_char (b ∷ s) = if is_continuation b then pop_char s else s

flip_last : (reversed : Text) → Text
unfolding pop_char
flip_last [] = []
flip_last (b ∷ s) = reverse ((if b == b'a' then b'b' else b'a') ∷ pop_char (b ∷ s))

-- The built-in payload of a flaw, on the path.
unfoldable pub fallback_path : (flaw path : Text) → Text
unfolding text_eq contains_text with_query flip_last
fallback_path flaw path =
    if text_eq flaw (text "xss")
    then with_query path (text "x=<script>alert(1)</script>")
    else if text_eq flaw (text "sqli")
    then with_query path (text "q='%20OR%201=1--")
    else if text_eq flaw (text "idor")
    then flip_last (reverse path)
    else if text_eq flaw (text "open_redirect")
    then if contains_text (text "callbackUrl") path || contains_text (text "redirect") path
      then path
      else with_query path (text "callbackUrl=https://evil.com")
    else path

-- `payload.filter(|p| !p.trim().is_empty())`.
unfoldable pub given_payload : Option Text → Option Text
unfolding trim
given_payload none = none
given_payload (some payload) = if is_empty_text (trim payload) then none else some payload

module _ (crates : Crates) where
  open crates use {N, byte_serialize, from_str, to_string, to_uppercase}

  -- An object or array stands as it is, anything else as a text.
  value_for : (payload : Text) → Option (Value N) → Value N
  value_for payload (some (array items)) = array items
  value_for payload (some (object fields)) = object fields
  value_for payload _ = string payload

  unfoldable pub field_body : (name payload : Text) → Text
  unfolding value_for
  field_body name payload =
      if is_empty_text name
      then payload
      else to_string (object (field name (value_for payload (from_str payload)) end))

  query_parts : (path addition : Text) → Option Parts
  unfolding with_query
  query_parts path addition =
      some (record { path = with_query path addition; headers = []; body = none })

  header_parts : (path name value : Text) → Option Parts
  header_parts path name value =
      some (record { path = path; headers = (name, value) ∷ []; body = none })

  body_parts : (path body : Text) → (is_json : Bool) → Option Parts
  body_parts path body is_json = some (record {
    path = path;
    headers = (if is_json then json_header ∷ [] else []);
    body = some body;
  })

  unfoldable pub payload_parts : (location payload path : Text) → Option Parts
  unfolding query_parts header_parts body_parts field_body replace_segment after_colon text_eq
      contains_text trim
  payload_parts location payload path =
      if starts_with (text "query:") location
      then query_parts path
          (after_colon (text "q") location ++ (text "=" ++ byte_serialize payload))
      else if text_eq location (text "query")
      then query_parts path (text "payload=" ++ byte_serialize payload)
      else if starts_with (text "body:") location
      then body_parts path (field_body (after_colon [] location) payload) true
      else if text_eq location (text "body")
      then body_parts path payload (starts_with (text "{") (trim payload))
      else if text_eq location (text "path")
      then replace_segment
          (if contains_text (text "/") payload then payload else byte_serialize payload) path
      else if starts_with (text "header:") location
      then header_parts path (after_colon (text "X-Payload") location) payload
      else if starts_with (text "cookie:") location
      then header_parts path (text "Cookie")
          (after_colon (text "session") location ++ (text "=" ++ payload))
      else query_parts path (text "payload=" ++ byte_serialize payload)

  parts_of : SecurityTest → Option Text → Option Parts
  unfolding payload_parts fallback_path trim
  parts_of test (some payload) =
      payload_parts (trim (unwrap_or test.location [])) payload test.target.path
  parts_of test none =
      some (record { path = fallback_path test.flaw test.target.path; headers = []; body = none })

  request_of : (method base_url : Text) → Option Parts → Option HttpRequest
  unfolding join_url
  request_of method base_url none = none
  request_of method base_url (some parts) = some (record {
    method = method;
    url = join_url base_url parts.path;
    headers = parts.headers;
    body = parts.body;
  })

  unfoldable pub mutate_target : SecurityTest → (base_url : Text) → Option HttpRequest
  unfolding request_of parts_of given_payload
  mutate_target test base_url =
      request_of (to_uppercase test.target.method) base_url
        (parts_of test (given_payload test.payload))

-- The headers without one name, and the header put behind them.
unfoldable pub replace_header : (name value : Text) → List (Text × Text) → List (Text × Text)
unfolding eq_ignore_ascii_case
replace_header name value headers =
    filter (λ h. not (eq_ignore_ascii_case h.0 name)) headers ++ (name, value) ∷ []

unfoldable pub replace_headers : List (Text × Text) → List (Text × Text) → List (Text × Text)
unfolding replace_header
replace_headers [] headers = headers
replace_headers ((name, value) ∷ given) headers =
    replace_headers given (replace_header name value headers)

unfoldable pub cookie_text : List (Text × Text) → Text
cookie_text [] = []
cookie_text ((k, v) ∷ []) = k ++ (text "=" ++ v)
cookie_text ((k, v) ∷ c ∷ rest) = k ++ (text "=" ++ (v ++ (text "; " ++ cookie_text (c ∷ rest))))

with_cookies : List (Text × Text) → List (Text × Text) → List (Text × Text)
unfolding replace_header cookie_text
with_cookies [] headers = headers
with_cookies (c ∷ cookies) headers =
    replace_header (text "Cookie") (cookie_text (c ∷ cookies)) headers

-- The cookies and headers of the captured traffic, put into a request.
unfoldable pub inject_auth :
    (auth_cookies auth_headers : List (Text × Text)) → HttpRequest → HttpRequest
unfolding with_cookies replace_headers
inject_auth auth_cookies auth_headers r = record r {
  headers = replace_headers auth_headers (with_cookies auth_cookies r.headers);
}
