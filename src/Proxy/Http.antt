-- ===== src/Proxy/Http.antt =====
-- crates/proxy/src/http/parse.rs: the heads and bodies of requests and responses. A buffer is its
-- bytes; no buffer is longer than `usize::MAX`.
pub mod Utf8
pub mod Chunks
pub mod Laws
pub mod Cookies
pub mod Decode
mod Tests
use aiautotest.Common.{
  ℕ, suc, ◌+◌, ◌-◌, ◌*◌, ◌==◌, ltb, if◌then◌else◌, unwrap_or, Bool, not, ◌&&◌, Option, none, some,
  List, [], ◌∷◌, length, take, drop, any, filter, find, Text, text, starts_with, is_space, trim,
  find_split, parse_digits, parse_usize, to_ascii_lowercase, eq_ignore_ascii_case, is_empty_text,
  contains_text,
}
use aiautotest.Proxy.Http.Utf8.{is_utf8}
use aiautotest.Proxy.Http.Chunks.{decode_chunked, Outcome, decoded, malformed, out_of_fuel}

unfoldable pub max_body_size : ℕ
max_body_size = 10 * 1024 * 1024

pub record Header : Type 0 where
  pub name : Text
  pub value : Text

pub record ParsedRequest : Type 0 where
  pub method : Text
  pub target : Text
  pub version : Text
  pub headers : List Header
  pub body : Option Text
  pub consumed : ℕ

pub record ParsedResponse : Type 0 where
  pub version : Text
  pub status : ℕ
  pub reason : Text
  pub headers : List Header
  pub body : Option Text
  pub head_len : ℕ

shifted : Option ℕ → Option ℕ
shifted none = none
shifted (some i) = some (suc i)

abbrev pub head_end_marker : Text
head_end_marker = b'\r' ∷ b'\n' ∷ b'\r' ∷ b'\n' ∷ []

-- The index of the first "\r\n\r\n".
unfoldable pub find_head_end : Text → Option ℕ
unfolding shifted
find_head_end [] = none
find_head_end (c ∷ s) =
    let later = shifted (find_head_end s) in
    if starts_with head_end_marker (c ∷ s) then some 0 else later

-- `split("\r\n")`: the first line and the others.
unfoldable pub split_crlf : Text → Text × List Text
split_crlf [] = ([], [])
split_crlf (c ∷ []) = (c ∷ [], [])
split_crlf (c ∷ d ∷ s) =
    let (line, lines) = split_crlf s in
    let (part, parts) = split_crlf (d ∷ s) in
    if c == b'\r' && d == b'\n' then ([], line ∷ lines) else (c ∷ part, parts)

unfoldable pub split_space : Text → Text × List Text
split_space [] = ([], [])
split_space (c ∷ s) =
    let (word, words) = split_space s in
    if is_space c then ([], word ∷ words) else (c ∷ word, words)

unfoldable pub split_whitespace : Text → List Text
unfolding split_space
split_whitespace s =
    let (word, words) = split_space s in filter (λ w. not (is_empty_text w)) (word ∷ words)

header_with : (name : Text) → Option Text → Option (List Header) → Option (List Header)
header_with name none rest = none
header_with name (some value) none = none
header_with name (some value) (some headers) =
    some (record { name = trim name; value = trim value } ∷ headers)

-- `split_once(':')` of a line, before what the other lines give.
header_of : Text × Option Text → Option (List Header) → Option (List Header)
unfolding header_with
header_of (name, value) rest = header_with name value rest

unfoldable pub parse_header_lines : List Text → Option (List Header)
unfolding header_of find_split trim
parse_header_lines [] = some []
parse_header_lines (line ∷ lines) =
    let rest = parse_header_lines lines in
    if is_empty_text line then rest else header_of (find_split b':' line) rest

number_of : Option Header → Option ℕ
unfolding parse_usize trim
number_of none = none
number_of (some header) = parse_usize (trim header.value)

unfoldable pub content_length : List Header → ℕ
unfolding number_of eq_ignore_ascii_case
content_length headers =
    unwrap_or (number_of (find (λ h. eq_ignore_ascii_case h.name (text "content-length")) headers))
      0

unfoldable pub is_chunked : List Header → Bool
unfolding eq_ignore_ascii_case to_ascii_lowercase contains_text
is_chunked headers =
    any
      (λ h.
        eq_ignore_ascii_case h.name (text "transfer-encoding")
        && contains_text (text "chunked") (to_ascii_lowercase h.value))
      headers

-- The body of `length` bytes, when they have all arrived; `start` is behind the head.
unfoldable pub request_body : (start length : ℕ) → (buffer : Text) → Option (Option Text)
request_body start needed buffer =
    if ltb (length buffer - start) needed
    then none
    else some (if ltb 0 needed then some (take needed (drop start buffer)) else none)

unfoldable pub finish_request :
    (method target version : Text)
    → (start : ℕ) → List Header
    → Option (Option Text)
    → Option ParsedRequest
finish_request method target version start headers none = none
finish_request method target version start headers (some body) = some (record {
  method = method;
  target = target;
  version = version;
  headers = headers;
  body = body;
  consumed = start + content_length headers;
})

unfoldable pub request_with :
    (words : List Text)
    → (start : ℕ) → (buffer : Text) → Option (List Header)
    → Option ParsedRequest
unfolding finish_request request_body
request_with (method ∷ target ∷ version ∷ words) start buffer (some headers) =
    finish_request method target version start headers
      (request_body start (content_length headers) buffer)
request_with _ start buffer _ = none

request_of : Text × List Text → (start : ℕ) → (buffer : Text) → Option ParsedRequest
unfolding request_with split_whitespace parse_header_lines
request_of (request_line, lines) start buffer =
    request_with (split_whitespace request_line) start buffer (parse_header_lines lines)

unfoldable pub request_at : Option ℕ → (buffer : Text) → Option ParsedRequest
unfolding request_of split_crlf is_utf8
request_at none buffer = none
request_at (some head_end) buffer =
    if is_utf8 (take head_end buffer)
    then request_of (split_crlf (take head_end buffer)) (head_end + 4) buffer
    else none

unfoldable pub parse_request : (buffer : Text) → Option ParsedRequest
unfolding request_at find_head_end
parse_request buffer = request_at (find_head_end buffer) buffer

-- `parse::<u16>`, which takes one leading '+'.
unfoldable pub parse_u16 : Text → Option ℕ
unfolding parse_digits
parse_u16 [] = none
parse_u16 (c ∷ s) = if c == b'+' then parse_digits 65535 s else parse_digits 65535 (c ∷ s)

decoded_body : Outcome → Option Text
decoded_body (decoded body) = some body
decoded_body _ = none

unfoldable pub response_body : List Header → (raw : Text) → Option Text
unfolding decoded_body is_chunked decode_chunked
response_body headers [] = none
response_body headers (c ∷ s) =
    if is_chunked headers then decoded_body (decode_chunked (c ∷ s)) else some (c ∷ s)

finish_response :
    (version reason : Text)
    → (head_end : ℕ) → (raw : Text) → Option ℕ
    → Option (List Header)
    → Option ParsedResponse
unfolding response_body
finish_response version reason head_end raw (some status) (some headers) = some (record {
  version = version;
  status = status;
  reason = reason;
  headers = headers;
  body = response_body headers (drop (head_end + 4) raw);
  head_len = head_end + 4;
})
finish_response version reason head_end raw _ _ = none

-- What stands behind the version: the status, and the reason when there is one.
status_of :
    (version : Text)
    → ℕ
    → (raw : Text) → Text × Option Text
    → Option (List Header)
    → Option ParsedResponse
unfolding finish_response parse_u16
status_of version head_end raw (status, reason) headers =
    finish_response version (unwrap_or reason []) head_end raw (parse_u16 status) headers

version_of : ℕ → (raw : Text) → Text × Option Text → Option (List Header) → Option ParsedResponse
unfolding status_of find_split
version_of head_end raw (version, none) headers = none
version_of head_end raw (version, some rest) headers =
    status_of version head_end raw (find_split b' ' rest) headers

response_of : Text × List Text → ℕ → (raw : Text) → Option ParsedResponse
unfolding version_of find_split parse_header_lines
response_of (status_line, lines) head_end raw =
    version_of head_end raw (find_split b' ' status_line) (parse_header_lines lines)

response_at : Option ℕ → (raw : Text) → Option ParsedResponse
unfolding response_of split_crlf is_utf8
response_at none raw = none
response_at (some head_end) raw =
    if is_utf8 (take head_end raw)
    then response_of (split_crlf (take head_end raw)) head_end raw
    else none

unfoldable pub parse_response : (raw : Text) → Option ParsedResponse
unfolding response_at find_head_end
parse_response raw = response_at (find_head_end raw) raw
