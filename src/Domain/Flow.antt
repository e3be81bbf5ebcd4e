-- ===== src/Domain/Flow.antt =====
-- crates/domain/src/http_flow.rs: a captured request with its response, its size for the capture
-- buffer's byte cap, and its fingerprint for deduplication. A timestamp is a number. A header map
-- or cookie map is the list of its entries in key order.
pub mod Laws
use aiautotest.Common.{
  ℕ, ◌≡◌, Option, none, some, List, [], ◌∷◌, ◌++◌, Text, text, length, saturating_add, unwrap_or,
}

pub data HttpMethod : Type 0 where
  get post put delete patch options head : HttpMethod
  other : Text → HttpMethod

unfoldable pub as_str : HttpMethod → Text
as_str get = text "GET"
as_str post = text "POST"
as_str put = text "PUT"
as_str delete = text "DELETE"
as_str patch = text "PATCH"
as_str options = text "OPTIONS"
as_str head = text "HEAD"
as_str (other method) = method

abbrev pub HeaderMap : Type 0
HeaderMap = List (Text × Text)

pub record HttpFlow : Type 0 where
  pub id : Text
  pub session_id : Text
  pub timestamp : ℕ
  pub method : HttpMethod
  pub host : Text
  pub ip : Text
  pub path : Text
  pub full_url : Text
  pub request_headers : HeaderMap
  pub request_body : Option Text
  pub request_cookies : List Text
  pub request_cookie_values : HeaderMap
  pub response_status : ℕ
  pub response_headers : HeaderMap
  pub response_body : Option Text
  pub response_body_len : ℕ
  pub response_cookies : List Text
  pub response_cookie_values : HeaderMap
  pub content_type : Text
  pub duration_ms : ℕ

-- `Option<&str>::map_or(0, str::len)`.
body_len : Option Text → ℕ
body_len none = 0
body_len (some body) = length body

-- A loop of `size_bytes` over the entries of two maps, from the total so far.
add_entries : ℕ → HeaderMap → ℕ
add_entries total [] = total
add_entries total ((key, value) ∷ entries) =
    add_entries (saturating_add (saturating_add total (length key)) (length value)) entries

unfoldable pub size_bytes : HttpFlow → ℕ
unfolding body_len add_entries
size_bytes f =
    let total : ℕ = 256 in
    let total = saturating_add total (length f.session_id) in
    let total = saturating_add total (length f.host) in
    let total = saturating_add total (length f.ip) in
    let total = saturating_add total (length f.path) in
    let total = saturating_add total (length f.full_url) in
    let total = saturating_add total (length f.content_type) in
    let total = saturating_add total (body_len f.request_body) in
    let total = saturating_add total (body_len f.response_body) in
    let total = add_entries total (f.request_headers ++ f.response_headers) in
    add_entries total (f.request_cookie_values ++ f.response_cookie_values)

-- `md5_hex` is the md5 crate's digest, printed in hexadecimal.
unfoldable pub fingerprint : (Text → Text) → HttpFlow → Text
unfolding as_str
fingerprint md5_hex f =
    text "HttpMethod."
    ++ (as_str f.method
        ++ (text ":" ++ (f.path ++ (text ":" ++ md5_hex (unwrap_or f.request_body [])))))
