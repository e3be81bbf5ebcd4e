-- ===== src/Scanner/Request.antt =====
-- The request and the error of crates/ports/src/lib.rs, with its fingerprint (crates/scanner/src/dedup.rs) and the
-- host and path that the scope guard looks at (`host_path` of crates/scanner/src/scheduler.rs).
use aiautotest.Common.{
  ℕ, Option, none, some, List, [], ◌∷◌, ◌++◌, Text, text, ◌==◌, if◌then◌else◌, unwrap_or,
}

pub record HttpRequest : Type 0 where
  pub method : Text
  pub url : Text
  pub headers : List (Text × Text)
  pub body : Option Text

-- `md5_hex` is the md5 crate's digest, printed in hexadecimal.
unfoldable pub fingerprint : (Text → Text) → HttpRequest → Text
fingerprint md5_hex r =
    r.method ++ (text ":" ++ (r.url ++ (text ":" ++ md5_hex (unwrap_or r.body []))))

-- `str::split_once` at one ASCII character.
unfoldable pub split_once : ℕ → Text → Option (Text × Text)
split_once sep [] = none
split_once sep (c ∷ s) =
    let rest : Option (Text × Text) = elim (split_once sep s) [
      | none ↦ none
      | some (a, b) ↦ some (c ∷ a, b)
    ] in
    if c == sep then some ([], s) else rest

-- `parse_url` is the url crate: the host, empty if there is none, and the path of a valid URL.
unfoldable pub host_path : (Text → Option (Text × Text)) → Text → Text × Text
host_path parse_url url = elim (parse_url url) [
  | some (host, path) ↦ (host, path)
  | none ↦ elim (split_once b'/' url) [
    | some (host, path) ↦ (host, text "/" ++ path)
    | none ↦ (url, text "/")
  ]
]

-- `PortError` of crates/ports/src/lib.rs.
pub data PortError : Type 0 where
  not_found transient permanent : (message : Text) → PortError

-- Its `Display`.
unfoldable pub port_error_text : PortError → Text
port_error_text (not_found message) = text "resource not found: " ++ message
port_error_text (transient message) = text "transient failure, safe to retry: " ++ message
port_error_text (permanent message) = text "permanent failure: " ++ message
