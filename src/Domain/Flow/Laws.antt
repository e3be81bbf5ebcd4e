-- ===== src/Domain/Flow/Laws.antt =====
-- The size of a flow is its true size, cut off at `usize::MAX`; equal inputs have one fingerprint.
use aiautotest.Common.{ℕ, ◌+◌, ◌≡◌, ◌∙◌, [], ◌∷◌, ◌++◌, length, usize_max, arith, min}
use native.Mathlib.Nat.{add-zero}
use aiautotest.Domain.Flow.{HttpFlow, HeaderMap, size_bytes, add_entries, body_len}

-- The bytes of the entries of a map.
abbrev pub entries_len : HeaderMap → ℕ
entries_len [] = 0
entries_len ((key, value) ∷ entries) = length key + length value + entries_len entries

-- The bytes that the flow's texts really hold, with the fixed 256.
pub payload_len : HttpFlow → ℕ
payload_len f =
    256
    + length f.session_id
    + length f.host
    + length f.ip
    + length f.path
    + length f.full_url
    + length f.content_type
    + body_len f.request_body
    + body_len f.response_body
    + entries_len (f.request_headers ++ f.response_headers)
    + entries_len (f.request_cookie_values ++ f.response_cookie_values)

min-add : (a b : ℕ) → min (min a usize_max + b) usize_max ≡ min (a + b) usize_max
min-add a b = omega arith

add_entries-min :
    (a : ℕ) (entries : HeaderMap)
    → add_entries (min a usize_max) entries ≡ min (a + entries_len entries) usize_max
unfolding add_entries
add_entries-min a [] = rw add-zero
add_entries-min a ((key, value) ∷ entries) =
    rw (min-add a (length key), min-add (a + length key) (length value))
      (add_entries-min (a + length key + length value) entries ∙ omega arith)

-- The running total never wraps and loses nothing but what lies above `usize::MAX`: the size is the
-- sum of the lengths of all counted fields plus 256, or `usize::MAX` if that sum is larger.
pub size_bytes-min : (f : HttpFlow) → size_bytes f ≡ min (payload_len f) usize_max
unfolding size_bytes payload_len body_len
size_bytes-min f = simp (min-add, add_entries-min)
