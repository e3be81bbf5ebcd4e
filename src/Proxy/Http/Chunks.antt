-- ===== src/Proxy/Http/Chunks.antt =====
-- `decode_chunked` of crates/proxy/src/http/parse.rs. The buffer is at most `usize::MAX` long, so a
-- chunk whose end would overflow is one that is longer than what is left.
pub mod Frames
pub mod Laws
use aiautotest.Common.{
  ℕ, zero, suc, ◌+◌, ◌-◌, ◌*◌, ◌==◌, ltb, leb, usize_max, Bool, true, false, ◌&&◌, Option, none,
  some, List, [], ◌∷◌, ◌++◌, Text, text, length, take, drop, trim, split, strip_prefix, unwrap_or,
  if◌then◌else◌,
}
use aiautotest.Proxy.Http.Utf8.{is_utf8}

unfoldable pub hex_digit : ℕ → Option ℕ
hex_digit c =
    if leb b'0' c && leb c b'9'
    then some (c - b'0')
    else if leb b'a' c && leb c b'f'
    then some (c - b'a' + 10)
    else if leb b'A' c && leb c b'F'
    then some (c - b'A' + 10)
    else none

unfoldable pub hex_value : ℕ → Text → Option ℕ
unfolding hex_digit
hex_value acc [] = if leb acc usize_max then some acc else none
hex_value acc (c ∷ s) = elim (hex_digit c) [ none ↦ none | some d ↦ hex_value (acc * 16 + d) s ]

hex_digits : Text → Option ℕ
unfolding hex_value
hex_digits [] = none
hex_digits (c ∷ s) = hex_value 0 (c ∷ s)

-- `usize::from_str_radix(s, 16)`, which takes one leading '+'.
unfoldable pub parse_hex : Text → Option ℕ
unfolding hex_digits
parse_hex [] = none
parse_hex (c ∷ s) = if c == b'+' then hex_digits s else hex_digits (c ∷ s)

shifted : Option ℕ → Option ℕ
shifted none = none
shifted (some i) = some (suc i)

-- The index of the first "\r\n".
unfoldable pub find_crlf : Text → Option ℕ
unfolding shifted
find_crlf [] = none
find_crlf (c ∷ []) = none
find_crlf (c ∷ d ∷ s) =
    let later = shifted (find_crlf (d ∷ s)) in if c == b'\r' && d == b'\n' then some 0 else later

unfoldable pub read_size : (line : Text) → Option ℕ
unfolding is_utf8 split trim parse_hex
read_size line = if is_utf8 line then parse_hex (trim (split b';' line).0) else none

-- What one round of the loop finds.
pub data Chunk : Type 0 where
  bad last : Chunk
  payload : (bytes rest : Text) → Chunk

unfoldable pub skip_crlf : Text → Text
unfolding strip_prefix
skip_crlf s = unwrap_or (strip_prefix (b'\r' ∷ b'\n' ∷ []) s) s

unfoldable pub read_payload : ℕ → (rest : Text) → Chunk
unfolding skip_crlf
read_payload size rest =
    if size == 0
    then last
    else if ltb (length rest) size
    then bad
    else payload (take size rest) (skip_crlf (drop size rest))

unfoldable pub read_sized : Option ℕ → (rest : Text) → Chunk
unfolding read_payload
read_sized none rest = bad
read_sized (some size) rest = read_payload size rest

unfoldable pub read_line : Option ℕ → Text → Chunk
unfolding read_sized read_size
read_line none body = bad
read_line (some line_end) body =
    read_sized (read_size (take line_end body)) (drop (line_end + 2) body)

unfoldable pub read_chunk : Text → Chunk
unfolding read_line find_crlf
read_chunk body = read_line (find_crlf body) body

pub data Outcome : Type 0 where
  decoded : Text → Outcome
  malformed out_of_fuel : Outcome

unfoldable pub decode_loop : (fuel : ℕ) → (done : Text) → (rest : Text) → Outcome
unfolding read_chunk
decode_loop fuel done [] = decoded done
decode_loop zero done (c ∷ s) = out_of_fuel
decode_loop (suc fuel) done (c ∷ s) = elim (read_chunk (c ∷ s)) [
  | bad ↦ malformed
  | last ↦ decoded done
  | payload bytes rest ↦ decode_loop fuel (done ++ bytes) rest
]

-- Every round takes a byte off.
unfoldable pub decode_chunked : Text → Outcome
unfolding decode_loop
decode_chunked body = decode_loop (length body) [] body
