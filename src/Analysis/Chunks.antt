-- ===== src/Analysis/Chunks.antt =====
-- crates/analysis/src/rsc_chunks.rs: the texts in the `self.__next_f.push` calls of a page. The page is
-- what the code still has to search; serde_json is a parameter.
pub mod Laws
use aiautotest.Common.{
  ℕ, zero, suc, ◌+◌, ◌-◌, ◌/◌, ◌%◌, ◌==◌, ltb, leb, if◌then◌else◌, ◌&&◌, ◌||◌, Option, none, some,
  List, [], ◌∷◌, ◌++◌, length, take, drop, Text, text, starts_with, contains_text,
}
use aiautotest.Workflow.Json.{
  Value, Items, Fields, null, bool, number, string, array, object, nil, cons, end, field,
}
use aiautotest.Proxy.Http.Chunks.{parse_hex}

-- Where the scan of a bracket expression stands.
pub data Mode : Type 0 where
  outside in_string escaped : Mode

pub data Step : Type 0 where
  go : (depth : ℕ) → Mode → Step
  close underflow : Step

-- `depth -= 1`, and the test for zero.
unfoldable pub closed : (depth : ℕ) → Step
closed zero = underflow
closed (suc zero) = close
closed (suc (suc depth)) = go (suc depth) outside

unfoldable pub step : (depth : ℕ) → Mode → (byte : ℕ) → Step
unfolding closed
step depth escaped byte = go depth in_string
step depth in_string byte =
    if byte == b'\\'
    then go depth escaped
    else if byte == b'"'
    then go depth outside
    else go depth in_string
step depth outside byte =
    if byte == b'"'
    then go depth in_string
    else if byte == b'['
    then go (suc depth) outside
    else if byte == b']'
    then closed depth
    else go depth outside

-- How many bytes the expression has, if it is closed; `overflowed` is the underflow of `depth`.
pub data Scanned : Type 0 where
  ended : ℕ → Scanned
  unclosed overflowed : Scanned

unfoldable pub one_more : Scanned → Scanned
one_more (ended n) = ended (suc n)
one_more unclosed = unclosed
one_more overflowed = overflowed

unfoldable pub scan : (depth : ℕ) → Mode → Text → Scanned
unfolding step one_more
scan depth mode [] = unclosed
scan depth mode (b ∷ s) = elim (step depth mode b) [
  | go depth' mode' ↦ one_more (scan depth' mode' s)
  | close ↦ ended 1
  | underflow ↦ overflowed
]

unfoldable pub balanced_bracket_end : Text → Scanned
unfolding scan
balanced_bracket_end [] = unclosed
balanced_bracket_end (b ∷ s) = if b == b'[' then scan 0 outside (b ∷ s) else unclosed

-- `char::from_u32` of a code of at most four digits, in UTF-8.
encode_utf8 : ℕ → Text
encode_utf8 c =
    if ltb c 128
    then c ∷ []
    else if ltb c 2048
    then (192 + c / 64) ∷ (128 + c % 64) ∷ []
    else if leb 55296 c && ltb c 57344
    then []
    else (224 + c / 4096) ∷ (128 + c / 64 % 64) ∷ (128 + c % 64) ∷ []

code_text : Option ℕ → Text
unfolding encode_utf8
code_text none = []
code_text (some c) = encode_utf8 c

-- The loop over the characters: in plain text, behind a backslash, or with `left` more characters of
-- a code to collect.
pub data Unescape : Type 0 where
  plain after_backslash : Unescape
  code : (left : ℕ) → (digits : Text) → Unescape

escape_text : ℕ → Text
escape_text b =
    if b == b'n'
    then b'\n' ∷ []
    else if b == b'r'
    then b'\r' ∷ []
    else if b == b't'
    then b'\t' ∷ []
    else if b == b'"' || b == b'\\'
    then b ∷ []
    else b'\\' ∷ b ∷ []

plain_text : ℕ → Unescape × Text
plain_text b = if b == b'\\' then (after_backslash, []) else (plain, b ∷ [])

code_step : (left : ℕ) → (digits : Text) → ℕ → Unescape × Text
unfolding plain_text code_text parse_hex
code_step left digits b =
    if (leb 128 b && ltb b 192) || ltb 0 left
    then (code (if leb 128 b && ltb b 192 then left else left - 1) (digits ++ b ∷ []), [])
    else (let (mode, out) = plain_text b in (mode, code_text (parse_hex digits) ++ out))

unescape_step : Unescape → ℕ → Unescape × Text
unfolding escape_text plain_text code_step
unescape_step plain b = plain_text b
unescape_step after_backslash b = if b == b'u' then (code 4 [], []) else (plain, escape_text b)
unescape_step (code left digits) b = code_step left digits b

unescape_end : Unescape → Text
unfolding code_text parse_hex
unescape_end plain = []
unescape_end after_backslash = b'\\' ∷ []
unescape_end (code left digits) = code_text (parse_hex digits)

unescape_from : Unescape → Text → Text
unfolding unescape_step unescape_end
unescape_from mode [] = unescape_end mode
unescape_from mode (b ∷ s) = let (mode', out) = unescape_step mode b in out ++ unescape_from mode' s

unfoldable pub unescape_json_string : Text → Text
unfolding unescape_from
unescape_json_string s = unescape_from plain s

abbrev pub needle : Text
needle = text "self.__next_f.push("

shifted : Option ℕ → Option ℕ
shifted none = none
shifted (some i) = some (suc i)

-- `str::find` of the needle.
unfoldable pub find_needle : Text → Option ℕ
unfolding shifted
find_needle [] = none
find_needle (c ∷ s) =
    let later = shifted (find_needle s) in if starts_with needle (c ∷ s) then some 0 else later

pub data Outcome : Type 0 where
  found : List Text → Outcome
  depth_overflow out_of_fuel : Outcome

unfoldable pub add_chunk : Option Text → Outcome → Outcome
add_chunk none o = o
add_chunk (some chunk) (found chunks) = found (chunk ∷ chunks)
add_chunk (some chunk) depth_overflow = depth_overflow
add_chunk (some chunk) out_of_fuel = out_of_fuel

module _ {N : Type 0} (from_str : Text → Option (Value N)) where
  -- The second element of the array, if it is a text.
  payload_of : Option (Value N) → Option Text
  payload_of (some (array (cons first (cons (string payload) rest)))) = some payload
  payload_of _ = none

  unescaped : Option Text → Option Text
  unfolding unescape_json_string
  unescaped none = none
  unescaped (some payload) = some (unescape_json_string payload)

  unfoldable pub chunk_of : (argument : Text) → Option Text
  unfolding payload_of unescaped
  chunk_of argument = unescaped (payload_of (from_str argument))

  -- `offset` is that of the next needle in the page.
  unfoldable pub search : (fuel : ℕ) → (page : Text) → Outcome
  unfolding find_needle balanced_bracket_end chunk_of add_chunk
  search zero page = elim (find_needle page) [ none ↦ found [] | some offset ↦ out_of_fuel ]
  search (suc fuel) page = elim (find_needle page) [
    | none ↦ found []
    | some offset ↦
        let after = drop (offset + length needle) page in
        elim (balanced_bracket_end after) [
          | ended n ↦ add_chunk (chunk_of (take n after)) (search fuel (drop n after))
          | unclosed ↦ search fuel after
          | overflowed ↦ depth_overflow
        ]
  ]

  -- Every round leaves a shorter page.
  unfoldable pub extract_rsc_chunks : (body : Text) → Outcome
  unfolding search contains_text
  extract_rsc_chunks body =
      if contains_text (text "self.__next_f") body then search (length body) body else found []
