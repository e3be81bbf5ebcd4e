-- ===== src/Proxy/Http/Utf8.antt =====
-- `std::str::from_utf8`: the well-formed byte sequences of UTF-8.
pub mod Laws
use aiautotest.Common.{
  ℕ, zero, suc, ◌+◌, ◌==◌, ltb, leb, if◌then◌else◌, Bool, true, false, ◌&&◌, Option, none, some, [],
  ◌∷◌, ◌++◌, Text,
}

-- How many bytes the character still has, and the range of the next of them.
record Expected : Type 0 where
  pub more : ℕ
  pub lowest : ℕ
  pub highest : ℕ

expect : ℕ → ℕ → ℕ → Option Expected
expect more lowest highest = some (record { more = more; lowest = lowest; highest = highest })

lead : ℕ → Option Expected
unfolding expect
lead b =
    if ltb b 128
    then expect 0 0 0
    else if ltb b 194
    then none
    else if ltb b 224
    then expect 1 128 191
    else if ltb b 240
    then expect 2 (if b == 224 then 160 else 128) (if b == 237 then 159 else 191)
    else if ltb b 245
    then expect 3 (if b == 240 then 144 else 128) (if b == 244 then 143 else 191)
    else none

-- A byte of a character that `more` bytes follow, if it lies in the range.
next_in : (inside : Bool) → (more : ℕ) → Option Expected
unfolding expect
next_in true more = expect more 128 191
next_in false more = none

next_byte : ℕ → ℕ → ℕ → ℕ → Option Expected
unfolding lead next_in
next_byte zero lowest highest b = lead b
next_byte (suc more) lowest highest b = next_in (leb lowest b && leb b highest) more

run : Option Expected → Text → Bool
unfolding next_byte
run none s = false
run (some e) [] = leb e.more 0
run (some e) (b ∷ s) = run (next_byte e.more e.lowest e.highest b) s

unfoldable pub is_utf8 : Text → Bool
unfolding run expect
is_utf8 s = run (expect 0 0 0) s

-- What a byte puts out behind the bytes that wait for the rest of their character, and what waits
-- then. Bytes that begin no character become U+FFFD.
record Reading : Type 0 where
  pub out : Text
  pub state : Expected
  pub waiting : Text

abbrev replacement : Text
replacement = 239 ∷ 191 ∷ 189 ∷ []

-- The bytes of a character that may have ended.
settle : (out : Text) → (bytes : Text) → (more lowest highest : ℕ) → Reading
unfolding expect
settle out bytes zero lowest highest = record {
  out = out ++ bytes;
  state = record { more = 0; lowest = 0; highest = 0 };
  waiting = [];
}
settle out bytes (suc more) lowest highest = record {
  out = out;
  state = record { more = suc more; lowest = lowest; highest = highest };
  waiting = bytes;
}

begin : (out : Text) → ℕ → Option Expected → Reading
unfolding settle
begin out b none = record {
  out = out ++ replacement;
  state = record { more = 0; lowest = 0; highest = 0 };
  waiting = [];
}
begin out b (some e) = settle out (b ∷ []) e.more e.lowest e.highest

read_in : (inside : Bool) → (more : ℕ) → (waiting : Text) → ℕ → Reading
unfolding begin lead
read_in true more waiting b = settle [] (waiting ++ b ∷ []) more 128 191
read_in false more waiting b = begin replacement b (lead b)

read_byte : (more lowest highest : ℕ) → (waiting : Text) → ℕ → Reading
unfolding read_in
read_byte zero lowest highest waiting b = begin [] b (lead b)
read_byte (suc more) lowest highest waiting b =
    read_in (leb lowest b && leb b highest) more waiting b

lossy : (e : Expected) → (waiting : Text) → Text → Text
unfolding read_byte
lossy e [] [] = []
lossy e (b ∷ waiting) [] = replacement
lossy e waiting (b ∷ s) =
    let r = read_byte e.more e.lowest e.highest waiting b in r.out ++ lossy r.state r.waiting s

-- `String::from_utf8_lossy`.
unfoldable pub from_utf8_lossy : Text → Text
unfolding lossy
from_utf8_lossy s = lossy (record { more = 0; lowest = 0; highest = 0 }) [] s
