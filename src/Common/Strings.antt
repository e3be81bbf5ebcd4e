-- ===== src/Common/Strings.antt =====
-- The parts of `str` that the program calls, on texts. White space is that of ASCII, and numbers are
-- decimal.
use Prim.Native.Nat.{ℕ, ◌+◌, ◌-◌, ◌*◌}
use mathlib.Core.Bool.{Bool, true, false, ◌&&◌, ◌||◌}
use mathlib.Core.Option.{Option, none, some}
use mathlib.Core.List.{List, [], ◌∷◌, map, reverse}
use aiautotest.Common.Tests.{◌==◌, leb, if◌then◌else◌, usize_max}
use aiautotest.Common.Lists.{all}
use aiautotest.Common.Texts.{Text, text_eq, starts_with}

unfoldable pub is_space : ℕ → Bool
is_space c = c == 32 || (leb 9 c && leb c 13)

unfoldable pub trim_start : Text → Text
trim_start [] = []
trim_start (c ∷ s) = if is_space c then trim_start s else c ∷ s

unfoldable pub trim : Text → Text
unfolding trim_start is_space
trim s = reverse (trim_start (reverse (trim_start s)))

-- `str::split` at one ASCII character: the first part and the others.
unfoldable pub split : ℕ → Text → Text × List Text
split sep [] = ([], [])
split sep (c ∷ s) =
    let (part, parts) = split sep s in if c == sep then ([], part ∷ parts) else (c ∷ part, parts)

-- What stands before the first `sep`, and behind it if there is one.
unfoldable pub find_split : ℕ → Text → Text × Option Text
find_split sep [] = ([], none)
find_split sep (c ∷ s) =
    let (before, after) = find_split sep s in if c == sep then ([], some s) else (c ∷ before, after)

unfoldable pub is_digit : ℕ → Bool
is_digit c = leb b'0' c && leb c b'9'

unfoldable pub digits_value : ℕ → Text → ℕ
digits_value acc [] = acc
digits_value acc (c ∷ s) = digits_value (acc * 10 + (c - b'0')) s

unfoldable pub is_all_digits : Text → Bool
unfolding is_digit
is_all_digits [] = false
is_all_digits (c ∷ s) = all is_digit (c ∷ s)

-- Digits for a number that is at most `largest`.
unfoldable pub parse_digits : (largest : ℕ) → Text → Option ℕ
unfolding is_all_digits digits_value
parse_digits largest s =
    if is_all_digits s && leb (digits_value 0 s) largest then some (digits_value 0 s) else none

-- `parse::<usize>`, which takes one leading '+'.
unfoldable pub parse_usize : Text → Option ℕ
unfolding parse_digits
parse_usize [] = none
parse_usize (c ∷ s) = if c == b'+' then parse_digits usize_max s else parse_digits usize_max (c ∷ s)

lower : ℕ → ℕ
lower c = if leb b'A' c && leb c b'Z' then c + 32 else c

unfoldable pub to_ascii_lowercase : Text → Text
unfolding lower
to_ascii_lowercase s = map lower s

unfoldable pub eq_ignore_ascii_case : Text → Text → Bool
unfolding to_ascii_lowercase
eq_ignore_ascii_case s t = text_eq (to_ascii_lowercase s) (to_ascii_lowercase t)

abbrev pub is_empty_text : Text → Bool
is_empty_text [] = true
is_empty_text (c ∷ s) = false

-- `str::contains`: some suffix starts with the needle.
unfoldable pub contains_text : Text → Text → Bool
contains_text needle [] = is_empty_text needle
contains_text needle (c ∷ s) = starts_with needle (c ∷ s) || contains_text needle s
