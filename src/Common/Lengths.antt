-- ===== src/Common/Lengths.antt =====
-- How long the parts of a text are.
use Prim.Native.Nat.{◌≤◌}
use mathlib.Core.Bool.{true}
use mathlib.Core.Path.{◌≡◌, refl, ap, ◌∙◌}
use mathlib.Core.List.{List, [], ◌∷◌, reverse, reverse-cons}
use native.Mathlib.Omega.{arith}
use aiautotest.Common.Lists.{length, length-append}
use aiautotest.Common.Texts.{Text, starts_with}
use aiautotest.Common.Strings.{trim_start, trim}

pub length-reverse {ℓ} : {A : Type ℓ} (xs : List A) → length (reverse xs) ≡ length xs
length-reverse [] = refl
length-reverse (x ∷ xs) =
    let last = ap length (reverse-cons x xs) ∙ length-append (reverse xs) (x ∷ []) in
    omega (arith, last, length-reverse xs)

length-trim_start : (s : Text) → length (trim_start s) ≤ length s
unfolding trim_start
length-trim_start [] = omega arith
length-trim_start (c ∷ s) = ground (arith, length-trim_start s)

pub length-trim : (s : Text) → length (trim s) ≤ length s
unfolding trim
length-trim s =
    let front = length-trim_start s in
    let turned = length-reverse (trim_start s) in
    let back = length-trim_start (reverse (trim_start s)) in
    let again = length-reverse (trim_start (reverse (trim_start s))) in
    omega (arith, front, turned, back, again)

pub length-starts_with : (p s : Text) → starts_with p s ≡ true → length p ≤ length s
length-starts_with [] s h = omega arith
length-starts_with (a ∷ p) [] h = cc h
length-starts_with (a ∷ p) (b ∷ s) h = ground (arith, length-starts_with p s)
