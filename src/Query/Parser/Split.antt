-- ===== src/Query/Parser/Split.antt =====
-- The parts of a line, put together again.
use aiautotest.Common.{
  ℕ, ◌≤◌, true, List, [], ◌∷◌, ◌++◌, Text, length, length-append, All, Bool-cases, inl, inr, ◌≡◌,
  refl, ap, arith,
}
use aiautotest.Query.Parser.{split_from, split_top_level, is_cut, opened, closed}

-- `[T]::join` on a first part and the others.
abbrev pub join : ℕ → Text → List Text → Text
join sep part [] = part
join sep part (next ∷ parts) = part ++ sep ∷ join sep next parts

join-cons :
    (sep c : ℕ) (part : Text) (parts : List Text)
    → join sep (c ∷ part) parts ≡ c ∷ join sep part parts
join-cons sep c part [] = refl
join-cons sep c part (p ∷ parts) = refl

is_cut-sep : (sep up down c : ℕ) → is_cut sep up down c ≡ true → c ≡ sep
unfolding is_cut
is_cut-sep sep up down c h = ground (arith, h)

split_from-join :
    (sep up down : ℕ) (s : Text)
    → let (part, parts) = split_from sep up down s in join sep part parts ≡ s
unfolding split_from
split_from-join sep up down [] = refl
split_from-join sep up down (c ∷ s) =
    let rest = split_from sep (opened c up) (closed c down) s in
    let same = split_from-join sep (opened c up) (closed c down) s in
    elim (Bool-cases (is_cut sep up down c)) [
      | inl e ↦ rw e (ground (arith, is_cut-sep sep up down c e, same))
      | inr e ↦ rw (e, join-cons sep c rest.0 rest.1) (ap (λ t. c ∷ t) same)
    ]

-- Splitting loses nothing: the parts, joined by the separator, are the text.
pub join-split_top_level :
    (input : Text) (sep : ℕ)
    → let (part, parts) = split_top_level input sep in join sep part parts ≡ input
unfolding split_top_level
join-split_top_level input sep = split_from-join sep 0 0 input

abbrev pub AreWithin : ℕ → List Text → Type 0
AreWithin n parts = All (λ p. length p ≤ n) parts

within-join :
    (n sep : ℕ) (part : Text) (parts : List Text)
    → length (join sep part parts) ≤ n
    → (length part ≤ n) × AreWithin n parts
within-join n sep part [] h = (h, tt)
within-join n sep part (p ∷ parts) h =
    let both = length-append part (sep ∷ join sep p parts) in
    let rest = within-join n sep p parts (omega arith) in (omega arith, rest)

pub split_top_level-AreWithin :
    (input : Text) (sep n : ℕ)
    → length input ≤ n
    → (length (split_top_level input sep).0 ≤ n) × AreWithin n (split_top_level input sep).1
split_top_level-AreWithin input sep n h =
    let (part, parts) = split_top_level input sep in
    let same = ap length (join-split_top_level input sep) in
    within-join n sep (split_top_level input sep).0 (split_top_level input sep).1 (omega arith)
