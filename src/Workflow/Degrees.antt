-- ===== src/Workflow/Degrees.antt =====
-- In-degrees as a map: its keys, lists of keys, and how many of them were not seen.
use aiautotest.Common.{
  ℕ, ◌≤◌, ◌<◌, true, false, not, some, List, [], ◌∷◌, Text, text_eq_iff, filter, map, lookup,
  insert, contains, length, All, arith, ◌≡◌,
}

abbrev pub Degrees : Type 0
Degrees = List (Text × ℕ)

abbrev pub keys : Degrees → List Text
keys d = map (λ e. e.0) d

-- Every id is a key.
abbrev pub Known : List Text → List Text → Type 0
Known K ids = All (λ id. contains id K ≡ true) ids

abbrev pub unseen : List Text → List Text → ℕ
unseen K seen = length (filter (λ k. not (contains k seen)) K)

pub contains-keys :
    (k : Text) (n : ℕ) (d : Degrees) → lookup k d ≡ some n → contains k (keys d) ≡ true
unfolding lookup contains
contains-keys k n [] e = ground arith
contains-keys k n ((j, m) ∷ d) e = ground (arith, contains-keys k n d)

pub keys-insert :
    (k : Text) (n : ℕ) (d : Degrees) → contains k (keys d) ≡ true → keys (insert k n d) ≡ keys d
unfolding insert contains
keys-insert k n [] e = ground arith
keys-insert k n ((j, m) ∷ d) e = ground (arith, keys-insert k n d)

pub unseen_mono : (id : Text) (K seen : List Text) → unseen K (id ∷ seen) ≤ unseen K seen
unfolding contains
unseen_mono id [] seen = omega arith
unseen_mono id (k ∷ K) seen = ground (arith, unseen_mono id K seen)

pub unseen-visit :
    (id : Text) (K seen : List Text)
    → contains id K ≡ true
    → contains id seen ≡ false
    → unseen K (id ∷ seen) < unseen K seen
unfolding contains
unseen-visit id [] seen h f = ground arith
unseen-visit id (k ∷ K) seen h f =
    ground
      (arith, unseen-visit id K seen, unseen_mono id K seen, text_eq_iff k id, text_eq_iff id k)

pub unseen-length : (d : Degrees) → unseen (keys d) [] ≤ length d
unfolding contains
unseen-length [] = omega arith
unseen-length ((id, n) ∷ d) = ground (arith, unseen-length d)
