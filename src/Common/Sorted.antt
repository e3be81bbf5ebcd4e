-- ===== src/Common/Sorted.antt =====
-- `BTreeSet<String>` and `BTreeMap<String, _>`: lists in ascending order of the texts.
use mathlib.Core.Path.{◌≡◌, refl}
use mathlib.Core.Bool.{true, false, ◌||◌}
use mathlib.Core.Logic.{inl, inr}
use mathlib.Core.Option.{some}
use mathlib.Core.List.{List, [], ◌∷◌}
use native.Mathlib.Omega.{arith}
use aiautotest.Common.Tests.{if◌then◌else◌, Bool-cases}
use aiautotest.Common.Texts.{Text, text_eq, text_eq_iff, text_le, text_le_total}
use aiautotest.Common.Assoc.{contains, lookup}

unfoldable pub set_insert : Text → List Text → List Text
set_insert a [] = a ∷ []
set_insert a (b ∷ bs) =
    let rest = set_insert a bs in
    if text_eq a b then b ∷ bs else if text_le a b then a ∷ b ∷ bs else b ∷ rest

unfoldable pub to_set : List Text → List Text
unfolding set_insert
to_set [] = []
to_set (a ∷ s) = set_insert a (to_set s)

unfoldable pub map_insert {ℓ} : {V : Type ℓ} → Text → V → List (Text × V) → List (Text × V)
map_insert k v [] = (k, v) ∷ []
map_insert k v ((j, w) ∷ m) =
    let rest = map_insert k v m in
    if text_eq k j then (j, v) ∷ m else if text_le k j then (k, v) ∷ (j, w) ∷ m else (j, w) ∷ rest

pub contains-set_insert :
    (k a : Text) (s : List Text) → contains k (set_insert a s) ≡ (text_eq a k || contains k s)
unfolding contains set_insert
contains-set_insert k a [] = ground arith
contains-set_insert k a (b ∷ s) =
    ground (arith, contains-set_insert k a s, text_eq_iff a b, text_eq_iff a k, text_eq_iff b k)

pub lookup-map_insert {ℓ} :
    {V : Type ℓ} (k j : Text) (v : V) (m : List (Text × V))
    → lookup j (map_insert k v m) ≡ (if text_eq k j then some v else lookup j m)
unfolding lookup map_insert
lookup-map_insert k j v [] = refl
lookup-map_insert k j v ((i, w) ∷ m) = ground (
  arith,
  lookup-map_insert k j v m,
  text_eq_iff k j,
  text_eq_iff i k,
  text_eq_iff k i,
  text_eq_iff i j,
)

-- Neighbours are in order, and different.
abbrev pub Below : Text → List Text → Type 0
Below a [] = Unit
Below a (b ∷ s) = (text_le a b ≡ true) × (text_eq a b ≡ false)

abbrev pub IsAscending : List Text → Type 0
IsAscending [] = Unit
IsAscending (a ∷ s) = Below a s × IsAscending s

Below-set_insert :
    (a b : Text) (s : List Text)
    → text_le b a ≡ true
    → text_eq b a ≡ false
    → Below b s
    → Below b (set_insert a s)
unfolding set_insert
Below-set_insert a b [] h k below = (h, k)
Below-set_insert a b (c ∷ s) h k below = ground arith

pub set_insert-IsAscending :
    (a : Text) (s : List Text) → IsAscending s → IsAscending (set_insert a s)
unfolding set_insert
set_insert-IsAscending a [] h = (tt, tt)
set_insert-IsAscending a (b ∷ s) h = elim (Bool-cases (text_eq a b)) [
  | inl same ↦ rw same h
  | inr other ↦ elim (Bool-cases (text_le a b)) [
    | inl le ↦ rw (other, le) ((le, other), h)
    | inr gt ↦
        let turned : text_eq b a ≡ false = ground (arith, text_eq_iff a b, text_eq_iff b a) in
        rw (other, gt)
          (Below-set_insert a b s (text_le_total a b gt) turned h.0, set_insert-IsAscending a s h.1)
  ]
]

pub to_set-IsAscending : (s : List Text) → IsAscending (to_set s)
unfolding to_set
to_set-IsAscending [] = tt
to_set-IsAscending (a ∷ s) = set_insert-IsAscending a (to_set s) (to_set-IsAscending s)

pub contains-to_set : (k : Text) (s : List Text) → contains k (to_set s) ≡ contains k s
unfolding to_set contains
contains-to_set k [] = refl
contains-to_set k (a ∷ s) = ground (arith, contains-set_insert k a (to_set s), contains-to_set k s)
