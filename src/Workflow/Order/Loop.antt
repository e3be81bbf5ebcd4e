-- ===== src/Workflow/Order/Loop.antt =====
-- What Kahn's loop ends with.
use aiautotest.Common.{
  IsDistinct, lookup, ◌+◌, text_eq_iff, false, inl, inr, Bool-cases, refl, ℕ, zero, suc, ◌≤◌, true,
  ◌||◌, some, List, [], ◌∷◌, Text, text_eq, text_eq_refl, contains, arith, ◌≡◌, sym, ap, subst, ◌∙◌,
}
use aiautotest.Workflow.Contract.{Workflow}
use aiautotest.Workflow.Graph.{targets}
use aiautotest.Workflow.Degrees.{Known, keys, Degrees, contains-keys, unseen, unseen-visit}
use aiautotest.Workflow.Order.{sort, kahn, and_then, cons_order, Sorted}
use aiautotest.Workflow.Order.Laws.{
  pending, occurrences-sort, pending-cons, IsCounted, lower_all-IsCounted, IsOrdered,
}

-- What is ordered once an order is through.
abbrev pub visited : (done order : List Text) → List Text
visited done [] = done
visited done (id ∷ order) = visited (id ∷ done) order

keys-lookup :
    (t : Text) (d : Degrees) → contains t (keys d) ≡ true → (n : ℕ) × (lookup t d ≡ some n)
unfolding contains lookup
keys-lookup t [] c = ground (arith, c)
keys-lookup t ((j, m) ∷ d) c = elim (Bool-cases (text_eq j t)) [
  | inl same ↦ (m, rw same refl)
  | inr differ ↦ let (n, e) = keys-lookup t d (ground (arith, c, differ)) in (n, rw differ e)
]

unseen-absent :
    (id : Text) (K done : List Text) → contains id K ≡ false → unseen K done ≤ unseen K (id ∷ done)
unfolding contains
unseen-absent id [] done c = omega arith
unseen-absent id (k ∷ K) done c =
    ground (arith, c, unseen-absent id K done, text_eq_iff k id, text_eq_iff id k)

-- An id is one key at most.
unseen-one :
    (id : Text) (K done : List Text) → IsDistinct K → unseen K done ≤ unseen K (id ∷ done) + 1
unfolding contains
unseen-one id [] done distinct = omega arith
unseen-one id (k ∷ K) done distinct = elim (Bool-cases (text_eq id k)) [
  | inl same ↦
      let absent : contains id K ≡ false =
        ap (λ x. contains x K) ((text_eq_iff id k).0 same) ∙ distinct.0 in
      let rest = unseen-absent id K done absent in ground (arith, rest, same)
  | inr differ ↦ let rest = unseen-one id K done distinct.1 in ground (arith, rest, differ)
]

unseen-zero :
    (K done : List Text)
    → unseen K done ≡ 0
    → (t : Text) → contains t K ≡ true
    → contains t done ≡ true
unfolding contains
unseen-zero [] done z t c = ground (arith, c)
unseen-zero (k ∷ K) done z t c = elim (Bool-cases (contains k done)) [
  | inr absent ↦ ground (arith, z, absent)
  | inl there ↦ elim (Bool-cases (text_eq k t)) [
    | inl same ↦ subst (λ x. contains x done ≡ true) ((text_eq_iff k t).0 same) there
    | inr differ ↦ unseen-zero K done (ground (arith, z, there)) t (ground (arith, c, differ))
  ]
]

module _ {N : Type 0} (w : Workflow N) (K : List Text) where
  -- The loop's answer: an order, and every key in it if the count comes to 0.
  pub record IsSorted (count : ℕ) (done : List Text) (s : Sorted) : Type 0 where
    pub ordered : IsOrdered w.edges done s.order
    pub complete :
        s.remaining ≡ 0
        → (t : Text) → contains t K ≡ true
        → (contains t done || contains t s.order) ≡ true
    -- The loop does not end while an id waits for nothing.
    pub closed :
        (t : Text)
        → contains t K ≡ true
        → pending w.edges (visited done s.order) t ≡ 0
        → contains t (visited done s.order) ≡ true
    pub named : Known K s.order
    pub apart : (t : Text) → contains t done ≡ true → contains t s.order ≡ false
    pub distinct : IsDistinct s.order
    pub few : IsDistinct K → count ≤ unseen K done → s.remaining ≤ unseen K (visited done s.order)

  pop-IsCounted :
      (d : Degrees) (id : Text) (queue done : List Text)
      → IsCounted w.edges K d (id ∷ queue) done []
      → IsCounted w.edges K d queue (id ∷ done) (sort (targets w id))
  unfolding contains targets
  pop-IsCounted d id queue done v =
      let new = v.fresh id (ground (arith, text_eq_refl id)) in
      record {
        counted = λ t n q.
            let was = v.counted t n q in
            let less = pending-cons w.edges done id t new in
            let same = occurrences-sort t (targets w id) in omega (arith, was, less, same);
        ready = λ t c. v.ready t (ground (arith, c));
        fresh = λ t c. ground (arith, c, v.fresh t, v.distinct.0, text_eq_iff id t);
        distinct = v.distinct.1;
        ordered = λ t c. elim (Bool-cases (text_eq id t)) [
          | inl same ↦ v.ready t (ground (arith, same))
          | inr differ ↦ v.ordered t (ground (arith, c, differ))
        ];
        keyed = v.keyed;
        reached = λ t q. ground (arith, v.reached t q);
      }

  -- What the loop ends with.
  abbrev pub Ends : ℕ → Degrees → List Text → List Text → Type 0
  Ends remaining d queue done =
      (s : Sorted) × ((kahn w remaining d queue ≡ some s) × IsSorted remaining done s)

  step-IsSorted :
      (remaining : ℕ) (d : Degrees) (id : Text) (queue done : List Text)
      → contains id K ≡ true
      → IsCounted w.edges K d (id ∷ queue) done []
      → ((d' : Degrees) (queue' : List Text)
          → IsCounted w.edges K d' queue' (id ∷ done) []
          → Ends remaining d' queue' (id ∷ done))
      → Ends (suc remaining) d (id ∷ queue) done
  unfolding kahn contains
  step-IsSorted remaining d id queue done known v next =
      let (d', (queue', (lowered_to, v'))) =
        lower_all-IsCounted w.edges K d queue (id ∷ done) (sort (targets w id))
          (pop-IsCounted d id queue done v) in
      let (s, (ended, sorted)) = next d' queue' v' in
      let first : pending w.edges done id ≡ 0 =
        let here = v.counted id 0 (v.ready id (ground (arith, text_eq_refl id))) in
        omega (arith, here) in
      (
        record s { order = id ∷ s.order },
        (
          ap (λ x. and_then x (λ d2 queue2. cons_order id (kahn w remaining d2 queue2))) lowered_to
              ∙ ap (cons_order id) ended,
          record {
            ordered = (first, sorted.ordered);
            complete = λ z t c. ground (arith, sorted.complete z t c);
            closed = sorted.closed;
            named = (known, sorted.named);
            apart = λ t c.
                let here = sorted.apart t (ground (arith, c)) in
                ground (arith, here, c, v.fresh id, text_eq_iff id t, text_eq_refl id);
            distinct = (sorted.apart id (ground (arith, text_eq_refl id)), sorted.distinct);
            few = λ distinct le.
                let one = unseen-one id K done distinct in
                sorted.few distinct (omega (arith, le, one));
          },
        ),
      )

  known :
      (d : Degrees) (id : Text) (queue done : List Text)
      → IsCounted w.edges K d (id ∷ queue) done []
      → contains id K ≡ true
  unfolding contains
  known d id queue done v =
      let here = contains-keys id 0 d (v.ready id (ground (arith, text_eq_refl id))) in
      sym (ap (contains id) v.keyed) ∙ here

  pub kahn-IsSorted :
      (remaining : ℕ) (d : Degrees) (queue done : List Text)
      → IsCounted w.edges K d queue done []
      → unseen K done ≤ remaining
      → Ends remaining d queue done
  unfolding kahn contains
  kahn-IsSorted remaining d [] done v le = (
    record { order = []; remaining = remaining; degrees = d },
    (
      refl,
      record {
        ordered = tt;
        complete = λ z t c. ground (arith, unseen-zero K done (omega arith) t c);
        closed = λ t c z.
            let (n, e) = keys-lookup t d (ap (contains t) v.keyed ∙ c) in
            let count = v.counted t n e in
            let zero_left : n ≡ 0 = omega (arith, count, z) in
            ground (arith, v.reached t (e ∙ ap some zero_left));
        named = tt;
        apart = λ t c. refl;
        distinct = tt;
        few = λ distinct h. h;
      },
    ),
  )
  kahn-IsSorted zero d (id ∷ queue) done v le =
      let first = v.fresh id (ground (arith, text_eq_refl id)) in
      let less = unseen-visit id K done (known d id queue done v) first in
      let none_left : ⊥ = omega (arith, le, less) in absurd none_left
  kahn-IsSorted (suc remaining) d (id ∷ queue) done v le =
      let first = v.fresh id (ground (arith, text_eq_refl id)) in
      let here = known d id queue done v in
      let less = unseen-visit id K done here first in
      step-IsSorted remaining d id queue done here v
        (λ d' queue' v'. kahn-IsSorted remaining d' queue' (id ∷ done) v' (omega (arith, le, less)))
