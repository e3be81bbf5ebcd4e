-- ===== src/Workflow/Order/Laws.antt =====
-- The loop's invariant: a degree counts the edges from ids that were not ordered yet.
use aiautotest.Common.{
  ℕ, zero, suc, ◌+◌, ◌==◌, true, false, not, ◌&&◌, ◌||◌, none, some, List, [], ◌∷◌, ◌++◌, Text,
  text_eq, text_eq_iff, text_eq_refl, IsDistinct, if◌then◌else◌, filter, map, lookup, insert,
  lookup-insert, contains, length, arith, ◌≡◌, refl, sym, ap, ◌∙◌, Bool-cases, Option-cases, inl,
  inr,
}
use aiautotest.Workflow.Contract.{Edge}
use aiautotest.Workflow.Degrees.{Degrees, keys, keys-insert, contains-keys}
use aiautotest.Workflow.Order.{lowered, lower_all, insert_sorted, sort}

-- The edges into an id from ids that are not in the list.
abbrev pub pending : List Edge → List Text → Text → ℕ
pending es done t = length (filter (λ e. text_eq e.target t && not (contains e.source done)) es)

abbrev pub occurrences : Text → List Text → ℕ
occurrences t [] = 0
occurrences t (u ∷ us) = (if text_eq u t then 1 else 0) + occurrences t us

occurrences-insert_sorted :
    (t a : Text) (bs : List Text)
    → occurrences t (insert_sorted a bs) ≡ (if text_eq a t then 1 else 0) + occurrences t bs
unfolding insert_sorted
occurrences-insert_sorted t a [] = refl
occurrences-insert_sorted t a (b ∷ bs) = ground (arith, occurrences-insert_sorted t a bs)

pub occurrences-sort : (t : Text) (ids : List Text) → occurrences t (sort ids) ≡ occurrences t ids
unfolding sort
occurrences-sort t [] = refl
occurrences-sort t (a ∷ rest) =
    let here = occurrences-insert_sorted t a (sort rest) in
    omega (arith, here, occurrences-sort t rest)

-- Ordering one more id takes its edges away.
pub pending-cons :
    (es : List Edge) (done : List Text) (id t : Text)
    → contains id done ≡ false
    → pending es done t
      ≡ pending es (id ∷ done) t
        + occurrences t (map Edge.target (filter (λ e. text_eq e.source id) es))
unfolding contains
pending-cons [] done id t h = omega arith
pending-cons (e ∷ es) done id t h =
    ground (arith, h, pending-cons es done id t h, text_eq_iff e.source id, text_eq_iff id e.source)

contains-snoc :
    (t u : Text) (q : List Text) → contains t (q ++ u ∷ []) ≡ (contains t q || text_eq u t)
unfolding contains
contains-snoc t u [] = ground arith
contains-snoc t u (x ∷ q) = ground (arith, contains-snoc t u q)

snoc-IsDistinct :
    (q : List Text) (u : Text) → contains u q ≡ false → IsDistinct q → IsDistinct (q ++ u ∷ [])
unfolding contains
snoc-IsDistinct [] u h d = (refl, tt)
snoc-IsDistinct (x ∷ q) u h d = (
  ground (arith, h, d.0, contains-snoc x u q, text_eq_iff u x, text_eq_iff x u),
  snoc-IsDistinct q u (ground (arith, h)) d.1,
)

-- Each id stands behind the sources of all edges into it, of which `done` came first.
abbrev pub IsOrdered : List Edge → (done order : List Text) → Type 0
IsOrdered es done [] = Unit
IsOrdered es done (id ∷ order) = (pending es done id ≡ 0) × IsOrdered es (id ∷ done) order

module _ (es : List Edge) (K : List Text) where
  -- `left` are the targets of the last ordered id that are still to be counted down.
  pub record IsCounted (d : Degrees) (queue done left : List Text) : Type 0 where
    pub counted :
        (t : Text) (n : ℕ) → lookup t d ≡ some n → n ≡ pending es done t + occurrences t left
    pub ready : (t : Text) → contains t queue ≡ true → lookup t d ≡ some 0
    pub fresh : (t : Text) → contains t queue ≡ true → contains t done ≡ false
    pub distinct : IsDistinct queue
    pub ordered : (t : Text) → contains t done ≡ true → lookup t d ≡ some 0
    pub keyed : keys d ≡ K
    pub reached : (t : Text) → lookup t d ≡ some 0 → (contains t queue || contains t done) ≡ true

  skip-IsCounted :
      (d : Degrees) (queue done : List Text) (u : Text) (left : List Text)
      → lookup u d ≡ none
      → IsCounted d queue done (u ∷ left)
      → IsCounted d queue done left
  skip-IsCounted d queue done u left e v = record {
    counted = λ t n q. ground (arith, v.counted t n q, text_eq_iff u t, e, q);
    ready = v.ready;
    fresh = v.fresh;
    distinct = v.distinct;
    ordered = v.ordered;
    keyed = v.keyed;
    reached = v.reached;
  }

  -- An id whose degree is not zero is neither in the queue nor ordered.
  not_ready :
      (d : Degrees) (ids : List Text) (u : Text) (n : ℕ)
      → lookup u d ≡ some (suc n)
      → ((t : Text) → contains t ids ≡ true → lookup t d ≡ some 0)
      → contains u ids ≡ false
  not_ready d ids u n e h = elim (Bool-cases (contains u ids)) [
    | inl c ↦ ground (arith, e, h u c)
    | inr c ↦ c
  ]

  counted-insert :
      (d : Degrees) (done : List Text) (u : Text) (n : ℕ) (left : List Text)
      → lookup u d ≡ some (suc n)
      → ((t : Text) (m : ℕ)
          → lookup t d ≡ some m
          → m ≡ pending es done t + occurrences t (u ∷ left))
      → (t : Text) (m : ℕ) → lookup t (insert u n d) ≡ some m
      → m ≡ pending es done t + occurrences t left
  counted-insert d done u n left e h t m q =
      let at_t = sym (lookup-insert u t n d) ∙ q in
      elim (Bool-cases (text_eq u t)) [
        | inl same ↦
            let eq = (text_eq_iff u t).0 same in
            let old = h t (suc n) (ap (λ x. lookup x d) (sym eq) ∙ e) in
            ground (arith, same, at_t, old)
        | inr differ ↦ let old = h t m (ground (arith, differ, at_t)) in ground (arith, differ, old)
      ]

  kept-insert :
      (d : Degrees) (u : Text) (n : ℕ) (ids : List Text)
      → contains u ids ≡ false
      → ((t : Text) → contains t ids ≡ true → lookup t d ≡ some 0)
      → (t : Text) → contains t ids ≡ true
      → lookup t (insert u n d) ≡ some 0
  kept-insert d u n ids absent h t c = lookup-insert u t n d ∙ elim (Bool-cases (text_eq u t)) [
    | inl same ↦
        let eq = (text_eq_iff u t).0 same in
        let here = sym absent ∙ ap (λ x. contains x ids) eq ∙ c in ground (arith, here)
    | inr differ ↦ rw differ (h t c)
  ]

  lowered-IsCounted :
      (d : Degrees) (queue done : List Text) (u : Text) (n : ℕ) (left : List Text)
      → lookup u d ≡ some (suc n)
      → IsCounted d queue done (u ∷ left)
      → IsCounted (insert u n d) (if n == 0 then queue ++ u ∷ [] else queue) done left
  unfolding contains
  lowered-IsCounted d queue done u n left e v =
      let not_queued = not_ready d queue u n e v.ready in
      let not_done = not_ready d done u n e v.ordered in
      let kept = kept-insert d u n queue not_queued v.ready in
      let new : lookup u (insert u n d) ≡ some n =
        lookup-insert u u n d ∙ ap (λ b. if b then some n else lookup u d) (text_eq_refl u) in
      let counted_on = counted-insert d done u n left e v.counted in
      let ordered_on = kept-insert d u n done not_done v.ordered in
      let keyed_on = keys-insert u n d (contains-keys u (suc n) d e) ∙ v.keyed in
      elim (Bool-cases (n == 0)) [
        | inr more ↦ rw more (record {
          counted = counted_on;
          ready = kept;
          fresh = v.fresh;
          distinct = v.distinct;
          ordered = ordered_on;
          keyed = keyed_on;
          reached = λ t q. ground (arith, more, q, lookup-insert u t n d, v.reached t);
        })
        | inl last ↦ rw last (record {
          counted = counted_on;
          ready =
              λ t c. ground (arith, last, new, kept t, c, contains-snoc t u queue, text_eq_iff u t);
          fresh = λ t c.
              ground (arith, v.fresh t, c, contains-snoc t u queue, text_eq_iff u t, not_done);
          distinct = snoc-IsDistinct queue u not_queued v.distinct;
          ordered = ordered_on;
          keyed = keyed_on;
          reached = λ t q.
              ground (arith, last, q, lookup-insert u t n d, v.reached t, contains-snoc t u queue);
        })
      ]

  abbrev pub Lowered : Degrees → List Text → List Text → List Text → Type 0
  Lowered d queue done left =
      (d' : Degrees) × ((queue' : List Text) × ((lower_all d queue left ≡ some (d', queue'))
          × IsCounted d' queue' done []))

  pub lower_all-IsCounted :
      (d : Degrees) (queue done left : List Text)
      → IsCounted d queue done left
      → Lowered d queue done left
  unfolding lower_all lowered
  lower_all-IsCounted d queue done [] v = (d, (queue, (refl, v)))
  lower_all-IsCounted d queue done (u ∷ left) v = elim (Option-cases (lookup u d)) [
    | inl e ↦
        rw (e, lowered)
          (lower_all-IsCounted d queue done left (skip-IsCounted d queue done u left e v))
    | inr (zero, e) ↦ ground (arith, v.counted u 0 e, text_eq_refl u)
    | inr (suc n, e) ↦
        rw (e, lowered)
          (lower_all-IsCounted (insert u n d) (if n == 0 then queue ++ u ∷ [] else queue) done left
            (lowered-IsCounted d queue done u n left e v))
  ]
