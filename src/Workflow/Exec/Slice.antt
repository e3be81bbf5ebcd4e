-- ===== src/Workflow/Exec/Slice.antt =====
-- The ids that the search for a loop's body finds are those that edges lead to.
use aiautotest.Common.{
  ℕ, zero, suc, ◌≤◌, Bool, true, false, not, ◌||◌, List, [], ◌∷◌, ◌++◌, Text, text_eq, text_eq_iff,
  text_eq_refl, contains, length, map, filter, All-append, length-filter-le, arith, ◌≡◌, refl, sym,
  ap, subst, ◌↔◌, inl, inr, Bool-cases,
}
use aiautotest.Workflow.Contract.{Edge, Workflow}
use aiautotest.Workflow.Degrees.{Known, unseen, unseen-visit}
use aiautotest.Workflow.Graph.{reached, targets, reach}

contains-append :
    (t : Text) (xs ys : List Text) → contains t (xs ++ ys) ≡ (contains t xs || contains t ys)
unfolding contains
contains-append t [] ys = refl
contains-append t (x ∷ xs) ys = ground (arith, contains-append t xs ys)

weaken-Known : (a : Text) (K xs : List Text) → Known K xs → Known (a ∷ K) xs
unfolding contains
weaken-Known a K [] h = tt
weaken-Known a K (x ∷ xs) h = (ground (arith, h.0), weaken-Known a K xs h.1)

self-Known : (K : List Text) → Known K K
unfolding contains
self-Known [] = tt
self-Known (k ∷ K) = (ground (arith, text_eq_refl k), weaken-Known k K K (self-Known K))

filter-Known :
    (K : List Text) (p : Edge → Bool) (es : List Edge)
    → Known K (map Edge.target es)
    → Known K (map Edge.target (filter p es))
filter-Known K p [] h = tt
filter-Known K p (e ∷ es) h = elim (Bool-cases (p e)) [
  | inl t ↦ rw t (h.0, filter-Known K p es h.1)
  | inr f ↦ rw f (filter-Known K p es h.1)
]

length-targets : (es : List Edge) → length (map Edge.target es) ≡ length es
length-targets [] = refl
length-targets (e ∷ es) = ap suc (length-targets es)

module _ {N : Type 0} (w : Workflow N) (from to : Text) where
  -- A path of edges from `from` that leaves every id but `to`.
  pub data Reaches : Text → Type 0 where
    here : Reaches from
    along :
        (id t : Text)
        → Reaches id
        → text_eq id to ≡ false
        → contains t (targets w id) ≡ true
        → Reaches t

  AllReach : List Text → Type 0
  AllReach ids = (t : Text) → contains t ids ≡ true → Reaches t

  visited : (id : Text) (seen : List Text) → Reaches id → AllReach seen → AllReach (id ∷ seen)
  unfolding contains AllReach
  visited id seen r h t e = elim (Bool-cases (text_eq id t)) [
    | inl q ↦ subst Reaches ((text_eq_iff id t).0 q) r
    | inr q ↦ h t (ground (arith, e, q))
  ]

  reach-sound :
      (fuel : ℕ) (seen queue : List Text)
      → AllReach seen
      → AllReach queue
      → AllReach (reach fuel w to seen queue)
  unfolding reach AllReach contains
  reach-sound fuel seen [] hs hq = hs
  reach-sound zero seen (id ∷ queue) hs hq = elim (Bool-cases (contains id seen)) [
    | inl e ↦ rw e (reach-sound zero seen queue hs (λ t q. hq t (ground (arith, q))))
    | inr e ↦ rw e hs
  ]
  reach-sound (suc fuel) seen (id ∷ queue) hs hq =
      let r = hq id (ground (arith, text_eq_refl id)) in
      let rest : AllReach queue = λ t q. hq t (ground (arith, q)) in
      elim (Bool-cases (contains id seen)) [
        | inl e ↦ rw e (reach-sound (suc fuel) seen queue hs rest)
        | inr e ↦ elim (Bool-cases (text_eq id to)) [
          | inl q ↦ rw (e, q) (reach-sound fuel (id ∷ seen) queue (visited id seen r hs) rest)
          | inr q ↦
              rw (e, q)
                (reach-sound fuel (id ∷ seen) (queue ++ targets w id) (visited id seen r hs) (λ t c.
                  elim (Bool-cases (contains t queue)) [
                    | inl k ↦ rest t k
                    | inr k ↦
                        along id t r q
                          (ground (arith, c, k, contains-append t queue (targets w id)))
                  ]))
        ]
      ]

  -- Each edge out of a seen id, other than `to`, leads to a seen or a queued id.
  IsClosed : (seen queue : List Text) → Type 0
  IsClosed seen queue =
      (id t : Text)
      → contains id seen ≡ true
      → text_eq id to ≡ false
      → contains t (targets w id) ≡ true
      → (contains t seen || contains t queue) ≡ true

  record IsComplete (seen queue found : List Text) : Type 0 where
    pub kept : (t : Text) → (contains t seen || contains t queue) ≡ true → contains t found ≡ true
    pub closed : IsClosed found []

  skip-IsClosed :
      (id : Text) (seen queue : List Text)
      → contains id seen ≡ true
      → IsClosed seen (id ∷ queue)
      → IsClosed seen queue
  unfolding IsClosed contains
  skip-IsClosed id seen queue e h j t c n k = ground (arith, e, h j t c n k, text_eq_iff id t)

  -- What is complete for a later pair of lists is so for an earlier one that they cover.
  covered :
      (seen queue seen' queue' found : List Text)
      → ((t : Text)
          → (contains t seen || contains t queue) ≡ true
          → (contains t seen' || contains t queue') ≡ true)
      → IsComplete seen' queue' found
      → IsComplete seen queue found
  covered seen queue seen' queue' found h r = record {
    kept = λ t e. r.kept t (h t e);
    closed = r.closed;
  }

  last-IsClosed :
      (id : Text) (seen queue : List Text)
      → text_eq id to ≡ true
      → IsClosed seen (id ∷ queue)
      → IsClosed (id ∷ seen) queue
  unfolding IsClosed contains
  last-IsClosed id seen queue e h j t c n k = elim (Bool-cases (text_eq id j)) [
    | inl q ↦
        let same = (text_eq_iff id j).0 q in
        ground (arith, e, n, subst (λ x. text_eq x to ≡ false) (sym same) n)
    | inr q ↦ ground (arith, h j t (ground (arith, c, q)) n k)
  ]

  on-IsClosed :
      (id : Text) (seen queue : List Text)
      → IsClosed seen (id ∷ queue)
      → IsClosed (id ∷ seen) (queue ++ targets w id)
  unfolding IsClosed contains
  on-IsClosed id seen queue h j t c n k =
      let both = contains-append t queue (targets w id) in
      elim (Bool-cases (text_eq id j)) [
        | inl q ↦
            let same = (text_eq_iff id j).0 q in
            ground (arith, both, subst (λ x. contains t (targets w x) ≡ true) (sym same) k)
        | inr q ↦ ground (arith, both, h j t (ground (arith, c, q)) n k)
      ]

  append-Known : (K xs ys : List Text) → Known K xs → Known K ys → Known K (xs ++ ys)
  append-Known K xs ys = All-append (λ id. contains id K ≡ true) xs ys

  reach-complete :
      (K : List Text)
      → ((id : Text) → Known K (targets w id))
      → (fuel : ℕ) (seen queue : List Text) → Known K queue
      → unseen K seen ≤ fuel
      → IsClosed seen queue
      → IsComplete seen queue (reach fuel w to seen queue)
  unfolding reach IsClosed contains
  reach-complete K known fuel seen [] q le h = record {
    kept = λ t e. ground (arith, e);
    closed = λ id t c n k. h id t c n k;
  }
  reach-complete K known zero seen (id ∷ queue) q le h = elim (Bool-cases (contains id seen)) [
    | inl e ↦ rw e (
        covered seen (id ∷ queue) seen queue (reach zero w to seen queue)
          (λ t c. ground (arith, e, c, text_eq_iff id t))
          (reach-complete K known zero seen queue q.1 le (skip-IsClosed id seen queue e h)))
    | inr e ↦
        let fewer = unseen-visit id K seen q.0 e in
        let none_left : ⊥ = omega arith in absurd none_left
  ]
  reach-complete K known (suc fuel) seen (id ∷ queue) q le h =
      elim (Bool-cases (contains id seen)) [
        | inl e ↦ rw e (
            covered seen (id ∷ queue) seen queue (reach (suc fuel) w to seen queue)
              (λ t c. ground (arith, e, c, text_eq_iff id t))
              (reach-complete K known (suc fuel) seen queue q.1 le
                (skip-IsClosed id seen queue e h)))
        | inr e ↦
            let fewer = unseen-visit id K seen q.0 e in
            elim (Bool-cases (text_eq id to)) [
              | inl s ↦
                  rw (e, s)
                    (covered seen (id ∷ queue) (id ∷ seen) queue (reach fuel w to (id ∷ seen) queue)
                      (λ t c. ground (arith, c))
                      (reach-complete K known fuel (id ∷ seen) queue q.1 (omega arith)
                        (last-IsClosed id seen queue s h)))
              | inr s ↦
                  rw (e, s)
                    (covered seen (id ∷ queue) (id ∷ seen) (queue ++ targets w id)
                      (reach fuel w to (id ∷ seen) (queue ++ targets w id))
                      (λ t c. ground (arith, c, contains-append t queue (targets w id)))
                      (reach-complete K known fuel (id ∷ seen) (queue ++ targets w id)
                        (append-Known K queue (targets w id) q.1 (known id)) (omega arith)
                        (on-IsClosed id seen queue h)))
            ]
      ]

  found : IsComplete [] (from ∷ []) (reached w from to)
  unfolding reached IsClosed targets contains
  found =
      let K = from ∷ map Edge.target w.edges in
      let all_known : Known K (map Edge.target w.edges) =
        weaken-Known from (map Edge.target w.edges) (map Edge.target w.edges)
          (self-Known (map Edge.target w.edges)) in
      let few = length-filter-le (λ k. not (contains k [])) K in
      let count = length-targets w.edges in
      reach-complete K (λ id. filter-Known K (λ e. text_eq e.source id) w.edges all_known)
        (suc (length w.edges)) [] (from ∷ []) (ground (arith, text_eq_refl from), tt)
        (omega (arith, few, count)) (λ id t c n k. ground (arith, c))

  -- The search finds exactly the ids that a path of edges leads to from `from`, where a path ends at
  -- `to`: its fuel is enough, and it takes in nothing else.
  pub reached_iff : (id : Text) → (contains id (reached w from to) ≡ true) ↔ Reaches id
  unfolding reached AllReach contains IsClosed
  reached_iff id = (sound id, complete id)
    where
      sound : (id : Text) → contains id (reached w from to) ≡ true → Reaches id
      sound =
          reach-sound (suc (length w.edges)) [] (from ∷ []) (λ t e. ground (arith, e))
            (λ t e. subst Reaches ((text_eq_iff from t).0 (ground (arith, e))) here)

      complete : (id : Text) → Reaches id → contains id (reached w from to) ≡ true
      complete _ here = found.kept from (ground (arith, text_eq_refl from))
      complete _ (along id t r n k) = ground (arith, found.closed id t (complete id r) n k)
