-- ===== src/Workflow/Order/Initial.antt =====
-- The loop's start: the degrees count all edges, and the queue holds each id of degree zero once.
use aiautotest.Common.{
  ℕ, suc, ◌+◌, ◌≤◌, Bool, true, false, ◌||◌, some, List, [], ◌∷◌, Text, text_eq, text_eq_iff,
  text_le, IsDistinct, if◌then◌else◌, filter, map, lookup, insert, lookup-insert, contains, length,
  arith, ◌≡◌, refl, sym, ap, subst, ◌∙◌, Bool-cases, Option-cases, inl, inr,
}
use aiautotest.Workflow.Contract.{Node, Edge, Workflow}
use aiautotest.Workflow.Degrees.{unseen, Degrees, keys, keys-insert, contains-keys}
use aiautotest.Workflow.Order.{insert_sorted, sort, is_zero, node_degrees, zeros, count, increment}
use aiautotest.Workflow.Order.Laws.{pending, IsCounted}

length-map : {A B : Type 0} (f : A → B) (xs : List A) → length (map f xs) ≡ length xs
length-map f [] = refl
length-map f (x ∷ xs) = ap suc (length-map f xs)

contains-insert_sorted :
    (t a : Text) (bs : List Text) → contains t (insert_sorted a bs) ≡ (text_eq a t || contains t bs)
unfolding insert_sorted contains
contains-insert_sorted t a [] = ground arith
contains-insert_sorted t a (b ∷ bs) = ground (arith, contains-insert_sorted t a bs)

contains-sort : (t : Text) (ids : List Text) → contains t (sort ids) ≡ contains t ids
unfolding sort contains
contains-sort t [] = refl
contains-sort t (a ∷ rest) =
    ground (arith, contains-insert_sorted t a (sort rest), contains-sort t rest)

insert_sorted-IsDistinct :
    (a : Text) (bs : List Text)
    → contains a bs ≡ false
    → IsDistinct bs
    → IsDistinct (insert_sorted a bs)
unfolding insert_sorted contains
insert_sorted-IsDistinct a [] h d = (refl, tt)
insert_sorted-IsDistinct a (b ∷ bs) h d =
    let deeper = insert_sorted-IsDistinct a bs (ground (arith, h)) d.1 in
    let later = contains-insert_sorted b a bs in
    elim (Bool-cases (text_le a b)) [
      | inl e ↦ rw (e, insert_sorted) (h, d)
      | inr e ↦
          rw (e, insert_sorted)
            (ground (arith, later, h, d.0, text_eq_iff a b, text_eq_iff b a), deeper)
    ]

sort-IsDistinct : (ids : List Text) → IsDistinct ids → IsDistinct (sort ids)
unfolding sort
sort-IsDistinct [] d = tt
sort-IsDistinct (a ∷ rest) d =
    insert_sorted-IsDistinct a (sort rest) (contains-sort a rest ∙ d.0) (sort-IsDistinct rest d.1)

contains-filter :
    (p : Text → Bool) (t : Text) (ids : List Text)
    → contains t (filter p ids) ≡ true
    → (contains t ids ≡ true) × (p t ≡ true)
unfolding contains
contains-filter p t [] c = ground (arith, c)
contains-filter p t (a ∷ ids) c = elim (Bool-cases (text_eq a t)) [
  | inr differ ↦ elim (Bool-cases (p a)) [
    | inl e ↦ ground (arith, c, e, differ, contains-filter p t ids)
    | inr e ↦ ground (arith, c, e, differ, contains-filter p t ids)
  ]
  | inl same ↦ elim (Bool-cases (p a)) [
    | inl e ↦ (rw same refl, ap p (sym ((text_eq_iff a t).0 same)) ∙ e)
    | inr e ↦ (rw same refl, (contains-filter p t ids (ground (arith, c, e))).1)
  ]
]

filter-contains :
    (p : Text → Bool) (t : Text) (ids : List Text)
    → contains t ids ≡ true
    → p t ≡ true
    → contains t (filter p ids) ≡ true
unfolding contains
filter-contains p t [] c e = c
filter-contains p t (a ∷ ids) c e = elim (Bool-cases (text_eq a t)) [
  | inl same ↦ let kept : p a ≡ true = ap p ((text_eq_iff a t).0 same) ∙ e in rw kept (rw same refl)
  | inr differ ↦
      let deeper = filter-contains p t ids (ground (arith, c, differ)) e in
      ground (arith, differ, deeper)
]

filter-IsDistinct : (p : Text → Bool) (ids : List Text) → IsDistinct ids → IsDistinct (filter p ids)
unfolding contains
filter-IsDistinct p [] d = tt
filter-IsDistinct p (a ∷ ids) d =
    let deeper = filter-IsDistinct p ids d.1 in
    elim (Bool-cases (p a)) [
      | inr e ↦ rw e deeper
      | inl e ↦ rw e (ground (arith, d.0, contains-filter p a ids), deeper)
    ]

contains-keys-insert :
    (t k : Text) (n : ℕ) (d : Degrees)
    → contains t (keys (insert k n d)) ≡ (text_eq k t || contains t (keys d))
unfolding insert contains
contains-keys-insert t k n [] = ground arith
contains-keys-insert t k n ((j, m) ∷ d) =
    ground (arith, contains-keys-insert t k n d, text_eq_iff j k, text_eq_iff j t, text_eq_iff k t)

insert-IsDistinct :
    (k : Text) (n : ℕ) (d : Degrees) → IsDistinct (keys d) → IsDistinct (keys (insert k n d))
unfolding insert contains
insert-IsDistinct k n [] h = (refl, tt)
insert-IsDistinct k n ((j, m) ∷ d) h = elim (Bool-cases (text_eq j k)) [
  | inl e ↦ rw e h
  | inr e ↦ rw e (
    ground (arith, h.0, e, contains-keys-insert j k n d, text_eq_iff j k, text_eq_iff k j),
    insert-IsDistinct k n d h.1,
  )
]

zeros-IsDistinct : (ids : List Text) → IsDistinct (keys (zeros ids))
unfolding zeros
zeros-IsDistinct [] = tt
zeros-IsDistinct (id ∷ ids) = insert-IsDistinct id 0 (zeros ids) (zeros-IsDistinct ids)

contains-zeros : (t : Text) (ids : List Text) → contains t (keys (zeros ids)) ≡ contains t ids
unfolding zeros contains
contains-zeros t [] = refl
contains-zeros t (id ∷ ids) =
    contains-keys-insert t id 0 (zeros ids) ∙ ap (λ b. text_eq id t || b) (contains-zeros t ids)

length-insert : (k : Text) (n : ℕ) (d : Degrees) → length (insert k n d) ≤ length d + 1
unfolding insert
length-insert k n [] = omega arith
length-insert k n ((j, m) ∷ d) = ground (arith, length-insert k n d)

length-zeros : (ids : List Text) → length (zeros ids) ≤ length ids
unfolding zeros
length-zeros [] = omega arith
length-zeros (id ∷ ids) = omega (arith, length-insert id 0 (zeros ids), length-zeros ids)

lookup-zeros : (t : Text) (ids : List Text) (n : ℕ) → lookup t (zeros ids) ≡ some n → n ≡ 0
unfolding zeros lookup
lookup-zeros t [] n e = ground (arith, e)
lookup-zeros t (id ∷ ids) n e =
    ground (arith, lookup-insert id t 0 (zeros ids), lookup-zeros t ids n, e)

keys-count : (es : List Edge) (d : Degrees) → keys (count es d) ≡ keys d
unfolding count increment
keys-count [] d = refl
keys-count (e ∷ es) d =
    keys-count es (increment e.target d) ∙ elim (Option-cases (lookup e.target d)) [
      | inl h ↦ rw (h, increment) refl
      | inr (n, h) ↦
          rw (h, increment) (keys-insert e.target (n + 1) d (contains-keys e.target n d h))
    ]

lookup-increment :
    (k t : Text) (d : Degrees) (a m : ℕ)
    → ((n : ℕ) → lookup t d ≡ some n → n ≡ a)
    → lookup t (increment k d) ≡ some m
    → m ≡ a + (if text_eq k t then 1 else 0)
unfolding increment
lookup-increment k t d a m h q = elim (Option-cases (lookup k d)) [
  | inl e ↦ ground (arith, h m, q, e, text_eq_iff k t)
  | inr (n, e) ↦ ground (arith, h m, h n, q, e, lookup-insert k t (n + 1) d, text_eq_iff k t)
]

lookup-count :
    (t : Text) (es : List Edge) (d : Degrees) (a n : ℕ)
    → ((m : ℕ) → lookup t d ≡ some m → m ≡ a)
    → lookup t (count es d) ≡ some n
    → n ≡ a + pending es [] t
unfolding count contains
lookup-count t [] d a n h q = let it = h n q in omega (arith, it)
lookup-count t (e ∷ es) d a n h q =
    let deeper =
      lookup-count t es (increment e.target d) (a + (if text_eq e.target t then 1 else 0)) n
        (λ m. lookup-increment e.target t d a m h) q in
    ground (arith, deeper)

is_zero-lookup : (d : Degrees) (t : Text) → is_zero d t ≡ true → lookup t d ≡ some 0
unfolding is_zero
is_zero-lookup d t h = elim (Option-cases (lookup t d)) [
  | inl e ↦ ground (arith, h, e)
  | inr (n, e) ↦ ground (arith, h, e)
]

module _ {N : Type 0} (w : Workflow N) where
  pub length-node_degrees : length (keys (node_degrees w)) ≤ length w.nodes
  unfolding node_degrees
  length-node_degrees =
      let ids = map Node.id w.nodes in
      let same = ap length (keys-count w.edges (zeros ids)) in
      let of_keys = length-map (λ (e : Text × ℕ). e.0) (zeros ids) in
      let of_ids = length-map Node.id w.nodes in
      omega (arith, same, of_keys, of_ids, length-zeros ids)

  pub contains-node_degrees :
      (t : Text) → contains t (keys (node_degrees w)) ≡ contains t (map Node.id w.nodes)
  unfolding node_degrees
  contains-node_degrees t =
      ap (contains t) (keys-count w.edges (zeros (map Node.id w.nodes)))
      ∙ contains-zeros t (map Node.id w.nodes)

  -- The queue the loop starts with.
  abbrev pub first_queue : List Text
  first_queue = sort (filter (is_zero (node_degrees w)) (keys (node_degrees w)))

  start_queued : (t : Text) → lookup t (node_degrees w) ≡ some 0 → contains t first_queue ≡ true
  unfolding is_zero
  start_queued t q =
      let d = node_degrees w in
      contains-sort t (filter (is_zero d) (keys d))
      ∙ filter-contains (is_zero d) t (keys d) (contains-keys t 0 d q) (rw (q, is_zero) refl)

  pub start-IsCounted : IsCounted w.edges (keys (node_degrees w)) (node_degrees w) first_queue [] []
  unfolding node_degrees contains
  start-IsCounted =
      let ids = map Node.id w.nodes in
      let d = node_degrees w in
      let queued = λ (t : Text) (c : contains t first_queue ≡ true).
        is_zero-lookup d t
          (contains-filter (is_zero d) t (keys d)
            (sym (contains-sort t (filter (is_zero d) (keys d))) ∙ c)).1 in
      record {
        counted = λ t n q.
            let all = lookup-count t w.edges (zeros ids) 0 n (lookup-zeros t ids) q in
            omega (arith, all);
        ready = queued;
        fresh = λ t c. refl;
        distinct = sort-IsDistinct (filter (is_zero d) (keys d)) (
            filter-IsDistinct (is_zero d) (keys d)
              (subst IsDistinct (sym (keys-count w.edges (zeros ids))) (zeros-IsDistinct ids)));
        ordered = λ t c. ground (arith, c);
        keyed = refl;
        reached = λ t q. ground (arith, start_queued t q);
      }

length-insert_new :
    (k : Text) (n : ℕ) (d : Degrees)
    → contains k (keys d) ≡ false
    → length (insert k n d) ≡ length d + 1
unfolding insert contains
length-insert_new k n [] h = refl
length-insert_new k n ((j, m) ∷ d) h = ground (arith, h, length-insert_new k n d)

length-zeros_distinct : (ids : List Text) → IsDistinct ids → length (zeros ids) ≡ length ids
unfolding zeros
length-zeros_distinct [] d = refl
length-zeros_distinct (id ∷ ids) d =
    let one = length-insert_new id 0 (zeros ids) (contains-zeros id ids ∙ d.0) in
    omega (arith, one, length-zeros_distinct ids d.1)

unseen-nothing : (K : List Text) → unseen K [] ≡ length K
unfolding contains
unseen-nothing [] = refl
unseen-nothing (k ∷ K) = ap suc (unseen-nothing K)

module _ {N : Type 0} (w : Workflow N) where
  pub node_degrees-IsDistinct : IsDistinct (keys (node_degrees w))
  unfolding node_degrees
  node_degrees-IsDistinct =
      let ids = map Node.id w.nodes in
      subst IsDistinct (sym (keys-count w.edges (zeros ids))) (zeros-IsDistinct ids)

  -- With distinct ids there is a key for each node.
  pub unseen-node_degrees :
      IsDistinct (map Node.id w.nodes) → unseen (keys (node_degrees w)) [] ≡ length w.nodes
  unfolding node_degrees
  unseen-node_degrees distinct =
      let ids = map Node.id w.nodes in
      let whole = unseen-nothing (keys (node_degrees w)) in
      let same = ap length (keys-count w.edges (zeros ids)) in
      let of_keys = length-map (λ (e : Text × ℕ). e.0) (zeros ids) in
      let of_ids = length-map Node.id w.nodes in
      let each = length-zeros_distinct ids distinct in
      omega (arith, whole, same, of_keys, of_ids, each)
