-- ===== src/Workflow/Exec/Queue.antt =====
-- The ids of the queue are keys of the in-degrees.
use aiautotest.Common.{
  ℕ, ◌-◌, ◌==◌, Bool, true, false, not, ◌&&◌, List, [], ◌∷◌, ◌++◌, Text, if◌then◌else◌, filter,
  lookup, contains, All-append, arith, ◌≡◌, refl, ◌∙◌, Bool-cases, Option-cases, inl, inr, sym,
  subst, leb,
}
use aiautotest.Workflow.Degrees.{Degrees, keys, contains-keys, keys-insert, Known}
use aiautotest.Workflow.Exec.Engine.{decrement, decrement_all, is_start, insert_by, sort_by_key}

pub decrement-keys :
    (d : Degrees) (queue : List Text) (target : Text) → keys (decrement d queue target).0 ≡ keys d
unfolding decrement
decrement-keys d queue target = elim (Option-cases (lookup target d)) [
  | inl e ↦ rw (e, decrement)
  | inr (n, e) ↦ rw (e, decrement) (keys-insert target (n - 1) d (contains-keys target n d e))
]

-- The queue after a target's degree fell.
pushed-Known :
    (K : List Text) (b : Bool) (queue : List Text) (target : Text)
    → Known K queue
    → contains target K ≡ true
    → Known K (if b then queue ++ target ∷ [] else queue)
pushed-Known K true queue target h t =
    All-append (λ id. contains id K ≡ true) queue (target ∷ []) h (t, tt)
pushed-Known K false queue target h t = h

pub decrement-Known :
    (d : Degrees) (queue : List Text) (target : Text)
    → Known (keys d) queue
    → Known (keys d) (decrement d queue target).1
unfolding decrement
decrement-Known d queue target h = elim (Option-cases (lookup target d)) [
  | inl e ↦ rw (e, decrement) h
  | inr (n, e) ↦
      rw (e, decrement)
        (pushed-Known (keys d) ((n - 1 == 0) && not (contains target queue)) queue target h
          (contains-keys target n d e))
]

pub decrement_all-keys :
    (d : Degrees) (queue targets : List Text) → keys (decrement_all d queue targets).0 ≡ keys d
unfolding decrement_all
decrement_all-keys d queue [] = refl
decrement_all-keys d queue (target ∷ targets) =
    let (d', queue') = decrement d queue target in
    decrement_all-keys (decrement d queue target).0 (decrement d queue target).1 targets
    ∙ decrement-keys d queue target

pub decrement_all-Known :
    (K : List Text) (d : Degrees) (queue targets : List Text)
    → keys d ≡ K
    → Known K queue
    → Known K (decrement_all d queue targets).1
unfolding decrement_all
decrement_all-Known K d queue [] k h = h
decrement_all-Known K d queue (target ∷ targets) k h =
    decrement_all-Known K (decrement d queue target).0 (decrement d queue target).1 targets
      (decrement-keys d queue target ∙ k)
      (subst (λ L. Known L (decrement d queue target).1) k
        (decrement-Known d queue target (subst (λ L. Known L queue) (sym k) h)))

insert_by-Known :
    (K : List Text) (key : Text → ℕ) (a : Text) (ids : List Text)
    → contains a K ≡ true
    → Known K ids
    → Known K (insert_by key a ids)
unfolding insert_by
insert_by-Known K key a [] c h = (c, h)
insert_by-Known K key a (b ∷ bs) c h = elim (Bool-cases (leb (key a) (key b))) [
  | inl e ↦ rw e (c, h)
  | inr e ↦ rw e (h.0, insert_by-Known K key a bs c h.1)
]

sort_by_key-Known :
    (K : List Text) (key : Text → ℕ) (ids : List Text) → Known K ids → Known K (sort_by_key key ids)
unfolding sort_by_key
sort_by_key-Known K key [] h = h
sort_by_key-Known K key (a ∷ rest) h =
    insert_by-Known K key a (sort_by_key key rest) h.0 (sort_by_key-Known K key rest h.1)

is_start-contains : (d : Degrees) (id : Text) → is_start d id ≡ true → contains id (keys d) ≡ true
unfolding is_start
is_start-contains d id h = elim (Option-cases (lookup id d)) [
  | inl e ↦ ground (arith, e, h)
  | inr (n, e) ↦ contains-keys id n d e
]

starts-Known : (d : Degrees) (ids : List Text) → Known (keys d) (filter (is_start d) ids)
starts-Known d [] = tt
starts-Known d (id ∷ ids) = elim (Bool-cases (is_start d id)) [
  | inl e ↦ rw e (is_start-contains d id e, starts-Known d ids)
  | inr e ↦ rw e (starts-Known d ids)
]

pub queue-Known :
    (key : Text → ℕ) (d : Degrees) (ids : List Text)
    → Known (keys d) (sort_by_key key (filter (is_start d) ids))
queue-Known key d ids =
    sort_by_key-Known (keys d) key (filter (is_start d) ids) (starts-Known d ids)
