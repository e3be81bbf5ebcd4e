-- ===== src/Workflow/Order.antt =====
-- crates/workflow/src/validation.rs: start nodes, and Kahn's topological sort. A `BTreeMap` is an
-- association list; where the code walks one in key order, its keys are sorted.
pub mod Laws
pub mod Initial
pub mod Loop
pub mod Topological
pub mod Complete
use aiautotest.Common.{
  ℕ, zero, suc, ◌+◌, ◌-◌, ◌==◌, ltb, Bool, true, false, not, Option, none, some, List, [], ◌∷◌,
  ◌++◌, Text, text_eq, text_le, lookup, insert, map, filter, length, is_some, unwrap_or,
  if◌then◌else◌,
}
use aiautotest.Workflow.Degrees.{Degrees, keys}
use aiautotest.Workflow.Contract.{Node, Edge, Workflow}
use aiautotest.Workflow.Graph.{targets}

-- The map of zeros.
unfoldable pub zeros : List Text → Degrees
zeros [] = []
zeros (id ∷ ids) = insert id 0 (zeros ids)

-- `if let Some(degree) = in_degree.get_mut(id) { *degree += 1 }`
unfoldable pub increment : Text → Degrees → Degrees
increment id d = elim (lookup id d) [ some n ↦ insert id (n + 1) d | none ↦ d ]

unfoldable pub count : List Edge → Degrees → Degrees
unfolding increment
count [] d = d
count (e ∷ es) d = count es (increment e.target d)

unfoldable pub is_zero : Degrees → Text → Bool
is_zero d id = elim (lookup id d) [ some n ↦ n == 0 | none ↦ false ]

module _ {N : Type 0} where
  unfoldable pub node_degrees : Workflow N → Degrees
  unfolding zeros count
  node_degrees w = count w.edges (zeros (map Node.id w.nodes))

  unfoldable pub start_nodes : Workflow N → List Text
  unfolding node_degrees is_zero
  start_nodes w = filter (is_zero (node_degrees w)) (map Node.id w.nodes)

-- The continuation of a step that may overflow.
abbrev pub and_then :
    {A : Type 0} → Option (Degrees × List Text) → (Degrees → List Text → Option A) → Option A
and_then none next = none
and_then (some (d, queue)) next = next d queue

-- `sort` on texts.
unfoldable pub insert_sorted : Text → List Text → List Text
insert_sorted a [] = a ∷ []
insert_sorted a (b ∷ bs) =
    let rest = insert_sorted a bs in if text_le a b then a ∷ b ∷ bs else b ∷ rest

unfoldable pub sort : List Text → List Text
unfolding insert_sorted
sort [] = []
sort (a ∷ rest) = insert_sorted a (sort rest)

-- `*degree -= 1` and the push at zero; `none` is the subtraction's overflow.
unfoldable pub lowered : Degrees → List Text → Text → Option ℕ → Option (Degrees × List Text)
lowered d queue target none = some (d, queue)
lowered d queue target (some zero) = none
lowered d queue target (some (suc n)) =
    some (insert target n d, if n == 0 then queue ++ target ∷ [] else queue)

unfoldable pub lower_all : Degrees → List Text → List Text → Option (Degrees × List Text)
unfolding lowered lookup
lower_all d queue [] = some (d, queue)
lower_all d queue (target ∷ targets) =
    and_then (lowered d queue target (lookup target d)) (λ d' queue'. lower_all d' queue' targets)

pub record Sorted : Type 0 where
  pub order : List Text
  pub remaining : ℕ
  pub degrees : Degrees

unfoldable pub cons_order : Text → Option Sorted → Option Sorted
cons_order id none = none
cons_order id (some s) = some (record s { order = id ∷ s.order })

pub data Topo : Type 0 where
  ok : (order : List Text) → Topo
  cycle : (in_cycle : List Text) → Topo

unfoldable pub topo_result : Option Sorted → Option Topo
unfolding is_zero
topo_result none = none
topo_result (some s) =
    if s.remaining == 0
    then some (ok s.order)
    else some (cycle (sort (filter (λ id. not (is_zero s.degrees id)) (keys s.degrees))))

module _ {N : Type 0} where
  -- The loop; `none` is an overflow, of `remaining -= 1` or of a degree.
  unfoldable pub kahn : Workflow N → (remaining : ℕ) → Degrees → (queue : List Text) → Option Sorted
  unfolding lower_all sort targets cons_order
  kahn w remaining d [] = some (record { order = []; remaining = remaining; degrees = d })
  kahn w zero d (id ∷ queue) = none
  kahn w (suc remaining) d (id ∷ queue) =
      and_then (lower_all d queue (sort (targets w id)))
        (λ d' queue'. cons_order id (kahn w remaining d' queue'))

  unfoldable pub topological_order : Workflow N → Option Topo
  unfolding node_degrees kahn sort topo_result
  topological_order w =
      let d = node_degrees w in
      topo_result (kahn w (length w.nodes) d (sort (filter (is_zero d) (keys d))))
