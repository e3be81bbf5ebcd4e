-- ===== src/Workflow/Order/Topological.antt =====
-- What `topological_order` answers.
use aiautotest.Common.{
  IsDistinct, List, ◌∷◌, Text, ◌≤◌, true, not, map, length, length-filter-le, ◌==◌, none, Option,
  some, [], contains, arith, ◌≡◌, sym, ap, subst, ◌∙◌, Bool-cases, inl, inr,
}
use aiautotest.Workflow.Contract.{Node, Workflow}
use aiautotest.Workflow.Degrees.{Known, keys, unseen}
use aiautotest.Workflow.Order.{
  Topo, ok, cycle, topo_result, topological_order, node_degrees, Sorted,
}
use aiautotest.Workflow.Order.Initial.{
  length-node_degrees, contains-node_degrees, first_queue, start-IsCounted,
}
use aiautotest.Workflow.Order.Loop.{IsSorted, kahn-IsSorted}
use aiautotest.Workflow.Order.Laws.{IsOrdered}

module _ {N : Type 0} (w : Workflow N) where
  -- An order of all nodes, each of them once and behind the sources of the edges into it.
  pub record IsTopological (order : List Text) : Type 0 where
    pub ordered : IsOrdered w.edges [] order
    pub complete : (t : Text) → contains t (map Node.id w.nodes) ≡ true → contains t order ≡ true
    pub named : Known (map Node.id w.nodes) order
    pub distinct : IsDistinct order

  -- What the sort must answer: it does not overflow, and an order that it gives is one.
  abbrev pub IsAnswer : Option Topo → Type 0
  IsAnswer none = ⊥
  IsAnswer (some (cycle ids)) = Unit
  IsAnswer (some (ok order)) = IsTopological order

  named_nodes :
      (order : List Text) → Known (keys (node_degrees w)) order → Known (map Node.id w.nodes) order
  named_nodes [] h = tt
  named_nodes (id ∷ order) h = (sym (contains-node_degrees w id) ∙ h.0, named_nodes order h.1)

  topo_result-IsAnswer :
      (s : Sorted)
      → IsSorted w (keys (node_degrees w)) (length w.nodes) [] s
      → IsAnswer (topo_result (some s))
  unfolding topo_result contains
  topo_result-IsAnswer s v = elim (Bool-cases (s.remaining == 0)) [
    | inr more ↦ rw more tt
    | inl done ↦ rw done (record {
      ordered = v.ordered;
      complete = λ t c. v.complete (ground (arith, done)) t (contains-node_degrees w t ∙ c);
      named = named_nodes s.order v.named;
      distinct = v.distinct;
    })
  ]

  -- The topological sort never overflows, and when it answers with an order, the order
  -- has every node of the workflow, each once and behind the sources of all edges into it.
  pub topological_order-IsOrdered : IsAnswer (topological_order w)
  unfolding topological_order
  topological_order-IsOrdered =
      let d = node_degrees w in
      let bound : unseen (keys d) [] ≤ length w.nodes =
        let all = length-filter-le (λ k. not (contains k [])) (keys d) in
        omega (arith, all, length-node_degrees w) in
      let (s, (ended, sorted)) =
        kahn-IsSorted w (keys d) (length w.nodes) d (first_queue w) [] (start-IsCounted w) bound in
      subst IsAnswer (sym (ap topo_result ended)) (topo_result-IsAnswer s sorted)
