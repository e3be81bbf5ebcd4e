-- ===== src/Workflow/Order/Complete.antt =====
-- Orders of all nodes, beside the one that the sort answers.
use aiautotest.Common.{
  some, map, length, ap, sym, ◌∙◌, ◌↔◌, IsDistinct, refl, ◌≤◌, true, List, [], ◌∷◌, Text, text_eq,
  text_eq_iff, text_eq_refl, contains, arith, ◌≡◌, subst, Bool-cases, inl, inr,
}
use aiautotest.Workflow.Contract.{Node, Edge, Workflow}
use aiautotest.Workflow.Degrees.{Known, keys, unseen}
use aiautotest.Workflow.Order.{Sorted, ok, topo_result, topological_order, node_degrees}
use aiautotest.Workflow.Order.Initial.{
  contains-node_degrees, first_queue, start-IsCounted, node_degrees-IsDistinct, unseen-node_degrees,
}
use aiautotest.Workflow.Order.Laws.{pending, IsOrdered}
use aiautotest.Workflow.Order.Loop.{IsSorted, kahn-IsSorted, visited}
use aiautotest.Workflow.Order.Topological.{IsTopological, IsAnswer, topological_order-IsOrdered}

abbrev IsWithin : List Text → List Text → Type 0
IsWithin ids more = (t : Text) → contains t ids ≡ true → contains t more ≡ true

pending_mono :
    (es : List Edge) (ids more : List Text) (t : Text)
    → IsWithin ids more
    → pending es more t ≤ pending es ids t
unfolding contains
pending_mono [] ids more t h = omega arith
pending_mono (e ∷ es) ids more t h = ground (arith, h e.source, pending_mono es ids more t h)

-- What an order has is reached by a list that is closed under its edges.
ordered-IsWithin :
    (es : List Edge) (K more : List Text) (order done : List Text)
    → ((t : Text) → contains t K ≡ true → pending es more t ≡ 0 → contains t more ≡ true)
    → Known K order
    → IsOrdered es done order
    → IsWithin done more
    → IsWithin order more
unfolding contains
ordered-IsWithin es K more [] done closed k o h t c = ground (arith, c)
ordered-IsWithin es K more (id ∷ order) done closed k o h t c =
    let fewer = pending_mono es done more id h in
    let here = closed id k.0 (omega (arith, fewer, o.0)) in
    elim (Bool-cases (text_eq id t)) [
      | inl same ↦ subst (λ x. contains x more ≡ true) ((text_eq_iff id t).0 same) here
      | inr differ ↦
          ordered-IsWithin es K more order (id ∷ done) closed k.1 o.1
            (λ u d. ground (arith, d, h u, here, text_eq_iff id u)) t (ground (arith, c, differ))
    ]

unseen-within : (K more : List Text) → IsWithin K more → unseen K more ≡ 0
unfolding contains
unseen-within [] more h = refl
unseen-within (k ∷ K) more h =
    let first = h k (ground (arith, text_eq_refl k)) in
    let rest = unseen-within K more (λ t c. h t (ground (arith, c))) in ground (arith, first, rest)

module _ {N : Type 0} (w : Workflow N) where
  named_keys :
      (order : List Text) → Known (map Node.id w.nodes) order → Known (keys (node_degrees w)) order
  named_keys [] h = tt
  named_keys (id ∷ order) h = (contains-node_degrees w id ∙ h.0, named_keys order h.1)

  nothing_remains :
      (order : List Text) (s : Sorted)
      → IsDistinct (map Node.id w.nodes)
      → IsTopological w order
      → IsSorted w (keys (node_degrees w)) (length w.nodes) [] s
      → s.remaining ≡ 0
  unfolding contains
  nothing_remains order s distinct o v =
      let K = keys (node_degrees w) in
      let all = visited [] s.order in
      let reached =
        ordered-IsWithin w.edges K all order [] v.closed (named_keys order o.named) o.ordered
          (λ t c. ground (arith, c)) in
      let none_left =
        unseen-within K all
          (λ t c. reached t (o.complete t (sym (contains-node_degrees w t) ∙ c))) in
      let start = unseen-node_degrees w distinct in
      let few = v.few (node_degrees-IsDistinct w) (omega (arith, start)) in
      omega (arith, few, none_left)

  sorted-ok : (s : Sorted) → s.remaining ≡ 0 → topo_result (some s) ≡ some (ok s.order)
  unfolding topo_result
  sorted-ok s e = rw e refl

  -- Where the node ids are distinct, the topological sort answers with an order exactly when there
  -- is one: a list of all nodes, each once and behind the sources of all edges into it.
  pub topological_order-ok_iff :
      IsDistinct (map Node.id w.nodes)
      → ((order : List Text) × (topological_order w ≡ some (ok order)))
        ↔ ((order : List Text) × IsTopological w order)
  unfolding topological_order
  topological_order-ok_iff distinct = (
    (λ (order, e). (order, subst (IsAnswer w) e (topological_order-IsOrdered w))),
    λ (order, o).
        let d = node_degrees w in
        let start = unseen-node_degrees w distinct in
        let (s, (ended, v)) =
          kahn-IsSorted w (keys d) (length w.nodes) d (first_queue w) [] (start-IsCounted w)
            (omega (arith, start)) in
        (s.order, ap topo_result ended ∙ sorted-ok s (nothing_remains order s distinct o v)),
  )
