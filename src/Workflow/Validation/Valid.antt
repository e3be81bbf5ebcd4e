-- ===== src/Workflow/Validation/Valid.antt =====
-- `validate` as a whole, and what a workflow needs to be run.
use aiautotest.Common.{
  subst, true, false, Option, none, some, List, [], ◌∷◌, ◌++◌, Text, map, IsDistinct, All, arith,
  ◌≡◌, ◌≢◌, refl, Bool-cases, inl, inr, Option-cases, is_some,
}
use aiautotest.Domain.Scope.{RegexEngine, ScopeFilter, is_empty}
use aiautotest.Workflow.Contract.{Node, Workflow}
use aiautotest.Workflow.Order.{Topo, ok, cycle, start_nodes, topological_order}
use aiautotest.Workflow.Order.Topological.{IsTopological, IsAnswer, topological_order-IsOrdered}
use aiautotest.Workflow.Validation.Checks.{Problem, Validation, no_nodes}
use aiautotest.Workflow.Validation.Laws.{
  append-empty, id_problems-IsDistinct, edge_problems-IsJoined, IsJoined, IsSound,
  nodes_problems-IsSound, All-order_nodes, IsBranch, branch_problems-IsBranch,
}
use aiautotest.Workflow.Validation.{
  is_valid, id_problems, edge_problems, cycle_problems, start_problems, sorted_then, topo_positions,
  nodes_problems, order_nodes, branch_problems, validate_sorted, validate,
}

empty : {A : Type 0} (xs : List A) → is_empty xs ≡ true → xs ≡ []
empty [] e = refl
empty (x ∷ xs) e = ground (arith, e)

ends_in_problem : (ps : List Problem) (p : Problem) → is_empty (ps ++ p ∷ []) ≡ false
ends_in_problem [] p = refl
ends_in_problem (q ∷ ps) p = refl

module _ {N : Type 0} (w : Workflow N) where
  -- The sort gives an order of all nodes.
  abbrev pub IsSortable : Type 0
  IsSortable =
      (order : List Text) × ((topological_order w ≡ some (ok order)) × IsTopological w order)

  pub record IsRunnable : Type 0 where
    pub distinct : IsDistinct (map Node.id w.nodes)
    pub joined : All (IsJoined (map Node.id w.nodes)) w.edges
    pub branches : All (IsBranch w) w.edges
    pub sound : All (λ n. IsSound (map Node.id w.nodes) n.kind) w.nodes
    pub sortable : IsSortable
    pub started : start_nodes w ≢ []

  cycle_problems-empty :
      (topo : Topo)
      → IsAnswer w (some topo)
      → topological_order w ≡ some topo
      → cycle_problems topo ≡ []
      → IsSortable
  unfolding cycle_problems
  cycle_problems-empty (cycle ids) a q e = ground (arith, e)
  cycle_problems-empty (ok order) a q e = (order, (q, a))

  start_problems-empty : (ids : List Text) → start_problems ids ≡ [] → ids ≢ []
  unfolding start_problems
  start_problems-empty [] e h = ground (arith, e)
  start_problems-empty (id ∷ ids) e h = ground (arith, h)

module _ {N : Type 0} (engine : RegexEngine) (parse_url : Text → Option (Option Text × Text)) where
  sorted-IsRunnable :
      (w : Workflow N) (scope : Option (ScopeFilter engine)) (topo : Topo)
      → IsAnswer w (some topo)
      → topological_order w ≡ some topo
      → Validation.errors (validate_sorted engine parse_url w scope topo) ≡ []
      → IsRunnable w
  unfolding validate_sorted
  sorted-IsRunnable w scope topo a q e =
      let ids = map Node.id w.nodes in
      let topo_order = topo_positions w topo in
      let nodes = order_nodes topo_order w.nodes in
      let last = start_problems (start_nodes w) in
      let checked = nodes_problems w topo_order [] nodes in
      let branched = branch_problems w w.edges in
      let cycles = cycle_problems topo in
      let edges = edge_problems ids [] w.edges in
      let (e0, r0) =
        append-empty (id_problems [] ids) (edges ++ (branched ++ (cycles ++ (checked ++ last))))
          e in
      let (e1, r1) = append-empty edges (branched ++ (cycles ++ (checked ++ last))) r0 in
      let (e2, r2) = append-empty branched (cycles ++ (checked ++ last)) r1 in
      let (e3, r3) = append-empty cycles (checked ++ last) r2 in
      let (e4, e5) = append-empty checked last r3 in
      record {
        distinct = id_problems-IsDistinct [] ids e0;
        joined = edge_problems-IsJoined ids [] w.edges e1;
        branches = branch_problems-IsBranch w w.edges e2;
        sound =
            All-order_nodes (λ n. IsSound ids n.kind) topo_order w.nodes
              (nodes_problems-IsSound w topo_order [] nodes e4);
        sortable = cycle_problems-empty w topo a q e3;
        started = start_problems-empty w (start_nodes w) e5;
      }

  abbrev IsChecked : Workflow N → Option Validation → Type 0
  IsChecked w none = ⊥
  IsChecked w (some v) = is_valid v ≡ true → IsRunnable w

  sorted_then-IsChecked :
      (w : Workflow N) (scope : Option (ScopeFilter engine)) (answer : Option Topo)
      → IsAnswer w answer
      → topological_order w ≡ answer
      → IsChecked w (sorted_then answer (validate_sorted engine parse_url w scope))
  unfolding is_valid
  sorted_then-IsChecked w scope none a q = a
  sorted_then-IsChecked w scope (some topo) a q = λ h.
      sorted-IsRunnable w scope topo a q
        (empty (Validation.errors (validate_sorted engine parse_url w scope topo)) h)

  nodeless :
      (w : Workflow N) → is_empty (id_problems [] (map Node.id w.nodes) ++ no_nodes ∷ []) ≢ true
  nodeless w h =
      let some_problem = ends_in_problem (id_problems [] (map Node.id w.nodes)) no_nodes in
      ground (arith, some_problem, h)

  checked :
      (w : Workflow N) (scope : Option (ScopeFilter engine))
      → IsChecked w (validate engine parse_url w scope)
  unfolding validate is_valid
  checked w scope = elim (Bool-cases (is_empty w.nodes)) [
    | inl e ↦ rw e (λ h. absurd (nodeless w h))
    | inr e ↦
        rw e
          (sorted_then-IsChecked w scope (topological_order w) (topological_order-IsOrdered w) refl)
  ]

  -- The validation of a workflow answers, whatever the graph: its topological sort never overflows.
  pub validate-ends :
      (w : Workflow N) (scope : Option (ScopeFilter engine))
      → is_some (validate engine parse_url w scope) ≡ true
  validate-ends w scope = elim (Option-cases (validate engine parse_url w scope)) [
    | inl e ↦ absurd (subst (IsChecked w) e (checked w scope))
    | inr (v, e) ↦ rw e refl
  ]

  -- A workflow in which the validation finds no errors has distinct node ids and a start node, all
  -- its edges join nodes, and branch labels stand only at edges from conditions and asserts; each
  -- node's configuration is sound (a request has a method and a path, an extracted variable has a
  -- name, an operator is known, a delay has at most 300000 milliseconds, a loop has an item name, at
  -- least one iteration, and nodes as its body's ends); and its topological sort gives an order of
  -- all nodes, each once and behind the sources of the edges into it.
  pub validate-IsRunnable :
      (w : Workflow N) (scope : Option (ScopeFilter engine)) (v : Validation)
      → validate engine parse_url w scope ≡ some v
      → is_valid v ≡ true
      → IsRunnable w
  validate-IsRunnable w scope v e = subst (IsChecked w) e (checked w scope)
