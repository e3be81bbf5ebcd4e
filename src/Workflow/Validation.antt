-- ===== src/Workflow/Validation.antt =====
-- crates/workflow/src/validation.rs: `validate`. The two lists of a validation are collected check
-- by check; `none` stands for the overflow that the topological sort could make.
pub mod Checks
pub mod Laws
pub mod Sources
pub mod Valid
mod Tests
use aiautotest.Common.{
  ℕ, suc, Bool, true, false, not, ◌&&◌, ◌||◌, Option, none, some, List, [], ◌∷◌, ◌++◌, Text, text,
  text_eq, contains, map, if◌then◌else◌, leb, lookup, insert, unwrap_or, is_some,
}
use aiautotest.Domain.Scope.{RegexEngine, ScopeFilter, is_empty}
use aiautotest.Workflow.Contract.{Node, Edge, NodeKind, Workflow, node, is_boolean}
use aiautotest.Workflow.Degrees.{Degrees}
use aiautotest.Workflow.Order.{Topo, ok, cycle, start_nodes, topological_order}
use aiautotest.Workflow.Validation.Checks.{
  Problem, ScopeWarning, Validation, when, kind_problems, produced_after, check_scope,
  duplicate_node, no_nodes, edge_from_unknown, edge_to_unknown, duplicate_edge, bad_when,
  when_not_allowed, has_cycle, no_start,
}

unfoldable pub is_valid : Validation → Bool
is_valid v = is_empty v.errors

-- The set of ids grows with each node.
unfoldable pub id_problems : (seen ids : List Text) → List Problem
id_problems seen [] = []
id_problems seen (id ∷ ids) =
    when (contains id seen) (duplicate_node id) ++ id_problems (id ∷ seen) ids

contains_key : (source target : Text) → List Edge → Bool
contains_key source target [] = false
contains_key source target (e ∷ seen) =
    text_eq e.source source && text_eq e.target target || contains_key source target seen

unfoldable pub when_problems : Edge → Option Text → List Problem
when_problems e none = []
when_problems e (some w) =
    when (not (text_eq w (text "true") || text_eq w (text "false"))) (bad_when e.source e.target)

unfoldable pub edge_problems : (ids : List Text) → (seen edges : List Edge) → List Problem
unfolding contains_key when_problems
edge_problems ids seen [] = []
edge_problems ids seen (e ∷ es) =
    when (not (contains e.source ids)) (edge_from_unknown e.source)
    ++ (when (not (contains e.target ids)) (edge_to_unknown e.target)
        ++ (when (contains_key e.source e.target seen) (duplicate_edge e.source e.target)
            ++ (when_problems e e.when ++ edge_problems ids (e ∷ seen) es)))

-- `iter().enumerate()`, collected into a map.
unfoldable pub positions : (index : ℕ) → List Text → Degrees → Degrees
positions index [] order = order
positions index (id ∷ ids) order = positions (suc index) ids (insert id index order)

-- A missing position, `usize::MAX`, stands behind all others.
unfoldable pub position_le : Option ℕ → Option ℕ → Bool
position_le i none = true
position_le none (some j) = false
position_le (some i) (some j) = leb i j

unfoldable pub cycle_problems : Topo → List Problem
cycle_problems (ok order) = []
cycle_problems (cycle ids) = has_cycle ids ∷ []

unfoldable pub start_problems : List Text → List Problem
start_problems [] = no_start ∷ []
start_problems (id ∷ ids) = []

abbrev pub sorted_then : Option Topo → (Topo → Validation) → Option Validation
sorted_then none f = none
sorted_then (some topo) f = some (f topo)

module _ {N : Type 0} where
  unfoldable pub insert_node : Degrees → Node N → List (Node N) → List (Node N)
  unfolding position_le lookup
  insert_node order n [] = n ∷ []
  insert_node order n (m ∷ ns) =
      let rest = insert_node order n ns in
      if position_le (lookup n.id order) (lookup m.id order) then n ∷ m ∷ ns else m ∷ rest

  -- The stable sort by position.
  unfoldable pub order_nodes : Degrees → List (Node N) → List (Node N)
  unfolding insert_node
  order_nodes order [] = []
  order_nodes order (n ∷ ns) = insert_node order n (order_nodes order ns)

  unfoldable pub when_node_problems : Edge → Option Text → Option (Node N) → List Problem
  when_node_problems e (some w) (some n) =
      when (not (is_boolean n.kind)) (when_not_allowed e.source e.target)
  when_node_problems e _ _ = []

  -- `when` only from condition and assert nodes.
  unfoldable pub branch_problems : Workflow N → List Edge → List Problem
  unfolding when_node_problems
  branch_problems w [] = []
  branch_problems w (e ∷ es) = when_node_problems e e.when (node w e.source) ++ branch_problems w es

  -- The positions that the later checks go by: those of the nodes if there is a cycle.
  unfoldable pub topo_positions : Workflow N → Topo → Degrees
  unfolding positions
  topo_positions w (ok order) = positions 0 order []
  topo_positions w (cycle ids) = positions 0 (map Node.id w.nodes) []

  unfoldable pub nodes_problems :
      Workflow N → (topo_order : Degrees) → (produced : List Text) → List (Node N) → List Problem
  nodes_problems w topo_order produced [] = []
  nodes_problems w topo_order produced (n ∷ ns) =
      kind_problems w (map Node.id w.nodes) topo_order produced n.id n.kind
      ++ nodes_problems w topo_order (produced_after produced n.kind) ns

-- `parse_url` is `Url::parse` with the host and the path of its answer.
module _ {N : Type 0} (engine : RegexEngine) (parse_url : Text → Option (Option Text × Text)) where
  unfoldable pub scope_warnings :
      Workflow N → Option (ScopeFilter engine) → List (Node N) → List ScopeWarning
  scope_warnings w scope [] = []
  scope_warnings w scope (n ∷ ns) =
      check_scope engine parse_url w scope n.id n.kind ++ scope_warnings w scope ns

  -- What is found once the graph is sorted.
  unfoldable pub validate_sorted : Workflow N → Option (ScopeFilter engine) → Topo → Validation
  unfolding id_problems edge_problems branch_problems cycle_problems topo_positions nodes_problems
      start_problems scope_warnings order_nodes start_nodes
  validate_sorted w scope topo =
      let ids = map Node.id w.nodes in
      let topo_order = topo_positions w topo in
      let nodes = order_nodes topo_order w.nodes in
      record {
        errors =
            id_problems [] ids
            ++ (edge_problems ids [] w.edges
                ++ (branch_problems w w.edges
                    ++ (cycle_problems topo
                        ++ (nodes_problems w topo_order [] nodes
                            ++ start_problems (start_nodes w)))));
        scope_warnings = scope_warnings w scope nodes;
      }

  unfoldable pub validate : Workflow N → Option (ScopeFilter engine) → Option Validation
  unfolding validate_sorted topological_order id_problems
  validate w scope =
      if is_empty w.nodes
      then some (record {
        errors = id_problems [] (map Node.id w.nodes) ++ no_nodes ∷ [];
        scope_warnings = [];
      })
      else sorted_then (topological_order w) (validate_sorted w scope)
