-- ===== src/Workflow/Validation/Checks.antt =====
-- crates/workflow/src/validation.rs: the checks of one node. A message is a value of `Problem`,
-- with what its format string prints; `Url::parse` is a parameter.
use aiautotest.Common.{
  ℕ, Bool, true, false, not, ◌&&◌, ◌||◌, Option, none, some, List, [], ◌∷◌, ◌++◌, Text, text,
  text_eq, contains, if◌then◌else◌, ltb, ◌==◌, trim, split, find_split, strip_prefix, is_empty_text,
  lookup,
}
use aiautotest.Domain.Scope.{RegexEngine, ScopeFilter, should_capture}
use aiautotest.Workflow.Contract.{
  Node, NodeKind, Workflow, LoopConfig, http_request, extract_variable, assert, delay, condition,
  loop, node, type_name,
}
use aiautotest.Workflow.Degrees.{Degrees}
use aiautotest.Workflow.Graph.{join_url, reachable_between}

pub data Problem : Type 0 where
  duplicate_node : (id : Text) → Problem
  no_nodes : Problem
  edge_from_unknown : (source : Text) → Problem
  edge_to_unknown : (target : Text) → Problem
  duplicate_edge : (source target : Text) → Problem
  bad_when : (source target : Text) → Problem
  when_not_allowed : (source target : Text) → Problem
  has_cycle : (in_cycle : List Text) → Problem
  no_method : (id : Text) → Problem
  no_path : (id : Text) → Problem
  no_name : (id : Text) → Problem
  produced_earlier : (id name : Text) → Problem
  unknown_operator : (id operator : Text) → Problem
  delay_too_long : (id : Text) (ms : ℕ) → Problem
  unknown_body_start : (id body_start : Text) → Problem
  unknown_body_end : (id body_end : Text) → Problem
  no_iterations : (id : Text) → Problem
  no_item : (id : Text) → Problem
  item_collides : (id item : Text) → Problem
  nested_loop : (id inner : Text) → Problem
  empty_source : (id : Text) → Problem
  source_unknown_node : (id referenced : Text) → Problem
  source_not_before : (id referenced : Text) → Problem
  bad_source_path : (id path type_name : Text) → Problem
  unknown_source : (id source : Text) → Problem
  no_start : Problem

pub record ScopeWarning : Type 0 where
  pub node_id : Text
  pub url : Text

pub record Validation : Type 0 where
  pub errors : List Problem
  pub scope_warnings : List ScopeWarning

-- `if test { errors.push(problem) }`
abbrev pub when : Bool → Problem → List Problem
when true p = p ∷ []
when false p = []

-- The operators of asserts and conditions.
unfoldable pub is_operator : Text → Bool
is_operator op =
    text_eq op (text "eq")
    || (text_eq op (text "ne")
        || (text_eq op (text "gt") || (text_eq op (text "lt") || text_eq op (text "contains"))))

split_head : Text → Text × Option Text → Text × List Text
split_head trimmed (head, some tail) =
    let (segment, segments) = split b'.' tail in (head, segment ∷ segments)
split_head trimmed (head, none) = (trimmed, [])

-- A source's first name, and the segments behind it.
unfoldable pub split_reference : Text → Option Text → Text × List Text
unfolding split_head
split_reference trimmed (some rest) = (rest, [])
split_reference trimmed none = split_head trimmed (find_split b'.' trimmed)

module _ {N : Type 0} where
  -- What a path into a node's result must begin with.
  unfoldable pub path_allowed : NodeKind N → Text → Bool
  path_allowed (http_request c) segment =
      text_eq segment (text "response") || text_eq segment (text "output")
  path_allowed _ segment = text_eq segment (text "output")

  path_problems : (id trimmed : Text) → NodeKind N → List Text → List Problem
  unfolding path_allowed type_name
  path_problems id trimmed kind [] = []
  path_problems id trimmed kind (segment ∷ _) =
      when (not (path_allowed kind segment)) (bad_source_path id trimmed (type_name kind))

  -- A reference to a node; the position of the checked node is 0 where it has none.
  node_problems :
      (id first trimmed : Text)
      → (node_index ref_index : Option ℕ) → NodeKind N
      → List Text
      → List Problem
  unfolding path_problems
  node_problems id first trimmed node_index none kind segments = source_unknown_node id first ∷ []
  node_problems id first trimmed none (some ref) kind segments = source_not_before id first ∷ []
  node_problems id first trimmed (some here) (some ref) kind segments =
      if ltb ref here
      then path_problems id trimmed kind segments
      else source_not_before id first ∷ []

  produced_name : NodeKind N → List Text
  produced_name (extract_variable c) = c.name ∷ []
  produced_name (loop c) = c.item ∷ []
  produced_name _ = []

  produced_names : List (Node N) → List Text
  unfolding produced_name
  produced_names [] = []
  produced_names (n ∷ ns) = produced_name n.kind ++ produced_names ns

  -- The first name is a node's, or else a variable's.
  unfoldable pub reference_problems :
      Workflow N
      → (topo_order : Degrees) → (id trimmed : Text) → Text × List Text
      → Option (Node N)
      → List Problem
  unfolding node_problems produced_names
  reference_problems w topo_order id trimmed (first, segments) (some referenced) =
      node_problems id first trimmed (lookup id topo_order) (lookup first topo_order)
        referenced.kind segments
  reference_problems w topo_order id trimmed (first, segments) none =
      when (not (contains first (produced_names w.nodes))) (unknown_source id trimmed)

  unfoldable pub check_source :
      Workflow N → (topo_order : Degrees) → (source id : Text) → List Problem
  unfolding split_reference reference_problems
  check_source w topo_order source id =
      let trimmed = trim source in
      let reference = split_reference trimmed (strip_prefix (text "var.") trimmed) in
      if is_empty_text trimmed
      then empty_source id ∷ []
      else reference_problems w topo_order id trimmed reference (node w reference.0)

  is_loop : NodeKind N → Bool
  is_loop (loop c) = true
  is_loop _ = false

  -- The loops among the ids of a loop's body.
  nested_problems : Workflow N → (id : Text) → List Text → List Problem
  unfolding is_loop
  nested_problems w id [] = []
  nested_problems w id (inner ∷ ids) =
      elim (node w inner) [ none ↦ [] | some n ↦ when (is_loop n.kind) (nested_loop id inner) ]
      ++ nested_problems w id ids

  body_problems : Workflow N → (ids : List Text) → (id body_start body_end : Text) → List Problem
  unfolding nested_problems
  body_problems w ids id body_start body_end =
      if contains body_start ids && contains body_end ids
      then nested_problems w id (reachable_between w body_start body_end)
      else []

  unfoldable pub loop_problems :
      Workflow N
      → (ids : List Text) → (topo_order : Degrees) → (produced : List Text) → (id : Text)
      → LoopConfig
      → List Problem
  unfolding body_problems
  loop_problems w ids topo_order produced id c =
      when (not (contains c.body_start ids)) (unknown_body_start id c.body_start)
      ++ (when (not (contains c.body_end ids)) (unknown_body_end id c.body_end)
          ++ (when (c.max_iterations == 0) (no_iterations id)
              ++ (when (is_empty_text (trim c.item)) (no_item id)
                  ++ (when (contains c.item produced) (item_collides id c.item)
                      ++ (check_source w topo_order c.source id
                          ++ body_problems w ids id c.body_start c.body_end)))))

  -- The arms of the match on a node's kind.
  unfoldable pub kind_problems :
      Workflow N
      → (ids : List Text) → (topo_order : Degrees) → (produced : List Text) → (id : Text)
      → NodeKind N
      → List Problem
  unfolding loop_problems
  kind_problems w ids topo_order produced id (http_request c) =
      when (is_empty_text (trim c.method)) (no_method id)
      ++ when (is_empty_text (trim c.path)) (no_path id)
  kind_problems w ids topo_order produced id (extract_variable c) =
      when (is_empty_text (trim c.name)) (no_name id)
      ++ (when (contains c.name produced) (produced_earlier id c.name)
          ++ check_source w topo_order c.source id)
  kind_problems w ids topo_order produced id (assert c) =
      when (not (is_operator c.operator)) (unknown_operator id c.operator)
      ++ check_source w topo_order c.source id
  kind_problems w ids topo_order produced id (condition c) =
      when (not (is_operator c.operator)) (unknown_operator id c.operator)
      ++ check_source w topo_order c.source id
  kind_problems w ids topo_order produced id (delay ms) =
      when (ltb 300000 ms) (delay_too_long id ms)
  kind_problems w ids topo_order produced id (loop c) = loop_problems w ids topo_order produced id c

  -- The variables that are produced once a node has been checked.
  unfoldable pub produced_after : List Text → NodeKind N → List Text
  unfolding produced_name
  produced_after produced kind = produced_name kind ++ produced

-- The answer of `parse_url` is the host, if there is one, and the path.
url_warnings :
    (engine : RegexEngine) (scope : ScopeFilter engine)
    → (id url : Text) → Option (Option Text × Text)
    → List ScopeWarning
url_warnings engine scope id url none = []
url_warnings engine scope id url (some (none, path)) = []
url_warnings engine scope id url (some (some host, path)) =
    if should_capture engine scope host path then [] else record { node_id = id; url = url } ∷ []

module _ {N : Type 0} (engine : RegexEngine) (parse_url : Text → Option (Option Text × Text)) where
  unfoldable pub check_scope :
      Workflow N → Option (ScopeFilter engine) → (id : Text) → NodeKind N → List ScopeWarning
  unfolding url_warnings
  check_scope w (some scope) id (http_request c) =
      let url = join_url w.base_url c.path in url_warnings engine scope id url (parse_url url)
  check_scope w _ id _ = []
