-- ===== src/Workflow/Validation/Tests.antt =====
-- A chain of three nodes and a broken workflow, validated.
use aiautotest.Common.{
  ◌↔◌, List, Text, text_eq, contains, ℕ, true, false, Option, none, some, [], ◌∷◌, text, trim,
  split, find_split, strip_prefix, insert, is_some, ◌≡◌, refl,
}
use aiautotest.Domain.Scope.{RegexEngine}
use aiautotest.Workflow.Contract.{Node, Edge, Workflow, extract_variable, delay, node}
use aiautotest.Workflow.Order.{ok, topological_order}
use aiautotest.Workflow.Order.Topological.{IsAnswer, topological_order-IsOrdered, IsTopological}
use aiautotest.Workflow.Order.Complete.{topological_order-ok_iff}
use aiautotest.Workflow.Validation.Checks.{
  duplicate_node, has_cycle, produced_after, check_source, check_scope, split_reference,
  kind_problems,
}
use aiautotest.Workflow.Validation.Sources.{variable-unordered}
use aiautotest.Workflow.Validation.{validate, is_valid}
use aiautotest.Workflow.Validation.Valid.{IsRunnable, validate-IsRunnable, validate-ends}

-- No pattern compiles, and no URL parses.
abbrev no_regex : RegexEngine
no_regex = record { Regex = Text; new_regex = λ p. none; is_match = λ p t. false }

abbrev no_url : Text → Option (Option Text × Text)
no_url url = none

abbrev waits : Text → Node ℕ
waits id = record { id = id; kind = delay 10 }

abbrev edge : Text → Text → Edge
edge source target = record { source = source; target = target; when = none }

-- c runs before b, and b before a.
abbrev chain : Workflow ℕ
chain = record {
  name = text "chain";
  base_url = text "http://h";
  timeout_secs = 60;
  nodes = waits (text "a") ∷ waits (text "b") ∷ waits (text "c") ∷ [];
  edges = edge (text "b") (text "a") ∷ edge (text "c") (text "b") ∷ [];
}

chain-order : topological_order chain ≡ some (ok (text "c" ∷ text "b" ∷ text "a" ∷ []))
unfolding topological_order insert text_eq
chain-order = refl

topological_order-IsOrdered_example : IsAnswer chain (topological_order chain)
topological_order-IsOrdered_example = topological_order-IsOrdered chain

topological_order-ok_iff_example :
    ((order : List Text) × (topological_order chain ≡ some (ok order)))
    ↔ ((order : List Text) × IsTopological chain order)
unfolding contains text_eq
topological_order-ok_iff_example = topological_order-ok_iff chain (refl, (refl, (refl, tt)))

chain-validation :
    validate no_regex no_url chain none ≡ some (record { errors = []; scope_warnings = [] })
unfolding validate insert text_eq contains check_scope kind_problems
chain-validation = refl

chain-ends : is_some (validate no_regex no_url chain none) ≡ true
chain-ends = validate-ends no_regex no_url chain none

validate-IsRunnable_example : IsRunnable chain
unfolding is_valid
validate-IsRunnable_example =
    validate-IsRunnable no_regex no_url chain none (record { errors = []; scope_warnings = [] })
      chain-validation refl

-- The first node reads what the second one produces.
abbrev backwards : Workflow ℕ
backwards = record {
  name = text "backwards";
  base_url = text "http://h";
  timeout_secs = 60;
  nodes =
      record {
        id = text "a";
        kind =
            extract_variable
              (record { source = text "var.token"; path = text "$"; name = text "copy" });
      }
      ∷ record {
        id = text "b";
        kind =
            extract_variable
              (record { source = text "a.output"; path = text "$"; name = text "token" });
      }
      ∷ [];
  edges = edge (text "a") (text "b") ∷ [];
}

backwards-variable :
    node backwards
      (split_reference
        (trim (text "var.token"))
        (strip_prefix (text "var.") (trim (text "var.token")))).0
    ≡ none
unfolding split_reference node trim strip_prefix text_eq
backwards-variable = refl

backwards-unordered :
    check_source backwards ((text "a", 0) ∷ (text "b", 1) ∷ []) (text "var.token") (text "a")
    ≡ check_source backwards ((text "b", 0) ∷ (text "a", 1) ∷ []) (text "var.token") (text "a")
backwards-unordered =
    variable-unordered backwards ((text "a", 0) ∷ (text "b", 1) ∷ [])
      ((text "b", 0) ∷ (text "a", 1) ∷ []) (text "var.token") (text "a") backwards-variable

backwards-validation :
    validate no_regex no_url backwards none ≡ some (record { errors = []; scope_warnings = [] })
unfolding validate insert text_eq contains check_scope kind_problems check_source trim strip_prefix
    find_split split split_reference node produced_after
backwards-validation = refl

-- Two nodes with one id.
abbrev twins : Workflow ℕ
twins = record chain { nodes = waits (text "a") ∷ waits (text "a") ∷ []; edges = [] }

twins-validation :
    validate no_regex no_url twins none
    ≡ some (record { errors = duplicate_node (text "a") ∷ has_cycle [] ∷ []; scope_warnings = [] })
unfolding validate insert text_eq contains check_scope kind_problems
twins-validation = refl
