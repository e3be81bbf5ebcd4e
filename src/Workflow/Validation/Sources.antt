-- ===== src/Workflow/Validation/Sources.antt =====
-- Variables as sources.
use aiautotest.Common.{none, Text, text, trim, strip_prefix, ◌≡◌, refl}
use aiautotest.Workflow.Contract.{Workflow, node}
use aiautotest.Workflow.Degrees.{Degrees}
use aiautotest.Workflow.Validation.Checks.{check_source, split_reference, reference_problems}

-- A source whose first name is no node's is checked in the same way whatever the order of the
-- nodes: a variable passes even if the node that produces it runs later.
pub variable-unordered :
    {N : Type 0} (w : Workflow N) (earlier later : Degrees) (source id : Text)
    → node w (split_reference (trim source) (strip_prefix (text "var.") (trim source))).0 ≡ none
    → check_source w earlier source id ≡ check_source w later source id
unfolding check_source reference_problems
variable-unordered w earlier later source id e = rw e refl
