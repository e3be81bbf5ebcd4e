-- ===== src/Workflow/Graph.antt =====
-- crates/workflow/src/validation.rs: the URL of a request, and the nodes between two nodes.
use aiautotest.Common.{
  ℕ, zero, suc, List, [], ◌∷◌, ◌++◌, Text, ◌==◌, contains, length, map, filter, if◌then◌else◌,
  text_eq, is_some,
}
use aiautotest.Workflow.Contract.{Edge, Workflow, node}

-- `trim_end_matches` on one character: a character goes if nothing is left after it.
unfoldable pub trim_end_char : ℕ → Text → Text
trim_end_char c [] = []
trim_end_char c (d ∷ s) =
    let rest = trim_end_char c s in
    elim rest [ [] ↦ if d == c then [] else d ∷ [] | r ∷ rs ↦ d ∷ r ∷ rs ]

join_base : Text → Text → Text
join_base base [] = base
join_base base (c ∷ path) = if c == b'/' then base ++ c ∷ path else base ++ b'/' ∷ c ∷ path

unfoldable pub join_url : Text → Text → Text
unfolding trim_end_char join_base
join_url base_url path = join_base (trim_end_char b'/' base_url) path

module _ {N : Type 0} where
  unfoldable pub targets : Workflow N → Text → List Text
  targets w id = map Edge.target (filter (λ e. text_eq e.source id) w.edges)

  -- The loop: `fuel` bounds how many ids are seen, and an id that was seen before takes none.
  unfoldable pub reach :
      (fuel : ℕ) → Workflow N → (to : Text) → (seen queue : List Text) → List Text
  unfolding targets contains
  reach fuel w to seen [] = seen
  reach zero w to seen (id ∷ queue) =
      let rest = reach zero w to seen queue in if contains id seen then rest else seen
  reach (suc fuel) w to seen (id ∷ queue) =
      let skip = reach (suc fuel) w to seen queue in
      let last = reach fuel w to (id ∷ seen) queue in
      let on = reach fuel w to (id ∷ seen) (queue ++ targets w id) in
      if contains id seen then skip else (if text_eq id to then last else on)

  -- `from` and the targets of the edges are all that can be seen.
  unfoldable pub reached : Workflow N → (from to : Text) → List Text
  unfolding reach
  reached w from to = reach (suc (length w.edges)) w to [] (from ∷ [])

  unfoldable pub reachable_between : Workflow N → (from to : Text) → List Text
  unfolding reached node
  reachable_between w from to = filter (λ id. is_some (node w id)) (reached w from to)
