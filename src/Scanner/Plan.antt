-- ===== src/Scanner/Plan.antt =====
-- crates/scanner/src/scheduler.rs: the mutations that a scan plans, and their order. The analysis of
-- parameters and the seeded shuffle are parameters.
use aiautotest.Common.{
  ℕ, Bool, Option, none, some, List, [], ◌∷◌, ◌++◌, Text, text_eq, text_le, if◌then◌else◌,
}
use aiautotest.Domain.Flow.{HttpFlow}
use aiautotest.Scanner.Mutation.{Outside, AnalyzedParam, Mutation, mutations_for}

module _ {N : Type 0} where
  -- URL, then parameter, then value.
  unfoldable pub mutation_le : Mutation N → Mutation N → Bool
  mutation_le a b =
      if text_eq a.request.url b.request.url
      then (if text_eq a.payload.param_name b.payload.param_name
          then text_le a.payload.value b.payload.value
          else text_le a.payload.param_name b.payload.param_name)
      else text_le a.request.url b.request.url

  insert_mutation : Mutation N → List (Mutation N) → List (Mutation N)
  unfolding mutation_le
  insert_mutation m [] = m ∷ []
  insert_mutation m (n ∷ ms) =
      let rest = insert_mutation m ms in if mutation_le m n then m ∷ n ∷ ms else n ∷ rest

  -- `sort_by`, which is stable.
  unfoldable pub sort_mutations : List (Mutation N) → List (Mutation N)
  unfolding insert_mutation
  sort_mutations [] = []
  sort_mutations (m ∷ ms) = insert_mutation m (sort_mutations ms)

  unfoldable pub order_mutations :
      (shuffle : ℕ → List (Mutation N) → List (Mutation N))
      → List (Mutation N)
      → (seed : Option ℕ) → List (Mutation N)
  unfolding sort_mutations
  order_mutations shuffle mutations none = sort_mutations mutations
  order_mutations shuffle mutations (some seed) = shuffle seed (sort_mutations mutations)

module _ (out : Outside) (analyze_flow : HttpFlow → List (AnalyzedParam out.N)) where
  flow_mutations :
      (limit_per_param : ℕ)
      → (skills : List Text) → HttpFlow
      → List (AnalyzedParam out.N)
      → List (Mutation out.N)
  unfolding mutations_for
  flow_mutations limit_per_param skills flow [] = []
  flow_mutations limit_per_param skills flow (p ∷ ps) =
      mutations_for out limit_per_param flow (p ∷ ps) skills

  unfoldable pub plan :
      (limit_per_param : ℕ) → List HttpFlow → (skills : List Text) → List (Mutation out.N)
  unfolding flow_mutations
  plan limit_per_param [] skills = []
  plan limit_per_param (flow ∷ flows) skills =
      flow_mutations limit_per_param skills flow (analyze_flow flow)
      ++ plan limit_per_param flows skills
