-- ===== src/Workflow/Exec/Fuel.antt =====
-- The loops end: each visit takes one of the ids that were not seen.
use aiautotest.Common.{
  ◌&&◌, ℕ, zero, suc, ◌≤◌, text, Bool, true, false, Option, none, some, List, [], ◌∷◌, Text,
  text_eq, filter, map, contains, length, arith, ◌≡◌, refl, ◌∙◌, Bool-cases, inl, inr, is_some,
  take, min,
}
use aiautotest.Workflow.Json.{Value}
use aiautotest.Workflow.Contract.{
  Node, NodeKind, LoopConfig, Workflow, node, http_request, extract_variable, assert, delay,
  condition, loop,
}
use aiautotest.Workflow.Exec.State.{
  Outside, WorkflowError, RunState, Result, ok, err, check_cancelled, insert_var,
}
use aiautotest.Workflow.Exec.Engine.{
  Run, ◌>>=◌, step, fail, drain, decrement_all, visit, after_node, visit_kind, visit_node,
  visit_body, nested, body_ids, slice_degrees, index_of, run_items, as_array, workflow_degrees,
  run_range, iterate, run_loop, run_into, sort_by_key, is_start,
}
use aiautotest.Workflow.Degrees.{Degrees, keys, Known, unseen, unseen-visit, unseen-length}
use aiautotest.Workflow.Exec.Queue.{decrement_all-keys, decrement_all-Known, queue-Known}
use aiautotest.Workflow.Exec.Values.{resolve_source}
use aiautotest.Workflow.Exec.Nodes.{execute_node}

-- A run that does not run out of fuel, from any state.
abbrev pub Ends : {N W A : Type 0} → Run N W A → Type 0
Ends {N} {W} m = (s : RunState N W) → is_some (m s) ≡ true

bound-Ends :
    {N W A B : Type 0} (f : A → Run N W B)
    → ((a : A) → Ends (f a))
    → (o : Option (Result A × RunState N W)) → is_some o ≡ true
    → is_some (elim o as (λ _. Option (Result B × RunState N W)) [
      | none ↦ none
      | some (ok a, s') ↦ f a s'
      | some (err e, s') ↦ some (err e, s')
    ])
      ≡ true
bound-Ends f k none q = ground (arith, q)
bound-Ends f k (some (ok a, s')) q = k a s'
bound-Ends f k (some (err e, s')) q = refl

pub bind-Ends :
    {N W A B : Type 0} (m : Run N W A) (f : A → Run N W B)
    → Ends m
    → ((a : A) → Ends (f a))
    → Ends (m >>= f)
bind-Ends m f h k s = bound-Ends f k (m s) (h s)

drain-Ends :
    {N W : Type 0} (on_id : Text → Run N W (List Text)) (stop : Text → Bool)
    → ((id : Text) → Ends (on_id id))
    → (K : List Text) (fuel : ℕ) (seen : List Text) (d : Degrees) (queue : List Text) → keys d ≡ K
    → Known K queue
    → unseen K seen ≤ fuel
    → Ends (drain on_id stop fuel seen d queue)
unfolding drain
drain-Ends on_id stop h K fuel seen d [] k q le s = refl
drain-Ends on_id stop h K zero seen d (id ∷ queue) k q le s = elim (Bool-cases (contains id seen)) [
  | inl e ↦ rw e (drain-Ends on_id stop h K zero seen d queue k q.1 le s)
  | inr e ↦
      let fewer = unseen-visit id K seen q.0 e in
      let none_left : ⊥ = omega arith in absurd none_left
]
drain-Ends on_id stop h K (suc fuel) seen d (id ∷ queue) k q le s =
    elim (Bool-cases (contains id seen)) [
      | inl e ↦ rw e (drain-Ends on_id stop h K (suc fuel) seen d queue k q.1 le s)
      | inr e ↦ rw e (
          bind-Ends (on_id id) _ (h id)
            (λ fired.
              let fewer = unseen-visit id K seen q.0 e in
              let rest =
                drain-Ends on_id stop h K fuel (id ∷ seen) (decrement_all d queue fired).0
                  (decrement_all d queue fired).1 (decrement_all-keys d queue fired ∙ k)
                  (decrement_all-Known K d queue fired k q.1) (omega arith) in
              elim (Bool-cases (stop id)) [
                | inl t ↦ λ s'. rw t refl
                | inr f ↦ λ s'. rw f (rest s')
              ])
            s)
    ]

-- A loop whose fuel is the number of keys ends.
drain-all-Ends :
    {N W : Type 0} (on_id : Text → Run N W (List Text)) (stop : Text → Bool)
    → ((id : Text) → Ends (on_id id))
    → (key : Text → ℕ) (d : Degrees) (ids : List Text)
    → Ends (drain on_id stop (length d) [] d (sort_by_key key (filter (is_start d) ids)))
drain-all-Ends on_id stop h key d ids =
    drain-Ends on_id stop h (keys d) (length d) [] d (sort_by_key key (filter (is_start d) ids))
      refl (queue-Known key d ids) (unseen-length d)

module _ (out : Outside) (w : Workflow out.N) where
  open out use {N, W}

  after_node-Ends : (id : Text) (r : List Text × Option Text) → Ends (after_node out w id r)
  unfolding after_node
  after_node-Ends id (fired, none) s = refl
  after_node-Ends id (fired, some m) s = refl

  node-Ends : (n : Node N) → Ends (step (execute_node out w n) >>= after_node out w n.id)
  node-Ends n =
      bind-Ends (step (execute_node out w n)) (after_node out w n.id) (λ s. refl)
        (after_node-Ends n.id)

  visit_kind-Ends :
      (on_loop : Node N → LoopConfig → Run N W (List Text))
      → ((n : Node N) (c : LoopConfig) → Ends (on_loop n c))
      → (n : Node N) (k : NodeKind N) → Ends (visit_kind out w on_loop n k)
  unfolding visit_kind
  visit_kind-Ends on_loop h n (loop c) = h n c
  visit_kind-Ends on_loop h n (http_request c) = node-Ends n
  visit_kind-Ends on_loop h n (extract_variable c) = node-Ends n
  visit_kind-Ends on_loop h n (assert c) = node-Ends n
  visit_kind-Ends on_loop h n (condition c) = node-Ends n
  visit_kind-Ends on_loop h n (delay ms) = node-Ends n

  visit_node-Ends :
      (on_loop : Node N → LoopConfig → Run N W (List Text))
      → ((n : Node N) (c : LoopConfig) → Ends (on_loop n c))
      → (o : Option (Node N)) → Ends (visit_node out w on_loop o)
  unfolding visit_node
  visit_node-Ends on_loop h none = λ s. refl
  visit_node-Ends on_loop h (some n) = visit_kind-Ends on_loop h n n.kind

  visit-Ends :
      (on_loop : Node N → LoopConfig → Run N W (List Text))
      → ((n : Node N) (c : LoopConfig) → Ends (on_loop n c))
      → (id : Text) → Ends (visit out w on_loop id)
  unfolding visit
  visit-Ends on_loop h id =
      bind-Ends (step (check_cancelled out)) _ (λ s. refl)
        (λ u. visit_node-Ends on_loop h (node w id))

  visit_body-Ends : (ids : List Text) (id : Text) → Ends (visit_body out w ids id)
  unfolding visit_body nested
  visit_body-Ends ids id =
      bind-Ends (visit out w (nested out w) id) _ (visit-Ends (nested out w) (λ n c s. refl) id)
        (λ fired s. refl)

  pub run_range-Ends : (from to : Text) → Ends (run_range out w from to)
  unfolding run_range
  run_range-Ends from to =
      let ids = body_ids out w from to in
      drain-all-Ends (visit_body out w ids) (λ id. text_eq id to && is_some (node w id))
        (visit_body-Ends ids) (index_of w) (slice_degrees out w ids) ids

  iterate-Ends : (c : LoopConfig) (vs : List (Value N)) → Ends (iterate out w c vs)
  unfolding iterate
  iterate-Ends c [] = λ s. refl
  iterate-Ends c (v ∷ vs) =
      bind-Ends (step (check_cancelled out)) _ (λ s. refl)
        (λ u.
          bind-Ends (step (insert_var c.item v)) _ (λ s. refl)
            (λ u.
              bind-Ends (run_range out w c.body_start c.body_end) _
                (run_range-Ends c.body_start c.body_end) (λ u. iterate-Ends c vs)))

  run_items-Ends :
      (n : Node N) (c : LoopConfig) (o : Option (List (Value N))) → Ends (run_items out w n c o)
  unfolding run_items
  run_items-Ends n c none = λ s. refl
  run_items-Ends n c (some vs) =
      bind-Ends (iterate out w c (take (min (length vs) c.max_iterations) vs)) _
        (iterate-Ends c (take (min (length vs) c.max_iterations) vs)) (λ u s. refl)

  run_loop-Ends : (n : Node N) (c : LoopConfig) → Ends (run_loop out w n c)
  unfolding run_loop
  run_loop-Ends n c =
      bind-Ends (step (λ s. (resolve_source out c.source s, s))) _ (λ s. refl)
        (λ source. run_items-Ends n c (as_array out w source))

  -- Any workflow's run ends from any state, whatever the client, the token and the other parameters do,
  -- with the fuel that `run_into` gives: the loops over the queue, and the slices that the workflow's
  -- loop nodes run, visit no more ids than there are in-degrees. A graph with cycles is no exception.
  pub run_into-ends : (s : RunState N W) → is_some (run_into out w s) ≡ true
  unfolding run_into
  run_into-ends s = from_nodes w.nodes
    where
      from_nodes :
          (ns : List (Node N))
          → is_some (elim ns as (λ _. Option (Result Unit × RunState N W)) [
            | [] ↦ fail (WorkflowError.node [] (text "workflow has no nodes")) s
            | n ∷ ns ↦
                drain
                  (visit out w (run_loop out w))
                  (λ _. false)
                  (length (workflow_degrees out w))
                  []
                  (workflow_degrees out w)
                  (sort_by_key
                    (index_of w)
                    (filter (is_start (workflow_degrees out w)) (map Node.id w.nodes)))
                  s
          ])
            ≡ true
      from_nodes [] = refl
      from_nodes (n ∷ ns) =
          drain-all-Ends (visit out w (run_loop out w)) (λ _. false)
            (visit-Ends (run_loop out w) run_loop-Ends) (index_of w) (workflow_degrees out w)
            (map Node.id w.nodes) s
