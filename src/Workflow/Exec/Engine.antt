-- ===== src/Workflow/Exec/Engine.antt =====
-- The scheduling of a run: ready nodes in a queue, in-degrees that fired edges count down, and loops,
-- whose body is a slice of the graph that runs once for each item.
use aiautotest.Common.{
  is_some, ℕ, zero, suc, ◌+◌, ◌-◌, min, leb, ◌==◌, Bool, true, false, not, ◌&&◌, Option, none, some,
  List, [], ◌∷◌, ◌++◌, Text, text, text_eq, if◌then◌else◌, filter, map, lookup, insert, contains,
  length, take, usize_max,
}
use aiautotest.Workflow.Json.{Value, null, number, array, object, field, end, items}
use aiautotest.Workflow.Degrees.{Degrees}
use aiautotest.Workflow.Contract.{LoopConfig, NodeKind, loop, Node, Edge, Workflow, node}
use aiautotest.Workflow.Graph.{reachable_between}
use aiautotest.Workflow.Exec.State.{
  Outside, WorkflowError, Result, ok, err, RunState, NodeResult, error_to_string, show, M, emit,
  check_cancelled, insert_var, remove_var,
}
use aiautotest.Workflow.Exec.Values.{resolve_source}
use aiautotest.Workflow.Exec.Nodes.{execute_node, next_nodes}

zeros : List Text → Degrees
zeros [] = []
zeros (id ∷ ids) = insert id 0 (zeros ids)

degree : Degrees → Text → ℕ
degree d id = elim (lookup id d) [ some n ↦ n | none ↦ 0 ]

count : List Edge → Degrees → Degrees
unfolding degree
count [] d = d
count (e ∷ es) d = count es (insert e.target (degree d e.target + 1) d)

unfoldable pub in_degrees : List Text → List Edge → Degrees
unfolding zeros count
in_degrees ids es = count es (zeros ids)

unfoldable pub is_start : Degrees → Text → Bool
is_start d id = elim (lookup id d) [ some n ↦ n == 0 | none ↦ false ]

unfoldable pub decrement : Degrees → List Text → Text → Degrees × List Text
decrement d queue target = elim (lookup target d) [
  | none ↦ (d, queue)
  | some n ↦ (
    insert target (n - 1) d,
    if (n - 1 == 0) && not (contains target queue) then queue ++ target ∷ [] else queue,
  )
]

unfoldable pub decrement_all : Degrees → List Text → List Text → Degrees × List Text
unfolding decrement
decrement_all d queue [] = (d, queue)
decrement_all d queue (target ∷ targets) =
    let (d', queue') = decrement d queue target in decrement_all d' queue' targets

position : {N : Type 0} → Text → List (Node N) → Option ℕ
position id [] = none
position id (n ∷ ns) =
    let rest : Option ℕ = elim (position id ns) [ some i ↦ some (suc i) | none ↦ none ] in
    if text_eq n.id id then some 0 else rest

unfoldable pub index_of : {N : Type 0} → Workflow N → Text → ℕ
unfolding position
index_of w id = elim (position id w.nodes) [ some i ↦ i | none ↦ usize_max ]

-- `sort_by_key`, which is stable.
unfoldable pub insert_by : (Text → ℕ) → Text → List Text → List Text
insert_by key a [] = a ∷ []
insert_by key a (b ∷ bs) =
    let rest = insert_by key a bs in if leb (key a) (key b) then a ∷ b ∷ bs else b ∷ rest

unfoldable pub sort_by_key : (Text → ℕ) → List Text → List Text
unfolding insert_by
sort_by_key key [] = []
sort_by_key key (a ∷ rest) = insert_by key a (sort_by_key key rest)

-- A run of a loop that has no fuel left is `none`.
abbrev pub Run : Type 0 → Type 0 → Type 0 → Type 0
Run N W A = RunState N W → Option (Result A × RunState N W)

module _ {N W : Type 0} where
  infixl 5 ◌>>=◌ ◌>>◌
  abbrev pub ◌>>=◌ : {A B : Type 0} → Run N W A → (A → Run N W B) → Run N W B
  ◌>>=◌ m f s = elim (m s) [
    | none ↦ none
    | some (ok a, s') ↦ f a s'
    | some (err e, s') ↦ some (err e, s')
  ]

  abbrev pub ◌>>◌ : {B : Type 0} → Run N W Unit → Run N W B → Run N W B
  m >> k = m >>= λ _. k

  abbrev pub step : {A : Type 0} → M N W A → Run N W A
  step m s = some (m s)

  abbrev pub return : {A : Type 0} → A → Run N W A
  return a s = some (ok a, s)

  abbrev pub fail : {A : Type 0} → WorkflowError → Run N W A
  fail e s = some (err e, s)

  -- The loop of `run_into` and of `run_range`. `fuel` bounds how many ids are visited; an id that was
  -- seen before takes none.
  unfoldable pub drain :
      (visit : Text → Run N W (List Text)) (stop : Text → Bool)
      → (fuel : ℕ) (seen : List Text) → Degrees
      → (queue : List Text) → Run N W Unit
  unfolding decrement_all contains
  drain visit stop fuel seen d [] s = some (ok tt, s)
  drain visit stop zero seen d (id ∷ queue) s =
      let rest = drain visit stop zero seen d queue s in if contains id seen then rest else none
  drain visit stop (suc fuel) seen d (id ∷ queue) s =
      let skip = drain visit stop (suc fuel) seen d queue s in
      let on =
        (visit id >>= λ fired.
        let (d', queue') = decrement_all d queue fired in
        let next = drain visit stop fuel (id ∷ seen) d' queue' in
        if stop id then return tt else next)
          s in
      if contains id seen then skip else on

module _ (out : Outside) (w : Workflow out.N) where
  open out use {N, W}

  -- The failure of a node that is not a loop ends the run.
  unfoldable pub after_node : Text → List Text × Option Text → Run N W (List Text)
  after_node id (fired, none) = return fired
  after_node id (fired, some message) = fail (WorkflowError.node id message)

  unfoldable pub visit_kind :
      (Node N → LoopConfig → Run N W (List Text)) → Node N → NodeKind N → Run N W (List Text)
  unfolding execute_node after_node
  visit_kind on_loop n (loop config) = on_loop n config
  visit_kind on_loop n _ = step (execute_node out w n) >>= after_node n.id

  unfoldable pub visit_node :
      (Node N → LoopConfig → Run N W (List Text)) → Option (Node N) → Run N W (List Text)
  unfolding visit_kind
  visit_node on_loop none = return []
  visit_node on_loop (some n) = visit_kind on_loop n n.kind

  -- What the loops do with an id that was not seen before.
  unfoldable pub visit : (Node N → LoopConfig → Run N W (List Text)) → Text → Run N W (List Text)
  unfolding check_cancelled visit_node node
  visit on_loop id = step (check_cancelled out) >> visit_node on_loop (node w id)

  unfoldable pub nested : Node N → LoopConfig → Run N W (List Text)
  nested n config = fail (WorkflowError.node n.id (text "nested loops are not supported"))

  insert_id : Text → List Text → List Text
  insert_id id ids = if contains id ids then ids else id ∷ ids

  unfoldable pub body_ids : (from to : Text) → List Text
  unfolding insert_id reachable_between
  body_ids from to = insert_id to (insert_id from (reachable_between w from to))

  unfoldable pub slice_degrees : List Text → Degrees
  unfolding in_degrees contains
  slice_degrees ids =
      in_degrees ids (filter (λ e. contains e.source ids && contains e.target ids) w.edges)

  -- Only edges into the body count, and `to` ends the slice.
  unfoldable pub visit_body : List Text → Text → Run N W (List Text)
  unfolding visit nested contains
  visit_body ids id = do
    fired ← visit nested id
    return (filter (λ target. contains target ids) fired)

  -- An id that names no node does not end the slice. The code holds the body's ids in no order; those
  -- that `sort_by_key` cannot part name no node, and a visit of one does nothing.
  unfoldable pub run_range : (from to : Text) → Run N W Unit
  unfolding body_ids slice_degrees visit_body is_start sort_by_key index_of drain
  run_range from to =
      let ids = body_ids from to in
      let d = slice_degrees ids in
      drain (visit_body ids) (λ id. text_eq id to && is_some (node w id)) (length d) [] d
        (sort_by_key (index_of w) (filter (is_start d) ids))

  unfoldable pub as_array : Value N → Option (List (Value N))
  as_array (array vs) = some (items vs)
  as_array _ = none

  unfoldable pub iterate : LoopConfig → List (Value N) → Run N W Unit
  unfolding check_cancelled run_range
  iterate config [] = return tt
  iterate config (item ∷ rest) =
      step (check_cancelled out)
      >> (step (insert_var config.item item)
          >> (run_range config.body_start config.body_end >> iterate config rest))

  loop_result : Text → (iterations total : ℕ) → NodeResult N
  loop_result id iterations total = record {
    node_id = id;
    ok = true;
    error = none;
    output = object (
        field (text "items") (number (out.number total))
          (field (text "iterations") (number (out.number iterations)) end));
  }

  -- The loop goes on from its body's exit, on the exit's last output.
  after_loop : LoopConfig → RunState N W → List Text
  unfolding node next_nodes lookup
  after_loop config s = elim (node w config.body_end) [
    | none ↦ []
    | some n ↦
        next_nodes w n.id (elim (lookup n.id s.node_results) [ some r ↦ r.output | none ↦ null ])
  ]

  unfoldable pub run_items : Node N → LoopConfig → Option (List (Value N)) → Run N W (List Text)
  unfolding iterate loop_result after_loop emit
  run_items n config none =
      fail (WorkflowError.node n.id (text "loop source is not an array: " ++ config.source))
  run_items n config (some vs) =
      let iterations = min (length vs) config.max_iterations in
      iterate config (take iterations vs)
      >> (step (remove_var config.item)
          >> (step (emit (loop_result n.id iterations (length vs)))
              >> (λ s. some (ok (after_loop config s), s))))

  unfoldable pub run_loop : Node N → LoopConfig → Run N W (List Text)
  unfolding resolve_source as_array run_items
  run_loop n config = step (λ s. (resolve_source out config.source s, s)) >>= λ source.
      run_items n config (as_array source)

  unfoldable pub workflow_degrees : Degrees
  unfolding in_degrees
  workflow_degrees = in_degrees (map Node.id w.nodes) w.edges

  unfoldable pub run_into : Run N W Unit
  unfolding workflow_degrees visit run_loop is_start sort_by_key index_of drain
  run_into s =
      let d = workflow_degrees in
      let starts = sort_by_key (index_of w) (filter (is_start d) (map Node.id w.nodes)) in
      elim w.nodes [
        | [] ↦ fail (WorkflowError.node [] (text "workflow has no nodes")) s
        | n ∷ ns ↦ drain (visit run_loop) (λ _. false) (length d) [] d starts s
      ]

pub data RunStatus : Type 0 where
  completed : RunStatus
  failed : RunStatus
  cancelled : RunStatus
  timed_out : RunStatus

-- `none` stands for a run that its timeout cut off.
unfoldable pub status : (timeout_secs : ℕ) → Option (Result Unit) → RunStatus × Option Text
unfolding error_to_string show
status timeout_secs none =
    (timed_out, some (text "workflow timed out after " ++ (show timeout_secs ++ text "s")))
status timeout_secs (some (ok a)) = (completed, none)
status timeout_secs (some (err WorkflowError.cancelled)) =
    (RunStatus.cancelled, some (error_to_string WorkflowError.cancelled))
status timeout_secs (some (err (WorkflowError.node id message))) =
    (failed, some (error_to_string (WorkflowError.node id message)))
status timeout_secs (some (err (WorkflowError.transport message))) =
    (failed, some (error_to_string (WorkflowError.transport message)))
