-- ===== src/Workflow/Exec/Recording.antt =====
-- What the execution of one node leaves behind.
use aiautotest.Common.{
  Bool, true, false, not, Option, some, List, Text, if◌then◌else◌, lookup, insert, lookup-insert,
  ◌≡◌, refl, ◌∙◌, ap, is_some, text_eq_refl, arith,
}
use aiautotest.Workflow.Json.{Value}
use aiautotest.Workflow.Contract.{Node, Workflow}
use aiautotest.Workflow.Exec.State.{
  Outside, Result, ok, err, RunState, NodeResult, check_cancelled, emit, cancelled, ◌>>◌,
}
use aiautotest.Workflow.Exec.Nodes.{
  execute_node, run_kind, record_result, node_result, next_nodes, error_of, run_and_record,
}

-- `r` is the node's result in `s`, and the answer fires the edges of its output.
pub record IsRecorded {N W : Type 0} (w : Workflow N) (id : Text) (r : NodeResult N)
    (answer : Result (List Text × Option Text)) (s : RunState N W) : Type 0 where
  pub id_eq : r.node_id ≡ id
  pub ok_eq : r.ok ≡ not (is_some r.error)
  pub stored : lookup id s.node_results ≡ some r
  pub answered : answer ≡ ok (next_nodes w id r.output, r.error)

inserted :
    {V : Type 0} (k j : Text) (v : V) (m : List (Text × V))
    → k ≡ j
    → lookup j (insert k v m) ≡ some v
inserted k j v m e = lookup-insert k j v m ∙ rw (e, text_eq_refl j) refl

module _ (out : Outside) (w : Workflow out.N) where
  open out use {N, W}

  node_result-id : (id : Text) (r : Result (Value N)) → (node_result out id r).node_id ≡ id
  unfolding node_result
  node_result-id id (ok v) = refl
  node_result-id id (err e) = refl

  node_result-ok :
      (id : Text) (r : Result (Value N))
      → (node_result out id r).ok ≡ not (is_some (node_result out id r).error)
  unfolding node_result
  node_result-ok id (ok v) = refl
  node_result-ok id (err e) = refl

  record_result-IsRecorded :
      (id : Text) (r : NodeResult N) (s : RunState N W)
      → r.node_id ≡ id
      → r.ok ≡ not (is_some r.error)
      → IsRecorded w id r (record_result out w id r s).0 (record_result out w id r s).1
  unfolding record_result emit error_of
  record_result-IsRecorded id r s e o =
      let kept = inserted r.node_id id r s.node_results e in
      record {
        id_eq = e;
        ok_eq = o;
        stored = kept;
        answered = ap (λ o. ok (next_nodes w id r.output, error_of out o)) kept;
      }

  -- After the check of the token, whose answer is `c`.
  checked :
      (n : Node N) (c : Bool) (s : RunState N W)
      → c ≡ false
      → (r : NodeResult N) × IsRecorded w n.id r
          (((λ s. (if c then err cancelled else ok tt, s)) >> run_and_record out w n) s).0
          (((λ s. (if c then err cancelled else ok tt, s)) >> run_and_record out w n) s).1
  unfolding run_and_record
  checked n true s e = ground (arith, e)
  checked n false s e =
      let (a, s') = run_kind out w.base_url n.id n.kind s in
      (
        node_result out n.id a,
        record_result-IsRecorded n.id (node_result out n.id a) s' (node_result-id n.id a)
            (node_result-ok n.id a),
      )

  -- A node that is executed while the token is not cancelled has a result in the run's results when
  -- `execute_node` returns, under its own id: the call succeeds even if the node failed, the failure
  -- that it reports is the result's, the result is marked as good when there is none, and the
  -- successors are the targets of the edges that fire on the result's output.
  pub execute_node-records :
      (n : Node N) (s : RunState N W)
      → (out.is_cancelled s.world).0 ≡ false
      → (r : NodeResult N) × IsRecorded w n.id r
          (execute_node out w n s).0
          (execute_node out w n s).1
  unfolding execute_node check_cancelled
  execute_node-records n s e =
      checked n (out.is_cancelled s.world).0 (record s { world = (out.is_cancelled s.world).1 }) e
