-- ===== src/Workflow/Exec/Nodes.antt =====
-- One node at a time: each kind's runner, and `execute_node`, which records the result and fires edges.
use aiautotest.Common.{
  trim, ℕ, zero, suc, max, Bool, true, false, not, ◌&&◌, Option, none, some, List, [], ◌∷◌, ◌++◌,
  Text, text, text_eq, if◌then◌else◌, filter, map, lookup, unwrap_or,
}
use aiautotest.Workflow.Json.{
  Value, null, bool, number, string, object, Fields, end, field, as_bool, insert_field,
}
use aiautotest.Workflow.Contract.{
  HttpRequestConfig, ExtractVariableConfig, AssertConfig, ConditionConfig, http_request,
  extract_variable, assert, delay, condition, loop, NodeKind, Node, Edge, Workflow,
}
use aiautotest.Workflow.Graph.{join_url}
use aiautotest.Scanner.Request.{HttpRequest, port_error_text}
use aiautotest.Workflow.Exec.State.{
  Outside, Sent, response, failed, timed_out, Result, ok, err, RunState, NodeResult,
  error_to_string, show, M, ◌>>=◌, ◌>>◌, return, fail, read, get_state, lift, transport, node,
  cancelled, insert_var, emit, check_cancelled,
}
use aiautotest.Workflow.Exec.Values.{resolve_source, apply_path, compare, render}

-- The targets of the node's edges that fire on its output.
edge_fires : Bool → Option Text → Bool
edge_fires bool_out none = true
edge_fires bool_out (some when) = if text_eq when (text "true") then bool_out else not bool_out

unfoldable pub next_nodes : {N : Type 0} → Workflow N → Text → Value N → List Text
unfolding edge_fires as_bool
next_nodes w id output =
    let bool_out = unwrap_or (as_bool output) false in
    map Edge.target (filter (λ e. text_eq e.source id && edge_fires bool_out e.when) w.edges)

module _ (out : Outside) where
  open out use {N, W}

  insert_headers : List (Text × Text) → Fields N → Fields N
  unfolding insert_field
  insert_headers [] fs = fs
  insert_headers ((name, value) ∷ headers) fs =
      insert_headers headers (insert_field name (string value) fs)

  headers_value : List (Text × Text) → Fields N
  unfolding insert_headers
  headers_value headers = insert_headers headers end

  -- The body is parsed as JSON where it is; else `json` is null.
  unfoldable pub response_value : ℕ → List (Text × Text) → Text → Value N
  unfolding headers_value
  response_value status headers bytes =
      let body = out.from_utf8_lossy bytes in
      object (
        field (text "response")
          (object (
            field (text "body") (string body) (
              field (text "headers") (object (headers_value headers)) (
                field (text "json") (unwrap_or (out.from_str body) null)
                  (field (text "status") (number (out.number status)) end)))))
          end)

  unfoldable pub build_request : Text → HttpRequestConfig → RunState N W → HttpRequest
  unfolding render join_url trim
  build_request base_url config s = record {
    method = out.to_uppercase (trim config.method);
    url = join_url base_url (render out config.path s);
    headers = map (λ h. (h.0, render out h.1 s)) config.headers;
    body = elim config.body [ some b ↦ some (render out b s) | none ↦ none ];
  }

  send : HttpRequest → M N W Sent
  send request s =
      let (sent, world) = out.send request s.world in (ok sent, record s { world = world })

  unfoldable pub outcome : (timeout : ℕ) → Sent → Result (Value N)
  unfolding response_value show port_error_text
  outcome timeout (response status headers body) = ok (response_value status headers body)
  outcome timeout (failed error) = err (transport (port_error_text error))
  outcome timeout timed_out =
      err (node [] (text "request timed out after " ++ (show timeout ++ text "s")))

  -- The end of a try that is not the last.
  unfoldable pub or_again : M N W (Value N) → Result (Value N) → M N W (Value N)
  unfolding check_cancelled
  or_again again (ok v) = return v
  or_again again (err e) = check_cancelled out >> again

  -- The loop: `left` is how many retries remain.
  unfoldable pub send_with_retries : HttpRequest → (timeout left : ℕ) → M N W (Value N)
  unfolding send outcome or_again
  send_with_retries request timeout zero = send request >>= λ sent. lift (outcome timeout sent)
  send_with_retries request timeout (suc left) = send request >>= λ sent.
      or_again (send_with_retries request timeout left) (outcome timeout sent)

  unfoldable pub run_http : Text → HttpRequestConfig → M N W (Value N)
  unfolding build_request send_with_retries
  run_http base_url config s =
      send_with_retries (build_request base_url config s) (max config.timeout_secs 1) config.retries
        s

  -- What `extract_variable`, `assert` and `condition` read.
  unfoldable pub source_value : Text → Text → M N W (Value N)
  unfolding resolve_source apply_path
  source_value source path = do
    value ← read (resolve_source out source)
    lift (apply_path out value path)

  unfoldable pub run_extract : ExtractVariableConfig → M N W (Value N)
  unfolding source_value
  run_extract config = do
    value ← source_value config.source config.path
    insert_var config.name value
    return value

  unfoldable pub assert_message : AssertConfig N → Value N → Text
  assert_message config value =
      text "assert failed: "
      ++ (config.source
          ++ (text " "
              ++ (config.operator
                  ++ (text " "
                      ++ (out.to_string config.expected
                          ++ (text " (got " ++ (out.to_string value ++ text ")")))))))

  unfoldable pub run_assert : AssertConfig N → Text → M N W (Value N)
  unfolding source_value compare assert_message
  run_assert config node_id = do
    value ← source_value config.source config.path
    passed ← lift (compare out config.operator value config.expected)
    if passed then return (bool true) else fail (node node_id (assert_message config value))

  unfoldable pub run_condition : ConditionConfig N → M N W (Value N)
  unfolding source_value compare
  run_condition config = do
    value ← source_value config.source config.path
    passed ← lift (compare out config.operator value config.value)
    return (bool passed)

  unfoldable pub sleep : ℕ → M N W Unit
  sleep zero s = (ok tt, s)
  sleep (suc n) s =
      let (first, world) = out.sleep_or_cancelled (suc n) s.world in
      (if first then err cancelled else ok tt, record s { world = world })

  unfoldable pub run_delay : ℕ → M N W (Value N)
  unfolding sleep
  run_delay ms = do sleep ms; return (object (field (text "ms") (number (out.number ms)) end))

  -- Loops are the engine's; for one, the source's `unreachable!` is an error here.
  unfoldable pub run_kind : (base_url id : Text) → NodeKind N → M N W (Value N)
  unfolding run_http run_extract run_assert run_condition run_delay
  run_kind base_url id (http_request config) = run_http base_url config
  run_kind base_url id (extract_variable config) = run_extract config
  run_kind base_url id (assert config) = run_assert config id
  run_kind base_url id (condition config) = run_condition config
  run_kind base_url id (delay ms) = run_delay ms
  run_kind base_url id (loop config) = fail (node id (text "loops are handled by the runner"))

  unfoldable pub node_result : Text → Result (Value N) → NodeResult N
  unfolding error_to_string
  node_result id (ok v) = record { node_id = id; ok = true; output = v; error = none }
  node_result id (err e) = record {
    node_id = id;
    ok = false;
    output = null;
    error = some (error_to_string e);
  }

  unfoldable pub error_of : Option (NodeResult N) → Option Text
  error_of none = none
  error_of (some r) = r.error

  unfoldable pub record_result : Workflow N → Text → NodeResult N → M N W (List Text × Option Text)
  unfolding emit next_nodes lookup error_of
  record_result w id result = do
    emit result
    state ← get_state
    return (next_nodes w id result.output, error_of (lookup id state.node_results))

  unfoldable pub run_and_record : Workflow N → Node N → M N W (List Text × Option Text)
  unfolding run_kind node_result record_result
  run_and_record w n s =
      let (r, s') = run_kind w.base_url n.id n.kind s in
      record_result w n.id (node_result n.id r) s'

  -- The targets that fire, and the node's error: an error of the node is a result of its own.
  unfoldable pub execute_node : Workflow N → Node N → M N W (List Text × Option Text)
  unfolding check_cancelled run_and_record
  execute_node w n = check_cancelled out >> run_and_record w n
