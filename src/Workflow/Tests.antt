-- ===== src/Workflow/Tests.antt =====
-- Runs of small workflows.
use aiautotest.Common.{
  trim, find_split, lookup, ◌++◌, ℕ, ◌+◌, ltb, ◌==◌, true, false, Option, none, some, List, [], ◌∷◌,
  Text, text, map, insert, text_eq, strip_prefix, if◌then◌else◌, ◌≡◌, refl, is_some,
}
use aiautotest.Workflow.Exec.Values.{resolve_source}
use aiautotest.Workflow.Exec.References.{delay_kind, output-unresolved}
use aiautotest.Scanner.Request.{permanent}
use aiautotest.Workflow.Json.{null, number, object, field, end}
use aiautotest.Workflow.Contract.{
  HttpRequestConfig, http_request, delay, condition, Node, Edge, Workflow,
}
use aiautotest.Workflow.Exec.State.{
  WorkflowError, err, Outside, Sent, response, failed, Result, RunState, NodeResult,
}
use aiautotest.Workflow.Exec.Nodes.{run_http, execute_node, run_kind, node_result}
use aiautotest.Workflow.Exec.Engine.{run_into}
use aiautotest.Workflow.Exec.Fuel.{run_into-ends}
use aiautotest.Workflow.Exec.Retries.{WithinRetries, run_http-WithinRetries}

-- A client that answers every third request, a token that nobody cancels, and a world that counts
-- the requests.
abbrev answer : ℕ → Sent
answer n = if n == 2 then response 200 [] (text "{}") else failed (permanent (text "refused"))

abbrev outside : Outside
outside = record {
  N = ℕ;
  W = ℕ;
  Float = ℕ;
  zero_f64 = 0;
  send = λ r n. (answer n, n + 1);
  is_cancelled = λ n. (false, n);
  sleep_or_cancelled = λ ms n. (false, n);
  number_eq = λ a b. a == b;
  number = λ n. n;
  as_f64 = λ n. some n;
  parse_f64 = λ s. none;
  gt = λ a b. ltb b a;
  from_str = λ s. none;
  to_string = λ v. [];
  to_uppercase = λ s. s;
  replace_all = λ f s. s;
  from_utf8_lossy = λ s. s;
}

abbrev start : RunState ℕ ℕ
start = record { vars = []; node_results = []; on_node = []; world = 0 }

abbrev request : ℕ → HttpRequestConfig
request retries = record {
  method = text "GET";
  path = text "/a";
  headers = [];
  body = none;
  retries = retries;
  timeout_secs = 5;
}

abbrev fetch : Node ℕ
fetch = record { id = text "fetch"; kind = http_request (request 2) }

abbrev edge : Text → Text → Option Text → Edge
edge source target when = record { source = source; target = target; when = when }

-- A request, and a pair of pauses that wait for each other.
abbrev three : Workflow ℕ
three = record {
  name = text "three";
  base_url = text "http://h/";
  timeout_secs = 60;
  nodes =
      fetch
      ∷ record { id = text "a"; kind = delay 0 }
      ∷ record { id = text "b"; kind = delay 0 }
      ∷ [];
  edges =
      edge (text "fetch") (text "a") none
      ∷ edge (text "a") (text "b") none
      ∷ edge (text "b") (text "a") none
      ∷ [];
}

run_into-ends_example : is_some (run_into outside three start) ≡ true
run_into-ends_example = run_into-ends outside three start

run_http-WithinRetries_example :
    WithinRetries
      (λ n. n)
      2
      0
      (run_http outside [] (request 1) start).1.world
      (run_http outside [] (request 1) start).0
run_http-WithinRetries_example =
    run_http-WithinRetries outside (λ n. n) (λ r n. refl) (λ n. refl) [] (request 1) start

-- Two failures and an answer are three requests; one retry is too few.
fetch-calls : (execute_node outside three fetch start).1.world ≡ 3
unfolding execute_node
fetch-calls = refl

one_retry-calls : (run_http outside [] (request 1) start).1.world ≡ 2
unfolding run_http
one_retry-calls = refl

visited : Option (Result Unit × RunState ℕ ℕ) → List Text
visited none = []
visited (some (r, s)) = map NodeResult.node_id s.on_node

-- A node runs once a fired edge brings its in-degree to 0, so here only the first one does.
three-visited : visited (run_into outside three start) ≡ text "fetch" ∷ []
unfolding visited run_into insert text_eq
three-visited = refl

-- `join` has an edge from each branch, of which one fires: it never runs.
abbrev diamond : Workflow ℕ
diamond = record {
  name = text "diamond";
  base_url = [];
  timeout_secs = 60;
  nodes =
      record {
        id = text "if";
        kind =
            condition
              (record { source = text "var.x"; path = []; operator = text "eq"; value = null });
      }
      ∷ record { id = text "yes"; kind = delay 0 }
      ∷ record { id = text "no"; kind = delay 0 }
      ∷ record { id = text "join"; kind = delay 0 }
      ∷ [];
  edges =
      edge (text "if") (text "yes") (some (text "true"))
      ∷ edge (text "if") (text "no") (some (text "false"))
      ∷ edge (text "yes") (text "join") none
      ∷ edge (text "no") (text "join") none
      ∷ [];
}

diamond-visited :
    visited (run_into outside diamond (record start { vars = (text "x", null) ∷ [] }))
    ≡ text "if" ∷ text "yes" ∷ []
unfolding visited run_into insert text_eq strip_prefix
diamond-visited = refl

-- The result of a delay.
abbrev waited : NodeResult ℕ
waited = record {
  node_id = text "check";
  ok = true;
  output = object (field (text "ms") (number 5) end);
  error = none;
}

check-not_var : strip_prefix (text "var.") (trim (text " check.output")) ≡ none
unfolding strip_prefix trim
check-not_var = refl

check-parts : find_split b'.' (trim (text " check.output")) ≡ (text "check", some (text "output"))
unfolding find_split trim
check-parts = refl

check-stored :
    lookup (text "check") ((text "check", waited) ∷ [])
    ≡ some
        (node_result outside (text "check") (run_kind outside [] (text "check") (delay 5) start).0)
unfolding lookup text_eq node_result run_kind
check-stored = refl

output-unresolved_example :
    resolve_source outside
      (text " check.output")
      (record start { node_results = (text "check", waited) ∷ [] })
    ≡ err (WorkflowError.node [] (text "source path not found: " ++ trim (text " check.output")))
output-unresolved_example =
    output-unresolved outside [] (text " check.output") (text "check") (text "check") (delay 5)
      start (record start { node_results = (text "check", waited) ∷ [] }) (delay_kind 5)
      check-not_var check-parts check-stored
