-- ===== src/Workflow/Exec/Retries.antt =====
-- How often an HTTP node sends, and what one node leaves behind.
use aiautotest.Common.{
  ℕ, zero, suc, ◌+◌, ◌≤◌, ◌<◌, Bool, true, false, Text, ◌⊎◌, inl, inr, if◌then◌else◌, arith, ◌≡◌,
  ◌∙◌, max,
}
use aiautotest.Workflow.Json.{Value}
use aiautotest.Scanner.Request.{HttpRequest}
use aiautotest.Workflow.Contract.{HttpRequestConfig}
use aiautotest.Workflow.Exec.State.{
  Outside, WorkflowError, Result, ok, err, cancelled, RunState, M, ◌>>◌, check_cancelled,
}
use aiautotest.Workflow.Exec.Nodes.{outcome, or_again, send_with_retries, run_http, build_request}

-- What `calls` counts before and after a number of tries, and that a failure that is not a
-- cancellation comes after all of them.
pub record WithinRetries {W V : Type 0} (calls : W → ℕ) (tries : ℕ) (before after : W)
    (r : Result V) : Type 0 where
  pub some_call : calls before < calls after
  pub bounded : calls after ≤ calls before + tries
  pub all_tried :
      (e : WorkflowError) → r ≡ err e → (e ≡ cancelled) ⊎ (calls after ≡ calls before + tries)

module _ (out : Outside) (calls : out.W → ℕ)
    (send-calls : (r : HttpRequest) (world : out.W) → calls (out.send r world).1 ≡ calls world + 1)
    (is_cancelled-calls : (world : out.W) → calls (out.is_cancelled world).1 ≡ calls world) where
  open out use {N, W}

  -- After the check of the token, whose answer is `c`.
  checked-WithinRetries :
      (again : M N W (Value N)) (tries : ℕ) (before : W)
      → ((s : RunState N W) → WithinRetries calls tries s.world (again s).1.world (again s).0)
      → (c : Bool) (s : RunState N W) → calls s.world ≡ calls before + 1
      → WithinRetries calls
          (suc tries)
          before
          (((λ s. (if c then err cancelled else ok tt, s)) >> again) s).1.world
          (((λ s. (if c then err cancelled else ok tt, s)) >> again) s).0
  checked-WithinRetries again tries before h true s one = record {
    some_call = omega arith;
    bounded = omega arith;
    all_tried = λ e q. inl (ground (arith, q));
  }
  checked-WithinRetries again tries before h false s one =
      let rest = h s in
      let sent = rest.some_call in
      let most = rest.bounded in
      record {
        some_call = omega arith;
        bounded = omega arith;
        all_tried =
            λ e q. elim (rest.all_tried e q) [ inl c ↦ inl c | inr all ↦ inr (omega arith) ];
      }

  or_again-WithinRetries :
      (again : M N W (Value N)) (tries : ℕ) (before : W)
      → ((s : RunState N W) → WithinRetries calls tries s.world (again s).1.world (again s).0)
      → (r : Result (Value N)) (s : RunState N W) → calls s.world ≡ calls before + 1
      → WithinRetries calls
          (suc tries)
          before
          (or_again out again r s).1.world
          (or_again out again r s).0
  unfolding or_again check_cancelled
  or_again-WithinRetries again tries before h (ok v) s one = record {
    some_call = omega arith;
    bounded = omega arith;
    all_tried = λ e q. ground arith;
  }
  or_again-WithinRetries again tries before h (err x) s one =
      checked-WithinRetries again tries before h (out.is_cancelled s.world).0
        (record s { world = (out.is_cancelled s.world).1 }) (is_cancelled-calls s.world ∙ one)

  send_with_retries-WithinRetries :
      (r : HttpRequest) (timeout left : ℕ) (s : RunState N W)
      → WithinRetries calls
          (suc left)
          s.world
          (send_with_retries out r timeout left s).1.world
          (send_with_retries out r timeout left s).0
  unfolding send_with_retries
  send_with_retries-WithinRetries r timeout zero s =
      let one = send-calls r s.world in
      record { some_call = omega arith; bounded = omega arith; all_tried = λ e q. inr one }
  send_with_retries-WithinRetries r timeout (suc left) s =
      or_again-WithinRetries (send_with_retries out r timeout left) (suc left) s.world
        (send_with_retries-WithinRetries r timeout left)
        (outcome out timeout (out.send r s.world).0) (record s { world = (out.send r s.world).1 })
        (send-calls r s.world)

  -- An HTTP node sends its request at least once and at most `retries + 1` times, and when it fails
  -- otherwise than by a cancellation it has sent it `retries + 1` times, whether the client's errors
  -- were transient or permanent or it did not answer in time. `calls` is any count that goes up by one
  -- when the client sends and that the token's test leaves as it is.
  pub run_http-WithinRetries :
      (base_url : Text) (config : HttpRequestConfig) (s : RunState N W)
      → WithinRetries calls
          (suc config.retries)
          s.world
          (run_http out base_url config s).1.world
          (run_http out base_url config s).0
  unfolding run_http
  run_http-WithinRetries base_url config s =
      send_with_retries-WithinRetries (build_request out base_url config s)
        (max config.timeout_secs 1) config.retries s
