-- ===== src/Security/Executor.antt =====
-- crates/security/src/executor.rs: the run of a plan. What happens outside during a test, the answers
-- of `Answers`, is given; the two detectors of crates/analysis are a parameter, as are the crates and
-- the Unicode case functions. The per-host limiter only delays, and is left out.
pub mod New
pub mod Laws
pub mod Counts
pub mod Reports
mod Tests
use aiautotest.Common.{
  ℕ, ◌+◌, ◌<◌, ◌==◌, ltb, if◌then◌else◌, is_some, unwrap_or, ◌⊎◌, inl, inr, Bool, true, false, not,
  ◌&&◌, ◌||◌, Option, none, some, List, [], ◌∷◌, ◌++◌, length, filter, Text, text, contains_text,
  to_set,
}
use aiautotest.Domain.Scope.{RegexEngine, ScopeConfig, ScopeFilter, should_capture, is_empty, new}
use aiautotest.Scanner.Request.{HttpRequest, host_path, port_error_text}
use aiautotest.Scanner.Executor as Scanner
use aiautotest.Scanner.Executor.{Try, SendError, transport, timeout}
use aiautotest.Scanner.Verifier.{Severity}
use aiautotest.Scanner.Budget
use aiautotest.Scanner.Budget.{BudgetTracker, try_take, time_exceeded}
use aiautotest.Security.{SecurityTest, SecurityTestPlan, Target, Oracle, is_destructive}
use aiautotest.Security.Mutate.{Crates, mutate_target, inject_auth}
use aiautotest.Security.Judge.{
  Verdict, severity_from_str, check_oracle, verdict_str, is_likely_false_positive,
  oracle_should_report, skill_name, snippet, format_cookies,
}

pub data StopReason : Type 0 where
  completed cancelled budget_exhausted duration_exceeded scope_violation : StopReason

pub record SecurityRunConfig : Type 0 where
  pub max_requests : ℕ
  pub duration_budget : Option ℕ
  pub retry_limit : ℕ
  pub scope : ScopeConfig
  pub auth_cookies : List (Text × Text)
  pub auth_headers : List (Text × Text)

-- What the two scans of a response body say: whether one is suspicious, their signals, and the
-- exposed values as they are printed.
pub record Scan : Type 0 where
  pub is_suspicious : Bool
  pub signals : List Text
  pub exposed_values : Option Text

pub data Evidence : Type 0 where
  transport_error : (message : Text) → Evidence
  answered : (status body_len : ℕ) → (snippet : Text) → Evidence
  out_of_scope awaiting_confirmation not_approved : Evidence

pub record Finding : Type 0 where
  pub title : Text
  pub description : Text
  pub severity : Severity
  pub skill_name : Text
  pub flow_id : Text
  pub flow_path : Text
  pub flow_method : Text
  pub payload_value : Option Text
  pub evidence : Evidence

pub record SecurityFinding : Type 0 where
  pub test_id : Text
  pub flaw : Text
  pub target : Text
  pub severity : Severity
  pub passed : Bool
  pub evidence : Evidence
  pub signals : List Text
  pub status : ℕ
  pub finding : Option Finding
  pub potential : Bool
  pub verdict : Verdict
  pub payload_sent : Text
  pub request_url : Text
  pub request_method : Text
  pub response_body : Text
  pub cookies : Option Text
  pub is_html_page : Bool
  pub location : Text

pub record SecurityEvent : Type 0 where
  pub test_id : Text
  pub target : Text
  pub status : ℕ
  pub passed : Bool
  pub has_finding : Bool
  pub skipped : Bool
  pub evidence : Evidence
  pub potential : Bool
  pub needs_confirmation : Bool

-- How the wait for a confirmation ends; a dropped sender gives no response.
pub data Reply : Type 0 where
  replied : (approved : Bool) → Reply
  sender_dropped timed_out cancelled_meanwhile : Reply

-- The answer of `RequestExecutor::execute`, the body read as text, or the text of its error.
pub data Response : Type 0 where
  received : (status : ℕ) → (body : Text) → Response
  not_received : (message : Text) → Response

-- What a test meets: whether the run is cancelled before it, the reply, the time at the budget, and
-- what the client does with each try of its request, a status and a body that is read as text.
pub record Answers : Type 0 where
  pub is_cancelled : Bool
  pub reply : Reply
  pub now : ℕ
  pub client : ℕ → Try (ℕ × Text)

-- What the loop makes of the end of a request.
unfoldable pub response_of : (ℕ × Text) ⊎ SendError → Response
unfolding port_error_text
response_of (inl (status, body)) = received status body
response_of (inr (transport error)) = not_received (port_error_text error)
response_of (inr timeout) = not_received (text "timeout")

-- A request that was sent, with its test, the reply to its confirmation and how often the client was
-- asked to send it.
pub record Sent : Type 0 where
  pub test : SecurityTest
  pub request : HttpRequest
  pub reply : Reply
  pub tries : ℕ

pub record Run : Type 0 where
  pub budget : BudgetTracker
  pub findings : List SecurityFinding
  pub skipped : ℕ
  pub requests_sent : ℕ
  pub events : List SecurityEvent
  pub confirmations : List Text
  pub sent : List Sent

-- What one turn of the loop does.
pub data Turn : Type 0 where
  next : Run → Turn
  stop : StopReason → Run → Turn
  panic : Run → Turn

pub data Outcome : Type 0 where
  stopped : StopReason → Run → Outcome
  panicked : Run → Outcome

pub data ScanError : Type 0 where
  no_targets_allowed invalid_scope : ScanError

unfoldable pub require_allowlist : ScopeConfig → Option ScanError
require_allowlist scope = if is_empty scope.include_hosts then some no_targets_allowed else none

unfoldable pub approves : Reply → Bool
approves (replied approved) = approved
approves _ = false

unfoldable pub target_label : SecurityTest → Text
target_label t = t.target.method ++ (text " " ++ t.target.path)

module _ (crates : Crates) (to_lowercase : Text → Text) (parse_url : Text → Option (Text × Text))
    (engine : RegexEngine) (scan : Text → Scan) where
  -- `has_gate` is whether there is a channel for confirmations. Runs take slots of the one budget.
  pub record SecurityExecutor : Type 0 where
    pub config : SecurityRunConfig
    pub filter : ScopeFilter engine
    pub has_gate : Bool
    pub budget : BudgetTracker

  unfoldable pub with_filter :
      SecurityRunConfig
      → (has_gate : Bool) → (now : ℕ) → Option (ScopeFilter engine)
      → SecurityExecutor ⊎ ScanError
  with_filter config has_gate now none = inr invalid_scope
  with_filter config has_gate now (some filter) = inl (record {
    config = config;
    filter = filter;
    has_gate = has_gate;
    budget = Budget.new config.max_requests config.duration_budget now;
  })

  unfoldable pub with_allowlist :
      SecurityRunConfig
      → (has_gate : Bool) → (now : ℕ) → Option ScanError
      → SecurityExecutor ⊎ ScanError
  unfolding with_filter new
  with_allowlist config has_gate now (some error) = inr error
  with_allowlist config has_gate now none =
      with_filter config has_gate now (new engine config.scope)

  unfoldable pub with_events :
      SecurityRunConfig → (has_gate : Bool) → (now : ℕ) → SecurityExecutor ⊎ ScanError
  unfolding with_allowlist require_allowlist
  with_events config has_gate now =
      with_allowlist config has_gate now (require_allowlist config.scope)

  unfoldable pub in_scope : SecurityExecutor → HttpRequest → Bool
  unfolding host_path should_capture
  in_scope ex request =
      let (host, path) = host_path parse_url request.url in
      should_capture engine ex.filter host path

  unfoldable pub asks : SecurityExecutor → SecurityTest → Bool
  unfolding is_destructive
  asks ex t = is_destructive crates.to_uppercase to_lowercase t && ex.has_gate

  event : SecurityTest → Evidence → (skipped needs_confirmation : Bool) → SecurityEvent
  unfolding target_label
  event t evidence skipped needs_confirmation = record {
    test_id = t.id;
    target = target_label t;
    status = 0;
    passed = false;
    has_finding = false;
    skipped = skipped;
    evidence = evidence;
    potential = false;
    needs_confirmation = needs_confirmation;
  }

  unfoldable pub skip : SecurityTest → Evidence → Run → Run
  unfolding event
  skip t evidence s = record s {
    skipped = s.skipped + 1;
    events = s.events ++ event t evidence true false ∷ [];
  }

  -- The confirmation is requested; its sender is in the table only while the run waits.
  unfoldable pub ask : SecurityTest → Run → Run
  unfolding event
  ask t s = record s {
    confirmations = s.confirmations ++ t.id ∷ [];
    events = s.events ++ event t awaiting_confirmation false true ∷ [];
  }

  -- What the loop reads off a response: the status, the body and the error.
  unfoldable pub status_of : Response → ℕ
  status_of (received status body) = status
  status_of (not_received message) = 0

  unfoldable pub body_of : Response → Text
  body_of (received status body) = body
  body_of (not_received message) = []

  unfoldable pub passes : Oracle → Response → Bool
  unfolding check_oracle
  passes oracle (received status body) = check_oracle oracle status body
  passes oracle (not_received message) = false

  unfoldable pub is_potential : Oracle → Response → Bool
  unfolding passes
  is_potential oracle (not_received message) = false
  is_potential oracle (received status body) =
      not (passes oracle (received status body))
      && (not (status == 0) && (is_some oracle.expect_status || is_some oracle.expect_contains))

  evidence_of : Response → Option Text → Option Evidence
  evidence_of (not_received message) cut = some (transport_error message)
  evidence_of (received status body) none = none
  evidence_of (received status body) (some shown) = some (answered status (length body) shown)

  is_rsc_endpoint : SecurityTest → Bool
  unfolding contains_text
  is_rsc_endpoint t = contains_text (text "_rsc") t.target.path

  unfoldable pub by_oracle : SecurityTest → Response → Bool
  unfolding oracle_should_report passes is_potential status_of body_of
  by_oracle t response =
      oracle_should_report t.flaw (passes t.oracle response) (is_potential t.oracle response)
        (status_of response) (body_of response)

  unfoldable pub reports : SecurityTest → Response → Bool
  unfolding by_oracle is_likely_false_positive status_of body_of
  reports t response =
      (by_oracle t response || (scan (body_of response)).is_suspicious)
      && not (
          is_likely_false_positive to_lowercase t.flaw (status_of response) (body_of response)
            t.target.path)

  finding_of : SecurityTest → Response → Evidence → Option Finding
  unfolding reports by_oracle skill_name severity_from_str target_label is_rsc_endpoint body_of
  finding_of t response evidence =
      let name =
        skill_name t.flaw (scan (body_of response)).is_suspicious (is_rsc_endpoint t)
          (by_oracle t response) in
      if reports t response
      then some (record {
        title = name ++ (text " on " ++ target_label t);
        description = t.payload_hint;
        severity = severity_from_str t.severity;
        skill_name = name;
        flow_id = t.id;
        flow_path = t.target.path;
        flow_method = t.target.method;
        payload_value = t.payload;
        evidence = evidence;
      })
      else none

  -- The signals of both scans, sorted and each once, and the exposed values behind them.
  unfoldable pub signals_of : Scan → List Text
  unfolding to_set
  signals_of s =
      if s.is_suspicious
      then to_set s.signals ++ (elim s.exposed_values [ none ↦ [] | some values ↦ values ∷ [] ])
      else []

  is_html : Text → Bool
  unfolding contains_text
  is_html body =
      ltb 10000 (length body)
      || (contains_text (text "<!DOCTYPE") body || contains_text (text "<html") body)

  security_finding :
      SecurityTest → HttpRequest → Response → Evidence → (cookies : Option Text) → SecurityFinding
  unfolding finding_of signals_of verdict_str is_html passes is_potential target_label
      severity_from_str status_of body_of
  security_finding t request response evidence cookies = record {
    test_id = t.id;
    flaw = t.flaw;
    target = target_label t;
    severity = severity_from_str t.severity;
    passed = passes t.oracle response;
    evidence = evidence;
    signals = signals_of (scan (body_of response));
    status = status_of response;
    finding = finding_of t response evidence;
    potential = is_potential t.oracle response;
    verdict =
        verdict_str t.flaw (passes t.oracle response) (is_potential t.oracle response)
          (status_of response);
    payload_sent = unwrap_or t.payload [];
    request_url = request.url;
    request_method = t.target.method;
    response_body = body_of response;
    cookies = cookies;
    is_html_page = is_html (body_of response);
    location = unwrap_or t.location [];
  }

  -- The result and its event, behind those before.
  add_finding : SecurityFinding → Run → Run
  add_finding f s = record s {
    findings = s.findings ++ f ∷ [];
    events =
        s.events
        ++ (record {
          test_id = f.test_id;
          target = f.target;
          status = f.status;
          passed = f.passed;
          has_finding = is_some f.finding;
          skipped = false;
          evidence = f.evidence;
          potential = f.potential;
          needs_confirmation = false;
        })
          ∷ [];
  }

  unfoldable pub recorded :
      SecurityTest → HttpRequest → Response → Run → Option Evidence → Option (Option Text) → Turn
  unfolding security_finding add_finding
  recorded t request response s (some evidence) (some cookies) =
      next (add_finding (security_finding t request response evidence cookies) s)
  recorded t request response s _ _ = panic s

  unfoldable pub record_response : SecurityTest → HttpRequest → Response → Run → Turn
  unfolding recorded evidence_of snippet format_cookies body_of
  record_response t request response s =
      recorded t request response s (evidence_of response (snippet (body_of response)))
        (format_cookies to_lowercase request)

  -- The budget, and the request if it has a slot.
  unfoldable pub send :
      (retry_limit : ℕ)
      → (taken : Bool) → BudgetTracker
      → SecurityTest
      → Answers
      → HttpRequest
      → Run
      → Turn
  unfolding record_response time_exceeded response_of Scanner.execute
  send retry_limit true budget t a request s =
      let (result, tries) = Scanner.execute a.client retry_limit in
      record_response t request (response_of result) (record s {
        budget = budget;
        requests_sent = s.requests_sent + 1;
        sent =
            s.sent ++ (record { test = t; request = request; reply = a.reply; tries = tries }) ∷ [];
      })
  send retry_limit false budget t a request s =
      stop (if time_exceeded a.now s.budget then duration_exceeded else budget_exhausted) s

  unfoldable pub attempt : (retry_limit : ℕ) → SecurityTest → Answers → HttpRequest → Run → Turn
  unfolding send try_take
  attempt retry_limit t a request s =
      send retry_limit (try_take s.budget).1 (try_take s.budget).0 t a request s

  unfoldable pub confirm :
      (retry_limit : ℕ) → (approved : Bool) → SecurityTest → Answers → HttpRequest → Run → Turn
  unfolding attempt skip
  confirm retry_limit true t a request s = attempt retry_limit t a request s
  confirm retry_limit false t a request s = next (skip t not_approved s)

  unfoldable pub gate :
      (retry_limit : ℕ) → (asked : Bool) → SecurityTest → Answers → HttpRequest → Run → Turn
  unfolding confirm attempt ask approves
  gate retry_limit true t a request s = confirm retry_limit (approves a.reply) t a request (ask t s)
  gate retry_limit false t a request s = attempt retry_limit t a request s

  unfoldable pub guarded :
      (retry_limit : ℕ)
      → (in_scope asked : Bool) → SecurityTest
      → Answers
      → HttpRequest
      → Run
      → Turn
  unfolding gate skip
  guarded retry_limit true asked t a request s = gate retry_limit asked t a request s
  guarded retry_limit false asked t a request s = next (skip t out_of_scope s)

  unfoldable pub prepared :
      SecurityExecutor → SecurityTest → Answers → Option HttpRequest → Run → Turn
  unfolding guarded in_scope asks inject_auth
  prepared ex t a none s = panic s
  prepared ex t a (some r) s =
      let request = inject_auth ex.config.auth_cookies ex.config.auth_headers r in
      guarded ex.config.retry_limit (in_scope ex request) (asks ex t) t a request s

  unfoldable pub turn : SecurityExecutor → (base_url : Text) → SecurityTest → Answers → Run → Turn
  unfolding prepared mutate_target
  turn ex base_url t a s =
      if a.is_cancelled
      then stop cancelled s
      else prepared ex t a (mutate_target crates t base_url) s

  unfoldable pub run_from :
      SecurityExecutor → (base_url : Text) → List (SecurityTest × Answers) → Run → Outcome
  unfolding turn
  run_from ex base_url [] s = stopped completed s
  run_from ex base_url ((t, a) ∷ rest) s = elim (turn ex base_url t a s) [
    | next s' ↦ run_from ex base_url rest s'
    | stop reason s' ↦ stopped reason s'
    | panic s' ↦ panicked s'
  ]

  -- The budget is as the runs before have left it.
  unfoldable pub start_run : SecurityExecutor → Run
  start_run ex = record {
    budget = ex.budget;
    findings = [];
    skipped = 0;
    requests_sent = 0;
    events = [];
    confirmations = [];
    sent = [];
  }

  -- The tests of the plan, each with what it meets.
  unfoldable pub execute :
      SecurityExecutor → (base_url : Text) → List (SecurityTest × Answers) → Outcome
  unfolding run_from start_run
  execute ex base_url tests = run_from ex base_url tests (start_run ex)
