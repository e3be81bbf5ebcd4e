-- ===== src/Security/Executor/Laws.antt =====
-- Which requests a run sends, and how many.
use aiautotest.Common.{
  ℕ, suc, ◌+◌, ◌≤◌, max, ◌≡◌, refl, subst, ◌⊎◌, inl, inr, Bool, true, false, not, ◌||◌, Option,
  none, some, List, [], ◌∷◌, arith, length, length-append, All, All-append, Text, if-intro,
}
use aiautotest.Domain.Scope.{RegexEngine}
use aiautotest.Scanner.Executor as Scanner
use aiautotest.Scanner.Executor.{execute-bounds}
use aiautotest.Scanner.Budget.{BudgetTracker, try_take}
use aiautotest.Scanner.Request.{HttpRequest}
use aiautotest.Security.{SecurityTest}
use aiautotest.Security.Mutate.{Crates}
use aiautotest.Security.Executor.{
  start_run, execute, Scan, Evidence, Response, response_of, Reply, Answers, Sent, Run, Turn, next,
  stop, panic, Outcome, stopped, panicked, StopReason, SecurityExecutor, in_scope, asks, approves,
  recorded, add_finding, record_response, send, attempt, confirm, gate, guarded, prepared, turn,
  run_from, skip, ask, security_finding, not_approved, out_of_scope,
}

-- The run that an outcome leaves, a panic included.
abbrev pub log : Outcome → Run
log (stopped reason s) = s
log (panicked s) = s

-- How many requests have no result: none, or the last one before a panic.
abbrev pub missing : Outcome → ℕ
missing (stopped reason s) = 0
missing (panicked s) = 1

module _ (crates : Crates) (to_lowercase : Text → Text) (parse_url : Text → Option (Text × Text))
    (engine : RegexEngine) (scan : Text → Scan)
    (ex : SecurityExecutor crates to_lowercase parse_url engine scan) where
  -- A request of a test may be sent: it is in scope, and approved if the test asks for that.
  abbrev pub IsPermitted : SecurityTest → HttpRequest → Reply → Type 0
  IsPermitted t request reply =
      (in_scope crates to_lowercase parse_url engine scan ex request ≡ true)
      × ((not (asks crates to_lowercase parse_url engine scan ex t) || approves reply) ≡ true)

  -- A request that was permitted, and sent once and for some of the retries again.
  abbrev pub IsAllowed : Sent → Type 0
  IsAllowed x =
      IsPermitted x.test x.request x.reply × (1 ≤ x.tries) × (x.tries ≤ suc ex.config.retry_limit)

  -- The counts of a run against the budget; `due` is how many sent requests have no result yet.
  record IsValid (max due : ℕ) (s : Run) : Type 0 where
    pub allowed : All IsAllowed s.sent
    pub counted : s.requests_sent ≡ length s.sent
    pub budgeted : s.requests_sent + s.budget.remaining ≡ max
    pub answered : length s.findings + due ≡ s.requests_sent

  -- A panic may come before the result of the last request.
  abbrev Stands : ℕ → Run → Type 0
  Stands max s = IsValid max 0 s ⊎ IsValid max 1 s

  abbrev Keeps : ℕ → Turn → Type 0
  Keeps max (next s) = IsValid max 0 s
  Keeps max (stop reason s) = IsValid max 0 s
  Keeps max (panic s) = Stands max s

  recorded-Keeps :
      (max : ℕ) (t : SecurityTest) (request : HttpRequest) (response : Response) (s : Run)
      (evidence : Option Evidence) (cookies : Option (Option Text))
      → IsValid max 1 s
      → Keeps max
          (recorded crates to_lowercase parse_url engine scan t request response s evidence cookies)
  unfolding recorded add_finding
  recorded-Keeps max t request response s (some evidence) (some cookies) v =
      let answered = v.answered in
      let f =
        security_finding crates to_lowercase parse_url engine scan t request response evidence
          cookies in
      let long = length-append s.findings (f ∷ []) in
      record {
        allowed = v.allowed;
        counted = v.counted;
        budgeted = v.budgeted;
        answered = omega (arith, long, answered);
      }
  recorded-Keeps max t request response s none (some cookies) v = inr v
  recorded-Keeps max t request response s (some evidence) none v = inr v
  recorded-Keeps max t request response s none none v = inr v

  abbrev Allowed : SecurityTest → Answers → HttpRequest → Type 0
  Allowed t a request = IsPermitted t request a.reply

  send-Keeps :
      (max : ℕ) (taken : Bool) (budget : BudgetTracker) (t : SecurityTest) (a : Answers)
      (request : HttpRequest) (s : Run)
      → ((taken ≡ true) → budget.remaining + 1 ≡ s.budget.remaining)
      → Allowed t a request
      → IsValid max 0 s
      → Keeps max (
          send crates to_lowercase parse_url engine scan ex.config.retry_limit taken budget t a
            request s)
  unfolding send record_response
  send-Keeps max true budget t a request s slot allowed v =
      let counted = v.counted in
      let budgeted = v.budgeted in
      let answered = v.answered in
      let (result, tries) = Scanner.execute a.client ex.config.retry_limit in
      let bounds = execute-bounds a.client ex.config.retry_limit in
      let x : Sent = record { test = t; request = request; reply = a.reply; tries = tries } in
      let long = length-append s.sent (x ∷ []) in
      recorded-Keeps max t request (response_of result) _ _ _ (record {
        allowed =
            All-append IsAllowed s.sent (x ∷ []) v.allowed ((allowed, bounds.0, bounds.1), tt);
        counted = omega (arith, counted, long);
        budgeted = omega (arith, budgeted, slot refl);
        answered = omega (arith, answered);
      })
  send-Keeps max false budget t a request s slot allowed v = v

  try_take-slot :
      (b : BudgetTracker) → (try_take b).1 ≡ true → (try_take b).0.remaining + 1 ≡ b.remaining
  unfolding try_take
  try_take-slot b h = ground arith

  attempt-Keeps :
      (max : ℕ) (t : SecurityTest) (a : Answers) (request : HttpRequest) (s : Run)
      → Allowed t a request
      → IsValid max 0 s
      → Keeps max
          (attempt crates to_lowercase parse_url engine scan ex.config.retry_limit t a request s)
  unfolding attempt
  attempt-Keeps max t a request s allowed v =
      send-Keeps max (try_take s.budget).1 (try_take s.budget).0 t a request s
        (try_take-slot s.budget) allowed v

  -- Skipping a test and asking for its confirmation count nothing.
  skip-IsValid :
      (max : ℕ) (t : SecurityTest) (evidence : Evidence) (s : Run)
      → IsValid max 0 s
      → IsValid max 0 (skip crates to_lowercase parse_url engine scan t evidence s)
  unfolding skip
  skip-IsValid max t evidence s v = record {
    allowed = v.allowed;
    counted = v.counted;
    budgeted = v.budgeted;
    answered = v.answered;
  }

  ask-IsValid :
      (max : ℕ) (t : SecurityTest) (s : Run)
      → IsValid max 0 s
      → IsValid max 0 (ask crates to_lowercase parse_url engine scan t s)
  unfolding ask
  ask-IsValid max t s v = record {
    allowed = v.allowed;
    counted = v.counted;
    budgeted = v.budgeted;
    answered = v.answered;
  }

  confirm-Keeps :
      (max : ℕ) (approved : Bool) (t : SecurityTest) (a : Answers) (request : HttpRequest) (s : Run)
      → (approved ≡ true → Allowed t a request)
      → IsValid max 0 s
      → Keeps max (
          confirm crates to_lowercase parse_url engine scan ex.config.retry_limit approved t a
            request s)
  unfolding confirm
  confirm-Keeps max true t a request s allowed v = attempt-Keeps max t a request s (allowed refl) v
  confirm-Keeps max false t a request s allowed v = skip-IsValid max t not_approved s v

  gate-Keeps :
      (max : ℕ) (asked : Bool) (t : SecurityTest) (a : Answers) (request : HttpRequest) (s : Run)
      → asks crates to_lowercase parse_url engine scan ex t ≡ asked
      → in_scope crates to_lowercase parse_url engine scan ex request ≡ true
      → IsValid max 0 s
      → Keeps max
          (gate crates to_lowercase parse_url engine scan ex.config.retry_limit asked t a request s)
  unfolding gate
  gate-Keeps max true t a request s asked scoped v =
      confirm-Keeps max (approves a.reply) t a request _ (λ yes. (scoped, rw yes (ground arith)))
        (ask-IsValid max t s v)
  gate-Keeps max false t a request s asked scoped v =
      attempt-Keeps max t a request s (scoped, rw asked refl) v

  guarded-Keeps :
      (max : ℕ) (scoped asked : Bool) (t : SecurityTest) (a : Answers) (request : HttpRequest)
      (s : Run)
      → in_scope crates to_lowercase parse_url engine scan ex request ≡ scoped
      → asks crates to_lowercase parse_url engine scan ex t ≡ asked
      → IsValid max 0 s
      → Keeps max (
          guarded crates to_lowercase parse_url engine scan ex.config.retry_limit scoped asked t a
            request s)
  unfolding guarded
  guarded-Keeps max true asked t a request s is_scoped is_asked v =
      gate-Keeps max asked t a request s is_asked is_scoped v
  guarded-Keeps max false asked t a request s is_scoped is_asked v =
      skip-IsValid max t out_of_scope s v

  prepared-Keeps :
      (max : ℕ) (t : SecurityTest) (a : Answers) (o : Option HttpRequest) (s : Run)
      → IsValid max 0 s
      → Keeps max (prepared crates to_lowercase parse_url engine scan ex t a o s)
  unfolding prepared
  prepared-Keeps max t a none s v = inl v
  prepared-Keeps max t a (some r) s v = guarded-Keeps max _ _ t a _ s refl refl v

  turn-Keeps :
      (max : ℕ) (base_url : Text) (t : SecurityTest) (a : Answers) (s : Run)
      → IsValid max 0 s
      → Keeps max (turn crates to_lowercase parse_url engine scan ex base_url t a s)
  unfolding turn
  turn-Keeps max base_url t a s v =
      if-intro (Keeps max) a.is_cancelled _ _ (λ e. v) (λ e. prepared-Keeps max t a _ s v)

  abbrev Ends : ℕ → Outcome → Type 0
  Ends max (stopped reason s) = IsValid max 0 s
  Ends max (panicked s) = Stands max s

  Turn-cases :
      (u : Turn)
      → ((s : Run) × (u ≡ next s))
        ⊎ (((r : StopReason) × (s : Run) × (u ≡ stop r s)) ⊎ ((s : Run) × (u ≡ panic s)))
  Turn-cases (next s) = inl (s, refl)
  Turn-cases (stop r s) = inr (inl (r, s, refl))
  Turn-cases (panic s) = inr (inr (s, refl))

  run_from-Ends :
      (max : ℕ) (base_url : Text) (tests : List (SecurityTest × Answers)) (s : Run)
      → IsValid max 0 s
      → Ends max (run_from crates to_lowercase parse_url engine scan ex base_url tests s)
  unfolding run_from
  run_from-Ends max base_url [] s v = v
  run_from-Ends max base_url ((t, a) ∷ rest) s v =
      let u = turn crates to_lowercase parse_url engine scan ex base_url t a s in
      let kept = turn-Keeps max base_url t a s v in
      elim (Turn-cases u) [
        | inl (s', e) ↦
            rw (e, run_from) (run_from-Ends max base_url rest s' (subst (Keeps max) e kept))
        | inr (inl (r, s', e)) ↦ rw (e, run_from) (subst (Keeps max) e kept)
        | inr (inr (s', e)) ↦ rw (e, run_from) (subst (Keeps max) e kept)
      ]

  start_run-IsValid :
      IsValid ex.budget.remaining 0 (start_run crates to_lowercase parse_url engine scan ex)
  unfolding start_run
  start_run-IsValid = record {
    allowed = tt;
    counted = refl;
    budgeted = omega arith;
    answered = omega arith;
  }

  Summary : Outcome → Type 0
  Summary o =
      All IsAllowed (log o).sent
      × ((log o).requests_sent ≡ length (log o).sent)
      × ((log o).requests_sent + (log o).budget.remaining ≡ ex.budget.remaining)
      × (length (log o).findings ≤ (log o).requests_sent)
      × ((log o).requests_sent ≤ length (log o).findings + missing o)

  summarised :
      (o : Outcome) (due : ℕ)
      → due ≤ missing o
      → IsValid ex.budget.remaining due (log o)
      → Summary o
  unfolding Summary
  summarised o due few v =
      let budgeted = v.budgeted in
      let answered = v.answered in
      (v.allowed, v.counted, budgeted, omega (arith, answered), omega (arith, answered, few))

  Ends-Summary : (o : Outcome) → Ends ex.budget.remaining o → Summary o
  Ends-Summary (stopped reason s) v = summarised (stopped reason s) 0 (omega arith) v
  Ends-Summary (panicked s) (inl v) = summarised (panicked s) 0 (omega arith) v
  Ends-Summary (panicked s) (inr v) = summarised (panicked s) 1 (omega arith) v

  -- However a run ends, by a panic too, every request that it handed to the request executor was in
  -- scope and, when its test asks for a confirmation, approved; the client was asked to send it at
  -- least once and at most `retry_limit + 1` times. Each took one slot of the executor's budget, which
  -- has `max_requests` of them when it is new, whatever the number of its tries; and each has a result,
  -- but for the last one before a panic.
  pub execute-sends :
      (base_url : Text) (tests : List (SecurityTest × Answers))
      → let o = execute crates to_lowercase parse_url engine scan ex base_url tests in
        All IsAllowed (log o).sent
        × ((log o).requests_sent ≡ length (log o).sent)
        × ((log o).requests_sent + (log o).budget.remaining ≡ ex.budget.remaining)
        × (length (log o).findings ≤ (log o).requests_sent)
        × ((log o).requests_sent ≤ length (log o).findings + missing o)
  unfolding execute Summary
  execute-sends base_url tests =
      Ends-Summary _ (run_from-Ends ex.budget.remaining base_url tests _ start_run-IsValid)
