-- ===== src/Security/Executor/Counts.antt =====
-- How a run goes through the tests of its plan.
use aiautotest.Common.{
  ℕ, suc, ◌+◌, ◌≤◌, ◌≡◌, refl, subst, ◌≢◌, ◌⊎◌, inl, inr, Bool, true, false, Option, none, some,
  List, [], ◌∷◌, arith, length, All, Text, if-intro,
}
use aiautotest.Domain.Scope.{RegexEngine}
use native.Mathlib.Nat.{zero-add}
use aiautotest.Scanner.Executor as Scanner
use aiautotest.Scanner.Budget.{BudgetTracker, try_take, time_exceeded}
use aiautotest.Scanner.Request.{HttpRequest}
use aiautotest.Security.{SecurityTest}
use aiautotest.Security.Mutate.{Crates}
use aiautotest.Security.Executor.{
  start_run, execute, Scan, Evidence, Response, response_of, Answers, Run, Turn, next, stop, panic,
  Outcome, stopped, panicked, StopReason, completed, budget_exhausted, duration_exceeded,
  SecurityExecutor, approves, recorded, record_response, send, attempt, confirm, gate, guarded,
  prepared, turn, run_from, skip, ask, not_approved, out_of_scope, add_finding,
}

-- A turn takes one test, sent or skipped, and at most one slot of the budget, from a run that has
-- sent or skipped `n` and has `slots`; it stops only when the run is cancelled or no slot is left.
Takes : (is_cancelled : Bool) → (n slots : ℕ) → Turn → Type 0
Takes is_cancelled n slots (next s) =
    (s.requests_sent + s.skipped ≡ n + 1) × (slots ≤ s.budget.remaining + 1)
Takes is_cancelled n slots (stop reason s) =
    (reason ≢ completed) × ((is_cancelled ≡ true) ⊎ (slots ≡ 0))
Takes is_cancelled n slots (panic s) = Unit

-- A slot is taken exactly when there is one.
try_take-slots :
    (b : BudgetTracker)
    → ((try_take b).1 ≡ true → (try_take b).0.remaining + 1 ≡ b.remaining)
      × ((try_take b).1 ≡ false → b.remaining ≡ 0)
unfolding try_take
try_take-slots b = ((λ h. ground arith), λ h. ground arith)

Turn-cases :
    (u : Turn)
    → ((s : Run) × (u ≡ next s))
      ⊎ (((r : StopReason) × (s : Run) × (u ≡ stop r s)) ⊎ ((s : Run) × (u ≡ panic s)))
Turn-cases (next s) = inl (s, refl)
Turn-cases (stop r s) = inr (inl (r, s, refl))
Turn-cases (panic s) = inr (inr (s, refl))

module _ (crates : Crates) (to_lowercase : Text → Text) (parse_url : Text → Option (Text × Text))
    (engine : RegexEngine) (scan : Text → Scan) where
  module _ (c : Bool) (n slots retry_limit : ℕ) where
    recorded-Takes :
        (t : SecurityTest) (request : HttpRequest) (response : Response) (s : Run)
        (evidence : Option Evidence) (cookies : Option (Option Text))
        → s.requests_sent + s.skipped ≡ n + 1
        → slots ≤ s.budget.remaining + 1
        → Takes c n slots (
            recorded crates to_lowercase parse_url engine scan t request response s evidence
              cookies)
    unfolding recorded add_finding Takes
    recorded-Takes t request response s (some evidence) (some cookies) h k = (h, k)
    recorded-Takes t request response s none (some cookies) h k = tt
    recorded-Takes t request response s (some evidence) none h k = tt
    recorded-Takes t request response s none none h k = tt

    send-Takes :
        (taken : Bool) (budget : BudgetTracker) (t : SecurityTest) (a : Answers)
        (request : HttpRequest) (s : Run)
        → s.requests_sent + s.skipped ≡ n
        → (taken ≡ true → slots ≤ budget.remaining + 1)
        → (taken ≡ false → slots ≡ 0)
        → Takes c n slots
            (send crates to_lowercase parse_url engine scan retry_limit taken budget t a request s)
    unfolding send record_response Takes
    send-Takes true budget t a request s h k l =
        recorded-Takes t request (response_of (Scanner.execute a.client retry_limit).0) _ _ _
          (omega (arith, h)) (k refl)
    send-Takes false budget t a request s h k l = (
      if-intro (λ r. r ≢ completed) (time_exceeded a.now s.budget) duration_exceeded
          budget_exhausted (λ e f. cc f) (λ e f. cc f),
      inr (l refl),
    )

    attempt-Takes :
        (t : SecurityTest) (a : Answers) (request : HttpRequest) (s : Run)
        → s.requests_sent + s.skipped ≡ n
        → slots ≡ s.budget.remaining
        → Takes c n slots
            (attempt crates to_lowercase parse_url engine scan retry_limit t a request s)
    unfolding attempt
    attempt-Takes t a request s h k =
        send-Takes (try_take s.budget).1 (try_take s.budget).0 t a request s h
          (λ e. ground (arith, try_take-slots s.budget))
          (λ e. ground (arith, try_take-slots s.budget))

    skip-Takes :
        (t : SecurityTest) (evidence : Evidence) (s : Run)
        → s.requests_sent + s.skipped ≡ n
        → slots ≡ s.budget.remaining
        → Takes c n slots (next (skip crates to_lowercase parse_url engine scan t evidence s))
    unfolding skip Takes
    skip-Takes t evidence s h k = (omega (arith, h), omega (arith, k))

    confirm-Takes :
        (approved : Bool) (t : SecurityTest) (a : Answers) (request : HttpRequest) (s : Run)
        → s.requests_sent + s.skipped ≡ n
        → slots ≡ s.budget.remaining
        → Takes c n slots
            (confirm crates to_lowercase parse_url engine scan retry_limit approved t a request s)
    unfolding confirm
    confirm-Takes true t a request s h k = attempt-Takes t a request s h k
    confirm-Takes false t a request s h k = skip-Takes t not_approved s h k

    gate-Takes :
        (asked : Bool) (t : SecurityTest) (a : Answers) (request : HttpRequest) (s : Run)
        → s.requests_sent + s.skipped ≡ n
        → slots ≡ s.budget.remaining
        → Takes c n slots
            (gate crates to_lowercase parse_url engine scan retry_limit asked t a request s)
    unfolding gate ask
    gate-Takes true t a request s h k = confirm-Takes (approves a.reply) t a request _ h k
    gate-Takes false t a request s h k = attempt-Takes t a request s h k

    guarded-Takes :
        (scoped asked : Bool) (t : SecurityTest) (a : Answers) (request : HttpRequest) (s : Run)
        → s.requests_sent + s.skipped ≡ n
        → slots ≡ s.budget.remaining
        → Takes c n slots (
            guarded crates to_lowercase parse_url engine scan retry_limit scoped asked t a request
              s)
    unfolding guarded
    guarded-Takes true asked t a request s h k = gate-Takes asked t a request s h k
    guarded-Takes false asked t a request s h k = skip-Takes t out_of_scope s h k

  module _ (ex : SecurityExecutor crates to_lowercase parse_url engine scan) (base_url : Text) where
    prepared-Takes :
        (c : Bool) (n slots : ℕ) (t : SecurityTest) (a : Answers) (o : Option HttpRequest) (s : Run)
        → s.requests_sent + s.skipped ≡ n
        → slots ≡ s.budget.remaining
        → Takes c n slots (prepared crates to_lowercase parse_url engine scan ex t a o s)
    unfolding prepared Takes
    prepared-Takes c n slots t a none s h k = tt
    prepared-Takes c n slots t a (some r) s h k =
        guarded-Takes c n slots ex.config.retry_limit _ _ t a _ s h k

    turn-Takes :
        (t : SecurityTest) (a : Answers) (s : Run)
        → Takes a.is_cancelled
            (s.requests_sent + s.skipped)
            s.budget.remaining
            (turn crates to_lowercase parse_url engine scan ex base_url t a s)
    unfolding turn Takes
    turn-Takes t a s =
        if-intro (Takes a.is_cancelled (s.requests_sent + s.skipped) s.budget.remaining)
          a.is_cancelled _ _ (λ e. ((λ f. cc f), inl e))
          (λ e. prepared-Takes _ _ _ t a _ s refl refl)

    -- A run that is completed has sent or skipped all its tests.
    abbrev Covers : ℕ → Outcome → Type 0
    Covers n (stopped reason s) = (reason ≢ completed) ⊎ (s.requests_sent + s.skipped ≡ n)
    Covers n (panicked s) = Unit

    -- A run that is not cancelled ends completed, when the budget has a slot for each test.
    abbrev Completes : Outcome → Type 0
    Completes (stopped reason s) = reason ≡ completed
    Completes (panicked s) = Unit

    whole :
        (n : ℕ) (o : Outcome)
        → Completes o
        → Covers n o
        → ((s : Run) × (o ≡ panicked s))
          ⊎ ((s : Run) × (o ≡ stopped completed s) × (s.requests_sent + s.skipped ≡ n))
    whole n (panicked s) c d = inl (s, refl)
    whole n (stopped reason s) c (inl other) = absurd (other c)
    whole n (stopped reason s) c (inr count) = inr (s, rw c, count)

    run_from-Covers :
        (tests : List (SecurityTest × Answers)) (s : Run)
        → Covers
            (s.requests_sent + s.skipped + length tests)
            (run_from crates to_lowercase parse_url engine scan ex base_url tests s)
    unfolding run_from Takes
    run_from-Covers [] s = inr (omega arith)
    run_from-Covers ((t, a) ∷ rest) s =
        let u = turn crates to_lowercase parse_url engine scan ex base_url t a s in
        let taken = turn-Takes t a s in
        elim (Turn-cases u) [
          | inl (s', e) ↦
              let count =
                (subst (Takes a.is_cancelled (s.requests_sent + s.skipped) s.budget.remaining) e
                  taken).0 in
              let total : s.requests_sent + s.skipped + suc (length rest)
                  ≡ s'.requests_sent + s'.skipped + length rest =
                omega (arith, count) in
              rw (e, run_from, total) (run_from-Covers rest s')
          | inr (inl (r, s', e)) ↦
              let why =
                subst (Takes a.is_cancelled (s.requests_sent + s.skipped) s.budget.remaining) e
                  taken in
              rw (e, run_from) (inl why.0)
          | inr (inr (s', e)) ↦ rw (e, run_from) tt
        ]

    run_from-Completes :
        (tests : List (SecurityTest × Answers)) (s : Run)
        → All (λ x. x.1.is_cancelled ≡ false) tests
        → length tests ≤ s.budget.remaining
        → Completes (run_from crates to_lowercase parse_url engine scan ex base_url tests s)
    unfolding run_from Takes
    run_from-Completes [] s going room = refl
    run_from-Completes ((t, a) ∷ rest) s going room =
        let u = turn crates to_lowercase parse_url engine scan ex base_url t a s in
        let taken = turn-Takes t a s in
        elim (Turn-cases u) [
          | inl (s', e) ↦
              let slots =
                (subst (Takes a.is_cancelled (s.requests_sent + s.skipped) s.budget.remaining) e
                  taken).1 in
              rw (e, run_from) (run_from-Completes rest s' going.1 (omega (arith, slots, room)))
          | inr (inl (r, s', e)) ↦
              let why =
                (subst (Takes a.is_cancelled (s.requests_sent + s.skipped) s.budget.remaining) e
                  taken).1 in
              absurd (elim why [
                | inl c ↦ cc (c, going.0)
                | inr none_left ↦ omega (arith, none_left, room)
              ])
          | inr (inr (s', e)) ↦ rw (e, run_from) tt
        ]

    -- A run that is not cancelled and has a slot for each test goes through all of them, whatever the
    -- clock says, unless it panics: each test is sent or skipped.
    pub execute-completes :
        (tests : List (SecurityTest × Answers))
        → All (λ x. x.1.is_cancelled ≡ false) tests
        → length tests ≤ ex.budget.remaining
        → ((s : Run) × (execute crates to_lowercase parse_url engine scan ex base_url tests
              ≡ panicked s))
          ⊎ ((s : Run) × (execute crates to_lowercase parse_url engine scan ex base_url tests
                ≡ stopped completed s)
              × (s.requests_sent + s.skipped ≡ length tests))
    unfolding execute start_run
    execute-completes tests going room =
        let first = start_run crates to_lowercase parse_url engine scan ex in
        whole (length tests) _ (run_from-Completes tests first going room)
          (rw (zero-add (length tests)) at (run_from-Covers tests first))
