-- ===== src/Scanner/Scheduler.antt =====
-- crates/scanner/src/scheduler.rs, `worker_loop`: the tasks of one scan share a cursor, the budget, the
-- deduplication set, a counter of requests, the findings and the reason to stop. A worker moves by
-- atomic turns: a turn ends before the next access to the shared state. Cancellation, the clock, the
-- rate limiter's waits and the answers of the target are the environment's: each turn of a schedule
-- says which worker moves, whether the token is cancelled, the time, and the finding that the
-- verifier would make of an answer. `executed` logs the requests handed to the executor.
pub mod Budget
pub mod Stop
use aiautotest.Common.{
  ℕ, zero, suc, ◌+◌, ◌%◌, ◌^◌, Bool, true, false, Option, none, some, List, [], ◌∷◌, ◌++◌, Text,
  get_elem?, length, if◌then◌else◌, ◌≡◌,
}
use aiautotest.Domain.Scope.{RegexEngine, ScopeFilter, should_capture}
use aiautotest.Scanner.Request.{HttpRequest, host_path}
use aiautotest.Scanner.Budget.{BudgetTracker, try_take, time_exceeded}
use aiautotest.Scanner.Dedup.{RequestDedup, first_seen}

pub data StopReason : Type 0 where
  completed cancelled budget_exhausted duration_exceeded scope_violation : StopReason

pub record Shared (F : Type 0) : Type 0 where
  pub cursor : ℕ
  pub budget : BudgetTracker
  pub dedup : RequestDedup
  pub requests_sent : ℕ
  pub findings : List F
  pub stop : StopReason
  pub executed : List HttpRequest

pub data Worker : Type 0 where
  -- At the head of the loop, and after the test for cancellation.
  start fetching : Worker
  -- With a request in hand: before the budget, before deduplication, before it is counted, before it
  -- is executed, and while its answer is awaited.
  checked taken admitted counted awaiting : HttpRequest → Worker
  finished : Worker

pub record Turn (F : Type 0) : Type 0 where
  pub worker : ℕ
  pub is_cancelled : Bool
  pub now : ℕ
  pub finding : Option F

abbrev pub State : Type 0 → Type 0
State F = List Worker × Shared F

-- Only the first reason is kept.
stop_with : StopReason → StopReason → StopReason
stop_with completed reason = reason
stop_with old reason = old

module _ {F : Type 0} where
  unfoldable pub set_stop : StopReason → Shared F → Shared F
  unfolding stop_with
  set_stop reason s = record s { stop = stop_with s.stop reason }

  unfoldable pub push_finding : Option F → Shared F → Shared F
  push_finding none s = s
  push_finding (some finding) s = record s { findings = s.findings ++ finding ∷ [] }

-- What a scan is given: the planned requests in order, the scope, and the two foreign functions.
pub record Scan : Type 1 where
  pub engine : RegexEngine
  pub filter : ScopeFilter engine
  pub parse_url : Text → Option (Text × Text)
  pub md5_hex : Text → Text
  pub mutations : List HttpRequest

-- `guard.check` on the host and the path of a request.
unfoldable pub in_scope : Scan → HttpRequest → Bool
in_scope scan r =
    let (host, path) = host_path scan.parse_url r.url in
    should_capture scan.engine scan.filter host path

module _ {F : Type 0} (scan : Scan) (turn : Turn F) where
  check_cancelled : Shared F → Worker × Shared F
  check_cancelled s =
      if turn.is_cancelled then (finished, set_stop StopReason.cancelled s) else (fetching, s)

  -- `cursor.fetch_add(1)`, and the scope guard, which reads no shared state.
  fetched : Option HttpRequest → Shared F → Worker × Shared F
  fetched none s = (finished, s)
  fetched (some r) s =
      if in_scope scan r then (checked r, s) else (finished, set_stop scope_violation s)

  fetch : Shared F → Worker × Shared F
  unfolding fetched
  fetch s = fetched (get_elem? scan.mutations s.cursor) (record s { cursor = suc s.cursor })

  take : HttpRequest → Shared F → Worker × Shared F
  take r s =
      let (budget, ok) = try_take s.budget in
      if ok then (taken r, record s { budget = budget }) else (
        finished,
        set_stop (if time_exceeded turn.now s.budget then duration_exceeded else budget_exhausted)
            s,
      )

  admit : HttpRequest → Shared F → Worker × Shared F
  admit r s =
      let (dedup, first) = first_seen scan.md5_hex r s.dedup in
      (if first then admitted r else start, record s { dedup = dedup })

  -- One turn of one worker.
  unfoldable pub advance : Worker → Shared F → Worker × Shared F
  unfolding check_cancelled fetch take admit
  advance start s = check_cancelled s
  advance fetching s = fetch s
  advance (checked r) s = take r s
  advance (taken r) s = admit r s
  advance (admitted r) s = (counted r, record s { requests_sent = (s.requests_sent + 1) % 2 ^ 64 })
  advance (counted r) s = (awaiting r, record s { executed = s.executed ++ r ∷ [] })
  advance (awaiting r) s = (start, push_finding turn.finding s)
  advance finished s = (finished, s)

-- The turn of the worker at index `i`; an index that is out of range does nothing.
unfoldable pub advance_at : {F : Type 0} → Scan → Turn F → ℕ → State F → State F
advance_at scan turn i ([], s) = ([], s)
advance_at scan turn zero (w ∷ ws, s) = let (w', s') = advance scan turn w s in (w' ∷ ws, s')
advance_at scan turn (suc i) (w ∷ ws, s) =
    let (ws', s') = advance_at scan turn i (ws, s) in (w ∷ ws', s')

unfoldable pub run : {F : Type 0} → Scan → List (Turn F) → State F → State F
run scan [] state = state
run scan (turn ∷ turns) state = run scan turns (advance_at scan turn turn.worker state)

abbrev pub workers : ℕ → List Worker
workers zero = []
workers (suc n) = start ∷ workers n

-- The state in which `run` of the scheduler spawns its workers.
unfoldable pub init : {F : Type 0} → BudgetTracker → RequestDedup → ℕ → State F
init budget dedup concurrency = (
  workers concurrency,
  record {
    cursor = 0;
    budget = budget;
    dedup = dedup;
    requests_sent = 0;
    findings = [];
    stop = completed;
    executed = [];
  },
)
