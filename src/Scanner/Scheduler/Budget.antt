-- ===== src/Scanner/Scheduler/Budget.antt =====
-- The safety of a scan, over every schedule of any number of workers: the request budget, the scope,
-- and what the duration budget has to do with it.
use aiautotest.Common.{
  ℕ, zero, suc, ◌+◌, ◌%◌, ◌^◌, ◌≤◌, ◌≡◌, refl, ◌∙◌, ap, inl, inr, true, Option, none, some, List,
  [], ◌∷◌, length, length-append, arith, All, All-append, Bool-cases,
}
use aiautotest.Scanner.Request.{HttpRequest}
use aiautotest.Scanner.Budget.{BudgetTracker, try_take}
use aiautotest.Scanner.Dedup.{RequestDedup, first_seen}
use aiautotest.Scanner.Scheduler.{
  Shared, Worker, start, fetching, checked, taken, admitted, counted, awaiting, finished, Turn,
  Scan, in_scope, advance, advance_at, run, workers, init, set_stop, push_finding, fetched,
  check_cancelled, fetch, take, admit,
}

-- A budget slot that a worker has taken and not yet spent on a request.
abbrev pub holds : Worker → ℕ
holds (taken r) = 1
holds (admitted r) = 1
holds (counted r) = 1
holds _ = 0

abbrev pub held : List Worker → ℕ
held [] = 0
held (w ∷ ws) = holds w + held ws

-- A request that has been counted and not yet executed.
abbrev pub pends : Worker → ℕ
pends (counted r) = 1
pends _ = 0

abbrev pub pending : List Worker → ℕ
pending [] = 0
pending (w ∷ ws) = pends w + pending ws

module _ (scan : Scan) where
  abbrev pub WorkerInScope : Worker → Type 0
  WorkerInScope (checked r) = in_scope scan r ≡ true
  WorkerInScope (taken r) = in_scope scan r ≡ true
  WorkerInScope (admitted r) = in_scope scan r ≡ true
  WorkerInScope (counted r) = in_scope scan r ≡ true
  WorkerInScope _ = Unit

  -- `budget` is what the job allows.
  pub record IsSafe {F : Type 0} (budget : ℕ) (ws : List Worker) (s : Shared F) : Type 0 where
    pub spent : length s.executed + held ws + s.budget.remaining ≤ budget
    pub number : s.requests_sent ≡ (length s.executed + pending ws) % 2 ^ 64
    pub working : All WorkerInScope ws
    pub scoped : All (λ r. in_scope scan r ≡ true) s.executed

module _ {F : Type 0} (scan : Scan) where
  -- One turn of one worker, in terms of what it adds to the totals of the others.
  pub record Advanced (w : Worker) (s : Shared F) (r : Worker × Shared F) : Type 0 where
    pub spent :
        length r.1.executed + holds r.0 + r.1.budget.remaining
        ≤ length s.executed + holds w + s.budget.remaining
    pub number :
        (x : ℕ)
        → s.requests_sent ≡ (length s.executed + (pends w + x)) % 2 ^ 64
        → r.1.requests_sent ≡ (length r.1.executed + (pends r.0 + x)) % 2 ^ 64
    pub working : WorkerInScope scan r.0
    pub scoped : All (λ q. in_scope scan q ≡ true) r.1.executed

  -- A turn that neither counts nor executes a request.
  quiet :
      (w w' : Worker) (s s' : Shared F)
      → s'.executed ≡ s.executed
      → s'.requests_sent ≡ s.requests_sent
      → holds w' + s'.budget.remaining ≤ holds w + s.budget.remaining
      → pends w' ≡ pends w
      → WorkerInScope scan w'
      → All (λ q. in_scope scan q ≡ true) s.executed
      → Advanced w s (w', s')
  quiet w w' s s' e n h p k sc =
      let l = ap length e in
      record { spent = omega arith; number = λ x q. omega arith; working = k; scoped = rw e sc }

module _ {F : Type 0} (scan : Scan) (turn : Turn F) where
  start-Advanced :
      (s : Shared F)
      → All (λ q. in_scope scan q ≡ true) s.executed
      → Advanced scan start s (check_cancelled scan turn s)
  unfolding check_cancelled set_stop
  start-Advanced s k = elim (Bool-cases turn.is_cancelled) [
    | inl e ↦
        rw (e, check_cancelled) (quiet scan start finished s _ refl refl (omega arith) refl tt k)
    | inr e ↦
        rw (e, check_cancelled) (quiet scan start fetching s s refl refl (omega arith) refl tt k)
  ]

  fetched-Advanced :
      (o : Option HttpRequest) (s t : Shared F)
      → t.executed ≡ s.executed
      → t.requests_sent ≡ s.requests_sent
      → t.budget.remaining ≡ s.budget.remaining
      → All (λ q. in_scope scan q ≡ true) s.executed
      → Advanced scan fetching s (fetched scan turn o t)
  unfolding fetched set_stop
  fetched-Advanced none s t e n b k = quiet scan fetching finished s t e n (omega arith) refl tt k
  fetched-Advanced (some r) s t e n b k = elim (Bool-cases (in_scope scan r)) [
    | inl i ↦ rw (i, fetched) (quiet scan fetching (checked r) s t e n (omega arith) refl i k)
    | inr i ↦ rw (i, fetched) (quiet scan fetching finished s _ e n (omega arith) refl tt k)
  ]

  take-Advanced :
      (r : HttpRequest) (s : Shared F)
      → in_scope scan r ≡ true
      → All (λ q. in_scope scan q ≡ true) s.executed
      → Advanced scan (checked r) s (take scan turn r s)
  unfolding take set_stop
  take-Advanced r s i k = elim (Bool-cases (try_take s.budget).1) [
    | inl e ↦
        rw (e, take)
          (quiet scan (checked r) (taken r) s _ refl refl (unfold try_take in ground arith) refl i
            k)
    | inr e ↦ rw (e, take) (quiet scan (checked r) finished s _ refl refl (omega arith) refl tt k)
  ]

  admit-Advanced :
      (r : HttpRequest) (s : Shared F)
      → in_scope scan r ≡ true
      → All (λ q. in_scope scan q ≡ true) s.executed
      → Advanced scan (taken r) s (admit scan turn r s)
  unfolding admit
  admit-Advanced r s i k = elim (Bool-cases (first_seen scan.md5_hex r s.dedup).1) [
    | inl e ↦ rw (e, admit) (quiet scan (taken r) (admitted r) s _ refl refl (omega arith) refl i k)
    | inr e ↦ rw (e, admit) (quiet scan (taken r) start s _ refl refl (omega arith) refl tt k)
  ]

  push_finding-keeps :
      (o : Option F) (s : Shared F)
      → ((push_finding o s).executed ≡ s.executed)
        × ((push_finding o s).requests_sent ≡ s.requests_sent)
        × ((push_finding o s).budget ≡ s.budget)
  unfolding push_finding
  push_finding-keeps none s = (refl, refl, refl)
  push_finding-keeps (some finding) s = (refl, refl, refl)

  advance-Advanced :
      (w : Worker) (s : Shared F)
      → WorkerInScope scan w
      → All (λ q. in_scope scan q ≡ true) s.executed
      → Advanced scan w s (advance scan turn w s)
  unfolding advance
  advance-Advanced start s h k = start-Advanced s k
  advance-Advanced fetching s h k = unfold fetch in fetched-Advanced _ s _ refl refl refl k
  advance-Advanced (checked r) s h k = take-Advanced r s h k
  advance-Advanced (taken r) s h k = admit-Advanced r s h k
  advance-Advanced (admitted r) s h k = record {
    spent = omega arith;
    number = λ x q. omega arith;
    working = h;
    scoped = k;
  }
  advance-Advanced (counted r) s h k =
      let l = length-append s.executed (r ∷ []) in
      record {
        spent = omega arith;
        number = λ x q. omega arith;
        working = tt;
        scoped = All-append _ s.executed (r ∷ []) k (h, tt);
      }
  advance-Advanced (awaiting r) s h k =
      let (e, n, b) = push_finding-keeps turn.finding s in
      let same = ap (λ (t : BudgetTracker). t.remaining) b in
      quiet scan (awaiting r) start s (push_finding turn.finding s) e n (omega arith) refl tt k
  advance-Advanced finished s h k =
      quiet scan finished finished s s refl refl (omega arith) refl tt k

-- The turn of one worker among the others.
module _ {F : Type 0} (scan : Scan) (turn : Turn F) where
  advance_at-IsSafe :
      (i budget before waiting : ℕ) (ws : List Worker) (s : Shared F)
      → length s.executed + (before + held ws) + s.budget.remaining ≤ budget
      → s.requests_sent ≡ (length s.executed + (waiting + pending ws)) % 2 ^ 64
      → All (WorkerInScope scan) ws
      → All (λ r. in_scope scan r ≡ true) s.executed
      → let t = advance_at scan turn i (ws, s) in
        (length t.1.executed + (before + held t.0) + t.1.budget.remaining ≤ budget)
        × ((t.1.requests_sent ≡ (length t.1.executed + (waiting + pending t.0)) % 2 ^ 64)
            × (All (WorkerInScope scan) t.0 × All (λ r. in_scope scan r ≡ true) t.1.executed))
  unfolding advance_at
  advance_at-IsSafe i budget before waiting [] s h n w k = (h, (n, (w, k)))
  advance_at-IsSafe zero budget before waiting (w ∷ ws) s h n (p, ps) k =
      let a = advance-Advanced scan turn w s p k in
      let spent = a.spent in
      let number = a.number (waiting + pending ws) (omega arith) in
      (omega arith, (omega arith, ((a.working, ps), a.scoped)))
  advance_at-IsSafe (suc i) budget before waiting (w ∷ ws) s h n (p, ps) k =
      let (a, (b, (c, d))) =
        advance_at-IsSafe i budget (before + holds w) (waiting + pends w) ws s (omega arith)
          (omega arith) ps k in
      (omega arith, (omega arith, ((p, c), d)))

workers-idle :
    (scan : Scan) (n : ℕ)
    → (held (workers n) ≡ 0) × ((pending (workers n) ≡ 0) × All (WorkerInScope scan) (workers n))
workers-idle scan zero = (refl, (refl, tt))
workers-idle scan (suc n) =
    let (h, (p, w)) = workers-idle scan n in (omega arith, (omega arith, (tt, w)))

module _ {F : Type 0} (scan : Scan) (budget : ℕ) where
  run-IsSafe :
      (turns : List (Turn F)) (ws : List Worker) (s : Shared F)
      → IsSafe scan budget ws s
      → IsSafe scan budget (run scan turns (ws, s)).0 (run scan turns (ws, s)).1
  unfolding run
  run-IsSafe [] ws s v = v
  run-IsSafe (turn ∷ turns) ws s v =
      let (h, (n, (w, k))) =
        advance_at-IsSafe scan turn turn.worker budget 0 0 ws s (omega (arith, v.spent))
          (v.number ∙ omega arith) v.working v.scoped in
      let t = advance_at scan turn turn.worker (ws, s) in
      run-IsSafe turns t.0 t.1
        (record { spent = omega arith; number = n ∙ omega arith; working = w; scoped = k })

  -- Whatever the schedule and the number of workers, no more requests reach the executor than the job's
  -- budget allows, every one of them is in scope, and the counter of requests (a 64-bit word) is the
  -- number of requests executed or about to be.
  pub run-init-IsSafe :
      (deadline : Option ℕ) (dedup : RequestDedup) (concurrency : ℕ) (turns : List (Turn F))
      → let t =
          run scan turns
            (init (record { remaining = budget; deadline = deadline }) dedup concurrency) in
        (length t.1.executed ≤ budget)
        × (All (λ r. in_scope scan r ≡ true) t.1.executed
            × (t.1.requests_sent ≡ (length t.1.executed + pending t.0) % 2 ^ 64))
  unfolding init
  run-init-IsSafe deadline dedup concurrency turns =
      let (h, (p, w)) = workers-idle scan concurrency in
      let v =
        run-IsSafe turns (workers concurrency) _
          (record { spent = omega arith; number = omega arith; working = w; scoped = tt }) in
      (omega (arith, v.spent), (v.scoped, v.number))
