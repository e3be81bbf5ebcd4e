-- ===== src/Scanner/Scheduler/Stop.antt =====
-- Why a scan stops: the first reason is kept, and the clock alone is none.
use aiautotest.Common.{
  ℕ, zero, suc, ◌≤◌, ◌≡◌, refl, ◌∙◌, ap, sym, ◌≢◌, inl, inr, true, Option, none, some, List, [],
  ◌∷◌, get_elem?, arith, Bool-cases, map,
}
use aiautotest.Scanner.Request.{HttpRequest}
use aiautotest.Scanner.Budget.{try_take}
use aiautotest.Scanner.Scheduler.{
  StopReason, completed, Shared, Worker, start, fetching, checked, taken, admitted, counted,
  awaiting, finished, Turn, Scan, in_scope, advance, advance_at, run, set_stop, push_finding,
  fetched, check_cancelled, fetch, take, admit, stop_with,
}

stop_with-kept : (old new : StopReason) → old ≢ completed → stop_with old new ≡ old
unfolding stop_with
stop_with-kept completed new h = absurd (h refl)
stop_with-kept _ new h = refl

-- What a turn does to the reason to stop and to the budget.
record Keeps {F : Type 0} (s t : Shared F) : Type 0 where
  stop : s.stop ≢ completed → t.stop ≡ s.stop
  remaining : t.budget.remaining ≤ s.budget.remaining

module _ {F : Type 0} (scan : Scan) (turn : Turn F) where
  Keeps-refl : (s : Shared F) → Keeps s s
  Keeps-refl s = record { stop = λ h. refl; remaining = omega arith }

  set_stop-Keeps : (reason : StopReason) (s : Shared F) → Keeps s (set_stop reason s)
  unfolding set_stop
  set_stop-Keeps reason s = record { stop = stop_with-kept s.stop reason; remaining = omega arith }

  fetched-Keeps : (o : Option HttpRequest) (s : Shared F) → Keeps s (fetched scan turn o s).1
  unfolding fetched
  fetched-Keeps none s = Keeps-refl s
  fetched-Keeps (some r) s = elim (Bool-cases (in_scope scan r)) [
    | inl e ↦ rw (e, fetched) (Keeps-refl s)
    | inr e ↦ rw (e, fetched) (set_stop-Keeps _ s)
  ]

  push_finding-Keeps : (o : Option F) (s : Shared F) → Keeps s (push_finding o s)
  unfolding push_finding
  push_finding-Keeps none s = Keeps-refl s
  push_finding-Keeps (some f) s = record { stop = λ h. refl; remaining = omega arith }

  advance-Keeps : (w : Worker) (s : Shared F) → Keeps s (advance scan turn w s).1
  unfolding advance
  advance-Keeps start s = elim (Bool-cases turn.is_cancelled) [
    | inl e ↦ rw (e, check_cancelled) (set_stop-Keeps _ s)
    | inr e ↦ rw (e, check_cancelled) (Keeps-refl s)
  ]
  advance-Keeps fetching s =
      let h =
        fetched-Keeps (get_elem? scan.mutations s.cursor) (record s { cursor = suc s.cursor }) in
      unfold fetch in record { stop = h.stop; remaining = h.remaining }
  advance-Keeps (checked r) s = elim (Bool-cases (try_take s.budget).1) [
    | inl e ↦
        rw (e, take) (record { stop = λ h. refl; remaining = unfold try_take in ground arith })
    | inr e ↦ rw (e, take) (set_stop-Keeps _ s)
  ]
  advance-Keeps (taken r) s = unfold admit in record { stop = λ h. refl; remaining = omega arith }
  advance-Keeps (admitted r) s = record { stop = λ h. refl; remaining = omega arith }
  advance-Keeps (counted r) s = record { stop = λ h. refl; remaining = omega arith }
  advance-Keeps (awaiting r) s = push_finding-Keeps turn.finding s
  advance-Keeps finished s = Keeps-refl s

  advance_at-Keeps :
      (i : ℕ) (ws : List Worker) (s : Shared F) → Keeps s (advance_at scan turn i (ws, s)).1
  unfolding advance_at
  advance_at-Keeps i [] s = Keeps-refl s
  advance_at-Keeps zero (w ∷ ws) s = advance-Keeps w s
  advance_at-Keeps (suc i) (w ∷ ws) s = advance_at-Keeps i ws s

-- The first reason to stop is final: no later turn of any worker replaces it.
pub run-stop :
    {F : Type 0} (scan : Scan) (turns : List (Turn F)) (ws : List Worker) (s : Shared F)
    → s.stop ≢ completed
    → (run scan turns (ws, s)).1.stop ≡ s.stop
unfolding run
run-stop scan [] ws s h = refl
run-stop scan (turn ∷ turns) ws s h =
    let t = advance_at scan turn turn.worker (ws, s) in
    let same = (advance_at-Keeps scan turn turn.worker ws s).stop h in
    run-stop scan turns t.0 t.1 (λ e. h (sym same ∙ e)) ∙ same

run-remaining :
    {F : Type 0} (scan : Scan) (turns : List (Turn F)) (ws : List Worker) (s : Shared F)
    → (run scan turns (ws, s)).1.budget.remaining ≤ s.budget.remaining
unfolding run
run-remaining scan [] ws s = omega arith
run-remaining scan (turn ∷ turns) ws s =
    let t = advance_at scan turn turn.worker (ws, s) in
    omega (
      arith,
      run-remaining scan turns t.0 t.1,
      (advance_at-Keeps scan turn turn.worker ws s).remaining,
    )

-- The same turn at another time.
abbrev pub retime : {F : Type 0} → (ℕ → ℕ) → Turn F → Turn F
retime clock turn = record turn { now = clock turn.now }

module _ {F : Type 0} (scan : Scan) (clock : ℕ → ℕ) (turn : Turn F) where
  fetched-retime :
      (o : Option HttpRequest) (s : Shared F)
      → fetched scan (retime clock turn) o s ≡ fetched scan turn o s
  unfolding fetched
  fetched-retime none s = refl
  fetched-retime (some r) s = refl

  advance-retime :
      (w : Worker) (s : Shared F)
      → s.budget.remaining ≢ 0
      → advance scan (retime clock turn) w s ≡ advance scan turn w s
  unfolding advance
  advance-retime start s h = unfold check_cancelled in refl
  advance-retime fetching s h = unfold fetch in fetched-retime _ _
  advance-retime (checked r) s h =
      let e : (try_take s.budget).1 ≡ true = unfold try_take in ground arith in rw (e, take)
  advance-retime (taken r) s h = unfold admit in refl
  advance-retime (admitted r) s h = refl
  advance-retime (counted r) s h = refl
  advance-retime (awaiting r) s h = refl
  advance-retime finished s h = refl

  advance_at-retime :
      (i : ℕ) (ws : List Worker) (s : Shared F)
      → s.budget.remaining ≢ 0
      → advance_at scan (retime clock turn) i (ws, s) ≡ advance_at scan turn i (ws, s)
  unfolding advance_at
  advance_at-retime i [] s h = refl
  advance_at-retime zero (w ∷ ws) s h =
      ap (λ (r : Worker × Shared F). (r.0 ∷ ws, r.1)) (advance-retime w s h)
  advance_at-retime (suc i) (w ∷ ws) s h =
      ap (λ (r : List Worker × Shared F). (w ∷ r.0, r.1)) (advance_at-retime i ws s h)

-- The duration budget stops nothing by itself: as long as the request budget is not used up, a scan
-- runs in the same way whatever the clock shows, and so also when its deadline has passed.
pub run-retime :
    {F : Type 0} (scan : Scan) (clock : ℕ → ℕ) (turns : List (Turn F)) (ws : List Worker)
    (s : Shared F)
    → (run scan turns (ws, s)).1.budget.remaining ≢ 0
    → run scan (map (retime clock) turns) (ws, s) ≡ run scan turns (ws, s)
unfolding run
run-retime scan clock [] ws s h = refl
run-retime scan clock (turn ∷ turns) ws s h =
    let t = advance_at scan turn turn.worker (ws, s) in
    let after = run-remaining scan turns t.0 t.1 in
    let now = (advance_at-Keeps scan turn turn.worker ws s).remaining in
    ap (run scan (map (retime clock) turns))
      (advance_at-retime scan clock turn turn.worker ws s (λ e. h (omega arith)))
    ∙ run-retime scan clock turns t.0 t.1 h
