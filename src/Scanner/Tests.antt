-- ===== src/Scanner/Tests.antt =====
-- Runs of the scanner crate's code, and its theorems at concrete inputs.
use aiautotest.Common.{
  ℕ, zero, suc, ◌+◌, ◌%◌, ◌^◌, ◌≤◌, ◌≡◌, refl, ◌≢◌, true, false, none, some, List, [], ◌∷◌, Text,
  text, arith, All, map, length, contains, text_eq, sym, starts_with,
}
use aiautotest.Domain.Scope.{RegexEngine, should_capture, host_matches, path_matches, strip_query}
use aiautotest.Scanner.Request.{HttpRequest, fingerprint, host_path, split_once}
use aiautotest.Scanner.Budget.{
  BudgetTracker, try_take, time_exceeded, take_turn, take_turn-try_take,
}
use aiautotest.Scanner.Dedup.{RequestDedup, first_seen, first_seen_twice}
use aiautotest.Scanner.Scheduler.{
  StopReason, Shared, Worker, Turn, Scan, run, init, in_scope, advance_at, advance, set_stop,
  push_finding,
}
use aiautotest.Scanner.Scheduler.Budget.{run-init-IsSafe, pending}
use aiautotest.Scanner.Scheduler.Stop.{run-retime, retime}

abbrev md5_hex : Text → Text
md5_hex t = t

abbrev get : Text → HttpRequest
get url = record { method = text "GET"; url = url; headers = []; body = none }

abbrev two_slots : BudgetTracker
two_slots = record { remaining = 2; deadline = some 10 }

host_path_tests :
    (host_path (λ u. none) (text "a/b/c") ≡ (text "a", text "/b/c"))
    × (host_path (λ u. none) (text "a") ≡ (text "a", text "/"))
unfolding host_path split_once
host_path_tests = (refl, refl)

taken_turn :
    ((take_turn 2 2).1 ≡ some true
      → ((try_take two_slots).1 ≡ true) × ((try_take two_slots).0.remaining ≡ (take_turn 2 2).0))
    × ((take_turn 2 2).1 ≢ some true → (take_turn 2 2).0 ≡ 2)
taken_turn = take_turn-try_take 2 2 two_slots refl

abbrev seen_one : RequestDedup
seen_one = record { seen = text "x" ∷ []; enabled = true; limit = 1 }

first_seen_again :
    (first_seen md5_hex (get (text "a")) (first_seen md5_hex (get (text "a")) seen_one).0).1 ≡ false
first_seen_again = first_seen_twice md5_hex (get (text "a")) seen_one refl

abbrev prefixes : RegexEngine
prefixes = record { Regex = Text; new_regex = λ p. some p; is_match = starts_with }

-- Two requests to the allowed host and one to another.
abbrev scan : Scan
scan = record {
  engine = prefixes;
  filter = record {
    include_hosts = text "api" ∷ [];
    exclude_hosts = [];
    include_paths = [];
    exclude_paths = [];
  };
  parse_url = λ u. none;
  md5_hex = md5_hex;
  mutations = get (text "api/1") ∷ get (text "api/2") ∷ get (text "other/3") ∷ [];
}

abbrev turn : ℕ → Turn ℕ
turn i = record { worker = i; is_cancelled = false; now = 50; finding = some 7 }

abbrev rounds : ℕ → List (Turn ℕ)
rounds zero = []
rounds (suc n) = turn 0 ∷ turn 1 ∷ rounds n

abbrev fresh : RequestDedup
fresh = record { seen = []; enabled = true; limit = 5 }

scan_test :
    let t =
      run {F = ℕ} scan (rounds 12) (init (record { remaining = 5; deadline = some 10 }) fresh 2) in
    (t.1.executed ≡ get (text "api/1") ∷ get (text "api/2") ∷ [])
    × (t.1.stop ≡ StopReason.scope_violation)
    × (t.1.findings ≡ 7 ∷ 7 ∷ [])
unfolding run init advance_at advance in_scope set_stop push_finding host_path split_once
    should_capture host_matches path_matches try_take first_seen fingerprint time_exceeded contains
    text_eq strip_query
scan_test = (refl, refl, refl)

run-init-IsSafe_example :
    let t =
      run {F = ℕ} scan (rounds 12) (init (record { remaining = 1; deadline = some 10 }) fresh 2) in
    (length t.1.executed ≤ 1)
    × (All (λ r. in_scope scan r ≡ true) t.1.executed
        × (t.1.requests_sent ≡ (length t.1.executed + pending t.0) % 2 ^ 64))
run-init-IsSafe_example = run-init-IsSafe scan 1 (some 10) fresh 2 (rounds 12)

abbrev stopped : Shared ℕ
stopped = record {
  cursor = 0;
  budget = two_slots;
  dedup = fresh;
  requests_sent = 0;
  findings = [];
  stop = StopReason.cancelled;
  executed = [];
}

slots_left : 0 ≢ (run scan (rounds 3) (Worker.start ∷ [], stopped)).1.budget.remaining
unfolding run advance_at advance in_scope set_stop push_finding host_path split_once should_capture
    host_matches path_matches try_take first_seen fingerprint time_exceeded contains text_eq
    strip_query
slots_left e = omega arith

-- The deadline is 10; the turns are at time 50, then at time 0.
run-retime_example :
    run scan (map (retime (λ n. 0)) (rounds 3)) (Worker.start ∷ [], stopped)
    ≡ run scan (rounds 3) (Worker.start ∷ [], stopped)
run-retime_example =
    run-retime scan (λ n. 0) (rounds 3) (Worker.start ∷ []) stopped (λ e. slots_left (sym e))
