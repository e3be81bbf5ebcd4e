-- ===== src/Scanner/Budget.antt =====
-- crates/scanner/src/budget.rs: the requests left. `try_take` is a compare-and-exchange loop; a turn
-- loads the counter and exchanges it if no other task has changed it since. The clock is an argument:
-- `now` and the deadline are instants.
use aiautotest.Common.{
  ℕ, zero, suc, ◌+◌, ◌-◌, ◌≡◌, ◌≢◌, Bool, true, false, ◌||◌, Option, none, some, arith, min, ◌==◌,
  leb, if◌then◌else◌,
}

pub record BudgetTracker : Type 0 where
  pub remaining : ℕ
  pub deadline : Option ℕ

unfoldable pub new : (request_budget : ℕ) → (duration_budget : Option ℕ) → (now : ℕ) → BudgetTracker
new request_budget duration_budget now = record {
  remaining = request_budget;
  deadline = elim duration_budget [ none ↦ none | some d ↦ some (now + d) ];
}

-- One turn against the value that other tasks have left by the time of the exchange: `none` tries
-- again. The new counter, and the answer.
unfoldable pub take_turn : (current actual : ℕ) → ℕ × Option Bool
take_turn current actual =
    if current == 0
    then (actual, some false)
    else (if actual == current then (current - 1, some true) else (actual, none))

-- The call as one step, when it is not disturbed.
unfoldable pub try_take : BudgetTracker → BudgetTracker × Bool
try_take b =
    if b.remaining == 0 then (b, false) else (record b { remaining = b.remaining - 1 }, true)

unfoldable pub requests_exhausted : BudgetTracker → Bool
requests_exhausted b = b.remaining == 0

unfoldable pub time_exceeded : ℕ → BudgetTracker → Bool
time_exceeded now b = elim b.deadline [ none ↦ false | some deadline ↦ leb deadline now ]

unfoldable pub exhausted : ℕ → BudgetTracker → Bool
unfolding requests_exhausted time_exceeded
exhausted now b = requests_exhausted b || time_exceeded now b

-- A turn that answers agrees with the undisturbed call on the counter that it found, and a turn that
-- does not answer leaves the counter alone: so the loop takes one slot or none.
pub take_turn-try_take :
    (current actual : ℕ) (b : BudgetTracker)
    → b.remaining ≡ actual
    → ((take_turn current actual).1 ≡ some true
        → ((try_take b).1 ≡ true) × ((try_take b).0.remaining ≡ (take_turn current actual).0))
      × (((take_turn current actual).1 ≢ some true) → (take_turn current actual).0 ≡ actual)
unfolding take_turn try_take
take_turn-try_take current actual b h = ((λ e. (ground arith, ground arith)), λ e. ground arith)

-- How many of `n` calls in a row succeed.
pub successes : ℕ → BudgetTracker → ℕ
successes zero b = 0
successes (suc n) b =
    let (b', taken) = try_take b in let rest = successes n b' in if taken then suc rest else rest

-- Of any number of calls exactly as many succeed as the budget has slots, or all of them.
pub successes-min : (n : ℕ) (b : BudgetTracker) → successes n b ≡ min n b.remaining
unfolding successes try_take
successes-min zero b = omega arith
successes-min (suc n) b =
    ground (arith, successes-min n b, successes-min n (record b { remaining = b.remaining - 1 }))
