-- ===== src/Scanner/Executor.antt =====
-- crates/scanner/src/request_executor.rs: `RequestExecutor::execute`. What the client does with the n-th
-- try of a request is given; the pauses between two tries change nothing.
use aiautotest.Common.{ℕ, zero, suc, ◌≤◌, ◌⊎◌, inl, inr, arith}
use aiautotest.Scanner.Request.{PortError}

-- One call of `send` under the timeout.
pub data Try (A : Type 0) : Type 0 where
  answered : A → Try A
  failed : PortError → Try A
  elapsed : Try A

-- `ScanError`, as far as a request raises it.
pub data SendError : Type 0 where
  transport : PortError → SendError
  timeout : SendError

-- The end of the last try.
last_try : {A : Type 0} → Try A → A ⊎ SendError
last_try (answered a) = inl a
last_try (failed error) = inr (transport error)
last_try elapsed = inr timeout

-- An answer ends the loop, and whatever error there is leads to the next try. The number is that of the
-- calls of `send`.
or_retry : {A : Type 0} → Try A → (A ⊎ SendError) × ℕ → (A ⊎ SendError) × ℕ
or_retry (answered a) rest = (inl a, 1)
or_retry (failed error) rest = (rest.0, suc rest.1)
or_retry elapsed rest = (rest.0, suc rest.1)

-- The loop, with `left` retries.
unfoldable pub try_from :
    {A : Type 0} → (client : ℕ → Try A) → (attempt left : ℕ) → (A ⊎ SendError) × ℕ
unfolding last_try or_retry
try_from client attempt zero = (last_try (client attempt), 1)
try_from client attempt (suc left) = or_retry (client attempt) (try_from client (suc attempt) left)

unfoldable pub execute :
    {A : Type 0} → (client : ℕ → Try A) → (retry_limit : ℕ) → (A ⊎ SendError) × ℕ
unfolding try_from
execute client retry_limit = try_from client 0 retry_limit

or_retry-bounds :
    {A : Type 0} (u : Try A) (rest : (A ⊎ SendError) × ℕ) (n : ℕ)
    → (1 ≤ rest.1) × (rest.1 ≤ n)
    → (1 ≤ (or_retry u rest).1) × ((or_retry u rest).1 ≤ suc n)
unfolding or_retry
or_retry-bounds (answered a) rest n (low, high) = (omega arith, omega arith)
or_retry-bounds (failed error) rest n (low, high) = (omega arith, omega arith)
or_retry-bounds elapsed rest n (low, high) = (omega arith, omega arith)

try_from-bounds :
    {A : Type 0} (client : ℕ → Try A) (attempt left : ℕ)
    → (1 ≤ (try_from client attempt left).1) × ((try_from client attempt left).1 ≤ suc left)
unfolding try_from
try_from-bounds client attempt zero = (omega arith, omega arith)
try_from-bounds client attempt (suc left) =
    or_retry-bounds (client attempt) (try_from client (suc attempt) left) (suc left)
      (try_from-bounds client (suc attempt) left)

-- A request is sent at least once, and at most once more than there are retries.
pub execute-bounds :
    {A : Type 0} (client : ℕ → Try A) (retry_limit : ℕ)
    → (1 ≤ (execute client retry_limit).1) × ((execute client retry_limit).1 ≤ suc retry_limit)
unfolding execute
execute-bounds client retry_limit = try_from-bounds client 0 retry_limit
