-- ===== src/Scanner.antt =====
-- The scanner crate (crates/scanner/src): budgets, deduplication, the scope guard and the workers
-- that send mutated requests.
pub mod Request
pub mod Executor
pub mod Budget
pub mod Dedup
pub mod Scheduler
pub mod Payloads
pub mod Mutation
pub mod Verifier
pub mod Plan
mod Tests
