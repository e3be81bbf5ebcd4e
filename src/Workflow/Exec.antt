-- ===== src/Workflow/Exec.antt =====
-- crates/workflow/src/exec.rs: the engine. It runs in a monad of errors over the run state: an error
-- keeps what was recorded before it.
pub mod State
pub mod Values
pub mod Nodes
pub mod Engine
pub mod Queue
pub mod Fuel
pub mod Retries
pub mod Recording
pub mod Slice
pub mod References
