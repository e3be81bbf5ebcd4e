-- ===== src/Workflow.antt =====
-- The workflow crate (crates/workflow/src): the contract of a workflow, its JSON values and paths,
-- the graph checks, and the engine that runs it.
pub mod Json
pub mod Jsonpath
pub mod Contract
pub mod Graph
pub mod Degrees
pub mod Order
pub mod Validation
pub mod Exec
mod Tests
