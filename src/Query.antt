-- ===== src/Query.antt =====
-- crates/query/src: conditions over flows, and the text form of a query.
pub mod Condition
pub mod Field
pub mod Parser
mod Tests
