-- ===== src/Domain.antt =====
-- The domain crate: the records that the other components exchange (crates/domain/src).
pub mod Flow
pub mod Scope
pub mod Rules
mod Tests
