-- ===== src/Capture.antt =====
-- The capture crate (crates/capture/src): the log ring, the bounded flow buffer between the proxy and
-- the database, and the writer that drains it.
pub mod Ring
pub mod Buffer
pub mod Writer
mod Tests
