-- ===== src/Analysis.antt =====
-- crates/analysis/src: the chunks of React pages, and what captured flows are kept for analysis.
pub mod Chunks
pub mod Noise
mod Tests
