-- ===== src/Pipeline.antt =====
-- internal/pipeline: from the seed trades to the verdicts.
mod Tests
pub mod Floor
pub mod Universe
pub mod Assemble
pub mod Workers
pub mod Plan
pub mod Run
pub mod Api
