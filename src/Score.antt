-- ===== src/Score.antt =====
-- internal/score: the pure scoring functions.
pub mod Verdict
mod Tests
pub mod UnionFind
pub mod Cluster
pub mod Move
pub mod Wallets
pub mod Census
