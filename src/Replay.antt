-- ===== src/Replay.antt =====
-- Parallel replay of captured transactions, internal/cdc/replay_plan.go.
pub mod UnionFind
pub mod Hash
pub mod Relations
pub mod Claim
pub mod Lanes
pub mod Keys
pub mod Plan
mod Tests
