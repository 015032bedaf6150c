-- ===== src/RateLimit.antt =====
-- The in-process quota store of the AI gateway, crates/kong-ai/src/ratelimit.
pub mod Types
pub mod Window
pub mod Bucket
pub mod Settlement
pub mod Sums
pub mod Ledger
pub mod Opened
pub mod Branches
pub mod Admit
pub mod Decision
pub mod Limits
pub mod Settled
pub mod Settle
pub mod Pending
pub mod Replay
pub mod Correction
pub mod Inspect
pub mod Reach
mod Tests
