-- ===== src/RateLimit/Reach.antt =====
-- The buckets that calls of crates/kong-ai/src/ratelimit/memory.rs make from a new one.
use kong_rust.Common.{ℕ, ◌+◌, ◌≤◌, ◌<◌, none, [], string_keyed}
use kong_rust.RateLimit.Types.{
  AdmitCommand, SettleCommand, RateLimitNow, MemoryRateLimitConfig, RateLimitStoreStats,
  BucketState,
}
use kong_rust.RateLimit.Window.{purge_state}
use kong_rust.RateLimit.Bucket.{Fresh, touched, admit_bucket}
use kong_rust.RateLimit.Settlement.{settle_bucket}
use kong_rust.RateLimit.Ledger.{IsLedger, touched-IsLedger, purge_state-IsLedger}
use kong_rust.RateLimit.Decision.{admit_bucket-IsLedger}
use kong_rust.RateLimit.Settle.{settle_bucket-IsLedger}

-- `BucketState::default()`.
abbrev pub new_bucket : BucketState
new_bucket = record { active_window = none; generation = 0; admissions = []; last_touched_mono = 0 }

-- The states that a bucket takes, call after call, while the monotonic clock does not go back.
pub data Reachable (config : MemoryRateLimitConfig) (instance_id : ℕ) : BucketState → Type 0 where
  created : Reachable config instance_id new_bucket
  after_admit :
      {s : BucketState}
      → Reachable config instance_id s
      → (fresh : Fresh) (c : AdmitCommand) (now : RateLimitNow) (stats : RateLimitStoreStats)
      → s.last_touched_mono ≤ now.mono
      → Reachable config instance_id (admit_bucket config instance_id fresh c now s stats).state
  after_settle :
      {s : BucketState}
      → Reachable config instance_id s
      → (c : SettleCommand) (now : RateLimitNow) (stats : RateLimitStoreStats)
      → s.last_touched_mono ≤ now.mono
      → now.mono + config.settlement_retry_grace < 18446744073709551616000000000
      → Reachable config instance_id (settle_bucket config c now s stats).state
  after_inspect :
      {s : BucketState}
      → Reachable config instance_id s
      → (now : ℕ) → s.last_touched_mono ≤ now
      → Reachable config instance_id (touched now s)
  after_cleanup :
      {s : BucketState}
      → Reachable config instance_id s
      → (now : ℕ) → Reachable config instance_id (purge_state now s)

module _ (config : MemoryRateLimitConfig) (instance_id : ℕ) where
  -- Every bucket that is reached from a new one by admissions, settlements, inspections and cleanups
  -- (an inspection only purges and notes the time, a cleanup only purges), while the clock does not
  -- go back and no retry grace overflows, has a right ledger: the counts of its active window are the
  -- sums of what its records charge to that window.
  pub Reachable-IsLedger : {s : BucketState} → Reachable config instance_id s → IsLedger s
  Reachable-IsLedger created = record { kept = tt; aged = tt }
  Reachable-IsLedger (after_admit {s} before fresh c now stats order) =
      admit_bucket-IsLedger config instance_id fresh c now s stats order (Reachable-IsLedger before)
  Reachable-IsLedger (after_settle {s} before c now stats order small) =
      settle_bucket-IsLedger config c now small s stats order (Reachable-IsLedger before)
  Reachable-IsLedger (after_inspect {s} before now order) =
      touched-IsLedger now s order (Reachable-IsLedger before)
  Reachable-IsLedger (after_cleanup {s} before now) =
      purge_state-IsLedger now s (Reachable-IsLedger before)
