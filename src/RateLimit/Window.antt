-- ===== src/RateLimit/Window.antt =====
-- Windows, snapshots, counters and the purge of crates/kong-ai/src/ratelimit/memory.rs.
use kong_rust.Common.{
  ℕ, ◌+◌, ◌-◌, ◌%◌, String, Bool, true, false, not, ◌||◌, Option, none, some, List, [], ◌∷◌,
  if◌then◌else◌, ltb, leb,
}
use kong_rust.RateLimit.Types.{
  WindowSpec, QuotaLimits, DimensionSnapshot, RateLimitSnapshot, AdmissionDecision, allowed,
  rejected, RateLimitStoreError, corrupt, RateLimitNow, MemoryRateLimitConfig, RateLimitStoreStats,
  WindowState, AdmissionRecord, BucketState,
}

pub data Result {ℓ} (A : Type ℓ) : Type ℓ where
  ok : A → Result A
  err : RateLimitStoreError → Result A

-- `u64` and `usize`: `checked_add`, `checked_sub`, and the wrapping counters.
abbrev pub u64_mod : ℕ
u64_mod = 18446744073709551616

abbrev pub checked_add : ℕ → ℕ → Option ℕ
checked_add a b = if ltb (a + b) 18446744073709551616 then some (a + b) else none

abbrev pub checked_sub : ℕ → ℕ → Option ℕ
checked_sub a b = if leb b a then some (a - b) else none

abbrev pub fetch_add : ℕ → ℕ → ℕ
fetch_add counter k = (counter + k) % 18446744073709551616

abbrev pub fetch_sub : ℕ → ℕ → ℕ
fetch_sub counter k = (counter + 18446744073709551616 - k) % 18446744073709551616

-- `Duration::checked_add`, below 2 ^ 64 seconds, and `SystemTime::checked_add`, below 2 ^ 63.
abbrev pub add_duration : ℕ → ℕ → Option ℕ
add_duration a b = if ltb (a + b) 18446744073709551616000000000 then some (a + b) else none

abbrev pub add_wall : ℕ → ℕ → Option ℕ
add_wall a b = if ltb (a + b) 9223372036854775808000000000 then some (a + b) else none

-- The counter after a successful `try_reserve`; the calls of the model do not interleave.
abbrev pub try_reserve : ℕ → ℕ → Option ℕ
try_reserve current limit = if leb limit current then none else some (fetch_add current 1)

unfoldable pub adjusted_count : ℕ → ℕ → ℕ → Bool → String → Result ℕ
adjusted_count current reserved final_charge enabled error =
    if not enabled then ok current else elim (checked_sub current reserved) [
      | none ↦ err (corrupt error)
      | some count ↦ elim (checked_add count final_charge) [
        | none ↦ err (corrupt error)
        | some n ↦ ok n
      ]
    ]

abbrev pub is_some {ℓ} : {A : Type ℓ} → Option A → Bool
is_some none = false
is_some (some a) = true

unfoldable pub dimension_snapshot : Option ℕ → ℕ → Option DimensionSnapshot
dimension_snapshot none used = none
dimension_snapshot (some limit) used =
    some (record { limit = limit; used = used; remaining = limit - used })

unfoldable pub snapshot : WindowState → QuotaLimits → RateLimitNow → RateLimitSnapshot
snapshot window limits now = record {
  window = record {
    identity = some window.identity;
    algorithm = window.spec.algorithm;
    duration = window.spec.duration;
    started_at = window.started_wall;
    reset_at = window.reset_wall;
    reset_after = window.reset_mono - now.mono;
  };
  requests = dimension_snapshot limits.requests window.requests_used;
  tokens = dimension_snapshot limits.tokens window.tokens_used;
}

unfoldable pub prospective_snapshot :
    WindowSpec → QuotaLimits → RateLimitNow → Result RateLimitSnapshot
prospective_snapshot window limits now = elim (add_wall now.wall window.duration) [
  | none ↦ err (corrupt "window wall time overflow")
  | some reset_at ↦ ok (record {
    window = record {
      identity = none;
      algorithm = window.algorithm;
      duration = window.duration;
      started_at = now.wall;
      reset_at = reset_at;
      reset_after = window.duration;
    };
    requests = dimension_snapshot limits.requests 0;
    tokens = dimension_snapshot limits.tokens 0;
  })
]

-- A new window, from its generation and the times of its end, where they do not overflow.
abbrev pub start_window :
    ℕ
    → BucketState
    → WindowSpec
    → RateLimitNow
    → Option ℕ
    → Option ℕ
    → Option ℕ
    → Result (BucketState × WindowState)
start_window uuid s spec now none _ _ = err (corrupt "window generation overflow")
start_window uuid s spec now (some generation) none _ =
    err (corrupt "window monotonic time overflow")
start_window uuid s spec now (some generation) (some reset_mono) none =
    err (corrupt "window wall time overflow")
start_window uuid s spec now (some generation) (some reset_mono) (some reset_wall) =
    let w : WindowState = record {
      identity = record { id = uuid; generation = generation };
      spec = spec;
      started_wall = now.wall;
      reset_mono = reset_mono;
      reset_wall = reset_wall;
      requests_used = 0;
      tokens_used = 0;
    } in
    ok (record s { active_window = some w; generation = generation }, w)

unfoldable pub new_window :
    ℕ → BucketState → WindowSpec → RateLimitNow → Result (BucketState × WindowState)
new_window uuid s spec now =
    start_window uuid s spec now (checked_add s.generation 1) (add_duration now.mono spec.duration)
      (add_wall now.wall spec.duration)

-- The active window, made if there is none; `uuid` is the fresh `WindowId`.
unfoldable pub ensure_window :
    ℕ → BucketState → WindowSpec → RateLimitNow → Result (BucketState × WindowState)
unfolding new_window
ensure_window uuid s spec now = elim s.active_window [
  | none ↦ new_window uuid s spec now
  | some w ↦ ok (s, w)
]

unfoldable pub rollback_new_window : BucketState → Bool → BucketState
rollback_new_window s created =
    if created then record s { active_window = none; generation = fetch_sub s.generation 1 } else s

unfoldable pub retention_duration : WindowSpec → MemoryRateLimitConfig → Result ℕ
retention_duration window config = elim (add_duration window.duration config.max_request_lifetime) [
  | none ↦ err (corrupt "idempotency retention duration overflow")
  | some d ↦ elim (add_duration d config.settlement_retry_grace) [
    | none ↦ err (corrupt "idempotency retention duration overflow")
    | some r ↦ ok r
  ]
]

abbrev pub is_rejected : AdmissionDecision → Bool
is_rejected (allowed r snap b) = false
is_rejected (rejected r snap b) = true

abbrev pub removable : AdmissionRecord → Bool
removable r = is_some r.settlement || is_rejected r.decision

-- What `retain` keeps at a time.
abbrev pub retained : ℕ → AdmissionRecord → Bool
retained now r = not (removable r) || ltb now r.retain_until

unfoldable pub retain : ℕ → List (String × AdmissionRecord) → List (String × AdmissionRecord)
retain now [] = []
retain now ((id, r) ∷ m) =
    let rest = retain now m in if retained now r then (id, r) ∷ rest else rest

-- How many records the purge removes, settled ones and rejected ones apart.
unfoldable pub removed_recovery : ℕ → List (String × AdmissionRecord) → ℕ
removed_recovery now [] = 0
removed_recovery now ((id, r) ∷ m) =
    (if retained now r then 0 else if is_some r.settlement then 1 else 0) + removed_recovery now m

unfoldable pub removed_rejected : ℕ → List (String × AdmissionRecord) → ℕ
removed_rejected now [] = 0
removed_rejected now ((id, r) ∷ m) =
    (if retained now r then 0 else if is_some r.settlement then 0 else 1) + removed_rejected now m

-- The window that is left at a time.
unfoldable pub live_window : ℕ → Option WindowState → Option WindowState
live_window now none = none
live_window now (some w) = if leb w.reset_mono now then none else some w

unfoldable pub purge_state : ℕ → BucketState → BucketState
unfolding live_window retain
purge_state now s = record s {
  active_window = live_window now s.active_window;
  admissions = retain now s.admissions;
}

unfoldable pub purge_stats : ℕ → BucketState → RateLimitStoreStats → RateLimitStoreStats
unfolding removed_recovery removed_rejected
purge_stats now s stats =
    let recovery = removed_recovery now s.admissions in
    let rejections = removed_rejected now s.admissions in
    record stats {
      idempotency_records = fetch_sub stats.idempotency_records (rejections + recovery);
      rejected_records = fetch_sub stats.rejected_records rejections;
      recovery_records = fetch_sub stats.recovery_records recovery;
    }
