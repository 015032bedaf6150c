-- ===== src/RateLimit/Inspect.antt =====
-- The inspections of crates/kong-ai/src/ratelimit/memory.rs after admissions and settlements.
use kong_rust.Common.{
  ℕ, ◌+◌, ◌<◌, ◌≡◌, ◌≢◌, ◌∙◌, refl, String, Bool, true, false, some, arith, ==-refl, string_keyed,
}
use kong_rust.Common.Assoc.{lookup}
use kong_rust.RateLimit.Types.{
  AdmitCommand, ReservationEnvelope, RateLimitSnapshot, allowed, as_replayed, SettleCommand,
  SettlementResult, replayed, RateLimitNow, MemoryRateLimitConfig, RateLimitStoreStats,
  AdmissionRecord, BucketState,
}
use kong_rust.RateLimit.Types.Equality.{same_token_iff}
use kong_rust.RateLimit.Window.{ok, retained, purge_state}
use kong_rust.RateLimit.Bucket.{Fresh, decision, record_of, touched, admit_bucket}
use kong_rust.RateLimit.Settlement.{
  admission, settlement, inspect_admission, inspect_settlement, found_settlement, settle_bucket,
}
use kong_rust.RateLimit.Sums.{lookup-retain}
use kong_rust.RateLimit.Limits.{admit_bucket-Respects}
use kong_rust.RateLimit.Settle.{settled}
use kong_rust.RateLimit.Replay.{settle_bucket-Leaves}

inspect_admission_lem :
    (id : String) (later : RateLimitNow) (s : BucketState) (stats : RateLimitStoreStats)
    (r : AdmissionRecord)
    → lookup id (touched later.mono s).admissions ≡ some r
    → (inspect_admission id later s stats).result ≡ ok (admission (as_replayed r.decision))
unfolding inspect_admission
inspect_admission_lem id later s stats r h = rw (inspect_admission, h) refl

found_settlement_lem :
    (config : MemoryRateLimitConfig) (c : SettleCommand) (now : RateLimitNow) (r : AdmissionRecord)
    (res : SettlementResult) (snap : RateLimitSnapshot) (again : Bool)
    → r.decision ≡ allowed c.reservation snap again
    → found_settlement c.reservation c.operation_id (settled config c now r res)
      ≡ ok (settlement res)
unfolding found_settlement
found_settlement_lem config c now r res snap again granted =
    rw
      (
        found_settlement,
        granted,
        (same_token_iff c.reservation c.reservation).1 refl,
        ==-refl c.operation_id,
      )
      refl

inspect_settlement_lem :
    (reservation : ReservationEnvelope) (operation_id : String) (later : RateLimitNow)
    (s : BucketState) (stats : RateLimitStoreStats) (r : AdmissionRecord)
    → lookup reservation.request_id (touched later.mono s).admissions ≡ some r
    → (inspect_settlement reservation operation_id later s stats).result
      ≡ found_settlement reservation operation_id r
unfolding inspect_settlement
inspect_settlement_lem reservation operation_id later s stats r h = rw (inspect_settlement, h) refl

-- An inspection that follows a granted admission as the next call on the bucket, however late,
-- answers with the same reservation, marked as a replay.
pub inspect_admission-admit_bucket :
    (config : MemoryRateLimitConfig) (instance_id : ℕ) (fresh : Fresh) (c : AdmitCommand)
    (now later : RateLimitNow) (s : BucketState) (stats stats' : RateLimitStoreStats)
    (e : ReservationEnvelope) (snap : RateLimitSnapshot)
    → (admit_bucket config instance_id fresh c now s stats).result
      ≡ ok (decision (allowed e snap false))
    → (inspect_admission c.request_id later
        (admit_bucket config instance_id fresh c now s stats).state
        stats').result
      ≡ ok (admission (allowed e snap true))
unfolding touched purge_state as_replayed
inspect_admission-admit_bucket config instance_id fresh c now later s stats stats' e snap granted =
    let (_, _, _, _, until, kept) =
      admit_bucket-Respects config instance_id fresh c now s stats e snap granted in
    let after = (admit_bucket config instance_id fresh c now s stats).state in
    inspect_admission_lem c.request_id later after stats' (record_of c (allowed e snap false) until)
      (lookup-retain c.request_id later.mono after.admissions kept refl)

-- An inspection of a settlement that was applied, or found its window over, answers with its result
-- until the retry grace has passed, for the operation that made it. The retry grace does not overflow.
pub inspect_settlement-settle_bucket :
    (config : MemoryRateLimitConfig) (c : SettleCommand) (now later : RateLimitNow)
    (s : BucketState) (stats stats' : RateLimitStoreStats) (res : SettlementResult)
    → now.mono + config.settlement_retry_grace < 18446744073709551616000000000
    → later.mono < now.mono + config.settlement_retry_grace
    → (settle_bucket config c now s stats).result ≡ ok res
    → res.disposition ≢ replayed
    → (inspect_settlement c.reservation c.operation_id later
        (settle_bucket config c now s stats).state
        stats').result
      ≡ ok (settlement res)
unfolding touched purge_state
inspect_settlement-settle_bucket config c now later s stats stats' res small early h first_time =
    let (r, snap, again, granted, kept) =
      settle_bucket-Leaves config c now small s stats res h first_time in
    let after = (settle_bucket config c now s stats).state in
    inspect_settlement_lem c.reservation c.operation_id later after stats'
      (settled config c now r res)
      (lookup-retain c.reservation.request_id later.mono after.admissions kept (in_time r))
    ∙ found_settlement_lem config c now r res snap again granted
  where
    in_time : (r : AdmissionRecord) → retained later.mono (settled config c now r res) ≡ true
    in_time r = ground arith
