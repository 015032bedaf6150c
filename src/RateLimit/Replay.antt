-- ===== src/RateLimit/Replay.antt =====
-- Idempotency of admissions and settlements in crates/kong-ai/src/ratelimit/memory.rs.
use kong_rust.Common.{
  ℕ, ◌+◌, ◌<◌, ◌≡◌, ◌≢◌, ◌∙◌, ap, sym, refl, Bool, true, false, some, arith, ==-refl, string_keyed,
}
use kong_rust.Common.Assoc.{lookup, lookup-insert_same}
use kong_rust.RateLimit.Types.{
  AdmitCommand, ReservationEnvelope, RateLimitSnapshot, AdmissionDecision, allowed, as_replayed,
  SettleCommand, SettlementDisposition, applied, replayed, SettlementResult, RateLimitNow,
  MemoryRateLimitConfig, RateLimitStoreStats, AdmissionRecord, BucketState,
}
use kong_rust.RateLimit.Types.Equality.{same_fingerprint_iff, same_token_iff, same_charge_iff}
use kong_rust.RateLimit.Window.{Result, ok, err, retained, purge_state, purge_stats}
use kong_rust.RateLimit.Bucket.{
  Outcome, Fresh, decision, record_of, fingerprint_of, admit_known, admit_purged, admit_bucket,
  touched,
}
use kong_rust.RateLimit.Settlement.{
  settle_record, settle_again, settle_token, settle_admission, settle_stale, settle_purged,
  settle_bucket,
}
use kong_rust.RateLimit.Sums.{lookup-retain}
use kong_rust.RateLimit.Pending.{Later, Later-Recorded}
use kong_rust.RateLimit.Limits.{admit_bucket-Respects}
use kong_rust.RateLimit.Settled.{IsPending, settle_purged-elim}
use kong_rust.RateLimit.Settle.{settled, settle_record-state, settle_record-result}

module _ (config : MemoryRateLimitConfig) (instance_id : ℕ) (c : AdmitCommand) where
  known-Replayed :
      (fresh : Fresh) (now : RateLimitNow) (s : BucketState) (stats : RateLimitStoreStats)
      (d : AdmissionDecision) (until : ℕ)
      → lookup c.request_id s.admissions ≡ some (record_of c d until)
      → ((admit_purged config instance_id fresh c now s stats).result
          ≡ ok (decision (as_replayed d)))
        × ((admit_purged config instance_id fresh c now s stats).state ≡ s)
  unfolding admit_purged admit_known
  known-Replayed fresh now s stats d until h =
      rw
        (
          admit_purged,
          h,
          admit_known,
          (same_fingerprint_iff (fingerprint_of c) (fingerprint_of c)).1 refl,
        )
        (refl, refl)

  -- A granted admission that is asked again gets the same reservation, marked as a replay, and the bucket
  -- changes by the purge alone: nothing is charged twice. This holds at any time, after any admissions,
  -- inspections and cleanups and after settlements of other requests, as long as the reservation is not
  -- settled.
  pub admit_bucket-admit_bucket :
      (fresh fresh' : Fresh) (now later : RateLimitNow) (s t : BucketState)
      (stats stats' : RateLimitStoreStats) (e : ReservationEnvelope) (snap : RateLimitSnapshot)
      → (admit_bucket config instance_id fresh c now s stats).result
        ≡ ok (decision (allowed e snap false))
      → Later config instance_id c.request_id
          (admit_bucket config instance_id fresh c now s stats).state
          t
      → ((admit_bucket config instance_id fresh' c later t stats').result
          ≡ ok (decision (allowed e snap true)))
        × ((admit_bucket config instance_id fresh' c later t stats').state ≡ touched later.mono t)
  unfolding admit_bucket touched purge_state as_replayed
  admit_bucket-admit_bucket fresh fresh' now later s t stats stats' e snap granted after =
      let (_, _, _, _, until, kept) =
        admit_bucket-Respects config instance_id fresh c now s stats e snap granted in
      let still =
        Later-Recorded config instance_id c.request_id (record_of c (allowed e snap false) until)
          (λ n. refl) after kept in
      known-Replayed fresh' later (touched later.mono t) (purge_stats later.mono t stats')
        (allowed e snap false) until (lookup-retain c.request_id later.mono t.admissions still refl)

same_result : {a b : SettlementResult} → ok a ≡ ok b → a ≡ b
same_result h = cc

abbrev disposition_of : Result SettlementResult → SettlementDisposition
disposition_of (ok r) = r.disposition
disposition_of (err e) = applied

-- A settlement that was made now leaves its record behind.
abbrev pub Leaves :
    MemoryRateLimitConfig → SettleCommand → RateLimitNow → Outcome SettlementResult → Type 0
Leaves config c now o =
    (res : SettlementResult)
    → o.result ≡ ok res
    → res.disposition ≢ replayed
    → (r : AdmissionRecord) × (snap : RateLimitSnapshot) × (again : Bool) × (r.decision
        ≡ allowed c.reservation snap again)
      × (lookup c.reservation.request_id o.state.admissions ≡ some (settled config c now r res))

module _ (config : MemoryRateLimitConfig) (c : SettleCommand) (now : RateLimitNow)
    (small : now.mono + config.settlement_retry_grace < 18446744073709551616000000000) where
  settle_record-Leaves :
      (r : AdmissionRecord) (result : SettlementResult) (s before : BucketState)
      (stats : RateLimitStoreStats)
      → IsPending c before r
      → Leaves config c now (settle_record config c now r result s stats)
  settle_record-Leaves r result s before stats p res h fresh = (
    r,
    p.snap,
    p.again,
    p.granted,
    ap (λ x. lookup c.reservation.request_id x.admissions)
          (settle_record-state config c now small r result s stats)
        ∙ lookup-insert_same c.reservation.request_id (settled config c now r result) s.admissions
        ∙ ap (λ x. some (settled config c now r x))
            (same_result (sym (settle_record-result config c now small r result s stats) ∙ h)),
  )

  pub settle_bucket-Leaves :
      (s : BucketState) (stats : RateLimitStoreStats)
      → Leaves config c now (settle_bucket config c now s stats)
  unfolding settle_bucket settle_stale
  settle_bucket-Leaves s stats =
      settle_purged-elim (Leaves config c now) config c now (touched now.mono s)
        (purge_stats now.mono s stats) (λ x res h fresh. cc)
        (λ done res h fresh. absurd (fresh (ap disposition_of (sym h))))
        (λ r w n t p active m hn ht. settle_record-Leaves r _ _ _ _ p)
        (λ r p out. settle_record-Leaves r _ _ _ _ p)

  settled-Replayed :
      (later : RateLimitNow) (s : BucketState) (stats : RateLimitStoreStats) (r : AdmissionRecord)
      (res : SettlementResult) (snap : RateLimitSnapshot) (again : Bool)
      → r.decision ≡ allowed c.reservation snap again
      → lookup c.reservation.request_id s.admissions ≡ some (settled config c now r res)
      → ((settle_purged config c later s stats).result
          ≡ ok (record { disposition = replayed; snapshot = res.snapshot }))
        × ((settle_purged config c later s stats).state ≡ s)
  unfolding settle_purged settle_admission settle_token settle_again
  settled-Replayed later s stats r res snap again granted h =
      rw
        (
          settle_purged,
          h,
          settle_admission,
          granted,
          settle_token,
          (same_token_iff c.reservation c.reservation).1 refl,
          settle_again,
          ==-refl c.operation_id,
          (same_charge_iff c.final_charge c.final_charge).1 refl,
        )
        (refl, refl)

  -- A settlement that was applied, or found its window over, and is asked again before the retry grace
  -- has passed is answered as a replay with the same snapshot, and the bucket changes by the purge
  -- alone: the final charge is corrected only once. The retry grace does not overflow.
  pub settle_bucket-settle_bucket :
      (later : RateLimitNow) (s : BucketState) (stats stats' : RateLimitStoreStats)
      (res : SettlementResult)
      → later.mono < now.mono + config.settlement_retry_grace
      → (settle_bucket config c now s stats).result ≡ ok res
      → res.disposition ≢ replayed
      → ((settle_bucket config c later (settle_bucket config c now s stats).state stats').result
          ≡ ok (record { disposition = replayed; snapshot = res.snapshot }))
        × ((settle_bucket config c later (settle_bucket config c now s stats).state stats').state
            ≡ touched later.mono (settle_bucket config c now s stats).state)
  unfolding settle_bucket touched purge_state
  settle_bucket-settle_bucket later s stats stats' res early h fresh =
      let (r, snap, again, granted, kept) = settle_bucket-Leaves s stats res h fresh in
      let after = (settle_bucket config c now s stats).state in
      settled-Replayed later (touched later.mono after) (purge_stats later.mono after stats') r res
        snap again granted
        (lookup-retain c.reservation.request_id later.mono after.admissions kept (in_time r))
    where
      in_time : (r : AdmissionRecord) → retained later.mono (settled config c now r res) ≡ true
      in_time r = ground arith
