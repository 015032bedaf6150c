-- ===== src/RateLimit/Branches.antt =====
-- The branches of the admission of crates/kong-ai/src/ratelimit/memory.rs, one rule for each step:
-- what holds of the outcome of each branch holds of the outcome.
use kong_rust.Common.{
  ℕ, ◌+◌, ◌-◌, ◌≤◌, ◌≡◌, ◌⊎◌, refl, String, Bool, false, ◌||◌, none, some, arith, ltb, leb, length,
  Option-cases, Bool-cases, inl, inr, string_keyed,
}
use kong_rust.Common.Assoc.{lookup}
use kong_rust.RateLimit.Types.{
  WindowSpec, AdmitCommand, ExceededDimension, RateLimitNow, MemoryRateLimitConfig,
  RateLimitStoreError, corrupt, RateLimitStoreStats, WindowState, AdmissionRecord, BucketState,
}
use kong_rust.RateLimit.Window.{Result, ok, err, rollback_new_window, retention_duration}
use kong_rust.RateLimit.Bucket.{
  Outcome, Fresh, AdmitAttempt, capacity, unreserve, candidate, exceeds, effective_window,
  admit_allowed, admit_rejected, admit_counts, admit_window, admit_new, admit_known, admit_purged,
}

pub Result-cases {ℓ} :
    {A : Type ℓ} (r : Result A) → ((e : RateLimitStoreError) × (r ≡ err e)) ⊎ ((a : A) × (r ≡ ok a))
Result-cases (err e) = inl (e, refl)
Result-cases (ok a) = inr (a, refl)

abbrev Within : ℕ → Result ℕ → Type 0
Within n (ok r) = n ≤ r
Within n (err e) = Unit

retention_duration-Within :
    (w : WindowSpec) (config : MemoryRateLimitConfig)
    → Within w.duration (retention_duration w config)
unfolding retention_duration
retention_duration-Within w config = ground arith

within_ok :
    (w : WindowSpec) (config : MemoryRateLimitConfig) {r : ℕ}
    → retention_duration w config ≡ ok r
    → w.duration ≤ r
within_ok w config h = rw h at (retention_duration-Within w config)

module _ {ℓ} (P : Outcome AdmitAttempt → Type ℓ) (config : MemoryRateLimitConfig) (instance_id : ℕ)
    (fresh : Fresh) (c : AdmitCommand) (now : RateLimitNow) where
  pub admit_counts-elim :
      (until : ℕ) (created : Bool) (w : WindowState) (s : BucketState) (stats : RateLimitStoreStats)
      → ((message : String)
          → P (record {
            state = rollback_new_window s created;
            stats = unreserve stats;
            result = err (corrupt message);
          }))
      → ((reason : ExceededDimension)
          → P (admit_rejected config instance_id fresh c now until reason w s stats))
      → ((n t : ℕ)
          → candidate c.limits.requests w.requests_used c.reserve.requests ≡ some n
          → candidate c.limits.tokens w.tokens_used c.reserve.tokens ≡ some t
          → (exceeds c.limits.requests n || exceeds c.limits.tokens t) ≡ false
          → P (admit_allowed config instance_id fresh c now until created w n t s stats))
      → P (admit_counts config instance_id fresh c now until created w s stats)
  unfolding admit_counts
  admit_counts-elim until created w s stats undone rejects allows =
      elim (Option-cases (candidate c.limits.requests w.requests_used c.reserve.requests)) [
        | inl h ↦ rw (admit_counts, h) (undone _)
        | inr (n, h) ↦
            rw (admit_counts, h)
              (elim (Option-cases (candidate c.limits.tokens w.tokens_used c.reserve.tokens)) [
                | inl e ↦ rw e (undone _)
                | inr (t, e) ↦
                    rw e
                      (elim (Bool-cases
                        (exceeds c.limits.requests n || exceeds c.limits.tokens t)) [
                          | inl b ↦ rw b (rejects _)
                          | inr b ↦ rw b (allows n t h e b)
                        ])
              ])
      ]

  pub admit_new-elim :
      (s : BucketState) (stats : RateLimitStoreStats)
      → ((e : RateLimitStoreError) → P (record { state = s; stats = stats; result = err e }))
      → P (record { state = s; stats = stats; result = ok capacity })
      → ((until n : ℕ)
          → now.mono + (effective_window s.active_window c.window).duration ≤ until
          → P (
              admit_window config instance_id fresh c now until s
                (record stats { idempotency_records = n })))
      → P (admit_new config instance_id fresh c now s stats)
  unfolding admit_new
  admit_new-elim s stats fails full opens =
      elim (Result-cases (retention_duration (effective_window s.active_window c.window) config)) [
        | inl (e, h) ↦ rw (admit_new, h) (fails e)
        | inr (retention, h) ↦
            rw (admit_new, h)
              (elim (Bool-cases (ltb (now.mono + retention) 18446744073709551616000000000)) [
                | inr b ↦ rw b (fails _)
                | inl b ↦
                    rw b
                      (elim (Bool-cases (leb config.max_records_per_bucket (length s.admissions))) [
                        | inl f ↦ rw f full
                        | inr f ↦
                            rw f
                              (elim (Bool-cases (
                                leb
                                  (config.max_idempotency_records - config.recovery_record_headroom)
                                  stats.idempotency_records)) [
                                    | inl g ↦ rw g full
                                    | inr g ↦ rw g (
                                        opens (now.mono + retention) _ (
                                          omega (
                                            arith,
                                            within_ok (effective_window s.active_window c.window)
                                                config h,
                                          )))
                                  ])
                      ])
              ])
      ]

  pub admit_purged-elim :
      (s : BucketState) (stats : RateLimitStoreStats)
      → (lookup c.request_id s.admissions ≡ none
          → P (admit_new config instance_id fresh c now s stats))
      → ((r : AdmissionRecord)
          → lookup c.request_id s.admissions ≡ some r
          → P (admit_known config instance_id fresh c now r s stats))
      → P (admit_purged config instance_id fresh c now s stats)
  unfolding admit_purged
  admit_purged-elim s stats new known = elim (Option-cases (lookup c.request_id s.admissions)) [
    | inl h ↦ rw (admit_purged, h) (new h)
    | inr (r, h) ↦ rw (admit_purged, h) (known r h)
  ]
