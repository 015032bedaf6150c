-- ===== src/RateLimit/Pending.antt =====
-- A granted admission of crates/kong-ai/src/ratelimit/memory.rs stays recorded until it is settled,
-- whatever other calls do to its bucket.
use mathlib.Core.Path.{subst}
use kong_rust.Common.{
  ℕ, ◌+◌, ◌≡◌, ◌∙◌, ap, sym, refl, String, Bool, true, false, not, none, some, Bool-cases, inl, inr,
  ◌==◌, string_keyed, ltb, leb, Option, Option-cases,
}
use kong_rust.Common.Assoc.{lookup, insert, lookup-insert}
use kong_rust.RateLimit.Types.{
  AdmitCommand, WindowState, SettleCommand, SettlementResult, RateLimitNow, MemoryRateLimitConfig,
  RateLimitStoreStats, AdmissionRecord, BucketState, WindowSpec,
}
use kong_rust.RateLimit.Window.{
  Result, ok, err, is_some, retained, purge_state, purge_stats, ensure_window, start_window,
  new_window, rollback_new_window,
}
use kong_rust.RateLimit.Bucket.{
  Fresh, admit_allowed, admit_rejected, admit_counts, admit_window, admit_new, admit_bucket,
  touched,
}
use kong_rust.RateLimit.Branches.{
  Result-cases, admit_counts-elim, admit_new-elim, admit_purged-elim,
}
use kong_rust.RateLimit.Decision.{admit_known-state}
use kong_rust.RateLimit.Settlement.{settle_record, settle_stale, settle_bucket}
use kong_rust.RateLimit.Settled.{settle_purged-elim}
use kong_rust.RateLimit.Sums.{lookup-retain}

-- What later calls make of a bucket: admissions of any request, settlements of other requests than the
-- one named, inspections and cleanups, at any times.
pub data Later (config : MemoryRateLimitConfig) (instance_id : ℕ) (id : String) (s : BucketState)
    : BucketState → Type 0 where
  at_once : Later config instance_id id s s
  then_admit :
      {t : BucketState}
      → Later config instance_id id s t
      → (fresh : Fresh) (c : AdmitCommand) (now : RateLimitNow) (stats : RateLimitStoreStats)
      → Later config instance_id id s (admit_bucket config instance_id fresh c now t stats).state
  then_settle :
      {t : BucketState}
      → Later config instance_id id s t
      → (c : SettleCommand) (now : RateLimitNow) (stats : RateLimitStoreStats)
      → (c.reservation.request_id == id) ≡ false
      → Later config instance_id id s (settle_bucket config c now t stats).state
  then_inspect :
      {t : BucketState}
      → Later config instance_id id s t
      → (now : ℕ) → Later config instance_id id s (touched now t)
  then_cleanup :
      {t : BucketState}
      → Later config instance_id id s t
      → (now : ℕ) → Later config instance_id id s (purge_state now t)

module _ (config : MemoryRateLimitConfig) (instance_id : ℕ) (id : String)
    (r : AdmissionRecord) where
  abbrev Recorded : BucketState → Type 0
  Recorded s = lookup id s.admissions ≡ some r

  module _ (unremovable : (now : ℕ) → retained now r ≡ true) where
    purge_state-Recorded : (now : ℕ) (s : BucketState) → Recorded s → Recorded (purge_state now s)
    unfolding purge_state
    purge_state-Recorded now s h = lookup-retain id now s.admissions h (unremovable now)

    touched-Recorded : (now : ℕ) (s : BucketState) → Recorded s → Recorded (touched now s)
    unfolding touched
    touched-Recorded now s h = purge_state-Recorded now (record s { last_touched_mono = now }) h

  inserted-Recorded :
      (other : String) (q : AdmissionRecord) (s : BucketState)
      → (other == id) ≡ false
      → Recorded s
      → lookup id (insert other q s.admissions) ≡ some r
  inserted-Recorded other q s apart h = rw (lookup-insert, apart) h

  rollback-Recorded :
      (s : BucketState) (created : Bool) → Recorded s → Recorded (rollback_new_window s created)
  unfolding rollback_new_window
  rollback-Recorded s true h = h
  rollback-Recorded s false h = h

  -- What a window is opened in has the bucket's records.
  abbrev Opens : BucketState → Result (BucketState × WindowState) → Type 0
  Opens s (ok (s', w)) = s'.admissions ≡ s.admissions
  Opens s (err e) = Unit {0}

  start_window-Opens :
      (uuid : ℕ) (s : BucketState) (spec : WindowSpec) (now : RateLimitNow) (g m x : Option ℕ)
      → Opens s (start_window uuid s spec now g m x)
  start_window-Opens uuid s spec now none m x = tt
  start_window-Opens uuid s spec now (some g) none x = tt
  start_window-Opens uuid s spec now (some g) (some m) none = tt
  start_window-Opens uuid s spec now (some g) (some m) (some x) = refl

  ensure_window-Opens :
      (uuid : ℕ) (s : BucketState) (spec : WindowSpec) (now : RateLimitNow)
      → Opens s (ensure_window uuid s spec now)
  unfolding ensure_window new_window
  ensure_window-Opens uuid s spec now = elim (Option-cases s.active_window) [
    | inl h ↦ rw (ensure_window, h) (start_window-Opens uuid s spec now _ _ _)
    | inr (w, h) ↦ rw (ensure_window, h) refl
  ]

  module _ (fresh : Fresh) (c : AdmitCommand) (now : RateLimitNow)
      (apart : (c.request_id == id) ≡ false) where
    admit_allowed-Recorded :
        (until : ℕ) (created : Bool) (w : WindowState) (n t : ℕ) (s : BucketState)
        (stats : RateLimitStoreStats)
        → Recorded s
        → Recorded (admit_allowed config instance_id fresh c now until created w n t s stats).state
    unfolding admit_allowed
    admit_allowed-Recorded until created w n t s stats h =
        elim (Bool-cases (leb config.max_live_reservations stats.live_reservations)) [
          | inl e ↦ rw (admit_allowed, e) (rollback-Recorded s created h)
          | inr e ↦ rw (admit_allowed, e) (inserted-Recorded c.request_id _ s apart h)
        ]

    admit_counts-Recorded :
        (until : ℕ) (created : Bool) (w : WindowState) (s : BucketState)
        (stats : RateLimitStoreStats)
        → Recorded s
        → Recorded (admit_counts config instance_id fresh c now until created w s stats).state
    unfolding admit_rejected
    admit_counts-Recorded until created w s stats h =
        admit_counts-elim (λ x. Recorded x.state) config instance_id fresh c now until created w s
          stats (λ message. rollback-Recorded s created h)
          (λ reason. inserted-Recorded c.request_id _ s apart h)
          (λ n t e f b. admit_allowed-Recorded until created w n t s stats h)

    admit_window-Recorded :
        (until : ℕ) (s : BucketState) (stats : RateLimitStoreStats)
        → Recorded s
        → Recorded (admit_window config instance_id fresh c now until s stats).state
    unfolding admit_window
    admit_window-Recorded until s stats h =
        elim (Result-cases (ensure_window fresh.window_id s c.window now)) [
          | inl (x, e) ↦ rw (admit_window, e) h
          | inr ((s', w), e) ↦
              rw (admit_window, e)
                (admit_counts-Recorded until (not (is_some s.active_window)) w s' stats (
                  ap (lookup id) (rw e at (ensure_window-Opens fresh.window_id s c.window now))
                  ∙ h))
        ]

    admit_new-Recorded :
        (s : BucketState) (stats : RateLimitStoreStats)
        → Recorded s
        → Recorded (admit_new config instance_id fresh c now s stats).state
    admit_new-Recorded s stats h =
        admit_new-elim (λ x. Recorded x.state) config instance_id fresh c now s stats (λ e. h) h
          (λ until n enough. admit_window-Recorded until s _ h)

  -- An admission: a request that is not recorded yet has another id.
  admit_bucket-Recorded :
      (fresh : Fresh) (c : AdmitCommand) (now : RateLimitNow) (s : BucketState)
      (stats : RateLimitStoreStats)
      → Recorded (touched now.mono s)
      → Recorded (admit_bucket config instance_id fresh c now s stats).state
  unfolding admit_bucket
  admit_bucket-Recorded fresh c now s stats h =
      admit_purged-elim (λ x. Recorded x.state) config instance_id fresh c now (touched now.mono s)
        (purge_stats now.mono s stats)
        (λ new. elim (Bool-cases (c.request_id == id)) [
          | inl e ↦ cc (new, h, (string_keyed.same_iff c.request_id id).0 e)
          | inr e ↦ admit_new-Recorded fresh c now e (touched now.mono s) _ h
        ])
        (λ q found.
          subst Recorded
            (sym (admit_known-state config instance_id fresh c now q (touched now.mono s) _)) h)

  module _ (c : SettleCommand) (now : RateLimitNow)
      (apart : (c.reservation.request_id == id) ≡ false) where
    settle_record-Recorded :
        (q : AdmissionRecord) (result : SettlementResult) (s : BucketState)
        (stats : RateLimitStoreStats)
        → Recorded s
        → Recorded (settle_record config c now q result s stats).state
    unfolding settle_record
    settle_record-Recorded q result s stats h =
        elim (Bool-cases
          (ltb (now.mono + config.settlement_retry_grace) 18446744073709551616000000000)) [
            | inr e ↦ rw (settle_record, e) h
            | inl e ↦ rw (settle_record, e) (inserted-Recorded c.reservation.request_id _ s apart h)
          ]

    settle_bucket-Recorded :
        (s : BucketState) (stats : RateLimitStoreStats)
        → Recorded (touched now.mono s)
        → Recorded (settle_bucket config c now s stats).state
    unfolding settle_bucket settle_stale
    settle_bucket-Recorded s stats h =
        settle_purged-elim (λ x. Recorded x.state) config c now (touched now.mono s)
          (purge_stats now.mono s stats) (λ x. h) (λ done. h)
          (λ q w n t p active m hn ht. settle_record-Recorded q _ _ _ h)
          (λ q p out. settle_record-Recorded q _ _ _ h)

  -- A record that no purge removes outlives what other calls do.
  pub Later-Recorded :
      ((now : ℕ) → retained now r ≡ true)
      → {s t : BucketState} → Later config instance_id id s t
      → lookup id s.admissions ≡ some r
      → lookup id t.admissions ≡ some r
  Later-Recorded k at_once h = h
  Later-Recorded k (then_admit {t} l fresh c now stats) h =
      admit_bucket-Recorded fresh c now t stats
        (touched-Recorded k now.mono t (Later-Recorded k l h))
  Later-Recorded k (then_settle {t} l c now stats apart) h =
      settle_bucket-Recorded c now apart t stats
        (touched-Recorded k now.mono t (Later-Recorded k l h))
  Later-Recorded k (then_inspect {t} l now) h = touched-Recorded k now t (Later-Recorded k l h)
  Later-Recorded k (then_cleanup {t} l now) h = purge_state-Recorded k now t (Later-Recorded k l h)
