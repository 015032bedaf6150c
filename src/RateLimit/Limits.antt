-- ===== src/RateLimit/Limits.antt =====
-- The limits that a granted admission of crates/kong-ai/src/ratelimit/memory.rs respects.
use kong_rust.Common.{
  ℕ, ◌≤◌, ◌≡◌, ◌≢◌, ◌∙◌, ap, sym, refl, Bool, false, not, ◌||◌, some, arith, leb, Bool-cases, inl,
  inr, string_keyed,
}
use kong_rust.Common.Assoc.{lookup, insert, lookup-insert_same}
use kong_rust.RateLimit.Types.{
  WindowIdentity, ExceededDimension, QuotaLimits, AdmitCommand, ReservationEnvelope,
  RateLimitSnapshot, allowed, rejected, AdmissionDecision, as_replayed, RateLimitNow,
  MemoryRateLimitConfig, RateLimitStoreStats, WindowState, AdmissionRecord, BucketState,
}
use kong_rust.RateLimit.Types.Equality.{same_fingerprint}
use kong_rust.RateLimit.Window.{Result, ok, err, is_some, ensure_window, purge_stats}
use kong_rust.RateLimit.Bucket.{
  Outcome, record_of, Fresh, AdmitAttempt, fingerprint_of, capacity, decision, exceeds,
  admit_allowed, admit_rejected, admit_counts, admit_window, admit_new, admit_known, admit_bucket,
  touched,
}
use kong_rust.RateLimit.Branches.{
  Result-cases, admit_counts-elim, admit_new-elim, admit_purged-elim,
}
use kong_rust.RateLimit.Sums.{Records, total}
use kong_rust.RateLimit.Ledger.{Dimension, rpm, tpm, limit_in, used_in, share, IsLedger}
use kong_rust.RateLimit.Admit.{window-Kept}
use kong_rust.RateLimit.Decision.{admit_bucket-IsLedger}

-- A new reservation is in the active window, whose counts are within the limits, and is recorded.
abbrev pub Respects : AdmitCommand → Outcome AdmitAttempt → Type 0
Respects c o =
    (e : ReservationEnvelope) (snap : RateLimitSnapshot)
    → o.result ≡ ok (decision (allowed e snap false))
    → (w : WindowState) × (o.state.active_window ≡ some w)
      × (e.window ≡ w.identity)
      × ((d : Dimension) (l : ℕ) → limit_in d c.limits ≡ some l → used_in d w ≤ l)
      × (until : ℕ) × (lookup c.request_id o.state.admissions
          ≡ some (record_of c (allowed e snap false) until))

same_decision : {d d' : AdmissionDecision} → ok (decision d) ≡ ok (decision d') → d ≡ d'
same_decision q = cc

abbrev window_of : Result AdmitAttempt → WindowIdentity
window_of (ok (decision (allowed e snap again))) = e.window
window_of (ok (decision (rejected reason snap again))) = record { id = 0; generation = 0 }
window_of (ok capacity) = record { id = 0; generation = 0 }
window_of (err e) = record { id = 0; generation = 0 }

-- The record of a decision is found again.
recorded :
    (c : AdmitCommand) (until : ℕ) (m : Records) {d d' : AdmissionDecision}
    → ok (decision d) ≡ ok (decision d')
    → lookup c.request_id (insert c.request_id (record_of c d until) m)
      ≡ some (record_of c d' until)
recorded c until m {d} {d'} q =
    lookup-insert_same c.request_id (record_of c d until) m
    ∙ ap (λ x. some (record_of c x until)) (same_decision q)

under :
    (limits : QuotaLimits) (w : WindowState) (n t : ℕ)
    → (exceeds limits.requests n || exceeds limits.tokens t) ≡ false
    → (d : Dimension) (l : ℕ) → limit_in d limits ≡ some l
    → used_in d (record w { requests_used = n; tokens_used = t }) ≤ l
under limits w n t h rpm l e = ground arith
under limits w n t h tpm l e = ground arith

not_fresh :
    (d : AdmissionDecision) (e : ReservationEnvelope) (snap : RateLimitSnapshot)
    → ok (decision (as_replayed d)) ≢ ok (decision (allowed e snap false))
unfolding as_replayed
not_fresh (allowed e' snap' again) e snap h = cc
not_fresh (rejected reason snap' again) e snap h = cc

module _ (config : MemoryRateLimitConfig) (instance_id : ℕ) (fresh : Fresh) (c : AdmitCommand)
    (now : RateLimitNow) where
  admit_rejected-Respects :
      (until : ℕ) (reason : ExceededDimension) (w : WindowState) (s : BucketState)
      (stats : RateLimitStoreStats)
      → Respects c (admit_rejected config instance_id fresh c now until reason w s stats)
  unfolding admit_rejected
  admit_rejected-Respects until reason w s stats e snap h = cc

  admit_allowed-Respects :
      (until : ℕ) (created : Bool) (w : WindowState) (n t : ℕ) (s : BucketState)
      (stats : RateLimitStoreStats)
      → (exceeds c.limits.requests n || exceeds c.limits.tokens t) ≡ false
      → Respects c (admit_allowed config instance_id fresh c now until created w n t s stats)
  unfolding admit_allowed
  admit_allowed-Respects until created w n t s stats b =
      elim (Bool-cases (leb config.max_live_reservations stats.live_reservations)) [
        | inl h ↦ rw (admit_allowed, h) (λ e snap q. cc)
        | inr h ↦
            rw (admit_allowed, h)
              (λ e snap q. (
                record w { requests_used = n; tokens_used = t },
                refl,
                ap window_of (sym q),
                under c.limits w n t b,
                until,
                recorded c until s.admissions q,
              ))
      ]

  admit_counts-Respects :
      (until : ℕ) (created : Bool) (w : WindowState) (s : BucketState) (stats : RateLimitStoreStats)
      → Respects c (admit_counts config instance_id fresh c now until created w s stats)
  admit_counts-Respects until created w s stats =
      admit_counts-elim (Respects c) config instance_id fresh c now until created w s stats
        (λ message e snap q. cc) (λ reason. admit_rejected-Respects until reason w s stats)
        (λ n t h e b. admit_allowed-Respects until created w n t s stats b)

  admit_window-Respects :
      (until : ℕ) (s : BucketState) (stats : RateLimitStoreStats)
      → Respects c (admit_window config instance_id fresh c now until s stats)
  unfolding admit_window
  admit_window-Respects until s stats =
      elim (Result-cases (ensure_window fresh.window_id s c.window now)) [
        | inl (x, h) ↦ rw (admit_window, h) (λ e snap q. cc)
        | inr ((s', w), h) ↦
            rw (admit_window, h)
              (admit_counts-Respects until (not (is_some s.active_window)) w s' stats)
      ]

  admit_new-Respects :
      (s : BucketState) (stats : RateLimitStoreStats)
      → Respects c (admit_new config instance_id fresh c now s stats)
  admit_new-Respects s stats =
      admit_new-elim (Respects c) config instance_id fresh c now s stats (λ x e snap q. cc)
        (λ e snap q. cc) (λ until n enough. admit_window-Respects until s _)

  admit_known-Respects :
      (r : AdmissionRecord) (s : BucketState) (stats : RateLimitStoreStats)
      → Respects c (admit_known config instance_id fresh c now r s stats)
  unfolding admit_known
  admit_known-Respects r s stats =
      elim (Bool-cases (same_fingerprint r.fingerprint (fingerprint_of c))) [
        | inl h ↦ rw (admit_known, h) (λ e snap q. absurd (not_fresh r.decision e snap q))
        | inr h ↦ rw (admit_known, h) (λ e snap q. cc)
      ]

  pub admit_bucket-Respects :
      (s : BucketState) (stats : RateLimitStoreStats)
      → Respects c (admit_bucket config instance_id fresh c now s stats)
  unfolding admit_bucket
  admit_bucket-Respects s stats =
      admit_purged-elim (Respects c) config instance_id fresh c now (touched now.mono s)
        (purge_stats now.mono s stats)
        (λ new. admit_new-Respects (touched now.mono s) (purge_stats now.mono s stats))
        (λ r h. admit_known-Respects r (touched now.mono s) (purge_stats now.mono s stats))

  -- When an admission is newly granted for a bucket whose ledger is right and time has not gone
  -- back, then in each dimension that the command limits, all that the records of the reservation's
  -- window charge to it, the new reservation included, is at most the limit.
  pub admit_bucket-limit :
      (s : BucketState) (stats : RateLimitStoreStats) (e : ReservationEnvelope)
      (snap : RateLimitSnapshot) (d : Dimension) (l : ℕ)
      → s.last_touched_mono ≤ now.mono
      → IsLedger s
      → (admit_bucket config instance_id fresh c now s stats).result
        ≡ ok (decision (allowed e snap false))
      → limit_in d c.limits ≡ some l
      → total
          (share d e.window)
          (admit_bucket config instance_id fresh c now s stats).state.admissions
        ≤ l
  admit_bucket-limit s stats e snap d l order ledger granted limit =
      let after = admit_bucket config instance_id fresh c now s stats in
      let (w, active, window, within, _, _) = admit_bucket-Respects s stats e snap granted in
      let k =
        window-Kept after.state.active_window after.state.admissions after.state.last_touched_mono
          after.state.generation active
          (admit_bucket-IsLedger config instance_id fresh c now s stats order ledger).kept in
      rw window (omega (arith, k.counts d, within d l limit))
