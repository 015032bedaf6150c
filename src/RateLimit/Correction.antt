-- ===== src/RateLimit/Correction.antt =====
-- The settlement of crates/kong-ai/src/ratelimit/memory.rs always succeeds on a pending reservation
-- whose window runs.
use mathlib.Core.Path.{subst}
use kong_rust.Common.{
  ℕ, ◌+◌, ◌-◌, ◌≤◌, ◌<◌, ◌≡◌, ◌∙◌, ap, sym, refl, String, Bool, true, false, some, arith,
  string_keyed,
}
use kong_rust.RateLimit.Types.{
  SettleCommand, SettlementResult, applied, RateLimitNow, MemoryRateLimitConfig,
  RateLimitStoreStats, WindowState, AdmissionRecord, BucketState,
}
use kong_rust.RateLimit.Types.Equality.{same_identity_iff, same_token_iff}
use kong_rust.RateLimit.Window.{ok, adjusted_count, is_some, live_window, purge_state, purge_stats}
use kong_rust.RateLimit.Bucket.{Outcome, touched}
use kong_rust.RateLimit.Settlement.{
  settle_applied, settle_open, settle_token, settle_admission, settle_purged, settle_bucket,
}
use kong_rust.RateLimit.Sums.{total-lookup, lookup-retain}
use kong_rust.RateLimit.Ledger.{
  Dimension, rpm, tpm, limit_in, charge_in, used_in, share, Kept, IsLedger, touched-IsLedger,
}
use kong_rust.RateLimit.Admit.{window-Kept}
use kong_rust.RateLimit.Settled.{IsPending, meets}
use kong_rust.RateLimit.Settle.{settled, moved, settle_record-state, settle_record-result}

adjusted_fits :
    (used reserved final : ℕ) (enabled : Bool) (message : String)
    → (enabled ≡ true → reserved ≤ used)
    → used + final < 18446744073709551616
    → (n : ℕ) × (adjusted_count used reserved final enabled message ≡ ok n)
unfolding adjusted_count
adjusted_fits used reserved final false message h fits = (used, refl)
adjusted_fits used reserved final true message h fits = (used - reserved + final, fits_at (h refl))
  where
    fits_at :
        reserved ≤ used
        → adjusted_count used reserved final true message ≡ ok (used - reserved + final)
    fits_at le = ground arith

-- What a pending reservation holds is part of the counts of its window.
held :
    (c : SettleCommand) (s : BucketState) (r : AdmissionRecord) (w : WindowState) (t g : ℕ)
    → IsPending c s r
    → w.identity ≡ c.reservation.window
    → Kept w s.admissions t g
    → ((is_some c.reservation.limits_at_admission.requests ≡ true
          → c.reservation.reserved.requests ≤ w.requests_used)
        × (is_some c.reservation.limits_at_admission.tokens ≡ true
            → c.reservation.reserved.tokens ≤ w.tokens_used))
unfolding share
held c s r w t g p same k = (
  λ e. omega (
    arith,
    k.counts rpm,
    total-lookup (share rpm w.identity) c.reservation.request_id s.admissions p.found,
    held_in rpm e,
  ),
  λ e. omega (
    arith,
    k.counts tpm,
    total-lookup (share tpm w.identity) c.reservation.request_id s.admissions p.found,
    held_in tpm e,
  ),
)
  where
    held_in :
        (d : Dimension)
        → is_some (limit_in d c.reservation.limits_at_admission) ≡ true
        → share d w.identity r ≡ charge_in d c.reservation.reserved
    held_in d e =
        rw
          (
            p.granted,
            p.unsettled,
            (same_identity_iff c.reservation.window w.identity).1 (sym same),
            e,
          )
          refl

-- An applied result that corrects the counts of the window by the shares of the record.
abbrev pub Corrects :
    MemoryRateLimitConfig
    → SettleCommand
    → RateLimitNow
    → WindowState
    → AdmissionRecord
    → Outcome SettlementResult
    → Type 0
Corrects config c now w r o =
    (res : SettlementResult) × (w' : WindowState) × (o.result ≡ ok res)
    × (res.disposition ≡ applied)
    × (o.state.active_window ≡ some w')
    × (w'.identity ≡ w.identity)
    × ((d : Dimension)
        → used_in d w' + share d w.identity r
          ≡ used_in d w + share d w.identity (settled config c now r res))

module _ (config : MemoryRateLimitConfig) (c : SettleCommand) (now : RateLimitNow)
    (small : now.mono + config.settlement_retry_grace < 18446744073709551616000000000)
    (r : AdmissionRecord) (w : WindowState) (early : now.mono < w.reset_mono)
    (same : w.identity ≡ c.reservation.window)
    (fits : (d : Dimension) → used_in d w + charge_in d c.final_charge < 18446744073709551616) where
  meets_now : meets c now w ≡ true
  meets_now = rw ((same_identity_iff w.identity c.reservation.window).1 same) (ground arith)

  settle_applied-Corrects :
      (s : BucketState) (stats : RateLimitStoreStats)
      → IsLedger s
      → s.active_window ≡ some w
      → IsPending c s r
      → Corrects config c now w r (settle_applied config c now r w s stats)
  unfolding settle_applied
  settle_applied-Corrects s stats l active p =
      let k =
        window-Kept s.active_window s.admissions s.last_touched_mono s.generation active l.kept in
      let (holds_requests, holds_tokens) = held c s r w s.last_touched_mono s.generation p same k in
      let (n, hn) =
        adjusted_fits w.requests_used c.reservation.reserved.requests c.final_charge.requests _
          "request quota settlement arithmetic invalid" holds_requests (fits rpm) in
      let (t, ht) =
        adjusted_fits w.tokens_used c.reservation.reserved.tokens c.final_charge.tokens _
          "token quota settlement arithmetic invalid" holds_tokens (fits tpm) in
      rw (settle_applied, hn, ht)
        (
          _,
          _,
          settle_record-result config c now small r _ _ stats,
          refl,
          ap (λ x. x.active_window) (settle_record-state config c now small r _ _ stats),
          refl,
          moved config c now small s r w n t _ p meets_now hn ht,
        )

  pending_path :
      (s : BucketState) (stats : RateLimitStoreStats)
      → s.active_window ≡ some w
      → IsPending c s r
      → settle_purged config c now s stats ≡ settle_applied config c now r w s stats
  unfolding settle_purged settle_admission settle_token settle_open
  pending_path s stats active p =
      simp
        (
          settle_purged,
          p.found,
          settle_admission,
          p.granted,
          settle_token,
          (same_token_iff c.reservation c.reservation).1 refl,
          p.unsettled,
          settle_open,
          active,
          meets_now,
        )
        refl

  settle_purged-Corrects :
      (s : BucketState) (stats : RateLimitStoreStats)
      → IsLedger s
      → s.active_window ≡ some w
      → IsPending c s r
      → Corrects config c now w r (settle_purged config c now s stats)
  settle_purged-Corrects s stats l active p =
      subst (Corrects config c now w r) (sym (pending_path s stats active p))
        (settle_applied-Corrects s stats l active p)

  purged-IsPending : (s : BucketState) → IsPending c s r → IsPending c (touched now.mono s) r
  unfolding touched purge_state
  purged-IsPending s p = record {
    found =
        lookup-retain c.reservation.request_id now.mono s.admissions p.found
          (rw (p.unsettled, p.granted) refl);
    snap = p.snap;
    again = p.again;
    granted = p.granted;
    unsettled = p.unsettled;
  }

  live_window-running : live_window now.mono (some w) ≡ some w
  unfolding live_window
  live_window-running = ground arith

  -- A pending reservation whose window is active and still runs is settled: the result is applied,
  -- and in each dimension the count of the window changes from what the reservation held to its final
  -- charge (by nothing where the reservation had no limit). The bucket's ledger is right, time has not
  -- gone back, the retry grace does not overflow and neither do the counts with the final charge; so
  -- the subtraction in the correction never fails.
  pub settle_bucket-Corrects :
      (s : BucketState) (stats : RateLimitStoreStats)
      → s.last_touched_mono ≤ now.mono
      → IsLedger s
      → s.active_window ≡ some w
      → IsPending c s r
      → Corrects config c now w r (settle_bucket config c now s stats)
  unfolding settle_bucket touched purge_state
  settle_bucket-Corrects s stats order l active p =
      settle_purged-Corrects (touched now.mono s) (purge_stats now.mono s stats)
        (touched-IsLedger now.mono s order l)
        (ap (live_window now.mono) active ∙ live_window-running) (purged-IsPending s p)
