-- ===== src/RateLimit/Settled.antt =====
-- The branches of the settlement of crates/kong-ai/src/ratelimit/memory.rs: what holds of the outcome
-- of each branch holds of the outcome.
use kong_rust.Common.{
  ℕ, ◌≡◌, ◌∙◌, sym, ap, refl, Bool, true, false, not, ◌&&◌, ◌||◌, Option, none, some, ltb,
  if◌then◌else◌, Option-cases, Bool-cases, some_inj, inl, inr, ◌==◌, string_keyed,
}
use kong_rust.Common.Assoc.{lookup}
use kong_rust.RateLimit.Types.{
  SettleCommand, ReservationEnvelope, RateLimitSnapshot, AdmissionDecision, allowed, rejected,
  applied, replayed, RateLimitNow, MemoryRateLimitConfig, RateLimitStoreError, RateLimitStoreStats,
  SettlementRecord, SettlementResult, WindowState, AdmissionRecord, BucketState,
}
use kong_rust.RateLimit.Types.Equality.{same_token, same_token_iff, same_identity, same_charge}
use kong_rust.RateLimit.Window.{ok, err, fetch_add, adjusted_count, is_some, snapshot}
use kong_rust.RateLimit.Bucket.{Outcome}
use kong_rust.RateLimit.Settlement.{
  failed, settle_record, settle_applied, settle_stale, settle_open, settle_again, settle_token,
  settle_admission, settle_purged,
}
use kong_rust.RateLimit.Branches.{Result-cases}

-- A reservation that is recorded for the command and not settled yet.
pub record IsPending (c : SettleCommand) (s : BucketState) (r : AdmissionRecord) : Type 0 where
  pub found : lookup c.reservation.request_id s.admissions ≡ some r
  pub snap : RateLimitSnapshot
  pub again : Bool
  pub granted : r.decision ≡ allowed c.reservation snap again
  pub unsettled : r.settlement ≡ none

-- The active window is the one of the reservation, and runs.
abbrev pub meets : SettleCommand → RateLimitNow → WindowState → Bool
meets c now w = same_identity w.identity c.reservation.window && ltb now.mono w.reset_mono

module _ {ℓ} (P : Outcome SettlementResult → Type ℓ) (config : MemoryRateLimitConfig)
    (c : SettleCommand) (now : RateLimitNow) (s : BucketState) (stats : RateLimitStoreStats)
    (fails : (x : RateLimitStoreError) → P (record { state = s; stats = stats; result = err x }))
    (repeats : (done : SettlementRecord)
      → P (record {
        state = s;
        stats = record stats { settlement_replays = fetch_add stats.settlement_replays 1 };
        result = ok (record { disposition = replayed; snapshot = done.result.snapshot });
      }))
    (applies : (r : AdmissionRecord) (w : WindowState) (n t : ℕ)
      → IsPending c s r
      → s.active_window ≡ some w
      → meets c now w ≡ true
      → adjusted_count w.requests_used c.reservation.reserved.requests c.final_charge.requests
          (is_some c.reservation.limits_at_admission.requests)
          "request quota settlement arithmetic invalid"
        ≡ ok n
      → adjusted_count w.tokens_used c.reservation.reserved.tokens c.final_charge.tokens
          (is_some c.reservation.limits_at_admission.tokens)
          "token quota settlement arithmetic invalid"
        ≡ ok t
      → P (
          settle_record config c now r
            (record {
              disposition = applied;
              snapshot = some (
                  snapshot
                    (record w { requests_used = n; tokens_used = t })
                    c.reservation.limits_at_admission
                    now);
            })
            (record s { active_window = some (record w { requests_used = n; tokens_used = t }) })
            stats))
    (misses : (r : AdmissionRecord)
      → IsPending c s r
      → ((w : WindowState) → s.active_window ≡ some w → meets c now w ≡ false)
      → P (settle_stale config c now r s stats)) where
  settle_applied-elim :
      (r : AdmissionRecord) (w : WindowState)
      → IsPending c s r
      → s.active_window ≡ some w
      → meets c now w ≡ true
      → P (settle_applied config c now r w s stats)
  unfolding settle_applied
  settle_applied-elim r w p h same =
      elim (Result-cases (
        adjusted_count w.requests_used c.reservation.reserved.requests c.final_charge.requests
          (is_some c.reservation.limits_at_admission.requests)
          "request quota settlement arithmetic invalid")) [
            | inl (x, e) ↦ rw (settle_applied, e) (fails x)
            | inr (n, e) ↦
                rw (settle_applied, e)
                  (elim (Result-cases (
                    adjusted_count w.tokens_used c.reservation.reserved.tokens c.final_charge.tokens
                      (is_some c.reservation.limits_at_admission.tokens)
                      "token quota settlement arithmetic invalid")) [
                        | inl (x, f) ↦ rw f (fails x)
                        | inr (t, f) ↦ rw f (applies r w n t p h same e f)
                      ])
          ]

  settle_open-elim :
      (r : AdmissionRecord) → IsPending c s r → P (settle_open config c now r s stats)
  unfolding settle_open
  settle_open-elim r p = go s.active_window refl
    where
      go :
          (o : Option WindowState)
          → s.active_window ≡ o
          → P (elim o as (λ x. Outcome SettlementResult) [
            | none ↦ settle_stale config c now r s stats
            | some w ↦
                if same_identity w.identity c.reservation.window && ltb now.mono w.reset_mono
                then settle_applied config c now r w s stats
                else settle_stale config c now r s stats
          ])
      go none h = misses r p (λ w e. cc)
      go (some w) h = elim (Bool-cases (meets c now w)) [
        | inl b ↦ rw b (settle_applied-elim r w p h b)
        | inr b ↦ rw b (misses r p (λ v e. ap (meets c now) (sym (some_inj (sym h ∙ e))) ∙ b))
      ]

  settle_again-elim :
      (r : AdmissionRecord) (done : SettlementRecord) → P (settle_again config c now r done s stats)
  unfolding settle_again
  settle_again-elim r done =
      elim (Bool-cases (
        not (done.operation_id == c.operation_id)
        || not (same_charge done.final_charge c.final_charge))) [
          | inl h ↦ rw (settle_again, h) (fails _)
          | inr h ↦ rw (settle_again, h) (repeats done)
        ]

  settle_token-elim :
      (r : AdmissionRecord) (stored : ReservationEnvelope) {snap : RateLimitSnapshot} {again : Bool}
      → lookup c.reservation.request_id s.admissions ≡ some r
      → r.decision ≡ allowed stored snap again
      → P (settle_token config c now r stored s stats)
  unfolding settle_token
  settle_token-elim r stored {snap} {again} found granted =
      elim (Bool-cases (same_token stored c.reservation)) [
        | inr h ↦ rw (settle_token, h) (fails _)
        | inl h ↦
            rw (settle_token, h)
              (elim (Option-cases r.settlement) [
                | inr (done, e) ↦ rw e (settle_again-elim r done)
                | inl e ↦ rw e (
                    settle_open-elim r (record {
                      found = found;
                      snap = snap;
                      again = again;
                      granted =
                          granted
                          ∙ ap (λ x. allowed x snap again)
                              ((same_token_iff stored c.reservation).0 h);
                      unsettled = e;
                    }))
              ])
      ]

  settle_admission-elim :
      (r : AdmissionRecord)
      → lookup c.reservation.request_id s.admissions ≡ some r
      → P (settle_admission config c now r s stats)
  unfolding settle_admission
  settle_admission-elim r found = go r.decision refl
    where
      go :
          (d : AdmissionDecision)
          → r.decision ≡ d
          → P (elim d as (λ x. Outcome SettlementResult) [
            | rejected reason snap again ↦ failed s stats "rejected admission has no reservation"
            | allowed stored snap again ↦ settle_token config c now r stored s stats
          ])
      go (rejected reason snap again) h = fails _
      go (allowed stored snap again) h = settle_token-elim r stored found h

  pub settle_purged-elim : P (settle_purged config c now s stats)
  unfolding settle_purged
  settle_purged-elim = elim (Option-cases (lookup c.reservation.request_id s.admissions)) [
    | inl h ↦ rw (settle_purged, h) (fails _)
    | inr (r, h) ↦ rw (settle_purged, h) (settle_admission-elim r h)
  ]
