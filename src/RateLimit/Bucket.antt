-- ===== src/RateLimit/Bucket.antt =====
-- What `admit_once`, `settle_inner` and `inspect_inner` of crates/kong-ai/src/ratelimit/memory.rs do
-- to one bucket, from the moment that they hold its lock. The fresh UUIDs are arguments.
use kong_rust.Common.{
  ℕ, ◌-◌, Bool, true, false, not, ◌||◌, Option, none, some, if◌then◌else◌, ltb, leb, length,
  string_keyed,
}
use kong_rust.Common.Assoc.{lookup, insert}
use kong_rust.RateLimit.Types.{
  WindowSpec, ExceededDimension, requests, tokens, requests_and_tokens, ReservationEnvelope,
  AdmitCommand, AdmissionDecision, allowed, rejected, as_replayed, corrupt, RateLimitNow,
  MemoryRateLimitConfig, RateLimitStoreStats, WindowState, AdmitFingerprint, AdmissionRecord,
  BucketState,
}
use kong_rust.RateLimit.Types.Equality.{same_fingerprint}
use kong_rust.RateLimit.Window.{
  Result, ok, err, checked_add, fetch_add, fetch_sub, add_duration, try_reserve, is_some, snapshot,
  ensure_window, rollback_new_window, retention_duration, purge_state, purge_stats,
}

-- The bucket and the statistics after a call, and its result.
pub record Outcome {ℓ} (A : Type ℓ) : Type ℓ where
  pub state : BucketState
  pub stats : RateLimitStoreStats
  pub result : Result A

pub data AdmitAttempt : Type 0 where
  decision : AdmissionDecision → AdmitAttempt
  capacity : AdmitAttempt

pub record Fresh : Type 0 where
  pub window_id : ℕ
  pub reservation_id : ℕ

abbrev pub unreserve : RateLimitStoreStats → RateLimitStoreStats
unreserve stats = record stats { idempotency_records = fetch_sub stats.idempotency_records 1 }

abbrev pub exceeds : Option ℕ → ℕ → Bool
exceeds none candidate = false
exceeds (some limit) candidate = ltb limit candidate

-- The count that a dimension would reach: unchanged where it has no limit.
abbrev pub candidate : Option ℕ → ℕ → ℕ → Option ℕ
candidate none used reserve = some used
candidate (some limit) used reserve = checked_add used reserve

abbrev pub reason_of : Bool → Bool → ExceededDimension
reason_of true true = requests_and_tokens
reason_of true false = requests
reason_of false _ = tokens

abbrev pub fingerprint_of : AdmitCommand → AdmitFingerprint
fingerprint_of c = record { window = c.window; limits = c.limits; reserve = c.reserve }

abbrev pub record_of : AdmitCommand → AdmissionDecision → ℕ → AdmissionRecord
record_of c d retain_until = record {
  fingerprint = fingerprint_of c;
  decision = d;
  settlement = none;
  retain_until = retain_until;
}

abbrev pub envelope_of : ℕ → ℕ → AdmitCommand → WindowState → ReservationEnvelope
envelope_of instance_id reservation_id c w = record {
  schema_version = 1;
  backend_instance_id = instance_id;
  reservation_id = reservation_id;
  request_id = c.request_id;
  key = c.key;
  window = w.identity;
  limits_at_admission = c.limits;
  reserved = c.reserve;
}

module _ (config : MemoryRateLimitConfig) (instance_id : ℕ) (fresh : Fresh) (c : AdmitCommand)
    (now : RateLimitNow) (retain_until : ℕ) where
  -- The window has room in both dimensions: a live reservation is taken and recorded.
  unfoldable pub admit_allowed :
      Bool → WindowState → ℕ → ℕ → BucketState → RateLimitStoreStats → Outcome AdmitAttempt
  unfolding snapshot rollback_new_window
  admit_allowed created w requests_used tokens_used s stats =
      elim (try_reserve stats.live_reservations config.max_live_reservations) [
        | none ↦ record {
          state = rollback_new_window s created;
          stats = unreserve stats;
          result = ok capacity;
        }
        | some live ↦
            let w' = record w { requests_used = requests_used; tokens_used = tokens_used } in
            let d =
              allowed (envelope_of instance_id fresh.reservation_id c w) (snapshot w' c.limits now)
                false in
            record {
              state = record s {
                active_window = some w';
                admissions = insert c.request_id (record_of c d retain_until) s.admissions;
              };
              stats = record stats {
                live_reservations = live;
                admissions_allowed = fetch_add stats.admissions_allowed 1;
              };
              result = ok (decision d);
            }
      ]

  -- A limit would be exceeded: the rejection is recorded and the counts stay.
  unfoldable pub admit_rejected :
      ExceededDimension → WindowState → BucketState → RateLimitStoreStats → Outcome AdmitAttempt
  unfolding snapshot
  admit_rejected reason w s stats =
      let d = rejected reason (snapshot w c.limits now) false in
      record {
        state = record s {
          admissions = insert c.request_id (record_of c d retain_until) s.admissions;
        };
        stats = record stats {
          rejected_records = fetch_add stats.rejected_records 1;
          admissions_rejected = fetch_add stats.admissions_rejected 1;
        };
        result = ok (decision d);
      }

  -- The counts against the limits.
  unfoldable pub admit_counts :
      Bool → WindowState → BucketState → RateLimitStoreStats → Outcome AdmitAttempt
  unfolding admit_allowed admit_rejected rollback_new_window
  admit_counts created w s stats =
      elim (candidate c.limits.requests w.requests_used c.reserve.requests) [
        | none ↦ record {
          state = rollback_new_window s created;
          stats = unreserve stats;
          result = err (corrupt "request quota counter overflow");
        }
        | some r ↦ elim (candidate c.limits.tokens w.tokens_used c.reserve.tokens) [
          | none ↦ record {
            state = rollback_new_window s created;
            stats = unreserve stats;
            result = err (corrupt "token quota counter overflow");
          }
          | some t ↦
              if exceeds c.limits.requests r || exceeds c.limits.tokens t
              then admit_rejected
                  (reason_of (exceeds c.limits.requests r) (exceeds c.limits.tokens t)) w s stats
              else admit_allowed created w r t s stats
        ]
      ]

  -- With a record reserved, the window is made if there is none.
  unfoldable pub admit_window : BucketState → RateLimitStoreStats → Outcome AdmitAttempt
  unfolding ensure_window admit_counts
  admit_window s stats = elim (ensure_window fresh.window_id s c.window now) [
    | err e ↦ record { state = s; stats = unreserve stats; result = err e }
    | ok (s', w) ↦ admit_counts (not (is_some s.active_window)) w s' stats
  ]

abbrev pub effective_window : Option WindowState → WindowSpec → WindowSpec
effective_window none spec = spec
effective_window (some w) spec = w.spec

module _ (config : MemoryRateLimitConfig) (instance_id : ℕ) (fresh : Fresh) (c : AdmitCommand)
    (now : RateLimitNow) where
  -- A request that the bucket has no record of.
  unfoldable pub admit_new : BucketState → RateLimitStoreStats → Outcome AdmitAttempt
  unfolding retention_duration admit_window
  admit_new s stats = elim (retention_duration (effective_window s.active_window c.window) config) [
    | err e ↦ record { state = s; stats = stats; result = err e }
    | ok retention ↦ elim (add_duration now.mono retention) [
      | none ↦ record {
        state = s;
        stats = stats;
        result = err (corrupt "idempotency retention overflow");
      }
      | some retain_until ↦
          if leb config.max_records_per_bucket (length s.admissions)
          then record { state = s; stats = stats; result = ok capacity }
          else elim (try_reserve stats.idempotency_records
              (config.max_idempotency_records - config.recovery_record_headroom)) [
                | none ↦ record { state = s; stats = stats; result = ok capacity }
                | some n ↦
                    admit_window config instance_id fresh c now retain_until s
                      (record stats { idempotency_records = n })
              ]
    ]
  ]

  -- A request that the bucket has a record of: the same command gets the same decision again.
  unfoldable pub admit_known :
      AdmissionRecord → BucketState → RateLimitStoreStats → Outcome AdmitAttempt
  unfolding same_fingerprint as_replayed
  admit_known r s stats =
      if not (same_fingerprint r.fingerprint (fingerprint_of c))
      then record {
        state = s;
        stats = stats;
        result = err (corrupt "admit idempotency payload conflict");
      }
      else record {
        state = s;
        stats = record stats { admission_replays = fetch_add stats.admission_replays 1 };
        result = ok (decision (as_replayed r.decision));
      }

  unfoldable pub admit_purged : BucketState → RateLimitStoreStats → Outcome AdmitAttempt
  unfolding admit_known admit_new
  admit_purged s stats = elim (lookup c.request_id s.admissions) [
    | none ↦ admit_new s stats
    | some r ↦ admit_known r s stats
  ]

-- `state.last_touched_mono = now.mono; self.purge_expired(…)`.
unfoldable pub touched : ℕ → BucketState → BucketState
unfolding purge_state
touched now s = purge_state now (record s { last_touched_mono = now })

unfoldable pub admit_bucket :
    MemoryRateLimitConfig
    → ℕ
    → Fresh
    → AdmitCommand
    → RateLimitNow
    → BucketState
    → RateLimitStoreStats
    → Outcome AdmitAttempt
unfolding touched purge_stats admit_purged
admit_bucket config instance_id fresh c now s stats =
    admit_purged config instance_id fresh c now (touched now.mono s) (purge_stats now.mono s stats)
