-- ===== src/RateLimit/Tests.antt =====
-- Runs of the in-process quota store on one bucket, and its theorems at concrete calls.
use kong_rust.Common.{◌+◌, ◌≤◌, ◌<◌, ◌≡◌, refl, true, false, some, arith, string_keyed}
use kong_rust.Common.Assoc.{lookup, insert}
use kong_rust.RateLimit.Types.{
  BucketState, global, RateLimitKey, fixed_first_hit, ReservationEnvelope, RateLimitSnapshot,
  AdmitCommand, allowed, SettleCommand, SettlementResult, applied, replayed, RateLimitNow,
  MemoryRateLimitConfig, RateLimitStoreStats, WindowState,
}
use kong_rust.RateLimit.Types.Equality.{same_key, same_limits}
use kong_rust.RateLimit.Window.{ok, snapshot, purge_state}
use kong_rust.RateLimit.Bucket.{
  Fresh, Outcome, AdmitAttempt, decision, envelope_of, record_of, touched, admit_bucket,
}
use kong_rust.RateLimit.Settlement.{settle_bucket}
use kong_rust.RateLimit.Sums.{total}
use kong_rust.RateLimit.Ledger.{Dimension, charge_in, rpm, tpm, share, used_in, IsLedger}
use kong_rust.RateLimit.Decision.{admit_bucket-IsLedger}
use kong_rust.RateLimit.Limits.{admit_bucket-limit}
use kong_rust.RateLimit.Settled.{IsPending}
use kong_rust.RateLimit.Pending.{at_once, then_admit, then_cleanup}
use kong_rust.RateLimit.Replay.{admit_bucket-admit_bucket, settle_bucket-settle_bucket}
use kong_rust.RateLimit.Correction.{Corrects, settle_bucket-Corrects}
use kong_rust.RateLimit.Reach.{new_bucket, created, after_admit, after_settle, Reachable-IsLedger}

-- `MemoryRateLimitConfig::default()`.
abbrev config : MemoryRateLimitConfig
config = record {
  max_buckets = 100000;
  max_idempotency_records = 2000000;
  max_records_per_bucket = 100000;
  max_live_reservations = 200000;
  recovery_record_headroom = 50000;
  max_request_lifetime = 900000000000;
  settlement_retry_grace = 300000000000;
  cleanup_interval = 30000000000;
  cleanup_scan_batch = 4096;
}

abbrev no_stats : RateLimitStoreStats
no_stats = record {
  buckets = 1;
  idempotency_records = 0;
  live_reservations = 0;
  rejected_records = 0;
  recovery_records = 0;
  admissions_allowed = 0;
  admissions_rejected = 0;
  admission_replays = 0;
  settlements_applied = 0;
  settlements_stale = 0;
  settlement_replays = 0;
  overloads = 0;
  cleanup_runs = 0;
  cleanup_records_removed = 0;
  cleanup_buckets_removed = 0;
}

abbrev key : RateLimitKey
key = record { schema_version = 1; deployment_namespace = "prod"; subject = global }

-- One minute, at most two requests and 100 tokens, of which a request reserves 60.
abbrev command : AdmitCommand
command = record {
  request_id = "r1";
  key = key;
  window = record { algorithm = fixed_first_hit; duration = 60000000000 };
  limits = record { requests = some 2; tokens = some 100 };
  reserve = record { requests = 1; tokens = 60 };
}

abbrev fresh : Fresh
fresh = record { window_id = 7; reservation_id = 8 }

abbrev start : RateLimitNow
start = record { mono = 1000; wall = 5000 }

abbrev later : RateLimitNow
later = record { mono = 2000; wall = 6000 }

abbrev first : Outcome AdmitAttempt
first = admit_bucket config 1 fresh command start new_bucket no_stats

abbrev window : WindowState
window = record {
  identity = record { id = 7; generation = 1 };
  spec = command.window;
  started_wall = 5000;
  reset_mono = 60000001000;
  reset_wall = 60000005000;
  requests_used = 1;
  tokens_used = 60;
}

abbrev envelope : ReservationEnvelope
envelope = envelope_of 1 8 command window

abbrev snap : RateLimitSnapshot
snap = snapshot window command.limits start

first-granted : first.result ≡ ok (decision (allowed envelope snap false))
unfolding admit_bucket snapshot lookup
first-granted = refl

-- The request used 40 tokens in the end.
abbrev correction : SettleCommand
correction = record {
  operation_id = "op1";
  reservation = envelope;
  final_charge = record { requests = 1; tokens = 40 };
}

abbrev corrected : SettlementResult
corrected = record {
  disposition = applied;
  snapshot = some (snapshot (record window { tokens_used = 40 }) command.limits later);
}

abbrev second : Outcome SettlementResult
second = settle_bucket config correction later first.state no_stats

second-corrected : second.result ≡ ok corrected
unfolding admit_bucket settle_bucket snapshot lookup insert purge_state same_key same_limits
second-corrected = refl

new_bucket-IsLedger : IsLedger new_bucket
new_bucket-IsLedger = record { kept = tt; aged = tt }

first-IsLedger : IsLedger first.state
first-IsLedger =
    admit_bucket-IsLedger config 1 fresh command start new_bucket no_stats (omega arith)
      new_bucket-IsLedger

pending :
    IsPending correction first.state (record_of command (allowed envelope snap false) 1260000001000)
unfolding admit_bucket snapshot lookup insert purge_state
pending = record { found = refl; snap = snap; again = false; granted = refl; unsettled = refl }

first-window : first.state.active_window ≡ some window
unfolding admit_bucket snapshot lookup
first-window = refl

first-touched : first.state.last_touched_mono ≤ later.mono
unfolding admit_bucket snapshot lookup
first-touched = omega arith

Reachable-IsLedger_example : IsLedger second.state
Reachable-IsLedger_example = Reachable-IsLedger config 1 (
    after_settle (after_admit created fresh command start no_stats (omega arith)) correction later
      no_stats first-touched (omega arith))

admit_bucket-limit_example : total (share tpm envelope.window) first.state.admissions ≤ 100
admit_bucket-limit_example =
    admit_bucket-limit config 1 fresh command start new_bucket no_stats envelope snap tpm 100
      (omega arith) new_bucket-IsLedger first-granted refl

-- Another request is admitted, and a cleanup runs, before the first one is asked again.
abbrev between : BucketState
between =
    purge_state 1800
      (admit_bucket config 1 fresh (record command { request_id = "r2" })
        (record { mono = 1500; wall = 5500 }) first.state no_stats).state

admit_bucket-admit_bucket_example :
    ((admit_bucket config 1 fresh command later between no_stats).result
      ≡ ok (decision (allowed envelope snap true)))
    × ((admit_bucket config 1 fresh command later between no_stats).state
        ≡ touched later.mono between)
admit_bucket-admit_bucket_example =
    admit_bucket-admit_bucket config 1 command fresh fresh start later new_bucket between no_stats
      no_stats envelope snap first-granted
      (then_cleanup
        (then_admit at_once fresh (record command { request_id = "r2" })
          (record { mono = 1500; wall = 5500 }) no_stats)
        1800)

settle_bucket-settle_bucket_example :
    ((settle_bucket config correction later second.state no_stats).result
      ≡ ok (record { disposition = replayed; snapshot = corrected.snapshot }))
    × ((settle_bucket config correction later second.state no_stats).state
        ≡ touched later.mono second.state)
settle_bucket-settle_bucket_example =
    settle_bucket-settle_bucket config correction later (omega arith) later first.state no_stats
      no_stats corrected (omega arith) second-corrected (λ e. cc)

small_charge :
    (d : Dimension) → used_in d window + charge_in d correction.final_charge < 18446744073709551616
small_charge rpm = omega arith
small_charge tpm = omega arith

settle_bucket-Corrects_example :
    Corrects config correction later window
      (record_of command (allowed envelope snap false) 1260000001000)
      second
settle_bucket-Corrects_example =
    settle_bucket-Corrects config correction later (omega arith)
      (record_of command (allowed envelope snap false) 1260000001000) window (omega arith) refl
      small_charge first.state no_stats first-touched first-IsLedger first-window pending
