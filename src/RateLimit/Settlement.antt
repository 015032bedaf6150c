-- ===== src/RateLimit/Settlement.antt =====
-- What `settle_inner` and `inspect_inner` of crates/kong-ai/src/ratelimit/memory.rs do to one bucket,
-- from the moment that they hold its lock.
use kong_rust.Common.{
  ℕ, max, String, not, ◌&&◌, ◌||◌, none, some, if◌then◌else◌, ltb, ◌==◌, string_keyed,
}
use kong_rust.Common.Assoc.{lookup, insert}
use kong_rust.RateLimit.Types.{
  WindowSpec, QuotaLimits, RateLimitSnapshot, ReservationEnvelope, AdmissionDecision, allowed,
  rejected, as_replayed, SettleCommand, SettlementDisposition, applied, stale_window_noop, replayed,
  SettlementResult, corrupt, RateLimitNow, MemoryRateLimitConfig, RateLimitStoreStats, WindowState,
  SettlementRecord, AdmissionRecord, BucketState,
}
use kong_rust.RateLimit.Types.Equality.{same_token, same_identity, same_charge}
use kong_rust.RateLimit.Window.{
  Result, ok, err, fetch_add, fetch_sub, add_duration, adjusted_count, is_some, snapshot,
  prospective_snapshot, purge_stats,
}
use kong_rust.RateLimit.Bucket.{Outcome, touched}

pub data InspectResult : Type 0 where
  not_found : InspectResult
  current : RateLimitSnapshot → InspectResult
  admission : AdmissionDecision → InspectResult
  settlement : SettlementResult → InspectResult

abbrev pub failed : BucketState → RateLimitStoreStats → String → Outcome SettlementResult
failed s stats message = record { state = s; stats = stats; result = err (corrupt message) }

abbrev pub if_applied : SettlementDisposition → ℕ
if_applied applied = 1
if_applied stale_window_noop = 0
if_applied replayed = 0

abbrev pub if_stale : SettlementDisposition → ℕ
if_stale applied = 0
if_stale stale_window_noop = 1
if_stale replayed = 0

module _ (config : MemoryRateLimitConfig) (c : SettleCommand) (now : RateLimitNow)
    (r : AdmissionRecord) where
  -- The record of the settlement, written once the counts are right.
  unfoldable pub settle_record :
      SettlementResult → BucketState → RateLimitStoreStats → Outcome SettlementResult
  settle_record result s stats = elim (add_duration now.mono config.settlement_retry_grace) [
    | none ↦ failed s stats "settlement retention overflow"
    | some retry_until ↦ record {
      state = record s {
        admissions =
            insert c.reservation.request_id
              (record r {
                retain_until = max r.retain_until retry_until;
                settlement = some (record {
                  operation_id = c.operation_id;
                  final_charge = c.final_charge;
                  result = result;
                });
              })
              s.admissions;
      };
      stats = record stats {
        live_reservations = fetch_sub stats.live_reservations 1;
        recovery_records = fetch_add stats.recovery_records 1;
        settlements_applied = fetch_add stats.settlements_applied (if_applied result.disposition);
        settlements_stale = fetch_add stats.settlements_stale (if_stale result.disposition);
      };
      result = ok result;
    }
  ]

  -- The reservation's window is the active one: its counts are corrected.
  unfoldable pub settle_applied :
      WindowState → BucketState → RateLimitStoreStats → Outcome SettlementResult
  unfolding adjusted_count snapshot settle_record
  settle_applied w s stats =
      let e = c.reservation in
      elim (adjusted_count w.requests_used e.reserved.requests c.final_charge.requests
        (is_some e.limits_at_admission.requests) "request quota settlement arithmetic invalid") [
          | err x ↦ record { state = s; stats = stats; result = err x }
          | ok n ↦
              elim (adjusted_count w.tokens_used e.reserved.tokens c.final_charge.tokens
                (is_some e.limits_at_admission.tokens)
                "token quota settlement arithmetic invalid") [
                  | err x ↦ record { state = s; stats = stats; result = err x }
                  | ok t ↦
                      let w' = record w { requests_used = n; tokens_used = t } in
                      settle_record
                        (record {
                          disposition = applied;
                          snapshot = some (snapshot w' e.limits_at_admission now);
                        })
                        (record s { active_window = some w' }) stats
                ]
        ]

  -- The window of the reservation is over: nothing is corrected.
  unfoldable pub settle_stale : BucketState → RateLimitStoreStats → Outcome SettlementResult
  unfolding settle_record
  settle_stale s stats =
      settle_record (record { disposition = stale_window_noop; snapshot = none }) s stats

  unfoldable pub settle_open : BucketState → RateLimitStoreStats → Outcome SettlementResult
  unfolding settle_applied settle_stale same_identity
  settle_open s stats = elim s.active_window [
    | none ↦ settle_stale s stats
    | some w ↦
        if same_identity w.identity c.reservation.window && ltb now.mono w.reset_mono
        then settle_applied w s stats
        else settle_stale s stats
  ]

  -- A settlement that is there already is answered again, if it is the same one.
  unfoldable pub settle_again :
      SettlementRecord → BucketState → RateLimitStoreStats → Outcome SettlementResult
  unfolding same_charge
  settle_again done s stats =
      if not (done.operation_id == c.operation_id)
        || not (same_charge done.final_charge c.final_charge)
      then failed s stats "settlement idempotency payload conflict"
      else record {
        state = s;
        stats = record stats { settlement_replays = fetch_add stats.settlement_replays 1 };
        result = ok (record { disposition = replayed; snapshot = done.result.snapshot });
      }

  unfoldable pub settle_token :
      ReservationEnvelope → BucketState → RateLimitStoreStats → Outcome SettlementResult
  unfolding same_token settle_again settle_open
  settle_token stored s stats =
      if not (same_token stored c.reservation)
      then failed s stats "reservation token does not match admission"
      else elim r.settlement [ some done ↦ settle_again done s stats | none ↦ settle_open s stats ]

  unfoldable pub settle_admission : BucketState → RateLimitStoreStats → Outcome SettlementResult
  unfolding settle_token
  settle_admission s stats = elim r.decision [
    | rejected reason snap again ↦ failed s stats "rejected admission has no reservation"
    | allowed stored snap again ↦ settle_token stored s stats
  ]

unfoldable pub settle_purged :
    MemoryRateLimitConfig
    → SettleCommand
    → RateLimitNow
    → BucketState
    → RateLimitStoreStats
    → Outcome SettlementResult
unfolding settle_admission
settle_purged config c now s stats = elim (lookup c.reservation.request_id s.admissions) [
  | none ↦ failed s stats "reservation admission not found"
  | some r ↦ settle_admission config c now r s stats
]

unfoldable pub settle_bucket :
    MemoryRateLimitConfig
    → SettleCommand
    → RateLimitNow
    → BucketState
    → RateLimitStoreStats
    → Outcome SettlementResult
unfolding touched purge_stats settle_purged
settle_bucket config c now s stats =
    settle_purged config c now (touched now.mono s) (purge_stats now.mono s stats)

abbrev answer : Result RateLimitSnapshot → Result InspectResult
answer (ok snap) = ok (current snap)
answer (err e) = err e

unfoldable pub inspect_current :
    WindowSpec
    → QuotaLimits
    → RateLimitNow
    → BucketState
    → RateLimitStoreStats
    → Outcome InspectResult
unfolding touched purge_stats snapshot prospective_snapshot
inspect_current window limits now s stats =
    let s' = touched now.mono s in
    record {
      state = s';
      stats = purge_stats now.mono s stats;
      result = elim s'.active_window [
        | some w ↦ ok (current (snapshot w limits now))
        | none ↦ answer (prospective_snapshot window limits now)
      ];
    }

unfoldable pub inspect_admission :
    String → RateLimitNow → BucketState → RateLimitStoreStats → Outcome InspectResult
unfolding touched purge_stats as_replayed
inspect_admission request_id now s stats =
    let s' = touched now.mono s in
    record {
      state = s';
      stats = purge_stats now.mono s stats;
      result = elim (lookup request_id s'.admissions) [
        | some r ↦ ok (admission (as_replayed r.decision))
        | none ↦ ok not_found
      ];
    }

unfoldable pub found_settlement :
    ReservationEnvelope → String → AdmissionRecord → Result InspectResult
unfolding same_token
found_settlement reservation operation_id r = elim r.decision [
  | rejected reason snap again ↦ err (corrupt "rejected admission has no reservation")
  | allowed stored snap again ↦
      if not (same_token stored reservation)
      then err (corrupt "reservation token does not match admission")
      else elim r.settlement [
        | none ↦ ok not_found
        | some done ↦
            if done.operation_id == operation_id then ok (settlement done.result) else ok not_found
      ]
]

unfoldable pub inspect_settlement :
    ReservationEnvelope
    → String
    → RateLimitNow
    → BucketState
    → RateLimitStoreStats
    → Outcome InspectResult
unfolding touched purge_stats found_settlement
inspect_settlement reservation operation_id now s stats =
    let s' = touched now.mono s in
    record {
      state = s';
      stats = purge_stats now.mono s stats;
      result = elim (lookup reservation.request_id s'.admissions) [
        | none ↦ ok not_found
        | some r ↦ found_settlement reservation operation_id r
      ];
    }
