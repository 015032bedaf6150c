-- ===== src/RateLimit/Types.antt =====
-- The commands, decisions, records and statistics of crates/kong-ai/src/ratelimit (types.rs,
-- store.rs, metrics.rs, clock.rs, and the state that memory.rs keeps).
--
-- A UUID is a number. A `Duration` or a monotonic time is a number of nanoseconds below 2 ^ 64
-- seconds, a `SystemTime` one below 2 ^ 63 seconds after the epoch.
pub mod Equality
use kong_rust.Common.{ℕ, String, Bool, true, false, Option, none, some, List}

pub data RateLimitSubject : Type 0 where
  virtual_key : ℕ → RateLimitSubject
  global : RateLimitSubject
  route : ℕ → RateLimitSubject
  consumer : ℕ → RateLimitSubject
  anonymous_consumer : RateLimitSubject

pub record RateLimitKey : Type 0 where
  pub schema_version : ℕ
  pub deployment_namespace : String
  pub subject : RateLimitSubject

pub data WindowAlgorithm : Type 0 where
  fixed_first_hit : WindowAlgorithm

pub record WindowSpec : Type 0 where
  pub algorithm : WindowAlgorithm
  pub duration : ℕ

pub record QuotaLimits : Type 0 where
  pub requests : Option ℕ
  pub tokens : Option ℕ

pub record QuotaCharge : Type 0 where
  pub requests : ℕ
  pub tokens : ℕ

pub record WindowIdentity : Type 0 where
  pub id : ℕ
  pub generation : ℕ

pub record WindowSnapshot : Type 0 where
  pub identity : Option WindowIdentity
  pub algorithm : WindowAlgorithm
  pub duration : ℕ
  pub started_at : ℕ
  pub reset_at : ℕ
  pub reset_after : ℕ

pub record DimensionSnapshot : Type 0 where
  pub limit : ℕ
  pub used : ℕ
  pub remaining : ℕ

pub record RateLimitSnapshot : Type 0 where
  pub window : WindowSnapshot
  pub requests : Option DimensionSnapshot
  pub tokens : Option DimensionSnapshot

pub data ExceededDimension : Type 0 where
  requests tokens requests_and_tokens : ExceededDimension

-- The token of a reservation is its envelope.
pub record ReservationEnvelope : Type 0 where
  pub schema_version : ℕ
  pub backend_instance_id : ℕ
  pub reservation_id : ℕ
  pub request_id : String
  pub key : RateLimitKey
  pub window : WindowIdentity
  pub limits_at_admission : QuotaLimits
  pub reserved : QuotaCharge

pub record AdmitCommand : Type 0 where
  pub request_id : String
  pub key : RateLimitKey
  pub window : WindowSpec
  pub limits : QuotaLimits
  pub reserve : QuotaCharge

pub data AdmissionDecision : Type 0 where
  allowed : ReservationEnvelope → RateLimitSnapshot → Bool → AdmissionDecision
  rejected : ExceededDimension → RateLimitSnapshot → Bool → AdmissionDecision

unfoldable pub as_replayed : AdmissionDecision → AdmissionDecision
as_replayed (allowed reservation snapshot replayed) = allowed reservation snapshot true
as_replayed (rejected reason snapshot replayed) = rejected reason snapshot true

pub record SettleCommand : Type 0 where
  pub operation_id : String
  pub reservation : ReservationEnvelope
  pub final_charge : QuotaCharge

pub data SettlementDisposition : Type 0 where
  applied stale_window_noop replayed : SettlementDisposition

pub record SettlementResult : Type 0 where
  pub disposition : SettlementDisposition
  pub snapshot : Option RateLimitSnapshot

-- The two kinds of error that the memory store makes, with their messages.
pub data RateLimitStoreError : Type 0 where
  corrupt : String → RateLimitStoreError
  overloaded : String → RateLimitStoreError

pub record RateLimitNow : Type 0 where
  pub mono : ℕ
  pub wall : ℕ

pub record MemoryRateLimitConfig : Type 0 where
  pub max_buckets : ℕ
  pub max_idempotency_records : ℕ
  pub max_records_per_bucket : ℕ
  pub max_live_reservations : ℕ
  pub recovery_record_headroom : ℕ
  pub max_request_lifetime : ℕ
  pub settlement_retry_grace : ℕ
  pub cleanup_interval : ℕ
  pub cleanup_scan_batch : ℕ

pub record RateLimitStoreStats : Type 0 where
  pub buckets : ℕ
  pub idempotency_records : ℕ
  pub live_reservations : ℕ
  pub rejected_records : ℕ
  pub recovery_records : ℕ
  pub admissions_allowed : ℕ
  pub admissions_rejected : ℕ
  pub admission_replays : ℕ
  pub settlements_applied : ℕ
  pub settlements_stale : ℕ
  pub settlement_replays : ℕ
  pub overloads : ℕ
  pub cleanup_runs : ℕ
  pub cleanup_records_removed : ℕ
  pub cleanup_buckets_removed : ℕ

pub record WindowState : Type 0 where
  pub identity : WindowIdentity
  pub spec : WindowSpec
  pub started_wall : ℕ
  pub reset_mono : ℕ
  pub reset_wall : ℕ
  pub requests_used : ℕ
  pub tokens_used : ℕ

pub record AdmitFingerprint : Type 0 where
  pub window : WindowSpec
  pub limits : QuotaLimits
  pub reserve : QuotaCharge

pub record SettlementRecord : Type 0 where
  pub operation_id : String
  pub final_charge : QuotaCharge
  pub result : SettlementResult

pub record AdmissionRecord : Type 0 where
  pub fingerprint : AdmitFingerprint
  pub decision : AdmissionDecision
  pub settlement : Option SettlementRecord
  pub retain_until : ℕ

pub record BucketState : Type 0 where
  pub active_window : Option WindowState
  pub generation : ℕ
  pub admissions : List (String × AdmissionRecord)
  pub last_touched_mono : ℕ
