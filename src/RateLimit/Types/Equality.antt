-- ===== src/RateLimit/Types/Equality.antt =====
-- The derived `PartialEq` of the types in crates/kong-ai/src/ratelimit/types.rs and memory.rs.
use kong_rust.Common.{
  ℕ, ◌≡◌, ◌↔◌, Bool, true, false, ◌&&◌, Option, none, some, arith, nat_beq, ◌==◌, eq_iff, Keyed,
  string_keyed,
}
use kong_rust.RateLimit.Types.{
  RateLimitSubject, virtual_key, global, route, consumer, anonymous_consumer, RateLimitKey,
  WindowSpec, QuotaLimits, QuotaCharge, WindowIdentity, ReservationEnvelope, AdmitFingerprint,
}

abbrev pub same_option : Option ℕ → Option ℕ → Bool
same_option none none = true
same_option (some a) (some b) = nat_beq a b
same_option _ _ = false

abbrev pub same_subject : RateLimitSubject → RateLimitSubject → Bool
same_subject (virtual_key a) (virtual_key b) = nat_beq a b
same_subject global global = true
same_subject (route a) (route b) = nat_beq a b
same_subject (consumer a) (consumer b) = nat_beq a b
same_subject anonymous_consumer anonymous_consumer = true
same_subject _ _ = false

unfoldable pub same_key : RateLimitKey → RateLimitKey → Bool
same_key j k =
    nat_beq j.schema_version k.schema_version
    && (j.deployment_namespace == k.deployment_namespace && same_subject j.subject k.subject)

same_option_iff : (a b : Option ℕ) → (same_option a b ≡ true) ↔ (a ≡ b)
same_option_iff a b = ground arith

same_subject_iff : (a b : RateLimitSubject) → (same_subject a b ≡ true) ↔ (a ≡ b)
same_subject_iff a b = ground arith

pub same_key_iff : (j k : RateLimitKey) → (same_key j k ≡ true) ↔ (j ≡ k)
unfolding same_key
same_key_iff j k = ground (
  arith,
  eq_iff j.deployment_namespace k.deployment_namespace,
  same_subject_iff j.subject k.subject,
)

instance abbrev pub key_keyed : Keyed RateLimitKey
key_keyed = record { same = same_key; same_iff = same_key_iff }

unfoldable pub same_limits : QuotaLimits → QuotaLimits → Bool
same_limits a b = same_option a.requests b.requests && same_option a.tokens b.tokens

unfoldable pub same_charge : QuotaCharge → QuotaCharge → Bool
same_charge a b = nat_beq a.requests b.requests && nat_beq a.tokens b.tokens

unfoldable pub same_identity : WindowIdentity → WindowIdentity → Bool
same_identity a b = nat_beq a.id b.id && nat_beq a.generation b.generation

pub same_limits_iff : (a b : QuotaLimits) → (same_limits a b ≡ true) ↔ (a ≡ b)
unfolding same_limits
same_limits_iff a b =
    ground (arith, same_option_iff a.requests b.requests, same_option_iff a.tokens b.tokens)

pub same_charge_iff : (a b : QuotaCharge) → (same_charge a b ≡ true) ↔ (a ≡ b)
unfolding same_charge
same_charge_iff a b = ground arith

pub same_identity_iff : (a b : WindowIdentity) → (same_identity a b ≡ true) ↔ (a ≡ b)
unfolding same_identity
same_identity_iff a b = ground arith

-- There is one algorithm, so two windows differ by their durations only.
unfoldable pub same_fingerprint : AdmitFingerprint → AdmitFingerprint → Bool
same_fingerprint a b =
    nat_beq a.window.duration b.window.duration
    && (same_limits a.limits b.limits && same_charge a.reserve b.reserve)

same_spec : (a b : WindowSpec) → a.duration ≡ b.duration → a ≡ b
same_spec a b e = ground arith

pub same_fingerprint_iff : (a b : AdmitFingerprint) → (same_fingerprint a b ≡ true) ↔ (a ≡ b)
unfolding same_fingerprint
same_fingerprint_iff a b = ground (
  arith,
  same_spec a.window b.window,
  same_limits_iff a.limits b.limits,
  same_charge_iff a.reserve b.reserve,
)

unfoldable pub same_token : ReservationEnvelope → ReservationEnvelope → Bool
same_token a b =
    nat_beq a.schema_version b.schema_version
    && (nat_beq a.backend_instance_id b.backend_instance_id
        && (nat_beq a.reservation_id b.reservation_id
            && (a.request_id == b.request_id
                && (same_key a.key b.key
                    && (same_identity a.window b.window
                        && (same_limits a.limits_at_admission b.limits_at_admission
                            && same_charge a.reserved b.reserved))))))

pub same_token_iff : (a b : ReservationEnvelope) → (same_token a b ≡ true) ↔ (a ≡ b)
unfolding same_token
same_token_iff a b = ground (
  arith,
  eq_iff a.request_id b.request_id,
  same_key_iff a.key b.key,
  same_identity_iff a.window b.window,
  same_limits_iff a.limits_at_admission b.limits_at_admission,
  same_charge_iff a.reserved b.reserved,
)

pub same_identity_sym : (a b : WindowIdentity) → same_identity a b ≡ same_identity b a
unfolding same_identity
same_identity_sym a b = ground arith
