-- ===== src/RateLimit/Ledger.antt =====
-- The ledger of a bucket of crates/kong-ai/src/ratelimit/memory.rs: the counts of the active window
-- are the sums of what its records charge.
use kong_rust.Common.{
  ℕ, ◌+◌, ◌≤◌, ◌<◌, ◌≡◌, ◌∙◌, refl, sym, Bool, true, false, not, ◌&&◌, ◌||◌, Option, none, some,
  arith, if◌then◌else◌, ltb, leb, Bool-cases, inl, inr,
}
use kong_rust.RateLimit.Types.{
  QuotaLimits, QuotaCharge, WindowIdentity, AdmissionDecision, allowed, rejected, WindowState,
  SettlementRecord, AdmissionRecord, BucketState,
}
use kong_rust.RateLimit.Types.Equality.{same_identity}
use kong_rust.RateLimit.Window.{is_some, removable, retained, retain, live_window, purge_state}
use kong_rust.RateLimit.Bucket.{touched}
use kong_rust.RateLimit.Sums.{Records, total, Each, total-retain, Each-retain, Each-map}

-- The two dimensions: requests and tokens in a window.
pub data Dimension : Type 0 where
  rpm tpm : Dimension

abbrev pub limit_in : Dimension → QuotaLimits → Option ℕ
limit_in rpm l = l.requests
limit_in tpm l = l.tokens

abbrev pub charge_in : Dimension → QuotaCharge → ℕ
charge_in rpm c = c.requests
charge_in tpm c = c.tokens

abbrev pub used_in : Dimension → WindowState → ℕ
used_in rpm w = w.requests_used
used_in tpm w = w.tokens_used

abbrev pub belongs : WindowIdentity → AdmissionDecision → Bool
belongs ident (allowed e snap again) = same_identity e.window ident
belongs ident (rejected reason snap again) = false

abbrev pub limited : Dimension → AdmissionDecision → Bool
limited d (allowed e snap again) = is_some (limit_in d e.limits_at_admission)
limited d (rejected reason snap again) = false

abbrev pub reserved_in : Dimension → AdmissionDecision → ℕ
reserved_in d (allowed e snap again) = charge_in d e.reserved
reserved_in d (rejected reason snap again) = 0

abbrev pub final_in : Dimension → AdmissionDecision → Option SettlementRecord → ℕ
final_in d a none = reserved_in d a
final_in d a (some st) = charge_in d st.final_charge

-- What a record charges to a window: its final charge once settled, before that what it reserved;
-- nothing in a dimension without a limit.
unfoldable pub share : Dimension → WindowIdentity → AdmissionRecord → ℕ
share d ident r =
    if belongs ident r.decision && limited d r.decision
    then final_in d r.decision r.settlement
    else 0

abbrev pub age : AdmissionDecision → ℕ
age (allowed e snap again) = e.window.generation
age (rejected reason snap again) = 0

-- The counts of a window are the sums of the shares, and its records outlive it.
pub record Kept (w : WindowState) (m : Records) (touched_at generation : ℕ) : Type 0 where
  pub counts : (d : Dimension) → used_in d w ≡ total (share d w.identity) m
  pub covered : Each (λ r. belongs w.identity r.decision ≡ true → w.reset_mono ≤ r.retain_until) m
  pub timed : w.reset_mono ≤ touched_at + w.spec.duration
  pub numbered : w.identity.generation ≤ generation

abbrev pub KeptIn : Option WindowState → Records → ℕ → ℕ → Type 0
KeptIn none m t g = Unit {0}
KeptIn (some w) m t g = Kept w m t g

pub record IsLedger (s : BucketState) : Type 0 where
  pub kept : KeptIn s.active_window s.admissions s.last_touched_mono s.generation
  pub aged : Each (λ r. age r.decision ≤ s.generation) s.admissions

late : (b : Bool) (now until : ℕ) → (b || ltb now until) ≡ false → ¬ (now < until)
late b now until h l = ground arith

-- A record that the purge removes while its window runs charged nothing to it.
unretained_share :
    (d : Dimension) (w : WindowState) (now : ℕ) (r : AdmissionRecord)
    → now < w.reset_mono
    → (belongs w.identity r.decision ≡ true → w.reset_mono ≤ r.retain_until)
    → retained now r ≡ false
    → share d w.identity r ≡ 0
unfolding share
unretained_share d w now r early covers h = elim (Bool-cases (belongs w.identity r.decision)) [
  | inl t ↦ absurd (late (not (removable r)) now r.retain_until h (omega (arith, covers t)))
  | inr t ↦ rw t refl
]

purge-Kept :
    (w : WindowState) (m : Records) (t later g now : ℕ)
    → t ≤ later
    → now < w.reset_mono
    → Kept w m t g
    → Kept w (retain now m) later g
purge-Kept w m t later g now order early k = record {
  counts = λ d.
      k.counts d
      ∙ sym (
          total-retain (share d w.identity) now m
            (Each-map (λ r c. unretained_share d w now r early c) m k.covered));
  covered =
      Each-retain (λ r. belongs w.identity r.decision ≡ true → w.reset_mono ≤ r.retain_until) now m
        k.covered;
  timed = omega (arith, k.timed);
  numbered = k.numbered;
}

live-Kept :
    (o : Option WindowState) (m : Records) (t later g now : ℕ)
    → t ≤ later
    → KeptIn o m t g
    → KeptIn (live_window now o) (retain now m) later g
unfolding live_window
live-Kept none m t later g now order k = tt
live-Kept (some w) m t later g now order k = elim (Bool-cases (leb w.reset_mono now)) [
  | inl e ↦ rw e tt
  | inr e ↦ rw e (purge-Kept w m t later g now order (ground arith) k)
]

-- The purge at the start of each call keeps the ledger, if time has not gone back.
pub touched-IsLedger :
    (now : ℕ) (s : BucketState) → s.last_touched_mono ≤ now → IsLedger s → IsLedger (touched now s)
unfolding touched purge_state
touched-IsLedger now s order l = record {
  kept =
      live-Kept s.active_window s.admissions s.last_touched_mono now s.generation now order l.kept;
  aged = Each-retain (λ r. age r.decision ≤ s.generation) now s.admissions l.aged;
}

-- The purge of the cleanup keeps it at any time.
pub purge_state-IsLedger : (now : ℕ) (s : BucketState) → IsLedger s → IsLedger (purge_state now s)
unfolding purge_state
purge_state-IsLedger now s l = record {
  kept =
      live-Kept s.active_window s.admissions s.last_touched_mono s.last_touched_mono s.generation
        now (omega arith) l.kept;
  aged = Each-retain (λ r. age r.decision ≤ s.generation) now s.admissions l.aged;
}
