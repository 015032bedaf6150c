-- ===== src/RateLimit/Settle.antt =====
-- Settlements of crates/kong-ai/src/ratelimit/memory.rs keep the ledger of their bucket.
use mathlib.Core.Path.{subst}
use kong_rust.Common.{
  ℕ, ◌+◌, ◌≤◌, ◌<◌, ◌≡◌, ◌∙◌, ap, sym, refl, max, String, Bool, true, false, ◌&&◌, Option, none,
  some, arith, if◌then◌else◌, ltb, leb, Bool-cases, some_inj, inl, inr, string_keyed,
}
use kong_rust.Common.Assoc.{lookup, insert}
use kong_rust.RateLimit.Types.{
  SettleCommand, RateLimitNow, MemoryRateLimitConfig, RateLimitStoreStats, SettlementResult,
  WindowState, AdmissionRecord, BucketState,
}
use kong_rust.RateLimit.Types.Equality.{same_identity, same_identity_sym}
use kong_rust.RateLimit.Window.{ok, adjusted_count, is_some, live_window, purge_state, purge_stats}
use kong_rust.RateLimit.Bucket.{touched}
use kong_rust.RateLimit.Settlement.{settle_record, settle_stale, settle_purged, settle_bucket}
use kong_rust.RateLimit.Sums.{Records, total, total-insert_old, Each, Each-insert, Each-lookup}
use kong_rust.RateLimit.Ledger.{
  Dimension, rpm, tpm, used_in, belongs, share, age, Kept, KeptIn, IsLedger, touched-IsLedger,
}
use kong_rust.RateLimit.Admit.{window-Kept}
use kong_rust.RateLimit.Settled.{IsPending, meets, settle_purged-elim}

pub live_window-live :
    (now : ℕ) (o : Option WindowState) (w : WindowState)
    → live_window now o ≡ some w
    → now < w.reset_mono
unfolding live_window
live_window-live now none w h = cc
live_window-live now (some v) w h = elim (Bool-cases (leb v.reset_mono now)) [
  | inl e ↦ cc
  | inr e ↦ subst (λ u. now < u.reset_mono) (some_inj (rw e at h)) (ground arith)
]

-- A record that is changed, and the counts with it.
changed-Kept :
    (w w' : WindowState) (m : Records) (t g : ℕ) (id : String) (r r' : AdmissionRecord)
    → lookup id m ≡ some r
    → r'.decision ≡ r.decision
    → r.retain_until ≤ r'.retain_until
    → w'.identity ≡ w.identity
    → w'.reset_mono ≡ w.reset_mono
    → w'.spec ≡ w.spec
    → ((d : Dimension) → used_in d w' + share d w.identity r ≡ used_in d w + share d w.identity r')
    → Kept w m t g
    → Kept w' (insert id r' m) t g
changed-Kept w w' m t g id r r' found same_decision longer same_id same_end same_spec moves k =
    record {
      counts = λ d.
          omega (arith, moves d, k.counts d, total-insert_old (share d w.identity) id r' m found)
          ∙ ap (λ i. total (share d i) (insert id r' m)) (sym same_id);
      covered =
          subst
            (λ i.
              Each (λ q. belongs i q.decision ≡ true → w'.reset_mono ≤ q.retain_until)
                (insert id r' m))
            (sym same_id)
            (subst
              (λ e.
                Each (λ q. belongs w.identity q.decision ≡ true → e ≤ q.retain_until)
                  (insert id r' m))
              (sym same_end)
              (Each-insert
                (λ q. belongs w.identity q.decision ≡ true → w.reset_mono ≤ q.retain_until) id r' m
                (λ b. omega (
                  arith,
                  Each-lookup
                      (λ q. belongs w.identity q.decision ≡ true → w.reset_mono ≤ q.retain_until) id
                      m found k.covered (ap (belongs w.identity) (sym same_decision) ∙ b),
                ))
                k.covered));
      timed = rw (same_end, same_spec) k.timed;
      numbered = rw same_id k.numbered;
    }

-- One count after `adjusted_count`, against the shares of the record before and after.
adjusted_share :
    (b enabled : Bool) (used reserved final n : ℕ) (message : String)
    → adjusted_count used reserved final enabled message ≡ ok n
    → b ≡ true
    → n + (if b && enabled then reserved else 0) ≡ used + (if b && enabled then final else 0)
unfolding adjusted_count
adjusted_share b enabled used reserved final n message h e = ground arith

and_left : (a b : Bool) → (a && b) ≡ true → a ≡ true
and_left a b h = ground arith

-- The record of a settled reservation.
abbrev pub settled :
    MemoryRateLimitConfig
    → SettleCommand
    → RateLimitNow
    → AdmissionRecord
    → SettlementResult
    → AdmissionRecord
settled config c now r result = record r {
  retain_until = max r.retain_until (now.mono + config.settlement_retry_grace);
  settlement =
      some
        (record { operation_id = c.operation_id; final_charge = c.final_charge; result = result });
}

module _ (config : MemoryRateLimitConfig) (c : SettleCommand) (now : RateLimitNow)
    (small : now.mono + config.settlement_retry_grace < 18446744073709551616000000000) where
  pub settle_record-state :
      (r : AdmissionRecord) (result : SettlementResult) (s : BucketState)
      (stats : RateLimitStoreStats)
      → (settle_record config c now r result s stats).state ≡ record s {
        admissions = insert c.reservation.request_id (settled config c now r result) s.admissions;
      }
  unfolding settle_record
  settle_record-state r result s stats = ground arith

  pub settle_record-result :
      (r : AdmissionRecord) (result : SettlementResult) (s : BucketState)
      (stats : RateLimitStoreStats)
      → (settle_record config c now r result s stats).result ≡ ok result
  unfolding settle_record
  settle_record-result r result s stats = ground arith

  settle_record-IsLedger :
      (r : AdmissionRecord) (result : SettlementResult) (s : BucketState)
      (stats : RateLimitStoreStats)
      → lookup c.reservation.request_id s.admissions ≡ some r
      → Each (λ q. age q.decision ≤ s.generation) s.admissions
      → KeptIn s.active_window
          (insert c.reservation.request_id (settled config c now r result) s.admissions)
          s.last_touched_mono
          s.generation
      → IsLedger (settle_record config c now r result s stats).state
  settle_record-IsLedger r result s stats found aged k =
      subst IsLedger (sym (settle_record-state r result s stats)) (record {
        kept = k;
        aged =
            Each-insert (λ q. age q.decision ≤ s.generation) c.reservation.request_id _ s.admissions
              (Each-lookup (λ q. age q.decision ≤ s.generation) c.reservation.request_id
                s.admissions found aged)
              aged;
      })

  -- What an applied settlement moves in each dimension.
  pub moved :
      (s : BucketState) (r : AdmissionRecord) (w : WindowState) (n t : ℕ)
      (result : SettlementResult)
      → IsPending c s r
      → meets c now w ≡ true
      → adjusted_count w.requests_used c.reservation.reserved.requests c.final_charge.requests
          (is_some c.reservation.limits_at_admission.requests)
          "request quota settlement arithmetic invalid"
        ≡ ok n
      → adjusted_count w.tokens_used c.reservation.reserved.tokens c.final_charge.tokens
          (is_some c.reservation.limits_at_admission.tokens)
          "token quota settlement arithmetic invalid"
        ≡ ok t
      → (d : Dimension)
      → used_in d (record w { requests_used = n; tokens_used = t }) + share d w.identity r
        ≡ used_in d w + share d w.identity (settled config c now r result)
  unfolding share
  moved s r w n t result p m hn ht rpm =
      rw (p.granted, p.unsettled)
        (adjusted_share (same_identity c.reservation.window w.identity) _ _ _ _ n _ hn
          (same_identity_sym c.reservation.window w.identity ∙ and_left _ _ m))
  moved s r w n t result p m hn ht tpm =
      rw (p.granted, p.unsettled)
        (adjusted_share (same_identity c.reservation.window w.identity) _ _ _ _ t _ ht
          (same_identity_sym c.reservation.window w.identity ∙ and_left _ _ m))

  -- A window that runs and is not the reservation's is charged nothing by it.
  missed-KeptIn :
      (s : BucketState) (o : Option WindowState) (r : AdmissionRecord) (result : SettlementResult)
      → IsPending c s r
      → ((w : WindowState) → o ≡ some w → (meets c now w ≡ false) × (now.mono < w.reset_mono))
      → KeptIn o s.admissions s.last_touched_mono s.generation
      → KeptIn o
          (insert c.reservation.request_id (settled config c now r result) s.admissions)
          s.last_touched_mono
          s.generation
  unfolding share
  missed-KeptIn s none r result p out k = tt
  missed-KeptIn s (some w) r result p out k =
      changed-Kept w w s.admissions s.last_touched_mono s.generation c.reservation.request_id r
        (settled config c now r result) p.found refl (ground arith) refl refl refl
        (λ d.
          rw
            (
              p.granted,
              same_identity_sym c.reservation.window w.identity,
              other w (out w refl).0 (out w refl).1,
            )
            refl)
        k
    where
      other :
          (w : WindowState) {i : Bool}
          → (i && ltb now.mono w.reset_mono) ≡ false
          → now.mono < w.reset_mono
          → i ≡ false
      other w {i} h l = ground arith

  settle_purged-IsLedger :
      (s : BucketState) (stats : RateLimitStoreStats)
      → IsLedger s
      → ((w : WindowState) → s.active_window ≡ some w → now.mono < w.reset_mono)
      → IsLedger (settle_purged config c now s stats).state
  unfolding settle_stale
  settle_purged-IsLedger s stats l live =
      settle_purged-elim (λ x. IsLedger x.state) config c now s stats (λ x. l) (λ done. l)
        (λ r w n t p active m hn ht.
          settle_record-IsLedger r _
            (record s { active_window = some (record w { requests_used = n; tokens_used = t }) })
            stats p.found l.aged
            (changed-Kept w (record w { requests_used = n; tokens_used = t }) s.admissions
              s.last_touched_mono s.generation c.reservation.request_id r (settled config c now r _)
              p.found refl (ground arith) refl refl refl (moved s r w n t _ p m hn ht)
              (window-Kept s.active_window s.admissions s.last_touched_mono s.generation active
                l.kept)))
        (λ r p out.
          settle_record-IsLedger r _ s stats p.found l.aged
            (missed-KeptIn s s.active_window r _ p (λ w h. (out w h, live w h)) l.kept))

  -- Whatever a settlement answers (applied, stale, replayed or an error), the bucket's ledger stays
  -- right, if it was right, time has not gone back and the retry grace does not overflow.
  pub settle_bucket-IsLedger :
      (s : BucketState) (stats : RateLimitStoreStats)
      → s.last_touched_mono ≤ now.mono
      → IsLedger s
      → IsLedger (settle_bucket config c now s stats).state
  unfolding settle_bucket touched purge_state
  settle_bucket-IsLedger s stats order l =
      settle_purged-IsLedger (touched now.mono s) (purge_stats now.mono s stats)
        (touched-IsLedger now.mono s order l) (live_window-live now.mono s.active_window)
