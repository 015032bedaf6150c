-- ===== src/RateLimit/Admit.antt =====
-- Admissions of crates/kong-ai/src/ratelimit/memory.rs keep the ledger of their bucket.
use mathlib.Core.Path.{subst}
use kong_rust.Common.{
  ℕ, ◌+◌, ◌≤◌, ◌≡◌, ◌∙◌, ap, sym, refl, String, Bool, true, false, not, ◌&&◌, Option, none, some,
  arith, if◌then◌else◌, leb, Bool-cases, inl, inr, string_keyed,
}
use kong_rust.Common.Assoc.{lookup, insert}
use kong_rust.RateLimit.Types.{
  WindowIdentity, RateLimitSnapshot, AdmitCommand, ExceededDimension, allowed, RateLimitNow,
  MemoryRateLimitConfig, RateLimitStoreStats, WindowState, AdmissionRecord, BucketState,
}
use kong_rust.RateLimit.Types.Equality.{same_identity, same_identity_iff}
use kong_rust.RateLimit.Window.{Result, ok, err, is_some, ensure_window}
use kong_rust.RateLimit.Bucket.{
  Outcome, unreserve, record_of, envelope_of, Fresh, candidate, AdmitAttempt, effective_window,
  admit_allowed, admit_rejected, admit_counts, admit_window,
}
use kong_rust.RateLimit.Branches.{admit_counts-elim}
use kong_rust.RateLimit.Sums.{Records, total, total-insert_new, Each, Each-insert}
use kong_rust.RateLimit.Ledger.{
  Dimension, rpm, tpm, used_in, belongs, share, age, Kept, KeptIn, IsLedger,
}
use kong_rust.RateLimit.Opened.{Opened, OpenedIn, ensure_window-Opened}

-- A new record whose share is what the counts of the window grow by.
pub added-Kept :
    (w w' : WindowState) (m : Records) (t g : ℕ) (id : String) (r : AdmissionRecord)
    → w'.identity ≡ w.identity
    → w'.reset_mono ≡ w.reset_mono
    → w'.spec ≡ w.spec
    → ((d : Dimension) → used_in d w' ≡ used_in d w + share d w.identity r)
    → (belongs w.identity r.decision ≡ true → w.reset_mono ≤ r.retain_until)
    → lookup id m ≡ none
    → Kept w m t g
    → Kept w' (insert id r m) t g
added-Kept w w' m t g id r same_id same_end same_spec grows covers new k = record {
  counts = λ d.
      grows d
      ∙ ap (λ n. n + share d w.identity r) (k.counts d)
      ∙ sym (total-insert_new (share d w.identity) id r m new)
      ∙ ap (λ i. total (share d i) (insert id r m)) (sym same_id);
  covered =
      subst
        (λ i.
          Each (λ q. belongs i q.decision ≡ true → w'.reset_mono ≤ q.retain_until) (insert id r m))
        (sym same_id)
        (subst
          (λ e.
            Each (λ q. belongs w.identity q.decision ≡ true → e ≤ q.retain_until) (insert id r m))
          (sym same_end)
          (Each-insert (λ q. belongs w.identity q.decision ≡ true → w.reset_mono ≤ q.retain_until)
            id r m covers k.covered));
  timed = rw (same_end, same_spec) k.timed;
  numbered = rw same_id k.numbered;
}

unshared :
    (d : Dimension) (w : WindowState) (r : AdmissionRecord)
    → belongs w.identity r.decision ≡ false
    → used_in d w ≡ used_in d w + share d w.identity r
unfolding share
unshared d w r h = rw h (omega arith)

apart : {b : Bool} → b ≡ false → ¬ (b ≡ true)
apart h t = cc

rejected-KeptIn :
    (o : Option WindowState) (m : Records) (t g : ℕ) (id : String) (r : AdmissionRecord)
    → ((i : _) → belongs i r.decision ≡ false)
    → lookup id m ≡ none
    → KeptIn o m t g
    → KeptIn o (insert id r m) t g
rejected-KeptIn none m t g id r none_of new k = tt
rejected-KeptIn (some w) m t g id r none_of new k =
    added-Kept w w m t g id r refl refl refl (λ d. unshared d w r (none_of w.identity))
      (λ b. absurd (apart (none_of w.identity) b)) new k

pub window-Kept :
    (o : Option WindowState) (m : Records) (t g : ℕ) {w : WindowState}
    → o ≡ some w
    → KeptIn o m t g
    → Kept w m t g
window-Kept o m t g h k = rw h at k

one_dimension :
    (l : Option ℕ) (i : WindowIdentity) (used reserve n : ℕ)
    → candidate l used reserve ≡ some n
    → n ≡ used + (if same_identity i i && is_some l then reserve else 0)
one_dimension l i used reserve n h = ground (arith, (same_identity_iff i i).1 refl)

-- What a granted admission adds to the counts is its share.
grown :
    (c : AdmitCommand) (w : WindowState) (instance_id reservation_id n t until : ℕ)
    (snap : RateLimitSnapshot)
    → candidate c.limits.requests w.requests_used c.reserve.requests ≡ some n
    → candidate c.limits.tokens w.tokens_used c.reserve.tokens ≡ some t
    → (d : Dimension)
    → used_in d (record w { requests_used = n; tokens_used = t })
      ≡ used_in d w
        + share d w.identity
            (record_of c (allowed (envelope_of instance_id reservation_id c w) snap false) until)
unfolding share
grown c w instance_id reservation_id n t until snap hn ht rpm =
    one_dimension c.limits.requests w.identity w.requests_used c.reserve.requests n hn
grown c w instance_id reservation_id n t until snap hn ht tpm =
    one_dimension c.limits.tokens w.identity w.tokens_used c.reserve.tokens t ht

module _ (config : MemoryRateLimitConfig) (instance_id : ℕ) (fresh : Fresh) (c : AdmitCommand)
    (now : RateLimitNow) (until : ℕ) where
  admit_rejected-IsLedger :
      (reason : ExceededDimension) (w : WindowState) (s : BucketState) (stats : RateLimitStoreStats)
      → lookup c.request_id s.admissions ≡ none
      → IsLedger s
      → IsLedger (admit_rejected config instance_id fresh c now until reason w s stats).state
  unfolding admit_rejected
  admit_rejected-IsLedger reason w s stats new l = record {
    kept =
        rejected-KeptIn s.active_window s.admissions s.last_touched_mono s.generation c.request_id _
          (λ i. refl) new l.kept;
    aged =
        Each-insert (λ r. age r.decision ≤ s.generation) c.request_id _ s.admissions (ground arith)
          l.aged;
  }

  -- The state of a granted admission, its counts and its record.
  granted-IsLedger :
      {before : BucketState} (reservation_id : ℕ) (w : WindowState) (n t : ℕ) (s : BucketState)
      (snap : RateLimitSnapshot)
      → Opened before s w until
      → lookup c.request_id s.admissions ≡ none
      → candidate c.limits.requests w.requests_used c.reserve.requests ≡ some n
      → candidate c.limits.tokens w.tokens_used c.reserve.tokens ≡ some t
      → IsLedger (record s {
        active_window = some (record w { requests_used = n; tokens_used = t });
        admissions =
            insert c.request_id
              (record_of c (allowed (envelope_of instance_id reservation_id c w) snap false) until)
              s.admissions;
      })
  granted-IsLedger reservation_id w n t s snap o new hn ht =
      let k =
        window-Kept s.active_window s.admissions s.last_touched_mono s.generation o.active
          o.ledger.kept in
      record {
        kept =
            added-Kept w (record w { requests_used = n; tokens_used = t }) s.admissions
              s.last_touched_mono s.generation c.request_id _ refl refl refl
              (grown c w instance_id reservation_id n t until snap hn ht) (λ b. o.covers) new k;
        aged =
            Each-insert (λ r. age r.decision ≤ s.generation) c.request_id _ s.admissions k.numbered
              o.ledger.aged;
      }

  admit_allowed-IsLedger :
      {before : BucketState} (w : WindowState) (n t : ℕ) (s : BucketState)
      (stats : RateLimitStoreStats)
      → Opened before s w until
      → IsLedger before
      → lookup c.request_id s.admissions ≡ none
      → candidate c.limits.requests w.requests_used c.reserve.requests ≡ some n
      → candidate c.limits.tokens w.tokens_used c.reserve.tokens ≡ some t
      → IsLedger
          (admit_allowed config instance_id fresh c now until
            (not (is_some before.active_window))
            w
            n
            t
            s
            stats).state
  unfolding admit_allowed
  admit_allowed-IsLedger {before} w n t s stats o l new hn ht =
      elim (Bool-cases (leb config.max_live_reservations stats.live_reservations)) [
        | inl h ↦ rw (admit_allowed, h) (subst IsLedger (sym o.undone) l)
        | inr h ↦
            rw (admit_allowed, h) (granted-IsLedger fresh.reservation_id w n t s _ o new hn ht)
      ]

  admit_counts-IsLedger :
      {before : BucketState} (w : WindowState) (s : BucketState) (stats : RateLimitStoreStats)
      → Opened before s w until
      → IsLedger before
      → lookup c.request_id s.admissions ≡ none
      → IsLedger
          (admit_counts config instance_id fresh c now until
            (not (is_some before.active_window))
            w
            s
            stats).state
  unfolding admit_counts
  admit_counts-IsLedger {before} w s stats o l new =
      admit_counts-elim (λ x. IsLedger x.state) config instance_id fresh c now until
        (not (is_some before.active_window)) w s stats (λ message. subst IsLedger (sym o.undone) l)
        (λ reason. admit_rejected-IsLedger reason w s stats new o.ledger)
        (λ n t h e b. admit_allowed-IsLedger w n t s stats o l new h e)

  pub admit_window-IsLedger :
      (s : BucketState) (stats : RateLimitStoreStats)
      → IsLedger s
      → lookup c.request_id s.admissions ≡ none
      → s.last_touched_mono ≡ now.mono
      → s.last_touched_mono + (effective_window s.active_window c.window).duration ≤ until
      → IsLedger (admit_window config instance_id fresh c now until s stats).state
  unfolding admit_window
  admit_window-IsLedger s stats l new timely enough =
      go (ensure_window fresh.window_id s c.window now)
        (ensure_window-Opened fresh.window_id c.window now until s l timely enough)
    where
      go :
          (r : Result (BucketState × WindowState))
          → OpenedIn s until r
          → IsLedger
              (elim r as (λ x. Outcome AdmitAttempt) [
                | err e ↦ record { state = s; stats = unreserve stats; result = err e }
                | ok (s', w) ↦
                    admit_counts config instance_id fresh c now until
                      (not (is_some s.active_window))
                      w
                      s'
                      stats
              ]).state
      go (err e) o = l
      go (ok (s', w)) o = admit_counts-IsLedger w s' stats o l (rw o.records new)
