-- ===== src/RateLimit/Opened.antt =====
-- The window that `ensure_window` of crates/kong-ai/src/ratelimit/memory.rs gives to an admission.
use kong_rust.Common.{
  ℕ, suc, ◌+◌, ◌≤◌, ◌<◌, ◌≡◌, ◌∙◌, sym, ap, ap₂, refl, true, false, not, Option, none, some, arith,
  Bool-cases, inl, inr,
}
use kong_rust.RateLimit.Types.{
  WindowIdentity, AdmissionDecision, allowed, rejected, WindowSpec, RateLimitNow, WindowState,
  AdmissionRecord, BucketState,
}
use kong_rust.RateLimit.Types.Equality.{same_identity_iff}
use kong_rust.RateLimit.Window.{
  Result, ok, err, checked_add, add_duration, add_wall, is_some, start_window, new_window,
  ensure_window, rollback_new_window,
}
use kong_rust.RateLimit.Bucket.{effective_window}
use kong_rust.RateLimit.Sums.{Records, Each, total-zero, Each-map}
use kong_rust.RateLimit.Ledger.{
  Dimension, rpm, tpm, used_in, belongs, share, age, Kept, KeptIn, IsLedger,
}

-- A window that has been made for a bucket, or found in it.
pub record Opened (s s' : BucketState) (w : WindowState) (until : ℕ) : Type 0 where
  pub active : s'.active_window ≡ some w
  pub ledger : IsLedger s'
  pub records : s'.admissions ≡ s.admissions
  pub undone : rollback_new_window s' (not (is_some s.active_window)) ≡ s
  pub covers : w.reset_mono ≤ until

aged_apart :
    (i : WindowIdentity) (d : AdmissionDecision) → age d < i.generation → ¬ (belongs i d ≡ true)
aged_apart i (allowed e snap again) h b =
    omega (arith, ap (λ j. j.generation) ((same_identity_iff e.window i).0 b))
aged_apart i (rejected reason snap again) h b = cc

-- A window whose generation is new has no records yet.
unaged :
    (w : WindowState) (r : AdmissionRecord)
    → age r.decision < w.identity.generation
    → belongs w.identity r.decision ≡ false
unaged w r h = elim (Bool-cases (belongs w.identity r.decision)) [
  | inr e ↦ e
  | inl e ↦ absurd (aged_apart w.identity r.decision h e)
]

no_share :
    (d : Dimension) (w : WindowState) (r : AdmissionRecord)
    → age r.decision < w.identity.generation
    → share d w.identity r ≡ 0
unfolding share
no_share d w r h = rw (unaged w r h) refl

new_used :
    (w : WindowState) → w.requests_used ≡ 0 → w.tokens_used ≡ 0 → (d : Dimension) → used_in d w ≡ 0
new_used w nr nt rpm = nr
new_used w nr nt tpm = nt

new-Kept :
    (w : WindowState) (m : Records) (t g next : ℕ)
    → w.requests_used ≡ 0
    → w.tokens_used ≡ 0
    → w.reset_mono ≤ t + w.spec.duration
    → w.identity.generation ≡ next
    → next ≡ suc g
    → Each (λ r. age r.decision ≤ g) m
    → Kept w m t next
unfolding share
new-Kept w m t g next nr nt timed numbered one_more aged = record {
  counts = λ d.
      new_used w nr nt d
      ∙ sym (
          total-zero (share d w.identity) m
            (Each-map (λ r a. no_share d w r (omega arith)) m aged));
  covered = Each-map (λ r a e. absurd (aged_apart w.identity r.decision (omega arith) e)) m aged;
  timed = timed;
  numbered = omega arith;
}

abbrev pub OpenedIn : BucketState → ℕ → Result (BucketState × WindowState) → Type 0
OpenedIn s until (ok (s', w)) = Opened s s' w until
OpenedIn s until (err e) = Unit {0}

covered_to :
    (o : Option WindowState) (m : Records) {w : WindowState} (t g : ℕ) {until : ℕ}
    → o ≡ some w
    → KeptIn o m t g
    → t + w.spec.duration ≤ until
    → w.reset_mono ≤ until
covered_to o m t g h k enough = omega (arith, (rw h at k).timed)

restarted :
    (s : BucketState) (w : WindowState) (g : ℕ)
    → s.active_window ≡ none
    → g ≡ suc s.generation
    → suc s.generation < 18446744073709551616
    → rollback_new_window
        (record s { active_window = some w; generation = g })
        (not (is_some s.active_window))
      ≡ s
unfolding rollback_new_window
restarted s w g h next small =
    ap
      (λ b.
        rollback_new_window (record s { active_window = some w; generation = g }) (not (is_some b)))
      h
    ∙ ap₂ (λ o g. record s { active_window = o; generation = g }) (sym h) (ground arith)

started :
    (s : BucketState) (w : WindowState) (g until : ℕ)
    → IsLedger s
    → s.active_window ≡ none
    → g ≡ suc s.generation
    → suc s.generation < 18446744073709551616
    → w.requests_used ≡ 0
    → w.tokens_used ≡ 0
    → w.identity.generation ≡ g
    → w.reset_mono ≡ s.last_touched_mono + w.spec.duration
    → w.reset_mono ≤ until
    → Opened s (record s { active_window = some w; generation = g }) w until
unfolding rollback_new_window
started s w g until l none_yet next small nr nt numbered timed covers = record {
  active = refl;
  ledger = record {
    kept =
        new-Kept w s.admissions s.last_touched_mono s.generation g nr nt (omega arith) numbered next
          l.aged;
    aged = Each-map (λ r a. omega arith) s.admissions l.aged;
  };
  records = refl;
  undone = restarted s w g none_yet next small;
  covers = covers;
}

found :
    (s : BucketState) (w : WindowState) (until : ℕ)
    → IsLedger s
    → s.active_window ≡ some w
    → s.last_touched_mono + w.spec.duration ≤ until
    → Opened s s w until
unfolding rollback_new_window
found s w until l h enough = record {
  active = h;
  ledger = l;
  records = refl;
  undone = rw h refl;
  covers = covered_to s.active_window s.admissions s.last_touched_mono s.generation h l.kept enough;
}

module _ (uuid : ℕ) (spec : WindowSpec) (now : RateLimitNow) (until : ℕ) where
  new_window_go :
      (s : BucketState)
      → IsLedger s
      → s.active_window ≡ none
      → s.last_touched_mono ≡ now.mono
      → s.last_touched_mono + spec.duration ≤ until
      → (a : Option ℕ) → checked_add s.generation 1 ≡ a
      → (b : Option ℕ) → add_duration now.mono spec.duration ≡ b
      → (c : Option ℕ) → OpenedIn s until (start_window uuid s spec now a b c)
  new_window_go s l n timely enough none ha b hb c = tt
  new_window_go s l n timely enough (some g) ha none hb c = tt
  new_window_go s l n timely enough (some g) ha (some t) hb none = tt
  new_window_go s l n timely enough (some g) ha (some t) hb (some u) =
      started s _ g until l n (ground arith) (ground arith) refl refl refl (ground arith)
        (ground arith)

  new_window-Opened :
      (s : BucketState)
      → IsLedger s
      → s.active_window ≡ none
      → s.last_touched_mono ≡ now.mono
      → s.last_touched_mono + spec.duration ≤ until
      → OpenedIn s until (new_window uuid s spec now)
  unfolding new_window
  new_window-Opened s l none_yet timely enough =
      new_window_go s l none_yet timely enough (checked_add s.generation 1) refl
        (add_duration now.mono spec.duration) refl (add_wall now.wall spec.duration)

  ensure_window_go :
      (s : BucketState)
      → IsLedger s
      → s.last_touched_mono ≡ now.mono
      → (o : Option WindowState) → s.active_window ≡ o
      → s.last_touched_mono + (effective_window o spec).duration ≤ until
      → OpenedIn s until (elim o [ none ↦ new_window uuid s spec now | some w ↦ ok (s, w) ])
  ensure_window_go s l timely none h enough = new_window-Opened s l h timely enough
  ensure_window_go s l timely (some w) h enough = found s w until l h enough

  pub ensure_window-Opened :
      (s : BucketState)
      → IsLedger s
      → s.last_touched_mono ≡ now.mono
      → s.last_touched_mono + (effective_window s.active_window spec).duration ≤ until
      → OpenedIn s until (ensure_window uuid s spec now)
  unfolding ensure_window rollback_new_window
  ensure_window-Opened s l timely enough = ensure_window_go s l timely s.active_window refl enough
