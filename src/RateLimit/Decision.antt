-- ===== src/RateLimit/Decision.antt =====
-- What an admission of crates/kong-ai/src/ratelimit/memory.rs promises, on every branch.
use mathlib.Core.Path.{subst}
use kong_rust.Common.{ℕ, ◌≤◌, ◌≡◌, sym, refl, none, arith, string_keyed}
use kong_rust.Common.Assoc.{lookup}
use kong_rust.RateLimit.Types.{
  AdmitCommand, RateLimitNow, MemoryRateLimitConfig, RateLimitStoreStats, AdmissionRecord,
  BucketState,
}
use kong_rust.RateLimit.Window.{purge_stats}
use kong_rust.RateLimit.Bucket.{Fresh, admit_new, admit_known, admit_purged, admit_bucket, touched}
use kong_rust.RateLimit.Branches.{admit_new-elim, admit_purged-elim}
use kong_rust.RateLimit.Ledger.{IsLedger, touched-IsLedger}
use kong_rust.RateLimit.Admit.{admit_window-IsLedger}

module _ (config : MemoryRateLimitConfig) (instance_id : ℕ) (fresh : Fresh) (c : AdmitCommand)
    (now : RateLimitNow) where
  admit_new-IsLedger :
      (s : BucketState) (stats : RateLimitStoreStats)
      → IsLedger s
      → lookup c.request_id s.admissions ≡ none
      → s.last_touched_mono ≡ now.mono
      → IsLedger (admit_new config instance_id fresh c now s stats).state
  unfolding admit_new
  admit_new-IsLedger s stats l new timely =
      admit_new-elim (λ x. IsLedger x.state) config instance_id fresh c now s stats (λ e. l) l
        (λ until n enough.
          admit_window-IsLedger config instance_id fresh c now until s _ l new timely (omega arith))

  pub admit_known-state :
      (r : AdmissionRecord) (s : BucketState) (stats : RateLimitStoreStats)
      → (admit_known config instance_id fresh c now r s stats).state ≡ s
  unfolding admit_known
  admit_known-state r s stats = ground arith

  admit_purged-IsLedger :
      (s : BucketState) (stats : RateLimitStoreStats)
      → IsLedger s
      → s.last_touched_mono ≡ now.mono
      → IsLedger (admit_purged config instance_id fresh c now s stats).state
  unfolding admit_purged
  admit_purged-IsLedger s stats l timely =
      admit_purged-elim (λ x. IsLedger x.state) config instance_id fresh c now s stats
        (λ new. admit_new-IsLedger s stats l new timely)
        (λ r h. subst IsLedger (sym (admit_known-state r s stats)) l)

  -- Whatever an admission answers (granted, rejected, replayed, out of capacity or an error), the
  -- bucket's ledger stays right, if it was right and time has not gone back: the counts of the active
  -- window are the sums of what the recorded reservations charge to it, and no such record can be
  -- purged before the window ends.
  pub admit_bucket-IsLedger :
      (s : BucketState) (stats : RateLimitStoreStats)
      → s.last_touched_mono ≤ now.mono
      → IsLedger s
      → IsLedger (admit_bucket config instance_id fresh c now s stats).state
  unfolding admit_bucket touched
  admit_bucket-IsLedger s stats order l =
      admit_purged-IsLedger (touched now.mono s) (purge_stats now.mono s stats)
        (touched-IsLedger now.mono s order l) refl
