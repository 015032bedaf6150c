-- ===== src/Health/Recovery.antt =====
-- When an unhealthy target of crates/kong-proxy/src/health.rs comes back.
use native.Mathlib.Nat.{zero-add}
use kong_rust.Common.{
  ℕ, zero, suc, ◌+◌, ◌≤◌, ◌<◌, ◌≡◌, ◌⊎◌, ◌∙◌, refl, String, true, false, ◌&&◌, some, List, [], ◌∷◌,
  arith, if◌then◌else◌, ltb, leb, contains, replicate, inl, nat_keyed,
}
use kong_rust.Health.Target.{healthy, unhealthy, TargetHealth, HealthCheckerConfig, healthy_now}
use kong_rust.Health.{
  HealthChecker, Report, success, http_status, tcp_failure, timeout, on_report, find_health,
  find_config, is_healthy,
}
use kong_rust.Health.Runs.{run, reports_for, run_target, track, find_health-run}

-- A report that counts for the target.
abbrev pub IsSuccess : HealthCheckerConfig → Report → Type 0
IsSuccess c success = Unit {0}
IsSuccess c (http_status code) =
    (contains c.passive_unhealthy_statuses code ≡ false)
    × (contains c.passive_healthy_statuses code ≡ true)
IsSuccess c tcp_failure = ⊥
IsSuccess c timeout = ⊥

on_good :
    (c : HealthCheckerConfig) (r : Report) (h : TargetHealth)
    → IsSuccess c r
    → h.successes < 2147483647
    → c.healthy_successes < 2147483648
    → ((on_report r c h).successes ≡ h.successes + 1)
      × ((on_report r c h).status ≡ (
          if ltb 0 c.healthy_successes && leb c.healthy_successes (h.successes + 1)
          then healthy
          else h.status))
unfolding on_report
on_good c success h f m l = ground arith
on_good c (http_status code) h f m l = ground arith
on_good c tcp_failure h f m l = absurd f
on_good c timeout h f m l = absurd f

goods_run :
    (c : HealthCheckerConfig) (r : Report) (n : ℕ) (h : TargetHealth)
    → IsSuccess c r
    → h.successes + n < 2147483648
    → c.healthy_successes < 2147483648
    → ((0 < c.healthy_successes → h.successes < c.healthy_successes) × (h.status ≡ unhealthy))
      ⊎ ((0 < c.healthy_successes) × (c.healthy_successes ≤ h.successes) × (h.status ≡ healthy))
    → healthy_now (run_target c (replicate n r) h).status
      ≡ (ltb 0 c.healthy_successes && leb c.healthy_successes (h.successes + n))
unfolding run_target
goods_run c r zero h f m l s = ground arith
goods_run c r (suc n) h f m l s =
    let step = on_good c r h f (omega arith) l in
    ground (arith, goods_run c r n (on_report r c h) f)

stays_down_step :
    (c : HealthCheckerConfig) (r : Report) (h : TargetHealth)
    → c.healthy_successes ≡ 0
    → h.status ≡ unhealthy
    → (on_report r c h).status ≡ unhealthy
unfolding on_report
stays_down_step c success h z d = ground arith
stays_down_step c (http_status code) h z d = ground arith
stays_down_step c tcp_failure h z d = ground arith
stays_down_step c timeout h z d = ground arith

stays_down :
    (c : HealthCheckerConfig) (rs : List Report) (h : TargetHealth)
    → c.healthy_successes ≡ 0
    → h.status ≡ unhealthy
    → (run_target c rs h).status ≡ unhealthy
unfolding run_target
stays_down c [] h z d = d
stays_down c (r ∷ rs) h z d = stays_down c rs (on_report r c h) z (stays_down_step c r h z d)

-- The state of one target that is already unhealthy, in a checker with its configuration.
module _ (hc : HealthChecker) (name addr : String) (c : HealthCheckerConfig) (h : TargetHealth)
    (registered : find_health hc name addr ≡ some h) (configured : find_config hc name ≡ some c)
    (down : h.status ≡ unhealthy) where
  is_healthy-run :
      (es : List (String × String × Report))
      → is_healthy (run hc es) name addr
        ≡ healthy_now (run_target c (reports_for name addr es) h).status
  unfolding is_healthy track
  is_healthy-run es = rw (find_health-run hc es name addr, configured, registered) refl

  -- An unhealthy target with no success counted, whose reports are then `n` successes of one
  -- kind, is healthy again exactly when `healthy_successes` is positive and at most `n`.
  pub is_healthy-successes :
      (r : Report) (n : ℕ) (es : List (String × String × Report))
      → IsSuccess c r
      → h.successes ≡ 0
      → reports_for name addr es ≡ replicate n r
      → n < 2147483648
      → c.healthy_successes < 2147483648
      → is_healthy (run hc es) name addr ≡ (ltb 0 c.healthy_successes && leb c.healthy_successes n)
  is_healthy-successes r n es f z own m l =
      is_healthy-run es
      ∙ rw own (
          goods_run c r n h f (omega arith) l (inl ((λ p. omega arith), down))
          ∙ rw (z, zero-add n) refl)

  -- Where `healthy_successes` is 0, as in the default configuration, no reports at all bring an
  -- unhealthy target back.
  pub is_healthy_stuck :
      (es : List (String × String × Report))
      → c.healthy_successes ≡ 0
      → is_healthy (run hc es) name addr ≡ false
  is_healthy_stuck es z =
      is_healthy-run es ∙ rw (stays_down c (reports_for name addr es) h z down) refl
