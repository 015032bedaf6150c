-- ===== src/Health/Thresholds.antt =====
-- When a target of crates/kong-proxy/src/health.rs turns unhealthy, and when it comes back.
use native.Mathlib.Nat.{zero-add}
use kong_rust.Common.{
  ℕ, ◌+◌, ◌≤◌, ◌<◌, ◌≡◌, ◌⊎◌, ◌∙◌, refl, String, true, false, not, ◌&&◌, some, List, [], ◌∷◌, arith,
  if◌then◌else◌, ltb, leb, contains, length, ==-refl, inl, string_keyed, nat_keyed,
}
use kong_rust.Common.Assoc.{lookup, lookup-insert}
use kong_rust.Health.Target.{
  healthy, unhealthy, TargetHealth, default_health, HealthCheckerConfig, healthy_now,
}
use kong_rust.Health.{
  HealthChecker, Report, success, http_status, tcp_failure, timeout, on_report, find_health,
  find_config, is_healthy, fresh_targets, register_upstream,
}
use kong_rust.Health.Runs.{run, reports_for, run_target, track, find_health-run}

-- The kinds of failure, each with its limit and its counter.
pub data Kind : Type 0 where
  bad_status refused timed_out : Kind

-- A report that counts as a failure of a kind: any of the unhealthy status codes is of one kind.
abbrev pub IsFailure : HealthCheckerConfig → Kind → Report → Type 0
IsFailure c bad_status (http_status code) = contains c.passive_unhealthy_statuses code ≡ true
IsFailure c refused tcp_failure = Unit {0}
IsFailure c timed_out timeout = Unit {0}
IsFailure c _ _ = ⊥

abbrev pub AreFailures : HealthCheckerConfig → Kind → List Report → Type 0
AreFailures c k [] = Unit {0}
AreFailures c k (r ∷ rs) = IsFailure c k r × AreFailures c k rs

abbrev pub limit : HealthCheckerConfig → Kind → ℕ
limit c bad_status = c.unhealthy_http_failures
limit c refused = c.unhealthy_tcp_failures
limit c timed_out = c.unhealthy_timeouts

abbrev pub counter : Kind → TargetHealth → ℕ
counter bad_status h = h.http_failures
counter refused h = h.tcp_failures
counter timed_out h = h.timeouts

-- One failure: the counter goes up, and the limit decides.
pub on_failure :
    (c : HealthCheckerConfig) (k : Kind) (r : Report) (h : TargetHealth)
    → IsFailure c k r
    → counter k h < 2147483647
    → limit c k < 2147483648
    → (counter k (on_report r c h) ≡ counter k h + 1)
      × ((on_report r c h).status ≡ (
          if ltb 0 (limit c k) && leb (limit c k) (counter k h + 1) then unhealthy else h.status))
      × ((on_report r c h).successes ≡ 0)
unfolding on_report
on_failure c bad_status (http_status code) h f m l = ground arith
on_failure c refused tcp_failure h f m l = ground arith
on_failure c timed_out timeout h f m l = ground arith
on_failure c bad_status success h f m l = absurd f
on_failure c bad_status tcp_failure h f m l = absurd f
on_failure c bad_status timeout h f m l = absurd f
on_failure c refused success h f m l = absurd f
on_failure c refused (http_status code) h f m l = absurd f
on_failure c refused timeout h f m l = absurd f
on_failure c timed_out success h f m l = absurd f
on_failure c timed_out (http_status code) h f m l = absurd f
on_failure c timed_out tcp_failure h f m l = absurd f

-- Failures in a row, from counters where the target is still healthy.
failures_run :
    (c : HealthCheckerConfig) (k : Kind) (rs : List Report) (h : TargetHealth)
    → AreFailures c k rs
    → counter k h + length rs < 2147483648
    → limit c k < 2147483648
    → ((0 < limit c k → counter k h < limit c k) × (h.status ≡ healthy))
      ⊎ ((0 < limit c k) × (limit c k ≤ counter k h) × (h.status ≡ unhealthy))
    → healthy_now (run_target c rs h).status
      ≡ not (ltb 0 (limit c k) && leb (limit c k) (counter k h + length rs))
unfolding run_target
failures_run c k [] h f m l s = ground arith
failures_run c k (r ∷ rs) h f m l s =
    let step = on_failure c k r h f.0 (omega arith) l in
    ground (arith, failures_run c k rs (on_report r c h) f.1)

zero_counter : (k : Kind) → counter k default_health ≡ 0
zero_counter bad_status = refl
zero_counter refused = refl
zero_counter timed_out = refl

lookup-fresh_targets :
    (addr : String) (addrs : List String)
    → contains addrs addr ≡ true
    → lookup addr (fresh_targets addrs) ≡ some default_health
unfolding lookup fresh_targets
lookup-fresh_targets addr [] h = cc
lookup-fresh_targets addr (a ∷ addrs) h =
    rw (lookup-insert addr a default_health (fresh_targets addrs))
      (ground (arith, lookup-fresh_targets addr addrs))

module _ (hc : HealthChecker) (name addr : String) (addrs : List String) (c : HealthCheckerConfig)
    (targets_good : hc.targets_poisoned ≡ false) (configs_good : hc.configs_poisoned ≡ false)
    (member : contains addrs addr ≡ true) where
  find_health-register :
      find_health (register_upstream hc name addrs c) name addr ≡ some default_health
  unfolding find_health register_upstream
  find_health-register = rw targets_good (
      rw (lookup-insert name name (fresh_targets addrs) hc.targets, ==-refl name)
        (lookup-fresh_targets addr addrs member))

  find_config-register : find_config (register_upstream hc name addrs c) name ≡ some c
  unfolding find_config register_upstream
  find_config-register =
      rw configs_good (rw (lookup-insert name name c hc.configs, ==-refl name) refl)

  -- After registration, any reports leave a target as its own reports make fresh counters.
  pub is_healthy-register :
      (es : List (String × String × Report))
      → is_healthy (run (register_upstream hc name addrs c) es) name addr
        ≡ healthy_now (run_target c (reports_for name addr es) default_health).status
  unfolding is_healthy track
  is_healthy-register es =
      rw
        (
          find_health-run (register_upstream hc name addrs c) es name addr,
          find_config-register,
          find_health-register,
        )
        refl

  -- A target just registered, whose reports are then failures of one kind (TCP failures, timeouts, or
  -- unhealthy status codes, which may differ), is unhealthy exactly when the limit of that kind is
  -- positive and at most the number of these reports, whatever is reported of other targets meanwhile.
  -- The number and the limit are below 2 ^ 31, and no lock is poisoned.
  pub is_healthy-failures :
      (k : Kind) (es : List (String × String × Report))
      → AreFailures c k (reports_for name addr es)
      → length (reports_for name addr es) < 2147483648
      → limit c k < 2147483648
      → is_healthy (run (register_upstream hc name addrs c) es) name addr
        ≡ not (ltb 0 (limit c k) && leb (limit c k) (length (reports_for name addr es)))
  is_healthy-failures k es f m l =
      is_healthy-register es
      ∙ (failures_run c k (reports_for name addr es) default_health f
            (omega (arith, zero_counter k)) l (inl ((λ p. omega (arith, zero_counter k)), refl))
          ∙ rw (zero_counter k, zero-add (length (reports_for name addr es))) refl)
