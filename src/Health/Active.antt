-- ===== src/Health/Active.antt =====
-- The active round of crates/kong-proxy/src/health.rs, and what its counters count.
use mathlib.Core.Option
use native.Mathlib.Nat.{zero-add}
use kong_rust.Common.{
  ℕ, suc, ◌+◌, ◌≤◌, ◌<◌, ◌≡◌, ◌⊎◌, ◌∙◌, refl, sym, Option-cases, String, true, false, not, ◌&&◌,
  ◌||◌, ◌++◌, none, some, List, [], ◌∷◌, arith, if◌then◌else◌, ltb, leb, contains, inl, inr,
  Bool-cases, ◌==◌, string_keyed,
}
use kong_rust.Common.Assoc.{lookup}
use kong_rust.Health.Target.{
  healthy, unhealthy, TargetHealth, default_health, HealthCheckerConfig, healthy_now,
}
use kong_rust.Health.{
  Targets, HealthChecker, Report, success, http_status, tcp_failure, timeout, on_report,
  find_health, find_config, is_healthy, register_upstream, ProbeOutcome, report_of, tasks_of,
  check_tasks, url, run_checks, run_active_checks, statuses, get_upstream_health,
}
use kong_rust.Health.Runs.{run, reports_for, run_target, track-nil, find_health-run}
use kong_rust.Health.Thresholds.{refused, on_failure, is_healthy-register}
use kong_rust.Health.Recovery.{IsSuccess}

-- The reports that a round of probes makes.
unfoldable pub round :
    (String → ProbeOutcome) → List (String × String × String) → List (String × String × Report)
round probe [] = []
round probe ((name, addr, path) ∷ tasks) =
    (name, addr, report_of (probe (url addr path))) ∷ round probe tasks

run_checks-run :
    (probe : String → ProbeOutcome) (tasks : List (String × String × String)) (hc : HealthChecker)
    → run_checks probe tasks hc ≡ run hc (round probe tasks)
unfolding run_checks round run
run_checks-run probe [] hc = refl
run_checks-run probe ((name, addr, path) ∷ tasks) hc = run_checks-run probe tasks _

-- The upstreams with `active_disabled` have no task.
abbrev pub Disabled : String → List (String × HealthCheckerConfig) → Type 0
Disabled name [] = Unit {0}
Disabled name ((n, c) ∷ configs) =
    ((n == name) ≡ true → c.active_disabled ≡ true) × Disabled name configs

reports_for-append :
    (name addr : String) (xs ys : List (String × String × Report))
    → reports_for name addr (xs ++ ys) ≡ reports_for name addr xs ++ reports_for name addr ys
unfolding reports_for
reports_for-append name addr [] ys = refl
reports_for-append name addr ((n, a, r) ∷ xs) ys =
    ground (arith, reports_for-append name addr xs ys)

round-append :
    (probe : String → ProbeOutcome) (xs ys : List (String × String × String))
    → round probe (xs ++ ys) ≡ round probe xs ++ round probe ys
unfolding round
round-append probe [] ys = refl
round-append probe ((n, a, p) ∷ xs) ys = rw (round-append probe xs ys) refl

foreign_tasks :
    (probe : String → ProbeOutcome) (n name addr path : String) (ts : Targets)
    → (n == name) ≡ false
    → reports_for name addr (round probe (tasks_of n path ts)) ≡ []
unfolding reports_for round tasks_of
foreign_tasks probe n name addr path [] e = refl
foreign_tasks probe n name addr path (t ∷ ts) e = rw e (foreign_tasks probe n name addr path ts e)

-- The part of one configuration entry in the tasks.
entry_tasks :
    List (String × Targets) → String → HealthCheckerConfig → List (String × String × String)
entry_tasks targets n c =
    if c.active_disabled
    then []
    else elim (lookup n targets) [ none ↦ [] | some ts ↦ tasks_of n c.active_http_path ts ]

check_tasks-cons :
    (targets : List (String × Targets)) (n : String) (c : HealthCheckerConfig)
    (configs : List (String × HealthCheckerConfig))
    → check_tasks targets ((n, c) ∷ configs)
      ≡ entry_tasks targets n c ++ check_tasks targets configs
unfolding check_tasks entry_tasks
check_tasks-cons targets n c configs = ground arith

entry_silent :
    (probe : String → ProbeOutcome) (targets : List (String × Targets)) (n name addr : String)
    (c : HealthCheckerConfig)
    → ((n == name) ≡ true → c.active_disabled ≡ true)
    → reports_for name addr (round probe (entry_tasks targets n c)) ≡ []
unfolding entry_tasks
entry_silent probe targets n name addr c h = elim (Bool-cases (n == name)) [
  | inl e ↦ rw (h e) (unfold reports_for round in refl)
  | inr e ↦ elim (Bool-cases c.active_disabled) [
    | inl d ↦ rw d (unfold reports_for round in refl)
    | inr d ↦ rw d (elim (Option-cases (lookup n targets)) [
      | inl o ↦ rw o (unfold reports_for round in refl)
      | inr (ts, o) ↦ rw o (foreign_tasks probe n name addr c.active_http_path ts e)
    ])
  ]
]

Disabled-silent :
    (probe : String → ProbeOutcome) (targets : List (String × Targets))
    (configs : List (String × HealthCheckerConfig)) (name addr : String)
    → Disabled name configs
    → reports_for name addr (round probe (check_tasks targets configs)) ≡ []
Disabled-silent probe targets [] name addr d = unfold reports_for round check_tasks in refl
Disabled-silent probe targets ((n, c) ∷ configs) name addr d =
    rw
      (
        check_tasks-cons targets n c configs,
        round-append probe (entry_tasks targets n c) (check_tasks targets configs),
        reports_for-append name addr (round probe (entry_tasks targets n c))
            (round probe (check_tasks targets configs)),
        entry_silent probe targets n name addr c d.0,
      )
      (Disabled-silent probe targets configs name addr d.1)

find_health-round :
    (probe : String → ProbeOutcome) (hc : HealthChecker) (name addr : String)
    → Disabled name hc.configs
    → find_health (run_checks probe (check_tasks hc.targets hc.configs) hc) name addr
      ≡ find_health hc name addr
find_health-round probe hc name addr d =
    rw
      (
        run_checks-run probe (check_tasks hc.targets hc.configs) hc,
        find_health-run hc (round probe (check_tasks hc.targets hc.configs)) name addr,
        Disabled-silent probe hc.targets hc.configs name addr d,
      )
      (sym (track-nil (find_config hc name) (find_health hc name addr)))

-- A round of active checks, whatever the probes answer, leaves the counters of every target
-- alone whose upstream has active checks Disabled.
pub find_health-run_active_checks :
    (probe : String → ProbeOutcome) (hc : HealthChecker) (name addr : String)
    → Disabled name hc.configs
    → find_health (run_active_checks probe hc) name addr ≡ find_health hc name addr
unfolding run_active_checks
find_health-run_active_checks probe hc name addr d =
    elim (Bool-cases (hc.configs_poisoned || hc.targets_poisoned)) [
      | inl e ↦ rw (e, run_active_checks) refl
      | inr e ↦ rw (e, run_active_checks) (find_health-round probe hc name addr d)
    ]

lookup-statuses :
    (addr : String) (ts : Targets)
    → lookup addr (statuses ts) ≡ Option.map (λ (h : TargetHealth). h.status) (lookup addr ts)
unfolding lookup statuses
lookup-statuses addr [] = refl
lookup-statuses addr ((a, h) ∷ ts) = ground (arith, lookup-statuses addr ts)

-- The listing of an upstream agrees with the single queries: an address has a status in
-- `get_upstream_health` exactly when the target is registered, and `is_healthy` is what the
-- listed status says, or true where none is listed.
pub is_healthy-get_upstream_health :
    (hc : HealthChecker) (name addr : String)
    → (lookup addr (get_upstream_health hc name)
        ≡ Option.map (λ (h : TargetHealth). h.status) (find_health hc name addr))
      × (is_healthy hc name addr ≡ elim (lookup addr (get_upstream_health hc name)) [
        | none ↦ true
        | some status ↦ healthy_now status
      ])
unfolding get_upstream_health find_health is_healthy
is_healthy-get_upstream_health hc name addr = elim (Bool-cases hc.targets_poisoned) [
  | inl e ↦ rw e (unfold lookup in (refl, refl))
  | inr e ↦ rw e (elim (Option-cases (lookup name hc.targets)) [
    | inl o ↦ rw o (unfold lookup in (refl, refl))
    | inr (ts, o) ↦
        rw (o, lookup-statuses addr ts)
          (elim (Option-cases (lookup addr ts)) [
            | inl u ↦ rw u (refl, refl)
            | inr (h, u) ↦ rw u (refl, refl)
          ])
  ])
]

-- Reports that are TCP failures or successful status codes.
abbrev pub Mixed : HealthCheckerConfig → List Report → Type 0
Mixed c [] = Unit {0}
Mixed c (success ∷ rs) = ⊥
Mixed c (http_status code ∷ rs) = IsSuccess c (http_status code) × Mixed c rs
Mixed c (tcp_failure ∷ rs) = Mixed c rs
Mixed c (timeout ∷ rs) = ⊥

abbrev pub count_tcp : List Report → ℕ
count_tcp [] = 0
count_tcp (tcp_failure ∷ rs) = suc (count_tcp rs)
count_tcp (success ∷ rs) = count_tcp rs
count_tcp (http_status code ∷ rs) = count_tcp rs
count_tcp (timeout ∷ rs) = count_tcp rs

-- A successful status code in between keeps the count of TCP failures.
Mixed-step :
    (c : HealthCheckerConfig) (code : ℕ) (h : TargetHealth)
    → IsSuccess c (http_status code)
    → c.healthy_successes ≡ 0
    → ((on_report (http_status code) c h).tcp_failures ≡ h.tcp_failures)
      × ((on_report (http_status code) c h).status ≡ h.status)
unfolding on_report
Mixed-step c code h g z = ground arith

Mixed-run :
    (c : HealthCheckerConfig) (rs : List Report) (h : TargetHealth)
    → Mixed c rs
    → c.healthy_successes ≡ 0
    → h.tcp_failures + count_tcp rs < 2147483648
    → c.unhealthy_tcp_failures < 2147483648
    → ((0 < c.unhealthy_tcp_failures → h.tcp_failures < c.unhealthy_tcp_failures)
        × (h.status ≡ healthy))
      ⊎ ((0 < c.unhealthy_tcp_failures)
          × (c.unhealthy_tcp_failures ≤ h.tcp_failures)
          × (h.status ≡ unhealthy))
    → healthy_now (run_target c rs h).status
      ≡ not (
          ltb 0 c.unhealthy_tcp_failures
          && leb c.unhealthy_tcp_failures (h.tcp_failures + count_tcp rs))
unfolding run_target
Mixed-run c [] h x z m l s = ground arith
Mixed-run c (success ∷ rs) h x z m l s = absurd x
Mixed-run c (timeout ∷ rs) h x z m l s = absurd x
Mixed-run c (http_status code ∷ rs) h x z m l s =
    let step = Mixed-step c code h x.0 z in
    ground (arith, Mixed-run c rs (on_report (http_status code) c h) x.1 z)
Mixed-run c (tcp_failure ∷ rs) h x z m l s =
    let step = on_failure c refused tcp_failure h tt (omega arith) l in
    ground (arith, Mixed-run c rs (on_report tcp_failure c h) x z)

-- The TCP failures that count need not be consecutive: with `healthy_successes` at 0, a target
-- just registered whose reports are TCP failures and successful status codes, mixed in any
-- order, is unhealthy exactly when the positive limit is at most the number of all its TCP
-- failures; below 2 ^ 31.
pub is_healthy-Mixed :
    (hc : HealthChecker) (name addr : String) (addrs : List String) (c : HealthCheckerConfig)
    → hc.targets_poisoned ≡ false
    → hc.configs_poisoned ≡ false
    → contains addrs addr ≡ true
    → (es : List (String × String × Report)) → Mixed c (reports_for name addr es)
    → c.healthy_successes ≡ 0
    → count_tcp (reports_for name addr es) < 2147483648
    → c.unhealthy_tcp_failures < 2147483648
    → is_healthy (run (register_upstream hc name addrs c) es) name addr
      ≡ not (
          ltb 0 c.unhealthy_tcp_failures
          && leb c.unhealthy_tcp_failures (count_tcp (reports_for name addr es)))
is_healthy-Mixed hc name addr addrs c tg cg member es x z m l =
    is_healthy-register hc name addr addrs c tg cg member es
    ∙ Mixed-run c (reports_for name addr es) default_health x z (omega arith) l
        (inl ((λ p. p), refl))
    ∙ rw (zero-add (count_tcp (reports_for name addr es))) refl
