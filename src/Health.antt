-- ===== src/Health.antt =====
-- The health checker of crates/kong-proxy/src/health.rs: counters of one target, the two maps of
-- the checker with their locks, and the reports that change them.
--
-- An `i32` counter or threshold is its bit pattern below 2 ^ 32, compared as a signed number. Of
-- the `f64` interval only the test `active_interval <= 0.0` is kept, and the outcome of a probe
-- over the network is an argument.
pub mod Target
pub mod Runs
pub mod Thresholds
pub mod Recovery
pub mod Active
pub mod Tests
use kong_rust.Common.{
  ℕ, String, Bool, true, false, not, Option, none, some, List, [], ◌∷◌, ◌++◌, ◌||◌, map,
  if◌then◌else◌, string_keyed,
}
use Prim.Native.String as Str
use kong_rust.Common.Assoc.{lookup, insert, adjust}
use Target.{
  HealthStatus, TargetHealth, default_health, HealthCheckerConfig, healthy_now, on_success,
  on_http_status, on_tcp_failure, on_timeout,
}

abbrev pub Targets : Type 0
Targets = List (String × TargetHealth)

-- `poisoned` says that a thread panicked while it held the lock, so `read` and `write` fail.
pub record HealthChecker : Type 0 where
  pub targets : List (String × Targets)
  pub targets_poisoned : Bool
  pub configs : List (String × HealthCheckerConfig)
  pub configs_poisoned : Bool

pub new : HealthChecker
new = record { targets = []; targets_poisoned = false; configs = []; configs_poisoned = false }

-- `collect` into a map: each address once, with fresh counters.
pub fresh_targets : List String → Targets
fresh_targets [] = []
fresh_targets (addr ∷ addrs) = insert addr default_health (fresh_targets addrs)

pub register_upstream : HealthChecker → String → List String → HealthCheckerConfig → HealthChecker
register_upstream hc name addrs config = record hc {
  targets =
      if hc.targets_poisoned then hc.targets else insert name (fresh_targets addrs) hc.targets;
  configs = if hc.configs_poisoned then hc.configs else insert name config hc.configs;
}

-- The counters of one target, if it is registered and the lock is good.
unfoldable pub find_health : HealthChecker → String → String → Option TargetHealth
find_health hc name addr =
    if hc.targets_poisoned
    then none
    else elim (lookup name hc.targets) [ none ↦ none | some ts ↦ lookup addr ts ]

-- A target that is not registered counts as healthy.
abbrev pub healthy_by_default : Option TargetHealth → Bool
healthy_by_default none = true
healthy_by_default (some health) = healthy_now health.status

unfoldable pub is_healthy : HealthChecker → String → String → Bool
is_healthy hc name addr = healthy_by_default (find_health hc name addr)

-- The configuration that `update_health` clones, if there is one and the lock is good.
pub find_config : HealthChecker → String → Option HealthCheckerConfig
find_config hc name = if hc.configs_poisoned then none else lookup name hc.configs

pub update_health :
    HealthChecker
    → String
    → String
    → (HealthCheckerConfig → TargetHealth → TargetHealth)
    → HealthChecker
unfolding find_config
update_health hc name addr f = elim (find_config hc name) [
  | none ↦ hc
  | some config ↦
      if hc.targets_poisoned
      then hc
      else record hc { targets = adjust name (adjust addr (f config)) hc.targets }
]

pub report_success : HealthChecker → String → String → HealthChecker
report_success hc name addr = update_health hc name addr on_success

pub report_http_status : HealthChecker → String → String → ℕ → HealthChecker
report_http_status hc name addr code = update_health hc name addr (on_http_status code)

pub report_tcp_failure : HealthChecker → String → String → HealthChecker
report_tcp_failure hc name addr = update_health hc name addr on_tcp_failure

pub report_timeout : HealthChecker → String → String → HealthChecker
report_timeout hc name addr = update_health hc name addr on_timeout

statuses : Targets → List (String × HealthStatus)
statuses = map λ (addr, health). (addr, health.status)

pub get_upstream_health : HealthChecker → String → List (String × HealthStatus)
unfolding statuses
get_upstream_health hc name =
    if hc.targets_poisoned
    then []
    else elim (lookup name hc.targets) [ none ↦ [] | some ts ↦ statuses ts ]

-- What a probe of `do_http_check` under its timeout comes to.
pub data ProbeOutcome : Type 0 where
  answered : ℕ → ProbeOutcome
  failed : ProbeOutcome
  timed_out : ProbeOutcome

pub data Report : Type 0 where
  success : Report
  http_status : ℕ → Report
  tcp_failure : Report
  timeout : Report

unfoldable pub on_report : Report → HealthCheckerConfig → TargetHealth → TargetHealth
unfolding on_success on_http_status on_tcp_failure on_timeout
on_report success = on_success
on_report (http_status code) = on_http_status code
on_report tcp_failure = on_tcp_failure
on_report timeout = on_timeout

-- One of the four `report_` methods.
pub report : HealthChecker → String × String × Report → HealthChecker
unfolding report_success report_http_status report_tcp_failure report_timeout
report hc (name, addr, success) = report_success hc name addr
report hc (name, addr, http_status code) = report_http_status hc name addr code
report hc (name, addr, tcp_failure) = report_tcp_failure hc name addr
report hc (name, addr, timeout) = report_timeout hc name addr

pub tasks_of : String → String → Targets → List (String × String × String)
tasks_of name path = map λ (addr, health). (name, addr, path)

pub check_tasks :
    List (String × Targets) → List (String × HealthCheckerConfig) → List (String × String × String)
unfolding tasks_of
check_tasks targets [] = []
check_tasks targets ((name, config) ∷ configs) =
    let rest = check_tasks targets configs in
    if config.active_disabled then rest else elim (lookup name targets) [
      | none ↦ rest
      | some ts ↦ tasks_of name config.active_http_path ts ++ rest
    ]

pub report_of : ProbeOutcome → Report
report_of (answered code) = http_status code
report_of failed = tcp_failure
report_of timed_out = timeout

-- `format!("http://{}{}", addr, path)`.
pub url : String → String → String
url addr path = Str.◌++◌ (Str.◌++◌ "http://" addr) path

pub run_checks :
    (String → ProbeOutcome) → List (String × String × String) → HealthChecker → HealthChecker
unfolding report_of url
run_checks probe [] hc = hc
run_checks probe ((name, addr, path) ∷ tasks) hc =
    run_checks probe tasks (report hc (name, addr, report_of (probe (url addr path))))

-- One round of active checks: the tasks are collected first, and then probed one by one.
pub run_active_checks : (String → ProbeOutcome) → HealthChecker → HealthChecker
unfolding check_tasks run_checks
run_active_checks probe hc =
    if hc.configs_poisoned || hc.targets_poisoned
    then hc
    else run_checks probe (check_tasks hc.targets hc.configs) hc
