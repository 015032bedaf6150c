-- ===== src/Health/Tests.antt =====
-- The unit tests of crates/kong-proxy/src/health.rs, and the theorems at concrete reports.
use kong_rust.Common.{
  string_keyed, string_keyed, ◌≡◌, refl, String, true, false, List, [], ◌∷◌, arith,
}
use kong_rust.Common.Assoc.{lookup, insert, adjust}
use kong_rust.Health.Target.{
  unhealthy, TargetHealth, HealthCheckerConfig, default_health, default_config, on_http_status,
}
use kong_rust.Health.{
  HealthChecker, Report, http_status, tcp_failure, new, report, find_health, find_config,
  is_healthy, fresh_targets, register_upstream, update_health, ProbeOutcome, failed,
}
use kong_rust.Health.Runs.{run, reports_for, track, find_health-run}
use kong_rust.Health.Thresholds.{bad_status, is_healthy-failures}
use kong_rust.Health.Recovery.{is_healthy-successes}
use kong_rust.Health.Active.{is_healthy-Mixed}

abbrev config : HealthCheckerConfig
config = record default_config {
  unhealthy_http_failures = 3;
  passive_unhealthy_statuses = 500 ∷ 503 ∷ [];
  healthy_successes = 2;
}

abbrev up : String
up = "test-upstream"

abbrev target : String
target = "10.0.0.1:80"

abbrev other : String
other = "10.0.0.2:80"

abbrev both : List String
both = target ∷ other ∷ []

abbrev fail : String × String × Report
fail = (up, target, http_status 500)

abbrev fine : String × String × Report
fine = (up, target, http_status 200)

abbrev start : HealthChecker
start = register_upstream new up both config

down_after_three : is_healthy (run start (fail ∷ fail ∷ fail ∷ [])) up target ≡ false
unfolding is_healthy find_health run report register_upstream fresh_targets update_health new lookup
    insert adjust on_http_status
down_after_three = refl

up_after_two : is_healthy (run start (fail ∷ fail ∷ [])) up target ≡ true
unfolding is_healthy find_health run report register_upstream fresh_targets update_health new lookup
    insert adjust on_http_status
up_after_two = refl

recovers_after_two : is_healthy (run start (fail ∷ fail ∷ fail ∷ fine ∷ fine ∷ [])) up target ≡ true
unfolding is_healthy find_health run report register_upstream fresh_targets update_health new lookup
    insert adjust on_http_status
recovers_after_two = refl

unknown_is_healthy : is_healthy new "unknown" "0.0.0.0:0" ≡ true
unfolding is_healthy find_health new lookup
unknown_is_healthy = refl

-- Reports of another target come in between.
is_healthy-failures_example :
    is_healthy
      (run start (fail ∷ (up, other, tcp_failure) ∷ (up, target, http_status 503) ∷ fail ∷ []))
      up
      target
    ≡ false
unfolding reports_for
is_healthy-failures_example =
    is_healthy-failures new up target both config (unfold new in refl) (unfold new in refl) refl
      bad_status (fail ∷ (up, other, tcp_failure) ∷ (up, target, http_status 503) ∷ fail ∷ [])
      (refl, (refl, (refl, tt))) (omega arith) (omega arith)

find_health-run_example :
    find_health (run start (fail ∷ (up, other, tcp_failure) ∷ [])) up target
    ≡ track
        (find_config start up)
        (reports_for up target (fail ∷ (up, other, tcp_failure) ∷ []))
        (find_health start up target)
find_health-run_example = find_health-run start (fail ∷ (up, other, tcp_failure) ∷ []) up target

abbrev down_health : TargetHealth
down_health = record default_health { status = unhealthy; http_failures = 3 }

abbrev down_with : HealthCheckerConfig → HealthChecker
down_with c = record {
  targets = (up, (target, down_health) ∷ []) ∷ [];
  targets_poisoned = false;
  configs = (up, c) ∷ [];
  configs_poisoned = false;
}

is_healthy-successes_example :
    is_healthy (run (down_with config) (fine ∷ fine ∷ [])) up target ≡ true
is_healthy-successes_example =
    is_healthy-successes (down_with config) up target config down_health
      (unfold find_health lookup in refl) (unfold find_config lookup in refl) refl (http_status 200)
      2 (fine ∷ fine ∷ []) (refl, refl) refl (unfold reports_for in refl) (omega arith)
      (omega arith)

abbrev refused : String → ProbeOutcome
refused url = failed

abbrev tcp_config : HealthCheckerConfig
tcp_config = record default_config { unhealthy_tcp_failures = 2 }

abbrev interleaved : List (String × String × Report)
interleaved = (up, target, tcp_failure) ∷ fine ∷ fine ∷ (up, target, tcp_failure) ∷ []

-- Two TCP failures with two good answers between them bring the target down.
is_healthy-Mixed_example :
    is_healthy (run (register_upstream new up both tcp_config) interleaved) up target ≡ false
unfolding reports_for
is_healthy-Mixed_example =
    is_healthy-Mixed new up target both tcp_config (unfold new in refl) (unfold new in refl) refl
      interleaved ((refl, refl), ((refl, refl), tt)) refl (omega arith) (omega arith)
