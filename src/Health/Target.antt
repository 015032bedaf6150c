-- ===== src/Health/Target.antt =====
-- One target of crates/kong-proxy/src/health.rs: its counters, the configuration, and what each
-- report does to the counters (the closures that the `report_` methods hand to `update_health`).
use kong_rust.Common.{
  ℕ, String, Bool, true, false, ◌&&◌, List, [], ◌∷◌, if◌then◌else◌, contains, nat_keyed,
}
use kong_rust.Common.Word.{incr_i32, lt_i32, le_i32}

pub data HealthStatus : Type 0 where
  healthy unhealthy dns_error : HealthStatus

pub record TargetHealth : Type 0 where
  pub status : HealthStatus
  pub successes : ℕ
  pub tcp_failures : ℕ
  pub timeouts : ℕ
  pub http_failures : ℕ

abbrev pub default_health : TargetHealth
default_health = record {
  status = healthy;
  successes = 0;
  tcp_failures = 0;
  timeouts = 0;
  http_failures = 0;
}

pub record HealthCheckerConfig : Type 0 where
  -- Whether `active_interval <= 0.0`, the one test made of the interval.
  pub active_disabled : Bool
  pub active_http_path : String
  pub healthy_successes : ℕ
  pub unhealthy_tcp_failures : ℕ
  pub unhealthy_timeouts : ℕ
  pub unhealthy_http_failures : ℕ
  pub passive_healthy_statuses : List ℕ
  pub passive_unhealthy_statuses : List ℕ

abbrev pub default_config : HealthCheckerConfig
default_config = record {
  active_disabled = true;
  active_http_path = "/";
  healthy_successes = 0;
  unhealthy_tcp_failures = 0;
  unhealthy_timeouts = 0;
  unhealthy_http_failures = 0;
  passive_healthy_statuses =
      200 ∷ 201 ∷ 202 ∷ 203 ∷ 204 ∷ 205 ∷ 206 ∷ 207 ∷ 208 ∷ 226 ∷ 300 ∷ 301 ∷ 302 ∷ 303 ∷ 304 ∷ 305
      ∷ 306 ∷ 307 ∷ 308 ∷ [];
  passive_unhealthy_statuses = 429 ∷ 500 ∷ 503 ∷ [];
}

abbrev pub healthy_now : HealthStatus → Bool
healthy_now healthy = true
healthy_now unhealthy = false
healthy_now dns_error = false

-- `limit > 0 && count >= limit` on `i32`.
abbrev pub reached : ℕ → ℕ → Bool
reached limit count = lt_i32 0 limit && le_i32 limit count

unfoldable pub on_success : HealthCheckerConfig → TargetHealth → TargetHealth
on_success config h =
    let n = incr_i32 h.successes in
    record {
      status = if reached config.healthy_successes n then healthy else h.status;
      successes = n;
      tcp_failures = 0;
      timeouts = 0;
      http_failures = 0;
    }

unfoldable pub on_http_failure : HealthCheckerConfig → TargetHealth → TargetHealth
on_http_failure config h =
    let n = incr_i32 h.http_failures in
    record h {
      status = if reached config.unhealthy_http_failures n then unhealthy else h.status;
      successes = 0;
      http_failures = n;
    }

unfoldable pub on_http_success : HealthCheckerConfig → TargetHealth → TargetHealth
on_http_success config h =
    let n = incr_i32 h.successes in
    record h {
      status = if reached config.healthy_successes n then healthy else h.status;
      successes = n;
      http_failures = 0;
    }

unfoldable pub on_http_status : ℕ → HealthCheckerConfig → TargetHealth → TargetHealth
unfolding on_http_failure on_http_success
on_http_status code config h =
    if contains config.passive_unhealthy_statuses code
    then on_http_failure config h
    else if contains config.passive_healthy_statuses code
    then on_http_success config h
    else h

unfoldable pub on_tcp_failure : HealthCheckerConfig → TargetHealth → TargetHealth
on_tcp_failure config h =
    let n = incr_i32 h.tcp_failures in
    record h {
      status = if reached config.unhealthy_tcp_failures n then unhealthy else h.status;
      successes = 0;
      tcp_failures = n;
    }

unfoldable pub on_timeout : HealthCheckerConfig → TargetHealth → TargetHealth
on_timeout config h =
    let n = incr_i32 h.timeouts in
    record h {
      status = if reached config.unhealthy_timeouts n then unhealthy else h.status;
      successes = 0;
      timeouts = n;
    }
