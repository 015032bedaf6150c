-- ===== src/Health/Runs.antt =====
-- What any sequence of reports does to one target of crates/kong-proxy/src/health.rs.
use mathlib.Core.Option
use kong_rust.Common.{
  ◌≡◌, refl, sym, if-same, String, Bool, true, false, ◌&&◌, Option, none, some, List, [], ◌∷◌,
  arith, Option-cases, inl, inr, ◌∙◌, Bool-cases, if◌then◌else◌, ◌==◌, eq_iff, string_keyed,
  nat_keyed,
}
use kong_rust.Common.Assoc.{lookup, adjust, lookup-adjust}
use kong_rust.Health.Target.{TargetHealth, HealthCheckerConfig}
use kong_rust.Health.{
  Targets, HealthChecker, Report, success, http_status, tcp_failure, timeout, on_report, report,
  find_health, find_config, update_health, report_success, report_http_status, report_tcp_failure,
  report_timeout,
}

unfoldable pub run : HealthChecker → List (String × String × Report) → HealthChecker
run hc [] = hc
run hc (e ∷ es) = run (report hc e) es

-- The reports about one target, in order.
unfoldable pub reports_for : String → String → List (String × String × Report) → List Report
reports_for name addr [] = []
reports_for name addr ((n, a, r) ∷ es) =
    let rest = reports_for name addr es in if n == name && a == addr then r ∷ rest else rest

unfoldable pub run_target : HealthCheckerConfig → List Report → TargetHealth → TargetHealth
run_target c [] h = h
run_target c (r ∷ rs) h = run_target c rs (on_report r c h)

-- What `run` should come to for one target.
unfoldable pub track :
    Option HealthCheckerConfig → List Report → Option TargetHealth → Option TargetHealth
track none rs h = h
track (some c) rs h = Option.map (run_target c rs) h

report-update :
    (hc : HealthChecker) (n a : String) (r : Report)
    → report hc (n, a, r) ≡ update_health hc n a (on_report r)
unfolding report report_success report_http_status report_tcp_failure report_timeout on_report
report-update hc n a success = refl
report-update hc n a (http_status code) = refl
report-update hc n a tcp_failure = refl
report-update hc n a timeout = refl

pub find_config-update_health :
    (hc : HealthChecker) (n a name : String) (f : HealthCheckerConfig → TargetHealth → TargetHealth)
    → find_config (update_health hc n a f) name ≡ find_config hc name
unfolding find_config update_health
find_config-update_health hc n a name f = ground arith

-- Adjusting one target of one upstream in the nested map.
lookup-adjust_target :
    (n a name addr : String) (g : TargetHealth → TargetHealth) (m : List (String × Targets))
    → elim (lookup name (adjust n (adjust a g) m)) [ none ↦ none | some ts ↦ lookup addr ts ] ≡ (
        if n == name && a == addr
        then Option.map g (elim (lookup name m) [ none ↦ none | some ts ↦ lookup addr ts ])
        else elim (lookup name m) [ none ↦ none | some ts ↦ lookup addr ts ])
lookup-adjust_target n a name addr g m =
    rw (lookup-adjust name n (adjust a g) m) (elim (Option-cases (lookup name m)) [
      | inl e ↦ rw e (ground arith)
      | inr (ts, e) ↦ rw e (ground (arith, lookup-adjust addr a g ts))
    ])

-- What an update does to the counters of the target that it is about.
abbrev pub changed :
    Option HealthCheckerConfig
    → (HealthCheckerConfig → TargetHealth → TargetHealth)
    → Option TargetHealth
    → Option TargetHealth
changed none f h = h
changed (some c) f h = Option.map (f c) h

find_health-with :
    (oc : Option HealthCheckerConfig) (p : Bool) (hc : HealthChecker) (n a name addr : String)
    (f : HealthCheckerConfig → TargetHealth → TargetHealth)
    → find_config hc n ≡ oc
    → hc.targets_poisoned ≡ p
    → find_health (update_health hc n a f) name addr ≡ (
        if n == name && a == addr
        then changed oc f (find_health hc name addr)
        else find_health hc name addr)
unfolding find_health update_health
find_health-with none p hc n a name addr f e q =
    rw (e, update_health) (sym (if-same (n == name && a == addr) _))
find_health-with (some c) true hc n a name addr f e q =
    rw (e, update_health) (rw q (sym (if-same (n == name && a == addr) none)))
find_health-with (some c) false hc n a name addr f e q =
    rw (e, update_health) (rw q ((lookup-adjust_target n a name addr (f c) hc.targets)))

-- An update reaches the target that it names, and no other.
pub find_health-update_health :
    (hc : HealthChecker) (n a name addr : String)
    (f : HealthCheckerConfig → TargetHealth → TargetHealth)
    → find_health (update_health hc n a f) name addr ≡ (
        if n == name && a == addr
        then changed (find_config hc n) f (find_health hc name addr)
        else find_health hc name addr)
find_health-update_health hc n a name addr f =
    find_health-with (find_config hc n) hc.targets_poisoned hc n a name addr f refl refl

report-changed :
    (hc : HealthChecker) (n a : String) (r : Report) (name addr : String)
    → find_health (report hc (n, a, r)) name addr ≡ (
        if n == name && a == addr
        then changed (find_config hc n) (on_report r) (find_health hc name addr)
        else find_health hc name addr)
report-changed hc n a r name addr =
    rw (report-update hc n a r) (find_health-update_health hc n a name addr (on_report r))

find_config-report :
    (hc : HealthChecker) (n a : String) (r : Report) (name : String)
    → find_config (report hc (n, a, r)) name ≡ find_config hc name
find_config-report hc n a r name =
    rw (report-update hc n a r) (find_config-update_health hc n a name (on_report r))

track-cons :
    (oc : Option HealthCheckerConfig) (r : Report) (rs : List Report) (h : Option TargetHealth)
    → track oc rs (changed oc (on_report r) h) ≡ track oc (r ∷ rs) h
unfolding track run_target
track-cons none r rs h = refl
track-cons (some c) r rs none = refl
track-cons (some c) r rs (some h) = refl

pub track-nil : (oc : Option HealthCheckerConfig) (h : Option TargetHealth) → h ≡ track oc [] h
unfolding track run_target
track-nil none h = refl
track-nil (some c) none = refl
track-nil (some c) (some h) = refl

names_of_hit : (n a name addr : String) → (n == name && a == addr) ≡ true → n ≡ name
names_of_hit n a name addr e = ground (arith, eq_iff n name)

-- The counters of a target after any reports are those that its own reports, in order, make of
-- its counters before: reports about other targets do not touch it.
pub find_health-run :
    (hc : HealthChecker) (es : List (String × String × Report)) (name addr : String)
    → find_health (run hc es) name addr
      ≡ track (find_config hc name) (reports_for name addr es) (find_health hc name addr)
unfolding run reports_for
find_health-run hc [] name addr = track-nil (find_config hc name) (find_health hc name addr)
find_health-run hc ((n, a, r) ∷ es) name addr =
    find_health-run (report hc (n, a, r)) es name addr
    ∙ rw (find_config-report hc n a r name, report-changed hc n a r name addr)
        (elim (Bool-cases (n == name && a == addr)) [
          | inl e ↦ rw e (
              rw (names_of_hit n a name addr e) (
                track-cons (find_config hc name) r (reports_for name addr es)
                  (find_health hc name addr)))
          | inr e ↦ rw e refl
        ])
