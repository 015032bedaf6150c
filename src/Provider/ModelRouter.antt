-- ===== src/Provider/ModelRouter.antt =====
-- The model router of crates/kong-ai/src/provider/router.rs: rules by regex, and the weighted
-- round-robin over the targets of a rule.
--
-- The JSON of `auth_config` is of a type `Value`. Of a resolution the fields that are not the same for
-- all are kept. The message of an error is left out.
use Prim.Native.Nat.{compare}
use kong_rust.Common.{
  ℕ, ◌+◌, ◌%◌, Bool, true, false, Option, none, some, List, [], ◌∷◌, map, length, is_empty, any,
  all, find, get_elem?, if◌then◌else◌, nat_beq, ltb,
}
use kong_rust.Common.Text.{Text}
use kong_rust.Router.Types.{Engine}
use kong_rust.Provider.Weighted.{weighted_round_robin_index}
pub mod Rules
pub mod Chosen
pub mod Turns
mod Tests

pub record ModelTargetConfig (Value : Type 0) : Type 0 where
  pub provider_type : Text
  pub model_name : Text
  pub endpoint_url : Option Text
  pub auth_config : Value
  pub weight : ℕ

pub record ModelRouteConfig (Value : Type 0) : Type 0 where
  pub pattern : Text
  pub targets : List (ModelTargetConfig Value)

pub record RouteResolution (Value : Type 0) : Type 0 where
  pub provider_type : Text
  pub name : Text
  pub model_name : Text
  pub endpoint_url : Option Text
  pub auth_config : Value

-- What `resolve` returns, or that it panics.
pub data Resolved (Value : Type 0) : Type 0 where
  no_rule : Resolved Value
  resolved : (resolution : RouteResolution Value) → Resolved Value
  panicked : Resolved Value

abbrev pub max_model_weight : ℕ
max_model_weight = 10_000

module _ (engine : Engine) (Value : Type 0) where
  abbrev Target : Type 0
  Target = ModelTargetConfig Value

  pub record CompiledRoute : Type 0 where
    pub pattern : engine.Regex
    pub targets : List Target

  pub record ModelRouter : Type 0 where
    pub rules : List CompiledRoute
    pub counter : ℕ

  abbrev pub compile_rule : ModelRouteConfig Value → Option CompiledRoute
  compile_rule cfg =
      if is_empty cfg.targets
      then none
      else if any (λ (t : Target). ltb max_model_weight t.weight) cfg.targets
      then none
      else elim (engine.compile cfg.pattern) [
        | none ↦ none
        | some r ↦ some (record { pattern = r; targets = cfg.targets })
      ]

  abbrev pub compile_rules : List (ModelRouteConfig Value) → Option (List CompiledRoute)
  compile_rules [] = some []
  compile_rules (cfg ∷ cfgs) =
      let further = compile_rules cfgs in
      elim (compile_rule cfg) [
        | none ↦ none
        | some rule ↦ elim further [ none ↦ none | some rules ↦ some (rule ∷ rules) ]
      ]

  unfoldable pub from_configs : List (ModelRouteConfig Value) → Option ModelRouter
  from_configs cfgs = elim (compile_rules cfgs) [
    | none ↦ none
    | some rules ↦ some (record { rules = rules; counter = 0 })
  ]

  abbrev pub build_resolution : Text → Target → RouteResolution Value
  build_resolution name target = record {
    provider_type = target.provider_type;
    name = name;
    model_name = target.model_name;
    endpoint_url = target.endpoint_url;
    auth_config = target.auth_config;
  }

  -- `targets[index]`, where an index out of range is a panic.
  abbrev pub resolution_at : Text → List Target → ℕ → Resolved Value
  resolution_at name targets index = elim (get_elem? targets index) [
    | none ↦ panicked
    | some target ↦ resolved (build_resolution name target)
  ]

  abbrev pub resolution_by : Text → List Target → Option ℕ → Resolved Value
  resolution_by name targets none = panicked
  resolution_by name targets (some index) = resolution_at name targets index

  abbrev pub weights_of : List Target → List ℕ
  weights_of = map (λ (t : Target). t.weight)

  abbrev pub all_zero : List ℕ → Bool
  all_zero = all (λ w. nat_beq w 0)

  -- The resolution by a rule, and the counter after it.
  abbrev pub resolve_rule : Text → List Target → ℕ → Resolved Value × ℕ
  resolve_rule name targets counter =
      if nat_beq (length targets) 1
      then (resolution_at name targets 0, counter)
      else if all_zero (weights_of targets)
      then (resolution_at name targets 0, counter)
      else (
        resolution_by name targets (weighted_round_robin_index (weights_of targets) counter),
        (counter + 1) % 18446744073709551616,
      )

  unfoldable pub resolve : ModelRouter → Text → Resolved Value × ModelRouter
  resolve router name =
      elim (find (λ (r : CompiledRoute). engine.is_match r.pattern name) router.rules) [
        | none ↦ (no_rule, router)
        | some rule ↦
            let found = resolve_rule name rule.targets router.counter in
            (found.0, record { rules = router.rules; counter = found.1 })
      ]
