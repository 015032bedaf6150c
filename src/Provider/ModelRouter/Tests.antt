-- ===== src/Provider/ModelRouter/Tests.antt =====
-- Runs of the model router.
use mathlib.Core.List.{Memᴰ}
use mathlib.Core.List.Memᴰ
use kong_rust.Common.{
  ℕ, ◌≤◌, ◌≡◌, ◌⊎◌, inl, inr, refl, false, Option, none, some, [], ◌∷◌, map, length, arith,
}
use kong_rust.Common.Text.{Text, codes, starts_with}
use kong_rust.Router.Types.{Captures, Engine}
use kong_rust.Provider.Weighted.{divisor}
use kong_rust.Provider.Weighted.Schedule.{schedule, rounds}
use kong_rust.Provider.ModelRouter.{
  ModelTargetConfig, ModelRouteConfig, no_rule, CompiledRoute, ModelRouter, from_configs,
  resolution_at, weights_of, resolve,
}
use kong_rust.Provider.ModelRouter.Chosen.{IsResolved, resolve-IsResolved}
use kong_rust.Provider.ModelRouter.Turns.{resolve_times, resolve_times-schedule}

-- Patterns that ask for a prefix.
abbrev no_captures_of : Text → Text → Option Captures
no_captures_of r t = none

abbrev prefix_engine : Engine
prefix_engine = record {
  Regex = Text;
  compile = some;
  is_match = λ r t. starts_with t r;
  captures = no_captures_of;
  to_lowercase = λ t. t;
  to_uppercase = λ t. t;
}

abbrev target_of : Text → ℕ → ModelTargetConfig ℕ
target_of name weight = record {
  provider_type = name;
  model_name = name;
  endpoint_url = none;
  auth_config = 0;
  weight = weight;
}

abbrev two_targets : ModelRouteConfig ℕ
two_targets = record {
  pattern = codes "gpt";
  targets = target_of (codes "openai") 8 ∷ target_of (codes "azure") 2 ∷ [];
}

abbrev two_targets_rule : CompiledRoute prefix_engine ℕ
two_targets_rule = record { pattern = codes "gpt"; targets = two_targets.targets }

abbrev sample : ModelRouter prefix_engine ℕ
sample = record { rules = two_targets_rule ∷ []; counter = 0 }

sample_built : from_configs prefix_engine ℕ (two_targets ∷ []) ≡ some sample
unfolding from_configs
sample_built = refl

few_targets :
    (rule : CompiledRoute prefix_engine ℕ)
    → Memᴰ rule sample.rules
    → length rule.targets ≤ 4294967296
few_targets rule m = elim (Memᴰ.cases_cons m) [
  | inl e ↦ rw e (omega arith)
  | inr t ↦ absurd (Memᴰ.not-nil t)
]

resolve-IsResolved_example :
    IsResolved prefix_engine ℕ sample (codes "gpt-4o")
    ⊎ (((resolve prefix_engine ℕ sample (codes "gpt-4o")).0 ≡ no_rule)
        × ((rule : CompiledRoute prefix_engine ℕ)
            → Memᴰ rule sample.rules
            → starts_with (codes "gpt-4o") rule.pattern ≡ false))
resolve-IsResolved_example =
    resolve-IsResolved prefix_engine ℕ (two_targets ∷ []) sample sample (codes "gpt-4o")
      sample_built refl few_targets

resolve_times-schedule_example :
    resolve_times prefix_engine ℕ
      (codes "gpt-4o")
      sample
      (length (schedule (weights_of prefix_engine ℕ two_targets.targets)))
    ≡ map
        (resolution_at prefix_engine ℕ (codes "gpt-4o") two_targets.targets)
        (schedule (weights_of prefix_engine ℕ two_targets.targets))
resolve_times-schedule_example =
    resolve_times-schedule prefix_engine ℕ (codes "gpt-4o") (two_targets_rule ∷ []) two_targets_rule
      refl refl refl 0 (unfold divisor in omega arith) (unfold rounds divisor in refl)
      (unfold rounds divisor in omega arith)
