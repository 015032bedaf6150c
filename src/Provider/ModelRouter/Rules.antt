-- ===== src/Provider/ModelRouter/Rules.antt =====
-- The rules that the model router of crates/kong-ai/src/provider/router.rs accepts.
use mathlib.Core.Path.{subst}
use mathlib.Core.List.{Memᴰ}
use mathlib.Core.List.Memᴰ
use kong_rust.Common.{
  ◌≡◌, ◌∙◌, refl, sym, ap, Bool, true, false, Option, none, some, List, [], ◌∷◌, inl, inr, is_empty,
  any, if◌then◌else◌, ltb, some_inj,
}
use kong_rust.Router.Types.{Engine}
use kong_rust.Provider.ModelRouter.{
  ModelTargetConfig, ModelRouteConfig, max_model_weight, CompiledRoute, ModelRouter, compile_rule,
  compile_rules, from_configs,
}

module _ (engine : Engine) (Value : Type 0) where
  abbrev Target : Type 0
  Target = ModelTargetConfig Value

  -- A rule that `from_configs` lets in: it has targets, and their weights are not above the greatest.
  abbrev pub IsRule : CompiledRoute engine Value → Type 0
  IsRule rule =
      (is_empty rule.targets ≡ false)
      × (any (λ (t : Target). ltb max_model_weight t.weight) rule.targets ≡ false)

  abbrev pub AreRules : List (CompiledRoute engine Value) → Type 0
  AreRules rules = (rule : CompiledRoute engine Value) → Memᴰ rule rules → IsRule rule

  compile_rule-IsRule :
      (cfg : ModelRouteConfig Value) (rule : CompiledRoute engine Value)
      → compile_rule engine Value cfg ≡ some rule
      → IsRule rule
  compile_rule-IsRule cfg rule h =
      go (is_empty cfg.targets) (any (λ (t : Target). ltb max_model_weight t.weight) cfg.targets)
        (engine.compile cfg.pattern) refl refl h
    where
      go :
          (b c : Bool) (o : Option engine.Regex)
          → is_empty cfg.targets ≡ b
          → any (λ (t : Target). ltb max_model_weight t.weight) cfg.targets ≡ c
          → (if b
              then none
              else if c
              then none
              else elim o as (λ x. Option (CompiledRoute engine Value)) [
                | none ↦ none
                | some r ↦ some (record { pattern = r; targets = cfg.targets })
              ])
            ≡ some rule
          → IsRule rule
      go true c o e f k = cc k
      go false true o e f k = cc k
      go false false none e f k = cc k
      go false false (some r) e f k =
          let same = ap (λ (q : CompiledRoute engine Value). q.targets) (sym (some_inj k)) in
          (ap is_empty same ∙ e, ap (any (λ (t : Target). ltb max_model_weight t.weight)) same ∙ f)

  compile_rules-AreRules :
      (cfgs : List (ModelRouteConfig Value)) (rules : List (CompiledRoute engine Value))
      → compile_rules engine Value cfgs ≡ some rules
      → AreRules rules
  compile_rules-AreRules [] rules h =
      λ rule m. absurd (Memᴰ.not-nil (subst (Memᴰ rule) (sym (some_inj h)) m))
  compile_rules-AreRules (cfg ∷ cfgs) rules h =
      go (compile_rule engine Value cfg) (compile_rules engine Value cfgs) refl refl
        (λ rs e. compile_rules-AreRules cfgs rs e) h
    where
      go :
          (o : Option (CompiledRoute engine Value)) (p : Option (List (CompiledRoute engine Value)))
          → compile_rule engine Value cfg ≡ o
          → compile_rules engine Value cfgs ≡ p
          → ((rs : List (CompiledRoute engine Value))
              → compile_rules engine Value cfgs ≡ some rs
              → AreRules rs)
          → (elim o as (λ x. Option (List (CompiledRoute engine Value))) [
            | none ↦ none
            | some rule ↦ elim p [ none ↦ none | some rules ↦ some (rule ∷ rules) ]
          ])
            ≡ some rules
          → AreRules rules
      go none p e f further k = cc k
      go (some first) none e f further k = cc k
      go (some first) (some rs) e f further k = λ rule m.
          elim (Memᴰ.cases_cons (subst (Memᴰ rule) (sym (some_inj k)) m)) [
            | inl i ↦ rw i (compile_rule-IsRule cfg first e)
            | inr n ↦ further rs f rule n
          ]

  pub from_configs-AreRules :
      (cfgs : List (ModelRouteConfig Value)) (router : ModelRouter engine Value)
      → from_configs engine Value cfgs ≡ some router
      → AreRules router.rules
  unfolding from_configs
  from_configs-AreRules cfgs router h = go (compile_rules engine Value cfgs) refl h
    where
      go :
          (o : Option (List (CompiledRoute engine Value)))
          → compile_rules engine Value cfgs ≡ o
          → (elim o as (λ x. Option (ModelRouter engine Value)) [
            | none ↦ none
            | some rules ↦ some (record { rules = rules; counter = 0 })
          ])
            ≡ some router
          → AreRules router.rules
      go none e k = cc k
      go (some rules) e k =
          subst (λ (r : ModelRouter engine Value). AreRules r.rules) (some_inj k)
            (compile_rules-AreRules cfgs rules e)
