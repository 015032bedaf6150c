-- ===== src/Provider/ModelRouter/Chosen.antt =====
-- What the model router of crates/kong-ai/src/provider/router.rs resolves a name to.
use mathlib.Core.Path.{subst}
use mathlib.Core.List.{Memᴰ}
use native.Mathlib.Nat.{div-le_self}
use kong_rust.Common.{
  ℕ, zero, suc, ◌*◌, ◌/◌, ◌≤◌, ◌<◌, ◌≡◌, ◌≢◌, ◌∙◌, refl, sym, ap, ap₂, ◌||◌, Bool, true, false,
  ◌&&◌, Option, none, some, List, [], ◌∷◌, map, ◌⊎◌, inl, inr, length, is_empty, any, find,
  get_elem?, nat_beq, nat_beq_iff, ltb, arith,
}
use kong_rust.Common.Members.{Memᴰ-get_elem?}
use kong_rust.Common.First.{find-none, find-Memᴰ}
use kong_rust.Common.Text.{Text}
use kong_rust.Router.Types.{Engine}
use kong_rust.Provider.Weighted.{divisor, sum}
use kong_rust.Provider.Weighted.Gcd.{AllZero, divisor-zero}
use kong_rust.Provider.Weighted.Shares.{weight_at, weighted_round_robin_index_total}
use kong_rust.Provider.ModelRouter.Rules.{from_configs-AreRules}
use kong_rust.Provider.ModelRouter.{
  ModelTargetConfig, ModelRouteConfig, Resolved, no_rule, resolved, max_model_weight, CompiledRoute,
  ModelRouter, from_configs, build_resolution, resolution_at, resolution_by, weights_of, all_zero,
  resolve_rule, resolve,
}

neither : (a b : Bool) → (a || b) ≡ false → (a ≡ false) × (b ≡ false)
neither true b h = cc
neither false b h = (refl, h)

not_above : (w : ℕ) → ltb max_model_weight w ≡ false → w ≤ max_model_weight
not_above w h = ground arith

module _ (engine : Engine) (Value : Type 0) where
  abbrev Target : Type 0
  Target = ModelTargetConfig Value

  within_weights :
      (ts : List Target)
      → any (λ (t : Target). ltb max_model_weight t.weight) ts ≡ false
      → (d : ℕ) → sum (map (λ w. w / d) (weights_of engine Value ts)) ≤ max_model_weight * length ts
  within_weights [] h d = omega arith
  within_weights (t ∷ ts) h d =
      let p = neither (ltb max_model_weight t.weight) _ h in
      omega (arith, div-le_self t.weight d, not_above t.weight p.0, within_weights ts p.1 d)

  pub not_all_zero : (ws : List ℕ) → all_zero engine Value ws ≡ false → divisor ws ≢ 0
  not_all_zero ws h e = clash (sym (all_zero_of ws ((divisor-zero ws).0 e)) ∙ h)
    where
      all_zero_of : (ws : List ℕ) → AllZero ws → all_zero engine Value ws ≡ true
      all_zero_of [] z = refl
      all_zero_of (w ∷ ws) (z, zs) = ap₂ (λ a b. a && b) ((nat_beq_iff w 0).1 z) (all_zero_of ws zs)

      clash : true ≡ false → ⊥
      clash k = cc

  weight_at-target :
      (ts : List Target) (i : ℕ)
      → 0 < weight_at (weights_of engine Value ts) i
      → (t : Target) × ((get_elem? ts i ≡ some t) × (0 < t.weight))
  weight_at-target [] i h = absurd (omega (arith, h))
  weight_at-target (t ∷ ts) zero h = (t, (refl, h))
  weight_at-target (t ∷ ts) (suc i) h = weight_at-target ts i h

  -- The target that a list of targets resolves to: one of a positive weight, if there is a choice.
  record Picked (name : Text) (ts : List Target) (counter : ℕ) : Type 0 where
    target : Target
    listed : Memᴰ target ts
    weighed :
        (0 < target.weight)
        ⊎ ((length ts ≡ 1) ⊎ (all_zero engine Value (weights_of engine Value ts) ≡ true))
    result :
        (resolve_rule engine Value name ts counter).0
        ≡ resolved (build_resolution engine Value name target)

  first_target : (ts : List Target) → is_empty ts ≡ false → (t : Target) × (get_elem? ts 0 ≡ some t)
  first_target [] h = cc
  first_target (t ∷ ts) h = (t, refl)

  resolution_at-some :
      (name : Text) (ts : List Target) (i : ℕ) (t : Target)
      → get_elem? ts i ≡ some t
      → resolution_at engine Value name ts i ≡ resolved (build_resolution engine Value name t)
  resolution_at-some name ts i t h = rw (resolution_at, h) refl

  resolve_rule-Picked :
      (name : Text) (ts : List Target) (counter : ℕ)
      → is_empty ts ≡ false
      → any (λ (t : Target). ltb max_model_weight t.weight) ts ≡ false
      → length ts ≤ 4294967296
      → Picked name ts counter
  resolve_rule-Picked name ts counter nonempty light short =
      go (nat_beq (length ts) 1) (all_zero engine Value (weights_of engine Value ts)) refl refl
    where
      go :
          (b c : Bool)
          → nat_beq (length ts) 1 ≡ b
          → all_zero engine Value (weights_of engine Value ts) ≡ c
          → Picked name ts counter
      go true c e f =
          let (t, g) = first_target ts nonempty in
          record {
            target = t;
            listed = Memᴰ-get_elem? ts 0 g;
            weighed = inr (inl ((nat_beq_iff (length ts) 1).0 e));
            result = rw (resolve_rule, e) (resolution_at-some name ts 0 t g);
          }
      go false true e f =
          let (t, g) = first_target ts nonempty in
          record {
            target = t;
            listed = Memᴰ-get_elem? ts 0 g;
            weighed = inr (inr f);
            result = rw (resolve_rule, e, f) (resolution_at-some name ts 0 t g);
          }
      go false false e f =
          let (i, g, pos) =
            weighted_round_robin_index_total (weights_of engine Value ts) counter
              (not_all_zero (weights_of engine Value ts) f)
              (omega
                (arith, within_weights ts light (divisor (weights_of engine Value ts)), short)) in
          let (t, (k, heavy)) = weight_at-target ts i pos in
          record {
            target = t;
            listed = Memᴰ-get_elem? ts i k;
            weighed = inl heavy;
            result =
                rw (resolve_rule, e, f)
                  (ap (resolution_by engine Value name ts) g ∙ resolution_at-some name ts i t k);
          }

  -- The resolution of a name: the first rule whose pattern matches, and one of its targets.
  pub record IsResolved (router : ModelRouter engine Value) (name : Text) : Type 0 where
    pub rule : CompiledRoute engine Value
    pub target : Target
    pub first :
        find (λ (r : CompiledRoute engine Value). engine.is_match r.pattern name) router.rules
        ≡ some rule
    pub listed : Memᴰ target rule.targets
    pub weighed :
        (0 < target.weight)
        ⊎ ((length rule.targets ≡ 1)
            ⊎ (all_zero engine Value (weights_of engine Value rule.targets) ≡ true))
    pub result :
        (resolve engine Value router name).0 ≡ resolved (build_resolution engine Value name target)

  -- A router with the rules of a configuration that was accepted never panics, whatever its counter:
  -- it resolves a name to a target of the first rule that matches, one of a positive weight unless the
  -- rule has one target only or none of a positive weight; without such a rule it resolves to none. No
  -- rule has more than 2 ^ 32 targets.
  pub resolve-IsResolved :
      (cfgs : List (ModelRouteConfig Value)) (start router : ModelRouter engine Value) (name : Text)
      → from_configs engine Value cfgs ≡ some start
      → router.rules ≡ start.rules
      → ((rule : CompiledRoute engine Value)
          → Memᴰ rule router.rules
          → length rule.targets ≤ 4294967296)
      → IsResolved router name
        ⊎ (((resolve engine Value router name).0 ≡ no_rule)
            × ((rule : CompiledRoute engine Value)
                → Memᴰ rule router.rules
                → engine.is_match rule.pattern name ≡ false))
  unfolding resolve
  resolve-IsResolved cfgs start router name built same short =
      go (find (λ (r : CompiledRoute engine Value). engine.is_match r.pattern name) router.rules)
        refl
    where
      resolution : Option (CompiledRoute engine Value) → Resolved Value
      resolution o =
          (elim o as (λ x. Resolved Value × ModelRouter engine Value) [
            | none ↦ (no_rule, router)
            | some rule ↦
                let found = resolve_rule engine Value name rule.targets router.counter in
                (found.0, record { rules = router.rules; counter = found.1 })
          ]).0

      go :
          (o : Option (CompiledRoute engine Value))
          → find (λ (r : CompiledRoute engine Value). engine.is_match r.pattern name) router.rules
            ≡ o
          → IsResolved router name
            ⊎ (((resolve engine Value router name).0 ≡ no_rule)
                × ((rule : CompiledRoute engine Value)
                    → Memᴰ rule router.rules
                    → engine.is_match rule.pattern name ≡ false))
      go none e = inr (
        ap resolution e,
        find-none (λ (r : CompiledRoute engine Value). engine.is_match r.pattern name) router.rules
            e,
      )
      go (some rule) e =
          let member =
            find-Memᴰ (λ (r : CompiledRoute engine Value). engine.is_match r.pattern name)
              router.rules rule e in
          let valid =
            from_configs-AreRules engine Value cfgs start built rule
              (subst (Memᴰ rule) same member) in
          let picked =
            resolve_rule-Picked name rule.targets router.counter valid.0 valid.1
              (short rule member) in
          inl (record {
            rule = rule;
            target = picked.target;
            first = e;
            listed = picked.listed;
            weighed = picked.weighed;
            result = ap resolution e ∙ picked.result;
          })
