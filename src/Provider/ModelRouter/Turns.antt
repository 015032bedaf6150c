-- ===== src/Provider/ModelRouter/Turns.antt =====
-- The turns that the model router of crates/kong-ai/src/provider/router.rs gives the targets of a rule:
-- the schedule of the weighted round-robin.
use native.Mathlib.Nat.{mod-eq_of_lt}
use kong_rust.Common.{
  ℕ, zero, suc, ◌+◌, ◌%◌, ◌≤◌, ◌<◌, ◌≡◌, ◌∙◌, refl, ap, false, Option, none, some, List, [], ◌∷◌,
  map, length, find, nat_beq, arith,
}
use kong_rust.Common.Text.{Text}
use kong_rust.Router.Types.{Engine}
use kong_rust.Provider.Weighted.{sum, weighted_round_robin_index}
use kong_rust.Provider.Weighted.Schedule.{reduced, schedule}
use kong_rust.Provider.Weighted.Shares.{selections, selections-schedule}
use kong_rust.Provider.ModelRouter.{
  Resolved, no_rule, CompiledRoute, ModelRouter, resolution_at, resolution_by, weights_of, all_zero,
  resolve_rule, resolve,
}
use kong_rust.Provider.ModelRouter.Chosen.{not_all_zero}

module _ (engine : Engine) (Value : Type 0) (name : Text) where
  -- The resolutions of one name, `n` times in a row.
  abbrev pub resolve_times : ModelRouter engine Value → ℕ → List (Resolved Value)
  resolve_times router zero = []
  resolve_times router (suc n) =
      (resolve engine Value router name).0 ∷ resolve_times (resolve engine Value router name).1 n

  module _ (rules : List (CompiledRoute engine Value)) (rule : CompiledRoute engine Value)
      (first : find (λ (r : CompiledRoute engine Value). engine.is_match r.pattern name) rules
        ≡ some rule)
      (several : nat_beq (length rule.targets) 1 ≡ false)
      (weighed : all_zero engine Value (weights_of engine Value rule.targets) ≡ false) where
    abbrev at_counter : ℕ → ModelRouter engine Value
    at_counter counter = record { rules = rules; counter = counter }

    resolve-at :
        (counter : ℕ)
        → resolve engine Value (at_counter counter) name ≡ (
          resolution_by engine Value name rule.targets
              (weighted_round_robin_index (weights_of engine Value rule.targets) counter),
          at_counter ((counter + 1) % 18446744073709551616),
        )
    unfolding resolve
    resolve-at counter =
        ap stepped first ∙ ap (λ (found : Resolved Value × ℕ). (found.0, at_counter found.1)) turn
      where
        stepped : Option (CompiledRoute engine Value) → Resolved Value × ModelRouter engine Value
        stepped o = elim o [
          | none ↦ (no_rule, at_counter counter)
          | some r ↦
              let found = resolve_rule engine Value name r.targets counter in
              (found.0, at_counter found.1)
        ]

        turn : resolve_rule engine Value name rule.targets counter ≡ (
          resolution_by engine Value name rule.targets
              (weighted_round_robin_index (weights_of engine Value rule.targets) counter),
          (counter + 1) % 18446744073709551616,
        )
        turn = rw (resolve_rule, several, weighed) refl

    resolve_times-selections :
        (n counter : ℕ)
        → counter + n ≤ 18446744073709551616
        → resolve_times (at_counter counter) n
          ≡ map
              (resolution_by engine Value name rule.targets)
              (selections (weights_of engine Value rule.targets) counter n)
    resolve_times-selections zero counter h = refl
    resolve_times-selections (suc zero) counter h =
        ap (λ (found : Resolved Value × ModelRouter engine Value). found.0 ∷ [])
          (resolve-at counter)
    resolve_times-selections (suc (suc n)) counter h =
        ap
          (λ (found : Resolved Value × ModelRouter engine Value).
            found.0 ∷ resolve_times found.1 (suc n))
          (resolve-at counter)
        ∙ ap
            (λ (rest : List (Resolved Value)).
              resolution_by engine Value name rule.targets
                (weighted_round_robin_index (weights_of engine Value rule.targets) counter)
              ∷ rest)
            (ap (λ c. resolve_times (at_counter c) (suc n)) (next counter (omega (arith, h)))
              ∙ resolve_times-selections (suc n) (suc counter) (omega (arith, h)))
      where
        next : (c : ℕ) → c + 1 < 18446744073709551616 → (c + 1) % 18446744073709551616 ≡ suc c
        next c l = mod-eq_of_lt l ∙ omega arith

    -- Where a rule with several targets, not all of weight 0, is the first that matches a name, the
    -- resolutions of this name from a counter on that begins a period are the targets of one whole
    -- schedule of their weights, in its order. The weights that are reduced add up to less than 2 ^ 64,
    -- and the counter does not pass 2 ^ 64.
    pub resolve_times-schedule :
        (counter : ℕ)
        → sum (reduced (weights_of engine Value rule.targets)) < 18446744073709551616
        → counter % length (schedule (weights_of engine Value rule.targets)) ≡ 0
        → counter + length (schedule (weights_of engine Value rule.targets)) ≤ 18446744073709551616
        → resolve_times
            (at_counter counter)
            (length (schedule (weights_of engine Value rule.targets)))
          ≡ map
              (resolution_at engine Value name rule.targets)
              (schedule (weights_of engine Value rule.targets))
    resolve_times-schedule counter total begins room =
        resolve_times-selections (length (schedule (weights_of engine Value rule.targets))) counter
          room
        ∙ ap (map (resolution_by engine Value name rule.targets)) (
            selections-schedule (weights_of engine Value rule.targets) counter
              (not_all_zero engine Value (weights_of engine Value rule.targets) weighed) total
              begins)
        ∙ map_some (schedule (weights_of engine Value rule.targets))
      where
        map_some :
            (is : List ℕ)
            → map (resolution_by engine Value name rule.targets) (map some is)
              ≡ map (resolution_at engine Value name rule.targets) is
        map_some [] = refl
        map_some (i ∷ is) =
            ap
              (λ (rest : List (Resolved Value)).
                resolution_at engine Value name rule.targets i ∷ rest)
              (map_some is)
