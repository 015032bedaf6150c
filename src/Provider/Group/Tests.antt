-- ===== src/Provider/Group/Tests.antt =====
-- Runs of the model group balancer, and its theorems at concrete groups.
use mathlib.Core.List.{Memᴰ}
use mathlib.Core.List.Memᴰ
use kong_rust.Common.{
  ℕ, ◌+◌, ◌≤◌, ◌≡◌, refl, true, false, none, some, List, [], ◌∷◌, map, arith, length, leb,
}
use kong_rust.Provider.Weighted.{divisor, weighted_round_robin_index}
use kong_rust.Provider.Weighted.Schedule.{rounds, schedule}
use kong_rust.Provider.Group.{
  AiModel, ModelEntry, ModelGroupBalancer, selected, healthy, new, at, eligible, select_for,
  report_success, report_failure, dedup, tier,
}
use kong_rust.Provider.Group.Order.{rank}
use kong_rust.Provider.Group.Tiers.{weights}
use kong_rust.Provider.Group.Select.{select_for-best, select_for_total}
use kong_rust.Provider.Group.Rotation.{active_tier, first_tier, select_times, select_times-schedule}
use kong_rust.Provider.Group.Cooldown.{
  health_of, available_at, present, Failure, fail_times, available_at-rate_limited,
  available_at-fail_times,
}

abbrev main_model : AiModel
main_model = record { id = 1; priority = 10; weight = 3; max_input_tokens = none; enabled = true }

abbrev side_model : AiModel
side_model = record {
  id = 2;
  priority = 10;
  weight = 1;
  max_input_tokens = some 100;
  enabled = true;
}

abbrev spare_model : AiModel
spare_model = record { id = 3; priority = 0; weight = 1; max_input_tokens = none; enabled = true }

abbrev entry : AiModel → ModelEntry
entry m = record { model = m; health = healthy }

abbrev group : ModelGroupBalancer
group = record {
  entries = entry main_model ∷ entry side_model ∷ entry spare_model ∷ [];
  counter = 0;
}

sorts : new (spare_model ∷ side_model ∷ main_model ∷ []) ≡ group
unfolding new
sorts = refl

-- The prompt of 200 tokens does not fit the side model, so the whole tier is the main model.
prefers_fit : (select_for 0 (some 200) group).1 ≡ selected (entry main_model)
unfolding select_for weighted_round_robin_index
prefers_fit = refl

select_for-best_example :
    Memᴰ (entry main_model) group.entries
    × (eligible 0 (some 200) (entry main_model) ≡ true)
    × ((f : ModelEntry)
        → Memᴰ f group.entries
        → eligible 0 (some 200) f ≡ true
        → rank f ≤ rank (entry main_model))
select_for-best_example =
    select_for-best 0 (some 200) group (entry main_model) (omega arith) prefers_fit

select_for_total_example : (e : ModelEntry) × ((select_for 5 none group).1 ≡ selected e)
select_for_total_example =
    select_for_total 5 none group (entry spare_model) (Memᴰ.tail (Memᴰ.tail (Memᴰ.head refl)))
      (unfold eligible in refl) (omega arith)

abbrev off : ModelGroupBalancer
off = record { entries = entry (record main_model { enabled = false }) ∷ []; counter = 7 }

off_idle : (f : ModelEntry) → Memᴰ f off.entries → eligible 0 none f ≡ false
unfolding eligible
off_idle f (Memᴰ.head e) = rw e refl
off_idle f (Memᴰ.tail m) = absurd (Memᴰ.not-nil m)

abbrev tier_one : List ModelEntry
tier_one = entry main_model ∷ entry side_model ∷ []

select_times-schedule_example :
    select_times (length (schedule (weights tier_one))) 0 none group
    ≡ map (λ i. at tier_one (some i)) (schedule (weights tier_one))
select_times-schedule_example =
    select_times-schedule 0 none tier_one (λ e. unfold divisor in omega arith) refl group
      (unfold active_tier first_tier dedup tier in refl) (unfold divisor in omega arith)
      (unfold rounds divisor in omega arith) (unfold rounds divisor in refl)

available_at-rate_limited_example :
    available_at 500 1 (report_failure 100 1 (some 429) group) ≡ leb (100 + 10_000_000_000) 500
available_at-rate_limited_example =
    available_at-rate_limited 100 500 1 group (unfold present health_of in refl)

abbrev failure : ℕ → Failure
failure time = record { time = time; status = some 500 }

available_at-fail_times_example :
    (available_at 900 1 (fail_times 1 (failure 10 ∷ []) (report_success 1 group)) ≡ true)
    × (available_at 900 1 (fail_times 1 (failure 10 ∷ failure 20 ∷ []) (report_success 1 group))
        ≡ true)
    × (available_at 900 1 (
          fail_times 1
            (failure 10 ∷ failure 20 ∷ failure 30 ∷ failure 40 ∷ [])
            (report_success 1 group))
        ≡ leb (40 + 30_000_000_000) 900)
available_at-fail_times_example =
    available_at-fail_times 900 1 (failure 10) (failure 20) (failure 30) (failure 40 ∷ []) group
      (unfold present health_of in refl) (refl, (refl, (refl, (refl, tt)))) (omega arith)
