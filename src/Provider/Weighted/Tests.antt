-- ===== src/Provider/Weighted/Tests.antt =====
-- The unit tests of crates/kong-ai/src/provider/weighted.rs, and the theorems at concrete weights.
use kong_rust.Common.{ℕ, ◌*◌, ◌≡◌, refl, some, List, [], ◌∷◌, map, arith, length, get_elem?, ◌%◌}
use kong_rust.Provider.Weighted.{divisor, weighted_round_robin_index}
use kong_rust.Provider.Weighted.Schedule.{rounds, schedule, weighted_round_robin_index-schedule}
use kong_rust.Provider.Weighted.Shares.{
  count, weight_at, selections, count-schedule, selections-schedule,
}

equal_weights_alternate :
    selections (50 ∷ 50 ∷ []) 0 6 ≡ some 0 ∷ some 1 ∷ some 0 ∷ some 1 ∷ some 0 ∷ some 1 ∷ []
unfolding weighted_round_robin_index
equal_weights_alternate = refl

arbitrary_total_keeps_exact_ratio :
    selections (10_000 ∷ 5_000 ∷ []) 0 6 ≡ some 0 ∷ some 1 ∷ some 0 ∷ some 0 ∷ some 1 ∷ some 0 ∷ []
unfolding weighted_round_robin_index
arbitrary_total_keeps_exact_ratio = refl

zero_weight_is_skipped : weighted_round_robin_index (0 ∷ 7 ∷ []) 0 ≡ some 1
unfolding weighted_round_robin_index
zero_weight_is_skipped = refl

abbrev four_one : List ℕ
four_one = 8 ∷ 2 ∷ []

four_one_positive : ¬ (divisor four_one ≡ 0)
unfolding divisor
four_one_positive e = omega arith

weighted_round_robin_index-schedule_example :
    weighted_round_robin_index four_one 7
    ≡ get_elem? (schedule four_one) (7 % length (schedule four_one))
weighted_round_robin_index-schedule_example =
    weighted_round_robin_index-schedule four_one 7 four_one_positive (unfold divisor in omega arith)

count-schedule_example : count 0 (schedule four_one) * divisor four_one ≡ weight_at four_one 0
count-schedule_example = count-schedule four_one 0 four_one_positive

selections-schedule_example :
    selections four_one 10 (length (schedule four_one)) ≡ map some (schedule four_one)
selections-schedule_example =
    selections-schedule four_one 10 four_one_positive (unfold divisor in omega arith)
      (unfold rounds divisor in refl)
