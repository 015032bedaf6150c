-- ===== src/Balancer/Repeated.antt =====
-- Selections in a row by the round-robin of crates/kong-proxy/src/balancer.rs, while the health of the
-- targets stays as it is, and the selection where no target is healthy.
use kong_rust.Common.{
  ℕ, zero, suc, ◌+◌, ◌*◌, ◌%◌, ◌≤◌, ◌<◌, ◌≡◌, ◌∙◌, refl, sym, ap, ap₂, String, true, false, Option,
  List, [], ◌∷◌, map, arith, if◌then◌else◌, length, is_empty, Bool-cases, inl, inr,
}
use kong_rust.Provider.Weighted.{divisor, sum}
use kong_rust.Provider.Weighted.Shares.{count}
use kong_rust.Balancer.{
  round_robin, LoadBalancer, Found, Choice, chosen, elem_or_zero, weight_of_target,
  weighted_round_robin, next_rr_index, range,
}
use kong_rust.Balancer.Calls.{
  turn, get_healthy_indices, healthy_among, by_algorithm, select_with_key,
}
use kong_rust.Balancer.Turns.{slots, slots_from, count-slots, count-slots_from}
use kong_rust.Balancer.Select.{range_filled}
use kong_rust.Balancer.Slots.{
  weights_of, all_weights, at_position, one_position, turn-at_slot, turn-all, next-moves, wraps_not,
}

-- The targets that take part in a selection: the healthy ones, or all if there are none.
abbrev pub partakers : LoadBalancer → List ℕ
partakers b =
    if is_empty (get_healthy_indices b) then range 0 (length b.targets) else get_healthy_indices b

-- The balancer with another counter.
abbrev counting : LoadBalancer → ℕ → LoadBalancer
counting b s = record b { rr_index = s }

module _ (compute_hash : String → ℕ) (decimal : ℕ → String)
    (binary_search_by_key : ℕ → List ℕ → Found) (key : Option String) where
  abbrev select : LoadBalancer → Choice × LoadBalancer
  select b = select_with_key compute_hash decimal binary_search_by_key b key

  -- What `n` selections in a row choose.
  abbrev pub select_times : ℕ → LoadBalancer → List Choice
  select_times zero b = []
  select_times (suc n) b = (select b).0 ∷ select_times n (select b).1

  module _ (b : LoadBalancer) (some_target : is_empty b.targets ≡ false) where
    select-turn : b.algorithm ≡ round_robin → select b ≡ turn b (partakers b)
    unfolding select_with_key by_algorithm
    select-turn rr = elim (Bool-cases (is_empty (get_healthy_indices b))) [
      | inl h ↦ rw (select_with_key, some_target, h) refl
      | inr h ↦ rw (select_with_key, some_target, h, rr) refl
    ]

    partakers_filled : is_empty (partakers b) ≡ false
    partakers_filled = elim (Bool-cases (is_empty (get_healthy_indices b))) [
      | inl h ↦ rw h (range_filled b.targets some_target)
      | inr h ↦ rw h h
    ]

    -- Where no target is healthy, a selection by any algorithm takes the target whose slot of the wheel of
    -- all the targets the counter points to; this wheel holds each target in exact proportion to its
    -- weight. The weights of all the targets add up to a positive `i32`.
    pub select_with_key-slots :
        is_empty (get_healthy_indices b) ≡ true
        → 0 < sum (all_weights b)
        → sum (all_weights b) < 2147483648
        → (select_with_key compute_hash decimal binary_search_by_key b key).0
            ≡ chosen
                (elem_or_zero (slots (all_weights b)) (b.rr_index % length (slots (all_weights b))))
          × ((t : ℕ)
              → count t (slots (all_weights b)) * divisor (all_weights b)
                ≡ weight_of_target b.targets t)
    unfolding select_with_key
    select_with_key-slots none_healthy h small = (
      rw (select_with_key, some_target, none_healthy) (turn-all b some_target h small),
      λ t. count-slots (all_weights b) t h,
    )

  moved :
      (b : LoadBalancer) (n s : ℕ)
      → s + suc n ≤ 18446744073709551616
      → select_times n (counting b ((s + 1) % 18446744073709551616))
        ≡ select_times n (counting b (suc s))
  moved b zero s room = refl
  moved b (suc n) s room = ap (λ c. select_times (suc n) (counting b c)) (wraps_not s (omega arith))

  module _ (b : LoadBalancer) (some_target : is_empty b.targets ≡ false)
      (rr : b.algorithm ≡ round_robin) where
    select_at :
        (c : ℕ) (is : List ℕ) → partakers b ≡ is → select (counting b c) ≡ turn (counting b c) is
    unfolding get_healthy_indices healthy_among
    select_at c is e = select-turn (counting b c) some_target rr ∙ ap (turn (counting b c)) e

    -- A single target is chosen at each turn.
    times-single :
        (i n s c : ℕ)
        → partakers b ≡ i ∷ []
        → 0 < sum (weights_of b (i ∷ []))
        → select_times n (counting b c)
          ≡ map (at_position (i ∷ [])) (slots_from (slots (weights_of b (i ∷ []))) s n)
    unfolding turn weighted_round_robin next_rr_index
    times-single i zero s c e h = refl
    times-single i (suc n) s c e h = rw (select_at c (i ∷ []) e) (
        ap₂ ◌∷◌ (ap (at_position (i ∷ [])) (sym (one_position (weight_of_target b.targets i) s h)))
          (times-single i n (suc s) c e h))

    times-several :
        (i j : ℕ) (is : List ℕ) (n s : ℕ)
        → partakers b ≡ i ∷ (j ∷ is)
        → 0 < sum (weights_of b (i ∷ (j ∷ is)))
        → sum (weights_of b (i ∷ (j ∷ is))) < 2147483648
        → s + n ≤ 18446744073709551616
        → select_times n (counting b s)
          ≡ map (at_position (i ∷ (j ∷ is))) (slots_from (slots (weights_of b (i ∷ (j ∷ is)))) s n)
    unfolding turn
    times-several i j is zero s e h small room = refl
    times-several i j is (suc n) s e h small room =
        rw (select_at s (i ∷ (j ∷ is)) e, next-moves b s i j is h small)
          (ap₂ ◌∷◌ (turn-at_slot (counting b s) (i ∷ (j ∷ is)) refl h small)
            (moved b n s room ∙ times-several i j is n (suc s) e h small (omega arith)))

    times :
        (is : List ℕ) (n : ℕ)
        → partakers b ≡ is
        → 0 < sum (weights_of b is)
        → sum (weights_of b is) < 2147483648
        → b.rr_index + n ≤ 18446744073709551616
        → select_times n b
          ≡ map (at_position is) (slots_from (slots (weights_of b is)) b.rr_index n)
    times [] n e h small room = absurd (omega (arith, h))
    times (i ∷ []) n e h small room = times-single i n b.rr_index b.rr_index e h
    times (i ∷ (j ∷ is)) n e h small room = times-several i j is n b.rr_index e h small room

    -- While the health of the targets stays as it is, the round-robin selections in a row, as many as the
    -- wheel has slots, choose each healthy target (any target, if none is healthy) in exact proportion
    -- to its weight, wherever the counter stands, as long as it does not wrap at 2 ^ 64 before the last of
    -- them. The weights of these targets add up to a positive `i32`.
    pub select_times-shares :
        0 < sum (weights_of b (partakers b))
        → sum (weights_of b (partakers b)) < 2147483648
        → b.rr_index + length (slots (weights_of b (partakers b))) ≤ 18446744073709551616
        → (positions : List ℕ) × (select_times (length (slots (weights_of b (partakers b)))) b
            ≡ map (at_position (partakers b)) positions)
          × ((j : ℕ)
              → count j positions * divisor (weights_of b (partakers b))
                ≡ elem_or_zero (weights_of b (partakers b)) j)
    select_times-shares h small room = (
      slots_from (slots (weights_of b (partakers b))) b.rr_index
          (length (slots (weights_of b (partakers b)))),
      times (partakers b) (length (slots (weights_of b (partakers b)))) refl h small room,
      λ j. count-slots_from (weights_of b (partakers b)) j b.rr_index h,
    )
