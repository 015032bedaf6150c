-- ===== src/Balancer/Select.antt =====
-- The selection of crates/kong-proxy/src/balancer.rs always gives a healthy target if there is one.
use native.Mathlib.Nat.{mod-lt}
use mathlib.Core.Path.{subst}
use mathlib.Core.List.{Memᴰ}
use kong_rust.Common.{
  ℕ, zero, suc, ◌/◌, ◌%◌, ◌<◌, ◌≡◌, ◌∙◌, refl, sym, ap, String, true, false, Option, none, some,
  List, [], ◌∷◌, map, arith, ltb, nat_beq, nat_beq_iff, length, length-map, is_empty, contains,
  Bool-cases, Option-cases, inl, inr, nat_keyed,
}
use kong_rust.Common.Members.{Memᴰ-keep_if}
use kong_rust.Health.{HealthChecker, is_healthy}
use kong_rust.Provider.Weighted.{divisor, sum}
use kong_rust.Balancer.{
  BalancerTarget, LbAlgorithm, round_robin, consistent_hashing, least_connections, latency,
  LoadBalancer, Found, Choice, chosen, elem_or_zero, weight_of_target, best, take_slot, wheel,
  turn_wheel, weighted_round_robin, range,
}
use kong_rust.Balancer.Calls.{
  address_at, healthy_among, turn, get_healthy_indices, ring_choice, consistent_hash_select,
  by_algorithm, select_with_key,
}
use kong_rust.Balancer.Turns.{slots, slots_pos, shares, turn_wheel-slots}
use kong_rust.Balancer.Ring.{walk-healthy}
use kong_rust.Balancer.Least.{least_connections_select-IsLeast}

elem-Memᴰ : (xs : List ℕ) (k : ℕ) → k < length xs → Memᴰ (elem_or_zero xs k) xs
elem-Memᴰ [] k h = absurd (omega arith)
elem-Memᴰ (x ∷ xs) zero h = Memᴰ.head refl
elem-Memᴰ (x ∷ xs) (suc k) h = Memᴰ.tail (elem-Memᴰ xs k (omega arith))

contains-Memᴰ : (xs : List ℕ) (t : ℕ) → contains xs t ≡ true → Memᴰ t xs
contains-Memᴰ [] t h = cc
contains-Memᴰ (x ∷ xs) t h = elim (Bool-cases (nat_beq x t)) [
  | inl e ↦ Memᴰ.head (sym ((nat_beq_iff x t).0 e))
  | inr e ↦ Memᴰ.tail (contains-Memᴰ xs t (rw e at h))
]

best-lt : (r : ℕ) (rs : List ℕ) → best (r ∷ rs) < suc (length rs)
unfolding best
best-lt r [] = omega arith
best-lt r (q ∷ rs) = elim (Bool-cases (ltb (elem_or_zero (q ∷ rs) (best (q ∷ rs))) r)) [
  | inl h ↦ rw h (omega arith)
  | inr h ↦ rw h (omega (arith, best-lt q rs))
]

length-take_slot : (rs : List ℕ) (i : ℕ) → length (take_slot rs i) ≡ length rs
length-take_slot [] i = refl
length-take_slot (r ∷ rs) zero = refl
length-take_slot (r ∷ rs) (suc i) = ap suc (length-take_slot rs i)

best-below : (rs : List ℕ) → 0 < length rs → best rs < length rs
best-below [] h = omega arith
best-below (r ∷ rs) h = best-lt r rs

-- Each slot of a wheel is the position of a weight.
pub wheel-below :
    (n : ℕ) (rs : List ℕ) (k : ℕ)
    → 0 < length rs
    → k < length (wheel n rs)
    → elem_or_zero (wheel n rs) k < length rs
unfolding wheel
wheel-below zero rs k some_weight h = omega arith
wheel-below (suc n) rs zero some_weight h = best-below rs some_weight
wheel-below (suc n) rs (suc k) some_weight h = omega (
  arith,
  length-take_slot rs (best rs),
  wheel-below n (take_slot rs (best rs)) k (omega (arith, length-take_slot rs (best rs)))
      (omega arith),
)

-- A choice among the targets of a list.
abbrev pub ChosenFrom : List ℕ → Choice → Type 0
ChosenFrom indices choice = (t : ℕ) × (choice ≡ chosen t) × Memᴰ t indices

turn_wheel-ChosenFrom :
    (ws : List ℕ) (i : ℕ) (is : List ℕ) (idx : ℕ)
    → length ws ≡ length (i ∷ is)
    → 0 < sum ws
    → sum ws < 2147483648
    → ChosenFrom (i ∷ is) (turn_wheel ws (i ∷ is) idx)
turn_wheel-ChosenFrom ws i is idx same h small =
    let k = idx % length (slots ws) in
    let within : elem_or_zero (slots ws) k < length (shares ws) =
      wheel-below (sum ws / divisor ws) (shares ws) k
        (omega (arith, same, length-map (λ w. w / divisor ws) ws)) (mod-lt idx (slots_pos ws h)) in
    (
      elem_or_zero (i ∷ is) (elem_or_zero (slots ws) k),
      turn_wheel-slots ws (i ∷ is) idx h small,
      elem-Memᴰ (i ∷ is) (elem_or_zero (slots ws) k)
          (omega (arith, same, within, length-map (λ w. w / divisor ws) ws)),
    )

turn-ChosenFrom :
    (b : LoadBalancer) (i : ℕ) (is : List ℕ)
    → 0 < sum (map (weight_of_target b.targets) (i ∷ is))
    → sum (map (weight_of_target b.targets) (i ∷ is)) < 2147483648
    → ChosenFrom (i ∷ is) (turn b (i ∷ is)).0
unfolding turn weighted_round_robin
turn-ChosenFrom b i [] h small = (i, refl, Memᴰ.head refl)
turn-ChosenFrom b i (j ∷ is) h small =
    turn_wheel-ChosenFrom (map (weight_of_target b.targets) (i ∷ (j ∷ is))) i (j ∷ is) b.rr_index
      (length-map (weight_of_target b.targets) (i ∷ (j ∷ is))) h small

filled : (xs : List ℕ) → is_empty xs ≡ false → (i : ℕ) × (is : List ℕ) × (xs ≡ i ∷ is)
filled [] h = cc
filled (i ∷ is) h = (i, is, refl)

pub range_filled :
    (ts : List BalancerTarget) → is_empty ts ≡ false → is_empty (range 0 (length ts)) ≡ false
range_filled [] e = e
range_filled (t ∷ ts) e = refl

module _ (compute_hash : String → ℕ) (decimal : ℕ → String)
    (binary_search_by_key : ℕ → List ℕ → Found) (b : LoadBalancer) (key : Option String) where
  consistent-ChosenFrom :
      (i : ℕ) (is : List ℕ)
      → 0 < sum (map (weight_of_target b.targets) (i ∷ is))
      → sum (map (weight_of_target b.targets) (i ∷ is)) < 2147483648
      → ChosenFrom
          (i ∷ is)
          (consistent_hash_select compute_hash decimal binary_search_by_key b key (i ∷ is)).0
  unfolding consistent_hash_select ring_choice
  consistent-ChosenFrom i is h small = elim (Bool-cases (is_empty b.hash_ring)) [
    | inl e ↦ rw (consistent_hash_select, e) (turn-ChosenFrom b i is h small)
    | inr e ↦
        elim (Option-cases
          (ring_choice compute_hash decimal binary_search_by_key b.hash_ring key (i ∷ is))) [
            | inl f ↦ rw (consistent_hash_select, e, f) (i, refl, Memᴰ.head refl)
            | inr (t, f) ↦
                rw (consistent_hash_select, e, f)
                  (t, refl, contains-Memᴰ (i ∷ is) t (walk-healthy b.hash_ring (i ∷ is) _ _ f))
          ]
  ]

  by_algorithm-ChosenFrom :
      (algorithm : LbAlgorithm) (i : ℕ) (is : List ℕ)
      → 0 < sum (map (weight_of_target b.targets) (i ∷ is))
      → sum (map (weight_of_target b.targets) (i ∷ is)) < 2147483648
      → ChosenFrom
          (i ∷ is)
          (by_algorithm compute_hash decimal binary_search_by_key algorithm b key (i ∷ is)).0
  unfolding by_algorithm
  by_algorithm-ChosenFrom round_robin i is h small = turn-ChosenFrom b i is h small
  by_algorithm-ChosenFrom consistent_hashing i is h small = consistent-ChosenFrom i is h small
  by_algorithm-ChosenFrom least_connections i is h small =
      let (m, e, k, _) = least_connections_select-IsLeast b.targets b.connection_counts i is in
      (m, e, k)
  by_algorithm-ChosenFrom latency i is h small = turn-ChosenFrom b i is h small

  -- If some targets are healthy, and their weights add up to a positive `i32`, then a selection by
  -- any algorithm chooses one of them: it neither fails nor panics.
  pub select_with_key-ChosenFrom :
      (i : ℕ) (is : List ℕ)
      → is_empty b.targets ≡ false
      → get_healthy_indices b ≡ i ∷ is
      → 0 < sum (map (weight_of_target b.targets) (i ∷ is))
      → sum (map (weight_of_target b.targets) (i ∷ is)) < 2147483648
      → ChosenFrom (i ∷ is) (select_with_key compute_hash decimal binary_search_by_key b key).0
  unfolding select_with_key
  select_with_key-ChosenFrom i is some_target healthy h small =
      rw (select_with_key, some_target, healthy) (by_algorithm-ChosenFrom b.algorithm i is h small)

  -- With a health checker that has some target healthy, a selection by any algorithm chooses a
  -- target that the checker finds healthy, if the weights of the healthy targets add up to a positive
  -- `i32`.
  pub select_with_key-is_healthy :
      (hc : HealthChecker)
      → b.health_checker ≡ some hc
      → is_empty b.targets ≡ false
      → is_empty (get_healthy_indices b) ≡ false
      → 0 < sum (map (weight_of_target b.targets) (get_healthy_indices b))
      → sum (map (weight_of_target b.targets) (get_healthy_indices b)) < 2147483648
      → (t : ℕ) × ((select_with_key compute_hash decimal binary_search_by_key b key).0 ≡ chosen t)
        × (is_healthy hc b.upstream_name (address_at b.targets t) ≡ true)
  unfolding get_healthy_indices healthy_among
  select_with_key-is_healthy hc checker some_target healthy h small =
      let (i, is, e) = filled (get_healthy_indices b) healthy in
      let (t, choice, k) =
        select_with_key-ChosenFrom i is some_target e (rw e at h) (rw e at small) in
      let same : healthy_among b hc ≡ i ∷ is = ap healthy_of (sym checker) ∙ e in
      (
        t,
        choice,
        (Memᴰ-keep_if (λ j. is_healthy hc b.upstream_name (address_at b.targets j))
            (range 0 (length b.targets)) (subst (Memᴰ t) (sym same) k)).1,
      )
    where
      healthy_of : Option HealthChecker → List ℕ
      healthy_of none = range 0 (length b.targets)
      healthy_of (some c) = healthy_among b c
