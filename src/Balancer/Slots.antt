-- ===== src/Balancer/Slots.antt =====
-- Which slot of the wheel a turn of the round-robin of crates/kong-proxy/src/balancer.rs takes.
use native.Mathlib.Nat.{mod-lt, mod-eq_of_lt, zero-add}
use mathlib.Core.Path.{subst}
use kong_rust.Common.{
  ℕ, zero, suc, ◌+◌, ◌/◌, ◌%◌, ◌<◌, ◌≡◌, ◌∙◌, refl, sym, ap, false, List, [], ◌∷◌, map, arith,
  nat_beq, length, length-map, is_empty,
}
use kong_rust.Common.Members.{length_pos}
use kong_rust.Provider.Weighted.{divisor, sum}
use kong_rust.Balancer.{
  LoadBalancer, Choice, chosen, elem_or_zero, weight_of_target, weighted_round_robin, next_rr_index,
  range,
}
use kong_rust.Balancer.Calls.{turn}
use kong_rust.Balancer.Turns.{slots, slots_pos, shares, turn_wheel-slots}
use kong_rust.Balancer.Select.{wheel-below, range_filled}

abbrev pub weights_of : LoadBalancer → List ℕ → List ℕ
weights_of b indices = map (weight_of_target b.targets) indices

abbrev pub all_weights : LoadBalancer → List ℕ
all_weights b = map (λ t. t.weight) b.targets

-- The target at a position of the partakers.
abbrev pub at_position : List ℕ → ℕ → Choice
at_position indices k = chosen (elem_or_zero indices k)

-- The target of a slot of the wheel.
abbrev at_slot : LoadBalancer → List ℕ → ℕ → Choice
at_slot b indices s =
    at_position indices
      (elem_or_zero (slots (weights_of b indices)) (s % length (slots (weights_of b indices))))

map-range : (f : ℕ → ℕ) (i n : ℕ) → map f (range (suc i) n) ≡ map (λ k. f (suc k)) (range i n)
map-range f i zero = refl
map-range f i (suc n) = ap (◌∷◌ (f (suc i))) (map-range f (suc i) n)

weights_of-range : (ws : List ℕ) → map (elem_or_zero ws) (range 0 (length ws)) ≡ ws
weights_of-range [] = refl
weights_of-range (w ∷ ws) =
    ap (◌∷◌ w) (map-range (elem_or_zero (w ∷ ws)) 0 (length ws) ∙ weights_of-range ws)

elem-range : (i n k : ℕ) → k < n → elem_or_zero (range i n) k ≡ i + k
elem-range i zero k h = absurd (omega arith)
elem-range i (suc n) zero h = omega arith
elem-range i (suc n) (suc k) h = omega (arith, elem-range (suc i) n k (omega arith))

pub one_position :
    (w s : ℕ) → 0 < sum (w ∷ []) → elem_or_zero (slots (w ∷ [])) (s % length (slots (w ∷ []))) ≡ 0
one_position w s h = omega (
  arith,
  wheel-below (sum (w ∷ []) / divisor (w ∷ [])) (shares (w ∷ [])) (s % length (slots (w ∷ [])))
      (omega arith) (mod-lt s (slots_pos (w ∷ []) h)),
)

pub turn-at_slot :
    (b : LoadBalancer) (indices : List ℕ)
    → is_empty indices ≡ false
    → 0 < sum (weights_of b indices)
    → sum (weights_of b indices) < 2147483648
    → (turn b indices).0 ≡ at_slot b indices b.rr_index
unfolding turn weighted_round_robin
turn-at_slot b [] e h small = cc
turn-at_slot b (i ∷ []) e h small =
    ap (λ k. chosen (elem_or_zero (i ∷ []) k))
      (sym (one_position (weight_of_target b.targets i) b.rr_index h))
turn-at_slot b (i ∷ (j ∷ is)) e h small =
    turn_wheel-slots (weights_of b (i ∷ (j ∷ is))) (i ∷ (j ∷ is)) b.rr_index h small

all_indices : (b : LoadBalancer) → weights_of b (range 0 (length b.targets)) ≡ all_weights b
all_indices b =
    ap (λ n. weights_of b (range 0 n)) (sym (length-map (λ t. t.weight) b.targets))
    ∙ weights_of-range (all_weights b)

pub turn-all :
    (b : LoadBalancer)
    → is_empty b.targets ≡ false
    → 0 < sum (all_weights b)
    → sum (all_weights b) < 2147483648
    → (turn b (range 0 (length b.targets))).0
      ≡ chosen (elem_or_zero (slots (all_weights b)) (b.rr_index % length (slots (all_weights b))))
turn-all b some_target h small =
    let same = all_indices b in
    let within : elem_or_zero (slots (all_weights b)) (b.rr_index % length (slots (all_weights b)))
        < length (shares (all_weights b)) =
      wheel-below (sum (all_weights b) / divisor (all_weights b)) (shares (all_weights b))
        (b.rr_index % length (slots (all_weights b)))
        (omega (
          arith,
          length-map (λ w. w / divisor (all_weights b)) (all_weights b),
          length-map (λ t. t.weight) b.targets,
          length_pos b.targets some_target,
        ))
        (mod-lt b.rr_index (slots_pos (all_weights b) h)) in
    turn-at_slot b (range 0 (length b.targets)) (range_filled b.targets some_target)
      (subst (λ ws. 0 < sum ws) (sym same) h) (subst (λ ws. sum ws < 2147483648) (sym same) small)
    ∙ ap
        (λ ws.
          at_position (range 0 (length b.targets))
            (elem_or_zero (slots ws) (b.rr_index % length (slots ws))))
        same
    ∙ ap chosen (
        elem-range 0 (length b.targets) _ (
          omega (
            arith,
            within,
            length-map (λ w. w / divisor (all_weights b)) (all_weights b),
            length-map (λ t. t.weight) b.targets,
          ))
        ∙ zero-add _)

-- The counter after a selection among several targets.
pub next-moves :
    (b : LoadBalancer) (s i j : ℕ) (is : List ℕ)
    → 0 < sum (weights_of b (i ∷ (j ∷ is)))
    → sum (weights_of b (i ∷ (j ∷ is))) < 2147483648
    → next_rr_index b.targets s (i ∷ (j ∷ is)) ≡ (s + 1) % 18446744073709551616
unfolding next_rr_index
next-moves b s i j is h small =
    let total : sum (weights_of b (i ∷ (j ∷ is))) % 4294967296 ≡ sum (weights_of b (i ∷ (j ∷ is))) =
      mod-eq_of_lt (omega arith) in
    let some_weight : nat_beq (sum (weights_of b (i ∷ (j ∷ is)))) 0 ≡ false = ground arith in
    simp (next_rr_index, total, some_weight) refl

pub wraps_not : (s : ℕ) → s + 1 < 18446744073709551616 → (s + 1) % 18446744073709551616 ≡ suc s
wraps_not s h = omega arith
