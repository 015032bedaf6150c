-- ===== src/Provider/Weighted/Shares.antt =====
-- How often crates/kong-ai/src/provider/weighted.rs selects each candidate.
use native.Mathlib.Nat.{mod-lt, mod-eq_of_lt, add-mod}
use kong_rust.Common.{
  ℕ, zero, suc, ◌+◌, ◌*◌, ◌/◌, ◌%◌, ◌≤◌, ◌<◌, ◌≡◌, ◌≢◌, ◌∙◌, refl, ap, ap₂, min, Option, none, some,
  List, [], ◌∷◌, ◌++◌, map, arith, if◌then◌else◌, leb, nat_beq, length, get_elem?,
}
use kong_rust.Common.Members.{get_elem?-lt}
use kong_rust.Common.Order.{Divides-div}
use kong_rust.Provider.Weighted.{divisor, sum, maximum, members, weighted_round_robin_index}
use kong_rust.Provider.Weighted.Gcd.{AllZero, DividesAll, divisor-DividesAll, divisor-zero}
use kong_rust.Provider.Weighted.Rounds.{sum_min-full}
use kong_rust.Provider.Weighted.Schedule.{
  rounds, reduced, schedule, schedule_pos, length-rounds, maximum-le,
  weighted_round_robin_index-schedule,
}

-- How often `i` stands in a list.
abbrev pub count : ℕ → List ℕ → ℕ
count i [] = 0
count i (x ∷ xs) = (if nat_beq x i then 1 else 0) + count i xs

-- The weight at an index, 0 where there is none.
abbrev pub weight_at : List ℕ → ℕ → ℕ
weight_at [] i = 0
weight_at (w ∷ ws) zero = w
weight_at (w ∷ ws) (suc i) = weight_at ws i

count-append : (i : ℕ) (xs ys : List ℕ) → count i (xs ++ ys) ≡ count i xs + count i ys
count-append i [] ys = omega arith
count-append i (x ∷ xs) ys = omega (arith, count-append i xs ys)

-- Indices below the first one counted do not occur.
count-members_below : (ws : List ℕ) (r i j : ℕ) → j < i → count j (members r i ws) ≡ 0
count-members_below [] r i j h = refl
count-members_below (w ∷ ws) r i j h = ground (arith, count-members_below ws r (suc i) j)

count-members :
    (ws : List ℕ) (r i j : ℕ)
    → count (i + j) (members (suc r) i ws) ≡ (if leb (suc r) (weight_at ws j) then 1 else 0)
count-members [] r i j = ground arith
count-members (w ∷ ws) r i zero = ground (arith, count-members_below ws (suc r) (suc i) (i + zero))
count-members (w ∷ ws) r i (suc j) =
    let e : i + suc j ≡ suc i + j = omega arith in
    rw e (ground (arith, count-members ws r (suc i) j))

count-members_from_zero :
    (ws : List ℕ) (r i : ℕ)
    → count i (members (suc r) 0 ws) ≡ (if leb (suc r) (weight_at ws i) then 1 else 0)
count-members_from_zero ws r i =
    ap (λ n. count n (members (suc r) 0 ws)) {x = i} {y = 0 + i} (omega arith)
    ∙ count-members ws r 0 i

count-rounds : (ws : List ℕ) (r i : ℕ) → count i (rounds ws r) ≡ min (weight_at ws i) r
unfolding rounds
count-rounds ws zero i = omega arith
count-rounds ws (suc r) i =
    count-append i (rounds ws r) (members (suc r) 0 ws)
    ∙ ground (arith, count-rounds ws r i, count-members_from_zero ws r i)

min_left : (a b : ℕ) → a ≤ b → min a b ≡ a
min_left a b h = omega arith

pos_of_product : (a b c : ℕ) → 0 < a → b ≢ 0 → a * b ≡ c → 0 < c
pos_of_product a b c p q e = grind arith

weight_at-le : (ws : List ℕ) (i : ℕ) → weight_at ws i ≤ maximum ws
weight_at-le [] i = omega arith
weight_at-le (w ∷ ws) zero = omega arith
weight_at-le (w ∷ ws) (suc i) = omega (arith, weight_at-le ws i)

weight_at-reduced :
    (d : ℕ) (ws : List ℕ) (i : ℕ)
    → 0 < d
    → DividesAll d ws
    → weight_at (map (λ w. w / d) ws) i * d ≡ weight_at ws i
weight_at-reduced d [] i p h = omega arith
weight_at-reduced d (w ∷ ws) zero p h = Divides-div d w p h.0
weight_at-reduced d (w ∷ ws) (suc i) p h = weight_at-reduced d ws i p h.1

-- If the weights are not all 0, one period holds each candidate in proportion to its weight, exactly:
-- a candidate's slots times the common divisor are its weight. Candidates of weight 0 have none.
pub count-schedule :
    (weights : List ℕ) (i : ℕ)
    → divisor weights ≢ 0
    → count i (schedule weights) * divisor weights ≡ weight_at weights i
count-schedule ws i h = rw (count-rounds (reduced ws) (maximum (reduced ws)) i) (
    rw (min_left (weight_at (reduced ws) i) (maximum (reduced ws)) (weight_at-le (reduced ws) i))
      (weight_at-reduced (divisor ws) ws i (ground arith) (divisor-DividesAll ws)))

-- The selections at `n` sequence numbers from `s` on.
abbrev pub selections : List ℕ → ℕ → ℕ → List (Option ℕ)
selections weights s zero = []
selections weights s (suc n) = weighted_round_robin_index weights s ∷ selections weights (suc s) n

selections-map :
    (weights : List ℕ) (s : ℕ) (xs : List ℕ)
    → ((k : ℕ) → k < length xs → weighted_round_robin_index weights (s + k) ≡ get_elem? xs k)
    → selections weights s (length xs) ≡ map some xs
selections-map weights s [] h = refl
selections-map weights s (x ∷ xs) h =
    ap₂ ◌∷◌
      (ap (weighted_round_robin_index weights) {x = s} {y = s + 0} (omega arith)
        ∙ h 0 (omega arith))
      (selections-map weights (suc s) xs (λ k p.
        ap (weighted_round_robin_index weights) {x = suc s + k} {y = s + suc k} (omega arith)
        ∙ h (suc k) (omega arith)))

slot_after : (s k n : ℕ) → s % n ≡ 0 → k < n → (s + k) % n ≡ k
slot_after s k n e h =
    add-mod s k n ∙ rw (e, mod-eq_of_lt h) (ap (λ x. x % n) {y = k} (omega arith) ∙ mod-eq_of_lt h)

-- If the weights are not all 0 and the reduced ones add up to less than 2 ^ 64, then from a sequence
-- number that begins a period, the next selections are one whole schedule, in order.
pub selections-schedule :
    (weights : List ℕ) (s : ℕ)
    → divisor weights ≢ 0
    → sum (reduced weights) < 18446744073709551616
    → s % length (schedule weights) ≡ 0
    → selections weights s (length (schedule weights)) ≡ map some (schedule weights)
selections-schedule ws s h total begins = selections-map ws s (schedule ws) (λ k p.
    weighted_round_robin_index-schedule ws (s + k) h total
    ∙ ap (get_elem? (schedule ws)) (slot_after s k (length (schedule ws)) begins p))

-- With all weights 0 nothing is selected.
pub weighted_round_robin_index-zero :
    (weights : List ℕ) (sequence : ℕ)
    → AllZero weights
    → weighted_round_robin_index weights sequence ≡ none
unfolding weighted_round_robin_index
weighted_round_robin_index-zero ws sequence z = rw ((divisor-zero ws).1 z) refl

schedule_nonempty : (ws : List ℕ) → divisor ws ≢ 0 → 0 < length (schedule ws)
schedule_nonempty ws h = omega (
  arith,
  length-rounds (reduced ws) (maximum (reduced ws)),
  sum_min-full (reduced ws) (maximum (reduced ws)) (omega arith),
  maximum-le (reduced ws),
  schedule_pos ws h,
)

count-get_elem? : (xs : List ℕ) (k i : ℕ) → get_elem? xs k ≡ some i → 0 < count i xs
count-get_elem? [] k i h = cc
count-get_elem? (x ∷ xs) zero i h = ground arith
count-get_elem? (x ∷ xs) (suc k) i h = omega (arith, count-get_elem? xs k i h)

-- Weights that are not all 0, with a reduced sum below 2 ^ 64, give a selection at every
-- sequence number, and its weight is positive, so the index is one of a candidate.
pub weighted_round_robin_index_total :
    (weights : List ℕ) (sequence : ℕ)
    → divisor weights ≢ 0
    → sum (reduced weights) < 18446744073709551616
    → (i : ℕ) × (weighted_round_robin_index weights sequence ≡ some i) × (0 < weight_at weights i)
weighted_round_robin_index_total ws sequence h total =
    let slot = mod-lt sequence (schedule_nonempty ws h) in
    let (i, e) = get_elem?-lt (schedule ws) (sequence % length (schedule ws)) slot in
    (
      i,
      weighted_round_robin_index-schedule ws sequence h total ∙ e,
      pos_of_product (count i (schedule ws)) (divisor ws) (weight_at ws i)
          (count-get_elem? (schedule ws) _ i e) h (count-schedule ws i h),
    )
