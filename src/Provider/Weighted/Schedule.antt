-- ===== src/Provider/Weighted/Schedule.antt =====
-- The selection of crates/kong-ai/src/provider/weighted.rs against its schedule: round after
-- round, in each round every candidate whose reduced weight reaches it.
use native.Mathlib.Nat.{mod-eq_of_lt, mod-lt}
use kong_rust.Common.{
  ℕ, zero, suc, ◌+◌, ◌-◌, ◌/◌, ◌%◌, ◌≤◌, ◌<◌, ◌≡◌, ◌≢◌, ◌∙◌, refl, sym, ap, false, List, [], ◌∷◌,
  ◌++◌, map, arith, ltb, nat_beq, length, length-append, get_elem?, inl, inr, ltb→lt, Bool-cases,
}
use kong_rust.Provider.Weighted.{
  divisor, sum, maximum, sum_min, find_round, members, select_reduced, weighted_round_robin_index,
}
use kong_rust.Provider.Weighted.Gcd.{divisor-DividesAll, divisor-zero, maximum_pos}
use kong_rust.Provider.Weighted.Rounds.{
  sum_min_mono, sum_min-full, slots-exact, Holds, find_round-Holds,
}

-- The first `r` rounds.
unfoldable pub rounds : List ℕ → ℕ → List ℕ
rounds ws zero = []
rounds ws (suc r) = rounds ws r ++ members (suc r) 0 ws

abbrev pub reduced : List ℕ → List ℕ
reduced ws = map (λ w. w / divisor ws) ws

-- One period of selections.
abbrev pub schedule : List ℕ → List ℕ
schedule ws = rounds (reduced ws) (maximum (reduced ws))

length-members :
    (ws : List ℕ) (r i : ℕ) → sum_min ws (suc r) ≡ sum_min ws r + length (members (suc r) i ws)
length-members [] r i = omega arith
length-members (w ∷ ws) r i = ground (arith, length-members ws r (suc i))

sum_min-zero : (ws : List ℕ) → sum_min ws 0 ≡ 0
sum_min-zero [] = refl
sum_min-zero (w ∷ ws) = omega (arith, sum_min-zero ws)

-- The rounds up to `r` have as many slots as `slots_through_round` says.
pub length-rounds : (ws : List ℕ) (r : ℕ) → length (rounds ws r) ≡ sum_min ws r
unfolding rounds
length-rounds ws zero = sym (sum_min-zero ws)
length-rounds ws (suc r) =
    length-append (rounds ws r) (members (suc r) 0 ws)
    ∙ rw (length-rounds ws r) (sym (length-members ws r 0))

get_elem?-append_left {ℓ} :
    {A : Type ℓ} (xs ys : List A) (i : ℕ) → i < length xs → get_elem? (xs ++ ys) i ≡ get_elem? xs i
get_elem?-append_left [] ys i h = elim h [ ]
get_elem?-append_left (x ∷ xs) ys zero h = refl
get_elem?-append_left (x ∷ xs) ys (suc i) h = get_elem?-append_left xs ys i (omega arith)

get_elem?-append_right {ℓ} :
    {A : Type ℓ} (xs ys : List A) (i : ℕ)
    → length xs ≤ i
    → get_elem? (xs ++ ys) i ≡ get_elem? ys (i - length xs)
get_elem?-append_right [] ys i h = ap (get_elem? ys) (omega arith)
get_elem?-append_right (x ∷ xs) ys zero h = elim h [ ]
get_elem?-append_right (x ∷ xs) ys (suc i) h =
    get_elem?-append_right xs ys i (omega arith) ∙ ap (get_elem? ys) (omega arith)

-- Later rounds do not move the slots of earlier ones.
rounds_prefix :
    (ws : List ℕ) (r k i : ℕ)
    → i < sum_min ws r
    → get_elem? (rounds ws (k + r)) i ≡ get_elem? (rounds ws r) i
unfolding rounds
rounds_prefix ws r zero i h = ap (λ n. get_elem? (rounds ws n) i) {x = 0 + r} {y = r} (omega arith)
rounds_prefix ws r (suc k) i h =
    ap (λ n. get_elem? (rounds ws n) i) {x = suc k + r} {y = suc (k + r)} (omega arith)
    ∙ get_elem?-append_left (rounds ws (k + r)) (members (suc (k + r)) 0 ws) i
        (omega (arith, length-rounds ws (k + r), sum_min_mono ws r (k + r)))
    ∙ rounds_prefix ws r k i h

previous : (r : ℕ) → suc r - 1 ≡ r
previous r = omega arith

-- The slot's place within its round.
rounds_slot :
    (ws : List ℕ) (slot high r : ℕ)
    → Holds ws slot 1 high r
    → get_elem? (members r 0 ws) (slot - sum_min ws (r - 1)) ≡ get_elem? (rounds ws high) slot
unfolding rounds
rounds_slot ws slot high zero h = absurd (omega arith)
rounds_slot ws slot high (suc r) h =
    let e : slot - sum_min ws (suc r - 1) ≡ slot - length (rounds ws r) =
      rw (length-rounds ws r, previous r) refl in
    let start : length (rounds ws r) ≤ slot = rw (length-rounds ws r, ← previous r) h.start in
    let last : high - suc r + suc r ≡ high = omega (arith, h.below) in
    ap (get_elem? (members (suc r) 0 ws)) e
    ∙ sym (get_elem?-append_right (rounds ws r) (members (suc r) 0 ws) slot start)
    ∙ sym (rounds_prefix ws (suc r) (high - suc r) slot h.end)
    ∙ ap (λ n. get_elem? (rounds ws n) slot) last

pub maximum-le : (ws : List ℕ) → maximum ws ≤ sum ws
maximum-le [] = omega arith
maximum-le (w ∷ ws) = omega (arith, maximum-le ws)

-- One selection among reduced weights that are not all 0.
pub select_reduced-rounds :
    (ws : List ℕ) (sequence : ℕ)
    → 0 < maximum ws
    → sum ws < 18446744073709551616
    → select_reduced ws sequence ≡ get_elem? (rounds ws (maximum ws)) (sequence % sum ws)
unfolding select_reduced
select_reduced-rounds ws sequence pos total =
    let m : maximum ws ≤ sum ws = maximum-le ws in
    let full : sum_min ws (maximum ws) ≡ sum ws = sum_min-full ws (maximum ws) (omega arith) in
    let slot : sequence % sum ws < sum ws = mod-lt sequence (omega arith) in
    let found : Holds ws (sequence % sum ws) 1 (maximum ws)
        (find_round (maximum ws) ws (sequence % sum ws) 1 (maximum ws)) =
      find_round-Holds (maximum ws) ws (sequence % sum ws) 1 (maximum ws) total (omega arith)
        (omega arith) (omega arith) (omega (arith, sum_min-zero ws)) (omega arith) in
    rw (mod-eq_of_lt total) (
      rw (slots-exact ws (find_round (maximum ws) ws (sequence % sum ws) 1 (maximum ws) - 1) total)
        (rounds_slot ws (sequence % sum ws) (maximum ws) _ found))

-- Weights that do not divide down to all zeros have a schedule with at least one slot.
pub schedule_pos : (ws : List ℕ) → divisor ws ≢ 0 → 0 < maximum (reduced ws)
schedule_pos ws h = elim (Bool-cases (ltb 0 (maximum (reduced ws)))) [
  | inl e ↦ ltb→lt _ _ e
  | inr e ↦ absurd (
      h (
        (divisor-zero ws).1
          (maximum_pos (divisor ws) ws (ground arith) (divisor-DividesAll ws) (ground arith))))
]

-- Weights that are not all 0, with a reduced sum below 2 ^ 64, are selected by the schedule,
-- which repeats: the sequence number modulo the period is the slot.
pub weighted_round_robin_index-schedule :
    (weights : List ℕ) (sequence : ℕ)
    → divisor weights ≢ 0
    → sum (reduced weights) < 18446744073709551616
    → weighted_round_robin_index weights sequence
      ≡ get_elem? (schedule weights) (sequence % length (schedule weights))
unfolding weighted_round_robin_index
weighted_round_robin_index-schedule ws sequence h total =
    let pos : 0 < maximum (reduced ws) = schedule_pos ws h in
    let size : length (schedule ws) ≡ sum (reduced ws) =
      length-rounds (reduced ws) (maximum (reduced ws))
      ∙ sum_min-full (reduced ws) (maximum (reduced ws)) (omega arith) in
    let test : nat_beq (divisor ws) 0 ≡ false = ground arith in
    rw (test, size) (select_reduced-rounds (reduced ws) sequence pos total)
