-- ===== src/Provider/Weighted.antt =====
-- The interleaved weighted round-robin of crates/kong-ai/src/provider/weighted.rs. Weights are
-- `u32` values, the sums wrap at 2 ^ 64 as `u64` sums do.
pub mod Gcd
pub mod Rounds
pub mod Schedule
pub mod Shares
pub mod Tests
use mathlib.Core.WellFounded.{Acc}
use mathlib.Core.Logic.{dite}
use kong_rust.Common.{
  ℕ, zero, suc, ◌+◌, ◌-◌, ◌/◌, ◌%◌, ◌<◌, min, max, Bool, true, false, Option, none, some, List, [],
  ◌∷◌, map, foldl, arith, dec_lt, if◌then◌else◌, ltb, leb, get_elem?, nat_beq,
}
use kong_rust.Common.Order.{lt_wf}

pub gcd_acc : (left right : ℕ) → Acc ◌<◌ right → ℕ
gcd_acc left right (Acc.intro _ smaller) =
    dite (dec_lt 0 right) (λ h. gcd_acc right (left % right) (smaller (left % right) (omega arith)))
      (λ _. left)

unfoldable pub gcd : ℕ → ℕ → ℕ
unfolding gcd_acc lt_wf dec_lt
gcd left right = gcd_acc left right (lt_wf.apply right)

-- `weights.iter().copied().fold(0, gcd)`.
unfoldable pub divisor : List ℕ → ℕ
unfolding gcd
divisor = foldl gcd 0

abbrev pub sum : List ℕ → ℕ
sum [] = 0
sum (w ∷ ws) = w + sum ws

abbrev pub maximum : List ℕ → ℕ
maximum [] = 0
maximum (w ∷ ws) = max w (maximum ws)

abbrev pub sum_min : List ℕ → ℕ → ℕ
sum_min [] round = 0
sum_min (w ∷ ws) round = min w round + sum_min ws round

pub slots_through_round : List ℕ → ℕ → ℕ
slots_through_round weights round = sum_min weights round % 18446744073709551616

-- The binary search for the round of a slot; each turn shortens the range.
pub find_round : ℕ → List ℕ → ℕ → ℕ → ℕ → ℕ
unfolding slots_through_round
find_round zero reduced slot low high = low
find_round (suc fuel) reduced slot low high =
    let middle = low + (high - low) / 2 in
    let lower = find_round fuel reduced slot low middle in
    let upper = find_round fuel reduced slot (middle + 1) high in
    if ltb low high
    then (if ltb slot (slots_through_round reduced middle) then lower else upper)
    else low

-- The indices, counted from `i`, of the weights that reach a round.
abbrev pub members : ℕ → ℕ → List ℕ → List ℕ
members round i [] = []
members round i (w ∷ ws) =
    let rest = members round (suc i) ws in if leb round w then i ∷ rest else rest

pub select_reduced : List ℕ → ℕ → Option ℕ
unfolding find_round
select_reduced reduced sequence =
    let total = sum reduced % 18446744073709551616 in
    let slot = sequence % total in
    let high = maximum reduced in
    let round = find_round high reduced slot 1 high in
    get_elem? (members round 0 reduced) (slot - slots_through_round reduced (round - 1))

unfoldable pub weighted_round_robin_index : List ℕ → ℕ → Option ℕ
unfolding divisor select_reduced
weighted_round_robin_index weights sequence =
    let d = divisor weights in
    if nat_beq d 0 then none else select_reduced (map (λ w. w / d) weights) sequence
