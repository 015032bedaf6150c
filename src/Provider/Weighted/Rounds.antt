-- ===== src/Provider/Weighted/Rounds.antt =====
-- The binary search of crates/kong-ai/src/provider/weighted.rs finds the round of a slot.
use kong_rust.Common.{ℕ, zero, suc, ◌+◌, ◌-◌, ◌/◌, ◌≤◌, ◌<◌, ◌≡◌, refl, List, [], ◌∷◌, arith}
use native.Mathlib.Nat.{mod-eq_of_lt}
use kong_rust.Provider.Weighted.{sum, maximum, sum_min, slots_through_round, find_round}

pub sum_min-le : (ws : List ℕ) (r : ℕ) → sum_min ws r ≤ sum ws
sum_min-le [] r = omega arith
sum_min-le (w ∷ ws) r = omega (arith, sum_min-le ws r)

pub sum_min_mono : (ws : List ℕ) (r s : ℕ) → r ≤ s → sum_min ws r ≤ sum_min ws s
sum_min_mono [] r s h = omega arith
sum_min_mono (w ∷ ws) r s h = omega (arith, sum_min_mono ws r s h)

-- All slots lie within the rounds up to the greatest weight.
pub sum_min-full : (ws : List ℕ) (r : ℕ) → maximum ws ≤ r → sum_min ws r ≡ sum ws
sum_min-full [] r h = refl
sum_min-full (w ∷ ws) r h = omega (arith, sum_min-full ws r (omega arith))

pub slots-exact :
    (ws : List ℕ) (r : ℕ) → sum ws < 18446744073709551616 → slots_through_round ws r ≡ sum_min ws r
unfolding slots_through_round
slots-exact ws r h = mod-eq_of_lt (omega (arith, sum_min-le ws r))

-- The round `r` holds the slot: the rounds before it end at or before the slot, it ends behind.
pub record Holds (ws : List ℕ) (slot low high r : ℕ) : Type 0 where
  pub above : low ≤ r
  pub below : r ≤ high
  pub start : sum_min ws (r - 1) ≤ slot
  pub end : slot < sum_min ws r

pub find_round-Holds :
    (fuel : ℕ) (ws : List ℕ) (slot low high : ℕ)
    → sum ws < 18446744073709551616
    → low ≤ high
    → high < low + fuel
    → 0 < low
    → sum_min ws (low - 1) ≤ slot
    → slot < sum_min ws high
    → Holds ws slot low high (find_round fuel ws slot low high)
unfolding find_round
find_round-Holds zero ws slot low high total order fuel pos start end = absurd (omega arith)
find_round-Holds (suc f) ws slot low high total order fuel pos start end = ground (
  arith,
  slots-exact ws (low + (high - low) / 2) total,
  find_round-Holds f ws slot low (low + (high - low) / 2) total,
  find_round-Holds f ws slot (low + (high - low) / 2 + 1) high total,
)
