-- ===== src/Balancer.antt =====
-- The load balancer of crates/kong-proxy/src/balancer.rs.
--
-- The selections return the index of a target, whose address the code clones at once. Weights are
-- `i32` bit patterns; those of a balancer's targets are positive. The greatest common divisor is that
-- of Provider.Weighted: both files run the same loop. `compute_hash` (SipHash, whose algorithm the
-- standard library leaves open), the decimal digits of a number, and the place that
-- `binary_search_by_key` finds among equal hashes (also left open) are parameters.
pub mod Calls
pub mod Wheel
pub mod Turns
pub mod Ring
pub mod Coverage
pub mod Least
pub mod Connections
pub mod Select
pub mod Slots
pub mod Repeated
mod Tests
use Prim.Native.String.{◌++◌}
use kong_rust.Common.{
  ℕ, zero, suc, ◌+◌, ◌-◌, ◌*◌, ◌/◌, ◌%◌, max, String, Bool, true, false, not, ◌&&◌, ◌||◌, Option,
  none, some, List, [], ◌∷◌, map, if◌then◌else◌, ltb, leb, nat_beq, length, get_elem?, replicate,
  is_empty, keep_if, contains, ◌==◌, nat_keyed, string_keyed,
}
use kong_rust.Common.Word.{lt_i32}
use kong_rust.Health.{HealthChecker, is_healthy}
use kong_rust.Provider.Weighted.{divisor, sum}

pub record BalancerTarget : Type 0 where
  pub address : String
  pub weight : ℕ

pub record HashRingNode : Type 0 where
  pub hash : ℕ
  pub target_index : ℕ

pub data LbAlgorithm : Type 0 where
  round_robin consistent_hashing least_connections latency : LbAlgorithm

pub record LoadBalancer : Type 0 where
  pub targets : List BalancerTarget
  pub algorithm : LbAlgorithm
  pub rr_index : ℕ
  pub upstream_name : String
  pub health_checker : Option HealthChecker
  pub hash_ring : List HashRingNode
  pub connection_counts : List ℕ

-- `Ok(i)` and `Err(i)` of a binary search.
pub data Found : Type 0 where
  at_node : ℕ → Found
  before_node : ℕ → Found

-- A selection: the index of a target, `None`, or a panic.
pub data Choice : Type 0 where
  chosen : ℕ → Choice
  no_target : Choice
  panicked : Choice

-- `0..n` from a first index on.
abbrev pub range : ℕ → ℕ → List ℕ
range i zero = []
range i (suc n) = i ∷ range (suc i) n

abbrev pub elem_or_zero : List ℕ → ℕ → ℕ
elem_or_zero [] i = 0
elem_or_zero (w ∷ ws) zero = w
elem_or_zero (w ∷ ws) (suc i) = elem_or_zero ws i

abbrev pub weight_of_target : List BalancerTarget → ℕ → ℕ
weight_of_target ts i = elem_or_zero (map (λ t. t.weight) ts) i

-- `total_weight`, an `i32` sum.
abbrev pub total_weight : List ℕ → ℕ
total_weight ws = sum ws % 4294967296

-- The index of the greatest entry, the last of several, as `max_by_key` gives it.
unfoldable pub best : List ℕ → ℕ
best [] = 0
best (r ∷ []) = 0
best (r ∷ (q ∷ rs)) = let i = best (q ∷ rs) in if ltb (elem_or_zero (q ∷ rs) i) r then 0 else suc i

-- `remaining[best] -= 1`.
abbrev pub take_slot : List ℕ → ℕ → List ℕ
take_slot [] i = []
take_slot (r ∷ rs) zero = (r - 1) ∷ rs
take_slot (r ∷ rs) (suc i) = r ∷ take_slot rs i

-- The positions in the interleaved wheel.
unfoldable pub wheel : ℕ → List ℕ → List ℕ
unfolding best
wheel zero remaining = []
wheel (suc n) remaining = let i = best remaining in i ∷ wheel n (take_slot remaining i)

abbrev pub choose : Option ℕ → Choice
choose none = panicked
choose (some i) = chosen i

-- The wheel of several targets; a negative size is a capacity overflow.
unfoldable pub turn_wheel : List ℕ → List ℕ → ℕ → Choice
turn_wheel weights healthy_indices idx =
    let g = max (divisor weights) 1 in
    let size = total_weight weights / g in
    if nat_beq (total_weight weights) 0
    then no_target
    else if leb 2147483648 (total_weight weights) || nat_beq size 0
    then panicked
    else choose (
        get_elem? (map (elem_or_zero healthy_indices) (wheel size (map (λ w. w / g) weights)))
          (idx % size))

-- The choice, and whether the counter moves.
unfoldable pub weighted_round_robin : List BalancerTarget → ℕ → List ℕ → Choice
unfolding turn_wheel
weighted_round_robin targets idx [] = no_target
weighted_round_robin targets idx (i ∷ []) = chosen i
weighted_round_robin targets idx (i ∷ (j ∷ is)) =
    turn_wheel (map (weight_of_target targets) (i ∷ (j ∷ is))) (i ∷ (j ∷ is)) idx

-- The counter after it: it moves unless there is one target or none, or no weight. After a panic it
-- has no meaning.
unfoldable pub next_rr_index : List BalancerTarget → ℕ → List ℕ → ℕ
next_rr_index targets idx [] = idx
next_rr_index targets idx (i ∷ []) = idx
next_rr_index targets idx (i ∷ (j ∷ is)) =
    if nat_beq (total_weight (map (weight_of_target targets) (i ∷ (j ∷ is)))) 0
    then idx
    else (idx + 1) % 18446744073709551616

-- `conns * 100 / weight`.
abbrev pub effective : ℕ → ℕ → ℕ
effective conns weight =
    if lt_i32 0 weight then conns * 100 % 18446744073709551616 / weight else 18446744073709551615

-- The loop over the healthy targets, with the least load so far and its target.
unfoldable pub least_from : List BalancerTarget → List ℕ → ℕ → ℕ → List ℕ → ℕ
least_from targets counts min_conns min_idx [] = min_idx
least_from targets counts min_conns min_idx (i ∷ is) =
    let e = effective (elem_or_zero counts i) (weight_of_target targets i) in
    let kept = least_from targets counts min_conns min_idx is in
    let lower = least_from targets counts e i is in if ltb e min_conns then lower else kept

unfoldable pub least_connections_select : List BalancerTarget → List ℕ → List ℕ → Choice
unfolding least_from
least_connections_select targets counts [] = no_target
least_connections_select targets counts (i ∷ is) =
    chosen (least_from targets counts 18446744073709551615 i (i ∷ is))

-- The walk over the ring: `n` nodes from a position on.
unfoldable pub walk : List HashRingNode → List ℕ → ℕ → ℕ → Option ℕ
walk ring healthy_indices pos zero = none
walk ring healthy_indices pos (suc n) =
    let further = walk ring healthy_indices (pos + 1) n in
    elim (get_elem? ring (pos % length ring)) [
      | none ↦ further
      | some node ↦
          if contains healthy_indices node.target_index then some node.target_index else further
    ]

-- `format!("{}-{}", address, i)`, from the decimal digits of a number.
abbrev pub node_key : (ℕ → String) → String → ℕ → String
node_key decimal address i = address ++ ("-" ++ decimal i)
