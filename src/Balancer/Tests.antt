-- ===== src/Balancer/Tests.antt =====
-- Runs of the load balancer, and its theorems at concrete balancers.
use mathlib.Core.List.{Memᴰ}
use kong_rust.Common.{
  ℕ, zero, suc, ◌+◌, ◌*◌, ◌%◌, ◌≤◌, ◌<◌, ◌≡◌, ap, refl, String, true, false, none, some, List, [],
  ◌∷◌, map, arith, length, is_empty, contains, nat_keyed, string_keyed,
}
use kong_rust.Common.Assoc.{lookup}
use kong_rust.Health.Target.{TargetHealth, unhealthy, default_health}
use kong_rust.Health.{HealthChecker, find_health, is_healthy}
use kong_rust.Provider.Weighted.{divisor}
use kong_rust.Balancer.{
  BalancerTarget, HashRingNode, weight_of_target, round_robin, LoadBalancer, Found, before_node,
  chosen, elem_or_zero, wheel, turn_wheel, least_connections_select,
}
use kong_rust.Balancer.Calls.{
  build_hash_ring, build_hash_ring, select_with_key, get_healthy_indices, address_at, ring_choice,
}
use kong_rust.Provider.Weighted.Shares.{count}
use kong_rust.Balancer.Turns.{slots, turn_wheel-slots}
use kong_rust.Balancer.Ring.{ring_choice-stable}
use kong_rust.Balancer.Coverage.{ring_choice-total}
use kong_rust.Balancer.Least.{load, least_connections_select-IsLeast}
use kong_rust.Balancer.Select.{select_with_key-is_healthy}
use kong_rust.Balancer.Slots.{all_weights, weights_of, at_position}
use kong_rust.Balancer.Repeated.{
  partakers, select_times, select_with_key-slots, select_times-shares,
}

abbrev main_target : BalancerTarget
main_target = record { address = "10.0.0.1:80"; weight = 6 }

abbrev side_target : BalancerTarget
side_target = record { address = "10.0.0.2:80"; weight = 4 }

abbrev hash_stub : String → ℕ
hash_stub key = 5

abbrev decimal_stub : ℕ → String
decimal_stub n = "0"

abbrev search_stub : ℕ → List ℕ → Found
search_stub hash hashes = before_node 1

abbrev balancer : LoadBalancer
balancer = record {
  targets = main_target ∷ (side_target ∷ []);
  algorithm = round_robin;
  rr_index = 7;
  upstream_name = "service";
  health_checker = none;
  hash_ring = [];
  connection_counts = 3 ∷ (1 ∷ []);
}

abbrev down : TargetHealth
down = record default_health { status = unhealthy }

-- The checkers that find the first target down, or both.
abbrev one_down : HealthChecker
one_down = record {
  targets = ("service", ("10.0.0.1:80", down) ∷ []) ∷ [];
  targets_poisoned = false;
  configs = [];
  configs_poisoned = false;
}

abbrev all_down : HealthChecker
all_down = record {
  targets = ("service", ("10.0.0.1:80", down) ∷ (("10.0.0.2:80", down) ∷ [])) ∷ [];
  targets_poisoned = false;
  configs = [];
  configs_poisoned = false;
}

wheel_of_three_and_two : wheel 5 (3 ∷ (2 ∷ [])) ≡ 0 ∷ (1 ∷ (0 ∷ (1 ∷ (0 ∷ []))))
unfolding wheel
wheel_of_three_and_two = refl

turn_wheel-slots_example :
    turn_wheel (6 ∷ (4 ∷ [])) (0 ∷ (1 ∷ [])) 7
    ≡ chosen (
        elem_or_zero
          (0 ∷ (1 ∷ []))
          (elem_or_zero (slots (6 ∷ (4 ∷ []))) (7 % length (slots (6 ∷ (4 ∷ []))))))
turn_wheel-slots_example =
    turn_wheel-slots (6 ∷ (4 ∷ [])) (0 ∷ (1 ∷ [])) 7 (omega arith) (omega arith)

both_healthy : get_healthy_indices balancer ≡ 0 ∷ (1 ∷ [])
unfolding get_healthy_indices
both_healthy = refl

abbrev node_of : ℕ → HashRingNode
node_of i = record { hash = i; target_index = i }

abbrev ring : List HashRingNode
ring = node_of 0 ∷ (node_of 2 ∷ (node_of 1 ∷ []))

two_of_three : (i : ℕ) → contains (0 ∷ (1 ∷ [])) i ≡ true → contains (0 ∷ (1 ∷ (3 ∷ []))) i ≡ true
two_of_three i h = ground arith

key_on_ring :
    ring_choice hash_stub decimal_stub search_stub ring (some "alice") (0 ∷ (1 ∷ (3 ∷ []))) ≡ some 1
unfolding ring_choice
key_on_ring = refl

ring_choice-stable_example :
    (contains {A = ℕ} (0 ∷ (1 ∷ (3 ∷ []))) 1 ≡ true)
    × (ring_choice hash_stub decimal_stub search_stub ring (some "alice") (0 ∷ (1 ∷ [])) ≡ some 1)
ring_choice-stable_example =
    ring_choice-stable hash_stub decimal_stub search_stub ring (some "alice") (0 ∷ (1 ∷ (3 ∷ []))) 1
      (0 ∷ (1 ∷ [])) two_of_three key_on_ring refl

least_connections_select-IsLeast_example :
    (m : ℕ) × (least_connections_select balancer.targets balancer.connection_counts (0 ∷ (1 ∷ []))
      ≡ chosen m)
    × Memᴰ m (0 ∷ (1 ∷ []))
    × ((j : ℕ)
        → Memᴰ j (0 ∷ (1 ∷ []))
        → load balancer.targets balancer.connection_counts m
          ≤ load balancer.targets balancer.connection_counts j)
least_connections_select-IsLeast_example =
    least_connections_select-IsLeast balancer.targets balancer.connection_counts 0 (1 ∷ [])

few_connections : (i : ℕ) → elem_or_zero balancer.connection_counts i + 1 < 18446744073709551616
few_connections zero = omega arith
few_connections (suc zero) = omega arith
few_connections (suc (suc i)) = omega arith

abbrev half : LoadBalancer
half = record balancer { health_checker = some one_down }

abbrev lost : LoadBalancer
lost = record balancer { health_checker = some all_down }

half-healthy : get_healthy_indices half ≡ 1 ∷ []
unfolding get_healthy_indices is_healthy find_health lookup
half-healthy = refl

lost-healthy : get_healthy_indices lost ≡ []
unfolding get_healthy_indices is_healthy find_health lookup
lost-healthy = refl

select_with_key-is_healthy_example :
    (t : ℕ) × ((select_with_key hash_stub decimal_stub search_stub half none).0 ≡ chosen t)
    × (is_healthy one_down "service" (address_at half.targets t) ≡ true)
select_with_key-is_healthy_example =
    select_with_key-is_healthy hash_stub decimal_stub search_stub half none one_down refl refl
      (ap is_empty half-healthy) (rw half-healthy (omega arith)) (rw half-healthy (omega arith))

select_with_key-slots_example :
    ((select_with_key hash_stub decimal_stub search_stub lost none).0
      ≡ chosen (
          elem_or_zero
            (slots (all_weights lost))
            (lost.rr_index % length (slots (all_weights lost)))))
    × ((t : ℕ)
        → count t (slots (all_weights lost)) * divisor (all_weights lost)
          ≡ weight_of_target lost.targets t)
select_with_key-slots_example =
    select_with_key-slots hash_stub decimal_stub search_stub none lost refl
      (ap is_empty lost-healthy) (omega arith) (omega arith)

select_times-shares_example :
    (positions : List ℕ) × (select_times hash_stub decimal_stub search_stub none
        (length (slots (weights_of balancer (partakers balancer))))
        balancer
      ≡ map (at_position (partakers balancer)) positions)
    × ((j : ℕ)
        → count j positions * divisor (weights_of balancer (partakers balancer))
          ≡ elem_or_zero (weights_of balancer (partakers balancer)) j)
unfolding get_healthy_indices wheel divisor
select_times-shares_example =
    select_times-shares hash_stub decimal_stub search_stub none balancer refl refl (omega arith)
      (omega arith) (omega arith)

ring_choice-total_example :
    (t : ℕ) × (ring_choice hash_stub decimal_stub search_stub
        (build_hash_ring hash_stub decimal_stub search_stub balancer.targets 10)
        (some "alice")
        (1 ∷ [])
      ≡ some t)
    × (contains {A = ℕ} (1 ∷ []) t ≡ true)
ring_choice-total_example =
    ring_choice-total hash_stub decimal_stub search_stub balancer.targets 10 (some "alice") (1 ∷ [])
      1 refl (omega arith) refl
