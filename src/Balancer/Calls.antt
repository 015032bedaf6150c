-- ===== src/Balancer/Calls.antt =====
-- The calls of the load balancer of crates/kong-proxy/src/balancer.rs: its making and updates, the
-- hash ring, the selection by algorithm and health, and the connection counts.
use kong_rust.Common.{
  ℕ, zero, suc, ◌+◌, ◌-◌, ◌*◌, ◌/◌, ◌%◌, max, String, ◌||◌, Option, none, some, List, [], ◌∷◌, ◌++◌,
  map, if◌then◌else◌, leb, nat_beq, length, replicate, is_empty, keep_if, ◌==◌, nat_keyed,
  string_keyed,
}
use kong_rust.Common.Word.{lt_i32}
use kong_rust.Health.{HealthChecker, is_healthy}
use kong_rust.Balancer.{
  BalancerTarget, HashRingNode, LbAlgorithm, round_robin, consistent_hashing, least_connections,
  latency, LoadBalancer, Found, at_node, before_node, Choice, chosen, no_target, range,
  total_weight, weighted_round_robin, next_rr_index, least_connections_select, walk, node_key,
}

-- `targets[i].address` where `i` is an index of the list.
abbrev pub address_at : List BalancerTarget → ℕ → String
address_at [] i = ""
address_at (t ∷ ts) zero = t.address
address_at (t ∷ ts) (suc i) = address_at ts i

unfoldable pub healthy_among : LoadBalancer → HealthChecker → List ℕ
healthy_among b hc =
    keep_if (λ i. is_healthy hc b.upstream_name (address_at b.targets i))
      (range 0 (length b.targets))

unfoldable pub get_healthy_indices : LoadBalancer → List ℕ
unfolding healthy_among
get_healthy_indices b = elim b.health_checker [
  | none ↦ range 0 (length b.targets)
  | some hc ↦ healthy_among b hc
]

-- A weighted round-robin selection and the counter after it.
unfoldable pub turn : LoadBalancer → List ℕ → Choice × LoadBalancer
unfolding weighted_round_robin next_rr_index
turn b indices = (
  weighted_round_robin b.targets b.rr_index indices,
  record b { rr_index = next_rr_index b.targets b.rr_index indices },
)

-- `position(|t| t.address == addr)`, from an index on.
unfoldable pub position : String → ℕ → List BalancerTarget → Option ℕ
position addr i [] = none
position addr i (t ∷ ts) =
    let further = position addr (suc i) ts in if t.address == addr then some i else further

abbrev pub change_at : (ℕ → ℕ) → ℕ → List ℕ → List ℕ
change_at f i [] = []
change_at f zero (n ∷ ns) = f n ∷ ns
change_at f (suc i) (n ∷ ns) = n ∷ change_at f i ns

abbrev pub on_counts : (ℕ → ℕ) → Option ℕ → List ℕ → List ℕ
on_counts f none counts = counts
on_counts f (some i) counts = change_at f i counts

unfoldable pub increment_connections : String → LoadBalancer → LoadBalancer
unfolding position
increment_connections addr b = record b {
  connection_counts =
      on_counts (λ n. (n + 1) % 18446744073709551616) (position addr 0 b.targets)
        b.connection_counts;
}

-- The count stops at 0.
unfoldable pub decrement_connections : String → LoadBalancer → LoadBalancer
unfolding position
decrement_connections addr b = record b {
  connection_counts = on_counts (λ n. n - 1) (position addr 0 b.targets) b.connection_counts;
}

-- The targets that `new` and `update_targets` keep.
abbrev pub kept_targets : List BalancerTarget → List BalancerTarget
kept_targets = keep_if (λ t. lt_i32 0 t.weight)

-- `as usize` of an `i32`.
abbrev pub to_usize : ℕ → ℕ
to_usize n = if leb 2147483648 n then n + 18446744069414584320 else n

-- The sort of the ring by hash, which keeps the order of equal ones.
abbrev pub sort_node : HashRingNode → List HashRingNode → List HashRingNode
sort_node node [] = node ∷ []
sort_node node (m ∷ ms) =
    let rest = sort_node node ms in if leb node.hash m.hash then node ∷ (m ∷ ms) else m ∷ rest

unfoldable pub sort_ring : List HashRingNode → List HashRingNode
sort_ring [] = []
sort_ring (node ∷ ring) = sort_node node (sort_ring ring)

module _ (compute_hash : String → ℕ) (decimal : ℕ → String)
    (binary_search_by_key : ℕ → List ℕ → Found) where
  -- The nodes of one target, `n` of them from number `i` on.
  unfoldable pub target_nodes : BalancerTarget → ℕ → ℕ → ℕ → List HashRingNode
  target_nodes t index i zero = []
  target_nodes t index i (suc n) =
      record { hash = compute_hash (node_key decimal t.address i); target_index = index }
      ∷ target_nodes t index (suc i) n

  abbrev pub vnodes : ℕ → ℕ → ℕ → ℕ
  vnodes total_slots total weight =
      max (to_usize weight * total_slots % 18446744073709551616 / to_usize total) 1

  unfoldable pub all_nodes : ℕ → ℕ → ℕ → List BalancerTarget → List HashRingNode
  unfolding target_nodes
  all_nodes total_slots total index [] = []
  all_nodes total_slots total index (t ∷ ts) =
      target_nodes t index 0 (vnodes total_slots total t.weight)
      ++ all_nodes total_slots total (suc index) ts

  unfoldable pub build_hash_ring : List BalancerTarget → ℕ → List HashRingNode
  unfolding all_nodes sort_ring
  build_hash_ring targets total_slots =
      let total = total_weight (map (λ t. t.weight) targets) in
      if is_empty targets || nat_beq total 0
      then []
      else sort_ring (all_nodes total_slots total 0 targets)

  unfoldable pub ring_for :
      LbAlgorithm → List BalancerTarget → ℕ → List HashRingNode → List HashRingNode
  unfolding build_hash_ring
  ring_for consistent_hashing targets slots old = build_hash_ring targets slots
  ring_for round_robin targets slots old = old
  ring_for least_connections targets slots old = old
  ring_for latency targets slots old = old

  -- From the name, the algorithm and the slots of the upstream.
  unfoldable pub new : String → LbAlgorithm → ℕ → List BalancerTarget → LoadBalancer
  unfolding ring_for
  new name algorithm slots targets = record {
    targets = kept_targets targets;
    algorithm = algorithm;
    rr_index = 0;
    upstream_name = name;
    health_checker = none;
    hash_ring = ring_for algorithm (kept_targets targets) (to_usize slots) [];
    connection_counts = replicate (length (kept_targets targets)) 0;
  }

  unfoldable pub update_targets : List BalancerTarget → LoadBalancer → LoadBalancer
  unfolding ring_for
  update_targets targets b = record b {
    targets = kept_targets targets;
    connection_counts = replicate (length (kept_targets targets)) 0;
    hash_ring = ring_for b.algorithm (kept_targets targets) 10000 b.hash_ring;
  }

  abbrev pub place : Found → ℕ
  place (at_node i) = i
  place (before_node i) = i

  abbrev key_or_default : Option String → String
  key_or_default none = "default"
  key_or_default (some key) = key

  unfoldable pub ring_choice : List HashRingNode → Option String → List ℕ → Option ℕ
  unfolding walk
  ring_choice ring hash_key healthy_indices =
      walk ring healthy_indices
        (place (
          binary_search_by_key (compute_hash (key_or_default hash_key))
            (map (λ node. node.hash) ring)))
        (length ring)

  abbrev first_of : List ℕ → Choice
  first_of [] = no_target
  first_of (i ∷ is) = chosen i

  unfoldable pub consistent_hash_select :
      LoadBalancer → Option String → List ℕ → Choice × LoadBalancer
  unfolding ring_choice turn
  consistent_hash_select b hash_key healthy_indices =
      if is_empty healthy_indices
      then (no_target, b)
      else if is_empty b.hash_ring
      then turn b healthy_indices
      else elim (ring_choice b.hash_ring hash_key healthy_indices) [
        | some i ↦ (chosen i, b)
        | none ↦ (first_of healthy_indices, b)
      ]

  unfoldable pub by_algorithm :
      LbAlgorithm → LoadBalancer → Option String → List ℕ → Choice × LoadBalancer
  unfolding turn consistent_hash_select least_connections_select
  by_algorithm round_robin b key indices = turn b indices
  by_algorithm consistent_hashing b key indices = consistent_hash_select b key indices
  by_algorithm least_connections b key indices =
      (least_connections_select b.targets b.connection_counts indices, b)
  by_algorithm latency b key indices = turn b indices

  -- If no target is healthy, all of them take part.
  unfoldable pub select_with_key : LoadBalancer → Option String → Choice × LoadBalancer
  unfolding get_healthy_indices turn by_algorithm
  select_with_key b key =
      if is_empty b.targets
      then (no_target, b)
      else if is_empty (get_healthy_indices b)
      then turn b (range 0 (length b.targets))
      else by_algorithm b.algorithm b key (get_healthy_indices b)
