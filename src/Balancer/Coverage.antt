-- ===== src/Balancer/Coverage.antt =====
-- The hash ring of crates/kong-proxy/src/balancer.rs covers every target.
use native.Mathlib.Nat.{mod-lt, mod-eq_of_lt, add-mod_right, mod-add-mod}
use kong_rust.Common.{
  ℕ, zero, suc, ◌+◌, ◌-◌, ◌%◌, ◌<◌, ◌≡◌, ◌∙◌, refl, sym, ap, String, Bool, true, false, ◌||◌,
  Option, some, List, [], ◌∷◌, ◌++◌, map, arith, leb, nat_beq, nat_beq_iff, length, get_elem?, any,
  is_empty, contains, Bool-cases, Option-cases, inl, inr, nat_keyed,
}
use kong_rust.Balancer.{BalancerTarget, HashRingNode, Found, walk, total_weight}
use kong_rust.Balancer.Ring.{walk-healthy}
use kong_rust.Balancer.Calls.{
  sort_node, sort_ring, target_nodes, vnodes, all_nodes, build_hash_ring, ring_choice,
}

walk-reaches :
    (ring : List HashRingNode) (healthy : List ℕ) (pos n offset : ℕ) (node : HashRingNode)
    → offset < n
    → get_elem? ring ((pos + offset) % length ring) ≡ some node
    → contains healthy node.target_index ≡ true
    → (t : ℕ) × (walk ring healthy pos n ≡ some t)
unfolding walk
walk-reaches ring healthy pos zero offset node l found c = absurd (omega arith)
walk-reaches ring healthy pos (suc n) zero node l found c =
    let here : get_elem? ring (pos % length ring) ≡ some node =
      ap (λ i. get_elem? ring (i % length ring)) {x = pos} {y = pos + 0} (omega arith) ∙ found in
    rw (walk, here, c) (node.target_index, refl)
walk-reaches ring healthy pos (suc n) (suc offset) node l found c =
    let later : (t : ℕ) × (walk ring healthy (pos + 1) n ≡ some t) =
      walk-reaches ring healthy (pos + 1) n offset node (omega arith)
        (ap (λ i. get_elem? ring (i % length ring)) {x = pos + 1 + offset} {y = pos + suc offset}
            (omega arith)
          ∙ found)
        c in
    elim (Option-cases (get_elem? ring (pos % length ring))) [
      | inl e ↦ rw (walk, e) later
      | inr (m, e) ↦ elim (Bool-cases (contains healthy m.target_index)) [
        | inl b ↦ rw (walk, e, b) (m.target_index, refl)
        | inr b ↦ rw (walk, e, b) later
      ]
    ]

-- Every place of a ring is some steps from every other.
reach : (pos k n : ℕ) → k < n → (offset : ℕ) × (offset < n) × ((pos + offset) % n ≡ k)
reach pos k n h =
    let p = pos % n in
    let l : p < n = mod-lt pos (omega arith) in
    elim (Bool-cases (leb p k)) [
      | inl b ↦ (
        k - p,
        omega arith,
        sym (mod-add-mod pos n (k - p)) ∙ ap (λ x. x % n) {y = k} (ground arith) ∙ mod-eq_of_lt h,
      )
      | inr b ↦ (
        k + n - p,
        ground arith,
        sym (mod-add-mod pos n (k + n - p))
            ∙ ap (λ x. x % n) {y = k + n} (omega arith)
            ∙ add-mod_right k n
            ∙ mod-eq_of_lt h,
      )
    ]

any-append :
    (p : HashRingNode → Bool) (xs ys : List HashRingNode)
    → any p (xs ++ ys) ≡ (any p xs || any p ys)
any-append p [] ys = refl
any-append p (x ∷ xs) ys = ground (arith, any-append p xs ys)

any-sort_node :
    (p : HashRingNode → Bool) (x : HashRingNode) (xs : List HashRingNode)
    → any p (sort_node x xs) ≡ (p x || any p xs)
any-sort_node p x [] = refl
any-sort_node p x (y ∷ ys) = ground (arith, any-sort_node p x ys)

any-sort_ring : (p : HashRingNode → Bool) (xs : List HashRingNode) → any p (sort_ring xs) ≡ any p xs
unfolding sort_ring
any-sort_ring p [] = refl
any-sort_ring p (x ∷ xs) =
    any-sort_node p x (sort_ring xs) ∙ ap (λ b. p x || b) (any-sort_ring p xs)

any-get_elem? :
    (p : HashRingNode → Bool) (xs : List HashRingNode)
    → any p xs ≡ true
    → (k : ℕ) × (x : HashRingNode) × (k < length xs) × (get_elem? xs k ≡ some x) × (p x ≡ true)
any-get_elem? p [] h = cc
any-get_elem? p (x ∷ xs) h = elim (Bool-cases (p x)) [
  | inl b ↦ (0, x, omega arith, refl, b)
  | inr b ↦ let (k, y, l, e, q) = any-get_elem? p xs (rw b at h) in (suc k, y, omega arith, e, q)
]

or_left : (a b : Bool) → a ≡ true → (a || b) ≡ true
or_left a b h = rw h refl

or_right : (a b : Bool) → b ≡ true → (a || b) ≡ true
or_right a b h = ground arith

abbrev points_to : ℕ → HashRingNode → Bool
points_to i node = nat_beq node.target_index i

-- A walk round a ring that has a node of a healthy target stops.
walk-total :
    (ring : List HashRingNode) (healthy : List ℕ) (i pos : ℕ)
    → any (points_to i) ring ≡ true
    → contains healthy i ≡ true
    → (t : ℕ) × (walk ring healthy pos (length ring) ≡ some t)
walk-total ring healthy i pos h c =
    let (k, node, l, e, q) = any-get_elem? (points_to i) ring h in
    let (offset, lo, eo) = reach pos k (length ring) l in
    walk-reaches ring healthy pos (length ring) offset node lo (ap (get_elem? ring) eo ∙ e)
      (ap (contains healthy) ((nat_beq_iff node.target_index i).0 q) ∙ c)

filled_targets : (ts : List BalancerTarget) (i : ℕ) → i < length ts → is_empty ts ≡ false
filled_targets [] i h = absurd (omega arith)
filled_targets (t ∷ ts) i h = refl

module _ (compute_hash : String → ℕ) (decimal : ℕ → String)
    (binary_search_by_key : ℕ → List ℕ → Found) where
  target_nodes-points :
      (t : BalancerTarget) (index i n : ℕ)
      → 0 < n
      → any (points_to index) (target_nodes compute_hash decimal binary_search_by_key t index i n)
        ≡ true
  unfolding target_nodes
  target_nodes-points t index i zero h = absurd (omega arith)
  target_nodes-points t index i (suc n) h = rw ((nat_beq_iff index index).1 refl) refl

  all_nodes-points :
      (total_slots total index : ℕ) (ts : List BalancerTarget) (i : ℕ)
      → i < length ts
      → any
          (points_to (index + i))
          (all_nodes compute_hash decimal binary_search_by_key total_slots total index ts)
        ≡ true
  unfolding all_nodes
  all_nodes-points total_slots total index [] i h = absurd (omega arith)
  all_nodes-points total_slots total index (t ∷ ts) zero h =
      any-append (points_to (index + 0))
        (target_nodes compute_hash decimal binary_search_by_key t index 0
          (vnodes compute_hash decimal binary_search_by_key total_slots total t.weight))
        _
      ∙ or_left _ _ (
          ap
            (λ k. any (points_to k) (
              target_nodes compute_hash decimal binary_search_by_key t index 0
                (vnodes compute_hash decimal binary_search_by_key total_slots total t.weight)))
            {x = index + 0} {y = index} (omega arith)
          ∙ target_nodes-points t index 0
              (vnodes compute_hash decimal binary_search_by_key total_slots total t.weight)
              (omega arith))
  all_nodes-points total_slots total index (t ∷ ts) (suc i) h =
      any-append (points_to (index + suc i))
        (target_nodes compute_hash decimal binary_search_by_key t index 0
          (vnodes compute_hash decimal binary_search_by_key total_slots total t.weight))
        _
      ∙ or_right _ _ (
          ap
            (λ k. any (points_to k) (
              all_nodes compute_hash decimal binary_search_by_key total_slots total (suc index) ts))
            {x = index + suc i} {y = suc index + i} (omega arith)
          ∙ all_nodes-points total_slots total (suc index) ts i (omega arith))

  build_hash_ring-points :
      (targets : List BalancerTarget) (total_slots i : ℕ)
      → nat_beq (total_weight (map (λ t. t.weight) targets)) 0 ≡ false
      → i < length targets
      → any
          (points_to i)
          (build_hash_ring compute_hash decimal binary_search_by_key targets total_slots)
        ≡ true
  unfolding build_hash_ring
  build_hash_ring-points targets total_slots i weights h =
      rw (build_hash_ring, filled_targets targets i h, weights)
        (any-sort_ring (points_to i) (
            all_nodes compute_hash decimal binary_search_by_key total_slots
              (total_weight (map (λ t. t.weight) targets)) 0 targets)
          ∙ ap
              (λ k. any (points_to k) (
                all_nodes compute_hash decimal binary_search_by_key total_slots
                  (total_weight (map (λ t. t.weight) targets)) 0 targets))
              {x = i} {y = 0 + i} (omega arith)
          ∙ all_nodes-points total_slots (total_weight (map (λ t. t.weight) targets)) 0 targets i h)

  -- The ring that is built for targets whose weights do not add up to 0 gives every key a healthy
  -- target as soon as one target is healthy, for every hash function and every place that the binary
  -- search may return: the fallback to the first healthy target is never taken.
  pub ring_choice-total :
      (targets : List BalancerTarget) (total_slots : ℕ) (key : Option String) (healthy : List ℕ)
      (i : ℕ)
      → nat_beq (total_weight (map (λ t. t.weight) targets)) 0 ≡ false
      → i < length targets
      → contains healthy i ≡ true
      → (t : ℕ) × (ring_choice compute_hash decimal binary_search_by_key
            (build_hash_ring compute_hash decimal binary_search_by_key targets total_slots)
            key
            healthy
          ≡ some t)
        × (contains healthy t ≡ true)
  unfolding ring_choice
  ring_choice-total targets total_slots key healthy i weights h c =
      let ring = build_hash_ring compute_hash decimal binary_search_by_key targets total_slots in
      let (t, e) =
        walk-total ring healthy i _ (build_hash_ring-points targets total_slots i weights h) c in
      (t, e, walk-healthy ring healthy _ (length ring) e)
