-- ===== src/Balancer/Ring.antt =====
-- Consistent hashing in crates/kong-proxy/src/balancer.rs.
use kong_rust.Common.{
  ℕ, zero, suc, ◌+◌, ◌%◌, ◌≡◌, ◌∙◌, sym, ap, String, Bool, true, false, Option, some, List, length,
  get_elem?, contains, Bool-cases, Option-cases, some_inj, inl, inr, nat_keyed,
}
use kong_rust.Balancer.{HashRingNode, Found, walk}
use kong_rust.Balancer.Calls.{ring_choice}

-- The walk stops at a healthy target.
pub walk-healthy :
    (ring : List HashRingNode) (healthy : List ℕ) (pos n : ℕ) {t : ℕ}
    → walk ring healthy pos n ≡ some t
    → contains healthy t ≡ true
unfolding walk
walk-healthy ring healthy pos zero h = cc
walk-healthy ring healthy pos (suc n) {t} h =
    elim (Option-cases (get_elem? ring (pos % length ring))) [
      | inl e ↦ walk-healthy ring healthy (pos + 1) n (rw (walk, e) at h)
      | inr (node, e) ↦ elim (Bool-cases (contains healthy node.target_index)) [
        | inl b ↦ ap (contains healthy) (sym (some_inj (rw (walk, e, b) at h))) ∙ b
        | inr b ↦ walk-healthy ring healthy (pos + 1) n (rw (walk, e, b) at h)
      ]
    ]

both : {x : Bool} → x ≡ true → ¬ (x ≡ false)
both p q = cc

stays_out :
    (healthy fewer : List ℕ) (i : ℕ)
    → ((i : ℕ) → contains fewer i ≡ true → contains healthy i ≡ true)
    → contains healthy i ≡ false
    → contains fewer i ≡ false
stays_out healthy fewer i sub b = elim (Bool-cases (contains fewer i)) [
  | inl c ↦ absurd (both (sub i c) b)
  | inr c ↦ c
]

-- With fewer healthy targets the walk stops at the same one, if that is healthy still.
walk-stable :
    (ring : List HashRingNode) (healthy fewer : List ℕ) (pos n : ℕ) {t : ℕ}
    → ((i : ℕ) → contains fewer i ≡ true → contains healthy i ≡ true)
    → walk ring healthy pos n ≡ some t
    → contains fewer t ≡ true
    → walk ring fewer pos n ≡ some t
unfolding walk
walk-stable ring healthy fewer pos zero sub h still = cc
walk-stable ring healthy fewer pos (suc n) {t} sub h still =
    elim (Option-cases (get_elem? ring (pos % length ring))) [
      | inl e ↦
          rw (walk, e) (walk-stable ring healthy fewer (pos + 1) n sub (rw (walk, e) at h) still)
      | inr (node, e) ↦ elim (Bool-cases (contains healthy node.target_index)) [
        | inl b ↦
            rw (walk, e, ap (contains fewer) (some_inj (rw (walk, e, b) at h)) ∙ still)
              (rw (walk, e, b) at h)
        | inr b ↦
            rw (walk, e, stays_out healthy fewer _ sub b)
              (walk-stable ring healthy fewer (pos + 1) n sub (rw (walk, e, b) at h) still)
      ]
    ]

module _ (compute_hash : String → ℕ) (decimal : ℕ → String)
    (binary_search_by_key : ℕ → List ℕ → Found) (ring : List HashRingNode)
    (hash_key : Option String) (healthy : List ℕ) (t : ℕ) where
  -- The target that the ring gives to a key is healthy, and it stays the key's target when other
  -- targets stop being healthy: of the keys, only those of the lost targets move. This holds for
  -- every hash function and every place that the binary search may return.
  pub ring_choice-stable :
      (fewer : List ℕ)
      → ((i : ℕ) → contains fewer i ≡ true → contains healthy i ≡ true)
      → ring_choice compute_hash decimal binary_search_by_key ring hash_key healthy ≡ some t
      → contains fewer t ≡ true
      → (contains healthy t ≡ true)
        × (ring_choice compute_hash decimal binary_search_by_key ring hash_key fewer ≡ some t)
  unfolding ring_choice
  ring_choice-stable fewer sub h still = (
    walk-healthy ring healthy _ (length ring) h,
    walk-stable ring healthy fewer _ (length ring) sub h still,
  )
