-- ===== src/Balancer/Wheel.antt =====
-- The weight wheel of crates/kong-proxy/src/balancer.rs: each target has its share of it.
use kong_rust.Common.{
  ℕ, zero, suc, ◌+◌, ◌≤◌, ◌<◌, ◌≡◌, refl, true, List, [], ◌∷◌, arith, if◌then◌else◌, ltb, nat_beq,
  Bool-cases, inl, inr,
}
use kong_rust.Provider.Weighted.{sum}
use kong_rust.Provider.Weighted.Shares.{count}
use kong_rust.Balancer.{elem_or_zero, best, take_slot, wheel}

elem_or_zero-sum : (rs : List ℕ) (i : ℕ) → elem_or_zero rs i ≤ sum rs
elem_or_zero-sum [] i = omega arith
elem_or_zero-sum (r ∷ rs) zero = omega arith
elem_or_zero-sum (r ∷ rs) (suc i) = omega (arith, elem_or_zero-sum rs i)

below_first :
    (r : ℕ) (rs : List ℕ) (i top : ℕ)
    → ((k : ℕ) → elem_or_zero rs k ≤ top)
    → top < r
    → elem_or_zero (r ∷ rs) i ≤ r
below_first r rs zero top h l = omega arith
below_first r rs (suc i) top h l = omega (arith, h i)

below_later :
    (r : ℕ) (rs : List ℕ) (i top : ℕ)
    → ((k : ℕ) → elem_or_zero rs k ≤ top)
    → r ≤ top
    → elem_or_zero (r ∷ rs) i ≤ top
below_later r rs zero top h l = l
below_later r rs (suc i) top h l = h i

-- The chosen entry is greatest.
best-greatest : (rs : List ℕ) (i : ℕ) → elem_or_zero rs i ≤ elem_or_zero rs (best rs)
unfolding best
best-greatest [] i = omega arith
best-greatest (r ∷ []) zero = omega arith
best-greatest (r ∷ []) (suc i) = omega arith
best-greatest (r ∷ (q ∷ rs)) i = elim (Bool-cases (ltb (elem_or_zero (q ∷ rs) (best (q ∷ rs))) r)) [
  | inl h ↦ rw h (below_first r (q ∷ rs) i _ (best-greatest (q ∷ rs)) (ground arith))
  | inr h ↦ rw h (below_later r (q ∷ rs) i _ (best-greatest (q ∷ rs)) (ground arith))
]

all_zero-sum : (rs : List ℕ) → ((i : ℕ) → elem_or_zero rs i ≡ 0) → sum rs ≡ 0
all_zero-sum [] h = refl
all_zero-sum (r ∷ rs) h = omega (arith, h 0, all_zero-sum rs (λ i. h (suc i)))

best-positive : (rs : List ℕ) → 0 < sum rs → 0 < elem_or_zero rs (best rs)
best-positive rs h = elim (Bool-cases (nat_beq (elem_or_zero rs (best rs)) 0)) [
  | inr e ↦ ground arith
  | inl e ↦ absurd (none_left (all_zero-sum rs (λ i. omega (arith, best-greatest rs i, nil e))))
]
  where
    nil : nat_beq (elem_or_zero rs (best rs)) 0 ≡ true → elem_or_zero rs (best rs) ≡ 0
    nil e = ground arith

    none_left : ¬ (sum rs ≡ 0)
    none_left e = omega arith

sum-take_slot : (rs : List ℕ) (i : ℕ) → 0 < elem_or_zero rs i → suc (sum (take_slot rs i)) ≡ sum rs
sum-take_slot [] i h = omega arith
sum-take_slot (r ∷ rs) zero h = omega arith
sum-take_slot (r ∷ rs) (suc i) h = omega (arith, sum-take_slot rs i h)

elem_or_zero-take_slot :
    (rs : List ℕ) (i j : ℕ)
    → 0 < elem_or_zero rs i
    → (if nat_beq i j then 1 else 0) + elem_or_zero (take_slot rs i) j ≡ elem_or_zero rs j
elem_or_zero-take_slot [] i j h = omega arith
elem_or_zero-take_slot (r ∷ rs) zero zero h = ground arith
elem_or_zero-take_slot (r ∷ rs) zero (suc j) h = ground arith
elem_or_zero-take_slot (r ∷ rs) (suc i) zero h = ground arith
elem_or_zero-take_slot (r ∷ rs) (suc i) (suc j) h = ground (arith, elem_or_zero-take_slot rs i j h)

-- A wheel of as many slots as there are in all gives each position just its slots.
pub count-wheel :
    (n : ℕ) (rs : List ℕ) (j : ℕ) → sum rs ≡ n → count j (wheel n rs) ≡ elem_or_zero rs j
unfolding wheel
count-wheel zero rs j h = omega (arith, elem_or_zero-sum rs j)
count-wheel (suc n) rs j h =
    let p : 0 < elem_or_zero rs (best rs) = best-positive rs (omega arith) in
    omega (
      arith,
      count-wheel n (take_slot rs (best rs)) j (omega (arith, sum-take_slot rs (best rs) p)),
      elem_or_zero-take_slot rs (best rs) j p,
    )
