-- ===== src/Balancer/Least.antt =====
-- Least connections in crates/kong-proxy/src/balancer.rs.
use native.Mathlib.Nat.{mod-lt, div-le_self}
use mathlib.Core.List.{Memᴰ}
use mathlib.Core.List.Memᴰ
use kong_rust.Common.{
  ℕ, ◌*◌, ◌%◌, ◌≤◌, ◌<◌, ◌≡◌, refl, List, [], ◌∷◌, arith, ltb, ltb→lt, Bool-cases, inl, inr,
}
use kong_rust.Common.Word.{lt_i32}
use kong_rust.Balancer.{
  BalancerTarget, chosen, elem_or_zero, weight_of_target, effective, least_from,
  least_connections_select,
}

effective-max : (conns weight : ℕ) → effective conns weight ≤ 18446744073709551615
effective-max conns weight = elim (Bool-cases (lt_i32 0 weight)) [
  | inl h ↦ rw h (
      omega (
        arith,
        div-le_self (conns * 100 % 18446744073709551616) weight,
        mod-lt (conns * 100) {m = 18446744073709551616} (omega arith),
      ))
  | inr h ↦ rw h (omega arith)
]

module _ (targets : List BalancerTarget) (counts : List ℕ) where
  -- The load by which the targets are compared.
  abbrev pub load : ℕ → ℕ
  load i = effective (elem_or_zero counts i) (weight_of_target targets i)

  -- A target of a list, or the one before it, with the least load.
  abbrev pub IsLeast : ℕ → ℕ → List ℕ → Type 0
  IsLeast m bound is = (load m ≤ bound) × ((j : ℕ) → Memᴰ j is → load m ≤ load j)

  with_head :
      (e i : ℕ) (is : List ℕ) (m c : ℕ) → e < c → e ≤ load i → IsLeast m e is → IsLeast m c (i ∷ is)
  with_head e i is m c lower first (below, rest) = (
    omega arith,
    λ j k. elim (Memᴰ.cases_cons k) [ inl q ↦ rw q (omega arith) | inr k' ↦ rest j k' ],
  )

  keep_head : (c i : ℕ) (is : List ℕ) (m : ℕ) → c ≤ load i → IsLeast m c is → IsLeast m c (i ∷ is)
  keep_head c i is m first (below, rest) =
      (below, λ j k. elim (Memᴰ.cases_cons k) [ inl q ↦ rw q (omega arith) | inr k' ↦ rest j k' ])

  least_from-IsLeast :
      (c m : ℕ) (is : List ℕ) → load m ≤ c → IsLeast (least_from targets counts c m is) c is
  unfolding least_from
  least_from-IsLeast c m [] h = (h, λ j e. absurd (Memᴰ.not-nil e))
  least_from-IsLeast c m (i ∷ is) h = elim (Bool-cases (ltb (load i) c)) [
    | inl b ↦ rw b (
        with_head (load i) i is _ c (ltb→lt (load i) c b) (omega arith)
          (least_from-IsLeast (load i) i is (omega arith)))
    | inr b ↦ rw b (keep_head c i is _ (ground arith) (least_from-IsLeast c m is h))
  ]

  least_from-Memᴰ :
      (c m : ℕ) (is all_indices : List ℕ)
      → Memᴰ m all_indices
      → ((j : ℕ) → Memᴰ j is → Memᴰ j all_indices)
      → Memᴰ (least_from targets counts c m is) all_indices
  unfolding least_from
  least_from-Memᴰ c m [] all_indices h sub = h
  least_from-Memᴰ c m (i ∷ is) all_indices h sub = elim (Bool-cases (ltb (load i) c)) [
    | inl b ↦ rw b (
        least_from-Memᴰ (load i) i is all_indices (sub i (Memᴰ.head refl))
          (λ j k. sub j (Memᴰ.tail k)))
    | inr b ↦ rw b (least_from-Memᴰ c m is all_indices h (λ j k. sub j (Memᴰ.tail k)))
  ]

  -- Among healthy targets, if there are any, least connections chooses one of them whose connections,
  -- times 100 and over its weight, are at most those of every other.
  pub least_connections_select-IsLeast :
      (i : ℕ) (is : List ℕ)
      → (m : ℕ) × (least_connections_select targets counts (i ∷ is) ≡ chosen m)
        × Memᴰ m (i ∷ is)
        × ((j : ℕ) → Memᴰ j (i ∷ is) → load m ≤ load j)
  unfolding least_connections_select
  least_connections_select-IsLeast i is = (
    least_from targets counts 18446744073709551615 i (i ∷ is),
    refl,
    least_from-Memᴰ 18446744073709551615 i (i ∷ is) (i ∷ is) (Memᴰ.head refl) (λ j k. k),
    (least_from-IsLeast 18446744073709551615 i (i ∷ is)
        (effective-max (elem_or_zero counts i) (weight_of_target targets i))).1,
  )
