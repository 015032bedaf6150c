-- ===== src/Provider/Group/Tiers.antt =====
-- The tiers of crates/kong-ai/src/provider/balancer.rs, and the choice within one.
use mathlib.Core.List.{Memᴰ}
use native.Mathlib.Nat.{mod-lt, div-le_self}
use kong_rust.Common.{
  ℕ, zero, suc, ◌/◌, ◌%◌, ◌≤◌, ◌<◌, ◌≡◌, ◌≢◌, refl, Bool, true, false, ◌&&◌, Option, none, some,
  List, [], ◌∷◌, map, arith, Bool-cases, inl, inr, nat_beq, length, all, length-map,
}
use kong_rust.Common.Members.{Memᴰ-keep_if, keep_if-Memᴰ, Memᴰ-get_elem?, get_elem?-lt}
use kong_rust.Provider.Weighted.{divisor, sum, weighted_round_robin_index}
use kong_rust.Provider.Weighted.Gcd.{AllZero, divisor-zero}
use kong_rust.Provider.Weighted.Shares.{weight_at, weighted_round_robin_index_total}
use kong_rust.Provider.Group.{ModelEntry, selected, at, eligible, tier, weight_of, pick}

priority_of_kept : (b : Bool) (q p : ℕ) → (nat_beq q p && b) ≡ true → (q ≡ p) × (b ≡ true)
priority_of_kept b q p h = ground arith

kept_of_priority : (q p : ℕ) → q ≡ p → (nat_beq q p && true) ≡ true
kept_of_priority q p e = ground arith

false-ne-true : ¬ (false ≡ true)
false-ne-true e = cc

abbrev pub weights : List ModelEntry → List ℕ
weights = map weight_of

-- An entry of a tier is one of the group with that priority, and eligible.
pub Memᴰ-tier :
    (now : ℕ) (prompt : Option ℕ) (p : ℕ) (es : List ModelEntry) {e : ModelEntry}
    → Memᴰ e (tier now prompt p es)
    → Memᴰ e es × (e.model.priority ≡ p) × (eligible now prompt e ≡ true)
unfolding tier
Memᴰ-tier now prompt p es {e} m =
    let kept =
      Memᴰ-keep_if (λ (x : ModelEntry). nat_beq x.model.priority p && eligible now prompt x) es m in
    let parts = priority_of_kept (eligible now prompt e) e.model.priority p kept.1 in
    (kept.0, parts.0, parts.1)

pub tier-Memᴰ :
    (now : ℕ) (prompt : Option ℕ) (p : ℕ) (es : List ModelEntry) {e : ModelEntry}
    → Memᴰ e es
    → e.model.priority ≡ p
    → eligible now prompt e ≡ true
    → Memᴰ e (tier now prompt p es)
unfolding tier
tier-Memᴰ now prompt p es {e} m q h =
    keep_if-Memᴰ (λ (x : ModelEntry). nat_beq x.model.priority p && eligible now prompt x) es m
      (rw h (kept_of_priority e.model.priority p q))

at-selected :
    (cs : List ModelEntry) (o : Option ℕ) {e : ModelEntry} → at cs o ≡ selected e → Memᴰ e cs
at-selected cs none h = cc
at-selected cs (some i) h = Memᴰ-get_elem? cs i (ground arith)

-- What is picked is one of the candidates.
pub pick-Memᴰ :
    (sequence : ℕ) (cs : List ModelEntry) {e : ModelEntry}
    → pick sequence cs ≡ selected e
    → Memᴰ e cs
unfolding pick
pick-Memᴰ sequence cs h = elim (Bool-cases (all (λ w. nat_beq w 0) (weights cs))) [
  | inl z ↦ at-selected cs (some (sequence % length cs)) (rw z at h)
  | inr z ↦ at-selected cs (weighted_round_robin_index (weights cs) sequence) (rw z at h)
]

sum-reduced : (d : ℕ) (ws : List ℕ) → sum (map (λ w. w / d) ws) ≤ sum ws
sum-reduced d [] = omega arith
sum-reduced d (w ∷ ws) = omega (arith, sum-reduced d ws, div-le_self w d)

weight_at-lt : (ws : List ℕ) (i : ℕ) → 0 < weight_at ws i → i < length ws
weight_at-lt [] i h = absurd (omega arith)
weight_at-lt (w ∷ ws) zero h = omega arith
weight_at-lt (w ∷ ws) (suc i) h = omega (arith, weight_at-lt ws i h)

all_zero : (ws : List ℕ) → AllZero ws → all (λ w. nat_beq w 0) ws ≡ true
all_zero [] z = refl
all_zero (w ∷ ws) z = ground (arith, all_zero ws z.1)

at-some :
    (cs : List ModelEntry) (i : ℕ)
    → i < length cs
    → (e : ModelEntry) × (at cs (some i) ≡ selected e)
at-some cs i h = let (e, q) = get_elem?-lt cs i h in (e, rw (q, at) refl)

-- A tier with a candidate, whose weights add up to less than 2 ^ 64, gives a selection: the
-- `expect` of the source does not fail.
pub pick_total :
    (sequence : ℕ) (cs : List ModelEntry)
    → 0 < length cs
    → sum (weights cs) < 18446744073709551616
    → (e : ModelEntry) × (pick sequence cs ≡ selected e)
unfolding pick
pick_total sequence cs pos total = elim (Bool-cases (all (λ w. nat_beq w 0) (weights cs))) [
  | inl z ↦ rw z (at-some cs (sequence % length cs) (mod-lt sequence pos))
  | inr z ↦
      let some_weight : divisor (weights cs) ≢ 0 =
        λ d. false-ne-true (rw z at (all_zero (weights cs) ((divisor-zero (weights cs)).0 d))) in
      let (i, chosen, heavy) =
        weighted_round_robin_index_total (weights cs) sequence some_weight
          (omega (arith, sum-reduced (divisor (weights cs)) (weights cs))) in
      rw (z, chosen)
        (at-some cs i (omega (arith, weight_at-lt (weights cs) i heavy, length-map weight_of cs)))
]

-- Weights that are not all 0 do not pass the test for all zeros.
AllZero-weights : (ws : List ℕ) → all (λ w. nat_beq w 0) ws ≡ true → AllZero ws
AllZero-weights [] h = tt
AllZero-weights (w ∷ ws) h = (ground arith, AllZero-weights ws (ground arith))

pub all_zero_divisor : (ws : List ℕ) → divisor ws ≢ 0 → all (λ w. nat_beq w 0) ws ≡ false
all_zero_divisor ws h = elim (Bool-cases (all (λ w. nat_beq w 0) ws)) [
  | inl z ↦ absurd (h ((divisor-zero ws).1 (AllZero-weights ws z)))
  | inr z ↦ z
]
