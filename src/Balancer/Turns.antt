-- ===== src/Balancer/Turns.antt =====
-- The turns of the weighted round-robin of crates/kong-proxy/src/balancer.rs.
use native.Mathlib.Nat.{mul-div_cancel, mod-lt, mod-eq_of_lt, add-mod_right}
use kong_rust.Common.{
  ℕ, zero, suc, ◌+◌, ◌*◌, ◌/◌, ◌%◌, max, ◌<◌, ◌≡◌, ◌∙◌, refl, sym, ap, false, some, List, [], ◌∷◌,
  map, arith, if◌then◌else◌, leb, nat_beq, length, get_elem?, Bool-cases, inl, inr,
}
use kong_rust.Common.Order.{Divides-div}
use kong_rust.Provider.Weighted.{divisor, sum}
use kong_rust.Provider.Weighted.Gcd.{AllZero, DividesAll, divisor-DividesAll, divisor-zero}
use kong_rust.Provider.Weighted.Shares.{count}
use kong_rust.Balancer.{chosen, elem_or_zero, best, take_slot, wheel, turn_wheel}
use kong_rust.Balancer.Wheel.{count-wheel}

AllZero-sum : (ws : List ℕ) → AllZero ws → sum ws ≡ 0
AllZero-sum [] z = refl
AllZero-sum (w ∷ ws) z = omega (arith, z.0, AllZero-sum ws z.1)

divisor_pos : (ws : List ℕ) → 0 < sum ws → 0 < divisor ws
divisor_pos ws h = elim (Bool-cases (nat_beq (divisor ws) 0)) [
  | inr e ↦ ground arith
  | inl e ↦ absurd (sum_not_zero (AllZero-sum ws ((divisor-zero ws).0 (ground arith))))
]
  where
    sum_not_zero : ¬ (sum ws ≡ 0)
    sum_not_zero e = omega arith

abbrev pub shares : List ℕ → List ℕ
shares ws = map (λ w. w / divisor ws) ws

sum-scaled :
    (d : ℕ) (ws : List ℕ) → 0 < d → DividesAll d ws → sum (map (λ w. w / d) ws) * d ≡ sum ws
sum-scaled d [] p h = omega arith
sum-scaled d (w ∷ ws) p h = grind (arith, Divides-div d w p h.0, sum-scaled d ws p h.1)

elem_or_zero-scaled :
    (d : ℕ) (ws : List ℕ) (j : ℕ)
    → 0 < d
    → DividesAll d ws
    → elem_or_zero (map (λ w. w / d) ws) j * d ≡ elem_or_zero ws j
elem_or_zero-scaled d [] j p h = omega arith
elem_or_zero-scaled d (w ∷ ws) zero p h = Divides-div d w p h.0
elem_or_zero-scaled d (w ∷ ws) (suc j) p h = elem_or_zero-scaled d ws j p h.1

sum-shares : (ws : List ℕ) → 0 < sum ws → sum (shares ws) ≡ sum ws / divisor ws
sum-shares ws h =
    sym (mul-div_cancel (sum (shares ws)) (divisor_pos ws h))
    ∙ ap (λ n. n / divisor ws)
        (sum-scaled (divisor ws) ws (divisor_pos ws h) (divisor-DividesAll ws))

-- The whole wheel.
abbrev pub slots : List ℕ → List ℕ
slots ws = wheel (sum ws / divisor ws) (shares ws)

length-wheel : (n : ℕ) (rs : List ℕ) → length (wheel n rs) ≡ n
unfolding wheel
length-wheel zero rs = refl
length-wheel (suc n) rs = ap suc (length-wheel n (take_slot rs (best rs)))

-- The wheel of weights that are not all 0 holds each target in exact proportion to its weight: its
-- slots times the common divisor of the weights are its weight.
pub count-slots :
    (ws : List ℕ) (j : ℕ) → 0 < sum ws → count j (slots ws) * divisor ws ≡ elem_or_zero ws j
count-slots ws j h =
    ap (λ n. n * divisor ws) (count-wheel (sum ws / divisor ws) (shares ws) j (sum-shares ws h))
    ∙ elem_or_zero-scaled (divisor ws) ws j (divisor_pos ws h) (divisor-DividesAll ws)

no_product : (a d n : ℕ) → a * d ≡ n → 0 < n → 0 < a
no_product zero d n e h = omega arith
no_product (suc a) d n e h = omega arith

size_pos : (ws : List ℕ) → 0 < sum ws → 0 < sum ws / divisor ws
size_pos ws h = omega (
  arith,
  sum-shares ws h,
  no_product (sum (shares ws)) (divisor ws) (sum ws)
      (sum-scaled (divisor ws) ws (divisor_pos ws h) (divisor-DividesAll ws)) h,
)

pub slots_pos : (ws : List ℕ) → 0 < sum ws → 0 < length (slots ws)
slots_pos ws h = omega (arith, length-wheel (sum ws / divisor ws) (shares ws), size_pos ws h)

get_map :
    (f : ℕ → ℕ) (xs : List ℕ) (i : ℕ)
    → i < length xs
    → get_elem? (map f xs) i ≡ some (f (elem_or_zero xs i))
get_map f [] i h = absurd (omega arith)
get_map f (x ∷ xs) zero h = refl
get_map f (x ∷ xs) (suc i) h = get_map f xs i (omega arith)

not_zero : {n : ℕ} → 0 < n → nat_beq n 0 ≡ false
not_zero {n} h = ground arith

-- A turn chooses the target in the slot that the counter points to, if the weights are not all 0 and
-- their sum is an `i32`: it never panics.
pub turn_wheel-slots :
    (ws healthy : List ℕ) (idx : ℕ)
    → 0 < sum ws
    → sum ws < 2147483648
    → turn_wheel ws healthy idx
      ≡ chosen (elem_or_zero healthy (elem_or_zero (slots ws) (idx % length (slots ws))))
unfolding turn_wheel
turn_wheel-slots ws healthy idx h small =
    let total : sum ws % 4294967296 ≡ sum ws = mod-eq_of_lt (omega arith) in
    let greatest : max (divisor ws) 1 ≡ divisor ws = omega (arith, divisor_pos ws h) in
    let some_weight : nat_beq (sum ws) 0 ≡ false = ground arith in
    let positive : leb 2147483648 (sum ws) ≡ false = ground arith in
    let size : nat_beq (sum ws / divisor ws) 0 ≡ false = not_zero (size_pos ws h) in
    let wide : length (slots ws) ≡ sum ws / divisor ws =
      length-wheel (sum ws / divisor ws) (shares ws) in
    let bound : idx % (sum ws / divisor ws) < length (slots ws) =
      omega (arith, wide, mod-lt idx (size_pos ws h)) in
    let found = get_map (elem_or_zero healthy) (slots ws) (idx % (sum ws / divisor ws)) bound in
    simp (total, greatest, some_weight, positive, size, wide, found) refl

-- The slots that `n` counters from `s` on point to.
abbrev pub slots_from : List ℕ → ℕ → ℕ → List ℕ
slots_from xs s zero = []
slots_from xs s (suc n) = elem_or_zero xs (s % length xs) ∷ slots_from xs (suc s) n

-- How often these slots are `j`.
abbrev hits : List ℕ → ℕ → ℕ → ℕ → ℕ
hits xs j s n = count j (slots_from xs s n)

hits-next : (xs : List ℕ) (j s n : ℕ) → hits xs j s (suc n) ≡ hits xs j s n + hits xs j (s + n) 1
hits-next xs j s zero =
    omega (arith, ap {B = ℕ} (λ k. hits xs j k 1) {x = s} {y = s + 0} (omega arith))
hits-next xs j s (suc n) =
    let e : suc s + n ≡ s + suc n = omega arith in
    omega (arith, hits-next xs j (suc s) n, ap {B = ℕ} (λ k. hits xs j k 1) e)

-- A whole turn of the wheel hits the same slots, wherever it starts.
hits-period : (xs : List ℕ) (j s : ℕ) → hits xs j s (length xs) ≡ hits xs j 0 (length xs)
hits-period xs j zero = refl
hits-period xs j (suc s) = omega (
  arith,
  hits-next xs j s (length xs),
  hits-period xs j s,
  ap {B = ℕ} (λ k. if nat_beq (elem_or_zero xs k) j then 1 else 0) (add-mod_right s (length xs)),
)

hits-from :
    (xs ys : List ℕ) (j s : ℕ)
    → ((k : ℕ) → k < length ys → elem_or_zero xs ((s + k) % length xs) ≡ elem_or_zero ys k)
    → hits xs j s (length ys) ≡ count j ys
hits-from xs [] j s h = refl
hits-from xs (y ∷ ys) j s h =
    let first : elem_or_zero xs (s % length xs) ≡ y =
      ap (λ k. elem_or_zero xs (k % length xs)) {x = s} {y = s + 0} (omega arith)
      ∙ h 0 (omega arith) in
    let rest = hits-from xs ys j (suc s) (λ k l.
      ap (λ i. elem_or_zero xs (i % length xs)) {x = suc s + k} {y = s + suc k} (omega arith)
      ∙ h (suc k) (omega arith)) in
    omega (arith, rest, ap {B = ℕ} (λ v. if nat_beq v j then 1 else 0) first)

-- The slots of any whole turn of the wheel hold each position in exact proportion to its weight.
pub count-slots_from :
    (ws : List ℕ) (j s : ℕ)
    → 0 < sum ws
    → count j (slots_from (slots ws) s (length (slots ws))) * divisor ws ≡ elem_or_zero ws j
count-slots_from ws j s h =
    ap (λ n. n * divisor ws)
      (hits-period (slots ws) j s
        ∙ hits-from (slots ws) (slots ws) j 0 (λ k l.
          ap (elem_or_zero (slots ws))
            (ap (λ i. i % length (slots ws)) {x = 0 + k} {y = k} (omega arith) ∙ mod-eq_of_lt l)))
    ∙ count-slots ws j h
