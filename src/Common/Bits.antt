-- ===== src/Common/Bits.antt =====
-- The conjunction of a number with a mask of high bits.
use Prim.Native.Nat.{
  ℕ, zero, suc, ◌+◌, ◌-◌, ◌*◌, ◌/◌, ◌%◌, ◌^◌, ◌≤◌, ◌<◌, min, bit_and, digits, bit_and-bitwise,
}
use mathlib.Core.Path.{◌≡◌, ◌∙◌, refl, sym, ap, ap₂}
use native.Mathlib.Omega.{arith}
use native.Mathlib.Nat.{
  two-pow-succ, one-le-pow, div-add-mod, mod-lt, mod-eq_of_lt, mul-add-mod_self_left,
  div-div-eq-div-mul, mod-one, div-one, add-mul, mul-one, mul_assoc, mul_comm, pow-suc,
}

-- Fuel that reaches the number is as good as any other.
digits-fuel :
    (m n a mask : ℕ) → a ≤ m → a ≤ n → digits (λ y. 0) min m a mask ≡ digits (λ y. 0) min n a mask
digits-fuel m n zero mask h k = ran_out m ∙ sym (ran_out n)
  where
    ran_out : (fuel : ℕ) → digits (λ y. 0) min fuel 0 mask ≡ 0
    ran_out zero = refl
    ran_out (suc fuel) = refl
digits-fuel zero n (suc a) mask h k = absurd (omega (arith, h))
digits-fuel (suc m) zero (suc a) mask h k = absurd (omega (arith, k))
digits-fuel (suc m) (suc n) (suc a) mask h k =
    ap (λ d. d * 2 + min (suc a % 2) (mask % 2))
      (digits-fuel m n (suc a / 2) (mask / 2) (omega (arith, h)) (omega (arith, k)))

low_digit : (a mask : ℕ) → bit_and a mask ≡ bit_and (a / 2) (mask / 2) * 2 + min (a % 2) (mask % 2)
low_digit zero mask = omega (arith, bit_and-bitwise 0 mask, bit_and-bitwise 0 (mask / 2))
low_digit (suc a) mask = omega (
  arith,
  bit_and-bitwise (suc a) mask,
  bit_and-bitwise (suc a / 2) (mask / 2),
  digits-fuel a (suc a / 2) (suc a / 2) (mask / 2) (omega arith) (omega arith),
)

no_mask : (fuel a : ℕ) → a ≤ fuel → bit_and a 0 ≡ 0
no_mask fuel zero h = refl
no_mask zero (suc a) h = absurd (omega (arith, h))
no_mask (suc fuel) (suc a) h =
    omega (arith, low_digit (suc a) 0, no_mask fuel (suc a / 2) (omega (arith, h)))

-- The remainder by twice a number, from that of the half.
mod-double : (x p : ℕ) → 0 < p → x % (p + p) ≡ (x / 2 % p) * 2 + x % 2
mod-double x p h =
    ap (λ y. y % (p + p)) split
    ∙ mul-add-mod_self_left (p + p) (x / 2 / p) ((x / 2 % p) * 2 + x % 2)
    ∙ mod-eq_of_lt (omega (arith, mod-lt (x / 2) h))
  where
    split : x ≡ (p + p) * (x / 2 / p) + ((x / 2 % p) * 2 + x % 2)
    split = omega (arith, div-add-mod (x / 2) p, add-mul p p (x / 2 / p))

-- A mask of low bits takes a remainder.
low_mask : (d x : ℕ) → bit_and x (2 ^ d - 1) ≡ x % 2 ^ d
low_mask zero x = no_mask x x (omega arith) ∙ sym (mod-one x)
low_mask (suc d) x =
    low_digit x (2 ^ suc d - 1)
    ∙ ap₂ (λ m b. bit_and (x / 2) m * 2 + min (x % 2) b) half odd
    ∙ omega (arith, low_mask d (x / 2), mod-double x (2 ^ d) pos, ap (λ p. x % p) (two-pow-succ d))
  where
    pos : 0 < 2 ^ d
    pos = omega (arith, one-le-pow d 2 (omega arith))

    half : (2 ^ suc d - 1) / 2 ≡ 2 ^ d - 1
    half = omega (arith, two-pow-succ d, pos)

    odd : (2 ^ suc d - 1) % 2 ≡ 1
    odd = omega (arith, two-pow-succ d, pos)

-- A mask of high bits keeps what they are worth.
pub high_mask : (d k x : ℕ) → bit_and x ((2 ^ d - 1) * 2 ^ k) ≡ ((x / 2 ^ k) % 2 ^ d) * 2 ^ k
high_mask d zero x =
    ap (bit_and x) (mul-one (2 ^ d - 1))
    ∙ low_mask d x
    ∙ sym (mul-one ((x / 1) % 2 ^ d) ∙ ap (λ y. y % 2 ^ d) (div-one x))
high_mask d (suc k) x =
    ap (bit_and x) (ap (λ p. (2 ^ d - 1) * p) (pow-suc 2 k) ∙ sym (mul_assoc (2 ^ d - 1) (2 ^ k) 2))
    ∙ even ((2 ^ d - 1) * 2 ^ k)
    ∙ ap (λ y. y * 2) (high_mask d k (x / 2))
    ∙ mul_assoc ((x / 2 / 2 ^ k) % 2 ^ d) (2 ^ k) 2
    ∙ ap₂ (λ y p. (y % 2 ^ d) * p)
        (div-div-eq-div-mul x 2 (2 ^ k) ∙ ap (λ p. x / p) (mul_comm 2 (2 ^ k) ∙ sym (pow-suc 2 k)))
        (sym (pow-suc 2 k))
  where
    even : (m : ℕ) → bit_and x (m * 2) ≡ bit_and (x / 2) m * 2
    even m =
        low_digit x (m * 2)
        ∙ ap₂ (λ h b. bit_and (x / 2) h * 2 + min (x % 2) b) half zero_digit
        ∙ omega arith
      where
        half : m * 2 / 2 ≡ m
        half = omega arith

        zero_digit : m * 2 % 2 ≡ 0
        zero_digit = omega arith
