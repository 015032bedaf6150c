-- ===== src/Router/Stream/Cidr.antt =====
-- The test of an address against a network in crates/kong-router/src/stream.rs: the mask compares the
-- leading bits.
use Prim.Native.Nat.{bit_and}
use mathlib.Core.Path.{subst}
use native.Mathlib.Nat.{
  add-mul, mul-add, mul-one, mul_comm, mul_assoc, mod-eq_of_lt, mul-add-mod_self_right,
  eq_of_mul-eq-mul_right, one-le-pow, pow-suc, div-lt_iff_lt-mul, div-eq_of_lt,
}
use kong_rust.Common.{
  ℕ, zero, suc, ◌+◌, ◌-◌, ◌*◌, ◌/◌, ◌%◌, ◌^◌, ◌≤◌, ◌<◌, ◌≡◌, ◌↔◌, ◌∙◌, refl, sym, ap, true, false,
  nat_beq, nat_beq_iff, ltb, arith, ltb→lt, Bool-cases, inl, inr,
}
use kong_rust.Common.Bits.{high_mask}
use kong_rust.Router.Stream.{IpAddr, ipv4, ipv6, ip_in_cidr, mask_of, in_network}

shifted : (p c : ℕ) → (suc p * suc c - 1) * suc c ≡ c * (suc p * suc c) + p * suc c
shifted p c =
    ap (λ m. m * suc c) (omega (arith, wide))
    ∙ add-mul (p * suc c) c (suc c)
    ∙ omega (arith, square, spread, ap (λ w. c * w) wide)
  where
    wide : suc p * suc c ≡ p * suc c + suc c
    wide = omega (arith, add-mul p 1 (suc c))

    square : p * suc c * suc c ≡ c * (p * suc c) + p * suc c
    square = omega (arith, mul-add (p * suc c) c 1, mul_comm (p * suc c) c)

    spread : c * (p * suc c + suc c) ≡ c * (p * suc c) + c * suc c
    spread = mul-add c (p * suc c) (suc c)

pow_add : (d k : ℕ) → 2 ^ (d + k) ≡ 2 ^ d * 2 ^ k
pow_add d zero = ap (λ n. 2 ^ n) (omega arith) ∙ sym (mul-one (2 ^ d))
pow_add d (suc k) =
    ap (λ n. 2 ^ n) (omega arith)
    ∙ pow-suc 2 (d + k)
    ∙ ap (λ m. m * 2) (pow_add d k)
    ∙ mul_assoc (2 ^ d) (2 ^ k) 2
    ∙ ap (λ m. 2 ^ d * m) (sym (pow-suc 2 k))

mask_at : (d k : ℕ) → ((2 ^ (d + k) - 1) * 2 ^ k) % 2 ^ (d + k) ≡ (2 ^ d - 1) * 2 ^ k
mask_at d k =
    ap (λ w. ((w - 1) * 2 ^ k) % w) (pow_add d k)
    ∙ go (2 ^ d) (2 ^ k) (one-le-pow d 2 (omega arith)) (one-le-pow k 2 (omega arith))
  where
    go : (p c : ℕ) → 1 ≤ p → 1 ≤ c → ((p * c - 1) * c) % (p * c) ≡ (p - 1) * c
    go zero c h k = absurd (omega (arith, h))
    go (suc p) zero h k = absurd (omega (arith, k))
    go (suc p) (suc c) h k =
        ap (λ m. m % (suc p * suc c)) (shifted p c)
        ∙ mul-add-mod_self_right c (suc p * suc c) (p * suc c)
        ∙ mod-eq_of_lt (omega (arith, add-mul p 1 (suc c)))
        ∙ ap (λ m. m * suc c) (omega arith)

-- The mask keeps the leading bits of an address.
masked : (d k x : ℕ) → x < 2 ^ (d + k) → bit_and x (mask_of (d + k) d) ≡ x / 2 ^ k * 2 ^ k
masked d k x h =
    ap (λ s. bit_and x (((2 ^ (d + k) - 1) * 2 ^ s) % 2 ^ (d + k))) (omega arith)
    ∙ ap (bit_and x) (mask_at d k)
    ∙ high_mask d k x
    ∙ ap (λ q. q * 2 ^ k)
        (mod-eq_of_lt (
          (div-lt_iff_lt-mul (one-le-pow k 2 (omega arith))).1
            (subst (λ w. x < w) (pow_add d k) h)))

-- Two addresses of a width share their first bits.
abbrev pub SharesBits : ℕ → ℕ → ℕ → ℕ → Type 0
SharesBits width prefix_len x y =
    (prefix_len ≤ width) × (x / 2 ^ (width - prefix_len) ≡ y / 2 ^ (width - prefix_len))

same_masked :
    (d k x y : ℕ)
    → x < 2 ^ (d + k)
    → y < 2 ^ (d + k)
    → (nat_beq (bit_and x (mask_of (d + k) d)) (bit_and y (mask_of (d + k) d)) ≡ true)
      ↔ (x / 2 ^ k ≡ y / 2 ^ k)
same_masked d k x y h l = (
  λ e.
      eq_of_mul-eq-mul_right (2 ^ k) (one-le-pow k 2 (omega arith)) (x / 2 ^ k) (y / 2 ^ k)
        (sym (masked d k x h) ∙ (nat_beq_iff _ _).0 e ∙ masked d k y l),
  λ e. (nat_beq_iff _ _).1 (masked d k x h ∙ ap (λ q. q * 2 ^ k) e ∙ sym (masked d k y l)),
)

not_false : false ≡ true → ⊥
not_false h = cc

nonzero : (d : ℕ) → nat_beq (suc d) 0 ≡ false
nonzero d = ground arith

in_network-SharesBits :
    (width x y prefix_len : ℕ)
    → x < 2 ^ width
    → y < 2 ^ width
    → (in_network width x y prefix_len ≡ true) ↔ SharesBits width prefix_len x y
in_network-SharesBits width x y zero h l =
    (λ e. (omega arith, none_left x h ∙ sym (none_left y l)), λ s. refl)
  where
    none_left : (z : ℕ) → z < 2 ^ width → z / 2 ^ (width - 0) ≡ 0
    none_left z g = ap (λ s. z / 2 ^ s) (omega arith) ∙ div-eq_of_lt g
in_network-SharesBits width x y (suc d) h l = elim (Bool-cases (ltb width (suc d))) [
  | inl g ↦ (
    λ e. absurd (not_false (rw (nonzero d, g) at e)),
    λ s. absurd (omega (arith, s.0, ltb→lt width (suc d) g)),
  )
  | inr g ↦
      rw (nonzero d, g)
        (let le = not_more width (suc d) g in
          let same =
            subst
              (λ w.
                x < 2 ^ w
                → y < 2 ^ w
                → (nat_beq (bit_and x (mask_of w (suc d))) (bit_and y (mask_of w (suc d))) ≡ true)
                  ↔ (x / 2 ^ (width - suc d) ≡ y / 2 ^ (width - suc d)))
              (rejoined width (suc d) le) (same_masked (suc d) (width - suc d) x y) h l in
          (λ e. (le, same.0 e), λ s. same.1 s.1))
]
  where
    not_more : (m n : ℕ) → ltb m n ≡ false → n ≤ m
    not_more m n e = ground arith

    rejoined : (m n : ℕ) → n ≤ m → n + (m - n) ≡ m
    rejoined m n e = omega (arith, e)

abbrev pub IsAddress : IpAddr → Type 0
IsAddress (ipv4 bits) = bits < 2 ^ 32
IsAddress (ipv6 bits) = bits < 2 ^ 128

-- Addresses of one version, within the width of the prefix and the same before its end.
abbrev pub SharesPrefix : IpAddr → IpAddr → ℕ → Type 0
SharesPrefix (ipv4 x) (ipv4 y) prefix_len = SharesBits 32 prefix_len x y
SharesPrefix (ipv6 x) (ipv6 y) prefix_len = SharesBits 128 prefix_len x y
SharesPrefix (ipv4 x) (ipv6 y) prefix_len = ⊥
SharesPrefix (ipv6 x) (ipv4 y) prefix_len = ⊥

-- An address lies in a network exactly if both are of one version, the prefix is no longer than an
-- address of it, and their first bits, as many as the prefix has, are the same. Addresses are below the
-- power of two of their width.
pub ip_in_cidr-SharesPrefix :
    (ip network : IpAddr) (prefix_len : ℕ)
    → IsAddress ip
    → IsAddress network
    → (ip_in_cidr ip network prefix_len ≡ true) ↔ SharesPrefix ip network prefix_len
unfolding ip_in_cidr
ip_in_cidr-SharesPrefix (ipv4 x) (ipv4 y) p h l = in_network-SharesBits 32 x y p h l
ip_in_cidr-SharesPrefix (ipv6 x) (ipv6 y) p h l = in_network-SharesBits 128 x y p h l
ip_in_cidr-SharesPrefix (ipv4 x) (ipv6 y) p h l = (λ e. cc e, λ s. absurd s)
ip_in_cidr-SharesPrefix (ipv6 x) (ipv4 y) p h l = (λ e. cc e, λ s. absurd s)
