-- ===== src/Common/Order.antt =====
-- Well-founded recursion on the native numbers, and divisibility with its quotient.
use Prim.Native.Nat.{ℕ, zero, suc, ◌+◌, ◌*◌, ◌/◌, ◌%◌, ◌<◌}
use native.Mathlib.Nat.{div-add-mod, mul-div_cancel}
use native.Mathlib.Omega.{arith}
use mathlib.Core.Path.{◌≡◌, sym, ap, ◌∙◌}
use mathlib.Core.WellFounded.{Acc, WellFounded}

Acc-below : (k n : ℕ) → n < k → Acc ◌<◌ n
Acc-below zero n h = elim h [ ]
Acc-below (suc k) n h = Acc.intro n (λ m hm. Acc-below k m (omega arith))

unfoldable pub lt_wf : WellFounded ◌<◌
unfolding Acc-below
lt_wf = record { apply = λ n. Acc-below (suc n) n (omega arith) }

-- `d` divides `n`, with the quotient.
abbrev pub Divides : ℕ → ℕ → Type 0
Divides d n = (k : ℕ) × (n ≡ k * d)

pub Divides-zero : (d : ℕ) → Divides d 0
Divides-zero d = (0, omega arith)

pub Divides-refl : (d : ℕ) → Divides d d
Divides-refl d = (1, omega arith)

pub Divides-trans : (a b c : ℕ) → Divides a b → Divides b c → Divides a c
Divides-trans a b c (k, p) (l, q) = (l * k, q ∙ rw p (omega arith))

pub Divides-mod : (d a b : ℕ) → Divides d b → Divides d (a % b) → Divides d a
Divides-mod d a b (k, p) (l, q) = (a / b * k + l, sym (div-add-mod a b) ∙ rw (q, p) (omega arith))

pub Divides-div : (d n : ℕ) → 0 < d → Divides d n → n / d * d ≡ n
Divides-div d n h (k, p) = rw p (ap (λ x. x * d) (mul-div_cancel k h))
