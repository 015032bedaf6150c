-- ===== src/Provider/Weighted/Gcd.antt =====
-- The divisor by which crates/kong-ai/src/provider/weighted.rs reduces the weights.
use mathlib.Core.WellFounded.{Acc}
use kong_rust.Common.{
  ℕ, ◌/◌, ◌%◌, ◌<◌, ◌≡◌, refl, sym, ◌∙◌, ◌↔◌, List, [], ◌∷◌, map, foldl, arith, dec_lt,
}
use native.Mathlib.Bridge.{le_prop}
use mathlib.Core.Logic.{dif_pos, dif_neg}
use kong_rust.Common.Order.{
  Divides, Divides-zero, Divides-refl, Divides-trans, Divides-mod, Divides-div, lt_wf,
}
use kong_rust.Provider.Weighted.{gcd_acc, gcd, divisor, maximum}

Divides-all : (d n : ℕ) → n ≡ 0 → Divides d n
Divides-all d n e = rw e (Divides-zero d)

gcd_acc-Divides : (a b : ℕ) (w : Acc ◌<◌ b) → Divides (gcd_acc a b w) a × Divides (gcd_acc a b w) b
unfolding gcd_acc
gcd_acc-Divides a b (Acc.intro _ smaller) = elim (dec_lt 0 b) [
  | yes h ↦
      let ih = gcd_acc-Divides b (a % b) (smaller (a % b) (omega arith)) in
      rw (dif_pos _ le_prop h) (Divides-mod _ a b ih.0 ih.1, ih.0)
  | no h ↦ rw (dif_neg _ h) (Divides-refl a, Divides-all a b (omega arith))
]

gcd-Divides : (a b : ℕ) → Divides (gcd a b) a × Divides (gcd a b) b
unfolding gcd
gcd-Divides a b = gcd_acc-Divides a b (lt_wf.apply b)

abbrev pub DividesAll : ℕ → List ℕ → Type 0
DividesAll d [] = Unit {0}
DividesAll d (w ∷ ws) = Divides d w × DividesAll d ws

fold-Divides : (a : ℕ) (ws : List ℕ) → Divides (foldl gcd a ws) a × DividesAll (foldl gcd a ws) ws
fold-Divides a [] = (Divides-refl a, tt)
fold-Divides a (w ∷ ws) =
    let ih = fold-Divides (gcd a w) ws in
    let both = gcd-Divides a w in
    (Divides-trans _ (gcd a w) a ih.0 both.0, (Divides-trans _ (gcd a w) w ih.0 both.1, ih.1))

-- The divisor divides every weight.
pub divisor-DividesAll : (ws : List ℕ) → DividesAll (divisor ws) ws
unfolding divisor
divisor-DividesAll ws = (fold-Divides 0 ws).1

abbrev pub AllZero : List ℕ → Type 0
AllZero [] = Unit {0}
AllZero (w ∷ ws) = (w ≡ 0) × AllZero ws

zero_divisor : (ws : List ℕ) → DividesAll 0 ws → AllZero ws
zero_divisor [] h = tt
zero_divisor (w ∷ ws) ((k, e), t) = (omega arith, zero_divisor ws t)

gcd-zero : gcd 0 0 ≡ 0
unfolding gcd gcd_acc lt_wf dec_lt
gcd-zero = refl

fold-zero : (ws : List ℕ) → AllZero ws → foldl gcd 0 ws ≡ 0
fold-zero [] z = refl
fold-zero (w ∷ ws) z = rw (z.0, gcd-zero) (fold-zero ws z.1)

-- The divisor is 0 exactly when every weight is.
pub divisor-zero : (ws : List ℕ) → (divisor ws ≡ 0) ↔ AllZero ws
divisor-zero ws =
    (λ e. zero_divisor ws (rw e at (divisor-DividesAll ws)), unfold divisor in fold-zero ws)

-- A weight that is reduced to 0 is 0.
weight_zero : (d w : ℕ) → 0 < d → Divides d w → w / d ≡ 0 → w ≡ 0
weight_zero d w p h z = sym (Divides-div d w p h) ∙ rw z (omega arith)

pub maximum_pos :
    (d : ℕ) (ws : List ℕ) → 0 < d → DividesAll d ws → maximum (map (λ w. w / d) ws) ≡ 0 → AllZero ws
maximum_pos d [] p h m = tt
maximum_pos d (w ∷ ws) p h m =
    (weight_zero d w p h.0 (omega arith), maximum_pos d ws p h.1 (omega arith))
