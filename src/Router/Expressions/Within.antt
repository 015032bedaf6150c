-- ===== src/Router/Expressions/Within.antt =====
-- What holds of the results of the parser in crates/kong-router/src/expressions.rs.
use kong_rust.Common.{
  ℕ, suc, ◌+◌, ◌≤◌, ◌<◌, ◌≡◌, refl, Bool, true, false, not, ◌&&◌, Option, none, some, [], ◌∷◌,
  length, inl, inr, if◌then◌else◌, nat_beq, leb, is_empty, Bool-cases, arith,
}
use kong_rust.Common.Text.{Text, strip_prefix, trim_start, trim_end, push_unless_blank}
use kong_rust.Sse.{is_whitespace, trim}
use kong_rust.Sse.Drain.{strip_prefix-length}
use kong_rust.Router.Expressions.{
  Outcome, ok, err, panicked, out_of_fuel, ◌>>=◌, find_from, find_operator, found_after, is_space?,
  space_first, without_ends, without_last,
}

-- The fuel does not end, and a result has a property.
abbrev pub Within {ℓ} : {A : Type ℓ} → (A → Type 0) → Outcome A → Type 0
Within P (ok a) = P a
Within P err = Unit
Within P panicked = Unit
Within P out_of_fuel = ⊥

pub Within-bind {ℓ κ} :
    {A : Type ℓ} {B : Type κ} (P : A → Type 0) (Q : B → Type 0) (o : Outcome A) (f : A → Outcome B)
    → Within P o
    → ((a : A) → P a → Within Q (f a))
    → Within Q (o >>= f)
Within-bind P Q (ok a) f h k = k a h
Within-bind P Q err f h k = tt
Within-bind P Q panicked f h k = tt
Within-bind P Q out_of_fuel f h k = absurd h

pub Within-if {ℓ} :
    {A : Type ℓ} (P : A → Type 0) (b : Bool) (x y : Outcome A)
    → Within P x
    → Within P y
    → Within P (if b then x else y)
Within-if P true x y h k = h
Within-if P false x y h k = k

-- What is found leaves out a character or more.
abbrev pub IsShorter : ℕ → Option (Text × Text) → Type 0
IsShorter n none = Unit
IsShorter n (some (before, rest)) = length before + length rest < n

found_after-IsShorter :
    (c n : ℕ) (o : Outcome (Option (Text × Text)))
    → Within (IsShorter n) o
    → Within (IsShorter (suc n)) (found_after c o)
found_after-IsShorter c n (ok none) h = tt
found_after-IsShorter c n (ok (some (before, rest))) h = omega (arith, h)
found_after-IsShorter c n err h = tt
found_after-IsShorter c n panicked h = tt
found_after-IsShorter c n out_of_fuel h = absurd h

find_from-IsShorter :
    (op : Text)
    → 0 < length op
    → (opened closed : ℕ) (in_quote : Bool) (before : Option ℕ) (s : Text)
    → Within (IsShorter (length s)) (find_from op opened closed in_quote before s)
find_from-IsShorter op pos opened closed in_quote before [] = tt
find_from-IsShorter op pos opened closed in_quote before (c ∷ s) =
    Within-if (IsShorter (suc (length s))) (nat_beq c b'"' && nat_beq opened closed) _ _
      (found_after-IsShorter c (length s) _
        (find_from-IsShorter op pos opened closed (not in_quote) (some c) s))
      (Within-if (IsShorter (suc (length s))) (nat_beq c b'(' && not in_quote) _ _
        (found_after-IsShorter c (length s) _
          (find_from-IsShorter op pos (suc opened) closed in_quote (some c) s))
        (Within-if (IsShorter (suc (length s))) (nat_beq c b')' && not in_quote) _ _
          (found_after-IsShorter c (length s) _
            (find_from-IsShorter op pos opened (suc closed) in_quote (some c) s))
          (Within-if (IsShorter (suc (length s))) (not in_quote && nat_beq opened closed) _ _
            (at_operator (strip_prefix op (c ∷ s)) refl _ (
              found_after-IsShorter c (length s) _
                (find_from-IsShorter op pos opened closed in_quote (some c) s)))
            (found_after-IsShorter c (length s) _
              (find_from-IsShorter op pos opened closed in_quote (some c) s)))))
  where
    at_operator :
        (o : Option Text)
        → strip_prefix op (c ∷ s) ≡ o
        → (next : Outcome (Option (Text × Text))) → Within (IsShorter (suc (length s))) next
        → Within (IsShorter (suc (length s))) (elim o [
          | some rest ↦ if is_space? before && space_first rest then ok (some ([], rest)) else next
          | none ↦ if leb 128 c then panicked else next
        ])
    at_operator none e next h = Within-if (IsShorter (suc (length s))) (leb 128 c) _ _ tt h
    at_operator (some rest) e next h =
        Within-if (IsShorter (suc (length s))) (is_space? before && space_first rest) _ _
          (omega (arith, strip_prefix-length op (c ∷ s) rest e, pos)) h

pub find_operator-IsShorter :
    (input op : Text) → 0 < length op → Within (IsShorter (length input)) (find_operator input op)
find_operator-IsShorter input op pos = find_from-IsShorter op pos 0 0 false none input

trim_start-length : (p : ℕ → Bool) (s : Text) → length (trim_start p s) ≤ length s
trim_start-length p [] = omega arith
trim_start-length p (c ∷ s) = elim (Bool-cases (p c)) [
  | inl h ↦ rw h (omega (arith, trim_start-length p s))
  | inr h ↦ rw h (omega arith)
]

push_unless_blank-length :
    (p : ℕ → Bool) (c : ℕ) (s : Text) → length (push_unless_blank p c s) ≤ suc (length s)
push_unless_blank-length p c (d ∷ s) = omega arith
push_unless_blank-length p c [] = elim (Bool-cases (p c)) [
  | inl h ↦ rw h (omega arith)
  | inr h ↦ rw h (omega arith)
]

trim_end-length : (p : ℕ → Bool) (s : Text) → length (trim_end p s) ≤ length s
trim_end-length p [] = omega arith
trim_end-length p (c ∷ s) =
    omega (arith, push_unless_blank-length p c (trim_end p s), trim_end-length p s)

pub trim-length : (s : Text) → length (trim s) ≤ length s
trim-length s = omega (
  arith,
  trim_end-length is_whitespace (trim_start is_whitespace s),
  trim_start-length is_whitespace s,
)

without_last-length : (s : Text) → length (without_last s) ≤ length s
without_last-length [] = omega arith
without_last-length (c ∷ []) = omega arith
without_last-length (c ∷ d ∷ s) = omega (arith, without_last-length (d ∷ s))

pub without_ends-length : (s : Text) → is_empty s ≡ false → length (without_ends s) < length s
without_ends-length [] h = cc
without_ends-length (c ∷ s) h = omega (arith, without_last-length s)
