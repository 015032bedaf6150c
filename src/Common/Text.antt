-- ===== src/Common/Text.antt =====
-- Texts as lists of their characters' numbers, with the `str` methods that the code calls.
use Prim.Native.Nat.{ℕ, ◌+◌}
use Prim.Native.Char.{code}
use Prim.Native.String.{String}
use mathlib.Core.Path.{◌≡◌, refl}
use mathlib.Core.Logic.{◌↔◌}
use mathlib.Core.Bool.{Bool, true, false, ◌&&◌, ◌||◌}
use mathlib.Core.Option.{Option, none, some}
use mathlib.Core.List.{List, [], ◌∷◌, ◌++◌}
use native.Mathlib.Omega.{arith}
use kong_rust.Common.Tests.{if◌then◌else◌, nat_beq, nat_beq_iff, ltb, Keyed}

abbrev pub Text : Type 0
Text = List ℕ

-- The text of a literal.
abbrev pub codes : String → Text
codes String.[] = []
codes (String.◌∷◌ c s) = code c ∷ codes s

abbrev pub same_text : Text → Text → Bool
same_text [] [] = true
same_text (c ∷ s) (d ∷ t) = nat_beq c d && same_text s t
same_text _ _ = false

pub same_text_iff : (s t : Text) → (same_text s t ≡ true) ↔ (s ≡ t)
same_text_iff [] [] = (λ h. refl, λ h. refl)
same_text_iff [] (d ∷ t) = (λ h. cc, λ h. cc)
same_text_iff (c ∷ s) [] = (λ h. cc, λ h. cc)
same_text_iff (c ∷ s) (d ∷ t) = ground (arith, nat_beq_iff c d, same_text_iff s t)

instance abbrev pub text_keyed : Keyed Text
text_keyed = record { same = same_text; same_iff = same_text_iff }

-- `len`: the bytes of the UTF-8.
abbrev pub utf8_len : ℕ → ℕ
utf8_len c = if ltb c 128 then 1 else if ltb c 2048 then 2 else if ltb c 65536 then 3 else 4

abbrev pub byte_len : Text → ℕ
byte_len [] = 0
byte_len (c ∷ s) = utf8_len c + byte_len s

abbrev pub starts_with : Text → Text → Bool
starts_with s [] = true
starts_with [] (d ∷ t) = false
starts_with (c ∷ s) (d ∷ t) = nat_beq c d && starts_with s t

-- `strip_prefix`, with the text before the prefix.
abbrev pub strip_prefix : Text → Text → Option Text
strip_prefix [] s = some s
strip_prefix (d ∷ t) [] = none
strip_prefix (d ∷ t) (c ∷ s) = let rest = strip_prefix t s in if nat_beq c d then rest else none

-- `contains` of one character.
abbrev pub has_char : ℕ → Text → Bool
has_char c [] = false
has_char c (d ∷ s) = nat_beq d c || has_char c s

-- `trim_start_matches` and `trim_end_matches` by a test of characters.
abbrev pub trim_start : (ℕ → Bool) → Text → Text
trim_start p [] = []
trim_start p (c ∷ s) = let rest = trim_start p s in if p c then rest else c ∷ s

abbrev pub push_unless_blank : (ℕ → Bool) → ℕ → Text → Text
push_unless_blank p c [] = if p c then [] else c ∷ []
push_unless_blank p c (d ∷ s) = c ∷ d ∷ s

abbrev pub trim_end : (ℕ → Bool) → Text → Text
trim_end p [] = []
trim_end p (c ∷ s) = push_unless_blank p c (trim_end p s)

-- `split(c).next()`: what stands before the first `c`.
abbrev pub before_char : ℕ → Text → Text
before_char c [] = []
before_char c (d ∷ s) = let rest = before_char c s in if nat_beq d c then [] else d ∷ rest

-- `replace` of one character by a text.
abbrev pub replace_char : ℕ → Text → Text → Text
replace_char c new [] = []
replace_char c new (d ∷ s) =
    let rest = replace_char c new s in if nat_beq d c then new ++ rest else d ∷ rest

-- `join`.
abbrev pub join : Text → List Text → Text
join sep [] = []
join sep (s ∷ []) = s
join sep (s ∷ t ∷ ts) = s ++ (sep ++ join sep (t ∷ ts))
