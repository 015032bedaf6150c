-- ===== src/Sse/Blocks.antt =====
-- Blocks of lines, and what `lines` and one turn of the loop in crates/kong-ai/src/codec/sse.rs make
-- of them.
use mathlib.Core.Option
use mathlib.Core.List
use kong_rust.Common.{
  ℕ, ◌≡◌, ◌∙◌, refl, sym, ap, Bool, true, false, ◌||◌, Option, none, some, List, [], ◌∷◌, ◌++◌,
  is_empty, nat_beq,
}
use kong_rust.Common.Text.{Text, codes, has_char, strip_prefix}
use kong_rust.Sse.{lines, drain_to}

abbrev pub block : List Text → Text
block [] = codes "\n"
block (line ∷ rest) = line ++ (b'\n' ∷ block rest)

-- A line of a block: no line breaks, and not empty.
abbrev pub IsLine : Text → Type 0
IsLine t = (has_char b'\n' t ≡ false) × ((has_char b'\r' t ≡ false) × (is_empty t ≡ false))

abbrev pub AreLines : List Text → Type 0
AreLines [] = Unit
AreLines (t ∷ ts) = IsLine t × AreLines ts

neither : (a b : Bool) → (a || b) ≡ false → (a ≡ false) × (b ≡ false)
neither true b h = cc
neither false b h = (refl, h)

lines-line :
    (l s : Text)
    → has_char b'\n' l ≡ false
    → has_char b'\r' l ≡ false
    → lines (l ++ (b'\n' ∷ s)) ≡ l ∷ lines s
lines-line [] s h k = refl
lines-line (c ∷ l) s h k =
    let p = neither (nat_beq c b'\n') (has_char b'\n' l) h in
    let q = neither (nat_beq c b'\r') (has_char b'\r' l) k in
    rw (lines, p.0, q.0, lines-line l s p.1 q.1) refl

pub lines-block : (ls : List Text) → AreLines ls → lines (block ls) ≡ ls ++ ([] ∷ [])
lines-block [] h = refl
lines-block (l ∷ ls) (h, k) =
    lines-line l (block ls) h.0 h.1.0 ∙ ap (λ ts. l ∷ ts) (lines-block ls k)

drain_to-walk :
    (l s : Text)
    → has_char b'\n' l ≡ false
    → drain_to (codes "\n\n") (l ++ s)
      ≡ Option.map {B = Text × Text}
          (λ (p : Text × Text). (l ++ p.0, p.1))
          (drain_to (codes "\n\n") s)
drain_to-walk [] s h = sym (mapped (drain_to (codes "\n\n") s))
  where
    mapped :
        (o : Option (Text × Text))
        → Option.map {B = Text × Text} (λ (p : Text × Text). ([] ++ p.0, p.1)) o ≡ o
    mapped none = refl
    mapped (some p) = refl
drain_to-walk (c ∷ l) s h =
    let p = neither (nat_beq c b'\n') (has_char b'\n' l) h in
    rw (drain_to, p.0, drain_to-walk l s p.1) (mapped (drain_to (codes "\n\n") s))
  where
    mapped :
        (o : Option (Text × Text))
        → Option.map {B = Text × Text}
            (λ (p : Text × Text). (c ∷ p.0, p.1))
            (Option.map {B = Text × Text} (λ (p : Text × Text). (l ++ p.0, p.1)) o)
          ≡ Option.map {B = Text × Text} (λ (p : Text × Text). (c ∷ l ++ p.0, p.1)) o
    mapped none = refl
    mapped (some p) = refl

drain_to-line :
    (l s text rest : Text)
    → has_char b'\n' l ≡ false
    → drain_to (codes "\n\n") s ≡ some (text, rest)
    → drain_to (codes "\n\n") (l ++ s) ≡ some (l ++ text, rest)
drain_to-line l s text rest h k =
    drain_to-walk l s h ∙ ap (Option.map {B = Text × Text} (λ (p : Text × Text). (l ++ p.0, p.1))) k

drain_to-cons :
    (boundary : Text) (c : ℕ) (s : Text)
    → strip_prefix boundary (c ∷ s) ≡ none
    → drain_to boundary (c ∷ s)
      ≡ Option.map {B = Text × Text} (λ (p : Text × Text). (c ∷ p.0, p.1)) (drain_to boundary s)
drain_to-cons boundary c s h = rw (drain_to, h) refl

drain_to-newline :
    (c : ℕ) (s : Text)
    → nat_beq c b'\n' ≡ false
    → drain_to (codes "\n\n") (b'\n' ∷ c ∷ s)
      ≡ Option.map {B = Text × Text}
          (λ (p : Text × Text). (b'\n' ∷ p.0, p.1))
          (drain_to (codes "\n\n") (c ∷ s))
drain_to-newline c s e = drain_to-cons (codes "\n\n") b'\n' (c ∷ s) (rw e refl)

drain_to-block_end :
    (ls : List Text) (rest : Text)
    → AreLines ls
    → drain_to (codes "\n\n") (b'\n' ∷ (block ls ++ rest)) ≡ some (b'\n' ∷ block ls, rest)
drain_to-block_end [] rest h = refl
drain_to-block_end ([] ∷ ls) rest h = cc (h.0.1.1)
drain_to-block_end ((c ∷ l) ∷ ls) rest (h, k) =
    step (neither (nat_beq c b'\n') (has_char b'\n' l) h.0).0 (
      ap (drain_to (codes "\n\n")) (List.append_assoc (c ∷ l) (b'\n' ∷ block ls) rest)
      ∙ drain_to-line (c ∷ l) (b'\n' ∷ (block ls ++ rest)) (b'\n' ∷ block ls) rest h.0
          (drain_to-block_end ls rest k))
  where
    step :
        nat_beq c b'\n' ≡ false
        → drain_to (codes "\n\n") (block ((c ∷ l) ∷ ls) ++ rest) ≡ some (block ((c ∷ l) ∷ ls), rest)
        → drain_to (codes "\n\n") (b'\n' ∷ (block ((c ∷ l) ∷ ls) ++ rest))
          ≡ some (b'\n' ∷ block ((c ∷ l) ∷ ls), rest)
    step e d =
        drain_to-newline c (l ++ (b'\n' ∷ block ls) ++ rest) e
        ∙ ap (Option.map {B = Text × Text} (λ (p : Text × Text). (b'\n' ∷ p.0, p.1))) d

-- A block is drained as one.
pub drain_to-block :
    (l : Text) (ls : List Text) (rest : Text)
    → AreLines (l ∷ ls)
    → drain_to (codes "\n\n") (block (l ∷ ls) ++ rest) ≡ some (block (l ∷ ls), rest)
drain_to-block l ls rest (h, k) =
    ap (drain_to (codes "\n\n")) (List.append_assoc l (b'\n' ∷ block ls) rest)
    ∙ drain_to-line l (b'\n' ∷ (block ls ++ rest)) (b'\n' ∷ block ls) rest h.0
        (drain_to-block_end ls rest k)
