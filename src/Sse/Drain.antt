-- ===== src/Sse/Drain.antt =====
-- What one turn of the parse loops in crates/kong-ai/src/codec/sse.rs drains, and that the loops come
-- to an end.
use mathlib.Core.List
use kong_rust.Common.{
  ℕ, zero, suc, ◌+◌, ◌≤◌, ◌<◌, ◌≡◌, ◌∙◌, refl, sym, ap, none, some, List, [], ◌∷◌, ◌++◌, length,
  inl, inr, ◌⊎◌, nat_beq, Option-cases, Bool-cases, some_inj, arith,
}
use kong_rust.Common.Text.{Text, strip_prefix}
use kong_rust.Sse.{
  SseEvent, SseFormat, standard, ndjson, drain_to, boundary_of, events_in, drain_blocks,
  parse_blocks,
}

strip_prefix-append :
    (t s u rest : Text) → strip_prefix t s ≡ some rest → strip_prefix t (s ++ u) ≡ some (rest ++ u)
strip_prefix-append [] s u rest h = ap (λ r. some (r ++ u)) (some_inj h)
strip_prefix-append (d ∷ t) [] u rest h = cc
strip_prefix-append (d ∷ t) (c ∷ s) u rest h = elim (Bool-cases (nat_beq c d)) [
  | inl g ↦ rw g (strip_prefix-append t s u rest (rw g at h))
  | inr g ↦ cc (rw g at h)
]

pub strip_prefix-length :
    (t s rest : Text) → strip_prefix t s ≡ some rest → length t + length rest ≡ length s
strip_prefix-length [] s rest h = omega (arith, ap length (some_inj h))
strip_prefix-length (d ∷ t) [] rest h = cc
strip_prefix-length (d ∷ t) (c ∷ s) rest h = elim (Bool-cases (nat_beq c d)) [
  | inl g ↦ omega (arith, strip_prefix-length t s rest (rw g at h))
  | inr g ↦ cc (rw g at h)
]

-- A prefix that is not there does not come into being by text behind, if the text is long enough.
strip_prefix-none :
    (t s u : Text) → length t ≤ length s → strip_prefix t s ≡ none → strip_prefix t (s ++ u) ≡ none
strip_prefix-none [] s u l h = cc
strip_prefix-none (d ∷ t) [] u l h = absurd (omega (arith, l))
strip_prefix-none (d ∷ t) (c ∷ s) u l h = elim (Bool-cases (nat_beq c d)) [
  | inl g ↦ rw g (strip_prefix-none t s u (omega (arith, l)) (rw g at h))
  | inr g ↦ rw g refl
]

module _ (boundary : Text) where
  -- The cases of a drain that has found a boundary.
  drain_to-cases :
      (c : ℕ) (s text rest : Text)
      → drain_to boundary (c ∷ s) ≡ some (text, rest)
      → ((strip_prefix boundary (c ∷ s) ≡ some rest) × (text ≡ boundary))
        ⊎ ((strip_prefix boundary (c ∷ s) ≡ none)
            × ((short : Text) × ((drain_to boundary s ≡ some (short, rest)) × (text ≡ c ∷ short))))
  drain_to-cases c s text rest h = elim (Option-cases (strip_prefix boundary (c ∷ s))) [
    | inr (r, e) ↦
        let k = some_inj (sym (found r e) ∙ h) in
        inl (e ∙ ap (λ p. some p.1) k, ap (λ p. p.0) (sym k))
    | inl e ↦ elim (Option-cases (drain_to boundary s)) [
      | inl g ↦ cc (h, missed e g)
      | inr (p, g) ↦
          let k = some_inj (sym (further e p g) ∙ h) in
          inr (e, (p.0, (g ∙ ap (λ q. some (p.0, q.1)) k, ap (λ q. q.0) (sym k))))
    ]
  ]
    where
      found :
          (r : Text)
          → strip_prefix boundary (c ∷ s) ≡ some r
          → drain_to boundary (c ∷ s) ≡ some (boundary, r)
      found r e = rw (drain_to, e) refl

      missed :
          strip_prefix boundary (c ∷ s) ≡ none
          → drain_to boundary s ≡ none
          → drain_to boundary (c ∷ s) ≡ none
      missed e g = rw (drain_to, e, g) refl

      further :
          strip_prefix boundary (c ∷ s) ≡ none
          → (p : Text × Text) → drain_to boundary s ≡ some p
          → drain_to boundary (c ∷ s) ≡ some (c ∷ p.0, p.1)
      further e p g = rw (drain_to, e, g) refl

  -- What is drained and what remains is the text, and what is drained has room for the boundary.
  pub drain_to-length :
      (s text rest : Text)
      → drain_to boundary s ≡ some (text, rest)
      → (length text + length rest ≡ length s) × (length boundary ≤ length text)
  drain_to-length [] text rest h = cc
  drain_to-length (c ∷ s) text rest h = elim (drain_to-cases c s text rest h) [
    | inl (e, k) ↦ rw k (strip_prefix-length boundary (c ∷ s) rest e, omega arith)
    | inr (e, (short, (g, k))) ↦
        let ih = drain_to-length s short rest g in rw k (omega (arith, ih.0), omega (arith, ih.1))
  ]

  -- Text behind changes nothing about a boundary that is there.
  pub drain_to-append :
      (s u text rest : Text)
      → drain_to boundary s ≡ some (text, rest)
      → drain_to boundary (s ++ u) ≡ some (text, rest ++ u)
  drain_to-append [] u text rest h = cc
  drain_to-append (c ∷ s) u text rest h = elim (drain_to-cases c s text rest h) [
    | inl (e, k) ↦ rw (drain_to, strip_prefix-append boundary (c ∷ s) u rest e, k) refl
    | inr (e, (short, (g, k))) ↦
        let room = drain_to-length s short rest g in
        rw
          (
            drain_to,
            strip_prefix-none boundary (c ∷ s) u (omega (arith, room.0, room.1)) e,
            drain_to-append s u short rest g,
            k,
          )
          refl
  ]

boundary_pos : (format : SseFormat) → 0 < length (boundary_of format)
boundary_pos standard = omega arith
boundary_pos ndjson = omega arith

abbrev pub prepend : List SseEvent → List SseEvent × Text → List SseEvent × Text
prepend events found = (events ++ found.0, found.1)

module _ (format : SseFormat) where
  shorter :
      (s text rest : Text)
      → drain_to (boundary_of format) s ≡ some (text, rest)
      → length rest < length s
  shorter s text rest h =
      let l = drain_to-length (boundary_of format) s text rest h in
      omega (arith, l.0, l.1, boundary_pos format)

  drain_blocks-none :
      (fuel : ℕ) (s : Text)
      → drain_to (boundary_of format) s ≡ none
      → drain_blocks format fuel s ≡ ([], s)
  drain_blocks-none zero s h = refl
  drain_blocks-none (suc fuel) s h = rw (drain_blocks, h) refl

  drain_blocks-some :
      (fuel : ℕ) (s text rest : Text)
      → drain_to (boundary_of format) s ≡ some (text, rest)
      → drain_blocks format (suc fuel) s
        ≡ prepend (events_in format text) (drain_blocks format fuel rest)
  drain_blocks-some fuel s text rest h = rw (drain_blocks, h) refl

  -- More fuel than the length of the buffer makes no difference.
  drain_blocks-fuel :
      (m n : ℕ) (s : Text)
      → length s ≤ m
      → length s ≤ n
      → drain_blocks format m s ≡ drain_blocks format n s
  drain_blocks-fuel m n [] l k = drain_blocks-none m [] refl ∙ sym (drain_blocks-none n [] refl)
  drain_blocks-fuel zero n (c ∷ s) l k = absurd (omega (arith, l))
  drain_blocks-fuel (suc m) zero (c ∷ s) l k = absurd (omega (arith, k))
  drain_blocks-fuel (suc m) (suc n) (c ∷ s) l k =
      elim (Option-cases (drain_to (boundary_of format) (c ∷ s))) [
        | inl h ↦ drain_blocks-none (suc m) (c ∷ s) h ∙ sym (drain_blocks-none (suc n) (c ∷ s) h)
        | inr ((text, rest), h) ↦
            let less = shorter (c ∷ s) text rest h in
            drain_blocks-some m (c ∷ s) text rest h
            ∙ ap (prepend (events_in format text))
                (drain_blocks-fuel m n rest (omega (arith, less, l)) (omega (arith, less, k)))
            ∙ sym (drain_blocks-some n (c ∷ s) text rest h)
      ]

  pub parse_blocks-none :
      (s : Text) → drain_to (boundary_of format) s ≡ none → parse_blocks format s ≡ ([], s)
  unfolding parse_blocks
  parse_blocks-none s h = drain_blocks-none (length s) s h

  pub parse_blocks-some :
      (s text rest : Text)
      → drain_to (boundary_of format) s ≡ some (text, rest)
      → parse_blocks format s ≡ prepend (events_in format text) (parse_blocks format rest)
  unfolding parse_blocks
  parse_blocks-some s text rest h =
      drain_blocks-fuel (length s) (suc (length s)) s (omega arith) (omega arith)
      ∙ drain_blocks-some (length s) s text rest h
      ∙ ap (prepend (events_in format text)) (
          drain_blocks-fuel (length s) (length rest) rest (omega (arith, shorter s text rest h))
            (omega arith))

  -- What the loop leaves has no boundary.
  parse_blocks-IsDrained_at :
      (n : ℕ) (s : Text)
      → length s ≤ n
      → drain_to (boundary_of format) (parse_blocks format s).1 ≡ none
  parse_blocks-IsDrained_at n [] l =
      ap (λ found. drain_to (boundary_of format) found.1) (parse_blocks-none [] refl)
  parse_blocks-IsDrained_at zero (c ∷ s) l = absurd (omega (arith, l))
  parse_blocks-IsDrained_at (suc n) (c ∷ s) l =
      elim (Option-cases (drain_to (boundary_of format) (c ∷ s))) [
        | inl h ↦
            ap (λ found. drain_to (boundary_of format) found.1) (parse_blocks-none (c ∷ s) h) ∙ h
        | inr ((text, rest), h) ↦
            ap (λ found. drain_to (boundary_of format) found.1)
              (parse_blocks-some (c ∷ s) text rest h)
            ∙ parse_blocks-IsDrained_at n rest (omega (arith, shorter (c ∷ s) text rest h, l))
      ]

  pub parse_blocks-IsDrained :
      (s : Text) → drain_to (boundary_of format) (parse_blocks format s).1 ≡ none
  parse_blocks-IsDrained s = parse_blocks-IsDrained_at (length s) s (omega arith)

  parse_blocks-append_at :
      (n : ℕ) (s t : Text)
      → length s ≤ n
      → parse_blocks format (s ++ t)
        ≡ prepend (parse_blocks format s).0 (parse_blocks format ((parse_blocks format s).1 ++ t))
  parse_blocks-append_at n [] t l =
      ap (λ found. prepend found.0 (parse_blocks format (found.1 ++ t)))
        (sym (parse_blocks-none [] refl))
  parse_blocks-append_at zero (c ∷ s) t l = absurd (omega (arith, l))
  parse_blocks-append_at (suc n) (c ∷ s) t l =
      elim (Option-cases (drain_to (boundary_of format) (c ∷ s))) [
        | inl h ↦
            ap (λ found. prepend found.0 (parse_blocks format (found.1 ++ t)))
              (sym (parse_blocks-none (c ∷ s) h))
        | inr ((text, rest), h) ↦
            parse_blocks-some (c ∷ s ++ t) text (rest ++ t)
              (drain_to-append (boundary_of format) (c ∷ s) t text rest h)
            ∙ ap (prepend (events_in format text))
                (parse_blocks-append_at n rest t (omega (arith, shorter (c ∷ s) text rest h, l)))
            ∙ regrouped (events_in format text) (parse_blocks format rest).0
                (parse_blocks format ((parse_blocks format rest).1 ++ t))
            ∙ ap (λ found. prepend found.0 (parse_blocks format (found.1 ++ t)))
                (sym (parse_blocks-some (c ∷ s) text rest h))
      ]
    where
      regrouped :
          (xs ys : List SseEvent) (found : List SseEvent × Text)
          → prepend xs (prepend ys found) ≡ prepend (xs ++ ys) found
      regrouped xs ys found = ap (λ es. (es, found.1)) (sym (List.append_assoc xs ys found.0))

  -- Text that comes in two parts is parsed as it is in one.
  pub parse_blocks-append :
      (s t : Text)
      → parse_blocks format (s ++ t)
        ≡ prepend (parse_blocks format s).0 (parse_blocks format ((parse_blocks format s).1 ++ t))
  parse_blocks-append s t = parse_blocks-append_at (length s) s t (omega arith)
