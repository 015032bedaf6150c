-- ===== src/Router/Stream/Attributes.antt =====
-- What the texts of a route for connections mean: networks and server names, for
-- crates/kong-router/src/stream.rs.
use mathlib.Core.Option
use mathlib.Core.Path.{subst}
use kong_rust.Common.{
  ℕ, ◌≡◌, ◌∙◌, ◌↔◌, ◌⊎◌, inl, inr, refl, sym, ap, true, false, Option, none, some, ◌++◌, Bool-cases,
  Option-cases, some_inj,
}
use kong_rust.Common.Text.{Text, codes, has_char, strip_prefix, same_text, same_text_iff}
use kong_rust.Router.Stream.Cuts.{
  IsCut, split_once-IsCut, IsCut-split_once, split_once-none, after_dot-split_once,
  strip_prefix-append, append-strip_prefix,
}
use kong_rust.Router.Stream.{
  IpAddr, after_dot, same_text?, sni_pattern_matches, split_once, parse_unsigned, full_prefix,
  parse_cidr,
}

-- A server name, in lower case, is of a pattern: the two are the same, or the pattern is `*.` before a
-- suffix and the name is a label, which has no dot, a dot and the suffix.
abbrev pub IsServer : Text → Text → Type 0
IsServer sni pattern =
    (sni ≡ pattern)
    ⊎ ((label : Text) × (suffix : Text) × (pattern ≡ codes "*." ++ suffix)
        × IsCut b'.' sni label suffix)

same_text?-some : (o : Option Text) (t : Text) → same_text? o t ≡ true → o ≡ some t
same_text?-some none t h = cc
same_text?-some (some s) t h = ap some ((same_text_iff s t).0 h)

after_dot-IsCut : (s t : Text) → after_dot s ≡ some t → (label : Text) × IsCut b'.' s label t
after_dot-IsCut s t h = elim (Option-cases (split_once b'.' s)) [
  | inl e ↦ cc (h, after_dot-split_once s, e)
  | inr (p, e) ↦ (
    p.0,
    subst (λ x. IsCut b'.' s p.0 x)
        (some_inj
          (ap (Option.map {A = Text × Text} (λ p. p.1)) (sym e) ∙ sym (after_dot-split_once s) ∙ h))
        (split_once-IsCut b'.' s p e),
  )
]

IsCut-after_dot : (s label t : Text) → IsCut b'.' s label t → after_dot s ≡ some t
IsCut-after_dot s label t (e, h) =
    after_dot-split_once s
    ∙ ap (λ x. Option.map {A = Text × Text} (λ p. p.1) (split_once b'.' x)) e
    ∙ ap (Option.map {A = Text × Text} (λ p. p.1)) (IsCut-split_once b'.' label t h)

pub sni_pattern_matches-IsServer :
    (sni pattern : Text) → (sni_pattern_matches sni pattern ≡ true) ↔ IsServer sni pattern
sni_pattern_matches-IsServer sni pattern = elim (Bool-cases (same_text pattern sni)) [
  | inl e ↦ rw e (λ h. inl (sym ((same_text_iff pattern sni).0 e)), λ h. refl)
  | inr e ↦ rw e (go e (strip_prefix (codes "*.") pattern) refl)
]
  where
    apart : same_text pattern sni ≡ false → sni ≡ pattern → ⊥
    apart e q = cc (e, (same_text_iff pattern sni).1 (sym q))

    go :
        same_text pattern sni ≡ false
        → (o : Option Text) → strip_prefix (codes "*.") pattern ≡ o
        → (elim o [ none ↦ false | some suffix ↦ same_text? (after_dot sni) suffix ] ≡ true)
          ↔ IsServer sni pattern
    go e none f = (
      λ h. cc,
      λ is. elim is [
        | inl q ↦ absurd (apart e q)
        | inr (label, suffix, p, cut) ↦
            cc (f, ap (strip_prefix (codes "*.")) p, strip_prefix-append (codes "*.") suffix)
      ],
    )
    go e (some suffix) f = (
      λ h.
          let (label, cut) =
            after_dot-IsCut sni suffix (same_text?-some (after_dot sni) suffix h) in
          inr (label, suffix, append-strip_prefix (codes "*.") pattern suffix f, cut),
      λ is. elim is [
        | inl q ↦ absurd (apart e q)
        | inr (label, t, p, cut) ↦
            ap (λ o. same_text? o suffix) (IsCut-after_dot sni label t cut)
            ∙ (same_text_iff t suffix).1 (
                some_inj (
                  sym (strip_prefix-append (codes "*.") t)
                  ∙ ap (strip_prefix (codes "*.")) (sym p)
                  ∙ f))
      ],
    )

-- A text denotes a network: an address, a slash and the length of its prefix, or an address alone, which
-- is all of the prefix.
module _ (parse_ip : Text → Option IpAddr) where
  abbrev pub Denotes : Text → IpAddr → ℕ → Type 0
  Denotes text net prefix_len =
      ((ip_str : Text) × (prefix_str : Text) × IsCut b'/' text ip_str prefix_str
        × (parse_ip ip_str ≡ some net)
        × (parse_unsigned 255 prefix_str ≡ some prefix_len))
      ⊎ ((has_char b'/' text ≡ false) × (parse_ip text ≡ some net) × (full_prefix net ≡ prefix_len))

  pub parse_cidr-Denotes :
      (to_lowercase : Text → Text) (text : Text) (net : IpAddr) (prefix_len : ℕ)
      → parse_cidr to_lowercase parse_ip text ≡ some (net, prefix_len)
      → Denotes text net prefix_len
  parse_cidr-Denotes to_lowercase text net prefix_len h =
      elim (Option-cases (split_once b'/' text)) [
        | inl e ↦ elim (Option-cases (parse_ip text)) [
          | inl f ↦ cc (rw (parse_cidr, e, f) at h)
          | inr (ip, f) ↦
              let q = some_inj (rw (parse_cidr, e, f) at h) in
              inr (
                (split_once-none b'/' text).0 e,
                f ∙ ap (λ (p : IpAddr × ℕ). some p.0) q,
                ap (λ (p : IpAddr × ℕ). full_prefix p.0) (sym q) ∙ ap (λ (p : IpAddr × ℕ). p.1) q,
              )
        ]
        | inr (p, e) ↦ elim (Option-cases (parse_ip p.0)) [
          | inl f ↦ cc (rw (parse_cidr, e, f) at h)
          | inr (ip, f) ↦ elim (Option-cases (parse_unsigned 255 p.1)) [
            | inl g ↦ cc (rw (parse_cidr, e, f, g) at h)
            | inr (n, g) ↦
                let q = some_inj (rw (parse_cidr, e, f, g) at h) in
                inl (
                  p.0,
                  p.1,
                  split_once-IsCut b'/' text p e,
                  f ∙ ap (λ (p : IpAddr × ℕ). some p.0) q,
                  g ∙ ap (λ (p : IpAddr × ℕ). some p.1) q,
                )
          ]
        ]
      ]

  pub Denotes-parse_cidr :
      (to_lowercase : Text → Text) (text : Text) (net : IpAddr) (prefix_len : ℕ)
      → Denotes text net prefix_len
      → parse_cidr to_lowercase parse_ip text ≡ some (net, prefix_len)
  Denotes-parse_cidr to_lowercase text net prefix_len d = elim d [
    | inl (a, b, cut, f, g) ↦
        rw (parse_cidr, ap (split_once b'/') cut.0 ∙ IsCut-split_once b'/' a b cut.1, f, g) refl
    | inr (no_slash, f, same) ↦
        rw (parse_cidr, (split_once-none b'/' text).1 no_slash, f) (ap (λ n. some (net, n)) same)
  ]
