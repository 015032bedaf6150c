-- ===== src/Router/Prefix.antt =====
-- The path that a route matched with, in `find_matched_path_and_captures` of
-- crates/kong-router/src/traditional.rs.
use mathlib.Core.List.{Memᴰ}
use mathlib.Core.List.Memᴰ
use kong_rust.Common.{
  ℕ, ◌≤◌, ◌≡◌, ◌∙◌, refl, sym, ap, Bool, true, false, ◌&&◌, ◌||◌, Option, none, some, List, [], ◌∷◌,
  ◌⊎◌, inl, inr, any, ltb, ltb→lt, Bool-cases, Option-cases, ◌↔◌, arith,
}
use kong_rust.Common.Text.{Text, byte_len}
use kong_rust.Router.Types.{Engine, ProcessedRoute, UriCaptures}
use kong_rust.Router.Matching.{
  prefix_matches, match_uri, regex_match, captures_of, no_captures, best_prefix,
  find_matched_path_and_captures,
}

-- A path that matches, and that no path that matches is longer than.
pub record IsLongest (uri : Text) (paths : List Text) (p : Text) : Type 0 where
  pub listed : Memᴰ p paths
  pub matched : prefix_matches uri p ≡ true
  pub longest : (q : Text) → Memᴰ q paths → prefix_matches uri q ≡ true → byte_len q ≤ byte_len p

-- The loop once it has found `f`.
record Improved (uri : Text) (paths : List Text) (f p : Text) : Type 0 where
  from : (p ≡ f) ⊎ (Memᴰ p paths × (prefix_matches uri p ≡ true))
  not_shorter : byte_len f ≤ byte_len p
  longest : (q : Text) → Memᴰ q paths → prefix_matches uri q ≡ true → byte_len q ≤ byte_len p

taken : (m b : Bool) → (m && b ≡ true) ⊎ ((m && b ≡ false) × ((m ≡ true) → b ≡ false))
taken true true = inl refl
taken true false = inr (refl, λ h. refl)
taken false b = inr (refl, λ h. cc)

both_left : (a b : Bool) → a && b ≡ true → a ≡ true
both_left true b h = refl
both_left false b h = h

both_right : (a b : Bool) → a && b ≡ true → b ≡ true
both_right true b h = h
both_right false b h = cc

not_longer : (m n : ℕ) → ltb m n ≡ false → n ≤ m
not_longer m n h = ground arith

best_prefix-Improved :
    (uri : Text) (paths : List Text) (f : Text)
    → (p : Text) × ((best_prefix paths uri (some f) ≡ some p) × Improved uri paths f p)
unfolding best_prefix
best_prefix-Improved uri [] f = (
  f,
  (
    refl,
    record {
      from = inl refl;
      not_shorter = omega arith;
      longest = λ q m h. absurd (Memᴰ.not-nil m);
    },
  ),
)
best_prefix-Improved uri (t ∷ ts) f =
    step (taken (prefix_matches uri t) (ltb (byte_len f) (byte_len t)))
      (best_prefix-Improved uri ts t) (best_prefix-Improved uri ts f)
  where
    Step : Text → Type 0
    Step g = (p : Text) × ((best_prefix ts uri (some g) ≡ some p) × Improved uri ts g p)

    at_most :
        (q : Text)
        → q ≡ t
        → prefix_matches uri q ≡ true
        → (p : Text) → byte_len f ≤ byte_len p
        → ltb (byte_len f) (byte_len t) ≡ false
        → byte_len q ≤ byte_len p
    at_most q i k p l n = rw i (omega (arith, l, not_longer (byte_len f) (byte_len t) n))

    step :
        (prefix_matches uri t && ltb (byte_len f) (byte_len t) ≡ true)
          ⊎ ((prefix_matches uri t && ltb (byte_len f) (byte_len t) ≡ false)
              × ((prefix_matches uri t ≡ true) → ltb (byte_len f) (byte_len t) ≡ false))
        → Step t
        → Step f
        → (p : Text) × ((best_prefix (t ∷ ts) uri (some f) ≡ some p) × Improved uri (t ∷ ts) f p)
    step (inl h) (p, (e, g)) _ = (
      p,
      (
        rw (best_prefix, h) e,
        record {
          from = inr (elim g.from [
            | inl i ↦
                (Memᴰ.head i, ap (prefix_matches uri) i ∙ both_left (prefix_matches uri t) _ h)
            | inr (n, k) ↦ (Memᴰ.tail n, k)
          ]);
          not_shorter = omega (
            arith,
            g.not_shorter,
            ltb→lt (byte_len f) (byte_len t) (both_right (prefix_matches uri t) _ h),
          );
          longest = λ q m k. elim (Memᴰ.cases_cons m) [
            | inl i ↦ rw i g.not_shorter
            | inr n ↦ g.longest q n k
          ];
        },
      ),
    )
    step (inr (h, short)) _ (p, (e, g)) = (
      p,
      (
        rw (best_prefix, h) e,
        record {
          from = elim g.from [ inl i ↦ inl i | inr (n, k) ↦ inr (Memᴰ.tail n, k) ];
          not_shorter = g.not_shorter;
          longest = λ q m k. elim (Memᴰ.cases_cons m) [
            | inl i ↦ at_most q i k p g.not_shorter (short (ap (prefix_matches uri) (sym i) ∙ k))
            | inr n ↦ g.longest q n k
          ];
        },
      ),
    )

-- The loop finds a longest path that matches, or there is none that matches.
best_prefix-IsLongest :
    (uri : Text) (paths : List Text)
    → ((best_prefix paths uri none ≡ none) × (any (prefix_matches uri) paths ≡ false))
      ⊎ ((p : Text) × ((best_prefix paths uri none ≡ some p) × IsLongest uri paths p))
unfolding best_prefix
best_prefix-IsLongest uri [] = inl (refl, refl)
best_prefix-IsLongest uri (t ∷ ts) =
    step (Bool-cases (prefix_matches uri t)) (best_prefix-Improved uri ts t)
      (best_prefix-IsLongest uri ts)
  where
    step :
        (prefix_matches uri t ≡ true) ⊎ (prefix_matches uri t ≡ false)
        → ((p : Text) × ((best_prefix ts uri (some t) ≡ some p) × Improved uri ts t p))
        → ((best_prefix ts uri none ≡ none) × (any (prefix_matches uri) ts ≡ false))
          ⊎ ((p : Text) × ((best_prefix ts uri none ≡ some p) × IsLongest uri ts p))
        → ((best_prefix (t ∷ ts) uri none ≡ none) × (any (prefix_matches uri) (t ∷ ts) ≡ false))
          ⊎ ((p : Text) × ((best_prefix (t ∷ ts) uri none ≡ some p) × IsLongest uri (t ∷ ts) p))
    step (inl h) (p, (e, g)) _ = inr (
      p,
      (
        rw (best_prefix, h) e,
        record {
          listed = elim g.from [ inl i ↦ Memᴰ.head i | inr (n, k) ↦ Memᴰ.tail n ];
          matched = elim g.from [ inl i ↦ ap (prefix_matches uri) i ∙ h | inr (n, k) ↦ k ];
          longest = λ q m k. elim (Memᴰ.cases_cons m) [
            | inl i ↦ rw i g.not_shorter
            | inr n ↦ g.longest q n k
          ];
        },
      ),
    )
    step (inr h) _ (inl (e, n)) = inl (rw (best_prefix, h) e, rw (any, h) n)
    step (inr h) _ (inr (p, (e, g))) = inr (
      p,
      (
        rw (best_prefix, h) e,
        record {
          listed = Memᴰ.tail g.listed;
          matched = g.matched;
          longest = λ q m k. elim (Memᴰ.cases_cons m) [
            | inl i ↦ cc (k, h, ap (prefix_matches uri) i)
            | inr n ↦ g.longest q n k
          ];
        },
      ),
    )

module _ (engine : Engine) where
  -- A regex matches where it captures.
  abbrev pub IsConsistent : Type 0
  IsConsistent =
      (r : engine.Regex) (t : Text) → (engine.is_match r t ≡ false) ↔ (engine.captures r t ≡ none)

  regex_match-none :
      IsConsistent
      → (uri : Text) (patterns : List (Text × engine.Regex))
      → any (λ p. engine.is_match p.1 uri) patterns ≡ false
      → regex_match engine patterns uri ≡ none
  unfolding regex_match
  regex_match-none consistent uri [] h = refl
  regex_match-none consistent uri ((pattern, r) ∷ ps) h =
      elim (Bool-cases (engine.is_match r uri)) [
        | inl g ↦ cc (h, ap (λ b. b || any (λ p. engine.is_match p.1 uri) ps) g)
        | inr g ↦
            rw (regex_match, (consistent r uri).0 g)
              (regex_match-none consistent uri ps (rw g at h))
      ]

  regex_match-some :
      IsConsistent
      → (uri : Text) (patterns : List (Text × engine.Regex))
      → any (λ p. engine.is_match p.1 uri) patterns ≡ true
      → (m : Text × UriCaptures) × (regex_match engine patterns uri ≡ some m)
  unfolding regex_match
  regex_match-some consistent uri [] h = cc
  regex_match-some consistent uri ((pattern, r) ∷ ps) h =
      elim (Option-cases (engine.captures r uri)) [
        | inl g ↦
            rw (regex_match, g)
              (regex_match-some consistent uri ps (rw ((consistent r uri).1 g) at h))
        | inr (caps, g) ↦
            ((caps.whole, captures_of caps.groups no_captures), rw (regex_match, g) refl)
      ]

  -- A route whose paths match the request has a matched path; where no regex matches, it is a longest of
  -- the prefixes that match. Regexes match where they capture.
  pub find_matched_path_and_captures-IsLongest :
      IsConsistent
      → (route : ProcessedRoute engine.Regex) (uri : Text) → match_uri engine route uri ≡ true
      → (p : Text) × (((find_matched_path_and_captures engine route uri).0 ≡ some p)
          × ((any (λ w. engine.is_match w.1 uri) route.regex_paths ≡ false)
              → IsLongest uri route.prefix_paths p))
  unfolding find_matched_path_and_captures match_uri
  find_matched_path_and_captures-IsLongest consistent route uri h =
      go (Bool-cases (any (λ w. engine.is_match w.1 uri) route.regex_paths))
        (best_prefix-IsLongest uri route.prefix_paths)
    where
      chosen : Option (Text × UriCaptures) → Option Text × UriCaptures
      chosen o = elim o [
        | some (whole, caps) ↦ (some whole, caps)
        | none ↦ (best_prefix route.prefix_paths uri none, no_captures)
      ]

      go :
          (any (λ w. engine.is_match w.1 uri) route.regex_paths ≡ true)
            ⊎ (any (λ w. engine.is_match w.1 uri) route.regex_paths ≡ false)
          → ((best_prefix route.prefix_paths uri none ≡ none)
              × (any (prefix_matches uri) route.prefix_paths ≡ false))
            ⊎ ((p : Text) × ((best_prefix route.prefix_paths uri none ≡ some p)
                  × IsLongest uri route.prefix_paths p))
          → (p : Text) × (((find_matched_path_and_captures engine route uri).0 ≡ some p)
              × ((any (λ w. engine.is_match w.1 uri) route.regex_paths ≡ false)
                  → IsLongest uri route.prefix_paths p))
      go (inl r) _ =
          let found = regex_match-some consistent uri route.regex_paths r in
          (found.0.0, (ap (λ o. (chosen o).0) found.1, λ k. cc (r, k)))
      go (inr r) (inl (e, n)) = cc (h, r, n)
      go (inr r) (inr (p, (e, g))) = (
        p,
        (ap (λ o. (chosen o).0) (regex_match-none consistent uri route.regex_paths r) ∙ e, λ k. g),
      )
