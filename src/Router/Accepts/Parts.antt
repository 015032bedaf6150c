-- ===== src/Router/Accepts/Parts.antt =====
-- The tests of the attributes in crates/kong-router/src/traditional.rs, one by one.
use Prim.Native.Nat.{compare, Ordering}
use kong_rust.Common.{
  ◌≡◌, ◌∙◌, refl, ap, ap₂, Bool, true, false, ◌&&◌, ◌||◌, Option, none, some, List, [], ◌∷◌, inl,
  inr, any, all, contains, nat_beq, Bool-cases, Option-cases,
}
use kong_rust.Common.Assoc.{lookup, insert, lookup-insert}
use kong_rust.Common.Sort.{is_gt, sort_in, sort_by}
use kong_rust.Common.Text.{
  Text, codes, text_keyed, same_text, strip_prefix, has_char, trim_end, byte_len,
}
use kong_rust.Router.Types.{Engine}
use kong_rust.Router.Process.{
  regex_text, wildcard_text, plain_hosts_of, wildcard_hosts_of, prefixes, regex_paths_of,
  methods_of, matcher_of, matchers_of, snis_of,
}
use kong_rust.Router.Matching.{contains_key, prefix_matches, pattern_matches, header_matches}
use kong_rust.Router.Accepts.{
  host_accepts, path_accepts, exact_accepts, last_pattern, value_accepts, header_accepts,
}

or_assoc : (a b c : Bool) → ((a || b) || c) ≡ (a || (b || c))
or_assoc true b c = refl
or_assoc false b c = refl

or_shift : (a b c d e : Bool) → ((a || c) || ((b || d) || e)) ≡ ((a || b) || (c || (d || e)))
or_shift true b c d e = refl
or_shift false true true d e = refl
or_shift false true false d e = refl
or_shift false false c d e = refl

or_swap : (a b c : Bool) → (a || (b || c)) ≡ (b || (a || c))
or_swap true true c = refl
or_swap true false c = refl
or_swap false b c = refl

or_false : (b : Bool) → b ≡ (b || false)
or_false true = refl
or_false false = refl

any-sort_in {ℓ} :
    {A : Type ℓ} (cmp : A → A → Ordering) (p : A → Bool) (x : A) (xs : List A)
    → any p (sort_in cmp x xs) ≡ (p x || any p xs)
any-sort_in cmp p x [] = refl
any-sort_in cmp p x (y ∷ ys) = elim (Bool-cases (is_gt (cmp x y))) [
  | inl h ↦ rw h (ap (λ b. p y || b) (any-sort_in cmp p x ys) ∙ or_swap (p y) (p x) (any p ys))
  | inr h ↦ rw h refl
]

-- A sort does not change whether some element passes a test.
any-sort_by {ℓ} :
    {A : Type ℓ} (cmp : A → A → Ordering) (p : A → Bool) (xs : List A)
    → any p (sort_by cmp xs) ≡ any p xs
unfolding sort_by
any-sort_by cmp p [] = refl
any-sort_by cmp p (x ∷ xs) =
    any-sort_in cmp p x (sort_by cmp xs) ∙ ap (λ b. p x || b) (any-sort_by cmp p xs)

contains_key-insert :
    (k key : Text) (found : List (Text × Bool))
    → contains_key k (insert key true found) ≡ (same_text key k || contains_key k found)
contains_key-insert k key found =
    rw (contains_key, lookup-insert k key true found)
      (elim (Bool-cases (same_text key k)) [ inl h ↦ rw h refl | inr h ↦ rw h refl ])

module _ (engine : Engine) where
  pub any-host_accepts :
      (host host_no_port : Text) (hs : List Text)
      → (contains (plain_hosts_of engine hs) host
          || (contains (plain_hosts_of engine hs) host_no_port
              || any
                  (λ w. engine.is_match w.1 host || engine.is_match w.1 host_no_port)
                  (wildcard_hosts_of engine hs)))
        ≡ any (host_accepts engine host host_no_port) hs
  any-host_accepts host host_no_port [] = refl
  any-host_accepts host host_no_port (h ∷ hs) = elim (Bool-cases (has_char b'*' h)) [
    | inr p ↦ rw p (
        or_shift (same_text h host) (same_text h host_no_port) _ _ _
        ∙ ap (λ b. (same_text h host || same_text h host_no_port) || b)
            (any-host_accepts host host_no_port hs))
    | inl p ↦ elim (Option-cases (engine.compile (wildcard_text h))) [
      | inl e ↦ rw (p, e) (any-host_accepts host host_no_port hs)
      | inr (r, e) ↦
          rw (p, e)
            (or_third (contains (plain_hosts_of engine hs) host)
                (contains (plain_hosts_of engine hs) host_no_port)
                (engine.is_match r host || engine.is_match r host_no_port) _
              ∙ ap (λ b. (engine.is_match r host || engine.is_match r host_no_port) || b)
                  (any-host_accepts host host_no_port hs))
    ]
  ]
    where
      or_third : (a b c d : Bool) → (a || (b || (c || d))) ≡ (c || (a || (b || d)))
      or_third a b c d = ap (λ x. a || x) (or_swap b c d) ∙ or_swap a c (b || d)

  any-prefixes :
      (uri : Text) (ps : List Text)
      → (any (λ p. engine.is_match p.1 uri) (regex_paths_of engine ps)
          || any (prefix_matches uri) (prefixes ps))
        ≡ any (path_accepts engine uri) ps
  any-prefixes uri [] = refl
  any-prefixes uri (p ∷ ps) = elim (Option-cases (regex_text p)) [
    | inl e ↦ rw e (
        or_swap (any (λ w. engine.is_match w.1 uri) (regex_paths_of engine ps))
          (prefix_matches uri p) _
        ∙ ap (λ b. prefix_matches uri p || b) (any-prefixes uri ps))
    | inr (t, e) ↦ elim (Option-cases (engine.compile t)) [
      | inl c ↦ rw (e, c) (any-prefixes uri ps)
      | inr (r, c) ↦
          rw (e, c)
            (or_assoc (engine.is_match r uri) _ _
              ∙ ap (λ b. engine.is_match r uri || b) (any-prefixes uri ps))
    ]
  ]

  pub any-path_accepts :
      (uri : Text) (ps : List Text)
      → (any (λ p. engine.is_match p.1 uri) (regex_paths_of engine ps)
          || any
              (prefix_matches uri)
              (sort_by (λ a b. compare (byte_len b) (byte_len a)) (prefixes ps)))
        ≡ any (path_accepts engine uri) ps
  any-path_accepts uri ps =
      ap (λ b. any (λ p. engine.is_match p.1 uri) (regex_paths_of engine ps) || b)
        (any-sort_by _ (prefix_matches uri) (prefixes ps))
      ∙ any-prefixes uri ps

  pub contains_key-methods_of :
      (k : Text) (found : List (Text × Bool)) (ms : List Text)
      → contains_key k (methods_of engine found ms)
        ≡ (contains_key k found || any (λ m. same_text (engine.to_uppercase m) k) ms)
  contains_key-methods_of k found [] = or_false (contains_key k found)
  contains_key-methods_of k found (m ∷ ms) =
      contains_key-methods_of k (insert (engine.to_uppercase m) true found) ms
      ∙ ap (λ b. b || any (λ m. same_text (engine.to_uppercase m) k) ms)
          (contains_key-insert k (engine.to_uppercase m) found)
      ∙ or_assoc (same_text (engine.to_uppercase m) k) (contains_key k found) _
      ∙ or_swap (same_text (engine.to_uppercase m) k) (contains_key k found) _

  pub contains_key-snis_of :
      (k : Text) (found : List (Text × Bool)) (ss : List Text)
      → contains_key k (snis_of engine found ss)
        ≡ (contains_key k found || any (λ s. same_text (trim_end (nat_beq b'.') s) k) ss)
  contains_key-snis_of k found [] = or_false (contains_key k found)
  contains_key-snis_of k found (s ∷ ss) =
      contains_key-snis_of k (insert (trim_end (nat_beq b'.') s) true found) ss
      ∙ ap (λ b. b || any (λ s. same_text (trim_end (nat_beq b'.') s) k) ss)
          (contains_key-insert k (trim_end (nat_beq b'.') s) found)
      ∙ or_assoc (same_text (trim_end (nat_beq b'.') s) k) (contains_key k found) _
      ∙ or_swap (same_text (trim_end (nat_beq b'.') s) k) (contains_key k found) _

  matcher_of-values :
      (k name : Text) (found : List (Text × Bool)) (pattern : Option engine.Regex) (ss : List Text)
      → contains_key k (matcher_of engine name found pattern ss).values
        ≡ (contains_key k found || any (exact_accepts engine k) ss)
  matcher_of-values k name found pattern [] = or_false (contains_key k found)
  matcher_of-values k name found pattern (s ∷ ss) =
      elim (Option-cases (strip_prefix (codes "~*") s)) [
        | inl e ↦ rw e (
            matcher_of-values k name (insert (engine.to_lowercase s) true found) pattern ss
            ∙ ap (λ b. b || any (exact_accepts engine k) ss)
                (contains_key-insert k (engine.to_lowercase s) found)
            ∙ or_assoc (same_text (engine.to_lowercase s) k) (contains_key k found) _
            ∙ or_swap (same_text (engine.to_lowercase s) k) (contains_key k found) _)
        | inr (t, e) ↦ rw e (matcher_of-values k name found (engine.compile t) ss)
      ]

  matcher_of-pattern :
      (name : Text) (found : List (Text × Bool)) (pattern : Option engine.Regex) (ss : List Text)
      → (matcher_of engine name found pattern ss).regex_pattern ≡ last_pattern engine pattern ss
  matcher_of-pattern name found pattern [] = refl
  matcher_of-pattern name found pattern (s ∷ ss) =
      elim (Option-cases (strip_prefix (codes "~*") s)) [
        | inl e ↦
            rw e (matcher_of-pattern name (insert (engine.to_lowercase s) true found) pattern ss)
        | inr (t, e) ↦ rw e (matcher_of-pattern name found (engine.compile t) ss)
      ]

  matcher_of-name :
      (name : Text) (found : List (Text × Bool)) (pattern : Option engine.Regex) (ss : List Text)
      → (matcher_of engine name found pattern ss).name ≡ name
  matcher_of-name name found pattern [] = refl
  matcher_of-name name found pattern (s ∷ ss) = elim (Option-cases (strip_prefix (codes "~*") s)) [
    | inl e ↦ rw e (matcher_of-name name (insert (engine.to_lowercase s) true found) pattern ss)
    | inr (t, e) ↦ rw e (matcher_of-name name found (engine.compile t) ss)
  ]

  matcher_of-header_accepts :
      (headers : List (Text × Text)) (name : Text) (values : List Text)
      → header_matches engine headers (matcher_of engine (engine.to_lowercase name) [] none values)
        ≡ header_accepts engine headers (name, values)
  unfolding lookup
  matcher_of-header_accepts headers name values =
      ap (λ n. asked (lookup n headers)) (matcher_of-name (engine.to_lowercase name) [] none values)
      ∙ at_value (lookup (engine.to_lowercase name) headers)
    where
      asked : Option Text → Bool
      asked o = elim o [
        | none ↦ false
        | some value ↦
            contains_key (engine.to_lowercase value)
              (matcher_of engine (engine.to_lowercase name) [] none values).values
            || pattern_matches engine
                (matcher_of engine (engine.to_lowercase name) [] none values).regex_pattern
                (engine.to_lowercase value)
      ]

      at_value :
          (o : Option Text)
          → asked o ≡ elim o [
            | none ↦ false
            | some value ↦ value_accepts engine values (engine.to_lowercase value)
          ]
      at_value none = refl
      at_value (some value) =
          ap₂ (λ x y. x || pattern_matches engine y (engine.to_lowercase value))
            (matcher_of-values (engine.to_lowercase value) (engine.to_lowercase name) [] none
              values)
            (matcher_of-pattern (engine.to_lowercase name) [] none values)

  pub all-header_accepts :
      (headers : List (Text × Text)) (hs : List (Text × List Text))
      → all (header_matches engine headers) (matchers_of engine hs)
        ≡ all (header_accepts engine headers) hs
  all-header_accepts headers [] = refl
  all-header_accepts headers ((name, values) ∷ hs) =
      ap₂ (λ x y. x && y) (matcher_of-header_accepts headers name values)
        (all-header_accepts headers hs)
