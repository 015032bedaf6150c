-- ===== src/RateLimit/Sums.antt =====
-- Sums over the admission records of a bucket of crates/kong-ai/src/ratelimit/memory.rs.
use mathlib.Core.Path.{subst}
use kong_rust.Common.{
  ℕ, ◌+◌, ◌≤◌, ◌≡◌, ◌∙◌, ap, refl, String, true, false, none, some, List, [], ◌∷◌, arith,
  Bool-cases, some_inj, inl, inr, ◌==◌, string_keyed,
}
use kong_rust.Common.Assoc.{lookup, insert}
use kong_rust.RateLimit.Types.{AdmissionRecord}
use kong_rust.RateLimit.Window.{retained, retain}

abbrev pub Records : Type 0
Records = List (String × AdmissionRecord)

abbrev pub total : (AdmissionRecord → ℕ) → Records → ℕ
total f [] = 0
total f ((id, r) ∷ m) = f r + total f m

abbrev pub Each {ℓ} : (AdmissionRecord → Type ℓ) → Records → Type ℓ
Each P [] = Unit
Each P ((id, r) ∷ m) = P r × Each P m

module _ (f : AdmissionRecord → ℕ) where
  pub total-insert_new :
      (id : String) (r : AdmissionRecord) (m : Records)
      → lookup id m ≡ none
      → total f (insert id r m) ≡ total f m + f r
  unfolding lookup insert
  total-insert_new id r [] h = omega arith
  total-insert_new id r ((j, q) ∷ m) h = ground (arith, total-insert_new id r m)

  pub total-insert_old :
      (id : String) (r : AdmissionRecord) (m : Records) {old : AdmissionRecord}
      → lookup id m ≡ some old
      → total f (insert id r m) + f old ≡ total f m + f r
  unfolding lookup insert
  total-insert_old id r [] h = cc
  total-insert_old id r ((j, q) ∷ m) {old} h = ground (arith, total-insert_old id r m {old = old})

  -- What is not retained does not count, so the purge keeps the sum.
  pub total-retain :
      (now : ℕ) (m : Records)
      → Each (λ r. retained now r ≡ false → f r ≡ 0) m
      → total f (retain now m) ≡ total f m
  unfolding retain
  total-retain now [] e = refl
  total-retain now ((j, q) ∷ m) e = ground (arith, total-retain now m e.1)

  pub total-zero : (m : Records) → Each (λ r. f r ≡ 0) m → total f m ≡ 0
  total-zero [] e = refl
  total-zero ((j, q) ∷ m) e = omega (arith, total-zero m e.1)

pub lookup-retain :
    (id : String) (now : ℕ) (m : Records) {r : AdmissionRecord}
    → lookup id m ≡ some r
    → retained now r ≡ true
    → lookup id (retain now m) ≡ some r
unfolding lookup retain
lookup-retain id now [] h live = cc
lookup-retain id now ((j, q) ∷ m) {r} h live = elim (Bool-cases (j == id)) [
  | inl t ↦ rw (ap (retained now) (some_inj (rw t at h)) ∙ live, t) (rw t at h)
  | inr t ↦ elim (Bool-cases (retained now q)) [
    | inl k ↦ rw (k, t) (lookup-retain id now m (rw t at h) live)
    | inr k ↦ rw k (lookup-retain id now m (rw t at h) live)
  ]
]

pub total-lookup :
    (f : AdmissionRecord → ℕ) (id : String) (m : Records) {r : AdmissionRecord}
    → lookup id m ≡ some r
    → f r ≤ total f m
unfolding lookup
total-lookup f id [] h = cc
total-lookup f id ((j, q) ∷ m) {r} h = elim (Bool-cases (j == id)) [
  | inl t ↦ omega (arith, ap f (some_inj (rw t at h)))
  | inr t ↦ omega (arith, total-lookup f id m (rw t at h))
]

module _ {ℓ} (P : AdmissionRecord → Type ℓ) where
  pub Each-insert :
      (id : String) (r : AdmissionRecord) (m : Records) → P r → Each P m → Each P (insert id r m)
  unfolding insert
  Each-insert id r [] p e = (p, tt)
  Each-insert id r ((j, q) ∷ m) p e = elim (Bool-cases (j == id)) [
    | inl h ↦ rw h (p, e.1)
    | inr h ↦ rw h (e.0, Each-insert id r m p e.1)
  ]

  pub Each-retain : (now : ℕ) (m : Records) → Each P m → Each P (retain now m)
  unfolding retain
  Each-retain now [] e = tt
  Each-retain now ((j, q) ∷ m) e = elim (Bool-cases (retained now q)) [
    | inl h ↦ rw h (e.0, Each-retain now m e.1)
    | inr h ↦ rw h (Each-retain now m e.1)
  ]

  pub Each-lookup :
      (id : String) (m : Records) {r : AdmissionRecord} → lookup id m ≡ some r → Each P m → P r
  unfolding lookup
  Each-lookup id [] h e = cc
  Each-lookup id ((j, q) ∷ m) {r} h e = elim (Bool-cases (j == id)) [
    | inl t ↦ subst P (some_inj (rw t at h)) e.0
    | inr t ↦ Each-lookup id m (rw t at h) e.1
  ]

pub Each-map {ℓ κ} :
    {P : AdmissionRecord → Type ℓ} {Q : AdmissionRecord → Type κ}
    → ((r : AdmissionRecord) → P r → Q r)
    → (m : Records) → Each P m
    → Each Q m
Each-map f [] e = tt
Each-map f ((j, q) ∷ m) e = (f q e.0, Each-map f m e.1)
