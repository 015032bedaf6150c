-- ===== src/Router/Table/Search.antt =====
-- The loops of `find_route_uncached` in crates/kong-router/src/traditional.rs, and the categories they run over.
use Prim.Native.Nat.{gt}
use mathlib.Core.List.{Memᴰ}
use mathlib.Core.List.Memᴰ
use mathlib.Core.Option
use mathlib.Core.List
use kong_rust.Common.{
  ℕ, ◌≡◌, ◌≢◌, ◌∙◌, refl, sym, ap, Bool, false, Option, none, some, List, [], ◌∷◌, map, ◌⊎◌, inl,
  inr, find, get_elem?, nat_beq, nat_beq_iff, Bool-cases, Option-cases,
}
use kong_rust.Common.Sort.{IsOrdered, sort_by, sort_by-Memᴰ, Memᴰ-sort_by}
use kong_rust.Common.Members.{Memᴰ-keep_if}
use kong_rust.Common.First.{find-none}
use kong_rust.Common.Text.{Text}
use kong_rust.Router.Types.{RequestContext, RouteMatch, Engine, ProcessedRoute}
use kong_rust.Router.Matching.{match_route}
use kong_rust.Router.Rules.{weight_of}
use kong_rust.Router.Table.{
  Category, category_order, category_of, weight_at, to_match, find_in_category, find_in_categories,
  group_by_rules,
}
use kong_rust.Router.Table.Groups.{
  of_rules, group_of, group_of-resolved, entry-group_of, group_of-there,
}

module _ (engine : Engine) (processed : List (ProcessedRoute engine.Regex)) (ctx : RequestContext)
    (host host_no_port : Text) where
  abbrev Processed : Type 0
  Processed = ProcessedRoute engine.Regex

  abbrev pub matches : Processed → Bool
  matches r = match_route engine r ctx host host_no_port

  abbrev answer_of : Option Processed → Option RouteMatch
  answer_of = Option.map (λ r. to_match engine r ctx.uri)

  find_in_category-find :
      (indices : List ℕ) (rs : List Processed)
      → map (get_elem? processed) indices ≡ map some rs
      → find_in_category engine processed ctx host host_no_port indices
        ≡ answer_of (find matches rs)
  find_in_category-find [] [] h = refl
  find_in_category-find [] (r ∷ rs) h = cc
  find_in_category-find (i ∷ is) [] h = cc
  find_in_category-find (i ∷ is) (r ∷ rs) h =
      step (List.head-eq_of_cons-eq h) (find_in_category-find is rs (List.tail-eq_of_cons-eq h))
    where
      step :
          get_elem? processed i ≡ some r
          → find_in_category engine processed ctx host host_no_port is ≡ answer_of (find matches rs)
          → find_in_category engine processed ctx host host_no_port (i ∷ is)
            ≡ answer_of (find matches (r ∷ rs))
      step e further = elim (Bool-cases (matches r)) [
        | inl g ↦ rw (find_in_category, e, g) refl
        | inr g ↦ rw (find_in_category, e, g) further
      ]

  abbrev IsGroup : Category → Type 0
  IsGroup c =
      map (get_elem? processed) c.routes ≡ map some (of_rules engine c.match_rules processed)

  abbrev pub NoMatch : Category → Type 0
  NoMatch c = (q : Processed) → Memᴰ q (of_rules engine c.match_rules processed) → matches q ≡ false

  -- What the loop over the categories has found.
  pub record Found (cs : List Category) : Type 0 where
    pub route : Processed
    pub category : Category
    pub there : Memᴰ category cs
    pub picked : find matches (of_rules engine category.match_rules processed) ≡ some route
    pub result :
        find_in_categories engine processed ctx host host_no_port cs
        ≡ some (to_match engine route ctx.uri)
    pub first : (d : Category) → Memᴰ d cs → (category_order category d ≢ gt) ⊎ NoMatch d

  abbrev pub Missed : List Category → Type 0
  Missed cs =
      (find_in_categories engine processed ctx host host_no_port cs ≡ none)
      × ((d : Category) → Memᴰ d cs → NoMatch d)

  pub categories-cases :
      (cs : List Category)
      → ((c : Category) → Memᴰ c cs → IsGroup c)
      → ((c : Category) → category_order c c ≢ gt)
      → IsOrdered category_order cs
      → Missed cs ⊎ Found cs
  categories-cases [] grouped reflexive s = inl (refl, λ d m. absurd (Memᴰ.not-nil m))
  categories-cases (c ∷ cs) grouped reflexive s =
      step (Option-cases (find matches (of_rules engine c.match_rules processed)))
        (categories-cases cs (λ d m. grouped d (Memᴰ.tail m)) reflexive s.1)
    where
      here :
          find_in_category engine processed ctx host host_no_port c.routes
          ≡ answer_of (find matches (of_rules engine c.match_rules processed))
      here =
          find_in_category-find c.routes (of_rules engine c.match_rules processed)
            (grouped c (Memᴰ.head refl))

      step :
          (find matches (of_rules engine c.match_rules processed) ≡ none)
            ⊎ ((r : Processed) × (find matches (of_rules engine c.match_rules processed) ≡ some r))
          → Missed cs ⊎ Found cs
          → Missed (c ∷ cs) ⊎ Found (c ∷ cs)
      step (inl h) (inl (e, none_of)) = inl (
        rw (find_in_categories, here, h) e,
        λ d m. elim (Memᴰ.cases_cons m) [
          | inl p ↦ rw p (λ q k. find-none matches (of_rules engine c.match_rules processed) h q k)
          | inr t ↦ none_of d t
        ],
      )
      step (inl h) (inr f) = inr (record {
        route = f.route;
        category = f.category;
        there = Memᴰ.tail f.there;
        picked = f.picked;
        result = rw (find_in_categories, here, h) f.result;
        first = λ d m. elim (Memᴰ.cases_cons m) [
          | inl p ↦
              inr (rw p (λ q k. find-none matches (of_rules engine c.match_rules processed) h q k))
          | inr t ↦ f.first d t
        ];
      })
      step (inr (r, h)) rest = inr (record {
        route = r;
        category = c;
        there = Memᴰ.head refl;
        picked = h;
        result = rw (find_in_categories, here, h) refl;
        first =
            λ d m. inl (elim (Memᴰ.cases_cons m) [ inl p ↦ rw p (reflexive c) | inr t ↦ s.0 d t ]);
      })

  -- The categories of the table.
  abbrev pub table : List Category
  table =
      sort_by category_order
        (map (category_of engine processed) (group_by_rules engine 0 processed []))

  -- Every category of the table is the group of its rules.
  abbrev pub IsEntry : Category → Type 0
  IsEntry c =
      c ≡ category_of engine processed (c.match_rules, group_of engine c.match_rules processed)

  category_of-IsEntry :
      (groups : List (ℕ × List ℕ))
      → ((key : ℕ) (indices : List ℕ)
          → Memᴰ (key, indices) groups
          → indices ≡ group_of engine key processed)
      → (c : Category) → Memᴰ c (map (category_of engine processed) groups)
      → IsEntry c
  category_of-IsEntry [] h c m = absurd (Memᴰ.not-nil m)
  category_of-IsEntry ((key, indices) ∷ groups) h c m = elim (Memᴰ.cases_cons m) [
    | inl e ↦
        rw e (ap (λ is. category_of engine processed (key, is)) (h key indices (Memᴰ.head refl)))
    | inr t ↦ category_of-IsEntry groups (λ k is q. h k is (Memᴰ.tail q)) c t
  ]

  pub table-IsEntry : (c : Category) → Memᴰ c table → IsEntry c
  table-IsEntry c m =
      category_of-IsEntry (group_by_rules engine 0 processed [])
        (λ key indices q. entry-group_of engine key indices processed q) c
        (sort_by-Memᴰ category_order
          (map (category_of engine processed) (group_by_rules engine 0 processed [])) m)

  pub IsEntry-IsGroup : (c : Category) → IsEntry c → IsGroup c
  IsEntry-IsGroup c e = rw (ap (λ d. d.routes) e) (group_of-resolved engine c.match_rules processed)

  mapped :
      (key : ℕ) (groups : List (ℕ × List ℕ)) (indices : List ℕ)
      → Memᴰ (key, indices) groups
      → Memᴰ
          (category_of engine processed (key, indices))
          (map (category_of engine processed) groups)
  mapped key [] indices m = absurd (Memᴰ.not-nil m)
  mapped key (g ∷ groups) indices m = elim (Memᴰ.cases_cons m) [
    | inl e ↦ Memᴰ.head (ap (category_of engine processed) e)
    | inr t ↦ Memᴰ.tail (mapped key groups indices t)
  ]

  -- The category of a route is in the table.
  pub table-there :
      (r : Processed)
      → Memᴰ r processed
      → Memᴰ
          (category_of engine processed (r.match_rules, group_of engine r.match_rules processed))
          table
  table-there r m =
      Memᴰ-sort_by category_order
        (map (category_of engine processed) (group_by_rules engine 0 processed []))
        (mapped r.match_rules (group_by_rules engine 0 processed [])
          (group_of engine r.match_rules processed) (group_of-there engine r processed m))

  weight_at-resolved :
      (w : ℕ) (indices : List ℕ) (rs : List Processed) {r : Processed}
      → map (get_elem? processed) indices ≡ map some rs
      → Memᴰ r rs
      → ((q : Processed) → Memᴰ q rs → q.match_weight ≡ w)
      → weight_at engine processed indices ≡ w
  weight_at-resolved w indices [] h m same = absurd (Memᴰ.not-nil m)
  weight_at-resolved w [] (q ∷ qs) h m same = cc
  weight_at-resolved w (i ∷ is) (q ∷ qs) h m same =
      rw (weight_at, List.head-eq_of_cons-eq h) (same q (Memᴰ.head refl))

  module _
      (weighed : (r : Processed)
        → Memᴰ r processed
        → r.match_weight ≡ weight_of r.match_rules) where
    pub of_rules-member :
        (key : ℕ) (r : Processed)
        → Memᴰ r (of_rules engine key processed)
        → Memᴰ r processed × (r.match_rules ≡ key)
    of_rules-member key r m =
        let k = Memᴰ-keep_if (λ q. nat_beq q.match_rules key) processed m in
        (k.0, (nat_beq_iff r.match_rules key).0 k.1)

    -- The weight of a category is that of its routes.
    pub category-weight :
        (c : Category) (r : Processed)
        → IsEntry c
        → Memᴰ r (of_rules engine c.match_rules processed)
        → c.match_weight ≡ r.match_weight
    category-weight c r e m =
        ap (λ d. d.match_weight) e
        ∙ weight_at-resolved r.match_weight (group_of engine c.match_rules processed)
            (of_rules engine c.match_rules processed)
            (group_of-resolved engine c.match_rules processed) m
            (λ q k. same q (of_rules-member c.match_rules q k) (of_rules-member c.match_rules r m))
      where
        same :
            (q : Processed)
            → Memᴰ q processed × (q.match_rules ≡ c.match_rules)
            → Memᴰ r processed × (r.match_rules ≡ c.match_rules)
            → q.match_weight ≡ r.match_weight
        same q (k, p) (l, o) = weighed q k ∙ ap weight_of (p ∙ sym o) ∙ sym (weighed r l)
