-- ===== src/Router/Table/Cached.antt =====
-- The cache in front of the lookup, `find_route` of crates/kong-router/src/traditional.rs.
use kong_rust.Common.{
  ◌≡◌, ◌∙◌, refl, sym, true, false, Option, none, some, List, [], ◌∷◌, inl, inr, if◌then◌else◌,
  Bool-cases, some_inj, ◌⊎◌,
}
use kong_rust.Common.Assoc.{lookup, insert, lookup-insert}
use kong_rust.Common.Text.{Text, text_keyed, same_text, same_text_iff}
use kong_rust.Router.Types.{Route, RequestContext, RouteMatch, Engine}
use kong_rust.Router.Table.{
  TraditionalRouter, new, answer, cache_key, find_route, find_route_uncached,
}

module _ (engine : Engine) where
  -- An answer for a key: that of the lookup for some request with this key.
  abbrev pub IsAnswer : TraditionalRouter engine → Text → Option RouteMatch → Type 0
  IsAnswer router key result =
      (asked : RequestContext) × ((cache_key engine asked ≡ key)
        × (result ≡ answer engine router asked))

  -- What the cache holds are answers.
  abbrev pub IsFaithful : TraditionalRouter engine → Type 0
  IsFaithful router =
      (key : Text) (result : Option RouteMatch)
      → lookup key router.cache ≡ some result
      → IsAnswer router key result

  -- A cache may drop entries, and makes none up.
  abbrev pub OnlyDrops :
      (List (Text × Option RouteMatch) → List (Text × Option RouteMatch)) → Type 0
  OnlyDrops evict =
      (entries : List (Text × Option RouteMatch)) (key : Text) (result : Option RouteMatch)
      → lookup key (evict entries) ≡ some result
      → lookup key entries ≡ some result

  unfoldable pub serve :
      (List (Text × Option RouteMatch) → List (Text × Option RouteMatch))
      → TraditionalRouter engine
      → List RequestContext
      → List (Option RouteMatch)
  serve evict router [] = []
  serve evict router (ctx ∷ ctxs) =
      let found = find_route engine evict router ctx in found.0 ∷ serve evict found.1 ctxs

  -- Each of the answers is one for the key of its request.
  abbrev pub AreAnswers :
      TraditionalRouter engine → List RequestContext → List (Option RouteMatch) → Type 0
  AreAnswers router [] [] = Unit
  AreAnswers router (ctx ∷ ctxs) (result ∷ results) =
      IsAnswer router (cache_key engine ctx) result × AreAnswers router ctxs results
  AreAnswers router _ _ = ⊥

  module _ (evict : List (Text × Option RouteMatch) → List (Text × Option RouteMatch))
      (drops : OnlyDrops evict) where
    -- What one request leaves behind: an answer, and a faithful cache before the same table.
    abbrev IsServed :
        TraditionalRouter engine
        → RequestContext
        → Option RouteMatch × TraditionalRouter engine
        → Type 0
    IsServed router ctx found =
        IsAnswer router (cache_key engine ctx) found.0
        × (IsFaithful found.1
            × ((asked : RequestContext) → answer engine found.1 asked ≡ answer engine router asked))

    abbrev filled : TraditionalRouter engine → RequestContext → TraditionalRouter engine
    filled router ctx = record {
      routes = router.routes;
      categories = router.categories;
      cache = evict (insert (cache_key engine ctx) (answer engine router ctx) router.cache);
    }

    filled-IsFaithful :
        (router : TraditionalRouter engine) (ctx : RequestContext)
        → IsFaithful router
        → IsFaithful (filled router ctx)
    unfolding find_route_uncached
    filled-IsFaithful router ctx faithful key result h =
        go (Bool-cases (same_text (cache_key engine ctx) key)) (
          sym (lookup-insert key (cache_key engine ctx) (answer engine router ctx) router.cache)
          ∙ drops (insert (cache_key engine ctx) (answer engine router ctx) router.cache) key result
              h)
      where
        go :
            (same_text (cache_key engine ctx) key ≡ true)
              ⊎ (same_text (cache_key engine ctx) key ≡ false)
            → (if same_text (cache_key engine ctx) key
                then some (answer engine router ctx)
                else lookup key router.cache)
              ≡ some result
            → IsAnswer router key result
        go (inl e) k = (ctx, ((same_text_iff _ _).0 e, sym (some_inj (rw e at k))))
        go (inr e) k = faithful key result (rw e at k)

    find_route-IsServed :
        (router : TraditionalRouter engine) (ctx : RequestContext)
        → IsFaithful router
        → IsServed router ctx (find_route engine evict router ctx)
    unfolding find_route find_route_uncached
    find_route-IsServed router ctx faithful = go (lookup (cache_key engine ctx) router.cache) refl
      where
        go :
            (o : Option (Option RouteMatch))
            → lookup (cache_key engine ctx) router.cache ≡ o
            → IsServed router ctx (elim o [
              | some cached ↦ (cached, router)
              | none ↦ (answer engine router ctx, filled router ctx)
            ])
        go none e = ((ctx, (refl, refl)), (filled-IsFaithful router ctx faithful, λ asked. refl))
        go (some v) e = (faithful (cache_key engine ctx) v e, (faithful, λ asked. refl))

    serve-AreAnswers :
        (router : TraditionalRouter engine) (table : TraditionalRouter engine)
        (ctxs : List RequestContext)
        → IsFaithful router
        → ((asked : RequestContext) → answer engine router asked ≡ answer engine table asked)
        → AreAnswers table ctxs (serve evict router ctxs)
    unfolding serve
    serve-AreAnswers router table [] faithful same = tt
    serve-AreAnswers router table (ctx ∷ ctxs) faithful same =
        go (find_route-IsServed router ctx faithful) (λ s.
          serve-AreAnswers (find_route engine evict router ctx).1 table ctxs s.1.0
            (λ asked. s.1.1 asked ∙ same asked))
      where
        go :
            IsServed router ctx (find_route engine evict router ctx)
            → (IsServed router ctx (find_route engine evict router ctx)
                → AreAnswers table ctxs (serve evict (find_route engine evict router ctx).1 ctxs))
            → IsAnswer table (cache_key engine ctx) (find_route engine evict router ctx).0
              × AreAnswers table ctxs (serve evict (find_route engine evict router ctx).1 ctxs)
        go s further = ((s.0.0, (s.0.1.0, s.0.1.1 ∙ same s.0.0)), further s)

    -- A router that starts with an empty cache, whatever the cache drops on the way, answers every request
    -- as the lookup answers some request with the same cache key.
    pub find_route-AreAnswers :
        (routes : List Route) (ctxs : List RequestContext)
        → AreAnswers (new engine routes) ctxs (serve evict (new engine routes) ctxs)
    unfolding new lookup
    find_route-AreAnswers routes ctxs =
        serve-AreAnswers (new engine routes) (new engine routes) ctxs
          (λ key result h. absurd (cc h)) (λ asked. refl)
