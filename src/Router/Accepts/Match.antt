-- ===== src/Router/Accepts/Match.antt =====
-- `match_route` of crates/kong-router/src/traditional.rs against its reference.
use kong_rust.Common.{
  ◌≡◌, ◌∙◌, refl, sym, ap, ap₂, Bool, true, false, not, ◌&&◌, ◌||◌, Option, none, some, List, [],
  ◌∷◌, map, is_empty, any, all, if◌then◌else◌,
}
use kong_rust.Common.Assoc.{lookup}
use kong_rust.Common.Text.{Text, codes, same_text}
use kong_rust.Router.Types.{Route, RequestContext, Engine}
use kong_rust.Router.Process.{process_route, given, protocol_text}
use kong_rust.Router.Matching.{
  match_route, match_host, match_headers, match_uri, sni_matches, scheme_matches,
}
use kong_rust.Router.Rules.{has_host, has_uri, has_method, has_header, has_sni}
use kong_rust.Router.Accepts.{accepts, host_accepts, header_accepts, sni_accepts}
use kong_rust.Router.Accepts.Parts.{
  any-host_accepts, any-path_accepts, contains_key-methods_of, contains_key-snis_of,
  all-header_accepts,
}

-- A test with an early return, as a conjunction: it counts where its bit is set.
pub gated :
    (bit empty passed wanted rest more : Bool)
    → bit ≡ not empty
    → passed ≡ wanted
    → rest ≡ more
    → (if bit && not passed then false else rest) ≡ ((empty || wanted) && more)
gated bit true passed wanted rest more p q r = rw p r
gated bit false true wanted rest more p q r = rw (p, sym q) r
gated bit false false wanted rest more p q r = rw (p, sym q) refl

pub any-map {ℓ κ} :
    {A : Type ℓ} {B : Type κ} (f : A → B) (p : B → Bool) (xs : List A)
    → any p (map f xs) ≡ any (λ x. p (f x)) xs
any-map f p [] = refl
any-map f p (x ∷ xs) = ap (λ b. p (f x) || b) (any-map f p xs)

pub is_empty-map {ℓ κ} :
    {A : Type ℓ} {B : Type κ} (f : A → B) (xs : List A) → is_empty (map f xs) ≡ is_empty xs
is_empty-map f [] = refl
is_empty-map f (x ∷ xs) = refl

empty_all {ℓ} : {A : Type ℓ} (p : A → Bool) (xs : List A) → (is_empty xs || all p xs) ≡ all p xs
empty_all p [] = refl
empty_all p (x ∷ xs) = refl

tidied :
    (x rest : Bool) {a b c d : Bool}
    → a ≡ b
    → c ≡ d
    → ((a || x) && (c && rest)) ≡ ((b || x) && (d && rest))
tidied x rest p q = ap₂ (λ a c. (a || x) && (c && rest)) p q

module _ (engine : Engine) where
  sni_agrees :
      (r : Route) (http_like : Bool) (sni : Option Text)
      → (http_like || sni_matches engine (process_route engine r) sni)
        ≡ (http_like || sni_accepts engine (given r.snis) sni)
  unfolding process_route lookup
  sni_agrees r http_like none = refl
  sni_agrees r http_like (some sni) =
      ap (λ b. http_like || b) (contains_key-snis_of engine sni [] (given r.snis))

  -- A processed route matches a request exactly if every attribute of the route that is given accepts it.
  pub match_route-accepts :
      (r : Route) (ctx : RequestContext) (host host_no_port : Text)
      → match_route engine (process_route engine r) ctx host host_no_port
        ≡ accepts engine r ctx host host_no_port
  unfolding process_route match_route match_host match_headers match_uri lookup
  match_route-accepts r ctx host host_no_port =
      gated _ no_hosts _ _ _ _
        (has_host (not no_hosts) (not no_paths) (not no_methods) (not no_headers) (not no_snis))
        (any-host_accepts engine host host_no_port (map engine.to_lowercase (given r.hosts)))
        (gated _ no_headers _ _ _ _
          (has_header (not no_hosts) (not no_paths) (not no_methods) (not no_headers) (not no_snis))
          (all-header_accepts engine ctx.headers (given r.headers))
          (gated _ no_paths _ _ _ _
            (has_uri (not no_hosts) (not no_paths) (not no_methods) (not no_headers) (not no_snis))
            (any-path_accepts engine ctx.uri (given r.paths))
            (gated _ no_methods _ _ _ _
              (has_method (not no_hosts) (not no_paths) (not no_methods) (not no_headers)
                (not no_snis))
              (contains_key-methods_of engine (engine.to_uppercase ctx.method) [] (given r.methods))
              (gated _ no_snis _ _ _ _
                (has_sni (not no_hosts) (not no_paths) (not no_methods) (not no_headers)
                  (not no_snis))
                (sni_agrees r
                  (same_text ctx.scheme (codes "http") || same_text ctx.scheme (codes "https"))
                  ctx.sni)
                (ap₂ (λ x y. x || y) (is_empty-map protocol_text r.protocols)
                  (any-map protocol_text (scheme_matches ctx.scheme) r.protocols))))))
      ∙ tidied
          (any (host_accepts engine host host_no_port) (map engine.to_lowercase (given r.hosts))) _
          (is_empty-map engine.to_lowercase (given r.hosts))
          (empty_all (header_accepts engine ctx.headers) (given r.headers))
    where
      no_hosts : Bool
      no_hosts = is_empty (map engine.to_lowercase (given r.hosts))

      no_paths : Bool
      no_paths = is_empty (given r.paths)

      no_methods : Bool
      no_methods = is_empty (given r.methods)

      no_headers : Bool
      no_headers = is_empty (given r.headers)

      no_snis : Bool
      no_snis = is_empty (given r.snis)
