-- ===== src/Router/Stream/Networks.antt =====
-- What networks and ports a route for connections accepts: `CidrPortMatcher` of
-- crates/kong-router/src/stream.rs.
use mathlib.Core.Path.{subst}
use kong_rust.Common.{
  ℕ, ◌≡◌, ◌∙◌, ◌↔◌, ◌⊎◌, inl, inr, refl, sym, ap, true, Option, none, some, nat_beq_iff,
  Option-cases, some_inj,
}
use kong_rust.Common.Text.{Text}
use kong_rust.Router.Stream.{IpAddr, network_matches, port_matches, parse_cidr, from_cidr_port}
use kong_rust.Router.Stream.Cidr.{IsAddress, SharesPrefix, ip_in_cidr-SharesPrefix}
use kong_rust.Router.Stream.Attributes.{Denotes, parse_cidr-Denotes, Denotes-parse_cidr}

-- A port is the one that is asked for, if one is.
abbrev pub IsPort : Option ℕ → Option ℕ → Type 0
IsPort none port = Unit {0}
IsPort (some expected) port = port ≡ some expected

pub port_matches-IsPort : (p q : Option ℕ) → (port_matches p q ≡ true) ↔ IsPort p q
port_matches-IsPort none q = (λ h. tt, λ h. refl)
port_matches-IsPort (some n) none = (λ h. cc, λ h. cc)
port_matches-IsPort (some n) (some m) =
    (λ h. ap some ((nat_beq_iff m n).0 h), λ h. (nat_beq_iff m n).1 (some_inj h))

module _ (to_lowercase : Text → Text) (parse_ip : Text → Option IpAddr) where
  -- An address lies in the network that the text denotes. A text that denotes no network excludes
  -- no address, and neither does a missing one.
  abbrev pub InNetwork : Option Text → Option IpAddr → Type 0
  InNetwork none ip = Unit {0}
  InNetwork (some text) ip =
      ((net : IpAddr) × (prefix_len : ℕ) × Denotes parse_ip text net prefix_len
        × (x : IpAddr) × (ip ≡ some x)
        × SharesPrefix x net prefix_len)
      ⊎ ((net : IpAddr) (prefix_len : ℕ) → ¬ Denotes parse_ip text net prefix_len)

  module _ (addresses : (t : Text) (x : IpAddr) → parse_ip t ≡ some x → IsAddress x) where
    denoted-IsAddress :
        (text : Text) (net : IpAddr) (prefix_len : ℕ)
        → Denotes parse_ip text net prefix_len
        → IsAddress net
    denoted-IsAddress text net prefix_len d = elim d [
      | inl (a, b, cut, f, g) ↦ addresses a net f
      | inr (no_slash, f, same) ↦ addresses text net f
    ]

    in_parsed :
        (text : Text) (net : IpAddr) (prefix_len : ℕ) (ip : Option IpAddr)
        → parse_cidr to_lowercase parse_ip text ≡ some (net, prefix_len)
        → ((x : IpAddr) → ip ≡ some x → IsAddress x)
        → (network_matches (some (net, prefix_len)) ip ≡ true) ↔ InNetwork (some text) ip
    in_parsed text net prefix_len ip e good = (
      λ h. inl (forward ip refl h),
      λ n. elim n [
        | inl (net', len, d, x, q, shares) ↦ backward net' len x d q shares
        | inr nothing ↦ absurd (
            nothing net prefix_len (parse_cidr-Denotes parse_ip to_lowercase text net prefix_len e))
      ],
    )
      where
        denotes : Denotes parse_ip text net prefix_len
        denotes = parse_cidr-Denotes parse_ip to_lowercase text net prefix_len e

        forward :
            (o : Option IpAddr)
            → ip ≡ o
            → network_matches (some (net, prefix_len)) o ≡ true
            → (n : IpAddr) × (len : ℕ) × Denotes parse_ip text n len
              × (x : IpAddr) × (ip ≡ some x)
              × SharesPrefix x n len
        forward none q h = cc
        forward (some x) q h = (
          net,
          prefix_len,
          denotes,
          x,
          q,
          (ip_in_cidr-SharesPrefix x net prefix_len (good x q)
                (denoted-IsAddress text net prefix_len denotes)).0
              h,
        )

        backward :
            (n : IpAddr) (len : ℕ) (x : IpAddr)
            → Denotes parse_ip text n len
            → ip ≡ some x
            → SharesPrefix x n len
            → network_matches (some (net, prefix_len)) ip ≡ true
        backward n len x d q shares =
            ap (network_matches (some (net, prefix_len))) q
            ∙ (ip_in_cidr-SharesPrefix x net prefix_len (good x q)
                  (denoted-IsAddress text net prefix_len denotes)).1
                (subst (λ (p : IpAddr × ℕ). SharesPrefix x p.0 p.1)
                  (some_inj (sym (Denotes-parse_cidr parse_ip to_lowercase text n len d) ∙ e))
                  shares)

    abbrev parsed : Option Text → Option (IpAddr × ℕ)
    parsed t = (from_cidr_port to_lowercase parse_ip (record { ip = t; port = none })).network

    pub network-InNetwork :
        (t : Option Text) (ip : Option IpAddr)
        → ((x : IpAddr) → ip ≡ some x → IsAddress x)
        → (network_matches (parsed t) ip ≡ true) ↔ InNetwork t ip
    network-InNetwork none ip good = (λ h. tt, λ n. refl)
    network-InNetwork (some text) ip good =
        elim (Option-cases (parse_cidr to_lowercase parse_ip text)) [
          | inl e ↦ rw e (
            λ h. inr (λ net len d. cc (e, Denotes-parse_cidr parse_ip to_lowercase text net len d)),
            λ n. refl,
          )
          | inr ((net, len), e) ↦ rw e (in_parsed text net len ip e good)
        ]
