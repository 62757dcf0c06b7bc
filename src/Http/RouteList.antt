-- ===== src/Http/RouteList.antt =====
-- `handleRoutes` of dns-server/internal/dns_server_http.go: the routes in the order in which the web
-- page shows them.
use mathlib.Core.List.{Perm}
use keenetic_dns.Prelude.{
  ℕ, ◌≡◌, Bool, true, false, List, sort_by, Sorted, WeakOrder, sort_by-Sorted, sort_by-Perm, arith,
  All, All-map_imp, Bool-cases, sym, ◌∙◌, ◌⊎◌, inl, inr, [], ◌∷◌,
}
use keenetic_dns.Types.{IPv4, has_prefix}
use keenetic_dns.Routes.{Controller}
use keenetic_dns.Routes.Listing.{IpRouteDns, routes}
use keenetic_dns.Service.{ipv4_less}
use keenetic_dns.Http.{route_less}

-- The comparison of two routes.
abbrev pub listed_less : IpRouteDns → IpRouteDns → Bool
listed_less r s = route_less ipv4_less r.route.addr s.route.addr

-- `handleRoutes`: what is written as JSON.
unfoldable pub handle_routes : ℕ → Controller → List IpRouteDns
handle_routes now c = sort_by listed_less (routes now c)

ipv4_less_asym : (x y : IPv4) → ipv4_less x y ≡ true → ipv4_less y x ≡ false
unfolding ipv4_less
ipv4_less_asym x y h = ground arith

ipv4_less_trans :
    (x y z : IPv4) → ipv4_less z y ≡ false → ipv4_less y x ≡ false → ipv4_less z x ≡ false
unfolding ipv4_less
ipv4_less_trans x y z h k = ground arith

route_less-WeakOrder : WeakOrder listed_less
unfolding route_less
route_less-WeakOrder = record {
  asym = λ r s h. ground (arith, ipv4_less_asym r.route.addr s.route.addr);
  trans = λ r s t h k. ground (arith, ipv4_less_trans r.route.addr s.route.addr t.route.addr);
}

-- A route may stand before another one: a host before a network, or both of a kind, with no bytes
-- above the other's.
abbrev pub Before : IpRouteDns → IpRouteDns → Type 0
Before r s =
    ((has_prefix r.route.addr ≡ false) × (has_prefix s.route.addr ≡ true))
    ⊎ ((has_prefix r.route.addr ≡ has_prefix s.route.addr)
        × (ipv4_less s.route.addr r.route.addr ≡ false))

-- Every route may stand before those after it.
abbrev pub Listed : List IpRouteDns → Type 0
Listed [] = Unit
Listed (r ∷ rs) = All (Before r) rs × Listed rs

listed_less-Before : (r s : IpRouteDns) → listed_less s r ≡ false → Before r s
unfolding route_less
listed_less-Before r s h = elim (Bool-cases (has_prefix r.route.addr)) [
  | inl p ↦ elim (Bool-cases (has_prefix s.route.addr)) [
    | inl q ↦ inr (p ∙ sym q, rw (route_less, q, p) at h)
    | inr q ↦ absurd (let n : true ≡ false = rw (route_less, q, p) at h in cc)
  ]
  | inr p ↦ elim (Bool-cases (has_prefix s.route.addr)) [
    | inl q ↦ inl (p, q)
    | inr q ↦ inr (p ∙ sym q, rw (route_less, q, p) at h)
  ]
]

Sorted-Listed : (rs : List IpRouteDns) → Sorted listed_less rs → Listed rs
Sorted-Listed [] s = tt
Sorted-Listed (r ∷ rs) (all, s) = (
  All-map_imp (λ s. listed_less s r ≡ false) (Before r) rs (listed_less-Before r) all,
  Sorted-Listed rs s,
)

-- The web page is given each route of the controller once, single hosts before networks, and within
-- both in the order of the bytes of the address.
pub handle_routes_lem :
    (now : ℕ) (c : Controller)
    → Listed (handle_routes now c) × Perm (handle_routes now c) (routes now c)
unfolding handle_routes
handle_routes_lem now c = (
  Sorted-Listed (handle_routes now c)
      (sort_by-Sorted listed_less route_less-WeakOrder (routes now c)),
  sort_by-Perm listed_less (routes now c),
)
