-- ===== src/AgentService/Server.antt =====
-- What `loadRoutes` of dns-server/internal/ip_routes.go gets from the agent's tables.
use keenetic_dns.Prelude.{
  ℕ, ◌%◌, ◌^◌, ◌<◌, ◌≡◌, ◌⊎◌, inl, inr, refl, sym, ap, ◌∙◌, Option, none, some, List, [], ◌∷◌, map,
  In, here, there, All, Bytes, arith,
}
use keenetic_dns.GoMap
use keenetic_dns.Util.Set.{Set}
use keenetic_dns.Text.{cut_at}
use keenetic_dns.Text.Fields.{Solid}
use keenetic_dns.Types.{
  Outcome, IPv4, parse_ip, notation, returns, fails, panics, to_string, parse_ipv4,
}
use keenetic_dns.Types.AddressText.{IsAddress, parse_ipv4_panics}
use keenetic_dns.Routes.{IpRoute, route_eq, parse_routes, load_routes}
use keenetic_dns.AgentService.{Output, list_routes, answer_of, agent_of}
use keenetic_dns.AgentService.Tables.{
  Shown, IsShown, print_routes, as_route, list_args, list_routes-print_routes,
}

-- A route of the table: an address and an interface.
abbrev pub Known : Type 0
Known = IPv4 × Bytes

pub record IsKnown (r : Known) : Type 0 where
  pub address_in : IsAddress r.0
  pub iface_in : Solid r.1

abbrev pub shown : Known → Shown
shown (ip, iface) = (to_string ip, iface)

abbrev pub in_table : ℕ → Known → IpRoute
in_table table (ip, iface) = record { table = table; iface = iface; addr = ip }

abbrev put_all : ℕ → List Known → Set IpRoute → Set IpRoute
put_all table [] known = known
put_all table (r ∷ rs) known = put_all table rs (GoMap.put (in_table table r) tt known)

-- The list of the agent's routes, for a table that the command prints.
listed :
    (run : List Bytes → Output) (table : ℕ) (rs : List Shown)
    → table < 2 ^ 32
    → All IsShown rs
    → run (list_args table) ≡ record { stdout = print_routes rs; error = none }
    → (agent_of run).list_routes (table % 2 ^ 32) ≡ some (map (as_route table) rs)
unfolding agent_of
listed run table rs h v e =
    let small : table % 2 ^ 32 ≡ table = omega arith in
    ap (λ t. answer_of (list_routes run t)) small
    ∙ ap answer_of (list_routes-print_routes run table rs v e)

Outcome-cases :
    {A : Type 0} (o : Outcome A) → (o ≡ panics) ⊎ ((o ≡ fails) ⊎ ((v : A) × (o ≡ returns v)))
Outcome-cases (returns v) = inr (inr (v, refl))
Outcome-cases fails = inr (inl refl)
Outcome-cases panics = inl refl

parse_routes_panic :
    (parse_ipv6 : Bytes → Option Bytes) (table : ℕ) (rs : List Shown) (r : Shown)
    (known : Set IpRoute)
    → In r rs
    → parse_ipv4 parse_ipv6 r.0 ≡ panics
    → parse_routes parse_ipv6 (map (as_route table) rs) known ≡ panics
unfolding parse_routes
parse_routes_panic parse_ipv6 table [] r known i h = elim i [ ]
parse_routes_panic parse_ipv6 table (x ∷ rs) r known (here e) h =
    rw (parse_routes, ap (λ y. parse_ipv4 parse_ipv6 y.0) (sym e) ∙ h) refl
parse_routes_panic parse_ipv6 table (x ∷ rs) r known (there i) h =
    elim (Outcome-cases (parse_ipv4 parse_ipv6 x.0)) [
      | inl e ↦ rw (parse_routes, e) refl
      | inr o ↦ elim o [
        | inl e ↦ rw (parse_routes, e) (parse_routes_panic parse_ipv6 table rs r known i h)
        | inr (addr, e) ↦
            rw (parse_routes, e)
              (parse_routes_panic parse_ipv6 table rs r
                (GoMap.put (record { table = table; iface = x.1; addr = addr }) tt known) i h)
      ]
    ]

abbrev pub default_word : Bytes
default_word = b'd' ∷ b'e' ∷ b'f' ∷ b'a' ∷ b'u' ∷ b'l' ∷ b't' ∷ []

default_word-panics :
    (parse_ipv6 : Bytes → Option Bytes) → parse_ipv4 parse_ipv6 default_word ≡ panics
default_word-panics parse_ipv6 =
    parse_ipv4_panics parse_ipv6 default_word (unfold cut_at in refl)
      (unfold parse_ip notation in refl)

-- A default route with an interface alone in the agent's table, which the command shows as the
-- address "default", makes `loadRoutes` of the server panic, whatever else is in the table.
pub default_route_panics :
    (run : List Bytes → Output) (parse_ipv6 : Bytes → Option Bytes) (table : ℕ) (rs : List Shown)
    (iface : Bytes)
    → table < 2 ^ 32
    → All IsShown rs
    → In (default_word, iface) rs
    → run (list_args table) ≡ record { stdout = print_routes rs; error = none }
    → load_routes (agent_of run) parse_ipv6 table ≡ panics
unfolding load_routes
default_route_panics run parse_ipv6 table rs iface h v i e =
    rw (load_routes, listed run table rs h v e)
      (parse_routes_panic parse_ipv6 table rs (default_word, iface) [] i
        (default_word-panics parse_ipv6))
