-- ===== src/Routes.antt =====
-- dns-server/internal/ip_routes.go: the routes that the server asks the agent for. The mutexes make
-- each method one step. What the agent answers is a parameter: during one method it answers the same
-- request in the same way. The requests that change the agent's routes are recorded in order.
pub mod Converge
pub mod Listing
pub mod Requests
pub mod Stable
use keenetic_dns.Prelude.{
  ℕ, ◌+◌, ◌%◌, ◌^◌, ◌≡◌, ◌↔◌, Option, none, some, Bool, true, false, not, ◌&&◌, List, [], ◌∷◌, ◌++◌,
  map, keep, length, ◌==◌, if◌then◌else◌, Eq, Bytes, bytes_eq, bytes_beq, bytes_beq_iff, arith,
  ==_iff,
}
use keenetic_dns.GoMap
use keenetic_dns.GoMap.{Map}
use keenetic_dns.Util.Set
use keenetic_dns.Util.Set.{Set}
use keenetic_dns.Types.{
  IPv4, ipv4_beq, ipv4_beq_iff, Outcome, returns, fails, panics, parse_ipv4, to_string,
}
use keenetic_dns.Types.Record.{DnsRecord, expired}
use keenetic_dns.Store
use keenetic_dns.Store.{DnsStore}
use keenetic_dns.Config.{RoutingConfig, RoutingRule, RoutingDynamic, lookup_host}

-- `IPRoute` of types.go
pub record IpRoute : Type 0 where
  pub table : ℕ
  pub iface : Bytes
  pub addr : IPv4

abbrev pub route_beq : IpRoute → IpRoute → Bool
route_beq p q = p.table == q.table && bytes_beq p.iface q.iface && ipv4_beq p.addr q.addr

pub route_beq_iff : (p q : IpRoute) → (route_beq p q ≡ true) ↔ (p ≡ q)
route_beq_iff p q = ground (arith, bytes_beq_iff p.iface q.iface, ipv4_beq_iff p.addr q.addr)

instance abbrev pub route_eq : Eq IpRoute
route_eq = record { beq = route_beq; beq_iff = route_beq_iff }

-- `agentv1.Route` and `mapToAgentRoute`
pub record AgentRoute : Type 0 where
  pub table : ℕ
  pub iface : Bytes
  pub address : Bytes

unfoldable pub map_to_agent_route : IpRoute → AgentRoute
map_to_agent_route r = record {
  table = r.table % 2 ^ 32;
  iface = r.iface;
  address = to_string r.addr;
}

-- `agentv1.Rule` and `mapToAgentRule`
unfoldable pub map_to_agent_rule : RoutingRule → RoutingRule
map_to_agent_rule r = record {
  table = r.table % 2 ^ 32;
  iif = r.iif;
  priority = r.priority % 2 ^ 32;
}

-- The agent's answers: whether a request succeeds; for a query `none` is an error.
pub record Agent : Type 0 where
  pub accepts_route : AgentRoute → Bool
  pub accepts_delete : AgentRoute → Bool
  pub list_routes : ℕ → Option (List AgentRoute)
  pub has_rule : RoutingRule → Option Bool

-- The requests that change something.
pub data Request : Type 0 where
  route_added : IpRoute → Request
  route_deleted : IpRoute → Request
  rule_added : RoutingRule → Request

-- `IPRouteController`, and the requests it has sent, the first in front.
pub record Controller : Type 0 where
  pub cfg : RoutingConfig
  pub table_id : ℕ
  pub store : DnsStore
  pub routes : Set IpRoute
  pub requests : List Request

-- `NewIPRouteController`
unfoldable pub new_controller : RoutingConfig → DnsStore → Controller
new_controller cfg store = record {
  cfg = cfg;
  table_id = cfg.rule.table;
  store = store;
  routes = [];
  requests = [];
}

-- `removeExpiredRecords`
unfoldable pub remove_expired_records : ℕ → ℕ → List DnsRecord → List DnsRecord
remove_expired_records now extra_ttl rs = keep (λ r. not (expired now extra_ttl r)) rs

-- `init`
unfoldable pub init_routes : List DnsRecord → Controller → Controller
init_routes [] s = s
init_routes (r ∷ rs) s =
    let iface = lookup_host r.domain s.cfg in
    init_routes rs (
      if length iface == 0 then s else record s {
        routes =
            Set.insert (record { table = s.cfg.rule.table; iface = iface; addr = r.ip }) s.routes;
      })

unfoldable pub init : Controller → Controller
unfolding init_routes
init s = init_routes (Store.records s.store) s

-- The parsed routes of the agent's list: an address in error is left out, `ParseIPv4` may panic.
unfoldable pub parse_routes :
    (Bytes → Option Bytes) → List AgentRoute → Set IpRoute → Outcome (Set IpRoute)
parse_routes parse_ipv6 [] known = returns known
parse_routes parse_ipv6 (it ∷ its) known = elim (parse_ipv4 parse_ipv6 it.address) [
  | fails ↦ parse_routes parse_ipv6 its known
  | panics ↦ panics
  | returns addr ↦
      parse_routes parse_ipv6 its
        (GoMap.put (record { table = it.table; iface = it.iface; addr = addr }) tt known)
]

module _ (agent : Agent) where
  -- `addRoute`
  unfoldable pub send_add : IpRoute → Controller → Controller
  send_add route s =
      let sent = record s { requests = s.requests ++ route_added route ∷ [] } in
      if agent.accepts_route (map_to_agent_route route)
      then record sent { routes = Set.insert route s.routes }
      else sent

  -- `deleteRoute`
  unfoldable pub send_delete : IpRoute → Controller → Controller
  send_delete route s =
      let sent = record s { requests = s.requests ++ route_deleted route ∷ [] } in
      if agent.accepts_delete (map_to_agent_route route)
      then record sent { routes = Set.remove route s.routes }
      else sent

  -- `AddRoute`
  unfoldable pub add_route : Bytes → IPv4 → Controller → Controller
  add_route iface ip s =
      let route : IpRoute = record { table = s.table_id; iface = iface; addr = ip } in
      if Set.has route s.routes then s else send_add route s

  -- `loadRoutes`; after an error the map is nil.
  unfoldable pub load_routes : (Bytes → Option Bytes) → ℕ → Outcome (Set IpRoute)
  unfolding parse_routes
  load_routes parse_ipv6 table = elim (agent.list_routes (table % 2 ^ 32)) [
    | none ↦ returns []
    | some its ↦ parse_routes parse_ipv6 its []
  ]

  -- The closure `addRoute` of `reconcileRoutes`: the unknown routes, and the state.
  unfoldable pub want : Set IpRoute → IpRoute → Set IpRoute × Controller → Set IpRoute × Controller
  want defined route (unknown, s) =
      if GoMap.has route defined
      then (GoMap.delete route unknown, s)
      else (unknown, send_add route s)

  unfoldable pub want_all :
      Set IpRoute → List IpRoute → Set IpRoute × Controller → Set IpRoute × Controller
  want_all defined [] st = st
  want_all defined (r ∷ rs) st = want_all defined rs (want defined r st)

  -- The last loop of `reconcileRoutes`.
  unfoldable pub delete_all : List IpRoute → Controller → Controller
  delete_all [] s = s
  delete_all (r ∷ rs) s = delete_all rs (send_delete r s)

  -- The known routes with a record that has not expired.
  unfoldable pub live_routes : ℕ → Controller → List IpRoute
  live_routes now s =
      keep
        (λ (r : IpRoute). not (
          length (
            remove_expired_records now s.cfg.dynamic.route_timeout (Store.lookup_ip r.addr s.store))
          == 0))
        (Set.values s.routes)

  -- The static routes of the configuration.
  unfoldable pub static_routes_of : ℕ → Map Bytes (List IPv4) → List IpRoute
  static_routes_of table [] = []
  static_routes_of table ((iface, addresses) ∷ rest) =
      map (λ ip. record { table = table; iface = iface; addr = ip }) addresses
      ++ static_routes_of table rest

  -- `reconcileRoutes` with the routes of the agent's table. The first loop runs over the routes as
  -- they were when it began.
  unfoldable pub reconcile_with : ℕ → Set IpRoute → Controller → Controller
  reconcile_with now defined s =
      let (unknown, t) =
        want_all defined
          (live_routes now s ++ static_routes_of s.cfg.rule.table s.cfg.dynamic.static_routes)
          (defined, s) in
      delete_all (Set.values unknown) t

  -- `reconcileRoutes`
  unfoldable pub reconcile_routes : (Bytes → Option Bytes) → ℕ → Controller → Outcome Controller
  reconcile_routes parse_ipv6 now s = elim (load_routes parse_ipv6 s.cfg.rule.table) [
    | fails ↦ fails
    | panics ↦ panics
    | returns defined ↦ returns (reconcile_with now defined s)
  ]

  -- `reconcileRules`
  unfoldable pub reconcile_rules : Controller → Controller
  reconcile_rules s = elim (agent.has_rule (map_to_agent_rule s.cfg.rule)) [
    | none ↦ s
    | some exists ↦
        if exists
        then s
        else record s { requests = s.requests ++ rule_added (map_to_agent_rule s.cfg.rule) ∷ [] }
  ]

  -- `reconcile`, with every duration of it taken as 0.
  unfoldable pub reconcile : (Bytes → Option Bytes) → ℕ → Controller → Outcome Controller
  unfolding reconcile_routes reconcile_rules
  reconcile parse_ipv6 now s = reconcile_routes parse_ipv6 now (
      reconcile_rules
        (record s { store = Store.remove_expired now s.cfg.dynamic.route_timeout s.store }))

  -- `UpdateConfig`
  unfoldable pub update_config :
      (Bytes → Option Bytes) → ℕ → RoutingDynamic → Controller → Outcome Controller
  unfolding reconcile
  update_config parse_ipv6 now dynamic s =
      reconcile parse_ipv6 now (record s { cfg = record s.cfg { dynamic = dynamic } })
