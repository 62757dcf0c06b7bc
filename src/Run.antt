-- ===== src/Run.antt =====
-- The life of the route controller and of its store, as dns-server/cmd/main.go runs them: the start,
-- and then the steps of the goroutines in any order. A step is what one mutex protects; the methods of
-- dns-server/internal/service.go and ip_routes.go are sequences of such steps. The agent may answer
-- differently in each step.
pub mod Tables
pub mod Invariant
pub mod Safety
pub mod Keeps
pub mod Methods
use keenetic_dns.Prelude.{ℕ, ◌≡◌, Option, Bytes, Bool, not, keep, length, ◌==◌, ◌++◌}
use keenetic_dns.Routes.{remove_expired_records}
use keenetic_dns.Util.Set
use keenetic_dns.Util.Set.{Set}
use keenetic_dns.Types.{IPv4, Outcome, returns, fails, panics}
use keenetic_dns.Types.Record.{DnsRecord}
use keenetic_dns.Store
use keenetic_dns.Store.{Codec, Opened, new_dns_store}
use keenetic_dns.Config.{RoutingConfig, RoutingDynamic}
use keenetic_dns.Routes.{
  IpRoute, route_eq, want_all, delete_all, static_routes_of, load_routes, Agent, Controller,
  new_controller, init, reconcile, reconcile_rules, reconcile_routes, add_route,
}

-- `main` until the servers run: the store that the file fills, the controller, and its `Start`.
unfoldable pub start :
    Codec → Opened → Agent → (Bytes → Option Bytes) → ℕ → RoutingConfig → Outcome Controller
start codec file agent parse_ipv6 now cfg = elim (Store.load codec file new_dns_store) [
  | fails ↦ fails
  | panics ↦ panics
  | returns (store, ok) ↦ reconcile agent parse_ipv6 now (init (new_controller cfg store))
]

-- `reconcileRoutes` with the routes of the agent's table, where `found` says for which of the known
-- routes the look-up in the store finds a record that has not expired.
unfoldable pub reconcile_finding : Agent → (IpRoute → Bool) → Set IpRoute → Controller → Controller
reconcile_finding agent found defined c =
    let (unknown, t) =
      want_all agent defined
        (keep found (Set.values c.routes)
          ++ static_routes_of agent c.cfg.rule.table c.cfg.dynamic.static_routes)
        (defined, c) in
    delete_all agent (Set.values unknown) t

-- What the look-ups find while the store stays as it is.
abbrev pub found_now : ℕ → Controller → IpRoute → Bool
found_now now c r = not (
    length (remove_expired_records now c.cfg.dynamic.route_timeout (Store.lookup_ip r.addr c.store))
    == 0)

-- What each agent must be like, `Honest`, is a parameter.
module _ (codec : Codec) (parse_ipv6 : Bytes → Option Bytes) (cfg : RoutingConfig)
    (Honest : Agent → Type 0) where
  pub data Run : Controller → Type 0 where
    started :
        {c : Controller} (agent : Agent) (file : Opened) (now : ℕ)
        → Honest agent
        → start codec file agent parse_ipv6 now cfg ≡ returns c
        → Run c
    -- `Add` of the store, and `AddRoute`, both for a query
    stored :
        {c : Controller} (r : DnsRecord) → Run c → Run (record c { store = Store.add r c.store })
    asked :
        {c : Controller} (agent : Agent) (iface : Bytes) (ip : IPv4)
        → Honest agent
        → Run c
        → Run (add_route agent iface ip c)
    -- The first line of `UpdateConfig`
    configured :
        {c : Controller} (dynamic : RoutingDynamic)
        → Run c
        → Run (record c { cfg = record c.cfg { dynamic = dynamic } })
    -- The three parts of `reconcile`, which keep to the configuration that was loaded first, while
    -- `UpdateConfig` may put another in its place. The last looks into the store for each route, and
    -- queries may store records between: what the look-ups find is left open, and what is stored
    -- meanwhile may as well be stored afterwards, since nothing else of it reads the store.
    expired :
        {c : Controller} (now extra_ttl : ℕ)
        → Run c
        → Run (record c { store = Store.remove_expired now extra_ttl c.store })
    ruled : {c : Controller} (agent : Agent) → Run c → Run (reconcile_rules agent c)
    reconciled :
        {c : Controller} (agent : Agent) (found : IpRoute → Bool) (defined : Set IpRoute)
        (dynamic : RoutingDynamic)
        → Honest agent
        → Run c
        → load_routes agent parse_ipv6 c.cfg.rule.table ≡ returns defined
        → Run
            (record (reconcile_finding agent found defined
              (record c { cfg = record c.cfg { dynamic = dynamic } })) { cfg = c.cfg })
