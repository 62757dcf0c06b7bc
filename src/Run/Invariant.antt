-- ===== src/Run/Invariant.antt =====
-- The invariant of the controller of dns-server/internal/ip_routes.go, which the operations on its
-- routes keep.
use keenetic_dns.Prelude.{
  ℕ, ◌≡◌, sym, ap, subst, some, List, [], ◌∷◌, ◌++◌, All, All-append, All-keep, keep, Bool, Bytes,
  Bool-cases, inl, inr,
}
use keenetic_dns.GoMap
use keenetic_dns.Util.Set
use keenetic_dns.Util.Set.{Set}
use keenetic_dns.Types.{IPv4}
use keenetic_dns.Store.Invariant.{Sound}
use keenetic_dns.Config.{RoutingConfig, RoutingRule}
use keenetic_dns.Routes.{
  IpRoute, route_eq, AgentRoute, Agent, Request, route_added, route_deleted, rule_added, Controller,
  map_to_agent_route, map_to_agent_rule, send_add, send_delete, add_route, want, want_all,
  delete_all, static_routes_of,
}
use keenetic_dns.Run.{reconcile_finding}
use keenetic_dns.Run.Tables.{
  OfTable, delete-OfTable, remove-OfTable, insert-OfTable, static-OfTable,
}

-- The agent lists the routes of the table that it is asked for.
abbrev pub Honest : Agent → Type 0
Honest agent =
    (table : ℕ) (its : List AgentRoute)
    → agent.list_routes table ≡ some its
    → All (λ it. it.table ≡ table) its

-- A request that concerns the server's own table, or its own rule.
abbrev pub Own : RoutingRule → Request → Type 0
Own rule (route_added r) = r.table ≡ rule.table
Own rule (route_deleted r) = r.table ≡ rule.table
Own rule (rule_added r) = r ≡ map_to_agent_rule rule

-- The controller's invariant.
pub record Kept (rule : RoutingRule) (c : Controller) : Type 0 where
  pub table : c.table_id ≡ rule.table
  pub same_rule : c.cfg.rule ≡ rule
  pub routes : OfTable rule.table (Set.values c.routes)
  pub requests : All (Own rule) c.requests
  pub store : Sound c.store

module _ {rule : RoutingRule} where
  -- A request is sent, and the routes are changed.
  pub sent :
      (q : Request) (routes : Set IpRoute) (c : Controller)
      → Own rule q
      → OfTable rule.table (Set.values routes)
      → Kept rule c
      → Kept rule (record c { requests = c.requests ++ q ∷ []; routes = routes })
  sent q routes c h all v = record {
    table = v.table;
    same_rule = v.same_rule;
    routes = all;
    requests = All-append _ c.requests (q ∷ []) v.requests (h, tt);
    store = v.store;
  }

  pub with_store :
      (store : _) (c : Controller)
      → Sound store
      → Kept rule c
      → Kept rule (record c { store = store })
  with_store store c w v = record {
    table = v.table;
    same_rule = v.same_rule;
    routes = v.routes;
    requests = v.requests;
    store = w;
  }

  pub with_cfg :
      (cfg : RoutingConfig) (c : Controller)
      → cfg.rule ≡ rule
      → Kept rule c
      → Kept rule (record c { cfg = cfg })
  with_cfg cfg c e v = record {
    table = v.table;
    same_rule = e;
    routes = v.routes;
    requests = v.requests;
    store = v.store;
  }

  send_add-Kept :
      (agent : Agent) (r : IpRoute) (c : Controller)
      → r.table ≡ rule.table
      → Kept rule c
      → Kept rule (send_add agent r c)
  unfolding send_add
  send_add-Kept agent r c h v = elim (Bool-cases (agent.accepts_route (map_to_agent_route r))) [
    | inl e ↦
        rw (send_add, e)
          (sent (route_added r) (Set.insert r c.routes) c h
            (insert-OfTable rule.table r c.routes h v.routes) v)
    | inr e ↦ rw (send_add, e) (sent (route_added r) c.routes c h v.routes v)
  ]

  send_delete-Kept :
      (agent : Agent) (r : IpRoute) (c : Controller)
      → r.table ≡ rule.table
      → Kept rule c
      → Kept rule (send_delete agent r c)
  unfolding send_delete
  send_delete-Kept agent r c h v = elim (Bool-cases (agent.accepts_delete (map_to_agent_route r))) [
    | inl e ↦
        rw (send_delete, e)
          (sent (route_deleted r) (Set.remove r c.routes) c h
            (remove-OfTable rule.table r c.routes v.routes) v)
    | inr e ↦ rw (send_delete, e) (sent (route_deleted r) c.routes c h v.routes v)
  ]

  pub add_route-Kept :
      (agent : Agent) (iface : Bytes) (ip : IPv4) (c : Controller)
      → Kept rule c
      → Kept rule (add_route agent iface ip c)
  unfolding add_route
  add_route-Kept agent iface ip c v =
      let r : IpRoute = record { table = c.table_id; iface = iface; addr = ip } in
      elim (Bool-cases (Set.has r c.routes)) [
        | inl e ↦ rw (add_route, e) v
        | inr e ↦ rw (add_route, e) (send_add-Kept agent r c v.table v)
      ]

  want_all-Kept :
      (agent : Agent) (defined unknown : Set IpRoute) (rs : List IpRoute) (c : Controller)
      → OfTable rule.table rs
      → OfTable rule.table (Set.values unknown)
      → Kept rule c
      → let (unknown', c') = want_all agent defined rs (unknown, c) in
        OfTable rule.table (Set.values unknown') × Kept rule c'
  unfolding want_all want
  want_all-Kept agent defined unknown [] c own all v = (all, v)
  want_all-Kept agent defined unknown (r ∷ rs) c (h, own) all v =
      elim (Bool-cases (GoMap.has r defined)) [
        | inl e ↦
            rw (want_all, want, e)
              (want_all-Kept agent defined (GoMap.delete r unknown) rs c own
                (delete-OfTable rule.table r unknown all) v)
        | inr e ↦
            rw (want_all, want, e)
              (want_all-Kept agent defined unknown rs (send_add agent r c) own all
                (send_add-Kept agent r c h v))
      ]

  delete_all-Kept :
      (agent : Agent) (rs : List IpRoute) (c : Controller)
      → OfTable rule.table rs
      → Kept rule c
      → Kept rule (delete_all agent rs c)
  unfolding delete_all
  delete_all-Kept agent [] c own v = v
  delete_all-Kept agent (r ∷ rs) c (h, own) v =
      delete_all-Kept agent rs (send_delete agent r c) own (send_delete-Kept agent r c h v)

  pub reconcile_finding-Kept :
      (agent : Agent) (found : IpRoute → Bool) (defined : Set IpRoute) (c : Controller)
      → OfTable rule.table (Set.values defined)
      → Kept rule c
      → Kept rule (reconcile_finding agent found defined c)
  unfolding reconcile_finding
  reconcile_finding-Kept agent found defined c all v =
      let own : OfTable rule.table (
          keep found (Set.values c.routes)
          ++ static_routes_of agent c.cfg.rule.table c.cfg.dynamic.static_routes) =
        All-append _ _ _ (All-keep _ _ _ v.routes) (
          subst (λ t. OfTable rule.table (static_routes_of agent t c.cfg.dynamic.static_routes))
            (sym (ap (λ z. z.table) v.same_rule))
            (static-OfTable rule.table agent c.cfg.dynamic.static_routes)) in
      let (left, w) = want_all-Kept agent defined defined _ c own all v in
      delete_all-Kept agent _ _ left w
