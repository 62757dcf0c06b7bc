-- ===== src/Examples/Routing.antt =====
-- A controller with a static route: the examples for dns-server/internal/ip_routes.go.
use keenetic_dns.Prelude.{ℕ, ◌≡◌, some, true, not, [], ◌∷◌, ◌++◌, map, keep}
use keenetic_dns.GoMap
use keenetic_dns.Util.Set
use keenetic_dns.Util.Set.{Set}
use keenetic_dns.Types.{IPv4}
use keenetic_dns.Store.{new_dns_store}
use keenetic_dns.Routes.{
  IpRoute, route_eq, Agent, Controller, reconcile_with, route_added, route_deleted,
}
use keenetic_dns.Routes.Requests.{among, wanted, reconcile_with-requests}

abbrev pub host : ℕ → IPv4
host n = record { a = 10; b = 0; c = 0; d = n; prefix = 32 }

abbrev pub agent : Agent
agent = record {
  accepts_route = λ r. true;
  accepts_delete = λ r. true;
  list_routes = λ t. some [];
  has_rule = λ r. some true;
}

-- The static route of 10.0.0.9 goes through "t".
abbrev pub controller : Controller
controller = record {
  cfg = record {
    rule = record { table = 100; iif = b'b' ∷ []; priority = 5 };
    dynamic = record {
      route_timeout = 60;
      hosts = [];
      static_routes = (b't' ∷ [], host 9 ∷ []) ∷ [];
    };
  };
  table_id = 100;
  store = new_dns_store;
  routes = [];
  requests = [];
}

-- The agent's table has a route that nobody wants.
abbrev pub stale : Set IpRoute
stale = (record { table = 100; iface = b't' ∷ []; addr = host 4 }, tt) ∷ []

reconcile_with-requests_example :
    (reconcile_with agent 50 stale controller).requests
    ≡ []
      ++ map route_added (keep (λ r. not (GoMap.has r stale)) (wanted agent 50 controller))
      ++ map route_deleted
          (keep (λ r. not (among (wanted agent 50 controller) r)) (Set.values stale))
reconcile_with-requests_example = reconcile_with-requests agent 50 stale controller
