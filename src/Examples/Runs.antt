-- ===== src/Examples/Runs.antt =====
-- A server that starts without a file, gets a query and reconciles.
use keenetic_dns.Prelude.{
  ℕ, ◌≡◌, refl, subst, Option, none, some, some_injective, [], ◌∷◌, ◌++◌, List, All, Bytes, arith,
}
use keenetic_dns.GoMap
use keenetic_dns.Util.Set
use keenetic_dns.Types.{returns}
use keenetic_dns.Types.Record.{DnsRecord}
use keenetic_dns.MultiMap.{all_values}
use keenetic_dns.Store
use keenetic_dns.Store.{Codec, not_exist, new_dns_store}
use keenetic_dns.Store.Invariant.{Sound}
use keenetic_dns.Routes.{
  IpRoute, route_eq, Controller, Request, reconcile_with, new_controller, route_added, add_route,
  init, init_routes, reconcile, reconcile_routes, reconcile_rules, load_routes, parse_routes,
  live_routes, static_routes_of, want_all, want, send_add, delete_all,
}
use keenetic_dns.Routes.Requests.{among, wanted}
use keenetic_dns.Routes.Converge.{applied_all, reconcile_converges}
use keenetic_dns.Routes.Stable.{reconcile_again}
use keenetic_dns.Service.{Service, resolved, resolve}
use keenetic_dns.Service.Resolve.{resolve_remembers}
use keenetic_dns.Run.{start, Run, started, stored, asked}
use keenetic_dns.Run.Invariant.{Honest, Own}
use keenetic_dns.Run.Safety.{run_safe}
use keenetic_dns.Run.Methods.{resolve-Run}
use keenetic_dns.Examples.Answers.{query, reply}
use keenetic_dns.Examples.Answers
use keenetic_dns.Examples.Records.{codec}
use keenetic_dns.Examples.Queries.{
  idle_agent, no_routing, show, provider, started-Ready, in_order, one_question, reply_ok,
}
use keenetic_dns.Examples.Queries
use keenetic_dns.Examples.Routing.{host, agent, controller, stale}

abbrev no_ipv6 : Bytes → Option Bytes
no_ipv6 s = none

idle_agent-Honest : Honest idle_agent
idle_agent-Honest table its e = subst (All (λ it. it.table ≡ table)) (some_injective e) tt

abbrev static_route : IpRoute
static_route = record { table = 100; iface = b't' ∷ []; addr = host 9 }

-- The server has asked for the static route.
abbrev first : Controller
first = record controller {
  routes = (static_route, tt) ∷ [];
  requests = route_added static_route ∷ [];
}

first_step : start codec not_exist idle_agent no_ipv6 50 controller.cfg ≡ returns first
unfolding start init init_routes new_controller reconcile reconcile_routes reconcile_rules
    reconcile_with load_routes parse_routes live_routes static_routes_of want_all want send_add
    delete_all Store.load Store.records Store.remove_expired Store.remove_each Set.add GoMap.put
    GoMap.has GoMap.delete all_values
first_step = refl

-- Behind it, a route is asked for and a record stored.
abbrev asked_for : Controller
asked_for = add_route idle_agent (b'u' ∷ []) (host 7) first

abbrev remembered : DnsRecord
remembered = record { ip = host 7; domain = b'a' ∷ []; expires = 90 }

run_safe_example :
    All (Own controller.cfg.rule) asked_for.requests × Sound (Store.add remembered asked_for.store)
run_safe_example = run_safe (omega arith) (
    stored remembered (
      asked idle_agent (b'u' ∷ []) (host 7) idle_agent-Honest
        (started idle_agent not_exist 50 idle_agent-Honest first_step)))

reconcile_converges_example :
    (sent : List Request) × ((reconcile_with agent 50 stale controller).requests ≡ [] ++ sent)
    × ((x : IpRoute)
        → GoMap.has x (applied_all agent stale sent) ≡ among (wanted agent 50 controller) x)
reconcile_converges_example = reconcile_converges agent 50 stale controller (λ r. refl) (λ r. refl)

abbrev new_service : Service ℕ
new_service = Queries.started

fresh_step : start codec not_exist idle_agent no_ipv6 0 no_routing ≡ returns new_service.controller
unfolding start init init_routes new_controller reconcile reconcile_routes reconcile_rules
    reconcile_with load_routes parse_routes live_routes static_routes_of want_all want send_add
    delete_all Store.load Store.records Store.remove_expired Store.remove_each Set.add GoMap.put
    GoMap.has GoMap.delete all_values
fresh_step = refl

abbrev first_query :
    (s : Service ℕ) × (resolve idle_agent show provider (0, 2000) (0, 2005) [] query new_service
      ≡ some (resolved reply, s))
first_query =
    let (s, f, e, texts, led, kept) =
      resolve_remembers idle_agent show provider new_service [] [] 1000 0 2000 0 2005 [] query reply
        Answers.asked [] started-Ready in_order one_question refl refl reply_ok in
    (s, e)

resolve-Run_example : Run codec no_ipv6 no_routing Honest first_query.0.controller
resolve-Run_example =
    resolve-Run idle_agent idle_agent-Honest show provider (0, 2000) (0, 2005) [] query new_service
      first_query.0 (resolved reply) (started idle_agent not_exist 0 idle_agent-Honest fresh_step)
      first_query.1

reconcile_again_example :
    let s' = reconcile_with agent 50 stale controller in
    (sent : List Request) × (s'.requests ≡ [] ++ sent)
    × ((reconcile_with agent 50 (applied_all agent stale sent) s').requests ≡ s'.requests)
reconcile_again_example = reconcile_again agent 50 stale controller (λ r. refl) (λ r. refl)
