-- ===== src/Routes/Converge.antt =====
-- What `reconcile` of dns-server/internal/ip_routes.go makes of the agent's table.
use keenetic_dns.Prelude.{
  ℕ, ◌≡◌, refl, sym, ap, ◌∙◌, subst, Bool, true, false, not, ◌&&◌, ◌||◌, List, [], ◌∷◌, ◌++◌, map,
  keep, append_assoc, ◌=?◌, Bool-cases, inl, inr, if◌then◌else◌, arith,
}
use keenetic_dns.GoMap
use keenetic_dns.GoMap.{Map, get}
use keenetic_dns.GoMap.Laws.{get-delete, get-put, has-get}
use keenetic_dns.Util.Set
use keenetic_dns.Util.Set.{Set}
use keenetic_dns.Routes.{
  IpRoute, route_eq, route_beq_iff, Agent, Request, route_added, route_deleted, rule_added,
  Controller, reconcile_with, map_to_agent_route,
}
use keenetic_dns.Routes.Requests.{among, wanted, reconcile_with-requests}

-- The agent's table after a request: it takes effect if the agent accepts it.
abbrev pub applied : Agent → Set IpRoute → Request → Set IpRoute
applied agent table (route_added r) =
    if agent.accepts_route (map_to_agent_route r) then GoMap.put r tt table else table
applied agent table (route_deleted r) =
    if agent.accepts_delete (map_to_agent_route r) then GoMap.delete r table else table
applied agent table (rule_added rule) = table

abbrev pub applied_all : Agent → Set IpRoute → List Request → Set IpRoute
applied_all agent table [] = table
applied_all agent table (q ∷ qs) = applied_all agent (applied agent table q) qs

pub has-put_route :
    (x r : IpRoute) (m : Set IpRoute) → GoMap.has x (GoMap.put r tt m) ≡ ((x =? r) || GoMap.has x m)
has-put_route x r m = ground (
  arith,
  has-get x (GoMap.put r tt m),
  has-get x m,
  get-put r x tt m,
  route_beq_iff x r,
  route_beq_iff r x,
)

pub has-delete_route :
    (x r : IpRoute) (m : Set IpRoute)
    → GoMap.has x (GoMap.delete r m) ≡ (not (x =? r) && GoMap.has x m)
has-delete_route x r m = ground (
  arith,
  has-get x (GoMap.delete r m),
  has-get x m,
  get-delete r x m,
  route_beq_iff x r,
  route_beq_iff r x,
)

pub among-keep :
    (p : IpRoute → Bool) (rs : List IpRoute) (x : IpRoute)
    → among (keep p rs) x ≡ (among rs x && p x)
among-keep p [] x = refl
among-keep p (r ∷ rs) x = elim (Bool-cases (x =? r)) [
  | inl e ↦ elim (Bool-cases (p r)) [
    | inl h ↦ rw (h, e, subst (λ z. p z ≡ true) (sym ((route_beq_iff x r).0 e)) h) refl
    | inr h ↦
        let k : p x ≡ false = subst (λ z. p z ≡ false) (sym ((route_beq_iff x r).0 e)) h in
        rw (h, e, k) (among-keep p rs x ∙ rw k (ground arith))
  ]
  | inr e ↦ elim (Bool-cases (p r)) [
    | inl h ↦ rw (h, e) (among-keep p rs x)
    | inr h ↦ rw (h, e) (among-keep p rs x)
  ]
]

pub among-values : (m : Set IpRoute) (x : IpRoute) → among (Set.values m) x ≡ GoMap.has x m
unfolding GoMap.has
among-values [] x = refl
among-values ((y, v) ∷ m) x = ground (arith, among-values m x, route_beq_iff x y, route_beq_iff y x)

module _ (agent : Agent) where
  applied_all-append :
      (ps qs : List Request) (table : Set IpRoute)
      → applied_all agent table (ps ++ qs) ≡ applied_all agent (applied_all agent table ps) qs
  applied_all-append [] qs table = refl
  applied_all-append (p ∷ ps) qs table = applied_all-append ps qs (applied agent table p)

  has-added :
      (accepts : (r : IpRoute) → agent.accepts_route (map_to_agent_route r) ≡ true) (x : IpRoute)
      (rs : List IpRoute) (table : Set IpRoute)
      → GoMap.has x (applied_all agent table (map route_added rs))
        ≡ (among rs x || GoMap.has x table)
  has-added accepts x [] table = refl
  has-added accepts x (r ∷ rs) table =
      ap (λ t. GoMap.has x (applied_all agent t (map route_added rs)))
        (let step : applied agent table (route_added r) ≡ GoMap.put r tt table =
            rw (accepts r) refl in
          step)
      ∙ has-added accepts x rs (GoMap.put r tt table)
      ∙ ground (arith, has-put_route x r table)

  has-deleted :
      (accepts : (r : IpRoute) → agent.accepts_delete (map_to_agent_route r) ≡ true) (x : IpRoute)
      (rs : List IpRoute) (table : Set IpRoute)
      → GoMap.has x (applied_all agent table (map route_deleted rs))
        ≡ (not (among rs x) && GoMap.has x table)
  has-deleted accepts x [] table = refl
  has-deleted accepts x (r ∷ rs) table =
      ap (λ t. GoMap.has x (applied_all agent t (map route_deleted rs)))
        (let step : applied agent table (route_deleted r) ≡ GoMap.delete r table =
            rw (accepts r) refl in
          step)
      ∙ has-deleted accepts x rs (GoMap.delete r table)
      ∙ ground (arith, has-delete_route x r table)

  -- A reconciliation with the routes of the agent's table, all of whose requests the agent accepts,
  -- sends requests that leave in the table exactly the wanted routes.
  pub reconcile_converges :
      (now : ℕ) (table : Set IpRoute) (s : Controller)
      → ((r : IpRoute) → agent.accepts_route (map_to_agent_route r) ≡ true)
      → ((r : IpRoute) → agent.accepts_delete (map_to_agent_route r) ≡ true)
      → (sent : List Request) × ((reconcile_with agent now table s).requests ≡ s.requests ++ sent)
        × ((x : IpRoute)
            → GoMap.has x (applied_all agent table sent) ≡ among (wanted agent now s) x)
  reconcile_converges now table s adds deletes =
      let ws = wanted agent now s in
      let missing = keep (λ r. not (GoMap.has r table)) ws in
      let surplus = keep (λ r. not (among ws r)) (Set.values table) in
      (
        map route_added missing ++ map route_deleted surplus,
        reconcile_with-requests agent now table s ∙ append_assoc s.requests _ _,
        λ x.
            ap (GoMap.has x)
              (applied_all-append (map route_added missing) (map route_deleted surplus) table)
            ∙ has-deleted deletes x surplus _
            ∙ ground (
              arith,
              has-added adds x missing table,
              among-keep (λ r. not (GoMap.has r table)) ws x,
              among-keep (λ r. not (among ws r)) (Set.values table) x,
              among-values table x,
            ),
      )
