-- ===== src/Routes/Stable.antt =====
-- A reconciliation of dns-server/internal/ip_routes.go that follows another one has nothing to do.
use keenetic_dns.Prelude.{
  ℕ, ◌≡◌, refl, sym, ap, ap₂, ◌∙◌, subst, Bool, true, false, not, ◌&&◌, ◌||◌, List, [], ◌∷◌, ◌++◌,
  map, keep, any_of_In, In, here, there, append-nil, ◌=?◌, Bool-cases, inl, inr, length, ◌==◌,
  arith,
}
use keenetic_dns.GoMap
use keenetic_dns.Util.Set
use keenetic_dns.Util.Set.{Set}
use keenetic_dns.Store
use keenetic_dns.Routes.{
  IpRoute, route_eq, route_beq_iff, Agent, Request, route_added, route_deleted, Controller,
  reconcile_with, map_to_agent_route, send_add, send_delete, want, want_all, delete_all,
  live_routes, static_routes_of, remove_expired_records,
}
use keenetic_dns.Routes.Requests.{
  among, wanted, reconcile_with-requests, want_all_surplus, has_of_In,
}
use keenetic_dns.Routes.Converge.{
  applied_all, has-put_route, has-delete_route, among-keep, among-values, reconcile_converges,
}

-- Whether a route has a record that has not expired.
abbrev alive : ℕ → Controller → IpRoute → Bool
alive now s r = not (
    length (remove_expired_records now s.cfg.dynamic.route_timeout (Store.lookup_ip r.addr s.store))
    == 0)

among-append :
    (rs ss : List IpRoute) (x : IpRoute) → among (rs ++ ss) x ≡ (among rs x || among ss x)
among-append [] ss x = refl
among-append (r ∷ rs) ss x = ground (arith, among-append rs ss x)

has-insert :
    (x r : IpRoute) (m : Set IpRoute) → GoMap.has x (Set.insert r m) ≡ ((x =? r) || GoMap.has x m)
unfolding Set.add
has-insert x r m = elim (Bool-cases (GoMap.has r m)) [
  | inr h ↦ rw (Set.insert, Set.add, h) (has-put_route x r m)
  | inl h ↦
      rw (Set.insert, Set.add, h)
        (elim (Bool-cases (x =? r)) [
          | inl e ↦ rw e (subst (λ z. GoMap.has z m ≡ true) (sym ((route_beq_iff x r).0 e)) h)
          | inr e ↦ rw e refl
        ])
]

has-remove :
    (x r : IpRoute) (m : Set IpRoute)
    → GoMap.has x (Set.remove r m) ≡ (not (x =? r) && GoMap.has x m)
unfolding Set.remove
has-remove x r m = has-delete_route x r m

module _ (agent : Agent) (adds : (r : IpRoute) → agent.accepts_route (map_to_agent_route r) ≡ true)
    (deletes : (r : IpRoute) → agent.accepts_delete (map_to_agent_route r) ≡ true) where
  send_add_accepted :
      (r : IpRoute) (s : Controller)
      → send_add agent r s
        ≡ record s { requests = s.requests ++ route_added r ∷ []; routes = Set.insert r s.routes }
  unfolding send_add
  send_add_accepted r s = rw (send_add, adds r) refl

  send_delete_accepted :
      (r : IpRoute) (s : Controller)
      → send_delete agent r s
        ≡ record s { requests = s.requests ++ route_deleted r ∷ []; routes = Set.remove r s.routes }
  unfolding send_delete
  send_delete_accepted r s = rw (send_delete, deletes r) refl

  -- What a step leaves of the configuration and the store.
  abbrev Same : Controller → Controller → Type 0
  Same s t = (t.cfg ≡ s.cfg) × (t.store ≡ s.store)

  want_all-Same :
      (defined unknown : Set IpRoute) (rs : List IpRoute) (s : Controller)
      → Same s (want_all agent defined rs (unknown, s)).1
  unfolding want_all want
  want_all-Same defined unknown [] s = (refl, refl)
  want_all-Same defined unknown (r ∷ rs) s = elim (Bool-cases (GoMap.has r defined)) [
    | inl e ↦ rw (want_all, want, e) (want_all-Same defined (GoMap.delete r unknown) rs s)
    | inr e ↦ rw (want_all, want, e, send_add_accepted r s) (want_all-Same defined unknown rs _)
  ]

  delete_all-Same : (rs : List IpRoute) (s : Controller) → Same s (delete_all agent rs s)
  unfolding delete_all
  delete_all-Same [] s = (refl, refl)
  delete_all-Same (r ∷ rs) s = rw (delete_all, send_delete_accepted r s) (delete_all-Same rs _)

  want_all_routes :
      (defined unknown : Set IpRoute) (rs : List IpRoute) (s : Controller) (x : IpRoute)
      → GoMap.has x (want_all agent defined rs (unknown, s)).1.routes
        ≡ (GoMap.has x s.routes || (among rs x && not (GoMap.has x defined)))
  unfolding want_all want
  want_all_routes defined unknown [] s x = ground arith
  want_all_routes defined unknown (r ∷ rs) s x = elim (Bool-cases (GoMap.has r defined)) [
    | inl e ↦
        rw (want_all, want, e)
          (want_all_routes defined (GoMap.delete r unknown) rs s x ∙ (elim (Bool-cases (x =? r)) [
            | inr f ↦ rw f refl
            | inl f ↦
                let d : GoMap.has x defined ≡ true =
                  subst (λ z. GoMap.has z defined ≡ true) (sym ((route_beq_iff x r).0 f)) e in
                rw (f, d) (ground arith)
          ]))
    | inr e ↦
        rw (want_all, want, e, send_add_accepted r s)
          (want_all_routes defined unknown rs _ x ∙ (elim (Bool-cases (x =? r)) [
            | inr f ↦ rw (has-insert x r s.routes, f) refl
            | inl f ↦
                let d : GoMap.has x defined ≡ false =
                  subst (λ z. GoMap.has z defined ≡ false) (sym ((route_beq_iff x r).0 f)) e in
                rw (has-insert x r s.routes, f, d) (ground arith)
          ]))
  ]

  delete_all_routes :
      (rs : List IpRoute) (s : Controller) (x : IpRoute)
      → GoMap.has x (delete_all agent rs s).routes ≡ (not (among rs x) && GoMap.has x s.routes)
  unfolding delete_all
  delete_all_routes [] s x = refl
  delete_all_routes (r ∷ rs) s x =
      rw (delete_all, send_delete_accepted r s)
        (delete_all_routes rs _ x ∙ ground (arith, has-remove x r s.routes))

  among-wanted :
      (now : ℕ) (s : Controller) (x : IpRoute)
      → among (wanted agent now s) x ≡ (
          (GoMap.has x s.routes && alive now s x)
          || among (static_routes_of agent s.cfg.rule.table s.cfg.dynamic.static_routes) x)
  unfolding live_routes
  among-wanted now s x =
      among-append _ _ x
      ∙ ap (λ b. b || among (static_routes_of agent s.cfg.rule.table s.cfg.dynamic.static_routes) x)
          (among-keep (alive now s) (Set.values s.routes) x
            ∙ ap (λ b. b && alive now s x) (among-values s.routes x))

  reconcile_routes_left :
      (now : ℕ) (table : Set IpRoute) (s : Controller) (x : IpRoute)
      → GoMap.has x (reconcile_with agent now table s).routes ≡ (
          not (GoMap.has x table && not (among (wanted agent now s) x))
          && (GoMap.has x s.routes || (among (wanted agent now s) x && not (GoMap.has x table))))
  unfolding reconcile_with
  reconcile_routes_left now table s x =
      let ws = wanted agent now s in
      let (unknown, t) = want_all agent table ws (table, s) in
      delete_all_routes (Set.values unknown) t x
      ∙ ap₂ (λ b c. not b && c)
          (ap (λ l. among l x) (want_all_surplus agent table ws s)
            ∙ among-keep (λ r. not (among ws r)) (Set.values table) x
            ∙ ap (λ b. b && not (among ws x)) (among-values table x))
          (want_all_routes table table ws s x)

  reconcile_with-Same :
      (now : ℕ) (table : Set IpRoute) (s : Controller) → Same s (reconcile_with agent now table s)
  unfolding reconcile_with
  reconcile_with-Same now table s =
      let ws = wanted agent now s in
      let (a, b) = want_all-Same table table ws s in
      let (c, d) =
        delete_all-Same (Set.values (want_all agent table ws (table, s)).0)
          (want_all agent table ws (table, s)).1 in
      (c ∙ a, d ∙ b)

  -- What is wanted stays wanted, and nothing else becomes so.
  wanted_same :
      (now : ℕ) (table : Set IpRoute) (s : Controller) (x : IpRoute)
      → among (wanted agent now (reconcile_with agent now table s)) x ≡ among (wanted agent now s) x
  wanted_same now table s x =
      let s' = reconcile_with agent now table s in
      let (cfg_same, store_same) = reconcile_with-Same now table s in
      let alive_same : alive now s' x ≡ alive now s x =
        ap₂
          (λ c st. not (
            length (remove_expired_records now c.dynamic.route_timeout (Store.lookup_ip x.addr st))
            == 0))
          cfg_same store_same in
      let static_same : among
            (static_routes_of agent s'.cfg.rule.table s'.cfg.dynamic.static_routes) x
          ≡ among (static_routes_of agent s.cfg.rule.table s.cfg.dynamic.static_routes) x =
        ap (λ c. among (static_routes_of agent c.rule.table c.dynamic.static_routes) x) cfg_same in
      among-wanted now s' x
      ∙ ground (
        arith,
        among-wanted now s x,
        alive_same,
        static_same,
        reconcile_routes_left now table s x,
      )

keep_none :
    (p : IpRoute → Bool) (xs : List IpRoute)
    → ((x : IpRoute) → In x xs → p x ≡ false)
    → keep p xs ≡ []
keep_none p [] h = refl
keep_none p (x ∷ xs) h = rw (h x (here refl)) (keep_none p xs (λ y i. h y (there i)))

among_of_In : (rs : List IpRoute) (x : IpRoute) → In x rs → among rs x ≡ true
among_of_In rs x i = any_of_In (λ r. x =? r) rs i ((route_beq_iff x x).1 refl)

-- After a reconciliation with the routes of the agent's table, all of whose requests the agent
-- accepts, another one at the same time with the table as the requests left it sends nothing.
pub reconcile_again :
    (agent : Agent) (now : ℕ) (table : Set IpRoute) (s : Controller)
    → ((r : IpRoute) → agent.accepts_route (map_to_agent_route r) ≡ true)
    → ((r : IpRoute) → agent.accepts_delete (map_to_agent_route r) ≡ true)
    → let s' = reconcile_with agent now table s in
      (sent : List Request) × (s'.requests ≡ s.requests ++ sent)
      × ((reconcile_with agent now (applied_all agent table sent) s').requests ≡ s'.requests)
reconcile_again agent now table s adds deletes =
    let s' = reconcile_with agent now table s in
    let ws' = wanted agent now s' in
    let (sent, e, exact) = reconcile_converges agent now table s adds deletes in
    let table' = applied_all agent table sent in
    let same : (x : IpRoute) → GoMap.has x table' ≡ among ws' x =
      λ x. exact x ∙ sym (wanted_same agent adds deletes now table s x) in
    let missing : keep (λ r. not (GoMap.has r table')) ws' ≡ [] =
      keep_none _ ws' (λ x i. ap not (same x ∙ among_of_In ws' x i)) in
    let surplus : keep (λ r. not (among ws' r)) (Set.values table') ≡ [] =
      keep_none _ (Set.values table') (λ x i. ap not (sym (same x) ∙ has_of_In table' x i)) in
    (
      sent,
      e,
      reconcile_with-requests agent now table' s'
          ∙ ap₂ (λ l m. s'.requests ++ map route_added l ++ map route_deleted m) missing surplus
          ∙ ap (λ l. l ++ []) (append-nil s'.requests)
          ∙ append-nil s'.requests,
    )
