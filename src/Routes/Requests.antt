-- ===== src/Routes/Requests.antt =====
-- What `AddRoute` and `reconcileRoutes` of dns-server/internal/ip_routes.go ask the agent for.
use keenetic_dns.Prelude.{
  ℕ, ◌≡◌, refl, sym, subst, ap, ap₂, ◌∙◌, Bool, true, false, not, ◌&&◌, List, [], ◌∷◌, ◌++◌, map,
  keep, Bytes, ◌=?◌, any, Bool-cases, inl, inr, append_assoc, append-nil, In, here, there,
}
use keenetic_dns.GoMap
use keenetic_dns.GoMap.{Map, get}
use keenetic_dns.Util.Set
use keenetic_dns.Util.Set.{Set}
use keenetic_dns.Types.{IPv4}
use keenetic_dns.Routes.{
  IpRoute, route_eq, route_beq_iff, Agent, route_added, route_deleted, Controller, send_add,
  send_delete, add_route, want, want_all, delete_all, live_routes, static_routes_of, reconcile_with,
  map_to_agent_route,
}

module _ {ℓ} {A : Type ℓ} where
  keep_same :
      (p q : A → Bool) (xs : List A) → ((x : A) → In x xs → p x ≡ q x) → keep p xs ≡ keep q xs
  keep_same p q [] h = refl
  keep_same p q (x ∷ xs) h =
      let rest = keep_same p q xs (λ y i. h y (there i)) in rw (h x (here refl), rest) refl

  keep-true : (p : A → Bool) (xs : List A) → ((x : A) → p x ≡ true) → keep p xs ≡ xs
  keep-true p [] h = refl
  keep-true p (x ∷ xs) h = rw (h x, keep-true p xs h) refl

  keep-keep : (p q : A → Bool) (xs : List A) → keep p (keep q xs) ≡ keep (λ x. q x && p x) xs
  keep-keep p q [] = refl
  keep-keep p q (x ∷ xs) = elim (Bool-cases (q x)) [
    | inl e ↦ elim (Bool-cases (p x)) [
      | inl f ↦ rw (e, f, keep-keep p q xs) refl
      | inr f ↦ rw (e, f, keep-keep p q xs) refl
    ]
    | inr e ↦ rw (e, keep-keep p q xs) refl
  ]

-- A route is one of a list.
abbrev pub among : List IpRoute → IpRoute → Bool
among rs x = any (λ r. x =? r) rs

-- A route is one of a list that are defined.
abbrev dropped : Set IpRoute → List IpRoute → IpRoute → Bool
dropped defined rs x = any (λ r. (x =? r) && GoMap.has r defined) rs

values-delete :
    (r : IpRoute) (m : Set IpRoute)
    → Set.values (GoMap.delete r m) ≡ keep (λ x. not (x =? r)) (Set.values m)
unfolding GoMap.delete
values-delete r [] = refl
values-delete r ((x, v) ∷ m) = elim (Bool-cases (x =? r)) [
  | inl e ↦ rw (e, values-delete r m) refl
  | inr e ↦ rw (e, values-delete r m) refl
]

dropped_defined :
    (defined : Set IpRoute) (r : IpRoute) (rs : List IpRoute) (x : IpRoute)
    → GoMap.has r defined ≡ true
    → (not (x =? r) && not (dropped defined rs x)) ≡ not (dropped defined (r ∷ rs) x)
dropped_defined defined r rs x h = elim (Bool-cases (x =? r)) [
  | inl e ↦ rw (e, h) refl
  | inr e ↦ rw (e) refl
]

dropped_missing :
    (defined : Set IpRoute) (r : IpRoute) (rs : List IpRoute) (x : IpRoute)
    → GoMap.has r defined ≡ false
    → not (dropped defined rs x) ≡ not (dropped defined (r ∷ rs) x)
dropped_missing defined r rs x h = elim (Bool-cases (x =? r)) [
  | inl e ↦ rw (e, h) refl
  | inr e ↦ rw (e) refl
]

module _ (agent : Agent) where
  send_add-requests :
      (r : IpRoute) (s : Controller)
      → (send_add agent r s).requests ≡ s.requests ++ route_added r ∷ []
  unfolding send_add
  send_add-requests r s = elim (Bool-cases (agent.accepts_route (map_to_agent_route r))) [
    | inl e ↦ rw (send_add, e) refl
    | inr e ↦ rw (send_add, e) refl
  ]

  send_delete-requests :
      (r : IpRoute) (s : Controller)
      → (send_delete agent r s).requests ≡ s.requests ++ route_deleted r ∷ []
  unfolding send_delete
  send_delete-requests r s = elim (Bool-cases (agent.accepts_delete (map_to_agent_route r))) [
    | inl e ↦ rw (send_delete, e) refl
    | inr e ↦ rw (send_delete, e) refl
  ]

  delete_all-requests :
      (rs : List IpRoute) (s : Controller)
      → (delete_all agent rs s).requests ≡ s.requests ++ map route_deleted rs
  unfolding delete_all
  delete_all-requests [] s = sym (append-nil s.requests)
  delete_all-requests (r ∷ rs) s =
      delete_all-requests rs (send_delete agent r s)
      ∙ ap (λ l. l ++ map route_deleted rs) (send_delete-requests r s)
      ∙ append_assoc s.requests (route_deleted r ∷ []) (map route_deleted rs)

  want_defined :
      (defined : Set IpRoute) (r : IpRoute) (unknown : Set IpRoute) (s : Controller)
      → GoMap.has r defined ≡ true
      → want agent defined r (unknown, s) ≡ (GoMap.delete r unknown, s)
  unfolding want
  want_defined defined r unknown s h = rw (want, h) refl

  want_missing :
      (defined : Set IpRoute) (r : IpRoute) (unknown : Set IpRoute) (s : Controller)
      → GoMap.has r defined ≡ false
      → want agent defined r (unknown, s) ≡ (unknown, send_add agent r s)
  unfolding want
  want_missing defined r unknown s h = rw (want, h) refl

  want_all-unknown :
      (defined : Set IpRoute) (rs : List IpRoute) (unknown : Set IpRoute) (s : Controller)
      → Set.values (want_all agent defined rs (unknown, s)).0
        ≡ keep (λ x. not (dropped defined rs x)) (Set.values unknown)
  unfolding want_all
  want_all-unknown defined [] unknown s =
      sym (keep-true (λ x. not false) (Set.values unknown) (λ x. refl))
  want_all-unknown defined (r ∷ rs) unknown s = elim (Bool-cases (GoMap.has r defined)) [
    | inl h ↦
        let q : IpRoute → Bool = λ x. not (dropped defined rs x) in
        ap (λ st. Set.values (want_all agent defined rs st).0) (want_defined defined r unknown s h)
        ∙ want_all-unknown defined rs (GoMap.delete r unknown) s
        ∙ ap (keep q) (values-delete r unknown)
        ∙ keep-keep q (λ x. not (x =? r)) (Set.values unknown)
        ∙ keep_same _ (λ x. not (dropped defined (r ∷ rs) x)) (Set.values unknown)
            (λ x i. dropped_defined defined r rs x h)
    | inr h ↦
        ap (λ st. Set.values (want_all agent defined rs st).0) (want_missing defined r unknown s h)
        ∙ want_all-unknown defined rs unknown (send_add agent r s)
        ∙ keep_same (λ x. not (dropped defined rs x)) (λ x. not (dropped defined (r ∷ rs) x))
            (Set.values unknown) (λ x i. dropped_missing defined r rs x h)
  ]

  want_all-requests :
      (defined : Set IpRoute) (rs : List IpRoute) (unknown : Set IpRoute) (s : Controller)
      → (want_all agent defined rs (unknown, s)).1.requests
        ≡ s.requests ++ map route_added (keep (λ r. not (GoMap.has r defined)) rs)
  unfolding want_all
  want_all-requests defined [] unknown s = sym (append-nil s.requests)
  want_all-requests defined (r ∷ rs) unknown s = elim (Bool-cases (GoMap.has r defined)) [
    | inl h ↦ rw (h) (
        ap (λ st. (want_all agent defined rs st).1.requests) (want_defined defined r unknown s h)
        ∙ want_all-requests defined rs (GoMap.delete r unknown) s)
    | inr h ↦ rw (h) (
        ap (λ st. (want_all agent defined rs st).1.requests) (want_missing defined r unknown s h)
        ∙ want_all-requests defined rs unknown (send_add agent r s)
        ∙ ap (λ l. l ++ map route_added (keep (λ x. not (GoMap.has x defined)) rs))
            (send_add-requests r s)
        ∙ append_assoc s.requests (route_added r ∷ []) _)
  ]

pub has_of_In : (m : Set IpRoute) (x : IpRoute) → In x (Set.values m) → GoMap.has x m ≡ true
unfolding GoMap.has
has_of_In [] x i = elim i [ ]
has_of_In ((y, v) ∷ m) x (here e) = rw ((route_beq_iff y x).1 (sym e)) refl
has_of_In ((y, v) ∷ m) x (there i) = elim (Bool-cases (y =? x)) [
  | inl e ↦ rw e refl
  | inr e ↦ rw (e) (has_of_In m x i)
]

dropped-among :
    (defined : Set IpRoute) (rs : List IpRoute) (x : IpRoute)
    → GoMap.has x defined ≡ true
    → dropped defined rs x ≡ among rs x
dropped-among defined [] x h = refl
dropped-among defined (r ∷ rs) x h = elim (Bool-cases (x =? r)) [
  | inl e ↦
      let k : GoMap.has r defined ≡ true =
        subst (λ z. GoMap.has z defined ≡ true) ((route_beq_iff x r).0 e) h in
      rw (e, k) refl
  | inr e ↦ rw (e, dropped-among defined rs x h) refl
]

-- The routes that the agent should have.
abbrev pub wanted : Agent → ℕ → Controller → List IpRoute
wanted agent now s =
    live_routes agent now s ++ static_routes_of agent s.cfg.rule.table s.cfg.dynamic.static_routes

-- What is left of the defined routes are those that are not among the others.
pub want_all_surplus :
    (agent : Agent) (defined : Set IpRoute) (ws : List IpRoute) (s : Controller)
    → Set.values (want_all agent defined ws (defined, s)).0
      ≡ keep (λ r. not (among ws r)) (Set.values defined)
want_all_surplus agent defined ws s =
    want_all-unknown agent defined ws defined s
    ∙ keep_same (λ x. not (dropped defined ws x)) (λ x. not (among ws x)) (Set.values defined)
        (λ x i. ap not (dropped-among defined ws x (has_of_In defined x i)))

-- Whatever the agent answers, a reconciliation with the routes of its table asks it to add exactly
-- the wanted routes that are missing there, and then to delete exactly the routes there that are not
-- wanted.
pub reconcile_with-requests :
    (agent : Agent) (now : ℕ) (defined : Set IpRoute) (s : Controller)
    → let ws = wanted agent now s in
      (reconcile_with agent now defined s).requests
      ≡ s.requests
        ++ map route_added (keep (λ r. not (GoMap.has r defined)) ws)
        ++ map route_deleted (keep (λ r. not (among ws r)) (Set.values defined))
unfolding reconcile_with
reconcile_with-requests agent now defined s =
    let ws = wanted agent now s in
    let p = want_all agent defined ws (defined, s) in
    delete_all-requests agent (Set.values p.0) p.1
    ∙ ap₂ (λ l m. l ++ map route_deleted m) (want_all-requests agent defined ws defined s)
        (want_all_surplus agent defined ws s)

has-put : (r : IpRoute) (m : Set IpRoute) → GoMap.has r (GoMap.put r tt m) ≡ true
unfolding GoMap.has GoMap.put
has-put r m = rw ((route_beq_iff r r).1 refl) refl

has-insert_route : (r : IpRoute) (m : Set IpRoute) → Set.has r (Set.insert r m) ≡ true
unfolding Set.has Set.add
has-insert_route r m = elim (Bool-cases (GoMap.has r m)) [
  | inl h ↦ rw (Set.insert, Set.add, h) h
  | inr h ↦ rw (Set.insert, Set.add, h) (has-put r m)
]

module _ (agent : Agent) (iface : Bytes) (ip : IPv4) where
  add_route_known :
      (s : Controller)
      → Set.has (record { table = s.table_id; iface = iface; addr = ip }) s.routes ≡ true
      → add_route agent iface ip s ≡ s
  unfolding add_route
  add_route_known s h = rw (add_route, h) refl

  add_route_new :
      (s : Controller)
      → let r : IpRoute = record { table = s.table_id; iface = iface; addr = ip } in
        Set.has r s.routes ≡ false
        → agent.accepts_route (map_to_agent_route r) ≡ true
        → add_route agent iface ip s
          ≡ record s { requests = s.requests ++ route_added r ∷ []; routes = Set.insert r s.routes }
  unfolding add_route send_add
  add_route_new s h k = rw (add_route, h) (rw (send_add, k) refl)

  -- A route that the agent accepts is asked for once: `AddRoute` of the same address does nothing
  -- more.
  pub add_route-add_route :
      (s : Controller)
      → agent.accepts_route
          (map_to_agent_route (record { table = s.table_id; iface = iface; addr = ip }))
        ≡ true
      → add_route agent iface ip (add_route agent iface ip s) ≡ add_route agent iface ip s
  add_route-add_route s k =
      elim (Bool-cases
        (Set.has (record { table = s.table_id; iface = iface; addr = ip }) s.routes)) [
          | inl h ↦ ap (add_route agent iface ip) (add_route_known s h)
          | inr h ↦ rw (add_route_new s h k) (
              add_route_known _ (
                has-insert_route (record { table = s.table_id; iface = iface; addr = ip })
                  s.routes))
        ]
