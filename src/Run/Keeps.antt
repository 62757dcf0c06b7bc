-- ===== src/Run/Keeps.antt =====
-- The reconciliation of dns-server/internal/ip_routes.go leaves the configuration.
use keenetic_dns.Prelude.{
  ℕ, ◌≡◌, refl, sym, ap, ◌∙◌, Option, List, [], ◌∷◌, Bytes, Bool-cases, inl, inr,
}
use keenetic_dns.Types.{returns, fails, panics}
use keenetic_dns.Routes.{
  IpRoute, route_eq, Agent, Controller, map_to_agent_route, send_add, send_delete, want, want_all,
  delete_all, live_routes, reconcile_with, load_routes, reconcile_routes,
}
use keenetic_dns.GoMap
use keenetic_dns.Util.Set.{Set}
use keenetic_dns.Run.{reconcile_finding, found_now}
use keenetic_dns.Run.Tables.{outcome_cases, returns_injective}

module _ (agent : Agent) where
  send_add-cfg : (r : IpRoute) (c : Controller) → (send_add agent r c).cfg ≡ c.cfg
  unfolding send_add
  send_add-cfg r c = elim (Bool-cases (agent.accepts_route (map_to_agent_route r))) [
    | inl e ↦ rw (send_add, e) refl
    | inr e ↦ rw (send_add, e) refl
  ]

  send_delete-cfg : (r : IpRoute) (c : Controller) → (send_delete agent r c).cfg ≡ c.cfg
  unfolding send_delete
  send_delete-cfg r c = elim (Bool-cases (agent.accepts_delete (map_to_agent_route r))) [
    | inl e ↦ rw (send_delete, e) refl
    | inr e ↦ rw (send_delete, e) refl
  ]

  delete_all-cfg : (rs : List IpRoute) (c : Controller) → (delete_all agent rs c).cfg ≡ c.cfg
  unfolding delete_all
  delete_all-cfg [] c = refl
  delete_all-cfg (r ∷ rs) c = delete_all-cfg rs (send_delete agent r c) ∙ send_delete-cfg r c

  want_all-cfg :
      (defined unknown : Set IpRoute) (rs : List IpRoute) (c : Controller)
      → (want_all agent defined rs (unknown, c)).1.cfg ≡ c.cfg
  unfolding want_all want
  want_all-cfg defined unknown [] c = refl
  want_all-cfg defined unknown (r ∷ rs) c = elim (Bool-cases (GoMap.has r defined)) [
    | inl e ↦ rw (want_all, want, e) (want_all-cfg defined (GoMap.delete r unknown) rs c)
    | inr e ↦
        rw (want_all, want, e)
          (want_all-cfg defined unknown rs (send_add agent r c) ∙ send_add-cfg r c)
  ]

  -- What a reconciliation of the routes does that returns.
  pub reconcile_routes-returns :
      (parse_ipv6 : Bytes → Option Bytes) (now : ℕ) (c d : Controller)
      → reconcile_routes agent parse_ipv6 now c ≡ returns d
      → (defined : Set IpRoute) × (load_routes agent parse_ipv6 c.cfg.rule.table ≡ returns defined)
        × (reconcile_finding agent (found_now now c) defined c ≡ d)
  unfolding reconcile_routes reconcile_with live_routes reconcile_finding
  reconcile_routes-returns parse_ipv6 now c d e =
      elim (outcome_cases (load_routes agent parse_ipv6 c.cfg.rule.table)) [
        | inl (inl f) ↦
            absurd (let no : fails ≡ returns d = sym (rw (reconcile_routes, f) refl) ∙ e in cc)
        | inl (inr f) ↦
            absurd (let no : panics ≡ returns d = sym (rw (reconcile_routes, f) refl) ∙ e in cc)
        | inr (defined, f) ↦ (
          defined,
          f,
          returns_injective {a = reconcile_with agent now defined c}
              (sym (rw (reconcile_routes, f) refl) ∙ e),
        )
      ]

  -- A reconciliation leaves the configuration.
  pub reconcile_routes-cfg :
      (parse_ipv6 : Bytes → Option Bytes) (now : ℕ) (c d : Controller)
      → reconcile_routes agent parse_ipv6 now c ≡ returns d
      → d.cfg ≡ c.cfg
  unfolding reconcile_finding
  reconcile_routes-cfg parse_ipv6 now c d e =
      let (defined, f, same) = reconcile_routes-returns parse_ipv6 now c d e in
      ap (λ x. x.cfg) (sym same) ∙ delete_all-cfg _ _ ∙ want_all-cfg defined defined _ c
