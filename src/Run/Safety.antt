-- ===== src/Run/Safety.antt =====
-- What the controller of dns-server/internal/ip_routes.go never does, in any order of its steps.
use keenetic_dns.Prelude.{
  Bool, ℕ, ◌%◌, ◌^◌, ◌<◌, ◌≡◌, refl, sym, ap, ◌∙◌, subst, Option, true, false, List, [], ◌∷◌, All,
  length, ◌==◌, Bytes, Bool-cases, Option-cases, inl, inr, arith,
}
use keenetic_dns.Util.Set
use keenetic_dns.Util.Set.{Set}
use keenetic_dns.Types.{returns, fails, panics}
use keenetic_dns.Types.Record.{DnsRecord}
use keenetic_dns.Store
use keenetic_dns.Store.{DnsStore, Codec, Opened, content, not_exist, open_error, new_dns_store}
use keenetic_dns.Store.Invariant.{Sound, new-Sound, add-Sound}
use keenetic_dns.Store.Fill.{fill-Sound}
use keenetic_dns.Store.Expiry.{view-remove_expired}
use keenetic_dns.Config.{RoutingConfig, RoutingRule, lookup_host}
use keenetic_dns.Routes.{
  IpRoute, Agent, rule_added, Controller, map_to_agent_rule, load_routes, reconcile_routes,
  reconcile_rules, reconcile, init, init_routes, new_controller, route_eq,
}
use keenetic_dns.Run.{
  start, Run, started, stored, asked, configured, expired, ruled, reconciled, found_now,
}
use keenetic_dns.Run.Tables.{
  OfTable, insert-OfTable, parse_routes-OfTable, outcome_cases, returns_injective,
}
use keenetic_dns.Run.Keeps.{reconcile_routes-returns}
use keenetic_dns.Run.Invariant.{
  Honest, Own, Kept, sent, with_store, with_cfg, add_route-Kept, reconcile_finding-Kept,
}

load-Sound :
    (codec : Codec) (file : Opened) (store : DnsStore) (ok : Bool)
    → Store.load codec file new_dns_store ≡ returns (store, ok)
    → Sound store
unfolding Store.load
load-Sound codec not_exist store ok e = subst Sound (ap (λ x. x.0) (returns_injective e)) new-Sound
load-Sound codec open_error store ok e = subst Sound (ap (λ x. x.0) (returns_injective e)) new-Sound
load-Sound codec (content b) store ok e = elim (outcome_cases (codec.decode b)) [
  | inl (inl f) ↦
      subst Sound (ap (λ x. x.0) (returns_injective (rw (Store.load, f) at e))) new-Sound
  | inl (inr f) ↦ absurd (let n : panics ≡ returns (store, ok) = rw (Store.load, f) at e in cc)
  | inr (rs, f) ↦
      subst Sound (ap (λ x. x.0) (returns_injective (rw (Store.load, f) at e)))
        (fill-Sound rs new_dns_store)
]

module _ (rule : RoutingRule) (small : rule.table < 2 ^ 32) where
  reconcile_rules-Kept :
      (agent : Agent) (c : Controller) → Kept rule c → Kept rule (reconcile_rules agent c)
  unfolding reconcile_rules
  reconcile_rules-Kept agent c v =
      elim (Option-cases (agent.has_rule (map_to_agent_rule c.cfg.rule))) [
        | inl e ↦ rw (reconcile_rules, e) v
        | inr (true, e) ↦ rw (reconcile_rules, e) v
        | inr (false, e) ↦
            rw (reconcile_rules, e)
              (sent (rule_added (map_to_agent_rule c.cfg.rule)) c.routes c
                (ap map_to_agent_rule v.same_rule) v.routes v)
      ]

  load_routes-OfTable :
      (agent : Agent) (parse_ipv6 : Bytes → Option Bytes) (set : Set IpRoute)
      → Honest agent
      → load_routes agent parse_ipv6 rule.table ≡ returns set
      → OfTable rule.table (Set.values set)
  unfolding load_routes
  load_routes-OfTable agent parse_ipv6 set honest e =
      let own : rule.table % 2 ^ 32 ≡ rule.table = omega arith in
      elim (Option-cases (agent.list_routes (rule.table % 2 ^ 32))) [
        | inl f ↦
            let same : returns [] ≡ load_routes agent parse_ipv6 rule.table =
              rw (load_routes, f) refl in
            subst (λ m. OfTable rule.table (Set.values m)) (returns_injective (same ∙ e)) tt
        | inr (its, f) ↦
            parse_routes-OfTable rule.table parse_ipv6 its [] set
              (subst (λ t. All (λ it. it.table ≡ t) its) own (honest _ its f)) tt
              (sym (rw (load_routes, f) refl) ∙ e)
      ]

  loaded-OfTable :
      (agent : Agent) (parse_ipv6 : Bytes → Option Bytes) (c : Controller) (set : Set IpRoute)
      → Honest agent
      → Kept rule c
      → load_routes agent parse_ipv6 c.cfg.rule.table ≡ returns set
      → OfTable rule.table (Set.values set)
  loaded-OfTable agent parse_ipv6 c set honest v f =
      load_routes-OfTable agent parse_ipv6 set honest
        (ap (λ r. load_routes agent parse_ipv6 r.table) (sym v.same_rule) ∙ f)

  reconcile_routes-Kept :
      (agent : Agent) (parse_ipv6 : Bytes → Option Bytes) (now : ℕ) (c d : Controller)
      → Honest agent
      → Kept rule c
      → reconcile_routes agent parse_ipv6 now c ≡ returns d
      → Kept rule d
  reconcile_routes-Kept agent parse_ipv6 now c d honest v e =
      let (defined, f, same) = reconcile_routes-returns agent parse_ipv6 now c d e in
      subst (Kept rule) same (
        reconcile_finding-Kept agent (found_now now c) defined c
          (loaded-OfTable agent parse_ipv6 c defined honest v f) v)

  init_routes-Kept :
      (rs : List DnsRecord) (c : Controller) → Kept rule c → Kept rule (init_routes rs c)
  unfolding init_routes
  init_routes-Kept [] c v = v
  init_routes-Kept (r ∷ rs) c v =
      init_routes-Kept rs _ (elim (Bool-cases (length (lookup_host r.domain c.cfg) == 0)) [
        | inl e ↦ rw e v
        | inr e ↦ rw e (record {
          table = v.table;
          same_rule = v.same_rule;
          routes = insert-OfTable rule.table _ c.routes (ap (λ z. z.table) v.same_rule) v.routes;
          requests = v.requests;
          store = v.store;
        })
      ])

  reconcile-Kept :
      (agent : Agent) (parse_ipv6 : Bytes → Option Bytes) (now : ℕ) (c d : Controller)
      → Honest agent
      → Kept rule c
      → reconcile agent parse_ipv6 now c ≡ returns d
      → Kept rule d
  unfolding reconcile
  reconcile-Kept agent parse_ipv6 now c d honest v e =
      reconcile_routes-Kept agent parse_ipv6 now _ d honest
        (reconcile_rules-Kept agent _ (
          with_store _ c (view-remove_expired now c.cfg.dynamic.route_timeout c.store v.store).0 v))
        e

  start-Kept :
      (codec : Codec) (file : Opened) (agent : Agent) (parse_ipv6 : Bytes → Option Bytes) (now : ℕ)
      (cfg : RoutingConfig) (c : Controller)
      → cfg.rule ≡ rule
      → Honest agent
      → start codec file agent parse_ipv6 now cfg ≡ returns c
      → Kept rule c
  unfolding start init new_controller
  start-Kept codec file agent parse_ipv6 now cfg c same honest e =
      elim (outcome_cases (Store.load codec file new_dns_store)) [
        | inl (inl f) ↦ absurd (let n : fails ≡ returns c = rw (start, f) at e in cc)
        | inl (inr f) ↦ absurd (let n : panics ≡ returns c = rw (start, f) at e in cc)
        | inr ((store, ok), f) ↦
            let fresh = new_controller cfg store in
            reconcile-Kept agent parse_ipv6 now (init fresh) c honest
              (init_routes-Kept (Store.records store) fresh (record {
                table = ap (λ r. r.table) same;
                same_rule = same;
                routes = tt;
                requests = tt;
                store = load-Sound codec file store ok f;
              }))
              (rw (start, f) at e)
      ]

  Run-Kept :
      {codec : Codec} {parse_ipv6 : Bytes → Option Bytes} {cfg : RoutingConfig} {c : Controller}
      → cfg.rule ≡ rule
      → Run codec parse_ipv6 cfg Honest c
      → Kept rule c
  Run-Kept {codec} {parse_ipv6} {cfg} same (started {c} agent file now honest e) =
      start-Kept codec file agent parse_ipv6 now cfg c same honest e
  Run-Kept same (stored {c} r run) =
      let v = Run-Kept same run in with_store _ c (add-Sound r c.store v.store) v
  Run-Kept same (asked {c} agent iface ip honest run) =
      add_route-Kept agent iface ip c (Run-Kept same run)
  Run-Kept same (configured {c} dynamic run) =
      let v = Run-Kept same run in with_cfg _ c v.same_rule v
  Run-Kept same (expired {c} now extra_ttl run) =
      let v = Run-Kept same run in
      with_store _ c (view-remove_expired now extra_ttl c.store v.store).0 v
  Run-Kept same (ruled {c} agent run) = reconcile_rules-Kept agent c (Run-Kept same run)
  Run-Kept {parse_ipv6 = parse_ipv6} same
        (reconciled {c} agent found defined dynamic honest run f) =
      let v = Run-Kept same run in
      let w = with_cfg (record c.cfg { dynamic = dynamic }) c v.same_rule v in
      with_cfg c.cfg _ v.same_rule (
        reconcile_finding-Kept agent found defined _
          (loaded-OfTable agent parse_ipv6 c defined honest v f) w)

-- Whatever the queries, reconciliations and changes of the configuration are, in whatever order their
-- steps come and whatever the agent answers, the server asks the agent only for routes of its own
-- table, to add or to delete, and for its own rule, and its store stays sound: as long as the agent
-- lists routes of the table that it is asked for, and the table's number has 32 bits.
pub run_safe :
    {codec : Codec} {parse_ipv6 : Bytes → Option Bytes} {cfg : RoutingConfig} {c : Controller}
    → cfg.rule.table < 2 ^ 32
    → Run codec parse_ipv6 cfg Honest c
    → All (Own cfg.rule) c.requests × Sound c.store
run_safe {cfg = cfg} small run = let v = Run-Kept cfg.rule small refl run in (v.requests, v.store)
