-- ===== src/Run/Methods.antt =====
-- The methods of dns-server/internal/service.go and ip_routes.go as sequences of the steps of a run.
use keenetic_dns.Prelude.{
  ℕ, ◌+◌, ◌*◌, ◌≡◌, sym, ap, ◌∙◌, subst, Option, some, some-bind, some_injective, if_cases, Bool,
  true, false, List, [], ◌∷◌, length, ◌==◌, if◌then◌else◌, ◌>>=◌, Bytes, inl, inr,
}
use keenetic_dns.Types.{IPv4, returns}
use keenetic_dns.Types.Record.{DnsRecord}
use keenetic_dns.Message.{Msg, type_a, has_single_question}
use keenetic_dns.Store
use keenetic_dns.Store.{Codec}
use keenetic_dns.Config.{RoutingConfig, RoutingDynamic, lookup_host}
use keenetic_dns.Routes.{
  route_eq, Agent, Controller, add_route, reconcile_rules, reconcile, update_config,
}
use keenetic_dns.Cache.{second}
use keenetic_dns.Stream.Buffered
use keenetic_dns.Service.{
  DnsRawQuery, set_raw_cursor, set_query_cursor, Service, route_ip, add_ips, chase, query_of,
  process_type_a_response, append_raw_query, Resolved, resolved, error, resolve, error_text,
}
use keenetic_dns.Run.Keeps.{reconcile_routes-cfg, reconcile_routes-returns}
use keenetic_dns.Run.{Run, stored, asked, configured, expired, ruled, reconciled, found_now}

append_raw-controller :
    {L : Type 0} (now millis : ℕ) (addr : Bytes) (response : Bool) (text : Bytes) (s s' : Service L)
    → append_raw_query now millis addr response text s ≡ some s'
    → s.controller ≡ s'.controller
unfolding append_raw_query
append_raw-controller now millis addr response text s s' e =
    let q : DnsRawQuery = record {
      cursor = 0;
      time = now;
      client_addr = addr;
      response = response;
      text = text;
    } in
    let (out, appended, same) =
      some-bind (Buffered.append set_raw_cursor millis q s.raw_query_stream) _ e in
    ap (λ z. z.controller) (some_injective same)

module _ {codec : Codec} {parse_ipv6 : Bytes → Option Bytes} {cfg : RoutingConfig}
    {Honest : Agent → Type 0} (agent : Agent) (honest : Honest agent) where
  route_ip-Run :
      (ifaces : List Bytes) (ip : IPv4) (c : Controller)
      → Run codec parse_ipv6 cfg Honest c
      → Run codec parse_ipv6 cfg Honest (route_ip agent ifaces ip c)
  unfolding route_ip
  route_ip-Run [] ip c run = run
  route_ip-Run (iface ∷ ifaces) ip c run =
      route_ip-Run ifaces ip (add_route agent iface ip c) (asked agent iface ip honest run)

  add_ips-Run :
      (domain : Bytes) (expires : ℕ) (ifaces : List Bytes) (ips : List IPv4) (c : Controller)
      → Run codec parse_ipv6 cfg Honest c
      → Run codec parse_ipv6 cfg Honest (add_ips agent domain expires ifaces ips c)
  unfolding add_ips
  add_ips-Run domain expires ifaces [] c run = run
  add_ips-Run domain expires ifaces (ip ∷ ips) c run =
      let r : DnsRecord = record { ip = ip; domain = domain; expires = expires } in
      add_ips-Run domain expires ifaces ips _
        (route_ip-Run ifaces ip (record c { store = Store.add r c.store }) (stored r run))

  -- `reconcile` is three steps, and `UpdateConfig` four.
  pub reconcile-Run :
      (now : ℕ) (c d : Controller)
      → Run codec parse_ipv6 cfg Honest c
      → reconcile agent parse_ipv6 now c ≡ returns d
      → Run codec parse_ipv6 cfg Honest d
  unfolding reconcile
  reconcile-Run now c d run e =
      let extra_ttl = c.cfg.dynamic.route_timeout in
      let x : Controller =
        reconcile_rules agent (record c { store = Store.remove_expired now extra_ttl c.store }) in
      let (defined, loaded, same) = reconcile_routes-returns agent parse_ipv6 now x d e in
      subst (λ cfg'. Run codec parse_ipv6 cfg Honest (record d { cfg = cfg' }))
        (sym (reconcile_routes-cfg agent parse_ipv6 now x d e))
        (subst (λ y. Run codec parse_ipv6 cfg Honest (record y { cfg = x.cfg })) same
          (reconciled agent (found_now now x) defined x.cfg.dynamic honest
            (ruled agent (expired now extra_ttl run)) loaded))

  pub update_config-Run :
      (now : ℕ) (dynamic : RoutingDynamic) (c d : Controller)
      → Run codec parse_ipv6 cfg Honest c
      → update_config agent parse_ipv6 now dynamic c ≡ returns d
      → Run codec parse_ipv6 cfg Honest d
  unfolding update_config
  update_config-Run now dynamic c d run e = reconcile-Run now _ d (configured dynamic run) e

  process-Run :
      {L : Type 0} (now millis : ℕ) (addr : Bytes) (resp : Msg) (s s' : Service L)
      → Run codec parse_ipv6 cfg Honest s.controller
      → process_type_a_response agent now millis addr resp s ≡ some s'
      → Run codec parse_ipv6 cfg Honest s'.controller
  unfolding process_type_a_response
  process-Run now millis addr resp s s' run e =
      let ((name, f), chased, rest) =
        some-bind (chase (λ host. lookup_host host s.controller.cfg) resp) _ e in
      elim (if_cases (length (query_of now addr name f).ips == 0) rest) [
        | inl same ↦
            subst (λ z. Run codec parse_ipv6 cfg Honest z.controller) (some_injective same) run
        | inr later ↦
            let res = query_of now addr name f in
            let (out, appended, same) =
              some-bind (Buffered.append set_query_cursor millis res s.query_stream) _ later in
            subst (Run codec parse_ipv6 cfg Honest) (ap (λ z. z.controller) (some_injective same))
              (add_ips-Run res.domain (now + res.ttl * second) res.routed res.ips s.controller run)
      ]

  -- A query that does not panic takes the controller through steps of a run.
  pub resolve-Run :
      {L : Type 0} (show : Msg → Bytes) (inner : Msg → Resolved) (t t' : ℕ × ℕ) (addr : Bytes)
      (msg : Msg) (s s' : Service L) (r : Resolved)
      → Run codec parse_ipv6 cfg Honest s.controller
      → resolve agent show inner t t' addr msg s ≡ some (r, s')
      → Run codec parse_ipv6 cfg Honest s'.controller
  unfolding resolve
  resolve-Run {L} show inner (now, millis) (now', millis') addr msg s s' r run e =
      let (s1, first, rest) = some-bind (append_raw_query now millis addr false (show msg) s) _ e in
      let run1 : Run codec parse_ipv6 cfg Honest s1.controller =
        subst (Run codec parse_ipv6 cfg Honest)
          (append_raw-controller now millis addr false (show msg) s s1 first) run in
      after_inner (inner msg) s1 run1 rest
    where
      after_inner :
          (o : Resolved) (s1 : Service L)
          → Run codec parse_ipv6 cfg Honest s1.controller
          → (let out : Option (Resolved × Service L) = elim o [
            | error text ↦ do
              s2 ← append_raw_query now' millis' addr true (error_text msg.id text) s1
              some (error text, s2)
            | resolved resp ↦ do
              s2 ← append_raw_query now' millis' addr true (show resp) s1
              s3 ←
                  if has_single_question msg (type_a ∷ [])
                  then process_type_a_response agent now' millis' addr resp s2
                  else some s2
              some (resolved resp, s3)
          ] in
              out ≡ some (r, s'))
          → Run codec parse_ipv6 cfg Honest s'.controller
      after_inner (error text) s1 run1 rest =
          let (s2, second_text, same) =
            some-bind (append_raw_query now' millis' addr true (error_text msg.id text) s1) _
              rest in
          subst (Run codec parse_ipv6 cfg Honest)
            (append_raw-controller now' millis' addr true (error_text msg.id text) s1 s2 second_text
              ∙ ap (λ z. z.1.controller) (some_injective same))
            run1
      after_inner (resolved resp) s1 run1 rest =
          let (s2, second_text, more) =
            some-bind (append_raw_query now' millis' addr true (show resp) s1) _ rest in
          let run2 : Run codec parse_ipv6 cfg Honest s2.controller =
            subst (Run codec parse_ipv6 cfg Honest)
              (append_raw-controller now' millis' addr true (show resp) s1 s2 second_text) run1 in
          let (s3, third, same) =
            some-bind
              (if has_single_question msg (type_a ∷ [])
                then process_type_a_response agent now' millis' addr resp s2
                else some s2)
              _ more in
          subst (Run codec parse_ipv6 cfg Honest) (ap (λ z. z.1.controller) (some_injective same))
            (elim (if_cases (has_single_question msg (type_a ∷ [])) third) [
              | inl p ↦ process-Run now' millis' addr resp s2 s3 run2 p
              | inr q ↦
                  subst (λ z. Run codec parse_ipv6 cfg Honest z.controller) (some_injective q) run2
            ])
