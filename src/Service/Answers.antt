-- ===== src/Service/Answers.antt =====
-- What `processTypeAResponse` of dns-server/internal/service.go stores for a reply.
use keenetic_dns.Prelude.{
  ℕ, ◌+◌, ◌*◌, ◌/◌, ◌^◌, ◌≤◌, ◌<◌, ◌≡◌, refl, sym, ap, subst, ◌⊎◌, ◌∙◌, some, true, List, [], ◌∷◌,
  map, All, In, here, there, any_of_In, length, ◌==◌, max, Bytes, bytes_eq, Bool-cases, inl, inr,
  arith,
}
use keenetic_dns.Util.Set
use keenetic_dns.Types.{IPv4, ipv4_eq}
use keenetic_dns.Types.AddressText.{new_ipv4-four}
use keenetic_dns.Types.Record.{DnsRecord}
use keenetic_dns.Message.{Question, Rr, Rdata, a, cname, other, Msg}
use keenetic_dns.Cache.{second}
use keenetic_dns.Config.{lookup_host}
use keenetic_dns.Store
use keenetic_dns.Store.{DnsStore}
use keenetic_dns.Store.Invariant.{view, is_for, is_for_iff}
use keenetic_dns.Store.Fill.{view-add_all}
use keenetic_dns.Stream.Buffered.{Entry}
use keenetic_dns.Stream.Buffered.Append.{Live, append-Live}
use keenetic_dns.Routes.{Controller, Agent, send_add, add_route}
use keenetic_dns.Service.{
  normalize_name, DnsQuery, Collected, nothing_collected, collect_answers, Followed, sort_ips,
  insert_ip, ipv4_less, query_of, Service, route_ip, add_ips, chase, set_query_cursor,
  process_type_a_response,
}
use keenetic_dns.Service.Chain.{follow-ends_for_all}

-- An address record has the four bytes that the DNS library reads.
abbrev pub AddressData : Rdata → Type 0
AddressData (a ip) = (x : ℕ) × (y : ℕ) × (z : ℕ) × (w : ℕ) × (ip ≡ x ∷ y ∷ z ∷ w ∷ [])
AddressData (cname t) = Unit
AddressData other = Unit

abbrev pub AddressOk : Rr → Type 0
AddressOk r = AddressData r.data'

Rdata-cases :
    (d : Rdata) → ((ip : Bytes) × (d ≡ a ip)) ⊎ (((t : Bytes) × (d ≡ cname t)) ⊎ (d ≡ other))
Rdata-cases (a ip) = inl (ip, refl)
Rdata-cases (cname t) = inr (inl (t, refl))
Rdata-cases other = inr (inr refl)

collect_answers-some :
    (rs : List Rr) (c : Collected)
    → All AddressOk rs
    → (c' : Collected) × (collect_answers rs c ≡ some c')
unfolding collect_answers
collect_answers-some [] c v = (c, refl)
collect_answers-some (r ∷ rs) c (v, vs) = elim (Rdata-cases r.data') [
  | inl (ip, e) ↦
      let (x, y, z, w, four) = subst AddressData e v in
      rw (collect_answers, e, four, new_ipv4-four x y z w) (collect_answers-some rs _ vs)
  | inr o ↦ elim o [
    | inl (t, e) ↦ rw (collect_answers, e) (collect_answers-some rs _ vs)
    | inr e ↦ rw (collect_answers, e) (collect_answers-some rs c vs)
  ]
]

-- The chain of a reply with a question, whose address records have four bytes, is found.
pub chase-some :
    (lookup : Bytes → Bytes) (resp : Msg) (q : Question) (qs : List Question)
    → resp.question ≡ q ∷ qs
    → All AddressOk resp.answer
    → (f : Followed) × (chase lookup resp ≡ some (q.name, f))
unfolding chase
chase-some lookup resp q qs e v =
    let (c, collected) = collect_answers-some resp.answer nothing_collected v in
    let (f, followed) = follow-ends_for_all lookup c q.name c.ttl in
    (f, rw (chase, e, collected, followed) refl)

add_route-store :
    (agent : Agent) (iface : Bytes) (ip : IPv4) (c : Controller)
    → (add_route agent iface ip c).store ≡ c.store
unfolding add_route send_add
add_route-store agent iface ip c = ground arith

route_ip-store :
    (agent : Agent) (ifaces : List Bytes) (ip : IPv4) (c : Controller)
    → (route_ip agent ifaces ip c).store ≡ c.store
unfolding route_ip
route_ip-store agent [] ip c = refl
route_ip-store agent (i ∷ is) ip c =
    route_ip-store agent is ip (add_route agent i ip c) ∙ add_route-store agent i ip c

abbrev pub record_of : Bytes → ℕ → IPv4 → DnsRecord
record_of domain expires ip = record { ip = ip; domain = domain; expires = expires }

add_ips-store :
    (agent : Agent) (domain : Bytes) (expires : ℕ) (ifaces : List Bytes) (ips : List IPv4)
    (c : Controller)
    → (add_ips agent domain expires ifaces ips c).store
      ≡ Store.add_all (map (record_of domain expires) ips) c.store
unfolding add_ips Store.add_all
add_ips-store agent domain expires ifaces [] c = refl
add_ips-store agent domain expires ifaces (ip ∷ ips) c =
    add_ips-store agent domain expires ifaces ips _
    ∙ ap (Store.add_all (map (record_of domain expires) ips)) (route_ip-store agent ifaces ip _)

-- What the end of `processTypeAResponse` does, for a chain that was found.
abbrev pub expires_at : ℕ → Followed → ℕ
expires_at now f = now + max f.ttl 1 * second

add_ips_none :
    (agent : Agent) (domain : Bytes) (expires : ℕ) (ifaces : List Bytes) (ips : List IPv4)
    (c : Controller)
    → (length ips == 0) ≡ true
    → add_ips agent domain expires ifaces ips c ≡ c
unfolding add_ips
add_ips_none agent domain expires ifaces [] c h = refl
add_ips_none agent domain expires ifaces (ip ∷ ips) c h = ground arith

In-swap :
    {x y z : IPv4} {zs r : List IPv4} → (In x (y ∷ zs) → In x r) → In x (y ∷ z ∷ zs) → In x (z ∷ r)
In-swap f (here e) = there (f (here e))
In-swap f (there (here e)) = here e
In-swap f (there (there i)) = there (f (there i))

In-insert_ip : {x : IPv4} (y : IPv4) (ys : List IPv4) → In x (y ∷ ys) → In x (insert_ip y ys)
unfolding insert_ip
In-insert_ip y [] i = i
In-insert_ip y (z ∷ zs) i = elim (Bool-cases (ipv4_less z y)) [
  | inl c ↦ rw c (In-swap (In-insert_ip y zs) i)
  | inr c ↦ rw c i
]

pub In-sort_ips : {x : IPv4} (ys : List IPv4) → In x ys → In x (sort_ips ys)
unfolding sort_ips
In-sort_ips [] i = elim i [ ]
In-sort_ips (y ∷ ys) (here e) = In-insert_ip y (sort_ips ys) (here e)
In-sort_ips (y ∷ ys) (there i) = In-insert_ip y (sort_ips ys) (there (In-sort_ips ys i))

pub process_lem :
    {L : Type 0} (agent : Agent) (now millis t : ℕ) (addr : Bytes) (resp : Msg) (s : Service L)
    {ys : List (Entry DnsQuery)} (name : Bytes) (f : Followed)
    → chase (λ host. lookup_host host s.controller.cfg) resp ≡ some (name, f)
    → Live s.query_stream ys t
    → t ≤ millis
    → t / 2 ^ 32 ≡ millis / 2 ^ 32
    → s.query_stream.index + 1 < 2 ^ 31
    → (s' : Service L) × (process_type_a_response agent now millis addr resp s ≡ some s')
      × (s'.raw_query_stream ≡ s.raw_query_stream)
      × (s'.controller.store
          ≡ Store.add_all
              (map (record_of (normalize_name name) (expires_at now f)) (sort_ips f.ips))
              s.controller.store)
unfolding process_type_a_response
process_lem agent now millis t addr resp s name f e v later period room =
    let all =
      add_ips-store agent (normalize_name name) (expires_at now f) (Set.values f.ifaces)
        (sort_ips f.ips) s.controller in
    elim (Bool-cases (length (sort_ips f.ips) == 0)) [
      | inl none_found ↦ (
        s,
        rw (process_type_a_response, e, none_found) refl,
        refl,
        ap (λ c. c.store)
              (sym (
                add_ips_none agent (normalize_name name) (expires_at now f) (Set.values f.ifaces)
                  (sort_ips f.ips) s.controller none_found))
            ∙ all,
      )
      | inr found ↦
          let (stream, appended, held, next, same, sized) =
            append-Live set_query_cursor t millis (query_of now addr name f) v later period room in
          (
            record s {
              query_stream = stream;
              controller =
                  add_ips agent (normalize_name name) (expires_at now f) (Set.values f.ifaces)
                    (sort_ips f.ips) s.controller;
            },
            rw (process_type_a_response, e, found, appended) refl,
            refl,
            all,
          )
    ]

In-map_intro : {A B : Type 0} {x : A} (f : A → B) (xs : List A) → In x xs → In (f x) (map f xs)
In-map_intro f [] i = elim i [ ]
In-map_intro f (y ∷ ys) (here e) = here (ap f e)
In-map_intro f (y ∷ ys) (there i) = there (In-map_intro f ys i)

record_of_same :
    (domain : Bytes) (expires : ℕ) (ips : List IPv4) (r : DnsRecord)
    → In r (map (record_of domain expires) ips)
    → r ≡ record_of domain expires r.ip
record_of_same domain expires [] r i = elim i [ ]
record_of_same domain expires (ip ∷ ips) r (here e) =
    e ∙ ap (λ x. record_of domain expires x.ip) (sym e)
record_of_same domain expires (ip ∷ ips) r (there i) = record_of_same domain expires ips r i

-- An address of the chain has its record in the store afterwards.
pub remembered :
    (domain : Bytes) (expires : ℕ) (ips : List IPv4) (ip : IPv4) (s : DnsStore)
    → In ip ips
    → view domain ip (Store.add_all (map (record_of domain expires) ips) s)
      ≡ some (record_of domain expires ip)
remembered domain expires ips ip s i =
    view-add_all domain ip (some (record_of domain expires ip)) (map (record_of domain expires) ips)
      s
      (λ r j k. ap some (
        record_of_same domain expires ips r j
        ∙ ap (record_of domain expires) (is_for_iff domain ip r k).1))
    ∙ rw
        (any_of_In (is_for domain ip) (map (record_of domain expires) ips)
          (In-map_intro (record_of domain expires) ips i)
          (ground (arith, bytes_eq.beq_iff domain domain, ipv4_eq.beq_iff ip ip)))
        refl
