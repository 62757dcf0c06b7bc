-- ===== src/Routes/Listing.antt =====
-- The list of the routes with their records: `Routes` of dns-server/internal/ip_routes.go.
use keenetic_dns.Prelude.{
  ℕ, ◌≡◌, ◌↔◌, sym, ap, ◌∙◌, Bool, true, false, not, List, [], ◌∷◌, map, keep, In, here, there,
  if◌then◌else◌, Bool-cases, inl, inr, ltb, ◌==◌, Bytes, arith,
}
use keenetic_dns.Util.Set
use keenetic_dns.Types.Record.{DnsRecord, expired}
use keenetic_dns.Store
use keenetic_dns.Store.Invariant.{Sound}
use keenetic_dns.Store.Records.{lookup_ip_iff}
use keenetic_dns.Routes.{IpRoute, Controller, remove_expired_records}

-- `IPRouteDNS` of types.go
pub record IpRouteDns : Type 0 where
  pub route : IpRoute
  pub dns_records : List DnsRecord

-- `cmp.Compare` of two texts, as the test for less.
unfoldable pub bytes_less : Bytes → Bytes → Bool
bytes_less s [] = false
bytes_less [] (c ∷ t) = true
bytes_less (b ∷ s) (c ∷ t) = let rest = bytes_less s t in if b == c then rest else ltb b c

-- `slices.SortFunc` by the domain; records of one address with one domain are the same record.
unfoldable pub insert_record : DnsRecord → List DnsRecord → List DnsRecord
insert_record r [] = r ∷ []
insert_record r (x ∷ xs) =
    let rest = insert_record r xs in if bytes_less x.domain r.domain then x ∷ rest else r ∷ x ∷ xs

unfoldable pub sort_records : List DnsRecord → List DnsRecord
sort_records [] = []
sort_records (r ∷ rs) = insert_record r (sort_records rs)

-- The records that a route is listed with.
unfoldable pub records_of : ℕ → Controller → IpRoute → List DnsRecord
records_of now s route =
    sort_records
      (remove_expired_records now s.cfg.dynamic.route_timeout (Store.lookup_ip route.addr s.store))

-- `Routes`
unfoldable pub routes : ℕ → Controller → List IpRouteDns
routes now s =
    map (λ r. record { route = r; dns_records = records_of now s r }) (Set.values s.routes)

swap_to :
    {x r y : DnsRecord} {ys zs : List DnsRecord}
    → (In x zs → In x (r ∷ ys))
    → In x (y ∷ zs)
    → In x (r ∷ y ∷ ys)
swap_to f (here e) = there (here e)
swap_to f (there i) = elim (f i) [ here e ↦ here e | there j ↦ there (there j) ]

swap_from :
    {x r y : DnsRecord} {ys zs : List DnsRecord}
    → (In x (r ∷ ys) → In x zs)
    → In x (r ∷ y ∷ ys)
    → In x (y ∷ zs)
swap_from f (here e) = there (f (here e))
swap_from f (there (here e)) = here e
swap_from f (there (there i)) = there (f (there i))

In-insert_record :
    (x r : DnsRecord) (xs : List DnsRecord) → In x (insert_record r xs) ↔ In x (r ∷ xs)
unfolding insert_record
In-insert_record x r [] = (λ i. i, λ i. i)
In-insert_record x r (y ∷ ys) = elim (Bool-cases (bytes_less y.domain r.domain)) [
  | inr c ↦ rw c ((λ i. i), (λ i. i))
  | inl c ↦ rw c (swap_to (In-insert_record x r ys).0, swap_from (In-insert_record x r ys).1)
]

under :
    {x r : DnsRecord} {ys zs : List DnsRecord} → (In x ys → In x zs) → In x (r ∷ ys) → In x (r ∷ zs)
under f (here e) = here e
under f (there i) = there (f i)

In-sort_records : (x : DnsRecord) (rs : List DnsRecord) → In x (sort_records rs) ↔ In x rs
unfolding sort_records
In-sort_records x [] = (λ i. i, λ i. i)
In-sort_records x (r ∷ rs) =
    let inserted = In-insert_record x r (sort_records rs) in
    let rest = In-sort_records x rs in
    (λ i. under rest.0 (inserted.0 i), λ i. inserted.1 (under rest.1 i))

In-keep_to :
    (p : DnsRecord → Bool) (x : DnsRecord) (rs : List DnsRecord)
    → In x (keep p rs)
    → In x rs × (p x ≡ true)
In-keep_to p x [] i = elim i [ ]
In-keep_to p x (y ∷ ys) i = elim (Bool-cases (p y)) [
  | inr c ↦ let (j, h) = In-keep_to p x ys (rw c at i) in (there j, h)
  | inl c ↦
      let k : In x (y ∷ keep p ys) = rw c at i in
      elim k [
        | here e ↦ (here e, ap p e ∙ c)
        | there j ↦ let (j', h) = In-keep_to p x ys j in (there j', h)
      ]
]

In-keep_from :
    (p : DnsRecord → Bool) (x : DnsRecord) (rs : List DnsRecord)
    → In x rs
    → p x ≡ true
    → In x (keep p rs)
In-keep_from p x [] i h = i
In-keep_from p x (y ∷ ys) (here e) h = let c : p y ≡ true = ap p (sym e) ∙ h in rw c (here e)
In-keep_from p x (y ∷ ys) (there i) h = elim (Bool-cases (p y)) [
  | inl c ↦ rw c (there (In-keep_from p x ys i h))
  | inr c ↦ rw c (In-keep_from p x ys i h)
]

not-false : {b : Bool} → not b ≡ true → b ≡ false
not-false {b} h = ground arith

-- With a sound store, the records that a route is listed with are exactly the records of the store
-- for its address that have not been expired for longer than the route timeout.
pub records_of_iff :
    (now : ℕ) (s : Controller) (route : IpRoute) (r : DnsRecord)
    → Sound s.store
    → In r (records_of now s route) ↔ (
        (r.ip ≡ route.addr)
        × In r (Store.records s.store)
        × (expired now s.cfg.dynamic.route_timeout r ≡ false))
unfolding records_of remove_expired_records
records_of_iff now s route r sound =
    let live : DnsRecord → Bool = λ x. not (expired now s.cfg.dynamic.route_timeout x) in
    let looked_up = Store.lookup_ip route.addr s.store in
    let sorted = In-sort_records r (keep live looked_up) in
    let found = lookup_ip_iff s.store route.addr r sound in
    (
      (λ i.
          let (j, h) = In-keep_to live r looked_up (sorted.0 i) in
          let (same, listed) = found.0 j in (same, listed, not-false h)),
      (λ q. sorted.1 (In-keep_from live r looked_up (found.1 (q.0, q.1)) (ap not q.2))),
    )
