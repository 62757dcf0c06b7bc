-- ===== src/Store/Records.antt =====
-- `Records` and `LookupIP` of dns-server/internal/dns_store.go: which records they give.
use keenetic_dns.Prelude.{
  ◌≡◌, refl, sym, subst, ap₂, ◌∙◌, ◌↔◌, none, some, true, [], map, arith, Bytes, bytes_eq,
  Option-cases, In, inl, inr,
}
use keenetic_dns.GoMap.{Map, get}
use keenetic_dns.Types.{IPv4, ipv4_eq}
use keenetic_dns.Types.Record.{DnsRecord}
use keenetic_dns.MultiMap.{find}
use keenetic_dns.MultiMap.Entries.{find-In, find_of_In, get-In, get_of_In, get-AllDistinct}
use keenetic_dns.Store.{DnsStore, records, lookup_ip}
use keenetic_dns.Store.Invariant.{view, Belongs, Sound, is_for}

belongs_lem :
    (d : Bytes) (ip : IPv4) (s : DnsStore) {r : DnsRecord}
    → Sound s
    → view d ip s ≡ some r
    → (r.domain ≡ d) × (r.ip ≡ ip)
belongs_lem d ip s w h = subst (Belongs d ip) h (w.belongs d ip)

view_own :
    (d : Bytes) (ip : IPv4) (s : DnsStore) {r : DnsRecord}
    → Sound s
    → view d ip s ≡ some r
    → view r.domain r.ip s ≡ some r
view_own d ip s w h = let (a, b) = belongs_lem d ip s w h in ap₂ (λ x y. view x y s) a b ∙ h

pub is_for_of_view :
    (d : Bytes) (ip : IPv4) (s : DnsStore) (r : DnsRecord)
    → Sound s
    → view d ip s ≡ some r
    → is_for d ip r ≡ true
is_for_of_view d ip s r w h =
    ground (arith, belongs_lem d ip s w h, bytes_eq.beq_iff r.domain d, ipv4_eq.beq_iff r.ip ip)

-- The record of a domain and an address is one of the records.
pub records_of_view :
    (d : Bytes) (ip : IPv4) (s : DnsStore) {r : DnsRecord} → view d ip s ≡ some r → In r (records s)
unfolding view records
records_of_view d ip s h = find-In d ip s.by_domain h

-- A sound store lists a record exactly if it is the record of its domain and its address.
pub records_iff :
    (s : DnsStore) (r : DnsRecord) → Sound s → In r (records s) ↔ (view r.domain r.ip s ≡ some r)
unfolding view records
records_iff s r w = (
  (λ i. let (d, ip, h) = find_of_In s.by_domain w.by_domain_distinct i in view_own d ip s w h),
  records_of_view r.domain r.ip s,
)

lookup_nothing : (s : DnsStore) (ip : IPv4) → get ip s.by_ip ≡ none → lookup_ip ip s ≡ []
unfolding lookup_ip
lookup_nothing s ip a = rw (lookup_ip, a) refl

lookup_inner :
    (s : DnsStore) (ip : IPv4) (m : Map Bytes DnsRecord)
    → get ip s.by_ip ≡ some m
    → lookup_ip ip s ≡ map (λ e. e.1) m
unfolding lookup_ip
lookup_inner s ip m a = rw (lookup_ip, a) refl

looked_up :
    (s : DnsStore) (ip : IPv4) (r : DnsRecord)
    → Sound s
    → In r (lookup_ip ip s)
    → (d : Bytes) × (find ip d s.by_ip ≡ some r)
unfolding find
looked_up s ip r w i = elim (Option-cases (get ip s.by_ip)) [
  | inl a ↦ elim (subst (In r) (lookup_nothing s ip a) i) [ ]
  | inr (m, a) ↦
      let (d, g) =
        get_of_In m (get-AllDistinct ip s.by_ip w.by_ip_distinct a)
          (subst (In r) (lookup_inner s ip m a) i) in
      (d, rw (find, a) g)
]

found_is_looked_up :
    (s : DnsStore) (ip : IPv4) (d : Bytes) (r : DnsRecord)
    → find ip d s.by_ip ≡ some r
    → In r (lookup_ip ip s)
unfolding find
found_is_looked_up s ip d r h = elim (Option-cases (get ip s.by_ip)) [
  | inl a ↦ absurd (let n : none ≡ some r = rw (find, a) at h in cc)
  | inr (m, a) ↦ rw (lookup_inner s ip m a) (get-In d m (rw (find, a) at h))
]

-- In a sound store, the lookup of an address gives a record exactly if the record is for this address
-- and the store lists it.
pub lookup_ip_iff :
    (s : DnsStore) (ip : IPv4) (r : DnsRecord)
    → Sound s
    → In r (lookup_ip ip s) ↔ ((r.ip ≡ ip) × In r (records s))
lookup_ip_iff s ip r w = (
  (λ i.
      let (d, h) = looked_up s ip r w i in
      let v : view d ip s ≡ some r = sym (w.agree d ip) ∙ h in
      ((belongs_lem d ip s w v).1, records_of_view d ip s v)),
  (λ q.
      let v : view r.domain ip s ≡ some r =
        subst (λ x. view r.domain x s ≡ some r) q.0 ((records_iff s r w).0 q.1) in
      found_is_looked_up s ip r.domain r (w.agree r.domain ip ∙ v)),
)
