-- ===== src/Store/Expiry.antt =====
-- `RemoveExpired` of dns-server/internal/dns_store.go removes exactly the expired records.
use keenetic_dns.Prelude.{
  ℕ, ◌≡◌, refl, sym, ap₂, ◌∙◌, Option, none, some, Bool, true, false, ◌&&◌, List, [], ◌∷◌,
  if◌then◌else◌, Bytes, bytes_eq, Option-cases, Bool-cases, In, inl, inr, any, any_of_In, any-In,
  arith,
}
use keenetic_dns.Types.{IPv4, ipv4_eq}
use keenetic_dns.Types.Record.{DnsRecord, expired}
use keenetic_dns.Store.{DnsStore, remove, records, remove_each, remove_expired}
use keenetic_dns.Store.Invariant.{view, Sound, is_for, is_for_iff, view-remove, remove-Sound}
use keenetic_dns.Store.Records.{records_iff, records_of_view, is_for_of_view}

-- `r` is an expired record of the domain and the address.
abbrev goes : ℕ → ℕ → Bytes → IPv4 → DnsRecord → Bool
goes now extra_ttl d ip r = expired now extra_ttl r && is_for d ip r

view-remove_each :
    (now extra_ttl : ℕ) (rs : List DnsRecord) (s : DnsStore) (d : Bytes) (ip : IPv4)
    → view d ip (remove_each now extra_ttl rs s)
      ≡ (if any (goes now extra_ttl d ip) rs then none else view d ip s)
unfolding remove_each
view-remove_each now x [] s d ip = refl
view-remove_each now x (r ∷ rs) s d ip = elim (Bool-cases (expired now x r)) [
  | inl c ↦ rw (c) (
      view-remove_each now x rs (remove r s) d ip
      ∙ rw (view-remove r s d ip) (elim (Bool-cases (is_for d ip r)) [
        | inl k ↦
            rw (k) (elim (Bool-cases (any (goes now x d ip) rs)) [
              | inl z ↦ rw z refl
              | inr z ↦ rw z refl
            ])
        | inr k ↦ rw (k) refl
      ]))
  | inr c ↦ rw (c) (view-remove_each now x rs s d ip)
]

pub remove_each-Sound :
    (now extra_ttl : ℕ) (rs : List DnsRecord) (s : DnsStore)
    → Sound s
    → Sound (remove_each now extra_ttl rs s)
unfolding remove_each
remove_each-Sound now x [] s w = w
remove_each-Sound now x (r ∷ rs) s w = elim (Bool-cases (expired now x r)) [
  | inl c ↦ rw (c) (remove_each-Sound now x rs (remove r s) (remove-Sound r s w))
  | inr c ↦ rw (c) (remove_each-Sound now x rs s w)
]

and_left : (a b : Bool) → (a && b) ≡ true → a ≡ true
and_left a b h = ground arith

and_right : (a b : Bool) → (a && b) ≡ true → b ≡ true
and_right a b h = ground arith

-- Of the records for a domain and an address there is the view alone.
listed_is_view :
    (s : DnsStore) (d : Bytes) (ip : IPv4) (r : DnsRecord)
    → Sound s
    → In r (records s)
    → is_for d ip r ≡ true
    → view d ip s ≡ some r
listed_is_view s d ip r w i c =
    let (a, b) = is_for_iff d ip r c in
    ap₂ (λ x y. view x y s) (sym a) (sym b) ∙ (records_iff s r w).0 i

-- What is left of a record.
abbrev pub kept : ℕ → ℕ → Option DnsRecord → Option DnsRecord
kept now extra_ttl none = none
kept now extra_ttl (some r) = if expired now extra_ttl r then none else some r

any-goes :
    (now extra_ttl : ℕ) (s : DnsStore) (d : Bytes) (ip : IPv4)
    → Sound s
    → (if any (goes now extra_ttl d ip) (records s) then none else view d ip s)
      ≡ kept now extra_ttl (view d ip s)
any-goes now x s d ip w = elim (Bool-cases (any (goes now x d ip) (records s))) [
  | inl c ↦
      let (r, i, g) = any-In (goes now x d ip) (records s) c in
      let v = listed_is_view s d ip r w i (and_right (expired now x r) (is_for d ip r) g) in
      rw (c, v, and_left (expired now x r) (is_for d ip r) g) refl
  | inr c ↦ elim (Option-cases (view d ip s)) [
    | inl a ↦ rw (c, a) refl
    | inr (r, a) ↦ elim (Bool-cases (expired now x r)) [
      | inl k ↦ absurd (
          let t =
            any_of_In (goes now x d ip) (records s) (records_of_view d ip s a)
              (rw (k) (is_for_of_view d ip s r w a)) in
          let n : false ≡ true = sym c ∙ t in cc)
      | inr k ↦ rw (c, a, k) refl
    ]
  ]
]

-- From a sound store `RemoveExpired` makes a sound store in which exactly the expired records are
-- missing, for every domain and address.
pub view-remove_expired :
    (now extra_ttl : ℕ) (s : DnsStore)
    → Sound s
    → Sound (remove_expired now extra_ttl s)
      × ((d : Bytes) (ip : IPv4)
          → view d ip (remove_expired now extra_ttl s) ≡ kept now extra_ttl (view d ip s))
unfolding remove_expired
view-remove_expired now x s w = (
  remove_each-Sound now x (records s) s w,
  λ d ip. view-remove_each now x (records s) s d ip ∙ any-goes now x s d ip w,
)
