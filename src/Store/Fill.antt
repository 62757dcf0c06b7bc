-- ===== src/Store/Fill.antt =====
-- Filling the store of dns-server/internal/dns_store.go, and its dump: what `Load` makes of what
-- `Save` wrote.
use keenetic_dns.Prelude.{
  All, ◌≡◌, refl, sym, ◌∙◌, Option, none, some, true, List, [], ◌∷◌, if◌then◌else◌, Bytes, bytes_eq,
  Option-cases, Bool-cases, In, here, there, inl, inr, any, any_of_In,
}
use keenetic_dns.Types.{IPv4, ipv4_eq, returns}
use keenetic_dns.Types.Record.{DnsRecord}
use keenetic_dns.Store.{
  DnsStore, new_dns_store, add, add_all, fill, records, content, Codec, Plain, load, save,
}
use keenetic_dns.Store.Invariant.{
  view, Sound, is_for, is_for_iff, view-add, view-new, new-Sound, add_all-Sound,
}
use keenetic_dns.Store.Records.{records_iff, records_of_view, is_for_of_view}

-- Where all the records for a domain and an address are the same one, adding them makes it the view.
pub view-add_all :
    (d : Bytes) (ip : IPv4) (o : Option DnsRecord) (rs : List DnsRecord) (s : DnsStore)
    → ((r : DnsRecord) → In r rs → is_for d ip r ≡ true → some r ≡ o)
    → view d ip (add_all rs s) ≡ (if any (is_for d ip) rs then o else view d ip s)
unfolding add_all
view-add_all d ip o [] s f = refl
view-add_all d ip o (r ∷ rs) s f =
    view-add_all d ip o rs (add r s) (λ x i. f x (there i))
    ∙ rw (view-add r s d ip) (elim (Bool-cases (is_for d ip r)) [
      | inl c ↦ elim (Bool-cases (any (is_for d ip) rs)) [
        | inl k ↦ rw (c, k) refl
        | inr k ↦ rw (c, k) (f r (here refl) c)
      ]
      | inr c ↦ rw (c) refl
    ])

same_record :
    (d : Bytes) (ip : IPv4) (s : DnsStore)
    → Sound s
    → (r : DnsRecord) → In r (records s)
    → is_for d ip r ≡ true
    → some r ≡ view d ip s
same_record d ip s w r i c =
    let (a, b) = is_for_iff d ip r c in rw (← a, ← b) (sym ((records_iff s r w).0 i))

view_listed :
    (d : Bytes) (ip : IPv4) (s : DnsStore)
    → Sound s
    → (if any (is_for d ip) (records s) then view d ip s else none) ≡ view d ip s
view_listed d ip s w = elim (Option-cases (view d ip s)) [
  | inl a ↦ elim (Bool-cases (any (is_for d ip) (records s))) [
    | inl k ↦ rw (k) refl
    | inr k ↦ rw (k, a) refl
  ]
  | inr (r, a) ↦
      rw
        (any_of_In (is_for d ip) (records s) (records_of_view d ip s a)
          (is_for_of_view d ip s r w a))
        refl
]

-- A store filled with the records of a sound one has the same record for every domain and address,
-- whatever it held before.
pub view-fill :
    (s t : DnsStore) (d : Bytes) (ip : IPv4)
    → Sound s
    → view d ip (fill (records s) t) ≡ view d ip s
unfolding fill
view-fill s t d ip w =
    view-add_all d ip (view d ip s) (records s) new_dns_store (same_record d ip s w)
    ∙ rw (view-new d ip) (view_listed d ip s w)

pub fill-Sound : (rs : List DnsRecord) (s : DnsStore) → Sound (fill rs s)
unfolding fill
fill-Sound rs s = add_all-Sound rs new_dns_store new-Sound

-- Loading what a sound store saved succeeds, whatever was in the store that loads it, and gives a
-- sound store with the same record for every domain and address, for records that the coding keeps.
pub load-save :
    (codec : Codec) (s t : DnsStore)
    → Sound s
    → All Plain (records s)
    → (r' : DnsStore) × (load codec (content (save codec s)) t ≡ returns (r', true))
      × Sound r'
      × ((d : Bytes) (ip : IPv4) → view d ip r' ≡ view d ip s)
unfolding load save
load-save codec s t w p = (
  fill (records s) t,
  rw (load, codec.decode-encode (records s) p) refl,
  fill-Sound (records s) t,
  λ d ip. view-fill s t d ip w,
)
