-- ===== src/Store/Invariant.antt =====
-- What every method of dns-server/internal/dns_store.go keeps: the two maps hold the same records,
-- each under its own domain and address.
use keenetic_dns.Prelude.{
  ◌≡◌, refl, ◌∙◌, Option, none, some, Bool, true, ◌&&◌, List, [], ◌∷◌, arith, if◌then◌else◌, ◌=?◌,
  Bytes, bytes_eq, Bool-cases, inl, inr,
}
use keenetic_dns.GoMap.{get}
use keenetic_dns.Types.{IPv4, ipv4_eq}
use keenetic_dns.Types.Record.{DnsRecord}
use keenetic_dns.MultiMap.{find, AllDistinct}
use keenetic_dns.MultiMap.Laws.{find-set, find-remove}
use keenetic_dns.MultiMap.Entries.{set-AllDistinct, remove-AllDistinct}
use keenetic_dns.Store.{DnsStore, new_dns_store, add, remove, add_all}

-- The record of a domain and an address, as the map by domain has it.
unfoldable pub view : Bytes → IPv4 → DnsStore → Option DnsRecord
view d ip s = find d ip s.by_domain

-- A record that belongs to a domain and an address.
abbrev pub Belongs : Bytes → IPv4 → Option DnsRecord → Type 0
Belongs d ip none = Unit
Belongs d ip (some r) = (r.domain ≡ d) × (r.ip ≡ ip)

-- The store's invariant.
pub record Sound (s : DnsStore) : Type 0 where
  pub by_domain_distinct : AllDistinct s.by_domain
  pub by_ip_distinct : AllDistinct s.by_ip
  pub agree : (d : Bytes) (ip : IPv4) → find ip d s.by_ip ≡ view d ip s
  pub belongs : (d : Bytes) (ip : IPv4) → Belongs d ip (view d ip s)

-- `r` is the record of the domain and the address.
abbrev pub is_for : Bytes → IPv4 → DnsRecord → Bool
is_for d ip r = (r.domain =? d) && (r.ip =? ip)

pub view-add :
    (r : DnsRecord) (s : DnsStore) (d : Bytes) (ip : IPv4)
    → view d ip (add r s) ≡ (if is_for d ip r then some r else view d ip s)
unfolding view add
view-add r s d ip = find-set r.domain d r.ip ip r s.by_domain

pub view-remove :
    (r : DnsRecord) (s : DnsStore) (d : Bytes) (ip : IPv4)
    → view d ip (remove r s) ≡ (if is_for d ip r then none else view d ip s)
unfolding view remove
view-remove r s d ip = find-remove r.domain d r.ip ip s.by_domain

and_comm : (a b : Bool) → (a && b) ≡ (b && a)
and_comm a b = ground arith

pub is_for_iff :
    (d : Bytes) (ip : IPv4) (r : DnsRecord) → is_for d ip r ≡ true → (r.domain ≡ d) × (r.ip ≡ ip)
is_for_iff d ip r h = ground (arith, bytes_eq.beq_iff r.domain d, ipv4_eq.beq_iff r.ip ip)

pub view-new : (d : Bytes) (ip : IPv4) → view d ip new_dns_store ≡ none
unfolding view find get
view-new d ip = refl

pub new-Sound : Sound new_dns_store
unfolding view find get
new-Sound = record {
  by_domain_distinct = tt;
  by_ip_distinct = tt;
  agree = λ d ip. refl;
  belongs = λ d ip. tt;
}

-- Adding a record keeps a store sound.
pub add-Sound : (r : DnsRecord) (s : DnsStore) → Sound s → Sound (add r s)
unfolding add
add-Sound r s w = record {
  by_domain_distinct = set-AllDistinct r.domain r.ip r s.by_domain w.by_domain_distinct;
  by_ip_distinct = set-AllDistinct r.ip r.domain r s.by_ip w.by_ip_distinct;
  agree = λ d ip.
      find-set r.ip ip r.domain d r s.by_ip
      ∙ rw (view-add r s d ip, w.agree d ip, and_comm (r.ip =? ip) (r.domain =? d)) refl;
  belongs = λ d ip. elim (Bool-cases (is_for d ip r)) [
    | inl c ↦ rw (view-add r s d ip, c) (is_for_iff d ip r c)
    | inr c ↦ rw (view-add r s d ip, c) (w.belongs d ip)
  ];
}

-- Removing a record keeps a store sound.
pub remove-Sound : (r : DnsRecord) (s : DnsStore) → Sound s → Sound (remove r s)
unfolding remove
remove-Sound r s w = record {
  by_domain_distinct = remove-AllDistinct r.domain r.ip s.by_domain w.by_domain_distinct;
  by_ip_distinct = remove-AllDistinct r.ip r.domain s.by_ip w.by_ip_distinct;
  agree = λ d ip.
      find-remove r.ip ip r.domain d s.by_ip
      ∙ rw (view-remove r s d ip, w.agree d ip, and_comm (r.ip =? ip) (r.domain =? d)) refl;
  belongs = λ d ip. elim (Bool-cases (is_for d ip r)) [
    | inl c ↦ rw (view-remove r s d ip, c) tt
    | inr c ↦ rw (view-remove r s d ip, c) (w.belongs d ip)
  ];
}

pub add_all-Sound : (rs : List DnsRecord) (s : DnsStore) → Sound s → Sound (add_all rs s)
unfolding add_all
add_all-Sound [] s w = w
add_all-Sound (r ∷ rs) s w = add_all-Sound rs (add r s) (add-Sound r s w)
