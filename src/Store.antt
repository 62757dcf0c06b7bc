-- ===== src/Store.antt =====
-- dns-server/internal/dns_store.go: the known DNS records, by domain and by address. The mutex makes
-- each method one step, so a method is a function on the state.
pub mod Invariant
pub mod Records
pub mod Expiry
pub mod Fill
use keenetic_dns.Prelude.{
  All, In, ◌<◌, ℕ, ◌≡◌, Option, none, some, Bool, true, false, List, [], ◌∷◌, ◌++◌, map,
  if◌then◌else◌, Bytes, bytes_eq,
}
use keenetic_dns.GoMap.{Map, get}
use keenetic_dns.Types.{IPv4, ipv4_eq, Outcome, returns, fails, panics}
use keenetic_dns.Types.Record.{DnsRecord, expired}
use keenetic_dns.Types.AddressText.{IsAddress}
use keenetic_dns.MultiMap
use keenetic_dns.MultiMap.{MultiMap}

-- `DNSStore`
pub record DnsStore : Type 0 where
  pub by_domain : MultiMap Bytes IPv4 DnsRecord
  pub by_ip : MultiMap IPv4 Bytes DnsRecord

-- `NewDNSStore`, and the two maps behind the calls of `clear`.
abbrev pub new_dns_store : DnsStore
new_dns_store = record { by_domain = []; by_ip = [] }

-- `Add` and `add`
unfoldable pub add : DnsRecord → DnsStore → DnsStore
add r s = record {
  by_domain = MultiMap.set r.domain r.ip r s.by_domain;
  by_ip = MultiMap.set r.ip r.domain r s.by_ip;
}

-- `Remove` and `remove`
unfoldable pub remove : DnsRecord → DnsStore → DnsStore
remove r s = record {
  by_domain = MultiMap.remove r.domain r.ip s.by_domain;
  by_ip = MultiMap.remove r.ip r.domain s.by_ip;
}

unfoldable pub add_all : List DnsRecord → DnsStore → DnsStore
add_all [] s = s
add_all (r ∷ rs) s = add_all rs (add r s)

-- `fill`
unfoldable pub fill : List DnsRecord → DnsStore → DnsStore
fill rs s = add_all rs new_dns_store

-- `iterate` and `Records`
unfoldable pub records : DnsStore → List DnsRecord
records s = MultiMap.all_values s.by_domain

-- `LookupIP`
unfoldable pub lookup_ip : IPv4 → DnsStore → List DnsRecord
lookup_ip ip s = elim (get ip s.by_ip) [ none ↦ [] | some m ↦ map (λ e. e.1) m ]

-- The loop of `RemoveExpired`. It removes only the record that it stands at, so it visits the records
-- that were there when it began.
unfoldable pub remove_each : ℕ → ℕ → List DnsRecord → DnsStore → DnsStore
remove_each now extra_ttl [] s = s
remove_each now extra_ttl (r ∷ rs) s =
    remove_each now extra_ttl rs (if expired now extra_ttl r then remove r s else s)

-- `RemoveExpired` at the time `now`
unfoldable pub remove_expired : ℕ → ℕ → DnsStore → DnsStore
unfolding remove_each
remove_expired now extra_ttl s = remove_each now extra_ttl (records s) s

-- What `os.Open` gives `Load`: the file's bytes, or one of its errors.
pub data Opened : Type 0 where
  content : Bytes → Opened
  not_exist : Opened
  open_error : Opened

-- A record that JSON keeps: the domain is ASCII text, the address is one that the program's
-- constructors make, and the year of the time has at most four digits.
abbrev pub Plain : DnsRecord → Type 0
Plain r = All (λ b. b < 128) r.domain × IsAddress r.ip × (r.expires < 315537897600000000000)

-- The JSON coding of a list of records, which the library derives from the fields: what it writes of
-- plain records it reads back. A text that it cannot read is an error; the reading of a text that is no address panics,
-- in `UnmarshalText`.
pub record Codec : Type 0 where
  pub encode : List DnsRecord → Bytes
  pub decode : Bytes → Outcome (List DnsRecord)
  pub decode-encode : (rs : List DnsRecord) → All Plain rs → decode (encode rs) ≡ returns rs

-- `Load`: the state, and whether there was no error. After an error other than that the file is not
-- there, the decoder reads from no file, which is an error.
unfoldable pub load : Codec → Opened → DnsStore → Outcome (DnsStore × Bool)
load codec not_exist s = returns (s, true)
load codec open_error s = returns (s, false)
load codec (content b) s = elim (codec.decode b) [
  | fails ↦ returns (s, false)
  | panics ↦ panics
  | returns rs ↦ returns (fill rs s, true)
]

-- `Save`: what is written to the file.
unfoldable pub save : Codec → DnsStore → Bytes
save codec s = codec.encode (records s)
