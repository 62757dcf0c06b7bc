-- ===== src/Examples/Records.antt =====
-- A store with two records: the examples for dns-server/internal/dns_store.go.
use keenetic_dns.Prelude.{
  zero, suc, map, ◌++◌, ℕ, ◌<◌, ◌≡◌, refl, true, List, [], ◌∷◌, arith, Bytes, nat_eq, bytes_eq, All,
}
use keenetic_dns.GoMap.{get, put, delete}
use keenetic_dns.MultiMap
use keenetic_dns.MultiMap.{MultiMap}
use keenetic_dns.Types.{IPv4, ipv4_eq, Outcome, returns, fails, panics}
use keenetic_dns.Types.Record.{DnsRecord}
use keenetic_dns.Store.{
  DnsStore, new_dns_store, add, add_all, records, remove_expired, content, Codec, Plain, load, save,
}
use keenetic_dns.Store.Invariant.{view, Sound, new-Sound, add_all-Sound}
use keenetic_dns.Store.Expiry.{kept, view-remove_expired}
use keenetic_dns.Store.Fill.{load-save}

abbrev address : ℕ → IPv4
address n = record { a = 10; b = 0; c = 0; d = n; prefix = 32 }

-- The domains "a" and "b".
abbrev first_record : DnsRecord
first_record = record { ip = address 1; domain = b'a' ∷ []; expires = 100 }

abbrev second_record : DnsRecord
second_record = record { ip = address 1; domain = b'b' ∷ []; expires = 900 }

abbrev two_records : DnsStore
two_records = add_all (first_record ∷ second_record ∷ []) new_dns_store

two_records-Sound : Sound two_records
two_records-Sound = add_all-Sound (first_record ∷ second_record ∷ []) new_dns_store new-Sound

-- A map of maps of numbers.
abbrev numbers : MultiMap ℕ ℕ ℕ
numbers = (1, (2, 20) ∷ (3, 30) ∷ []) ∷ (4, (5, 50) ∷ []) ∷ []

view-remove_expired_example :
    Sound (remove_expired 500 10 two_records)
    × ((d : Bytes) (ip : IPv4)
        → view d ip (remove_expired 500 10 two_records) ≡ kept 500 10 (view d ip two_records))
view-remove_expired_example = view-remove_expired 500 10 two_records two_records-Sound

-- A coding that keeps every list: the bytes of a domain are written one higher, and a 0 ends it.
abbrev encode_records : List DnsRecord → Bytes
encode_records [] = []
encode_records (r ∷ rs) =
    map suc r.domain
    ++ 0 ∷ r.ip.a ∷ r.ip.b ∷ r.ip.c ∷ r.ip.d ∷ r.ip.prefix ∷ r.expires ∷ encode_records rs

abbrev put_byte : ℕ → List DnsRecord → Outcome (List DnsRecord)
put_byte x [] = fails
put_byte x (r ∷ rs) = returns (record r { domain = x ∷ r.domain } ∷ rs)

abbrev decode_records : Bytes → Outcome (List DnsRecord)
decode_records [] = returns []
decode_records (suc x ∷ s) = elim (decode_records s) [
  | fails ↦ fails
  | panics ↦ panics
  | returns rs ↦ put_byte x rs
]
decode_records (zero ∷ a ∷ b ∷ c ∷ d ∷ p ∷ t ∷ s) = elim (decode_records s) [
  | fails ↦ fails
  | panics ↦ panics
  | returns rs ↦ returns (
      record { ip = record { a = a; b = b; c = c; d = d; prefix = p }; domain = []; expires = t }
      ∷ rs)
]
decode_records _ = fails

decode-domain :
    (s : Bytes) (ip : IPv4) (t : ℕ) (rs : List DnsRecord)
    → decode_records (encode_records rs) ≡ returns rs
    → decode_records
        (map suc s ++ 0 ∷ ip.a ∷ ip.b ∷ ip.c ∷ ip.d ∷ ip.prefix ∷ t ∷ encode_records rs)
      ≡ returns (record { ip = ip; domain = s; expires = t } ∷ rs)
decode-domain [] ip t rs h = rw (decode_records, h) refl
decode-domain (x ∷ s) ip t rs h = rw (decode_records, decode-domain s ip t rs h) refl

pub decode-encode_records : (rs : List DnsRecord) → decode_records (encode_records rs) ≡ returns rs
decode-encode_records [] = refl
decode-encode_records (r ∷ rs) = decode-domain r.domain r.ip r.expires rs (decode-encode_records rs)

abbrev pub codec : Codec
codec = record {
  encode = encode_records;
  decode = decode_records;
  decode-encode = λ rs plain. decode-encode_records rs;
}

plain_lem :
    (n x t : ℕ)
    → n < 256
    → x < 128
    → t < 1000
    → Plain (record { ip = address n; domain = x ∷ []; expires = t })
plain_lem n x t h k l = (
  (k, tt),
  record {
    a_in = omega arith;
    b_in = omega arith;
    c_in = omega arith;
    d_in = h;
    prefix_in = omega arith;
  },
  omega arith,
)

two_records-Plain : All Plain (records two_records)
unfolding records add_all add MultiMap.set MultiMap.all_values get put delete
two_records-Plain = (
  plain_lem 1 b'b' 900 (omega arith) (omega arith) (omega arith),
  (plain_lem 1 b'a' 100 (omega arith) (omega arith) (omega arith), tt),
)

load-save_example :
    (r' : DnsStore) × (load codec (content (save codec two_records)) new_dns_store
      ≡ returns (r', true))
    × Sound r'
    × ((d : Bytes) (ip : IPv4) → view d ip r' ≡ view d ip two_records)
load-save_example = load-save codec two_records new_dns_store two_records-Sound two_records-Plain
