-- ===== src/Cache.antt =====
-- dns-server/internal/dns_cache.go: answers kept until the shortest of their positive TTLs is over.
-- Time is a number of nanoseconds; a method reads the clock once.
pub mod Laws
use keenetic_dns.Prelude.{
  ℕ, ◌+◌, ◌-◌, ◌*◌, ◌/◌, ◌%◌, ◌^◌, ◌≡◌, Option, none, some, Bool, true, false, ◌&&◌, not, List, [],
  ◌∷◌, map, ltb, ◌==◌, if◌then◌else◌, max, length,
}
use keenetic_dns.GoMap
use keenetic_dns.GoMap.{Map}
use keenetic_dns.Message.{Question, question_eq, Rr, Msg}

-- `dnsCacheEntry`
pub record Entry : Type 0 where
  pub result : Msg
  pub expires : ℕ

-- `DNSCache`
abbrev pub DnsCache : Type 0
DnsCache = Map Question Entry

abbrev pub new_dns_cache : DnsCache
new_dns_cache = []

abbrev pub second : ℕ
second = 1000000000

-- `dnsCacheEntry.Expired`
unfoldable pub expired : ℕ → Entry → Bool
expired now e = ltb e.expires now

-- `res.Answer[i].Header().Ttl = ttl` for every answer.
unfoldable pub set_ttl : ℕ → List Rr → List Rr
set_ttl t rs = map (λ (r : Rr). record r { ttl = t }) rs

-- `dnsCacheEntry.Result`, of an entry that has not expired.
unfoldable pub result_at : ℕ → Entry → Msg
result_at now e =
    let ttl = max 1 ((e.expires - now) / second % 2 ^ 32) in
    record e.result { answer = set_ttl ttl e.result.answer }

-- `Get`
unfoldable pub get : ℕ → Question → DnsCache → Option Msg
get now query c = elim (GoMap.get query c) [
  | none ↦ none
  | some e ↦ if not (expired now e) then some (result_at now e) else none
]

-- The loop of `Put`: the shortest positive TTL, `none` for `math.MaxInt`.
unfoldable pub min_ttl : List Rr → Option ℕ → Option ℕ
min_ttl [] m = m
min_ttl (r ∷ rs) none = min_ttl rs (if ltb 0 r.ttl then some r.ttl else none)
min_ttl (r ∷ rs) (some m) = min_ttl rs (some (if ltb 0 r.ttl && ltb r.ttl m then r.ttl else m))

-- `Put`; without an answer there is no positive TTL either.
unfoldable pub put : ℕ → Question → Msg → DnsCache → DnsCache
put now query result c = elim (min_ttl result.answer none) [
  | none ↦ c
  | some m ↦ GoMap.put query (record { result = result; expires = now + m * second }) c
]

-- The loop of `RemoveExpired`, which deletes the entry that it stands at.
unfoldable pub remove_each : ℕ → List (Question × Entry) → DnsCache → DnsCache
remove_each now [] c = c
remove_each now ((k, e) ∷ es) c = remove_each now es (if expired now e then GoMap.delete k c else c)

-- `RemoveExpired`
unfoldable pub remove_expired : ℕ → DnsCache → DnsCache
unfolding remove_each
remove_expired now c = remove_each now c c
