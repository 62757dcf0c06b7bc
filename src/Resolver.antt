-- ===== src/Resolver.antt =====
-- dns-server/internal/dns_resolver.go and mdns_resolver.go: the resolvers that stand before another
-- one. `inner` is what the next resolver answers to a message; `none` is an error.
pub mod Laws
use keenetic_dns.Prelude.{
  ℕ, ◌/◌, ◌%◌, ◌^◌, ◌≡◌, Option, none, some, Bool, true, false, List, [], ◌∷◌, map, ltb, leb, ◌==◌,
  if◌then◌else◌, ◌>>=◌, min, Bytes,
}
use keenetic_dns.Text.{has_suffix}
use keenetic_dns.Message.{Question, Rr, Rdata, a, cname, other, Msg, type_a, has_single_question}
use keenetic_dns.Cache
use keenetic_dns.Cache.{DnsCache, second}

-- `msg.Question[0]`
unfoldable pub first_question : Msg → Option Question
first_question msg = elim msg.question [ [] ↦ none | ◌∷◌ q (qs → r) ↦ some q ]

-- `cachedDNSResolver.Resolve`: the answer or an error, and the cache; the clock shows `now` when the
-- cache is looked at, and `now'` when the reply is put into it.
unfoldable pub cached_resolve : (Msg → Option Msg) → ℕ → ℕ → Msg → DnsCache → Option Msg × DnsCache
cached_resolve inner now now' msg c =
    if has_single_question msg (type_a ∷ [])
    then elim (first_question msg) [
      | none ↦ (none, c)
      | some query ↦ elim (Cache.get now query c) [
        | some resp ↦ (some (record resp { id = msg.id }), c)
        | none ↦ elim (inner msg) [
          | none ↦ (none, c)
          | some resp ↦ (some resp, Cache.put now' query resp c)
        ]
      ]
    ]
    else (inner msg, c)

-- What the override does to an answer: only `dns.A` records change.
unfoldable pub override_ttl : ℕ → Rr → Rr
override_ttl ttl r = elim r.data' [
  | a ip ↦ record r { ttl = min r.ttl ttl }
  | cname t ↦ r
  | other ↦ r
]

-- `ttlOverridingDNSResolver.Resolve`, for a TTL in nanoseconds.
unfoldable pub ttl_overriding_resolve : (Msg → Option Msg) → ℕ → Msg → Option Msg
ttl_overriding_resolve inner ttl msg = do
  resp ← inner msg
  let ttl_override = ttl / second % 2 ^ 32
  (if has_single_question msg (type_a ∷ [])
      then (if ltb 0 ttl_override
          then some (record resp { answer = map (override_ttl ttl_override) resp.answer })
          else some resp)
      else some resp)

-- `NewTTLOverridingDNSResolver`; a negative TTL is one of 0.
unfoldable pub new_ttl_overriding : (Msg → Option Msg) → ℕ → Msg → Option Msg
unfolding ttl_overriding_resolve
new_ttl_overriding inner ttl msg =
    if ttl == 0 then inner msg else ttl_overriding_resolve inner ttl msg

unfoldable pub ends_with_any : Bytes → List Bytes → Bool
ends_with_any name [] = false
ends_with_any name (d ∷ ds) =
    let rest = ends_with_any name ds in if has_suffix name d then true else rest

-- `mdnsResolver.shouldProcessQuery`
unfoldable pub should_process_query : List Bytes → Msg → Bool
should_process_query domains msg =
    if has_single_question msg (type_a ∷ [])
    then elim (first_question msg) [ none ↦ false | some q ↦ ends_with_any q.name domains ]
    else false

-- `mdnsResolver.Resolve`
unfoldable pub mdns_resolve :
    (Msg → Option Msg) → (Msg → Option Msg) → List Bytes → Msg → Option Msg
mdns_resolve client resolver domains msg =
    if should_process_query domains msg then client msg else resolver msg
