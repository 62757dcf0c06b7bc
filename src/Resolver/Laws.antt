-- ===== src/Resolver/Laws.antt =====
-- The resolvers of dns-server/internal/dns_resolver.go.
use keenetic_dns.Prelude.{
  ℕ, ◌*◌, ◌/◌, ◌%◌, ◌^◌, ◌≤◌, ◌<◌, ◌≡◌, refl, Option, some, true, List, [], ◌∷◌, map, All, lt→ltb,
  arith, Bytes,
}
use keenetic_dns.Message.{
  Question, Rr, Rdata, a, cname, other, Msg, type_a, has_single_question, type_in,
}
use keenetic_dns.Cache
use keenetic_dns.Cache.{second}
use keenetic_dns.Resolver.{override_ttl, ttl_overriding_resolve}

-- The message asks for the addresses of one name.
abbrev pub Asks : Msg → Question → Type 0
Asks msg q = (msg.question ≡ q ∷ []) × (q.qtype ≡ type_a)

single : (msg : Msg) (q : Question) → Asks msg q → has_single_question msg (type_a ∷ []) ≡ true
unfolding has_single_question type_in
single msg q (e, f) = rw (has_single_question, e, f) refl

-- No address record has a longer TTL than the one given.
abbrev pub Capped : ℕ → Rr → Type 0
Capped cap r = elim r.data' [ a ip ↦ r.ttl ≤ cap | cname t ↦ Unit | other ↦ Unit ]

override_ttl-Capped :
    (cap : ℕ) (n : Bytes) (t : ℕ) (d : Rdata)
    → Capped cap (override_ttl cap (record { name = n; ttl = t; data' = d }))
unfolding override_ttl
override_ttl-Capped cap n t (a ip) = omega arith
override_ttl-Capped cap n t (cname x) = tt
override_ttl-Capped cap n t other = tt

override_each-Capped : (cap : ℕ) (rs : List Rr) → All (Capped cap) (map (override_ttl cap) rs)
override_each-Capped cap [] = tt
override_each-Capped cap (r ∷ rs) =
    (override_ttl-Capped cap r.name r.ttl r.data', override_each-Capped cap rs)

-- With an override of at least a second (and less than 2 ^ 32 seconds) the answer to a query for addresses is
-- that of the next resolver, where no address record has a TTL longer than the override.
pub ttl_overriding_lem :
    (inner : Msg → Option Msg) (ttl : ℕ) (msg resp : Msg) (q : Question)
    → Asks msg q
    → inner msg ≡ some resp
    → second ≤ ttl
    → ttl < 2 ^ 32 * second
    → (rs : List Rr) × (ttl_overriding_resolve inner ttl msg ≡ some (record resp { answer = rs }))
      × (rs ≡ map (override_ttl (ttl / second)) resp.answer)
      × All (Capped (ttl / second)) rs
unfolding ttl_overriding_resolve
ttl_overriding_lem inner ttl msg resp q h i lo hi =
    let whole : ttl / second % 2 ^ 32 ≡ ttl / second = omega arith in
    (
      map (override_ttl (ttl / second)) resp.answer,
      rw (i, single msg q h, whole, lt→ltb 0 (ttl / second) (omega arith)) refl,
      refl,
      override_each-Capped (ttl / second) resp.answer,
    )
