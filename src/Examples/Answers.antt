-- ===== src/Examples/Answers.antt =====
-- A query for the addresses of "a." and its answer: the examples for the cache and the resolvers.
use keenetic_dns.Prelude.{◌≡◌, refl, Option, none, some, true, false, [], ◌∷◌, Bytes}
use keenetic_dns.GoMap
use keenetic_dns.GoMap.{Distinct}
use keenetic_dns.Message.{Question, question_eq, Rr, a, Msg}
use keenetic_dns.Cache
use keenetic_dns.Cache.{Entry, DnsCache, remove_expired}
use keenetic_dns.Service.{Collected, Followed, follow}
use keenetic_dns.Service.Chain.{follow-ends_for_all}

abbrev pub asked : Question
asked = record { name = b'a' ∷ b'.' ∷ []; qtype = 1; qclass = 1 }

abbrev pub query : Msg
query = record { id = 7; response = false; rcode = 0; question = asked ∷ []; answer = [] }

abbrev query_again : Msg
query_again = record { id = 8; response = false; rcode = 0; question = asked ∷ []; answer = [] }

abbrev address_record : Rr
address_record = record { name = b'a' ∷ b'.' ∷ []; ttl = 300; data' = a (10 ∷ 0 ∷ 0 ∷ 1 ∷ []) }

abbrev pub reply : Msg
reply = record {
  id = 7;
  response = true;
  rcode = 0;
  question = asked ∷ [];
  answer = address_record ∷ [];
}

abbrev answers : Msg → Option Msg
answers m = some reply

abbrev fails_always : Msg → Option Msg
fails_always m = none

-- A cache with an entry that expires at 50.
abbrev cached : DnsCache
cached = (asked, record { result = reply; expires = 50 }) ∷ []

cached-Distinct : Distinct cached
unfolding GoMap.get
cached-Distinct = (refl, tt)

-- An alias of a name for itself.
abbrev round_about : Collected
round_about = record { cnames = (b'a' ∷ [], (b'a' ∷ [], 60)) ∷ []; ttl = 60; name_ips = [] }

abbrev nowhere : Bytes → Bytes
nowhere host = []

follow-ends_for_all_example :
    (f : Followed) × (follow 2 nowhere round_about (b'a' ∷ []) [] [] 60 ≡ some f)
follow-ends_for_all_example = follow-ends_for_all nowhere round_about (b'a' ∷ []) 60
