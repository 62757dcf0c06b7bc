-- ===== src/Message.antt =====
-- What the program reads and writes of the messages of the DNS library, and `hasSingleQuestion` of
-- dns-server/internal/dns_resolver.go. The library's types are kept as far as the program uses them.
use keenetic_dns.Prelude.{
  ℕ, ◌≡◌, ◌↔◌, Bool, true, false, ◌&&◌, ◌||◌, List, [], ◌∷◌, length, ◌==◌, if◌then◌else◌, Eq, Bytes,
  bytes_beq, bytes_beq_iff, arith,
}

-- `dns.Question`
pub record Question : Type 0 where
  pub name : Bytes
  pub qtype : ℕ
  pub qclass : ℕ

abbrev pub question_beq : Question → Question → Bool
question_beq p q = bytes_beq p.name q.name && p.qtype == q.qtype && p.qclass == q.qclass

pub question_beq_iff : (p q : Question) → (question_beq p q ≡ true) ↔ (p ≡ q)
question_beq_iff p q = ground (arith, bytes_beq_iff p.name q.name)

instance abbrev pub question_eq : Eq Question
question_eq = record { beq = question_beq; beq_iff = question_beq_iff }

-- The data of a resource record: `dns.A` with its address, `dns.CNAME` with its target, or another.
pub data Rdata : Type 0 where
  a : Bytes → Rdata
  cname : Bytes → Rdata
  other : Rdata

-- `dns.RR`
pub record Rr : Type 0 where
  pub name : Bytes
  pub ttl : ℕ
  pub data' : Rdata

-- `dns.Msg`
pub record Msg : Type 0 where
  pub id : ℕ
  pub response : Bool
  pub rcode : ℕ
  pub question : List Question
  pub answer : List Rr

-- `dns.TypeA`
abbrev pub type_a : ℕ
type_a = 1

unfoldable pub type_in : ℕ → List ℕ → Bool
type_in t [] = false
type_in t (u ∷ us) = t == u || type_in t us

-- `hasSingleQuestion`; without types every type is accepted.
unfoldable pub has_single_question : Msg → List ℕ → Bool
has_single_question msg types = elim msg.question [
  | [] ↦ false
  | ◌∷◌ q (qs → r) ↦ if length qs == 0 then length types == 0 || type_in q.qtype types else false
]
