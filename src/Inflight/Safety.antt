-- ===== src/Inflight/Safety.antt =====
-- What every interleaving of the calls of the single-inflight resolver guarantees.
use keenetic_dns.Prelude.{ℕ, ◌≡◌, inl, inr, sym, ◌∙◌, subst, some, true, false, []}
use keenetic_dns.GoMap
use keenetic_dns.GoMap.{Map}
use keenetic_dns.Message.{Question, question_eq, Msg, has_single_question}
use keenetic_dns.Inflight.{returned, System, key, Reach}
use keenetic_dns.Inflight.Invariant.{Live, PcOk, FromRequest}
use keenetic_dns.Inflight.Finish.{Reach-Inv}

module _ (msgs : ℕ → Msg) where
  -- In every reachable state, a message that a call with a single question has returned answers a
  -- request for this question: it is the reply to the call's own request as it is, or the call's
  -- message with the answer records of the reply to another call's request.
  pub returned-FromRequest :
      {s : System} (i : ℕ) (m : Msg)
      → Reach msgs s
      → s.pc i ≡ returned (some m)
      → has_single_question (msgs i) [] ≡ true
      → FromRequest msgs s.slots s.next i m
  returned-FromRequest {s} i m reach at single =
      elim (subst (PcOk msgs s i) at ((Reach-Inv msgs reach).calls i)) [
        | inl multi ↦ absurd (let n : true ≡ false = sym single ∙ multi in cc)
        | inr f ↦ f
      ]

  -- In every reachable state, a request that is registered for a question belongs to a call with this
  -- question that has not returned yet: none is left behind.
  pub registered-Live :
      {s : System} (q : Question) (r : ℕ)
      → Reach msgs s
      → GoMap.get q s.requests ≡ some r
      → (key msgs (s.slots r).owner ≡ some q) × Live (s.pc (s.slots r).owner) r
  registered-Live q r reach g = let (a, b, c) = (Reach-Inv msgs reach).registered q r g in (b, c)
