-- ===== src/Examples/Requests.antt =====
-- Two calls with the same question: the examples for the single-inflight resolver.
use keenetic_dns.Prelude.{ℕ, zero, suc, ◌≡◌, ◌⊎◌, refl, none, some, true, [], arith}
use keenetic_dns.GoMap
use keenetic_dns.Message.{question_eq, Msg, has_single_question}
use keenetic_dns.Resolver.{first_question}
use keenetic_dns.Inflight.{
  waiting, returned, System, share_answer, init, move, register, complete, enter, join, answer,
  share, Reach, begin, later,
}
use keenetic_dns.Inflight.Invariant.{FromRequest}
use keenetic_dns.Inflight.Safety.{returned-FromRequest}
use keenetic_dns.Inflight.Waiting.{Answered, Expected, Abandoned, waiting_goes_on}
use keenetic_dns.Inflight.Shared.{NoErrors, single_flight}
use keenetic_dns.Examples.Answers.{asked, query, reply}

abbrev msgs : ℕ → Msg
msgs i = query

one_question : has_single_question query [] ≡ true
unfolding has_single_question
one_question = refl

the_question : first_question query ≡ some asked
unfolding first_question
the_question = refl

-- Call 0 asks.
abbrev one_asks : System
one_asks = register init 0 asked

-- Call 1 waits for it.
abbrev one_waits : System
one_waits = move one_asks 1 (waiting 0)

-- Call 0 has got its reply, and call 1 has taken it.
abbrev one_shares : System
one_shares =
    move (complete one_waits 0 0 (some reply)) 1 (returned (some (share_answer query reply)))

registered_now : GoMap.get asked one_asks.requests ≡ some 0
unfolding GoMap.get GoMap.put GoMap.delete
registered_now = refl

nothing_yet : GoMap.get asked init.requests ≡ none
unfolding GoMap.get
nothing_yet = refl

one_asks-Reach : Reach msgs one_asks
one_asks-Reach = later begin (enter 0 asked refl one_question the_question nothing_yet)

one_waits-Reach : Reach msgs one_waits
one_waits-Reach =
    later one_asks-Reach (join 1 0 asked refl one_question the_question registered_now)

one_shares-Reach : Reach msgs one_shares
one_shares-Reach =
    later (later one_waits-Reach (answer 0 0 (some reply) refl)) (share 1 0 reply refl refl)

returned-FromRequest_example :
    FromRequest msgs one_shares.slots one_shares.next 1 (share_answer query reply)
returned-FromRequest_example =
    returned-FromRequest msgs 1 (share_answer query reply) one_shares-Reach refl one_question

waiting_goes_on_example :
    Answered msgs one_waits 0 ⊎ Expected msgs one_waits 1 0 ⊎ Abandoned msgs one_waits 1 0
waiting_goes_on_example = waiting_goes_on msgs 1 0 one_waits-Reach refl

two_calls-NoErrors : NoErrors one_waits
two_calls-NoErrors zero h e = cc
two_calls-NoErrors (suc r) h e = absurd (omega arith)

single_flight_example : ◌≡◌ {A = ℕ} 0 0
single_flight_example =
    single_flight msgs 0 0 0 0 asked one_waits-Reach two_calls-NoErrors refl refl the_question
      the_question
