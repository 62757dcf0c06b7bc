-- ===== src/Inflight.antt =====
-- `singleInflightResolver` of dns-server/internal/dns_resolver.go: calls that ask the same question at
-- the same time share one request. Each call of `Resolve` is a thread; what it does under the mutex,
-- or while it waits, is one step, and the threads take their steps in any order. What the next
-- resolver answers to a request is left open: any message, an error (`none`), or a panic, which the
-- HTTP server recovers from. Over UDP a panic ends the program, and no step follows.
pub mod Invariant
pub mod Steps
pub mod Complete
pub mod Finish
pub mod Safety
pub mod Shared
pub mod Waiting
use keenetic_dns.Prelude.{
  update, update_self, update_other, ℕ, ◌+◌, ◌≡◌, Option, none, some, Bool, true, false, List, [],
  ◌∷◌, ◌==◌, if◌then◌else◌,
}
use keenetic_dns.GoMap
use keenetic_dns.GoMap.{Map}
use keenetic_dns.Message.{Question, question_eq, Msg, has_single_question}
use keenetic_dns.Resolver.{first_question}

-- `inflightRequest`, with the call that made it. `result` is `none` until `Done` is closed.
pub record Slot : Type 0 where
  pub owner : ℕ
  pub result : Option (Option Msg)

-- Where a call of `Resolve` stands, with the request that it knows.
pub data Pc : Type 0 where
  start : Pc  -- before the mutex is taken
  waiting : ℕ → Pc  -- in the `select`, on another call's request
  asking : ℕ → Pc  -- in the next resolver, with a request of its own
  finishing : ℕ → Pc  -- behind `close(req.Done)`
  returned : Option Msg → Pc
  panicked : Pc  -- in the next resolver

-- `singleInflightResolver`, the requests made so far, numbered below `next`, and the calls.
pub record System : Type 0 where
  pub requests : Map Question ℕ
  pub slots : ℕ → Slot
  pub next : ℕ
  pub pc : ℕ → Pc

-- The answer for a call that waited: its own message with the answer records of the other's reply.
unfoldable pub share_answer : Msg → Msg → Msg
share_answer msg resp = record msg { response = true; answer = resp.answer }

-- Before any call: `NewSingleInflightDNSResolver`.
abbrev pub init : System
init = record {
  requests = [];
  slots = λ r. record { owner = 0; result = none };
  next = 0;
  pc = λ i. start;
}

abbrev pub move : System → ℕ → Pc → System
move s i p = record s { pc = update s.pc i p }

-- A new request of the call, which takes the place of one that is registered.
abbrev pub register : System → ℕ → Question → System
register s i q = record {
  requests = GoMap.put q s.next s.requests;
  slots = update s.slots s.next (record { owner = i; result = none });
  next = s.next + 1;
  pc = update s.pc i (asking s.next);
}

-- The result of the request, with `Done` closed.
abbrev pub complete : System → ℕ → ℕ → Option Msg → System
complete s i r o = record s {
  slots = update s.slots r (record { owner = (s.slots r).owner; result = some o });
  pc = update s.pc i (finishing r);
}

-- Whether `s.requests[reqKey]` is the request.
unfoldable pub is_registered : Question → ℕ → Map Question ℕ → Bool
is_registered q r m = elim (GoMap.get q m) [ none ↦ false | some r' ↦ r' == r ]

-- The last lines of `Resolve`.
unfoldable pub unregister : Question → ℕ → Map Question ℕ → Map Question ℕ
unregister q r m = if is_registered q r m then GoMap.delete q m else m

-- The calls' messages.
module _ (msgs : ℕ → Msg) where
  abbrev pub key : ℕ → Option Question
  key i = first_question (msgs i)

  -- A step of the call `i`.
  pub data Step (s : System) : System → Type 0 where
    bypass :
        (i : ℕ) (o : Option Msg)
        → s.pc i ≡ start
        → has_single_question (msgs i) [] ≡ false
        → Step s (move s i (returned o))
    bypass_panics :
        (i : ℕ)
        → s.pc i ≡ start
        → has_single_question (msgs i) [] ≡ false
        → Step s (move s i panicked)
    join :
        (i r : ℕ) (q : Question)
        → s.pc i ≡ start
        → has_single_question (msgs i) [] ≡ true
        → key i ≡ some q
        → GoMap.get q s.requests ≡ some r
        → Step s (move s i (waiting r))
    enter :
        (i : ℕ) (q : Question)
        → s.pc i ≡ start
        → has_single_question (msgs i) [] ≡ true
        → key i ≡ some q
        → GoMap.get q s.requests ≡ none
        → Step s (register s i q)
    cancel : (i r : ℕ) → s.pc i ≡ waiting r → Step s (move s i (returned none))
    share :
        (i r : ℕ) (m : Msg)
        → s.pc i ≡ waiting r
        → (s.slots r).result ≡ some (some m)
        → Step s (move s i (returned (some (share_answer (msgs i) m))))
    retry :
        (i r : ℕ) (q : Question)
        → s.pc i ≡ waiting r
        → (s.slots r).result ≡ some none
        → key i ≡ some q
        → Step s (register s i q)
    answer : (i r : ℕ) (o : Option Msg) → s.pc i ≡ asking r → Step s (complete s i r o)
    panics : (i r : ℕ) → s.pc i ≡ asking r → Step s (move s i panicked)
    finish :
        (i r : ℕ) (q : Question) (o : Option Msg)
        → s.pc i ≡ finishing r
        → key i ≡ some q
        → (s.slots r).result ≡ some o
        → Step s (record (move s i (returned o)) { requests = unregister q r s.requests })

  pub data Reach : System → Type 0 where
    begin : Reach init
    later : {s t : System} → Reach s → Step s t → Reach t

  -- What the calls can do from a state on.
  pub data Later (s : System) : System → Type 0 where
    now : Later s s
    after : {t u : System} → Later s t → Step t u → Later s u
