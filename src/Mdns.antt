-- ===== src/Mdns.antt =====
-- dns-server/internal/mdns_client.go: the client behind the mDNS resolver. The calls of `connection`
-- are threads that share a read-write mutex and the connection; every lock and every look at the
-- connection is a step, and the threads take their steps in any order. Whether a connection can be
-- opened is left open.
pub mod Connection
use keenetic_dns.Prelude.{
  update, update_self, update_other, ℕ, ◌+◌, ◌≡◌, Option, none, some, Bool, true, false, List, [],
  ◌∷◌, ◌==◌, if◌then◌else◌, ◌>>=◌, Bytes,
}
use keenetic_dns.Text.{trim_right}
use keenetic_dns.Message.{Msg, Rr, a}
use keenetic_dns.Resolver.{first_question}

-- What the mDNS library answers to a query for a name, as far as it is used.
pub record Answer : Type 0 where
  pub name : Bytes
  pub ttl : ℕ
  pub ip : Bytes

-- `mdnsClient.Resolve`, for what `connection` and the query on it give; `none` is an error. The
-- resolver in front of it passes on messages with one question alone.
unfoldable pub resolve : Option (Bytes → Option Answer) → Msg → Option Msg
resolve connection msg = do
  query ← connection
  q ← first_question msg
  answer ← query (trim_right b'.' q.name)
  let rr : Rr = record { name = answer.name; ttl = answer.ttl; data' = a answer.ip }
  some (record msg { response = true; answer = rr ∷ [] })

-- Where a call of `connection` stands.
pub data Pc : Type 0 where
  start : Pc
  reading : Pc  -- behind `RLock`
  between : Pc  -- behind `RUnlock`, before `Lock`
  writing : Pc  -- behind `Lock`
  dialing : Pc  -- behind the second look at the connection
  given : Pc  -- returned with the connection by the first `return`
  returned : Pc  -- returned by another `return`

-- `conn`: who holds the mutex for reading, who for writing, and whether the connection is there; with
-- the number of connections opened, and the calls.
pub record Client : Type 0 where
  pub reads : ℕ → Bool
  pub writer : Option ℕ
  pub connected : Bool
  pub opened : ℕ
  pub pc : ℕ → Pc

abbrev pub init : Client
init = record { reads = λ i. false; writer = none; connected = false; opened = 0; pc = λ i. start }

-- A step of the call `i`.
pub data Step (s : Client) : Client → Type 0 where
  read_lock :
      (i : ℕ)
      → s.pc i ≡ start
      → s.writer ≡ none
      → Step s (record s { reads = update s.reads i true; pc = update s.pc i reading })
  found :
      (i : ℕ)
      → s.pc i ≡ reading
      → s.connected ≡ true
      → Step s (record s { pc = update s.pc i given })
  read_unlock :
      (i : ℕ)
      → s.pc i ≡ reading
      → s.connected ≡ false
      → Step s (record s { reads = update s.reads i false; pc = update s.pc i between })
  lock :
      (i : ℕ)
      → s.pc i ≡ between
      → s.writer ≡ none
      → ((k : ℕ) → s.reads k ≡ false)
      → Step s (record s { writer = some i; pc = update s.pc i writing })
  found_late :
      (i : ℕ)
      → s.pc i ≡ writing
      → s.connected ≡ true
      → Step s (record s { writer = none; pc = update s.pc i returned })
  dial :
      (i : ℕ)
      → s.pc i ≡ writing
      → s.connected ≡ false
      → Step s (record s { pc = update s.pc i dialing })
  open_fails :
      (i : ℕ) → s.pc i ≡ dialing → Step s (record s { writer = none; pc = update s.pc i returned })
  opens :
      (i : ℕ)
      → s.pc i ≡ dialing
      → Step s (record s {
        writer = none;
        connected = true;
        opened = s.opened + 1;
        pc = update s.pc i returned;
      })

-- What can happen from a state on.
pub data Later (s : Client) : Client → Type 0 where
  now : Later s s
  after : {t u : Client} → Later s t → Step t u → Later s u
