-- ===== src/Http/Updates.antt =====
-- How a connection of `createStreamHandler` of dns-server/internal/dns_server_http.go learns of new
-- items: `Append` signals its listener, `debounceUpdateChannel` collects the signals, and the loop of
-- the handler queries the stream. Three goroutines, whose steps come in any order.
pub mod Lost
pub mod Timing
pub mod Underway
use keenetic_dns.Prelude.{
  ℕ, ◌+◌, ◌-◌, ◌<◌, ◌≡◌, Option, none, some, Bool, true, false, ◌&&◌, ◌||◌, List, [], ◌∷◌, min, ltb,
  leb, if◌then◌else◌,
}

-- Where the goroutine of `debounceUpdateChannel` is: in its select, in the select of `sendUpdate`, or
-- away from both: at its start, and when the update has been taken.
pub data Phase : Type 0 where
  selecting : Phase
  sending : Phase
  away : Phase

-- Its timers are the times at which they become ready.
pub record Debouncer : Type 0 where
  pub phase : Phase
  pub min_timer : Option ℕ
  pub max_timer : Option ℕ

-- The loop of `createStreamHandler`: in its select, or on its way to `Query`.
pub data Loop : Type 0 where
  waiting : Loop
  woken : Loop

-- A connection at a time. `listening` says whether its listener is registered. Of the items that pass
-- its filter, `appended` counts those that were appended to the stream since the connection's cursor
-- was read, `seen` those that the cursor has passed; while `locked`, an `Append` has added its item and
-- not yet called the listeners.
pub record Updates : Type 0 where
  pub now : ℕ
  pub debouncer : Debouncer
  pub loop : Loop
  pub listening : Bool
  pub locked : Bool
  pub appended : ℕ
  pub seen : ℕ

-- A timer is ready; the nil channel never is.
unfoldable pub due : ℕ → Option ℕ → Bool
due now none = false
due now (some t) = leb t now

-- The case of `ch`.
unfoldable pub receive : ℕ → ℕ → ℕ → Debouncer → Debouncer
receive min_interval max_interval now d = record d {
  min_timer = some (now + min_interval);
  max_timer = elim d.max_timer [ none ↦ some (now + max_interval) | some t ↦ some t ];
}

-- The listener's send, which does not block: only the select of the debouncer takes it.
unfoldable pub signal : ℕ → ℕ → ℕ → Debouncer → Debouncer
signal min_interval max_interval now d = elim d.phase [
  | selecting ↦ receive min_interval max_interval now d
  | sending ↦ d
  | away ↦ d
]

-- The cases of the timers: `sendUpdate` until its select.
abbrev pub send_update : Debouncer → Debouncer
send_update d = record d { phase = sending; min_timer = none; max_timer = none }

abbrev pub ready : Updates → Bool
ready s = due s.now s.debouncer.min_timer || due s.now s.debouncer.max_timer

-- How many of the items the cursor has passed after the loop's query; `write_ok` says whether the
-- client could be written to.
abbrev pub query_seen : Bool → Updates → ℕ
query_seen write_ok s = if write_ok then s.seen + min 1000 (s.appended - s.seen) else s.seen

-- The call of the listeners by `Append`, as the debouncer sees it.
unfoldable pub notify : ℕ → ℕ → Updates → Debouncer
notify min_interval max_interval s =
    if s.listening then signal min_interval max_interval s.now s.debouncer else s.debouncer

-- A signal that is not given, since the listener is not registered yet, or that nobody takes although
-- the item will not be seen by a query under way; and a query that leaves something.
unfoldable pub unnoticed : Updates → Bool
unnoticed s =
    if s.listening
    then elim s.debouncer.phase [
      | selecting ↦ false
      | sending ↦ false
      | away ↦ elim s.loop [ waiting ↦ true | woken ↦ false ]
    ]
    else true

abbrev pub left_over : Bool → Updates → Bool
left_over write_ok s = ltb (query_seen write_ok s) s.appended

-- What can become of a new connection from the reading of its cursor on: whether something went
-- unnoticed, and the times at which `sendUpdate` was called, the last in front.
module _ (min_interval max_interval : ℕ) where
  pub data History : Bool → List ℕ → Updates → Type 0 where
    opened :
        (now : ℕ)
        → History false [] (record {
          now = now;
          debouncer = record { phase = away; min_timer = none; max_timer = none };
          loop = waiting;
          listening = false;
          locked = false;
          appended = 0;
          seen = 0;
        })
    listens :
        {lost : Bool} {fires : List ℕ} {s : Updates}
        → History lost fires s
        → s.listening ≡ false
        → s.locked ≡ false
        → History lost fires (record s { listening = true })
    passed :
        {lost : Bool} {fires : List ℕ} {s : Updates} (time : ℕ)
        → History lost fires s
        → History lost fires (record s { now = s.now + time })
    appends :
        {lost : Bool} {fires : List ℕ} {s : Updates} (passes : Bool)
        → History lost fires s
        → s.locked ≡ false
        → History lost fires
            (record s { locked = true; appended = s.appended + (if passes then 1 else 0) })
    signals :
        {lost : Bool} {fires : List ℕ} {s : Updates}
        → History lost fires s
        → s.locked ≡ true
        → History
            (lost || unnoticed s)
            fires
            (record s { locked = false; debouncer = notify min_interval max_interval s })
    fires_now :
        {lost : Bool} {fires : List ℕ} {s : Updates}
        → History lost fires s
        → s.debouncer.phase ≡ selecting
        → ready s ≡ true
        → History lost (s.now ∷ fires) (record s { debouncer = send_update s.debouncer })
    hands_over :
        {lost : Bool} {fires : List ℕ} {s : Updates}
        → History lost fires s
        → s.debouncer.phase ≡ sending
        → s.loop ≡ waiting
        → History lost fires
            (record s { debouncer = record s.debouncer { phase = away }; loop = woken })
    selects :
        {lost : Bool} {fires : List ℕ} {s : Updates}
        → History lost fires s
        → s.debouncer.phase ≡ away
        → History lost fires (record s { debouncer = record s.debouncer { phase = selecting } })
    queries :
        {lost : Bool} {fires : List ℕ} {s : Updates} (write_ok : Bool)
        → History lost fires s
        → s.loop ≡ woken
        → s.locked ≡ false
        → History
            (lost || left_over write_ok s)
            fires
            (record s { loop = waiting; seen = query_seen write_ok s })
