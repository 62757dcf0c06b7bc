-- ===== src/Examples/Updates.antt =====
-- A connection with one item, and a client of the server's own.
use mathlib.Core.List.{Perm}
use keenetic_dns.Prelude.{
  ℕ, ◌+◌, ◌-◌, ◌%◌, ◌<◌, ◌≤◌, ◌≡◌, refl, none, some, Option, true, false, [], ◌∷◌, pos, Bytes,
  arith,
}
use keenetic_dns.Message.{Msg}
use keenetic_dns.Types.Record.{DnsRecord}
use keenetic_dns.Types.Ttl.{second, ttl, ttl_rounds}
use keenetic_dns.Routes.{Controller}
use keenetic_dns.Routes.Listing.{routes}
use keenetic_dns.Http.RouteList.{Listed, handle_routes, handle_routes_lem}
use keenetic_dns.Http.Updates.{
  selecting, waiting, Updates, due, receive, signal, unnoticed, ready, History, opened, passed,
  appends, signals, fires_now, listens, notify, selects, queries, hands_over,
}
use keenetic_dns.Http.Updates.Timing.{Apart, sends_spaced}
use keenetic_dns.Http.Updates.Underway.{Underway}
use keenetic_dns.Http.Updates.Lost.{Idle, update_lost}
use keenetic_dns.Client.{doh_resolve}
use keenetic_dns.Client.Served.{served, expected, doh_resolve-handle_dns_query}
use keenetic_dns.Examples.Routing.{host, controller}

-- An item that passes the filter comes at once.
abbrev one_waits : Updates
one_waits = record {
  now = 0;
  debouncer = record { phase = selecting; min_timer = some 500; max_timer = some 2000 };
  loop = waiting;
  listening = true;
  locked = false;
  appended = 1;
  seen = 0;
}

one_signal : History 500 2000 false [] one_waits
unfolding signal receive unnoticed notify
one_signal = signals (appends true (selects (listens (opened 0) refl refl) refl) refl) refl

-- It is sent, and the debouncer is back in its select.
abbrev one_sent : Updates
one_sent = record {
  now = 600;
  debouncer = record { phase = selecting; min_timer = none; max_timer = none };
  loop = waiting;
  listening = true;
  locked = false;
  appended = 1;
  seen = 1;
}

one_update : History 500 2000 false (600 ∷ []) one_sent
unfolding due
one_update =
    selects
      (queries true (hands_over (fires_now (passed 600 one_signal) refl refl) refl refl) refl refl)
      refl

-- Another one comes, and is sent.
abbrev two_sent : Updates
two_sent = record one_sent {
  now = 1100;
  debouncer = record {
    phase = keenetic_dns.Http.Updates.sending;
    min_timer = none;
    max_timer = none;
  };
  appended = 2;
}

two_updates : History 500 2000 false (1100 ∷ 600 ∷ []) two_sent
unfolding due signal receive unnoticed notify
two_updates = fires_now (passed 500 (signals (appends true one_update refl) refl)) refl refl

sends_spaced_example : Apart 500 2000 (omega arith) (1100 ∷ 600 ∷ [])
sends_spaced_example = sends_spaced 500 2000 (omega arith) two_updates

update_lost_example :
    (time : ℕ) × (s : Updates) × History 500 2000 true (time ∷ []) s
    × (s.appended ≡ 2)
    × (s.seen ≡ 1)
    × Idle s
update_lost_example = update_lost 500 2000

abbrev pack_id : Msg → Option Bytes
pack_id m = some (m.id ∷ [])

abbrev empty_message : ℕ → Msg
empty_message id = record { id = id; response = false; rcode = 0; question = []; answer = [] }

abbrev unpack_id : Bytes → Option Msg
unpack_id [] = none
unpack_id (b ∷ s) = some (empty_message b)

abbrev next_id : Msg → Option Msg
next_id m = some (empty_message (m.id + 1))

doh_resolve-handle_dns_query_example :
    doh_resolve pack_id unpack_id
      (λ url. true)
      (served unpack_id pack_id next_id)
      []
      (empty_message 7)
    ≡ expected unpack_id pack_id (next_id (empty_message 7))
doh_resolve-handle_dns_query_example =
    doh_resolve-handle_dns_query pack_id unpack_id (λ url. true) next_id [] (empty_message 7)
      (7 ∷ []) refl refl refl

abbrev two_routes : Controller
two_routes = record controller {
  routes =
      (record { table = 100; iface = b't' ∷ []; addr = record (host 1) { prefix = 24 } }, tt)
      ∷ (record { table = 100; iface = b't' ∷ []; addr = host 9 }, tt)
      ∷ [];
}

handle_routes_lem_example :
    Listed (handle_routes 50 two_routes) × Perm (handle_routes 50 two_routes) (routes 50 two_routes)
handle_routes_lem_example = handle_routes_lem 50 two_routes

abbrev short_lived : DnsRecord
short_lived = record { ip = host 9; domain = b'a' ∷ []; expires = 5500000000 }

ttl_rounds_example :
    (t : ℕ) × (ttl 1000000000 short_lived ≡ pos t)
    × (t % second ≡ 0)
    × (t ≤ short_lived.expires - 1000000000)
    × (short_lived.expires - 1000000000 < t + second)
ttl_rounds_example =
    ttl_rounds 1000000000 short_lived (λ e. absurd (omega (arith, e))) (omega arith)
