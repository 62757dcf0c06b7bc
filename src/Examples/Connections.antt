-- ===== src/Examples/Connections.antt =====
-- Three calls for the connection of the mDNS client.
use keenetic_dns.Prelude.{ℕ, ◌≡◌, refl, none, some, true, false, arith, update}
use keenetic_dns.Mdns.{
  start, reading, between, writing, dialing, given, returned, Client, init, read_lock, found,
  read_unlock, lock, dial, opens, Later, now, after,
}
use keenetic_dns.Mdns.Connection.{stuck_for_good}

-- Calls 0 and 1 have looked, and there is no connection.
abbrev both_look : Client
both_look = record {
  reads = update (update (update (update (λ i. false) 0 true) 1 true) 0 false) 1 false;
  writer = none;
  connected = false;
  opened = 0;
  pc = update (update (update (update (λ i. start) 0 reading) 1 reading) 0 between) 1 between;
}

both_look-Later : Later init both_look
both_look-Later =
    after
      (after (after (after now (read_lock 0 refl refl)) (read_lock 1 refl refl))
        (read_unlock 0 refl refl))
      (read_unlock 1 refl refl)

abbrev one_writes : Client
one_writes = record both_look { writer = some 0; pc = update both_look.pc 0 writing }

nobody_reads : (k : ℕ) → both_look.reads k ≡ false
nobody_reads k = ground arith

one_writes-Later : Later init one_writes
one_writes-Later = after both_look-Later (lock 0 refl refl nobody_reads)

-- Call 0 has opened it.
abbrev one_opened : Client
one_opened = record {
  reads = both_look.reads;
  writer = none;
  connected = true;
  opened = 1;
  pc = update (update one_writes.pc 0 dialing) 0 returned;
}

one_opened-Later : Later init one_opened
one_opened-Later = after (after one_writes-Later (dial 0 refl refl)) (opens 0 refl)

-- Call 2 finds it, while call 1 has yet to lock.
abbrev one_leaked : Client
one_leaked = record one_opened {
  reads = update one_opened.reads 2 true;
  pc = update (update one_opened.pc 2 reading) 2 given;
}

one_leaked-Later : Later init one_leaked
one_leaked-Later = after (after one_opened-Later (read_lock 2 refl refl)) (found 2 refl refl)

-- A call 3 that comes later.
abbrev one_more : Client
one_more = record one_leaked {
  reads = update one_leaked.reads 3 true;
  pc = update one_leaked.pc 3 reading;
}

stuck_for_good_example : (one_more.reads 2 ≡ true) × (one_more.pc 1 ≡ between)
stuck_for_good_example =
    stuck_for_good {s = one_leaked} {t = one_more} 2 1 one_leaked-Later
      (after now (read_lock 3 refl refl)) refl refl
