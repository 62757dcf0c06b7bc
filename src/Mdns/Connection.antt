-- ===== src/Mdns/Connection.antt =====
-- What holds whenever the mDNS client's connection is asked for, and the lock that is not given back.
use keenetic_dns.Prelude.{ℕ, ◌≡◌, ◌≤◌, ◌⊎◌, inr, refl, sym, ◌∙◌, some, true, false, arith}
use keenetic_dns.Mdns.{
  reading, between, writing, dialing, given, Client, init, Step, read_lock, found, read_unlock,
  lock, found_late, dial, open_fails, opens, Later, now, after,
}

-- One call at most has the mutex for writing, and opens a connection only while there is none.
record Inv (s : Client) : Type 0 where
  writes : (i : ℕ) → (s.pc i ≡ writing) ⊎ (s.pc i ≡ dialing) → s.writer ≡ some i
  dials : (i : ℕ) → s.pc i ≡ dialing → s.connected ≡ false
  once : s.opened ≤ 1
  unopened : s.connected ≡ false → s.opened ≡ 0

init-Inv : Inv init
init-Inv = record {
  writes = λ i h. ground arith;
  dials = λ i h. ground arith;
  once = omega arith;
  unopened = λ h. refl;
}

Step-Inv : {s t : Client} → Step s t → Inv s → Inv t
Step-Inv (read_lock i at free) v = record {
  writes = λ j h. ground (arith, v.writes j);
  dials = λ j h. ground (arith, v.dials j);
  once = v.once;
  unopened = v.unopened;
}
Step-Inv (found i at there) v = record {
  writes = λ j h. ground (arith, v.writes j);
  dials = λ j h. ground (arith, v.dials j);
  once = v.once;
  unopened = v.unopened;
}
Step-Inv (read_unlock i at none_yet) v = record {
  writes = λ j h. ground (arith, v.writes j);
  dials = λ j h. ground (arith, v.dials j);
  once = v.once;
  unopened = v.unopened;
}
Step-Inv (lock i at free quiet) v = record {
  writes = λ j h. ground (arith, v.writes j);
  dials = λ j h. ground (arith, v.dials j);
  once = v.once;
  unopened = v.unopened;
}
Step-Inv (found_late i at there) v = record {
  writes = λ j h. ground (arith, v.writes j, v.writes i);
  dials = λ j h. ground (arith, v.dials j);
  once = v.once;
  unopened = v.unopened;
}
Step-Inv (dial i at none_yet) v = record {
  writes = λ j h. ground (arith, v.writes j, v.writes i);
  dials = λ j h. ground (arith, v.dials j);
  once = v.once;
  unopened = v.unopened;
}
Step-Inv (open_fails i at) v = record {
  writes = λ j h. ground (arith, v.writes j, v.writes i);
  dials = λ j h. ground (arith, v.dials j);
  once = v.once;
  unopened = v.unopened;
}
Step-Inv (opens i at) v = record {
  writes = λ j h. ground (arith, v.writes j, v.writes i);
  dials = λ j h. ground (arith, v.dials j, v.writes i, v.writes j);
  once = ground (arith, v.dials i, v.unopened);
  unopened = λ h. cc;
}

Later-Inv : {s : Client} → Later init s → Inv s
Later-Inv now = init-Inv
Later-Inv (after l st) = Step-Inv st (Later-Inv l)

-- However the calls interleave, one connection is opened at most, and one call at most is between
-- `Lock` and `Unlock`.
pub opened_once :
    {s : Client}
    → Later init s
    → (s.opened ≤ 1)
      × ((i j : ℕ)
          → (s.pc i ≡ writing) ⊎ (s.pc i ≡ dialing)
          → (s.pc j ≡ writing) ⊎ (s.pc j ≡ dialing)
          → i ≡ j)
opened_once l =
    let v = Later-Inv l in (v.once, λ i j h k. let e = v.writes i h in let f = v.writes j k in cc)

-- A call returned by the first `return` and holds the mutex for reading.
abbrev Leaked : Client → ℕ → Type 0
Leaked s k = (s.pc k ≡ given) × (s.reads k ≡ true)

Step-stuck :
    {s t : Client} (k j : ℕ)
    → Step s t
    → Leaked s k
    → s.pc j ≡ between
    → Leaked t k × (t.pc j ≡ between)
Step-stuck k j (read_lock i at free) h e = ground arith
Step-stuck k j (found i at there) h e = ground arith
Step-stuck k j (read_unlock i at none_yet) h e = ground arith
Step-stuck k j (lock i at free quiet) h e = let n : true ≡ false = sym h.1 ∙ quiet k in cc
Step-stuck k j (found_late i at there) h e = ground arith
Step-stuck k j (dial i at none_yet) h e = ground arith
Step-stuck k j (open_fails i at) h e = ground arith
Step-stuck k j (opens i at) h e = ground arith

-- A call that is about to take the mutex for writing waits behind it from then on.
stuck_behind :
    {s t : Client} (k j : ℕ)
    → Later s t
    → Leaked s k
    → s.pc j ≡ between
    → Leaked t k × (t.pc j ≡ between)
stuck_behind k j now h e = (h, e)
stuck_behind k j (after l st) h e = let (h', e') = stuck_behind k j l h e in Step-stuck k j st h' e'

-- The first `return` leaves the mutex held for reading: every call that it was left by holds it.
reads_kept :
    {s t : Client} (k : ℕ)
    → Step s t
    → ((s.pc k ≡ reading) ⊎ (s.pc k ≡ given) → s.reads k ≡ true)
    → (t.pc k ≡ reading) ⊎ (t.pc k ≡ given)
    → t.reads k ≡ true
reads_kept k (read_lock i at free) h e = ground arith
reads_kept k (found i at there) h e = ground arith
reads_kept k (read_unlock i at none_yet) h e = ground arith
reads_kept k (lock i at free quiet) h e = ground arith
reads_kept k (found_late i at there) h e = ground arith
reads_kept k (dial i at none_yet) h e = ground arith
reads_kept k (open_fails i at) h e = ground arith
reads_kept k (opens i at) h e = ground arith

holds_on :
    {s : Client} (k : ℕ) → Later init s → (s.pc k ≡ reading) ⊎ (s.pc k ≡ given) → s.reads k ≡ true
holds_on k now h = ground arith
holds_on k (after l st) h = reads_kept k st (holds_on k l) h

-- Every call that was given the connection by the first `return` holds the mutex for reading from
-- then on.
given-Leaked : {s : Client} (k : ℕ) → Later init s → s.pc k ≡ given → Leaked s k
given-Leaked k l e = (e, holds_on k l (inr e))

-- Once a call has returned by the first `return`, it holds the mutex for reading for good: whatever
-- the calls do from then on, a call that is about to take the mutex for writing never gets on.
pub stuck_for_good :
    {s t : Client} (k j : ℕ)
    → Later init s
    → Later s t
    → s.pc k ≡ given
    → s.pc j ≡ between
    → (t.reads k ≡ true) × (t.pc j ≡ between)
stuck_for_good k j before l at e =
    let (h, stays) = stuck_behind k j l (given-Leaked k before at) e in (h.1, stays)
