-- ===== src/Examples/Streams.antt =====
-- A stream with three entries and one listener: the examples for internal/stream.
use keenetic_dns.Prelude.{
  ℕ, zero, suc, ◌+◌, ◌%◌, ◌<◌, ◌≡◌, refl, Option, none, some, Bool, false, List, [], ◌∷◌, arith,
  get_elem?, pos, ltb, nat_eq,
}
use keenetic_dns.GoMap.{get}
use keenetic_dns.Http.{PageRequest}
use keenetic_dns.Util.RingBuf.Inv.{Holds, last_n}
use keenetic_dns.Stream.Cursor.{Cursor, make_cursor}
use keenetic_dns.Stream.Cursor.Order.{make_cursor_falls}
use keenetic_dns.Stream.Buffered.{Entry, Buffered, new_buffered_stream}
use keenetic_dns.Stream.Buffered.Append.{Live}
use keenetic_dns.Stream.Buffered.History.{entries_of, append_all, append_all-Live}

abbrev pub entry : ℕ → ℕ → Entry ℕ
entry c v = record { cursor = c; val = v }

abbrev pub held_entries : List (Entry ℕ)
held_entries = entry 0 70 ∷ entry 1 80 ∷ entry 2 90 ∷ []

-- Its listener has the key 0.
abbrev pub three : Buffered ℕ ℕ
three = record {
  buf = record { start = 0; end = pos 2; size = 3; buf = held_entries };
  index = 3;
  listeners = (0, 500) ∷ [];
  next_listener = 1;
}

three-entries : (i : ℕ) → i < 3 → get_elem? held_entries ((0 + i) % 3) ≡ get_elem? held_entries i
three-entries zero h = refl
three-entries (suc zero) h = refl
three-entries (suc (suc zero)) h = refl
three-entries (suc (suc (suc i))) h = absurd (omega arith)

three-Holds : Holds three.buf held_entries
three-Holds = record {
  nonempty = omega arith;
  start_in = omega arith;
  size_in = omega arith;
  next_slot = refl;
  count = refl;
  entries = three-entries;
}

pub three-Live : Live three held_entries 0
three-Live = record {
  held = three-Holds;
  rising = omega arith;
  index_small = omega arith;
  below = omega arith;
}

abbrev pub large : Option (ℕ → Bool)
large = some (ltb 75)

-- A value that takes no cursor.
abbrev plain : Cursor → ℕ → ℕ
plain c v = v

make_cursor_falls_example : make_cursor 4294967296 8 < make_cursor 4294967295 7
make_cursor_falls_example =
    make_cursor_falls 4294967295 4294967296 7 8 (omega arith) (omega arith) (omega arith)
      (omega arith)

append_all-Live_example :
    (s : Buffered ℕ ℕ) × (t' : ℕ) × (append_all plain
        ((5, 70) ∷ (9, 80) ∷ [])
        (new_buffered_stream (entry 0 0) 2)
      ≡ some s)
    × Live s (last_n 2 (entries_of plain 0 ((5, 70) ∷ (9, 80) ∷ []))) t'
append_all-Live_example =
    append_all-Live plain (entry 0 0) 1 0 ((5, 70) ∷ (9, 80) ∷ [])
      (omega arith, refl, (omega arith, refl, tt)) (omega arith)

key_free : get three.next_listener three.listeners ≡ none
unfolding get
key_free = refl

-- The page before the newest entry, of at most one item.
abbrev before_newest : PageRequest
before_newest = record {
  after_text = none;
  before_text = some (b'2' ∷ []);
  count_text = some (b'1' ∷ []);
  backward = false;
}
