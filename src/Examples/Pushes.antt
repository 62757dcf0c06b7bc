-- ===== src/Examples/Pushes.antt =====
-- Clients that follow a stream.
use keenetic_dns.Prelude.{
  ℕ, ◌^◌, ◌-◌, ◌≤◌, ◌≡◌, refl, some, Bool, true, List, [], ◌∷◌, ◌++◌, All, arith, length-keep_le,
}
use keenetic_dns.Util.RingBuf.Inv.{Holds}
use keenetic_dns.Stream.Cursor.{Cursor}
use keenetic_dns.Stream.Buffered.{Entry, Buffered, new_buffered_stream, passes}
use keenetic_dns.Stream.Buffered.Find.{Increasing}
use keenetic_dns.Stream.Buffered.Contents.{cursors, after}
use keenetic_dns.Stream.Buffered.Append.{Live}
use keenetic_dns.Stream.Buffered.History.{new_buffered_stream-Live}
use keenetic_dns.Http.{Connection, last_cursor, push_update}
use keenetic_dns.Http.Push.{
  items_after, pushed, push_lem, Run, begin, append, update, sent_once, update_catches_up,
  silent_from_empty,
}
use keenetic_dns.Examples.Streams.{entry, held_entries, three, three-Live, large}

-- A client that has been served up to the first entry.
abbrev opened : Connection ℕ
opened = record { cursor = 0; sent = [] }

update_catches_up_example :
    (d : Connection ℕ) × (push_update large true three opened ≡ some d)
    × (d.sent ≡ [] ++ items_after large 0 held_entries)
    × (items_after large d.cursor held_entries ≡ [])
update_catches_up_example =
    update_catches_up large three held_entries opened three-Live.held three-Live.rising
      (omega (arith, length-keep_le (λ (it : Entry ℕ). passes large it.val) (after 0 held_entries)))

-- The third entry arrives, and the stream is read.
abbrev served : Connection ℕ
served = pushed large true held_entries opened

served-pushed : push_update large true three opened ≡ some served
served-pushed = push_lem large three held_entries true opened three-Live.held three-Live.rising

served-Run : Run large ℕ 0 held_entries served
served-Run =
    update three held_entries true
      (append (entry 2 90) (begin (entry 0 70 ∷ entry 1 80 ∷ []) (omega arith)) three-Live.rising
        (omega arith))
      three-Live.held three-Live.rising refl served-pushed

sent_once_example :
    served.sent ++ items_after large served.cursor held_entries ≡ items_after large 0 held_entries
sent_once_example = sent_once large served-Run

abbrev empty : Buffered ℕ ℕ
empty = new_buffered_stream (entry 0 0) 3

empty-Live : Live empty [] 0
empty-Live = new_buffered_stream-Live (entry 0 0) 2 0

silent_from_empty_example :
    (c0 : Cursor) × (last_cursor empty ≡ some c0)
    × ((st' : Buffered ℕ ℕ) (xs : List (Entry ℕ)) (write_ok : Bool)
        → Holds st'.buf xs
        → Increasing (cursors xs)
        → All (λ k. k ≤ 2 ^ 64 - 1) (cursors xs)
        → push_update large write_ok st' (record { cursor = c0; sent = [] })
          ≡ some (record { cursor = c0; sent = [] }))
silent_from_empty_example = silent_from_empty large empty empty-Live.held
