-- ===== src/Stream/Buffered/Paging.antt =====
-- Pages: a client that asks again from the last cursor of each page sees every matching item once.
use mathlib.Core.List.{map-append}
use native.Mathlib.Decide.{dec_lt}
use keenetic_dns.Prelude.{
  ℕ, zero, suc, ◌<◌, ◌≡◌, ap, Option, none, some, Bool, List, ◌++◌, arith, length, map, take,
  lt→ltb, ltb-false, if◌then◌else◌, ◌>>=◌, length-drop, take_all, take-append-drop,
}
use keenetic_dns.Util.RingBuf.Inv.{Holds}
use keenetic_dns.Stream.Cursor.{Cursor}
use keenetic_dns.Stream.Buffered.{Entry, Buffered, query}
use keenetic_dns.Stream.Buffered.Find.{Increasing}
use keenetic_dns.Stream.Buffered.Contents.{cursors}
use keenetic_dns.Stream.Buffered.Collect.{matching, last_of, collect_lem}
use keenetic_dns.Stream.Buffered.Direction.{ahead}
use keenetic_dns.Stream.Buffered.Ahead.{matching-ahead_page, query_ahead}

module _ {ℓ} {A L : Type ℓ} (s : Buffered A L) (forward : Bool) (count : ℕ)
    (predicate : Option (A → Bool)) where
  -- A client that asks for the next page as long as there is more, from the last cursor it got.
  unfoldable pub read_pages : ℕ → Cursor → Option (List A)
  read_pages zero c = none
  read_pages (suc fuel) c = do
    page ← query forward c count predicate s
    let rest = read_pages fuel page.last_cursor
    (if page.has_more then (do items ← rest; some (page.items ++ items)) else some page.items)

  -- Read page by page, in either direction, a stream of rising cursors returns every item beyond the
  -- cursor that passes the filter, once and in order, whatever the size of a page is, as long as it
  -- is positive.
  pub read_pages_lem :
      (fuel : ℕ) (c : Cursor) (xs : List (Entry A))
      → Holds s.buf xs
      → Increasing (cursors xs)
      → 0 < count
      → length (matching predicate (ahead forward c xs)) < fuel
      → read_pages fuel c ≡ some (map (λ it. it.val) (matching predicate (ahead forward c xs)))
  unfolding read_pages
  read_pages_lem zero c xs held up some_room h = elim h [ ]
  read_pages_lem (suc fuel) c xs held up some_room h =
      rw
        (
          query_ahead s held up forward c count predicate,
          collect_lem count predicate c (ahead forward c xs),
        )
        (elim (dec_lt count (length ms)) [
          | no p ↦ rw (ltb-false count (length ms) (omega arith), take_all count ms (omega arith))
          | yes p ↦ rw (
            lt→ltb count (length ms) p,
            read_pages_lem fuel (last_of c (take count ms)) xs held up some_room (shorter p),
            matching-ahead_page forward predicate count c xs up,
            ← map-append,
            take-append-drop count ms,
          )
        ])
    where
      ms : List (Entry A)
      ms = matching predicate (ahead forward c xs)

      shorter :
          count < length ms
          → length (matching predicate (ahead forward (last_of c (take count ms)) xs)) < fuel
      shorter p = omega (
        arith,
        ap length (matching-ahead_page forward predicate count c xs up),
        length-drop count ms,
      )
