-- ===== src/Http/Pages.antt =====
-- Which page `createListHandler` of dns-server/internal/dns_server_http.go answers with.
use mathlib.Core.List.{reverse}
use keenetic_dns.Prelude.{
  ℕ, ◌≡◌, refl, Option, some, Bool, true, false, not, List, ◌>>=◌, if◌then◌else◌,
}
use keenetic_dns.Util.RingBuf.Inv.{Holds}
use keenetic_dns.Stream.Cursor.{Cursor}
use keenetic_dns.Stream.Buffered.{Entry, Buffered, QueryResult, query, collect, reverse_result}
use keenetic_dns.Stream.Buffered.Find.{Increasing}
use keenetic_dns.Stream.Buffered.Contents.{cursors, after, before}
use keenetic_dns.Stream.Buffered.Query.{blank, query_forward, query_backward}
use keenetic_dns.Http.{PageRequest, page_cursor, page_count, list_page}

-- The page in a mode: after the cursor, the items above it, or for a list that goes backward the
-- items below it from the newest on; before the cursor, the items on its other side, nearest last.
abbrev pub page_in {ℓ} :
    {A : Type ℓ} → Bool → Bool → ℕ → Option (A → Bool) → Cursor → List (Entry A) → QueryResult A
page_in true false count filter c xs = collect count filter (after c xs) (blank c)
page_in true true count filter c xs = collect count filter (reverse (before c xs)) (blank c)
page_in false false count filter c xs =
    reverse_result (collect count filter (reverse (before c xs)) (blank c))
page_in false true count filter c xs = reverse_result (collect count filter (after c xs) (blank c))

by_mode :
    {A L : Type 0} (s : Buffered A L) {xs : List (Entry A)}
    → Holds s.buf xs
    → Increasing (cursors xs)
    → (after_mode backward : Bool) (c : Cursor) (count : ℕ) (filter : Option (A → Bool))
    → (do
      res ← query (not (if after_mode then backward else not backward)) c count filter s
      (if after_mode then some res else some (reverse_result res)))
      ≡ some (page_in after_mode backward count filter c xs)
by_mode s held up true false c count filter = rw (query_forward s held up c count filter) refl
by_mode s held up true true c count filter = rw (query_backward s held up c count filter) refl
by_mode s held up false false c count filter = rw (query_backward s held up c count filter) refl
by_mode s held up false true c count filter = rw (query_forward s held up c count filter) refl

-- On a stream of rising cursors the list handler does not panic, and answers every request with the
-- page of its mode.
pub list_page_lem :
    {A L : Type 0} (s : Buffered A L) {xs : List (Entry A)}
    → Holds s.buf xs
    → Increasing (cursors xs)
    → (r : PageRequest) (filter : Option (A → Bool))
    → let (c, after_mode) = page_cursor r in
      list_page filter r s
      ≡ some (page_in after_mode r.backward (page_count r.count_text) filter c xs)
unfolding list_page
list_page_lem s held up r filter =
    by_mode s held up (page_cursor r).1 r.backward (page_cursor r).0 (page_count r.count_text)
      filter
