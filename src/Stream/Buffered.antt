-- ===== src/Stream/Buffered.antt =====
-- internal/stream/buffered.go: a stream that remembers its last items, each under a cursor, and
-- tells its listeners of new ones. The mutex makes each method one step, so a method is a function
-- on the state. `none` is a panic of the ring buffer.
pub mod Find
pub mod Contents
pub mod Collect
pub mod Query
pub mod Direction
pub mod Ahead
pub mod Back
pub mod Paging
pub mod Append
pub mod History
pub mod Listeners
use Prim.Native.Nat.{compare, Ordering}
use mathlib.Core.List.{reverse}
use keenetic_dns.Prelude.{
  ℕ, zero, suc, ◌+◌, ◌-◌, ◌/◌, ◌%◌, ◌^◌, Option, none, some, Bool, true, false, not, ◌||◌, List, [],
  ◌∷◌, ◌++◌, map, length, ltb, leb, ◌==◌, if◌then◌else◌, ◌>>=◌, ℤ, pos, negsuc, ◌+ℤ◌, ltb_ℤ, nat_eq,
}
use keenetic_dns.GoMap.{Map, put, delete}
use keenetic_dns.Util.RingBuf
use keenetic_dns.Util.RingBuf.{RingBuf}
use keenetic_dns.Stream.Cursor.{Cursor, make_cursor}

-- `streamEntry[T]`
pub record Entry {ℓ} (A : Type ℓ) : Type ℓ where
  pub cursor : Cursor
  pub val : A

-- `Buffered[T]`. `index` is the bit pattern of an `int32`. `L` stands for the listeners' closures.
pub record Buffered {ℓ} (A L : Type ℓ) : Type ℓ where
  pub buf : RingBuf (Entry A)
  pub index : ℕ
  pub listeners : Map ℕ L
  pub next_listener : ℕ

-- `QueryResult[T]`; a nil `Items` is the empty list.
pub record QueryResult {ℓ} (A : Type ℓ) : Type ℓ where
  pub items : List A
  pub first_cursor : Cursor
  pub last_cursor : Cursor
  pub has_more : Bool

-- `sort.Find`: the smallest index in [i, j) at which `test` is not greater, by halving; `test`
-- compares the target with the entry at an index. Each round shortens the interval, so `j - i`
-- rounds are enough.
pub find_loop : ℕ → (ℕ → Option Ordering) → ℕ → ℕ → Option ℕ
find_loop zero test i j = some i
find_loop (suc fuel) test i j =
    let h = (i + j) / 2 in
    let right = find_loop fuel test (h + 1) j in
    let left = find_loop fuel test i h in
    if ltb i j then (do o ← test h; elim o [ Ordering.gt ↦ right | _ ↦ left ]) else some i

pub find : ℕ → (ℕ → Option Ordering) → Option (ℕ × Bool)
unfolding find_loop
find n test = do
  i ← find_loop n test 0 n
  (if ltb i n
      then (do o ← test i; some (i, elim o [ Ordering.eq ↦ true | _ ↦ false ]))
      else some (i, false))

-- Where `query` starts to read.
pub start_pos : Bool → ℕ × Bool → ℤ
start_pos true (pos', found) = if found then pos (pos' + 1) else pos pos'
start_pos false (pos', found) = pos pos' +ℤ negsuc 0

module _ {ℓ} {A : Type ℓ} where
  -- `QueryResult.Reverse`
  unfoldable pub reverse_result : QueryResult A → QueryResult A
  reverse_result r = record r {
    items = reverse r.items;
    first_cursor = r.last_cursor;
    last_cursor = r.first_cursor;
  }

  -- `predicate == nil || predicate(it.Val)`
  unfoldable pub passes : Option (A → Bool) → A → Bool
  passes none x = true
  passes (some p) x = p x

  -- What the loop of `query` does with an item that it takes.
  pub push_item : QueryResult A → Entry A → QueryResult A
  push_item res it =
      let items = res.items ++ it.val ∷ [] in
      record {
        items = items;
        first_cursor = if length items == 1 then it.cursor else res.first_cursor;
        last_cursor = it.cursor;
        has_more = res.has_more;
      }

  -- The loop of `query` over the items that the iterator yields.
  pub collect : ℕ → Option (A → Bool) → List (Entry A) → QueryResult A → QueryResult A
  collect count predicate [] res = res
  collect count predicate (it ∷ its) res =
      let skip = collect count predicate its res in
      let take = collect count predicate its (push_item res it) in
      if not (passes predicate it.val)
      then skip
      else if leb count (length res.items)
      then record res { has_more = true }
      else take

module _ {ℓ} {A L : Type ℓ} where
  -- `NewBufferedStream`; `zero_value` is the zero of `streamEntry[T]`.
  unfoldable pub new_buffered_stream : Entry A → ℕ → Buffered A L
  new_buffered_stream zero_value buffer_size = record {
    buf = RingBuf.new_ring_buf zero_value buffer_size;
    index = 0;
    listeners = [];
    next_listener = 0;
  }

  -- `Append` at the time `now` (in milliseconds). `set_cursor` is the value's `SetCursor`, or the
  -- identity where the type has none. Beside the new state stand the listeners' calls.
  pub append :
      (Cursor → A → A) → ℕ → A → Buffered A L → Option (Buffered A L × List (L × Cursor × A))
  append set_cursor now value s =
      let cursor = make_cursor now s.index in
      let stored = set_cursor cursor value in
      let entry : Entry A = record { cursor = cursor; val = stored } in
      let call : ℕ × L → L × Cursor × A = λ k. (k.1, cursor, stored) in
      do
        buf ← RingBuf.add s.buf entry
        some (record s { buf = buf; index = (s.index + 1) % 2 ^ 32 }, map call s.listeners)

  -- `Listen`; the key stands for the `stop` function, which deletes it.
  pub listen : L → Buffered A L → Buffered A L × ℕ
  listen listener s =
      let key = s.next_listener in
      (
        record s { next_listener = (key + 1) % 2 ^ 16; listeners = put key listener s.listeners },
        key,
      )

  pub stop : ℕ → Buffered A L → Buffered A L
  stop key s = record s { listeners = delete key s.listeners }

  -- `lookupPos`: compares the cursor with the one at each index.
  pub lookup_pos : Buffered A L → Cursor → Option (ℕ × Bool)
  lookup_pos s cursor =
      find s.buf.size (λ i. do it ← RingBuf.get s.buf i; some (compare cursor it.cursor))

  pub query : Bool → Cursor → ℕ → Option (A → Bool) → Buffered A L → Option (QueryResult A)
  query forward cursor count predicate s =
      let res : QueryResult A = record {
        items = [];
        first_cursor = cursor;
        last_cursor = cursor;
        has_more = false;
      } in
      do
        found ← lookup_pos s cursor
        let start = start_pos forward found
        (if ltb_ℤ start (pos 0) || not (ltb_ℤ start (pos s.buf.size)) then some res else (do
          its ← RingBuf.iterator s.buf start (if forward then pos 1 else negsuc 0)
          some (collect count predicate its res)))
