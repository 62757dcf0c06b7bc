-- ===== src/Stream/Buffered/Append.antt =====
-- `Append`: what the stream holds afterwards, and when its cursors rise.
use mathlib.Core.List.{map-append}
use native.Mathlib.Nat.{mod-eq_of_lt}
use keenetic_dns.Prelude.{
  ℕ, zero, suc, ◌+◌, ◌-◌, ◌*◌, ◌/◌, ◌%◌, ◌^◌, ◌≤◌, ◌<◌, ◌≡◌, refl, some, List, [], ◌∷◌, ◌++◌, arith,
  length, map, drop, All, All-append, All-drop, All-map_imp, map-drop,
}
use keenetic_dns.Util.RingBuf.{capacity}
use keenetic_dns.Util.RingBuf.Inv.{Holds, last_n, add-Holds}
use keenetic_dns.Stream.Cursor.{Cursor, make_cursor}
use keenetic_dns.Stream.Cursor.Bits.{make_cursor_lem}
use keenetic_dns.Stream.Buffered.{Entry, Buffered, append}
use keenetic_dns.Stream.Buffered.Find.{Increasing}
use keenetic_dns.Stream.Buffered.Contents.{cursors}

Increasing-append :
    (ks : List Cursor) (k : Cursor)
    → Increasing ks
    → All (λ j. j < k) ks
    → Increasing (ks ++ k ∷ [])
Increasing-append [] k up below = (tt, tt)
Increasing-append (j ∷ ks) k up (first, rest) =
    (All-append (λ i. j < i) ks (k ∷ []) up.0 (first, tt), Increasing-append ks k up.1 rest)

Increasing-drop : (n : ℕ) (ks : List Cursor) → Increasing ks → Increasing (drop n ks)
Increasing-drop zero ks up = up
Increasing-drop (suc n) [] up = up
Increasing-drop (suc n) (k ∷ ks) up = Increasing-drop n ks up.1

-- The bound that the cursors of a stream stay below: what the next append at time `t` gets.
abbrev pub next_bound : ℕ → ℕ → ℕ
next_bound t index = t % 2 ^ 32 * 2 ^ 32 + index

-- The stream holds the entries `xs`, with rising cursors, and was last appended to at time `t`.
pub record Live {ℓ} {A L : Type ℓ} (s : Buffered A L) (xs : List (Entry A)) (t : ℕ) : Type ℓ where
  pub held : Holds s.buf xs
  pub rising : Increasing (cursors xs)
  pub index_small : s.index < 2 ^ 31
  pub below : All (λ k. k < next_bound t s.index) (cursors xs)

-- The entry that an append at time `now` stores.
abbrev pub stored {ℓ} : {A : Type ℓ} → (Cursor → A → A) → ℕ → ℕ → A → Entry A
stored set_cursor now index value = record {
  cursor = make_cursor now index;
  val = set_cursor (make_cursor now index) value;
}

module _ {ℓ} {A : Type ℓ} where
  -- With an entry at the bound appended the cursors rise, up to the next bound.
  cursors-append :
      (xs : List (Entry A)) (e : Entry A) (bound next : ℕ)
      → Increasing (cursors xs)
      → All (λ k. k < bound) (cursors xs)
      → bound ≤ e.cursor
      → e.cursor < next
      → Increasing (cursors (xs ++ e ∷ [])) × All (λ k. k < next) (cursors (xs ++ e ∷ []))
  cursors-append xs e bound next up below h k = rw map-append (
    Increasing-append (cursors xs) e.cursor up
        (All-map_imp (λ j. j < bound) (λ j. j < e.cursor) (cursors xs) (λ j p. omega arith) below),
    All-append (λ j. j < next) (cursors xs) (e.cursor ∷ [])
        (All-map_imp (λ j. j < bound) (λ j. j < next) (cursors xs) (λ j p. omega arith) below)
        (k, tt),
  )

  cursors-last_n :
      (n : ℕ) (next : ℕ) (xs : List (Entry A))
      → Increasing (cursors xs) × All (λ k. k < next) (cursors xs)
      → Increasing (cursors (last_n n xs)) × All (λ k. k < next) (cursors (last_n n xs))
  cursors-last_n n next xs (up, below) =
      let d = length xs - n in
      rw map-drop (Increasing-drop d (cursors xs) up, All-drop (λ k. k < next) d (cursors xs) below)

module _ {ℓ} {A L : Type ℓ} (set_cursor : Cursor → A → A) where
  -- `Append` does not panic: the stream goes on with the new entry last, the oldest is dropped when
  -- the buffer was full, and every listener is called once with the new cursor and item. The cursors
  -- keep rising if the clock has not gone back, its upper bits have not changed and the index has
  -- not reached 2 ^ 31.
  pub append-Live :
      {s : Buffered A L} {xs : List (Entry A)} (t now : ℕ) (value : A)
      → Live s xs t
      → t ≤ now
      → t / 2 ^ 32 ≡ now / 2 ^ 32
      → s.index + 1 < 2 ^ 31
      → let e = stored set_cursor now s.index value in
        (s' : Buffered A L) × (append set_cursor now value s
          ≡ some (s', map (λ (k : ℕ × L). (k.1, e.cursor, e.val)) s.listeners))
        × Live s' (last_n (capacity s.buf) (xs ++ e ∷ [])) now
        × (s'.index ≡ s.index + 1)
        × (s'.listeners ≡ s.listeners)
        × (capacity s'.buf ≡ capacity s.buf)
  unfolding append
  append-Live {s} {xs} t now value v later period room =
      let e = stored set_cursor now s.index value in
      let (buf, added, held, same) = add-Holds e v.held in
      (
        record s { buf = buf; index = (s.index + 1) % 2 ^ 32 },
        rw added,
        record {
          held = held;
          rising = grown.0;
          index_small = omega arith;
          below = rw (mod-eq_of_lt {n = s.index + 1} {m = 2 ^ 32} (omega arith)) grown.1;
        },
        omega arith,
        refl,
        same,
      )
    where
      e : Entry A
      e = stored set_cursor now s.index value

      grown :
          Increasing (cursors (last_n (capacity s.buf) (xs ++ e ∷ [])))
          × All
              (λ k. k < next_bound now (s.index + 1))
              (cursors (last_n (capacity s.buf) (xs ++ e ∷ [])))
      grown = cursors-last_n (capacity s.buf) (next_bound now (s.index + 1)) (xs ++ e ∷ []) (
          cursors-append xs e (next_bound t s.index) (next_bound now (s.index + 1)) v.rising v.below
            (omega (arith, make_cursor_lem now s.index (omega arith)))
            (omega (arith, make_cursor_lem now s.index (omega arith))))
