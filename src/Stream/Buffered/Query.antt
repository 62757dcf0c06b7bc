-- ===== src/Stream/Buffered/Query.antt =====
-- `query` reads exactly the entries above a cursor (forward), or those below it, newest first
-- (backward), and hands them to the collecting loop.
use mathlib.Core.List.{reverse}
use native.Mathlib.Decide.{dec_lt}
use keenetic_dns.Prelude.{
  ℕ, zero, suc, ◌<◌, ◌≡◌, refl, Option, some, Bool, true, false, not, ◌||◌, List, [], ◌∷◌, arith,
  length, take, get_elem?, drop_all, ltb, lt→ltb, ltb-false, ltb_ℤ, pos, negsuc, +ℤ_down,
  length-map,
}
use keenetic_dns.Util.RingBuf.Inv.{Holds}
use keenetic_dns.Util.RingBuf.Reads.{get_lem, iterator_forward, iterator_backward}
use keenetic_dns.Stream.Cursor.{Cursor}
use keenetic_dns.Stream.Buffered.{
  Entry, Buffered, QueryResult, lookup_pos, start_pos, query, collect,
}
use keenetic_dns.Stream.Buffered.Find.{
  Increasing, rank, rank_le, reached, found_at, reached_lem, find_lem,
}
use keenetic_dns.Stream.Buffered.Contents.{cursors, before, after, take-rank, drop-reached}

-- The result that the loop starts from.
abbrev pub blank {ℓ} : {A : Type ℓ} → Cursor → QueryResult A
blank c = record { items = []; first_cursor = c; last_cursor = c; has_more = false }

in_range : (m n : ℕ) → (ltb_ℤ (pos m) (pos 0) || not (ltb_ℤ (pos m) (pos n))) ≡ not (ltb m n)
in_range m n = ground arith

start_forward :
    (c : Cursor) (ks : List Cursor)
    → Increasing ks
    → start_pos true (rank c ks, found_at c ks) ≡ pos (reached c ks)
unfolding start_pos
start_forward c ks up = ground (arith, reached_lem c ks up)

start_backward : (r : ℕ) (b : Bool) → start_pos false (suc r, b) ≡ pos r
unfolding start_pos
start_backward r b = +ℤ_down r

start_oldest : (b : Bool) → start_pos false (0, b) ≡ negsuc 0
unfolding start_pos
start_oldest b = refl

get_elem?-cursors {ℓ} :
    {A : Type ℓ} (xs : List (Entry A)) (i : ℕ) (k : Cursor)
    → get_elem? (cursors xs) i ≡ some k
    → (x : Entry A) × (get_elem? xs i ≡ some x) × (x.cursor ≡ k) × (i < length xs)
get_elem?-cursors [] i k e = cc
get_elem?-cursors (x ∷ xs) zero k e = (x, refl, cc, omega arith)
get_elem?-cursors (x ∷ xs) (suc i) k e =
    let (y, found, same, h) = get_elem?-cursors xs i k e in (y, found, same, omega arith)

module _ {ℓ} {A L : Type ℓ} (s : Buffered A L) {xs : List (Entry A)} (held : Holds s.buf xs)
    (up : Increasing (cursors xs)) where
  lookup_pos_lem :
      (c : Cursor) → lookup_pos s c ≡ some (rank c (cursors xs), found_at c (cursors xs))
  unfolding lookup_pos
  lookup_pos_lem c =
      find_lem c (cursors xs) _ s.buf.size
        (omega (arith, length-map xs (λ (it : Entry A). it.cursor), held.count)) up
        λ i k e.
          let (x, found, same, h) = get_elem?-cursors xs i k e in
          rw (get_lem i held (omega (arith, held.count)), found, same)

  -- Forward, the loop runs over the entries above the cursor, oldest first.
  pub query_forward :
      (c : Cursor) (count : ℕ) (predicate : Option (A → Bool))
      → query true c count predicate s ≡ some (collect count predicate (after c xs) (blank c))
  unfolding query collect
  query_forward c count predicate =
      rw (lookup_pos_lem c, start_forward c (cursors xs) up, in_range m s.buf.size)
        (elim (dec_lt m s.buf.size) [
          | yes p ↦ rw (lt→ltb m _ p, iterator_forward m held, drop-reached c xs up)
          | no p ↦ rw (
            ltb-false m s.buf.size (omega arith),
            ← drop-reached c xs up,
            drop_all m xs (omega (arith, held.count)),
          )
        ])
    where
      m : ℕ
      m = reached c (cursors xs)

  backward_from :
      (c : Cursor) (count : ℕ) (predicate : Option (A → Bool)) (r : ℕ)
      → rank c (cursors xs) ≡ r
      → query false c count predicate s
        ≡ some (collect count predicate (reverse (take r xs)) (blank c))
  unfolding query collect
  backward_from c count predicate zero e =
      rw (lookup_pos_lem c, e, start_oldest (found_at c (cursors xs)))
  backward_from c count predicate (suc r) e = rw (
    lookup_pos_lem c,
    e,
    start_backward r (found_at c (cursors xs)),
    in_range r s.buf.size,
    lt→ltb r s.buf.size inside,
    iterator_backward r held inside,
  )
    where
      inside : r < s.buf.size
      inside =
          omega
            (arith, rank_le c (cursors xs), held.count, length-map xs (λ (it : Entry A). it.cursor))

  -- Backward, the loop runs over the entries below the cursor, newest first.
  pub query_backward :
      (c : Cursor) (count : ℕ) (predicate : Option (A → Bool))
      → query false c count predicate s
        ≡ some (collect count predicate (reverse (before c xs)) (blank c))
  query_backward c count predicate =
      rw (← take-rank c xs up) (backward_from c count predicate _ refl)
