-- ===== src/Stream/Buffered/Contents.antt =====
-- A stream seen as the list of its entries, oldest first.
use keenetic_dns.Prelude.{
  ◌≤◌, ◌<◌, ◌≡◌, refl, sym, ap, List, [], ◌∷◌, arith, map, take, drop, keep, All, ltb, lt→ltb,
  ltb-false, le→leb, leb-false,
}
use native.Mathlib.Decide.{dec_lt}
use keenetic_dns.Stream.Cursor.{Cursor}
use keenetic_dns.Stream.Buffered.{Entry}
use keenetic_dns.Stream.Buffered.Find.{Increasing, rank, reached, rank_none, reached_none}

module _ {ℓ} {A : Type ℓ} where
  abbrev pub cursors : List (Entry A) → List Cursor
  cursors = map (λ it. it.cursor)

  -- The entries below and above a cursor, in the order of the stream.
  abbrev pub before : Cursor → List (Entry A) → List (Entry A)
  before c = keep (λ it. ltb it.cursor c)

  abbrev pub after : Cursor → List (Entry A) → List (Entry A)
  after c = keep (λ it. ltb c it.cursor)

  pub before_none :
      (c k : Cursor) (xs : List (Entry A))
      → c ≤ k
      → All (λ j. k < j) (cursors xs)
      → before c xs ≡ []
  before_none c k [] h all = refl
  before_none c k (x ∷ xs) h (first, rest) =
      rw (ltb-false x.cursor c (omega arith)) (before_none c k xs h rest)

  pub after_whole :
      (c k : Cursor) (xs : List (Entry A)) → c ≤ k → All (λ j. k < j) (cursors xs) → after c xs ≡ xs
  after_whole c k [] h all = refl
  after_whole c k (x ∷ xs) h (first, rest) =
      rw (lt→ltb c x.cursor (omega arith)) (ap (◌∷◌ x) (after_whole c k xs h rest))

  pub take-rank :
      (c : Cursor) (xs : List (Entry A))
      → Increasing (cursors xs)
      → take (rank c (cursors xs)) xs ≡ before c xs
  take-rank c [] up = refl
  take-rank c (x ∷ xs) up = elim (dec_lt x.cursor c) [
    | yes p ↦ rw (lt→ltb x.cursor c p) (ap (◌∷◌ x) (take-rank c xs up.1))
    | no p ↦
        rw
          (ltb-false x.cursor c (omega arith), rank_none c x.cursor (cursors xs) (omega arith) up.0)
          (sym (before_none c x.cursor xs (omega arith) up.0))
  ]

  pub drop-reached :
      (c : Cursor) (xs : List (Entry A))
      → Increasing (cursors xs)
      → drop (reached c (cursors xs)) xs ≡ after c xs
  drop-reached c [] up = refl
  drop-reached c (x ∷ xs) up = elim (dec_lt c x.cursor) [
    | yes p ↦
        rw
          (
            leb-false x.cursor c p,
            lt→ltb c x.cursor p,
            reached_none c x.cursor (cursors xs) (omega arith) up.0,
          )
          (sym (ap (◌∷◌ x) (after_whole c x.cursor xs (omega arith) up.0)))
    | no p ↦
        rw (le→leb x.cursor c (omega arith), ltb-false c x.cursor (omega arith))
          (drop-reached c xs up.1)
  ]
