-- ===== src/Stream/Buffered/Collect.antt =====
-- The loop of `query` against its description: the first `count` items that pass, in the order of
-- the iteration, the cursors of the first and last of them, and whether more would have passed.
use mathlib.Core.List.{map-append}
use native.Mathlib.Decide.{dec_le}
use keenetic_dns.Prelude.{
  ℕ, suc, ◌-◌, ◌≤◌, ◌≡◌, refl, Option, Bool, false, List, [], ◌∷◌, ◌++◌, append-nil, append_assoc,
  arith, length, map, take, take-nil, keep, ltb, le→leb, leb-false, ltb-false, ltb-suc, lt→ltb,
  ◌==◌, if◌then◌else◌, length-map, length-append, Bool-cases, inl, inr,
}
use keenetic_dns.Stream.Cursor.{Cursor}
use keenetic_dns.Stream.Buffered.{Entry, QueryResult, passes, push_item, collect}

module _ {ℓ} {A : Type ℓ} where
  abbrev pub first_of : Cursor → List (Entry A) → Cursor
  first_of c [] = c
  first_of c (x ∷ xs) = x.cursor

  abbrev pub last_of : Cursor → List (Entry A) → Cursor
  last_of c [] = c
  last_of c (x ∷ xs) = last_of x.cursor xs

  -- The result that shows a page of entries; an empty page shows the cursor that was asked for.
  abbrev pub shown : Cursor → List (Entry A) → Bool → QueryResult A
  shown c page more = record {
    items = map (λ it. it.val) page;
    first_cursor = first_of c page;
    last_cursor = last_of c page;
    has_more = more;
  }

  -- The entries that pass a filter.
  abbrev pub matching : Option (A → Bool) → List (Entry A) → List (Entry A)
  matching predicate = keep (λ it. passes predicate it.val)

  pub last_of-append :
      (c : Cursor) (xs : List (Entry A)) (x : Entry A) → last_of c (xs ++ x ∷ []) ≡ x.cursor
  last_of-append c [] x = refl
  last_of-append c (y ∷ xs) x = last_of-append y.cursor xs x

  first_of-append :
      (c : Cursor) (xs : List (Entry A)) (x : Entry A)
      → (if length (map (λ (it : Entry A). it.val) xs ++ x.val ∷ []) == 1
          then x.cursor
          else first_of c xs)
        ≡ first_of c (xs ++ x ∷ [])
  first_of-append c [] x = refl
  first_of-append c (y ∷ xs) x =
      ground (arith, length-append (map (λ (it : Entry A). it.val) xs) (x.val ∷ []))

  push_item-shown :
      (c : Cursor) (page : List (Entry A)) (x : Entry A) (more : Bool)
      → push_item (shown c page more) x ≡ shown c (page ++ x ∷ []) more
  unfolding push_item
  push_item-shown c page x more = rw (first_of-append c page x, last_of-append c page x, map-append)

  collect_from :
      (count : ℕ) (predicate : Option (A → Bool)) (c : Cursor) (page xs : List (Entry A))
      → length page ≤ count
      → collect count predicate xs (shown c page false)
        ≡ shown c
            (page ++ take (count - length page) (matching predicate xs))
            (ltb (count - length page) (length (matching predicate xs)))
  unfolding collect
  collect_from count predicate c page [] h =
      rw (
        take-nil (count - length page),
        ltb-false (count - length page) 0 (omega arith),
        append-nil,
      )
  collect_from count predicate c page (x ∷ xs) h = elim (Bool-cases (passes predicate x.val)) [
    | inr skip ↦ rw skip (collect_from count predicate c page xs h)
    | inl pass ↦ elim (dec_le count (length page)) [
      | yes full ↦
          let none_left : count - length page ≡ 0 = omega arith in
          rw (
            pass,
            length-map page (λ (it : Entry A). it.val),
            le→leb count (length page) full,
            none_left,
            append-nil,
            lt→ltb 0 (suc (length (matching predicate xs))) (omega arith),
          )
      | no room ↦
          let one_more : count - length page ≡ suc (count - length (page ++ x ∷ [])) =
            omega (arith, length-append page (x ∷ [])) in
          rw (
            pass,
            length-map page (λ (it : Entry A). it.val),
            leb-false count (length page) (omega arith),
            push_item-shown c page x false,
            collect_from count predicate c (page ++ x ∷ []) xs
                (omega (arith, length-append page (x ∷ []))),
            one_more,
            append_assoc,
            ltb-suc,
          )
    ]
  ]

  -- The loop returns the first `count` entries that pass and no others, with the cursors of the
  -- first and the last of them, and says that there are more exactly if more pass.
  pub collect_lem :
      (count : ℕ) (predicate : Option (A → Bool)) (c : Cursor) (xs : List (Entry A))
      → collect count predicate xs (shown c [] false)
        ≡ shown c (take count (matching predicate xs)) (ltb count (length (matching predicate xs)))
  collect_lem count predicate c xs =
      let e : count - 0 ≡ count = omega arith in
      rw e at (collect_from count predicate c [] xs (omega arith))
