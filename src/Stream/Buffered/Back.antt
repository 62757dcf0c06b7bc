-- ===== src/Stream/Buffered/Back.antt =====
-- Turning round in a stream: what lies behind the first entry of a page.
use mathlib.Core.List.{reverse, reverse-append, reverse-reverse}
use keenetic_dns.Prelude.{
  ℕ, zero, suc, ◌<◌, ◌≡◌, refl, sym, ap, ◌∙◌, subst, Option, Bool, true, false, not, List, [], ◌∷◌,
  ◌++◌, append_assoc, arith, length, take, drop, keep, All, ltb-false, Bool-cases, inl, inr,
}
use keenetic_dns.Stream.Cursor.{Cursor}
use keenetic_dns.Stream.Buffered.{Entry, passes}
use keenetic_dns.Stream.Buffered.Find.{Increasing}
use keenetic_dns.Stream.Buffered.Contents.{cursors}
use keenetic_dns.Stream.Buffered.Collect.{matching, first_of, last_of}
use keenetic_dns.Stream.Buffered.Direction.{beyond, beyond_trans, Onward, ordered, further, ahead}
use keenetic_dns.Stream.Buffered.Ahead.{
  keep-reverse, length-reverse, ordered-Onward, matching-ahead_page,
}

beyond-not : (forward : Bool) (c d : Cursor) → beyond (not forward) c d ≡ beyond forward d c
beyond-not true c d = refl
beyond-not false c d = refl

beyond_once :
    (forward : Bool) (c d : Cursor) → beyond forward c d ≡ true → beyond forward d c ≡ false
beyond_once true c d h = ground arith
beyond_once false c d h = ground arith

beyond_itself : (forward : Bool) (c : Cursor) → beyond forward c c ≡ false
beyond_itself true c = ltb-false c c (omega arith)
beyond_itself false c = ltb-false c c (omega arith)

keep-keep {ℓ} :
    {A : Type ℓ} (p q : A → Bool) (xs : List A) → keep p (keep q xs) ≡ keep q (keep p xs)
keep-keep p q [] = refl
keep-keep p q (x ∷ xs) = elim (Bool-cases (p x)) [
  | inl e ↦ elim (Bool-cases (q x)) [
    | inl f ↦ rw (f, e, f) (ap (◌∷◌ x) (keep-keep p q xs))
    | inr f ↦ rw (f, e, f) (keep-keep p q xs)
  ]
  | inr e ↦ elim (Bool-cases (q x)) [
    | inl f ↦ rw (f, e) (keep-keep p q xs)
    | inr f ↦ rw (f, e) (keep-keep p q xs)
  ]
]

take_front {ℓ} : {A : Type ℓ} (n : ℕ) (xs ys : List A) → length xs ≡ n → take n (xs ++ ys) ≡ xs
take_front n [] ys e = subst (λ m. take m ys ≡ []) e refl
take_front zero (x ∷ xs) ys e = absurd (omega (arith, e))
take_front (suc n) (x ∷ xs) ys e = ap (◌∷◌ x) (take_front n xs ys (omega (arith, e)))

module _ {ℓ} {A : Type ℓ} (forward : Bool) where
  behind_none :
      (c : Cursor) (xs : List (Entry A))
      → All (λ j. beyond forward c j ≡ true) (cursors xs)
      → further (not forward) c xs ≡ []
  behind_none c [] all = refl
  behind_none c (x ∷ xs) (h, hs) =
      rw (beyond-not forward c x.cursor, beyond_once forward c x.cursor h) (behind_none c xs hs)

  All-pivot :
      (P : Cursor → Type 0) (us vs : List (Entry A)) (y : Entry A)
      → All P (cursors (us ++ y ∷ vs))
      → P y.cursor
  All-pivot P [] vs y (h, hs) = h
  All-pivot P (u ∷ us) vs y (h, hs) = All-pivot P us vs y hs

  -- In a list that goes onward, the entries behind one of them are those before it.
  further_behind :
      (us vs : List (Entry A)) (y : Entry A)
      → Onward forward (cursors (us ++ y ∷ vs))
      → further (not forward) y.cursor (us ++ y ∷ vs) ≡ us
  further_behind [] vs y (all, on) =
      rw (beyond-not forward y.cursor y.cursor, beyond_itself forward y.cursor)
        (behind_none y.cursor vs all)
  further_behind (u ∷ us) vs y (all, on) =
      rw
        (
          beyond-not forward y.cursor u.cursor,
          All-pivot (λ j. beyond forward u.cursor j ≡ true) us vs y all,
        )
        (ap (◌∷◌ u) (further_behind us vs y on))

  further-All :
      (c : Cursor) (x : Entry A) (xs : List (Entry A))
      → beyond forward c x.cursor ≡ true
      → All (λ j. beyond forward x.cursor j ≡ true) (cursors xs)
      → further forward c xs ≡ xs
  further-All c x [] e all = refl
  further-All c x (y ∷ xs) e (h, hs) =
      rw (beyond_trans forward c x.cursor y.cursor e h) (ap (◌∷◌ y) (further-All c x xs e hs))

  -- A list that goes onward ends with what lies beyond a cursor.
  further_ends :
      (c : Cursor) (xs : List (Entry A))
      → Onward forward (cursors xs)
      → (us : List (Entry A)) × (xs ≡ us ++ further forward c xs)
  further_ends c [] on = ([], refl)
  further_ends c (x ∷ xs) (all, on) = elim (Bool-cases (beyond forward c x.cursor)) [
    | inl e ↦ ([], rw e (ap (◌∷◌ x) (sym (further-All c x xs e all))))
    | inr e ↦ let (us, same) = further_ends c xs on in (x ∷ us, rw e (ap (◌∷◌ x) same))
  ]

rest_of {ℓ} :
    {A : Type ℓ} (n : ℕ) (xs : List A)
    → n < length xs
    → (length (take n xs) ≡ n) × ((y : A) × ((left : List A) × (xs ≡ take n xs ++ y ∷ left)))
rest_of n [] h = absurd (omega arith)
rest_of zero (x ∷ xs) h = (refl, (x, (xs, refl)))
rest_of (suc n) (x ∷ xs) h =
    let (e, (y, (left, same))) = rest_of n xs (omega arith) in
    (ap suc e, (y, (left, ap (◌∷◌ x) same)))

ordered-not {ℓ} :
    {A : Type ℓ} (forward : Bool) (xs : List (Entry A))
    → ordered (not forward) xs ≡ reverse (ordered forward xs)
ordered-not true xs = refl
ordered-not false xs = sym (reverse-reverse xs)

drop_front {ℓ} : {A : Type ℓ} (n : ℕ) (xs ys : List A) → length xs ≡ n → drop n (xs ++ ys) ≡ ys
drop_front n [] ys e = subst (λ m. drop m ys ≡ ys) e refl
drop_front zero (x ∷ xs) ys e = absurd (omega (arith, e))
drop_front (suc n) (x ∷ xs) ys e = drop_front n xs ys (omega (arith, e))

first_page {ℓ} :
    {A : Type ℓ} (n : ℕ) (c : Cursor) (y : Entry A) (left : List (Entry A))
    → 0 < n
    → first_of c (take n (y ∷ left)) ≡ y.cursor
first_page zero c y left h = absurd (omega (arith, h))
first_page (suc n) c y left h = refl

module _ {ℓ} {A : Type ℓ} (forward : Bool) (predicate : Option (A → Bool)) where
  All-matching :
      (k : Cursor) (xs : List (Entry A))
      → All (λ j. beyond forward k j ≡ true) (cursors xs)
      → All (λ j. beyond forward k j ≡ true) (cursors (matching predicate xs))
  All-matching k [] all = tt
  All-matching k (x ∷ xs) (first, rest) = elim (Bool-cases (passes predicate x.val)) [
    | inl e ↦ rw e (first, All-matching k xs rest)
    | inr e ↦ rw e (All-matching k xs rest)
  ]

  Onward-matching :
      (xs : List (Entry A))
      → Onward forward (cursors xs)
      → Onward forward (cursors (matching predicate xs))
  Onward-matching [] up = tt
  Onward-matching (x ∷ xs) up = elim (Bool-cases (passes predicate x.val)) [
    | inl e ↦ rw e (All-matching x.cursor xs up.0, Onward-matching xs up.1)
    | inr e ↦ rw e (Onward-matching xs up.1)
  ]

  -- What matches on the other side of a cursor, nearest first.
  matching_behind :
      (d : Cursor) (xs : List (Entry A))
      → matching predicate (ahead (not forward) d xs)
        ≡ reverse (further (not forward) d (matching predicate (ordered forward xs)))
  matching_behind d xs =
      ap (λ l. matching predicate (further (not forward) d l)) (ordered-not forward xs)
      ∙ ap (matching predicate)
          (keep-reverse (λ it. beyond (not forward) d it.cursor) (ordered forward xs))
      ∙ keep-reverse (λ it. passes predicate it.val) _
      ∙ ap reverse (
          keep-keep (λ it. passes predicate it.val) (λ it. beyond (not forward) d it.cursor)
            (ordered forward xs))

  module _ (n : ℕ) (c : Cursor) (xs : List (Entry A)) (up : Increasing (cursors xs)) where
    abbrev found : List (Entry A)
    found = matching predicate (ahead forward c xs)

    -- Behind the first entry that a page left over, nearest first, lies the page.
    behind_page :
        (y : Entry A) (left : List (Entry A))
        → found ≡ take n found ++ y ∷ left
        → length (take n found) ≡ n
        → take n (matching predicate (ahead (not forward) y.cursor xs)) ≡ reverse (take n found)
    behind_page y left split full =
        let zs : List (Entry A) = matching predicate (ordered forward xs) in
        let on : Onward forward (cursors zs) = Onward-matching _ (ordered-Onward forward xs up) in
        let (us, ends) = further_ends forward c zs on in
        let swap : found ≡ further forward c zs =
          keep-keep (λ it. passes predicate it.val) (λ it. beyond forward c it.cursor)
            (ordered forward xs) in
        let whole : zs ≡ (us ++ take n found) ++ y ∷ left =
          ends
          ∙ ap (◌++◌ us) (sym swap ∙ split)
          ∙ sym (append_assoc us (take n found) (y ∷ left)) in
        let behind : further (not forward) y.cursor zs ≡ us ++ take n found =
          ap (further (not forward) y.cursor) whole
          ∙ further_behind forward (us ++ take n found) left y
              (subst (λ l. Onward forward (cursors l)) whole on) in
        ap (take n)
          (matching_behind y.cursor xs ∙ ap reverse behind ∙ reverse-append us (take n found))
        ∙ take_front n (reverse (take n found)) (reverse us) (length-reverse (take n found) ∙ full)

    -- A page that left something over is, nearest first, what lies behind the first entry of the
    -- page after it.
    pub page_back :
        0 < n
        → n < length found
        → let here = last_of c (take n found) in
          let after = take n (matching predicate (ahead forward here xs)) in
          take n (matching predicate (ahead (not forward) (first_of here after) xs))
          ≡ reverse (take n found)
    page_back some_room more =
        let (full, (y, (left, split))) = rest_of n found more in
        let next : matching predicate (ahead forward (last_of c (take n found)) xs) ≡ y ∷ left =
          matching-ahead_page forward predicate n c xs up
          ∙ ap (drop n) split
          ∙ drop_front n (take n found) (y ∷ left) full in
        ap
          (λ l. take n (
            matching predicate
              (ahead (not forward) (first_of (last_of c (take n found)) (take n l)) xs)))
          next
        ∙ ap (λ d. take n (matching predicate (ahead (not forward) d xs)))
            (first_page n _ y left some_room)
        ∙ behind_page y left split full
