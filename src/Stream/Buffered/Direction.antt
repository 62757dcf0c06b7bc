-- ===== src/Stream/Buffered/Direction.antt =====
-- The two directions in which a stream is read: onwards from the oldest entry, or back from the
-- newest.
use mathlib.Core.List.{reverse}
use keenetic_dns.Prelude.{
  ℕ, zero, suc, ◌≡◌, refl, sym, ap, ◌∙◌, Option, Bool, true, false, List, [], ◌∷◌, arith, take,
  drop, keep, All, ltb, ltb-false, Bool-cases, ◌⊎◌, inl, inr,
}
use keenetic_dns.Stream.Cursor.{Cursor}
use keenetic_dns.Stream.Buffered.{Entry, passes}
use keenetic_dns.Stream.Buffered.Contents.{cursors}
use keenetic_dns.Stream.Buffered.Collect.{matching, last_of}

-- Whether `d` lies beyond `c`: above it forward, below it backward.
abbrev pub beyond : Bool → Cursor → Cursor → Bool
beyond true c d = ltb c d
beyond false c d = ltb d c

beyond_self : (forward : Bool) (c : Cursor) → beyond forward c c ≡ false
beyond_self true c = ltb-false c c (omega arith)
beyond_self false c = ltb-false c c (omega arith)

pub beyond_trans :
    (forward : Bool) (a b c : Cursor)
    → beyond forward a b ≡ true
    → beyond forward b c ≡ true
    → beyond forward a c ≡ true
beyond_trans true a b c h k = ground arith
beyond_trans false a b c h k = ground arith

-- Each cursor of the list is beyond all before it.
abbrev pub Onward : Bool → List Cursor → Type 0
Onward forward [] = Unit
Onward forward (k ∷ ks) = All (λ j. beyond forward k j ≡ true) ks × Onward forward ks

-- A cursor that has been reached from `c`.
abbrev pub Reached : Bool → Cursor → Cursor → Type 0
Reached forward c d = (c ≡ d) ⊎ (beyond forward c d ≡ true)

not_beyond : (forward : Bool) (c d : Cursor) → Reached forward c d → beyond forward d c ≡ false
not_beyond true c d r = ground arith
not_beyond false c d r = ground arith

not_beyond_later :
    (forward : Bool) (c d e : Cursor)
    → Reached forward c d
    → beyond forward c e ≡ false
    → beyond forward d e ≡ false
not_beyond_later true c d e r h = ground arith
not_beyond_later false c d e r h = ground arith

module _ {ℓ} {A : Type ℓ} where
  -- The entries in the order in which a direction meets them, and those beyond a cursor.
  abbrev pub ordered : Bool → List (Entry A) → List (Entry A)
  ordered true xs = xs
  ordered false xs = reverse xs

  abbrev pub further : Bool → Cursor → List (Entry A) → List (Entry A)
  further forward c = keep (λ it. beyond forward c it.cursor)

  abbrev pub ahead : Bool → Cursor → List (Entry A) → List (Entry A)
  ahead forward c xs = further forward c (ordered forward xs)

module _ {ℓ} {A : Type ℓ} (forward : Bool) (predicate : Option (A → Bool)) where
  further_whole :
      (c : Cursor) (xs : List (Entry A))
      → All (λ j. beyond forward c j ≡ true) (cursors xs)
      → further forward c xs ≡ xs
  further_whole c [] all = refl
  further_whole c (x ∷ xs) (h, hs) = rw h (ap (◌∷◌ x) (further_whole c xs hs))

  -- The last cursor of a page is reached from where the page begins.
  Reached-last_of :
      (n k c : ℕ) (xs : List (Entry A))
      → Reached forward k c
      → All (λ j. beyond forward k j ≡ true) (cursors xs)
      → Reached forward k (last_of c (take n (matching predicate xs)))
  Reached-last_of zero k c xs h all = h
  Reached-last_of (suc n) k c [] h all = h
  Reached-last_of (suc n) k c (x ∷ xs) h (first, rest) =
      elim (Bool-cases (passes predicate x.val)) [
        | inr skip ↦ rw skip (Reached-last_of (suc n) k c xs h rest)
        | inl pass ↦ rw pass (Reached-last_of n k x.cursor xs (inr first) rest)
      ]

  further_skip :
      (c : Cursor) (x : Entry A) (xs : List (Entry A))
      → passes predicate x.val ≡ false
      → matching predicate (further forward c (x ∷ xs)) ≡ matching predicate (further forward c xs)
  further_skip c x xs skip = elim (Bool-cases (beyond forward c x.cursor)) [
    | inl e ↦ rw (e, skip)
    | inr e ↦ rw e
  ]

  further_head :
      (c : Cursor) (x : Entry A) (xs : List (Entry A))
      → beyond forward c x.cursor ≡ false
      → further forward c (x ∷ xs) ≡ further forward c xs
  further_head c x xs h = rw h

  pub further-last_of :
      (n c : ℕ) (xs : List (Entry A))
      → All (λ j. beyond forward c j ≡ true) (cursors xs)
      → Onward forward (cursors xs)
      → matching predicate (further forward (last_of c (take n (matching predicate xs))) xs)
        ≡ drop n (matching predicate xs)
  further-last_of zero c xs all up = ap (matching predicate) (further_whole c xs all)
  further-last_of (suc n) c [] all up = refl
  further-last_of (suc n) c (x ∷ xs) (first, rest) up = elim (Bool-cases (passes predicate x.val)) [
    | inr skip ↦
        let same : matching predicate (x ∷ xs) ≡ matching predicate xs = rw skip in
        ap (λ ms. matching predicate (further forward (last_of c (take (suc n) ms)) (x ∷ xs))) same
        ∙ further_skip _ x xs skip
        ∙ further-last_of (suc n) c xs rest up.1
        ∙ ap (drop (suc n)) (sym same)
    | inl pass ↦
        let page : take (suc n) (matching predicate (x ∷ xs)) ≡ x ∷ take n (matching predicate xs) =
          rw pass in
        let left : drop (suc n) (matching predicate (x ∷ xs)) ≡ drop n (matching predicate xs) =
          rw pass in
        ap (λ l. matching predicate (further forward (last_of c l) (x ∷ xs))) page
        ∙ ap (matching predicate) (
            further_head _ x xs (
              not_beyond forward x.cursor _
                (Reached-last_of n x.cursor x.cursor xs (inl refl) up.0)))
        ∙ further-last_of n x.cursor xs up.0 up.1
        ∙ sym left
  ]

  All-further :
      (k c : Cursor) (xs : List (Entry A))
      → All (λ j. beyond forward k j ≡ true) (cursors xs)
      → All (λ j. beyond forward k j ≡ true) (cursors (further forward c xs))
  All-further k c [] all = tt
  All-further k c (x ∷ xs) (first, rest) = elim (Bool-cases (beyond forward c x.cursor)) [
    | inl e ↦ rw e (first, All-further k c xs rest)
    | inr e ↦ rw e (All-further k c xs rest)
  ]

  pub All-beyond :
      (c : Cursor) (xs : List (Entry A))
      → All (λ j. beyond forward c j ≡ true) (cursors (further forward c xs))
  All-beyond c [] = tt
  All-beyond c (x ∷ xs) = elim (Bool-cases (beyond forward c x.cursor)) [
    | inl e ↦ rw e (e, All-beyond c xs)
    | inr e ↦ rw e (All-beyond c xs)
  ]

  pub Onward-further :
      (c : Cursor) (xs : List (Entry A))
      → Onward forward (cursors xs)
      → Onward forward (cursors (further forward c xs))
  Onward-further c [] up = tt
  Onward-further c (x ∷ xs) up = elim (Bool-cases (beyond forward c x.cursor)) [
    | inl e ↦ rw e (All-further x.cursor c xs up.0, Onward-further c xs up.1)
    | inr e ↦ rw e (Onward-further c xs up.1)
  ]

  pub further-further :
      (c d : Cursor) (xs : List (Entry A))
      → Reached forward c d
      → further forward d (further forward c xs) ≡ further forward d xs
  further-further c d [] r = refl
  further-further c d (x ∷ xs) r = elim (Bool-cases (beyond forward c x.cursor)) [
    | inl e ↦ rw (e, further-further c d xs r)
    | inr e ↦ rw (e, not_beyond_later forward c d x.cursor r e) (further-further c d xs r)
  ]

  -- A page leads on from the cursor that it was asked for.
  pub Reached-page :
      (n : ℕ) (c : Cursor) (xs : List (Entry A))
      → Reached forward c (last_of c (take n (matching predicate (ahead forward c xs))))
  Reached-page n c xs = Reached-last_of n c c _ (inl refl) (All-beyond c (ordered forward xs))
