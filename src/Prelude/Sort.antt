-- ===== src/Prelude/Sort.antt =====
-- `slices.SortFunc` of Go, for a comparison given as the test for less: the result is in order and has
-- the same elements.
use mathlib.Core.Path.{◌≡◌}
use mathlib.Core.Logic.{inl, inr}
use mathlib.Core.Bool.{Bool, true, false}
use mathlib.Core.List.{List, [], ◌∷◌}
use mathlib.Core.List.{Perm}
use mathlib.Core.List.Perm
use keenetic_dns.Prelude.Tests.{if◌then◌else◌, Bool-cases}
use keenetic_dns.Prelude.Lists.{All, All-map_imp}

module _ {ℓ} {A : Type ℓ} (less : A → A → Bool) where
  unfoldable pub insert_by : A → List A → List A
  insert_by x [] = x ∷ []
  insert_by x (y ∷ ys) = let rest = insert_by x ys in if less y x then y ∷ rest else x ∷ y ∷ ys

  unfoldable pub sort_by : List A → List A
  unfolding insert_by
  sort_by [] = []
  sort_by (x ∷ xs) = insert_by x (sort_by xs)

  -- No element is less than one before it.
  abbrev pub Sorted : List A → Type ℓ
  Sorted [] = Unit
  Sorted (x ∷ xs) = All (λ y. less y x ≡ false) xs × Sorted xs

  -- What a comparison must be like.
  pub record WeakOrder : Type ℓ where
    pub asym : (x y : A) → less x y ≡ true → less y x ≡ false
    pub trans : (x y z : A) → less z y ≡ false → less y x ≡ false → less z x ≡ false

  All-insert_by :
      (z x : A) (ys : List A)
      → less x z ≡ false
      → All (λ y. less y z ≡ false) ys
      → All (λ y. less y z ≡ false) (insert_by x ys)
  unfolding insert_by
  All-insert_by z x [] h all = (h, tt)
  All-insert_by z x (y ∷ ys) h (k, all) = elim (Bool-cases (less y x)) [
    | inl e ↦ rw e (k, All-insert_by z x ys h all)
    | inr e ↦ rw e (h, (k, all))
  ]

  insert_by-Sorted : WeakOrder → (x : A) (ys : List A) → Sorted ys → Sorted (insert_by x ys)
  unfolding insert_by
  insert_by-Sorted o x [] s = (tt, tt)
  insert_by-Sorted o x (y ∷ ys) (all, s) = elim (Bool-cases (less y x)) [
    | inl e ↦ rw e (All-insert_by y x ys (o.asym y x e) all, insert_by-Sorted o x ys s)
    | inr e ↦ rw e (
      (
        e,
        All-map_imp (λ z. less z y ≡ false) (λ z. less z x ≡ false) ys (λ z h. o.trans x y z h e)
            all,
      ),
      (all, s),
    )
  ]

  pub sort_by-Sorted : WeakOrder → (xs : List A) → Sorted (sort_by xs)
  unfolding sort_by
  sort_by-Sorted o [] = tt
  sort_by-Sorted o (x ∷ xs) = insert_by-Sorted o x (sort_by xs) (sort_by-Sorted o xs)

  insert_by-Perm : (x : A) (ys : List A) → Perm (insert_by x ys) (x ∷ ys)
  unfolding insert_by
  insert_by-Perm x [] = Perm.refl (x ∷ [])
  insert_by-Perm x (y ∷ ys) = elim (Bool-cases (less y x)) [
    | inl e ↦ rw e (Perm.trans (Perm.cons y (insert_by-Perm x ys)) (Perm.swap x y ys))
    | inr e ↦ rw e (Perm.refl (x ∷ y ∷ ys))
  ]

  pub sort_by-Perm : (xs : List A) → Perm (sort_by xs) xs
  unfolding sort_by
  sort_by-Perm [] = Perm.refl []
  sort_by-Perm (x ∷ xs) = Perm.trans (insert_by-Perm x (sort_by xs)) (Perm.cons x (sort_by-Perm xs))
