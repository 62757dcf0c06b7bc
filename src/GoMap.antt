-- ===== src/GoMap.antt =====
-- Go's built-in map, which every component keeps its state in: an association list in which a key
-- stands once. The order of the entries is the order in which a `range` loop visits them; Go leaves
-- that order open, and so do the theorems, which hold for every order.
pub mod Laws
use keenetic_dns.Prelude.{
  ℕ, ◌≡◌, Option, none, some, Bool, true, false, List, [], ◌∷◌, length, if◌then◌else◌, Eq, ◌=?◌,
}

abbrev pub Map {ℓ κ} : Type ℓ → Type κ → Type (ℓ ⊔ κ)
Map K V = List (K × V)

module _ {ℓ κ} {K : Type ℓ} {V : Type κ} ⦃e : Eq K⦄ where
  -- `v, ok := m[k]`
  unfoldable pub get : K → Map K V → Option V
  get k [] = none
  get k ((j, v) ∷ m) = if j =? k then some v else get k m

  -- `delete(m, k)`
  unfoldable pub delete : K → Map K V → Map K V
  delete k [] = []
  delete k ((j, v) ∷ m) = let rest = delete k m in if j =? k then rest else (j, v) ∷ rest

  -- `m[k] = v`
  unfoldable pub put : K → V → Map K V → Map K V
  unfolding delete
  put k v m = (k, v) ∷ delete k m

  -- `_, ok := m[k]`
  unfoldable pub has : K → Map K V → Bool
  has k [] = false
  has k ((j, v) ∷ m) = if j =? k then true else has k m

  -- A key stands once.
  abbrev pub Distinct : Map K V → Type κ
  Distinct [] = Unit
  Distinct ((k, v) ∷ m) = (get k m ≡ none) × Distinct m

-- `len(m)`
abbrev pub size {ℓ κ} : {K : Type ℓ} {V : Type κ} → Map K V → ℕ
size m = length m
