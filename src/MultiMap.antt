-- ===== src/MultiMap.antt =====
-- `MultiMap` of dns-server/internal/dns_store.go: a map of maps. Go writes to the inner map in place;
-- here the changed inner map is put back.
pub mod Laws
pub mod Entries
use keenetic_dns.Prelude.{
  ℕ, ◌≡◌, Option, none, some, List, [], ◌∷◌, ◌++◌, map, ◌==◌, if◌then◌else◌, Eq,
}
use keenetic_dns.GoMap
use keenetic_dns.GoMap.{Map, Distinct}

abbrev pub MultiMap {ℓ κ μ} : Type ℓ → Type κ → Type μ → Type (ℓ ⊔ κ ⊔ μ)
MultiMap K J V = Map K (Map J V)

module _ {ℓ κ μ} {K : Type ℓ} {J : Type κ} {V : Type μ} ⦃e : Eq K⦄ ⦃f : Eq J⦄ where
  unfoldable pub set : K → J → V → MultiMap K J V → MultiMap K J V
  set k j v m = elim (GoMap.get k m) [
    | some inner ↦ GoMap.put k (GoMap.put j v inner) m
    | none ↦ GoMap.put k ((j, v) ∷ []) m
  ]

  unfoldable pub remove : K → J → MultiMap K J V → MultiMap K J V
  remove k j m = elim (GoMap.get k m) [
    | none ↦ m
    | some inner ↦ elim (GoMap.get j inner) [
      | none ↦ m
      | some _ ↦
          if GoMap.size inner == 1 then GoMap.delete k m else GoMap.put k (GoMap.delete j inner) m
    ]
  ]

  -- `m[k][j]`, with a nil inner map read as an empty one.
  unfoldable pub find : K → J → MultiMap K J V → Option V
  find k j m = elim (GoMap.get k m) [ none ↦ none | some inner ↦ GoMap.get j inner ]

  -- A key stands once, in the outer map and in each inner one.
  abbrev pub AllDistinct : MultiMap K J V → Type (κ ⊔ μ)
  AllDistinct [] = Unit
  AllDistinct ((k, inner) ∷ m) = (GoMap.get k m ≡ none) × Distinct inner × AllDistinct m

  -- The values, in the order in which a loop over the maps visits them.
  unfoldable pub all_values : MultiMap K J V → List V
  all_values [] = []
  all_values ((d, m) ∷ rest) = map (λ e. e.1) m ++ all_values rest
