-- ===== src/Util/Set.antt =====
-- `Set` of internal/util/set.go and `LazyMap` of internal/util/map.go: maps that `Add` and `Set` make
-- when they are nil; a nil map reads like an empty one. `SyncSet` is the same set behind a mutex,
-- which makes each method one step.
use keenetic_dns.Prelude.{ℕ, Bool, true, false, List, [], map, if◌then◌else◌, Eq}
use keenetic_dns.GoMap
use keenetic_dns.GoMap.{Map}

abbrev pub Set {ℓ} : Type ℓ → Type ℓ
Set A = Map A (Unit {0})

module _ {ℓ} {A : Type ℓ} ⦃e : Eq A⦄ where
  -- `Add`: the set, and whether the value is new.
  unfoldable pub add : A → Set A → Set A × Bool
  add v s = if GoMap.has v s then (s, false) else (GoMap.put v tt s, true)

  abbrev pub insert : A → Set A → Set A
  insert v s = (add v s).0

  unfoldable pub has : A → Set A → Bool
  has v s = GoMap.has v s

  unfoldable pub remove : A → Set A → Set A
  remove v s = GoMap.delete v s

-- `Size`
abbrev pub size {ℓ} : {A : Type ℓ} → Set A → ℕ
size s = GoMap.size s

-- `Values`, in the order in which `range` visits the entries.
abbrev pub values {ℓ} : {A : Type ℓ} → Set A → List A
values s = map (λ e. e.0) s

-- `Clear`
abbrev pub clear {ℓ} : {A : Type ℓ} → Set A → Set A
clear s = []
