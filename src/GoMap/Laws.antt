-- ===== src/GoMap/Laws.antt =====
-- The laws of Go's map. Clients see a map through `get`, and through these laws.
use keenetic_dns.Prelude.{
  ◌↔◌, ◌⊎◌, ◌≡◌, refl, ◌∙◌, none, some, true, false, [], ◌∷◌, arith, if◌then◌else◌, Eq, ◌=?◌,
}
use keenetic_dns.GoMap.{Map, get, delete, put, has, Distinct}

module _ {ℓ κ} {K : Type ℓ} {V : Type κ} ⦃e : Eq K⦄ where
  pub get-delete : (k j : K) (m : Map K V) → get j (delete k m) ≡ (if k =? j then none else get j m)
  unfolding get delete
  get-delete k j [] = ground arith
  get-delete k j ((i, v) ∷ m) =
      ground (arith, get-delete k j m, e.beq_iff i k, e.beq_iff i j, e.beq_iff k j)

  pub get-put :
      (k j : K) (v : V) (m : Map K V) → get j (put k v m) ≡ (if k =? j then some v else get j m)
  unfolding get put
  get-put k j v m = ground (arith, get-delete k j m)

  pub has-get : (k : K) (m : Map K V) → has k m ≡ (elim (get k m) [ none ↦ false | some _ ↦ true ])
  unfolding has get
  has-get k [] = refl
  has-get k ((j, v) ∷ m) = ground (arith, has-get k m)

  pub delete_absent : (k : K) (m : Map K V) → get k m ≡ none → delete k m ≡ m
  unfolding get delete
  delete_absent k [] h = refl
  delete_absent k ((j, v) ∷ m) h = ground (arith, delete_absent k m)

  pub delete-Distinct : (k : K) (m : Map K V) → Distinct m → Distinct (delete k m)
  unfolding delete
  delete-Distinct k [] d = tt
  delete-Distinct k ((j, v) ∷ m) d = ground (arith, delete-Distinct k m d.1, get-delete k j m)

  pub put-Distinct : (k : K) (v : V) (m : Map K V) → Distinct m → Distinct (put k v m)
  unfolding put
  put-Distinct k v m d = (get-delete k k m ∙ ground (arith, e.beq_iff k k), delete-Distinct k m d)

  pub has-put_iff :
      (k j : K) (v : V) (m : Map K V) → (has j (put k v m) ≡ true) ↔ ((k ≡ j) ⊎ (has j m ≡ true))
  has-put_iff k j v m =
      ground (arith, has-get j (put k v m), has-get j m, get-put k j v m, e.beq_iff k j)
