-- ===== src/MultiMap/Laws.antt =====
-- The laws of a map of maps.
use keenetic_dns.Prelude.{
  ◌≡◌, refl, none, some, true, false, ◌&&◌, [], ◌∷◌, arith, ◌==◌, if◌then◌else◌, Eq, ◌=?◌,
  Option-cases, Bool-cases, ==_iff, inl, inr,
}
use keenetic_dns.GoMap.{Map, get, put, delete, size}
use keenetic_dns.GoMap.Laws.{get-put, get-delete}
use keenetic_dns.MultiMap.{MultiMap, set, remove, find}

-- A map of one entry holds nothing beside it.
get_single {ℓ κ} :
    {K : Type ℓ} {V : Type κ} ⦃e : Eq K⦄ (k j : K) (v : V) (m : Map K V)
    → size m ≡ 1
    → get k m ≡ some v
    → get j m ≡ (if k =? j then some v else none)
unfolding get
get_single ⦃e⦄ k j v [] h g = absurd (omega arith)
get_single ⦃e⦄ k j v ((i, w) ∷ []) h g = ground (arith, e.beq_iff i k, e.beq_iff i j, e.beq_iff k j)
get_single ⦃e⦄ k j v (x ∷ y ∷ m) h g = absurd (omega arith)

get_one {ℓ κ} :
    {K : Type ℓ} {V : Type κ} ⦃e : Eq K⦄ (k j : K) (v : V)
    → get j ((k, v) ∷ []) ≡ (if k =? j then some v else none)
unfolding get
get_one k j v = refl

module _ {ℓ κ μ} {K : Type ℓ} {J : Type κ} {V : Type μ} ⦃e : Eq K⦄ ⦃f : Eq J⦄ where
  -- After `Set`, the value at the two keys is the new one, and every other value is as before.
  pub find-set :
      (k k' : K) (j j' : J) (v : V) (m : MultiMap K J V)
      → find k' j' (set k j v m) ≡ (if (k =? k') && (j =? j') then some v else find k' j' m)
  unfolding find set
  find-set k k' j j' v m = elim (Option-cases (get k m)) [
    | inl a ↦ ground (arith, a, get-put k k' ((j, v) ∷ []) m, e.beq_iff k k', get_one j j' v)
    | inr (inner, a) ↦
        ground (arith, a, get-put k k' (put j v inner) m, get-put j j' v inner, e.beq_iff k k')
  ]

  remove_no_inner : (k : K) (j : J) (m : MultiMap K J V) → get k m ≡ none → remove k j m ≡ m
  unfolding remove
  remove_no_inner k j m a = rw (remove, a) refl

  remove_absent :
      (k : K) (j : J) (inner : Map J V) (m : MultiMap K J V)
      → get k m ≡ some inner
      → get j inner ≡ none
      → remove k j m ≡ m
  unfolding remove
  remove_absent k j inner m a b = rw (remove, a, b) refl

  remove_last_lem :
      (k : K) (j : J) (inner : Map J V) (v : V) (m : MultiMap K J V)
      → get k m ≡ some inner
      → get j inner ≡ some v
      → (size inner == 1) ≡ true
      → remove k j m ≡ delete k m
  unfolding remove
  remove_last_lem k j inner v m a b c = rw (remove, a, b, c) refl

  remove_one_lem :
      (k : K) (j : J) (inner : Map J V) (v : V) (m : MultiMap K J V)
      → get k m ≡ some inner
      → get j inner ≡ some v
      → (size inner == 1) ≡ false
      → remove k j m ≡ put k (delete j inner) m
  unfolding remove
  remove_one_lem k j inner v m a b c = rw (remove, a, b, c) refl

  -- After `Remove`, there is no value at the two keys, and every other value is as before.
  pub find-remove :
      (k k' : K) (j j' : J) (m : MultiMap K J V)
      → find k' j' (remove k j m) ≡ (if (k =? k') && (j =? j') then none else find k' j' m)
  unfolding find
  find-remove k k' j j' m = elim (Option-cases (get k m)) [
    | inl a ↦ rw (remove_no_inner k j m a) (ground (arith, a, e.beq_iff k k'))
    | inr (inner, a) ↦ elim (Option-cases (get j inner)) [
      | inl b ↦
          rw (remove_absent k j inner m a b) (ground (arith, a, b, e.beq_iff k k', f.beq_iff j j'))
      | inr (v, b) ↦ elim (Bool-cases (size inner == 1)) [
        | inl c ↦ rw (remove_last_lem k j inner v m a b c) (
            ground (
              arith,
              a,
              get-delete k k' m,
              get_single j j' v inner ((==_iff _ 1).0 c) b,
              e.beq_iff k k',
            ))
        | inr c ↦ rw (remove_one_lem k j inner v m a b c) (
            ground
              (arith, a, get-put k k' (delete j inner) m, get-delete j j' inner, e.beq_iff k k'))
      ]
    ]
  ]
