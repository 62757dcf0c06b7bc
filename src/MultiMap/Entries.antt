-- ===== src/MultiMap/Entries.antt =====
-- The values that a loop over a map of maps visits, and that a key stands once.
use keenetic_dns.Prelude.{
  ◌≡◌, refl, subst, ◌∙◌, inl, inr, none, some, [], ◌∷◌, map, arith, ◌==◌, Eq, ◌=?◌, Option-cases,
  Bool-cases, In, here, there, In-append, In-append_left, In-append_right,
}
use keenetic_dns.GoMap.{Map, get, put, delete, size, Distinct}
use keenetic_dns.GoMap.Laws.{get-delete, put-Distinct, delete-Distinct}
use keenetic_dns.MultiMap.{MultiMap, set, remove, find, AllDistinct, all_values}

module _ {ℓ κ} {K : Type ℓ} {V : Type κ} ⦃e : Eq K⦄ where
  -- A value of a map stands under its key.
  pub get-In : (k : K) (m : Map K V) {v : V} → get k m ≡ some v → In v (map (λ e. e.1) m)
  unfolding get
  get-In k [] h = cc
  get-In k ((j, w) ∷ m) {v = v} h = elim (Bool-cases (j =? k)) [
    | inl c ↦ here (let g : some w ≡ some v = rw c at h in cc)
    | inr c ↦ there (get-In k m (rw c at h))
  ]

  pub get_of_In :
      (m : Map K V) {v : V} → Distinct m → In v (map (λ e. e.1) m) → (k : K) × (get k m ≡ some v)
  unfolding get
  get_of_In [] d i = elim i [ ]
  get_of_In ((j, w) ∷ m) d (here h) = (j, ground (arith, h, e.beq_iff j j))
  get_of_In ((j, w) ∷ m) d (there i) =
      let (k, g) = get_of_In m d.1 i in (k, ground (arith, g, d.0, e.beq_iff j k))

module _ {ℓ κ μ} {K : Type ℓ} {J : Type κ} {V : Type μ} ⦃e : Eq K⦄ ⦃f : Eq J⦄ where
  pub get-AllDistinct :
      (k : K) (m : MultiMap K J V) {inner : Map J V}
      → AllDistinct m
      → get k m ≡ some inner
      → Distinct inner
  unfolding get
  get-AllDistinct k [] d h = cc
  get-AllDistinct k ((j, w) ∷ m) {inner = inner} (n, i, d) h = elim (Bool-cases (j =? k)) [
    | inl c ↦ subst Distinct (let g : some w ≡ some inner = rw c at h in cc) i
    | inr c ↦ get-AllDistinct k m d (rw c at h)
  ]

  delete-AllDistinct : (k : K) (m : MultiMap K J V) → AllDistinct m → AllDistinct (delete k m)
  unfolding delete
  delete-AllDistinct k [] d = tt
  delete-AllDistinct k ((j, w) ∷ m) (g, i, d) = elim (Bool-cases (j =? k)) [
    | inl c ↦ rw c (delete-AllDistinct k m d)
    | inr c ↦ rw c (get-delete k j m ∙ ground (arith, e.beq_iff k j), i, delete-AllDistinct k m d)
  ]

  put-AllDistinct :
      (k : K) (inner : Map J V) (m : MultiMap K J V)
      → Distinct inner
      → AllDistinct m
      → AllDistinct (put k inner m)
  unfolding put
  put-AllDistinct k inner m i d =
      (get-delete k k m ∙ ground (arith, e.beq_iff k k), i, delete-AllDistinct k m d)

  pub set-AllDistinct :
      (k : K) (j : J) (v : V) (m : MultiMap K J V) → AllDistinct m → AllDistinct (set k j v m)
  unfolding set get
  set-AllDistinct k j v m d = elim (Option-cases (get k m)) [
    | inl a ↦ rw (set, a) (put-AllDistinct k ((j, v) ∷ []) m (refl, tt) d)
    | inr (inner, a) ↦
        rw (set, a)
          (put-AllDistinct k (put j v inner) m (put-Distinct j v inner (get-AllDistinct k m d a)) d)
  ]

  pub remove-AllDistinct :
      (k : K) (j : J) (m : MultiMap K J V) → AllDistinct m → AllDistinct (remove k j m)
  unfolding remove
  remove-AllDistinct k j m d = elim (Option-cases (get k m)) [
    | inl a ↦ rw (remove, a) d
    | inr (inner, a) ↦ elim (Option-cases (get j inner)) [
      | inl b ↦ rw (remove, a, b) d
      | inr (v, b) ↦ elim (Bool-cases (size inner == 1)) [
        | inl c ↦ rw (remove, a, b, c) (delete-AllDistinct k m d)
        | inr c ↦
            rw (remove, a, b, c)
              (put-AllDistinct k (delete j inner) m
                (delete-Distinct j inner (get-AllDistinct k m d a)) d)
      ]
    ]
  ]

  -- A value that stands under two keys is visited.
  pub find-In :
      (k : K) (j : J) (m : MultiMap K J V) {v : V} → find k j m ≡ some v → In v (all_values m)
  unfolding find all_values get
  find-In k j [] h = cc
  find-In k j ((i, inner) ∷ m) h = elim (Bool-cases (i =? k)) [
    | inl c ↦
        In-append_left (map (λ e. e.1) inner) (all_values m) (get-In j inner (rw (find, c) at h))
    | inr c ↦
        In-append_right (map (λ e. e.1) inner) (all_values m) (find-In k j m (rw (find, c) at h))
  ]

  find_behind :
      (k k' : K) (j : J) (inner : Map J V) (m : MultiMap K J V) {v : V}
      → get k m ≡ none
      → find k' j m ≡ some v
      → find k' j ((k, inner) ∷ m) ≡ some v
  unfolding find get
  find_behind k k' j inner m {v = v} g b = elim (Bool-cases (k =? k')) [
    | inl c ↦
        let g' : get k' m ≡ none = subst (λ x. get x m ≡ none) ((e.beq_iff k k').0 c) g in
        absurd (let n : none ≡ some v = rw (find, g') at b in cc)
    | inr c ↦ rw (find, c) b
  ]

  -- A value that is visited stands under two keys.
  pub find_of_In :
      (m : MultiMap K J V) {v : V}
      → AllDistinct m
      → In v (all_values m)
      → (k : K) × (j : J) × (find k j m ≡ some v)
  unfolding find all_values get
  find_of_In [] d i = elim i [ ]
  find_of_In ((k, inner) ∷ m) {v = v} (g, di, d) i =
      elim (In-append (map (λ e. e.1) inner) (all_values m) i) [
        | inl a ↦ let (j, b) = get_of_In inner di a in (k, j, rw (find, (e.beq_iff k k).1 refl) b)
        | inr a ↦ let (k', j, b) = find_of_In m d a in (k', j, find_behind k k' j inner m g b)
      ]
