-- ===== src/Util/RingBuf/Inv.antt =====
-- Which list a ring buffer holds, and that `Add` keeps this relation.
use native.Mathlib.Nat.{mod-eq_of_lt, mod-eq-sub-mod, mod-add-mod}
use native.Mathlib.Decide.{ℕ_discrete, dec_lt}
use keenetic_dns.Prelude.{
  ℕ, suc, ◌+◌, ◌-◌, ◌%◌, ◌<◌, ◌≤◌, ◌≡◌, ◌≢◌, refl, sym, ◌∙◌, ap, some, List, [], ◌∷◌, ◌++◌, arith,
  length, get_elem?, set, drop, ltb, ==-true, ==-false, if◌then◌else◌, pos, ◌+ℤ◌, rem_ℤ,
  length-append, length-set, length-drop, drop-append, length-replicate, get_elem?-set_self,
  get_elem?-set_ne, get_elem?-append_left, get_elem?-append_last, Bool-cases, inl, inr,
}
use keenetic_dns.Util.RingBuf.{RingBuf, capacity, new_ring_buf, store, put_at_end, add}

-- The buffer is in order and holds exactly `xs`, oldest first.
pub record Holds {ℓ} {A : Type ℓ} (s : RingBuf A) (xs : List A) : Type ℓ where
  pub nonempty : 0 < capacity s
  pub start_in : s.start < capacity s
  pub size_in : s.size ≤ capacity s
  pub next_slot : rem_ℤ (s.end +ℤ pos 1) (capacity s) ≡ pos ((s.start + s.size) % capacity s)
  pub count : length xs ≡ s.size
  pub entries : (i : ℕ) → i < s.size → get_elem? s.buf ((s.start + i) % capacity s) ≡ get_elem? xs i

-- The last `n` entries of a list.
abbrev pub last_n {ℓ} : {A : Type ℓ} → ℕ → List A → List A
last_n n xs = drop (length xs - n) xs

pub last_n_short {ℓ} : {A : Type ℓ} (n : ℕ) (xs : List A) → length xs ≤ n → last_n n xs ≡ xs
last_n_short n xs h = let e : length xs - n ≡ 0 = omega arith in rw e

pub last_n_full {ℓ} :
    {A : Type ℓ} (n : ℕ) (xs : List A) (x : A)
    → length xs ≡ n
    → 0 < n
    → last_n n (xs ++ x ∷ []) ≡ drop 1 xs ++ x ∷ []
last_n_full n xs x h p =
    let e : length (xs ++ x ∷ []) - n ≡ 1 = omega (arith, length-append xs (x ∷ [])) in
    rw e (drop-append 1 xs (x ∷ []) (omega arith))

-- Going round the buffer at most once.
pub wrap : (c h k : ℕ) → h < c → k ≤ c → (h + k) % c ≡ (if ltb (h + k) c then h + k else h + k - c)
wrap c h k p q = elim (Bool-cases (ltb (h + k) c)) [
  | inl e ↦ rw e (mod-eq_of_lt (ground arith))
  | inr e ↦
      rw (e, mod-eq-sub-mod {n = h + k} {m = c} (ground arith))
        (mod-eq_of_lt {n = h + k - c} {m = c} (ground arith))
]

-- Fewer than `c` steps round the buffer end at different places.
apart : (c h n i : ℕ) → h < c → n < c → i < n → (h + n) % c ≢ (h + i) % c
apart c h n i p q r = ground (arith, wrap c h n p, wrap c h i p)

wrap_next : (c h n : ℕ) → ((h + n) % c + 1) % c ≡ (h + suc n) % c
wrap_next c h n = rw mod-add-mod (ap (λ k. k % c) (omega arith))

wrap_shift : (c h n : ℕ) → ((h + 1) % c + n) % c ≡ (h + suc n) % c
wrap_shift c h n = rw mod-add-mod (ap (λ k. k % c) (omega arith))

wrap_back : (c h n : ℕ) → 0 < c → n ≡ c → (h + n) % c ≡ ((h + 1) % c + (c - 1)) % c
wrap_back c h n p e = rw mod-add-mod (ap (λ k. k % c) (omega arith))

rem_step : (a c : ℕ) → rem_ℤ (pos a +ℤ pos 1) c ≡ pos ((a + 1) % c)
rem_step a c = ground arith

module _ {ℓ} {A : Type ℓ} where
  pub get_elem?-tail : (xs : List A) (i : ℕ) → get_elem? (drop 1 xs) i ≡ get_elem? xs (suc i)
  get_elem?-tail [] i = refl
  get_elem?-tail (x ∷ xs) i = refl

  pub capacity-new_ring_buf : (z : A) (n : ℕ) → capacity (new_ring_buf z n) ≡ n
  unfolding new_ring_buf
  capacity-new_ring_buf z n = length-replicate n z

  pub new_ring_buf-Holds : (z : A) (n : ℕ) → Holds (new_ring_buf z (suc n)) []
  unfolding new_ring_buf
  new_ring_buf-Holds z n = record {
    nonempty = omega arith;
    start_in = omega arith;
    size_in = omega arith;
    next_slot = refl;
    count = refl;
    entries = λ i h. absurd (omega arith);
  }

  -- The write behind the entries: `s` has room for one entry more than `ys`, which it counts already.
  record Room (s : RingBuf A) (ys : List A) (n : ℕ) : Type ℓ where
    start_in : s.start < capacity s
    size_in : suc n ≤ capacity s
    next_slot : rem_ℤ (s.end +ℤ pos 1) (capacity s) ≡ pos ((s.start + n) % capacity s)
    counted : s.size ≡ suc n
    count : length ys ≡ n
    entries : (i : ℕ) → i < n → get_elem? s.buf ((s.start + i) % capacity s) ≡ get_elem? ys i

  abbrev written : RingBuf A → ℕ → A → RingBuf A
  written s n x =
      let i = (s.start + n) % capacity s in record s { end = pos i; buf = set s.buf i x }

  put_at_end_lem :
      (s : RingBuf A) (ys : List A) (n : ℕ) (x : A)
      → Room s ys n
      → put_at_end s x ≡ some (written s n x)
  unfolding put_at_end store
  put_at_end_lem s ys n x r = rw (r.next_slot) (ground (arith))

  written-entries :
      (s : RingBuf A) (ys : List A) (n : ℕ) (x : A)
      → Room s ys n
      → (i : ℕ) → i < suc n
      → get_elem? (set s.buf ((s.start + n) % capacity s) x) ((s.start + i) % capacity s)
        ≡ get_elem? (ys ++ x ∷ []) i
  written-entries s ys n x r i h = elim (ℕ_discrete i n) [
    | yes e ↦ rw e (
        get_elem?-set_self s.buf _ x (omega (arith, wrap c s.start n))
        ∙ sym (get_elem?-append_last ys x n (omega arith)))
    | no ne ↦
        get_elem?-set_ne s.buf _ _ x (apart c s.start n i r.start_in (omega arith) (omega arith))
        ∙ r.entries i (omega arith)
        ∙ sym (get_elem?-append_left ys (x ∷ []) i (omega arith))
  ]
    where
      c : ℕ
      c = capacity s

  written-Holds :
      (s : RingBuf A) (ys : List A) (n : ℕ) (x : A)
      → Room s ys n
      → Holds (written s n x) (ys ++ x ∷ [])
  written-Holds s ys n x r = record {
    nonempty = omega (arith, kept);
    start_in = omega (arith, kept);
    size_in = omega (arith, kept);
    next_slot =
        rw (kept, rem_step ((s.start + n) % capacity s) (capacity s))
          (ap pos (
            wrap_next (capacity s) s.start n
            ∙ ap (λ k. (s.start + k) % capacity s) (sym r.counted)));
    count = omega (arith, length-append ys (x ∷ []));
    entries = λ i h. rw kept (written-entries s ys n x r i (omega arith));
  }
    where
      kept : length (set s.buf ((s.start + n) % capacity s) x) ≡ capacity s
      kept = length-set s.buf _ x

  add_room :
      {s : RingBuf A} {xs : List A} (x : A)
      → Holds s xs
      → s.size < capacity s
      → (t : RingBuf A) × (add s x ≡ some t) × Holds t (xs ++ x ∷ []) × (capacity t ≡ capacity s)
  unfolding add
  add_room {s} {xs} x v h = (
    written s' s.size x,
    rw (==-false s.size (capacity s) (omega arith)) (put_at_end_lem s' xs s.size x room),
    written-Holds s' xs s.size x room,
    length-set s.buf _ x,
  )
    where
      s' : RingBuf A
      s' = record s { size = s.size + 1 }

      room : Room s' xs s.size
      room = record {
        start_in = v.start_in;
        size_in = omega arith;
        next_slot = v.next_slot;
        counted = omega arith;
        count = v.count;
        entries = v.entries;
      }

  add_full :
      {s : RingBuf A} {xs : List A} (x : A)
      → Holds s xs
      → s.size ≡ capacity s
      → (t : RingBuf A) × (add s x ≡ some t)
        × Holds t (drop 1 xs ++ x ∷ [])
        × (capacity t ≡ capacity s)
  unfolding add
  add_full {s} {xs} x v h = (
    written s' n x,
    rw (==-true s.size c h, ==-false c 0 (omega arith)) (put_at_end_lem s' (drop 1 xs) n x room),
    written-Holds s' (drop 1 xs) n x room,
    length-set s.buf _ x,
  )
    where
      c : ℕ
      c = capacity s

      n : ℕ
      n = c - 1

      s' : RingBuf A
      s' = record s { start = (s.start + 1) % c }

      room : Room s' (drop 1 xs) n
      room = record {
        start_in = omega (arith, wrap c s.start 1);
        size_in = omega arith;
        next_slot = v.next_slot ∙ ap pos (wrap_back c s.start s.size (omega arith) h);
        counted = omega arith;
        count = omega (arith, length-drop 1 xs);
        entries = λ i p.
            ap (get_elem? s.buf) (wrap_shift c s.start i)
            ∙ v.entries (suc i) (omega arith)
            ∙ sym (get_elem?-tail xs i);
      }

  -- On a buffer in order `Add` does not panic, keeps the capacity and the order, and leaves the
  -- buffer with the new item last; the oldest item goes when the buffer was full.
  pub add-Holds :
      {s : RingBuf A} {xs : List A} (x : A)
      → Holds s xs
      → (t : RingBuf A) × (add s x ≡ some t)
        × Holds t (last_n (capacity s) (xs ++ x ∷ []))
        × (capacity t ≡ capacity s)
  add-Holds {s} {xs} x v = elim (dec_lt s.size (capacity s)) [
    | yes p ↦
        rw (last_n_short (capacity s) (xs ++ x ∷ []) (omega (arith, length-append xs (x ∷ []))))
          (add_room x v p)
    | no p ↦
        rw (last_n_full (capacity s) xs x (omega arith) (omega arith)) (add_full x v (omega arith))
  ]
