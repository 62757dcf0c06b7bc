-- ===== src/Util/RingBuf/History.antt =====
-- A ring buffer from its construction on: it holds the last items that were added.
use keenetic_dns.Prelude.{
  ℕ, zero, suc, ◌+◌, ◌-◌, ◌≡◌, refl, sym, ◌∙◌, ap, Option, none, some, List, [], ◌∷◌, ◌++◌, arith,
  length, drop, length-append, length-drop, drop-append, append_assoc, append-nil, ◌>>=◌, drop_all,
}
use keenetic_dns.Util.RingBuf.{RingBuf, capacity, new_ring_buf, add, values}
use keenetic_dns.Util.RingBuf.Inv.{
  Holds, last_n, last_n_short, capacity-new_ring_buf, add-Holds, new_ring_buf-Holds,
}
use keenetic_dns.Util.RingBuf.Reads.{values_lem}

module _ {ℓ} {A : Type ℓ} where
  -- A buffer to which items are added one after the other.
  pub add_all : RingBuf A → List A → Option (RingBuf A)
  add_all s [] = some s
  add_all s (x ∷ xs) = do t ← add s x; add_all t xs

  pub drop-drop : (m n : ℕ) (xs : List A) → drop m (drop n xs) ≡ drop (n + m) xs
  drop-drop m zero xs = ap (λ k. drop k xs) {x = m} {y = 0 + m} (omega arith)
  drop-drop m (suc n) [] = drop_all m [] (omega arith) ∙ sym (drop_all (suc n + m) [] (omega arith))
  drop-drop m (suc n) (x ∷ xs) =
      drop-drop m n xs ∙ ap (λ k. drop k (x ∷ xs)) {x = suc (n + m)} {y = suc n + m} (omega arith)

  -- To keep the last entries before more are appended does not change which are the last.
  pub last_n-last_n : (c : ℕ) (xs ys : List A) → last_n c (last_n c xs ++ ys) ≡ last_n c (xs ++ ys)
  last_n-last_n c xs ys =
      ap (drop k) (sym (drop-append d xs ys (omega arith)))
      ∙ drop-drop k d (xs ++ ys)
      ∙ ap (λ n. drop n (xs ++ ys)) {x = d + k}
          (omega (arith, length-append xs ys, length-append (last_n c xs) ys, length-drop d xs))
    where
      d : ℕ
      d = length xs - c

      k : ℕ
      k = length (last_n c xs ++ ys) - c

  pub add_all-Holds :
      {s : RingBuf A} {xs : List A} (c : ℕ) (items : List A)
      → Holds s xs
      → capacity s ≡ c
      → (t : RingBuf A) × (add_all s items ≡ some t) × Holds t (last_n c (xs ++ items))
  unfolding add_all
  add_all-Holds {s} {xs} c [] v e =
      (s, refl, rw (append-nil, last_n_short c xs (omega (arith, v.count, v.size_in))) v)
  add_all-Holds {s} {xs} c (x ∷ items) v e =
      let (t, added, w, same) = add-Holds x v in
      let w' : Holds t (last_n c (xs ++ x ∷ [])) = rw (← e) w in
      let (u, rest, held) = add_all-Holds {s = t} c items w' (same ∙ e) in
      (u, rw added rest, rw (last_n-last_n c (xs ++ x ∷ []) items, append_assoc) at held)

  -- A buffer made with a positive capacity never panics, whatever is added, and `Values` then
  -- returns the last items, as many as the capacity, oldest first.
  pub values-add_all :
      (zero_value : A) (n : ℕ) (items : List A)
      → (do t ← add_all (new_ring_buf zero_value (suc n)) items; values t)
        ≡ some (last_n (suc n) items)
  values-add_all zero_value n items =
      let (t, added, held) =
        add_all-Holds {xs = []} (suc n) items (new_ring_buf-Holds zero_value n)
          (capacity-new_ring_buf zero_value (suc n)) in
      rw added (values_lem held)

  -- With a capacity of 0 the first `Add` panics.
  pub add_zero_capacity : (zero_value x : A) → add (new_ring_buf zero_value 0) x ≡ none
  unfolding add new_ring_buf
  add_zero_capacity zero_value x = refl
