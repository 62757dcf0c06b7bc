-- ===== src/Util/RingBuf/Reads.antt =====
-- What `Get`, `Slice`, `Values` and `Iterator` read from a buffer that holds a list.
use keenetic_dns.Prelude.{
  ℕ, zero, suc, ◌+◌, ◌-◌, ◌%◌, ◌<◌, ◌≤◌, ◌≡◌, refl, sym, ◌∙◌, ap, some, List, [], ◌++◌, arith,
  length, get_elem?, take, drop, lt→ltb, ltb-false, leb-false, drop_all, take_all, drop-cons,
  take_snoc, ==-false, min, ℤ, pos, negsuc, ◌+ℤ◌, +ℤ_up, +ℤ_down, get_elem?-some,
  get_elem?-append_left, get_elem?-append_right, length-append,
}
use mathlib.Core.List.{reverse, reverse-append}
use native.Mathlib.Nat.{mod-eq-sub-mod}
use native.Mathlib.Decide.{dec_lt}
use keenetic_dns.Util.RingBuf.{
  RingBuf, capacity, slot, get, copy_from, slice, values, iterate, iterator, normal_step,
}
use keenetic_dns.Util.RingBuf.Inv.{Holds}

module _ {ℓ} {A : Type ℓ} where
  -- `Get` of an index below the size is the item at this index, the oldest first.
  pub get_lem :
      {s : RingBuf A} {xs : List A} (i : ℕ) → Holds s xs → i < s.size → get s i ≡ get_elem? xs i
  unfolding get slot
  get_lem {s} {xs} i v h = rw (==-false (capacity s) 0 (omega arith)) (v.entries i h)

  slot_lem :
      {s : RingBuf A} {xs : List A} (i k : ℕ)
      → Holds s xs
      → i < s.size
      → k ≡ s.start + i
      → slot s.buf k ≡ get_elem? xs i
  unfolding get slot
  slot_lem {s} {xs} i k v h e = rw (e, ==-false (capacity s) 0 (omega arith)) (v.entries i h)

  -- A copy that starts `i` slots behind `start`, where the slots show a list.
  copy_from_lem :
      (buf ys : List A) (start n i k : ℕ)
      → ((j : ℕ) → j < length ys → slot buf (start + j) ≡ get_elem? ys j)
      → i + n ≤ length ys
      → k ≡ start + i
      → copy_from buf k n ≡ some (take n (drop i ys))
  unfolding copy_from
  copy_from_lem buf ys start zero i k shown h e = refl
  copy_from_lem buf ys start (suc n) i k shown h e =
      let (x, found) = get_elem?-some ys i (omega arith) in
      let here : slot buf k ≡ some x = ap (slot buf) e ∙ shown i (omega arith) ∙ found in
      rw (
        here,
        copy_from_lem buf ys start n (suc i) (k + 1) shown (omega arith) (omega arith),
        drop-cons ys i x found,
      )

  -- `Slice` is right as long as it is not asked for more than there is behind `from`.
  pub slice_within :
      {s : RingBuf A} {xs : List A} (from count : ℕ)
      → Holds s xs
      → from + count ≤ s.size
      → slice s (pos from) (pos count) ≡ some (take count (drop from xs))
  unfolding slice
  slice_within from zero v h = ground arith
  slice_within {s} {xs} from (suc count) v h =
      let fits : min (suc count) s.size ≡ suc count = omega arith in
      rw
        (
          ==-false s.size 0 (omega arith),
          ==-false (suc count) 0 (omega arith),
          leb-false s.size from (omega arith),
          fits,
        )
        (copy_from_lem s.buf xs s.start (suc count) from (s.start + from)
          (λ i p. slot_lem i _ v (omega (arith, v.count)) refl) (omega (arith, v.count)) refl)

  pub values_lem : {s : RingBuf A} {xs : List A} → Holds s xs → values s ≡ some xs
  unfolding values
  values_lem {s} {xs} v =
      slice_within 0 s.size v (omega arith) ∙ ap some (take_all s.size xs (omega (arith, v.count)))

  -- The slots of a full buffer, read past the newest item, show the items once more.
  slot_again :
      {s : RingBuf A} {xs : List A} (i : ℕ)
      → Holds s xs
      → s.size ≡ capacity s
      → i < length (xs ++ xs)
      → slot s.buf (s.start + i) ≡ get_elem? (xs ++ xs) i
  unfolding slot
  slot_again {s} {xs} i v full h = elim (dec_lt i (length xs)) [
    | yes p ↦ slot_lem i _ v (omega (arith, v.count)) refl ∙ sym (get_elem?-append_left xs xs i p)
    | no p ↦
        ap (slot s.buf) {y = s.start + i} (omega arith)
        ∙ rw (==-false (capacity s) 0 (omega (arith, v.nonempty))) (ap (get_elem? s.buf) (round p))
        ∙ v.entries (i - length xs) (omega (arith, v.count, length-append xs xs))
        ∙ sym (get_elem?-append_right xs xs i (omega arith))
  ]
    where
      round :
          ¬ i < length xs → (s.start + i) % capacity s ≡ (s.start + (i - length xs)) % capacity s
      round p =
          mod-eq-sub-mod {n = s.start + i} {m = capacity s} (omega (arith, v.count))
          ∙ ap (λ k. k % capacity s) {x = s.start + i - capacity s} (omega (arith, v.count))

  -- Asked for more than there is behind `from`, `Slice` of a full buffer goes on with the oldest
  -- items: it clips the count by the size, and not by what is left behind `from`.
  pub slice_wraps :
      {s : RingBuf A} {xs : List A} (from count : ℕ)
      → Holds s xs
      → s.size ≡ capacity s
      → from < s.size
      → slice s (pos from) (pos count) ≡ some (take (min count s.size) (drop from (xs ++ xs)))
  unfolding slice
  slice_wraps from zero v full h = ground arith
  slice_wraps {s} {xs} from (suc count) v full h =
      rw
        (
          ==-false s.size 0 (omega arith),
          ==-false (suc count) 0 (omega arith),
          leb-false s.size from h,
        )
        (copy_from_lem s.buf (xs ++ xs) s.start (min (suc count) s.size) from (s.start + from)
          (λ i p. slot_again i v full p) (omega (arith, v.count, length-append xs xs)) refl)

  iterate_end : (s : RingBuf A) (fuel : ℕ) → iterate s fuel (pos 0 +ℤ negsuc 0) (negsuc 0) ≡ some []
  unfolding iterate
  iterate_end s zero = refl
  iterate_end s (suc fuel) = refl

  iterate_forward :
      {s : RingBuf A} {xs : List A} (fuel i : ℕ) (j : ℤ)
      → Holds s xs
      → s.size ≤ i + fuel
      → j ≡ pos i
      → iterate s fuel j (pos 1) ≡ some (drop i xs)
  unfolding iterate
  iterate_forward {s} {xs} zero i j v h e = rw (drop_all i xs (omega (arith, v.count)))
  iterate_forward {s} {xs} (suc fuel) i j v h e = elim (dec_lt i s.size) [
    | yes p ↦
        let (x, found) = get_elem?-some xs i (omega (arith, v.count)) in
        rw (
          e,
          lt→ltb i s.size p,
          slot_lem {s = s} {xs = xs} i (s.start + i) v p refl,
          found,
          iterate_forward fuel (suc i) (pos i +ℤ pos 1) v (omega arith) (+ℤ_up i),
          drop-cons xs i x found,
        )
    | no p ↦ rw (e, ltb-false i s.size (omega arith), drop_all i xs (omega (arith, v.count)))
  ]

  -- From an index of the buffer on, a step of 1 yields the items up to the newest.
  pub iterator_forward :
      {s : RingBuf A} {xs : List A} (i : ℕ)
      → Holds s xs
      → iterator s (pos i) (pos 1) ≡ some (drop i xs)
  unfolding iterator normal_step
  iterator_forward {s} i v = iterate_forward s.size i (pos i) v (omega arith) refl

  iterate_backward :
      {s : RingBuf A} {xs : List A} (fuel i : ℕ) (j : ℤ)
      → Holds s xs
      → i < s.size
      → i < fuel
      → j ≡ pos i
      → iterate s fuel j (negsuc 0) ≡ some (reverse (take (suc i) xs))
  unfolding iterate
  iterate_backward zero i j v h k e = elim k [ ]
  iterate_backward {s} {xs} (suc fuel) zero j v h k e =
      let (x, found) = get_elem?-some xs 0 (omega (arith, v.count)) in
      rw (
        e,
        lt→ltb 0 s.size h,
        slot_lem {s = s} {xs = xs} 0 (s.start + 0) v h refl,
        found,
        iterate_end s fuel,
        take_snoc xs 0 x found,
      )
  iterate_backward {s} {xs} (suc fuel) (suc i) j v h k e =
      let (x, found) = get_elem?-some xs (suc i) (omega (arith, v.count)) in
      rw (
        e,
        lt→ltb (suc i) s.size h,
        slot_lem {s = s} {xs = xs} (suc i) (s.start + suc i) v h refl,
        found,
        iterate_backward fuel i (pos (suc i) +ℤ negsuc 0) v (omega arith) (omega arith) (+ℤ_down i),
        take_snoc xs (suc i) x found,
        reverse-append,
      )

  -- From an index of the buffer on, a step of -1 yields the items down to the oldest.
  pub iterator_backward :
      {s : RingBuf A} {xs : List A} (i : ℕ)
      → Holds s xs
      → i < s.size
      → iterator s (pos i) (negsuc 0) ≡ some (reverse (take (suc i) xs))
  unfolding iterator normal_step
  iterator_backward {s} i v h = iterate_backward s.size i (pos i) v h h refl
