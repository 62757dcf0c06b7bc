-- ===== src/Examples/Ring.antt =====
-- A ring buffer of capacity 3 that has gone round: the examples for internal/util/ring_buf.go.
use keenetic_dns.Prelude.{
  ℕ, zero, suc, ◌+◌, ◌%◌, ◌<◌, ◌≡◌, refl, some, List, [], ◌∷◌, ◌++◌, arith, get_elem?, pos, drop,
  take, min,
}
use keenetic_dns.Util.RingBuf.{RingBuf, capacity, add, slice}
use keenetic_dns.Util.RingBuf.Inv.{Holds, last_n, add-Holds}
use keenetic_dns.Util.RingBuf.Reads.{slice_wraps}

abbrev wrapped : RingBuf ℕ
wrapped = record { start = 1; end = pos 0; size = 3; buf = 30 ∷ 10 ∷ 20 ∷ [] }

abbrev items : List ℕ
items = 10 ∷ 20 ∷ 30 ∷ []

wrapped-entries : (i : ℕ) → i < 3 → get_elem? (30 ∷ 10 ∷ 20 ∷ []) ((1 + i) % 3) ≡ get_elem? items i
wrapped-entries zero h = refl
wrapped-entries (suc zero) h = refl
wrapped-entries (suc (suc zero)) h = refl
wrapped-entries (suc (suc (suc i))) h = absurd (omega arith)

wrapped-Holds : Holds wrapped items
wrapped-Holds = record {
  nonempty = omega arith;
  start_in = omega arith;
  size_in = omega arith;
  next_slot = refl;
  count = refl;
  entries = wrapped-entries;
}

add-Holds_example :
    (t : RingBuf ℕ) × (add wrapped 40 ≡ some t)
    × Holds t (last_n (capacity wrapped) (items ++ 40 ∷ []))
    × (capacity t ≡ capacity wrapped)
add-Holds_example = add-Holds 40 wrapped-Holds

slice_wraps_example :
    slice wrapped (pos 2) (pos 3) ≡ some (take (min 3 wrapped.size) (drop 2 (items ++ items)))
slice_wraps_example = slice_wraps 2 3 wrapped-Holds refl (omega arith)
