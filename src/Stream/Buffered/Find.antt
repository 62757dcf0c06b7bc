-- ===== src/Stream/Buffered/Find.antt =====
-- `sort.Find` over rising cursors finds the place of a cursor: how many entries are below it.
use Prim.Native.Nat.{compare, Ordering}
use keenetic_dns.Prelude.{
  ℕ, zero, suc, ◌+◌, ◌/◌, ◌≤◌, ◌<◌, ◌≡◌, refl, ap, Option, none, some, Bool, false, List, [], ◌∷◌,
  arith, length, get_elem?, get_elem?-some, get_elem?-cases, keep, All, All-get_elem?, ltb, lt→ltb,
  ltb-false, leb, leb-false, ◌==◌, if◌then◌else◌, inl, inr,
}
use native.Mathlib.Decide.{dec_lt}
use keenetic_dns.Stream.Cursor.{Cursor}
use keenetic_dns.Stream.Buffered.{find_loop, find}

-- Each cursor is below all that follow it.
abbrev pub Increasing : List Cursor → Type 0
Increasing [] = Unit
Increasing (k ∷ ks) = All (λ j. k < j) ks × Increasing ks

-- How many cursors are below `c`.
abbrev pub rank : Cursor → List Cursor → ℕ
rank c ks = length (keep (λ k. ltb k c) ks)

pub rank_none : (c k : Cursor) (ks : List Cursor) → c ≤ k → All (λ j. k < j) ks → rank c ks ≡ 0
rank_none c k [] h all = refl
rank_none c k (j ∷ ks) h (first, rest) = rw (ltb-false j c (omega arith)) (rank_none c k ks h rest)

pub rank_le : (c : Cursor) (ks : List Cursor) → rank c ks ≤ length ks
rank_le c [] = omega arith
rank_le c (k ∷ ks) = ground (arith, rank_le c ks)

-- In a rising list the entries below `c` are those before its rank.
pub rank_above :
    (c k : Cursor) (ks : List Cursor) (h : ℕ)
    → Increasing ks
    → get_elem? ks h ≡ some k
    → k < c
    → h < rank c ks
rank_above c k [] h up e p = cc
rank_above c k (j ∷ ks) zero up e p = ground arith
rank_above c k (j ∷ ks) (suc h) up e p =
    ground (arith, rank_above c k ks h up.1 e p, All-get_elem? (λ i. j < i) ks h up.0 e)

pub rank_below :
    (c k : Cursor) (ks : List Cursor) (h : ℕ)
    → Increasing ks
    → get_elem? ks h ≡ some k
    → c ≤ k
    → rank c ks ≤ h
rank_below c k [] h up e p = cc
rank_below c k (j ∷ ks) zero up e p = ground (arith, rank_none c k ks p)
rank_below c k (j ∷ ks) (suc h) up e p = ground (arith, rank_below c k ks h up.1 e p)

module _ (c : Cursor) (ks : List Cursor) (test : ℕ → Option Ordering) where
  -- `test` compares `c` with the cursor at an index.
  abbrev pub Compares : Type 0
  Compares = (i : ℕ) (k : Cursor) → get_elem? ks i ≡ some k → test i ≡ some (compare c k)

  find_loop_lem :
      (fuel i j : ℕ)
      → Increasing ks
      → Compares
      → i ≤ rank c ks
      → rank c ks ≤ j
      → j ≤ length ks
      → j ≤ i + fuel
      → find_loop fuel test i j ≡ some (rank c ks)
  unfolding find_loop
  find_loop_lem zero i j up cmp lo hi fits enough = ap some (omega arith)
  find_loop_lem (suc fuel) i j up cmp lo hi fits enough = elim (dec_lt i j) [
    | no p ↦ rw (ltb-false i j (omega arith)) (ap some (omega arith))
    | yes p ↦
        let h = (i + j) / 2 in
        let (k, found) = get_elem?-some ks h (omega arith) in
        rw (lt→ltb i j p, cmp h k found)
          (elim (dec_lt k c) [
            | yes q ↦
                ground (arith, find_loop_lem fuel (h + 1) j up cmp, rank_above c k ks h up found q)
            | no q ↦ ground (arith, find_loop_lem fuel i h up cmp, rank_below c k ks h up found)
          ])
  ]

-- How many cursors are at or below `c`.
abbrev pub reached : Cursor → List Cursor → ℕ
reached c ks = length (keep (λ k. leb k c) ks)

-- Whether the cursor at the rank of `c` is `c` itself.
abbrev pub found_at : Cursor → List Cursor → Bool
found_at c ks = elim (get_elem? ks (rank c ks)) [ none ↦ false | some k ↦ c == k ]

pub reached_none :
    (c k : Cursor) (ks : List Cursor) → c ≤ k → All (λ j. k < j) ks → reached c ks ≡ 0
reached_none c k [] h all = refl
reached_none c k (j ∷ ks) h (first, rest) =
    rw (leb-false j c (omega arith)) (reached_none c k ks h rest)

-- One step past the rank, if the cursor itself is there, leads to the first entry above it.
pub reached_lem :
    (c : Cursor) (ks : List Cursor)
    → Increasing ks
    → (if found_at c ks then rank c ks + 1 else rank c ks) ≡ reached c ks
reached_lem c [] up = refl
reached_lem c (k ∷ ks) up = elim (dec_lt k c) [
  | yes p ↦ ground (arith, reached_lem c ks up.1)
  | no p ↦ ground (arith, rank_none c k ks, reached_none c k ks)
]

pub find_lem :
    (c : Cursor) (ks : List Cursor) (test : ℕ → Option Ordering) (n : ℕ)
    → n ≡ length ks
    → Increasing ks
    → Compares c ks test
    → find n test ≡ some (rank c ks, found_at c ks)
unfolding find
find_lem c ks test n e up cmp = elim (get_elem?-cases ks (rank c ks)) [
  | inl (k, h, here) ↦ ground (arith, looped, cmp (rank c ks) k here)
  | inr (h, beyond) ↦ ground (arith, looped)
]
  where
    looped : find_loop n test 0 n ≡ some (rank c ks)
    looped =
        find_loop_lem c ks test n 0 n up cmp (omega arith) (omega (arith, rank_le c ks))
          (omega arith) (omega arith)
