-- ===== src/Service/Chain.antt =====
-- The loop of dns-server/internal/service.go over the aliases of an answer ends.
use keenetic_dns.Prelude.{
  ℕ, zero, suc, ◌<◌, ◌≤◌, ◌≡◌, refl, sym, ap, some, true, false, not, [], ◌∷◌, keep, length,
  if◌then◌else◌, min, Bytes, bytes_eq, subst, ◌=?◌, Bool-cases, Option-cases, inl, inr, arith,
}
use keenetic_dns.GoMap
use keenetic_dns.GoMap.{Map}
use keenetic_dns.GoMap.Laws.{has-get, get-put}
use keenetic_dns.Util.Set
use keenetic_dns.Util.Set.{Set}
use keenetic_dns.Service.{Collected, Followed, follow}

-- The aliases that were not visited.
abbrev pub unvisited : Set Bytes → Map Bytes (Bytes × ℕ) → ℕ
unvisited visited m = length (keep (λ e. not (Set.has e.0 visited)) m)

has-put :
    (n x : Bytes) (s : Set Bytes)
    → GoMap.has x (GoMap.put n tt s) ≡ (if n =? x then true else GoMap.has x s)
has-put n x s =
    rw (has-get x (GoMap.put n tt s), get-put n x tt s, has-get x s)
      (elim (Bool-cases (n =? x)) [ inl e ↦ rw e refl | inr e ↦ rw e refl ])

has-insert :
    (n x : Bytes) (s : Set Bytes)
    → Set.has n s ≡ false
    → Set.has x (Set.insert n s) ≡ (if n =? x then true else Set.has x s)
unfolding Set.has Set.add
has-insert n x s h = rw (Set.insert, Set.add, h) (has-put n x s)

not_more :
    (n : Bytes) (s : Set Bytes) (m : Map Bytes (Bytes × ℕ))
    → Set.has n s ≡ false
    → unvisited (Set.insert n s) m ≤ unvisited s m
not_more n s [] h = omega arith
not_more n s (e ∷ m) h = rw (has-insert n e.0 s h) (elim (Bool-cases (n =? e.0)) [
  | inl k ↦ ground (arith, not_more n s m h)
  | inr k ↦ ground (arith, not_more n s m h)
])

-- To visit a name that has an alias leaves fewer aliases.
fewer :
    (n : Bytes) (s : Set Bytes) (m : Map Bytes (Bytes × ℕ)) (t : Bytes × ℕ)
    → Set.has n s ≡ false
    → GoMap.get n m ≡ some t
    → unvisited (Set.insert n s) m < unvisited s m
unfolding GoMap.get
fewer n s [] t h g = cc
fewer n s (e ∷ m) t h g = elim (Bool-cases (e.0 =? n)) [
  | inl k ↦
      let same : e.0 ≡ n = (bytes_eq.beq_iff e.0 n).0 k in
      let new : Set.has e.0 s ≡ false = subst (λ z. Set.has z s ≡ false) (sym same) h in
      rw (has-insert n e.0 s h, (bytes_eq.beq_iff n e.0).1 (sym same), new)
        (omega (arith, not_more n s m h))
  | inr k ↦ rw (has-insert n e.0 s h) (ground (arith, fewer n s m t h (rw k at g)))
]

pub follow_ends :
    (fuel : ℕ) (lookup : Bytes → Bytes) (c : Collected) (name : Bytes) (visited ifaces : Set Bytes)
    (ttl : ℕ)
    → unvisited visited c.cnames < fuel
    → (f : Followed) × (follow fuel lookup c name visited ifaces ttl ≡ some f)
unfolding follow
follow_ends zero lookup c name visited ifaces ttl h = elim h [ ]
follow_ends (suc fuel) lookup c name visited ifaces ttl h =
    elim (Bool-cases (Set.has name visited)) [
      | inl e ↦ rw (e) (_, refl)
      | inr e ↦ elim (Option-cases (GoMap.get name c.cnames)) [
        | inl g ↦ rw (e, g) (_, refl)
        | inr (t, g) ↦
            rw (e, g)
              (follow_ends fuel lookup c t.0 (Set.insert name visited) _ (min ttl t.1)
                (omega (arith, fewer name visited c.cnames t e g)))
      ]
    ]

not_visited_yet : (m : Map Bytes (Bytes × ℕ)) → unvisited [] m ≡ length m
unfolding Set.has GoMap.has
not_visited_yet [] = refl
not_visited_yet (e ∷ m) = ap suc (not_visited_yet m)

-- The loop over the aliases of an answer ends for every answer, also where the aliases go round: one
-- round more than there are aliases is enough.
pub follow-ends_for_all :
    (lookup : Bytes → Bytes) (c : Collected) (name : Bytes) (ttl : ℕ)
    → (f : Followed) × (follow (suc (length c.cnames)) lookup c name [] [] ttl ≡ some f)
follow-ends_for_all lookup c name ttl =
    follow_ends (suc (length c.cnames)) lookup c name [] [] ttl
      (omega (arith, not_visited_yet c.cnames))
