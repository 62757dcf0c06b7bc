-- ===== src/Config/Laws.antt =====
-- Which hosts an interface of dns-server/internal/config.go is for.
use keenetic_dns.Prelude.{
  ◌-◌, ◌≡◌, ◌↔◌, refl, sym, subst, ap, ◌∙◌, ◌⊎◌, inl, inr, Bool, true, ◌||◌, ◌&&◌, List, [], ◌∷◌,
  ◌++◌, length, take, drop, leb, le→leb, length-append, take-append-drop, Bytes, bytes_eq,
  bytes_beq, bytes_beq_iff, ◌=?◌, In, here, there, Bool-cases, arith,
}
use keenetic_dns.Text.{has_suffix}
use keenetic_dns.Config.{hosts_lookup}

-- The host is the domain or one below it.
abbrev pub Below : Bytes → Bytes → Type 0
Below host h = (host ≡ h) ⊎ ((p : Bytes) × (host ≡ p ++ b'.' ∷ h))

drop-prefix : (p s : Bytes) → drop (length p) (p ++ s) ≡ s
drop-prefix [] s = refl
drop-prefix (x ∷ p) s = drop-prefix p s

and_split : (a b : Bool) → (a && b) ≡ true → (a ≡ true) × (b ≡ true)
and_split a b h = ground arith

has_suffix_iff : (s t : Bytes) → (has_suffix s t ≡ true) ↔ ((p : Bytes) × (s ≡ p ++ t))
unfolding has_suffix
has_suffix_iff s t = (to, from)
  where
    to : has_suffix s t ≡ true → (p : Bytes) × (s ≡ p ++ t)
    to h =
        let (a, b) =
          and_split (leb (length t) (length s)) (bytes_beq (drop (length s - length t) s) t) h in
        let k = length s - length t in
        (
          take k s,
          sym (take-append-drop k s) ∙ ap (λ x. take k s ++ x) ((bytes_beq_iff (drop k s) t).0 b),
        )

    from : (p : Bytes) × (s ≡ p ++ t) → has_suffix s t ≡ true
    from (p, e) = rw (e) (
        ground (
          arith,
          le→leb (length t) (length (p ++ t)) (omega (arith, length-append p t)),
          (bytes_beq_iff _ t).1 (
              ap (λ n. drop n (p ++ t)) {x = length (p ++ t) - length t} {y = length p}
                (omega (arith, length-append p t))
              ∙ drop-prefix p t),
        ))

one_lem : (host h : Bytes) → ((host =? h || has_suffix host (b'.' ∷ h)) ≡ true) ↔ Below host h
one_lem host h = ground (arith, bytes_beq_iff host h, has_suffix_iff host (b'.' ∷ h))

-- A domain that matches is found.
found :
    (host : Bytes) (hs : List Bytes) (k : Bytes)
    → In k hs
    → Below host k
    → hosts_lookup host hs ≡ true
unfolding hosts_lookup
found host [] k i b = elim i [ ]
found host (h ∷ hs) k (here e) b = rw ((one_lem host h).1 (subst (Below host) e b)) refl
found host (h ∷ hs) k (there i) b = elim (Bool-cases (host =? h || has_suffix host (b'.' ∷ h))) [
  | inl e ↦ rw e refl
  | inr e ↦ rw (e) (found host hs k i b)
]

matched :
    (host : Bytes) (hs : List Bytes)
    → hosts_lookup host hs ≡ true
    → (h : Bytes) × In h hs × Below host h
unfolding hosts_lookup
matched host [] e = cc
matched host (h ∷ hs) z = elim (Bool-cases (host =? h || has_suffix host (b'.' ∷ h))) [
  | inl e ↦ (h, here refl, (one_lem host h).0 e)
  | inr e ↦ let (k, i, b) = matched host hs (rw e at z) in (k, there i, b)
]

-- A host is found exactly if it is one of the configured domains or lies below one of them.
pub hosts_lookup_iff :
    (host : Bytes) (hs : List Bytes)
    → (hosts_lookup host hs ≡ true) ↔ ((h : Bytes) × In h hs × Below host h)
hosts_lookup_iff host hs = (matched host hs, λ (h, i, b). found host hs h i b)
