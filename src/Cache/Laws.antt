-- ===== src/Cache/Laws.antt =====
-- What the cache of dns-server/internal/dns_cache.go gives back, and that purging it is not seen.
use keenetic_dns.Prelude.{
  ℕ, ◌+◌, ◌*◌, ◌≤◌, ◌≡◌, refl, sym, subst, ap, ◌∙◌, Option, none, some, Bool, true, false, not,
  ◌&&◌, List, [], ◌∷◌, any, ltb, lt→ltb, if◌then◌else◌, ◌=?◌, Bool-cases, Option-cases, inl, inr,
  arith, ltb→lt,
}
use keenetic_dns.GoMap
use keenetic_dns.GoMap.{Map, Distinct}
use keenetic_dns.GoMap.Laws.{get-delete, get-put}
use keenetic_dns.Message.{Question, question_eq, Msg}
use keenetic_dns.Cache.{
  Entry, DnsCache, second, expired, result_at, get, put, min_ttl, remove_each, remove_expired,
}

-- An entry for the question that has expired.
abbrev gone : ℕ → Question → Question × Entry → Bool
gone now q e = (e.0 =? q) && expired now e.1

get-remove_each :
    (now : ℕ) (q : Question) (es : List (Question × Entry)) (c : DnsCache)
    → GoMap.get q (remove_each now es c) ≡ (if any (gone now q) es then none else GoMap.get q c)
unfolding remove_each
get-remove_each now q [] c = refl
get-remove_each now q ((k, e) ∷ es) c = elim (Bool-cases (expired now e)) [
  | inl x ↦ rw (x) (
      get-remove_each now q es (GoMap.delete k c)
      ∙ rw (get-delete k q c) (elim (Bool-cases (k =? q)) [
        | inl y ↦
            rw (y)
              (elim (Bool-cases (any (gone now q) es)) [ inl z ↦ rw z refl | inr z ↦ rw z refl ])
        | inr y ↦ rw (y) refl
      ]))
  | inr x ↦ rw (x) (
      get-remove_each now q es c
      ∙ elim (Bool-cases (k =? q)) [ inl y ↦ rw y refl | inr y ↦ rw y refl ])
]

-- Whether the entry for a question has expired.
abbrev has_gone : ℕ → Option Entry → Bool
has_gone now none = false
has_gone now (some e) = expired now e

absent-gone :
    (now : ℕ) (q : Question) (c : DnsCache) → GoMap.get q c ≡ none → any (gone now q) c ≡ false
unfolding GoMap.get
absent-gone now q [] h = refl
absent-gone now q ((k, e) ∷ c) h = elim (Bool-cases (k =? q)) [
  | inl y ↦ absurd (let n : some e ≡ none = rw y at h in cc)
  | inr y ↦ rw (y) (absent-gone now q c (rw y at h))
]

any-gone :
    (now : ℕ) (q : Question) (c : DnsCache)
    → Distinct c
    → any (gone now q) c ≡ has_gone now (GoMap.get q c)
unfolding GoMap.get
any-gone now q [] d = refl
any-gone now q ((k, e) ∷ c) d = elim (Bool-cases (k =? q)) [
  | inl y ↦
      let free : GoMap.get q c ≡ none =
        subst (λ x. GoMap.get x c ≡ none) ((question_eq.beq_iff k q).0 y) d.0 in
      rw (y) (elim (Bool-cases (expired now e)) [
        | inl x ↦ rw x refl
        | inr x ↦ rw (x) (absent-gone now q c free)
      ])
  | inr y ↦ rw (y) (any-gone now q c d.1)
]

expired_later :
    (now later : ℕ) (e : Entry) → now ≤ later → expired now e ≡ true → expired later e ≡ true
unfolding expired
expired_later now later e h x = lt→ltb e.expires later (omega (arith, ltb→lt e.expires now x))

-- What `Get` makes of an entry.
abbrev answer_at : ℕ → Option Entry → Option Msg
answer_at t none = none
answer_at t (some e) = if not (expired t e) then some (result_at t e) else none

get_lem : (t : ℕ) (q : Question) (c : DnsCache) → get t q c ≡ answer_at t (GoMap.get q c)
unfolding get
get_lem t q c = elim (Option-cases (GoMap.get q c)) [
  | inl g ↦ rw (get, g) refl
  | inr (e, g) ↦ rw (get, g) refl
]

purged :
    (now later : ℕ) (o : Option Entry)
    → now ≤ later
    → answer_at later (if has_gone now o then none else o) ≡ answer_at later o
purged now later none h = refl
purged now later (some e) h = elim (Bool-cases (expired now e)) [
  | inl x ↦ rw (x, expired_later now later e h x) refl
  | inr x ↦ rw (x) refl
]

-- Purging a cache is not seen: it gives the same answers as before, from then on, to every question.
pub get-remove_expired :
    (now later : ℕ) (q : Question) (c : DnsCache)
    → Distinct c
    → now ≤ later
    → get later q (remove_expired now c) ≡ get later q c
unfolding remove_expired
get-remove_expired now later q c d h =
    get_lem later q (remove_each now c c)
    ∙ ap (answer_at later) (
        get-remove_each now q c c
        ∙ ap (λ (b : Bool). if b then none else GoMap.get q c) (any-gone now q c d))
    ∙ purged now later (GoMap.get q c) h
    ∙ sym (get_lem later q c)

put_lem :
    (now : ℕ) (q : Question) (msg : Msg) (m : ℕ) (c : DnsCache)
    → min_ttl msg.answer none ≡ some m
    → put now q msg c ≡ GoMap.put q (record { result = msg; expires = now + m * second }) c
unfolding put
put_lem now q msg m c h = rw (put, h) refl

not_late :
    (now t m : ℕ) (msg : Msg)
    → let e : Entry = record { result = msg; expires = now + m * second } in
      answer_at t (some e) ≡ (if ltb (now + m * second) t then none else some (result_at t e))
unfolding expired
not_late now t m msg = elim (Bool-cases (ltb (now + m * second) t)) [
  | inl x ↦ rw x refl
  | inr x ↦ rw x refl
]

-- An answer that was put is given back for its question until the shortest positive TTL is over,
-- and not afterwards; other questions get what they got before.
pub get-put_lem :
    (now t : ℕ) (q q' : Question) (msg : Msg) (m : ℕ) (c : DnsCache)
    → min_ttl msg.answer none ≡ some m
    → get t q' (put now q msg c) ≡ (
        if q =? q'
        then (if ltb (now + m * second) t
            then none
            else some (result_at t (record { result = msg; expires = now + m * second })))
        else get t q' c)
get-put_lem now t q q' msg m c h =
    ap (get t q') (put_lem now q msg m c h)
    ∙ get_lem t q' _
    ∙ ap (answer_at t) (get-put q q' (record { result = msg; expires = now + m * second }) c)
    ∙ elim (Bool-cases (q =? q')) [
      | inl y ↦ rw (y) (not_late now t m msg)
      | inr y ↦ rw (y) (sym (get_lem t q' c))
    ]
