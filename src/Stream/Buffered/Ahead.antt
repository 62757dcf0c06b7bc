-- ===== src/Stream/Buffered/Ahead.antt =====
-- Reading a stream in one of its directions: what lies ahead of the last cursor of a page is what the
-- page left over.
use mathlib.Core.List.{reverse, reverse-cons, map-append}
use keenetic_dns.Prelude.{
  ℕ, ◌≤◌, ◌<◌, ◌≡◌, refl, sym, ap, ◌∙◌, Option, some, Bool, true, false, List, [], ◌∷◌, ◌++◌, arith,
  length, length-append, length-keep_le, map, take, drop, keep, keep-append, All, All-append,
  All-map_imp, append-nil, subst, ltb, lt→ltb, Bool-cases, inl, inr,
}
use keenetic_dns.Util.RingBuf.Inv.{Holds}
use keenetic_dns.Stream.Cursor.{Cursor}
use keenetic_dns.Stream.Buffered.{Entry, Buffered, query, collect, passes}
use keenetic_dns.Stream.Buffered.Find.{Increasing}
use keenetic_dns.Stream.Buffered.Contents.{cursors}
use keenetic_dns.Stream.Buffered.Collect.{matching, last_of}
use keenetic_dns.Stream.Buffered.Query.{blank, query_forward, query_backward}
use keenetic_dns.Stream.Buffered.Direction.{
  beyond, Onward, ordered, further, ahead, Reached-page, further-further, further-last_of,
  All-beyond, Onward-further,
}

oldest_first : (ks : List Cursor) → Increasing ks → Onward true ks
oldest_first [] up = tt
oldest_first (k ∷ ks) (all, up) = (
  All-map_imp (λ j. k < j) (λ j. ltb k j ≡ true) ks (λ j h. lt→ltb k j h) all,
  oldest_first ks up,
)

-- A last cursor below all others goes behind the others in the other direction.
newest_snoc :
    (k : Cursor) (ks : List Cursor)
    → All (λ j. k < j) ks
    → Onward false ks
    → Onward false (ks ++ k ∷ [])
newest_snoc k [] all on = (tt, tt)
newest_snoc k (j ∷ ks) (h, hs) (first, on) =
    (All-append _ ks (k ∷ []) first (lt→ltb k j h, tt), newest_snoc k ks hs on)

pub All-reverse {ℓ κ} : {A : Type ℓ} (P : A → Type κ) (xs : List A) → All P xs → All P (reverse xs)
All-reverse P [] all = tt
All-reverse P (x ∷ xs) (h, hs) =
    rw (reverse-cons x xs) (All-append P (reverse xs) (x ∷ []) (All-reverse P xs hs) (h, tt))

newest_first : (ks : List Cursor) → Increasing ks → Onward false (reverse ks)
newest_first [] up = tt
newest_first (k ∷ ks) (all, up) =
    rw (reverse-cons k ks) (newest_snoc k (reverse ks) (All-reverse _ ks all) (newest_first ks up))

pub keep-reverse {ℓ} :
    {A : Type ℓ} (p : A → Bool) (xs : List A) → keep p (reverse xs) ≡ reverse (keep p xs)
keep-reverse p [] = refl
keep-reverse p (x ∷ xs) = elim (Bool-cases (p x)) [
  | inl e ↦ rw (
    reverse-cons x xs,
    keep-append p (reverse xs) (x ∷ []),
    e,
    reverse-cons x (keep p xs),
    keep-reverse p xs,
  )
  | inr e ↦
      rw (reverse-cons x xs, keep-append p (reverse xs) (x ∷ []), e, keep-reverse p xs, append-nil)
]

pub map-reverse {ℓ κ} :
    {A : Type ℓ} {B : Type κ} (f : A → B) (xs : List A) → map f (reverse xs) ≡ reverse (map f xs)
map-reverse f [] = refl
map-reverse f (x ∷ xs) =
    rw (reverse-cons x xs, map-append, map-reverse f xs, reverse-cons (f x) (map f xs)) refl

module _ {ℓ} {A : Type ℓ} where
  pub ordered-Onward :
      (forward : Bool) (xs : List (Entry A))
      → Increasing (cursors xs)
      → Onward forward (cursors (ordered forward xs))
  ordered-Onward true xs up = oldest_first (cursors xs) up
  ordered-Onward false xs up =
      subst (Onward false) (sym (map-reverse (λ it. it.cursor) xs)) (newest_first (cursors xs) up)

  -- The matching entries ahead of the last cursor of a page are those that the page left over.
  pub matching-ahead_page :
      (forward : Bool) (predicate : Option (A → Bool)) (n : ℕ) (c : Cursor) (xs : List (Entry A))
      → Increasing (cursors xs)
      → let ms = matching predicate (ahead forward c xs) in
        matching predicate (ahead forward (last_of c (take n ms)) xs) ≡ drop n ms
  matching-ahead_page forward predicate n c xs up =
      let ys = ordered forward xs in
      let on = ordered-Onward forward xs up in
      ap (matching predicate)
        (sym (further-further forward predicate c _ ys (Reached-page forward predicate n c xs)))
      ∙ further-last_of forward predicate n c (further forward c ys)
          (All-beyond forward predicate c ys) (Onward-further forward predicate c ys on)

  -- Forward, the last cursor of a page is not below the one that was asked for.
  pub page_above :
      (predicate : Option (A → Bool)) (n : ℕ) (c : Cursor) (xs : List (Entry A))
      → c ≤ last_of c (take n (matching predicate (ahead true c xs)))
  page_above predicate n c xs = ground (arith, Reached-page true predicate n c xs)

pub length-reverse {ℓ} : {A : Type ℓ} (xs : List A) → length (reverse xs) ≡ length xs
length-reverse [] = refl
length-reverse (x ∷ xs) =
    rw (reverse-cons x xs) (omega (arith, length-append (reverse xs) (x ∷ []), length-reverse xs))

length-ordered {ℓ} :
    {A : Type ℓ} (forward : Bool) (xs : List (Entry A)) → length (ordered forward xs) ≡ length xs
length-ordered true xs = refl
length-ordered false xs = length-reverse xs

-- No more entries match ahead of a cursor than there are.
pub length-matching_le {ℓ} :
    {A : Type ℓ} (forward : Bool) (predicate : Option (A → Bool)) (c : Cursor) (xs : List (Entry A))
    → length (matching predicate (ahead forward c xs)) ≤ length xs
length-matching_le forward predicate c xs = omega (
  arith,
  length-ordered forward xs,
  length-keep_le (λ it. passes predicate it.val) (ahead forward c xs),
  length-keep_le (λ it. beyond forward c it.cursor) (ordered forward xs),
)

-- A query in a direction reads what lies ahead of its cursor.
pub query_ahead {ℓ} :
    {A L : Type ℓ} (s : Buffered A L) {xs : List (Entry A)}
    → Holds s.buf xs
    → Increasing (cursors xs)
    → (forward : Bool) (c : Cursor) (count : ℕ) (predicate : Option (A → Bool))
    → query forward c count predicate s
      ≡ some (collect count predicate (ahead forward c xs) (blank c))
query_ahead s held up true c count predicate = query_forward s held up c count predicate
query_ahead s {xs} held up false c count predicate =
    query_backward s held up c count predicate
    ∙ ap (λ l. some (collect count predicate l (blank c)))
        (sym (keep-reverse (λ it. ltb it.cursor c) xs))
