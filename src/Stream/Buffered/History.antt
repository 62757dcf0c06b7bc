-- ===== src/Stream/Buffered/History.antt =====
-- A stream from its construction on.
use keenetic_dns.Prelude.{
  ℕ, suc, ◌+◌, ◌/◌, ◌^◌, ◌≤◌, ◌<◌, ◌≡◌, refl, ap, subst, ◌∙◌, Option, some, List, [], ◌∷◌, ◌++◌,
  append-nil, append_assoc, arith, length, ◌>>=◌,
}
use keenetic_dns.Util.RingBuf.{capacity}
use keenetic_dns.Util.RingBuf.Inv.{last_n, last_n_short, new_ring_buf-Holds, capacity-new_ring_buf}
use keenetic_dns.Util.RingBuf.History.{last_n-last_n}
use keenetic_dns.Stream.Cursor.{Cursor}
use keenetic_dns.Stream.Buffered.{Entry, Buffered, append, new_buffered_stream}
use keenetic_dns.Stream.Buffered.Append.{Live, stored, append-Live}

-- The times do not go back, and stay in one period of 2 ^ 32 milliseconds.
abbrev pub Steady {ℓ} : {A : Type ℓ} → ℕ → List (ℕ × A) → Type 0
Steady t [] = Unit
Steady t ((now, value) ∷ rest) = (t ≤ now) × (t / 2 ^ 32 ≡ now / 2 ^ 32) × Steady now rest

-- The entries that a series of appends makes.
abbrev pub entries_of {ℓ} : {A : Type ℓ} → (Cursor → A → A) → ℕ → List (ℕ × A) → List (Entry A)
entries_of set_cursor index [] = []
entries_of set_cursor index ((now, value) ∷ rest) =
    stored set_cursor now index value ∷ entries_of set_cursor (index + 1) rest

pub new_buffered_stream-Live {ℓ} :
    {A L : Type ℓ} (zero_value : Entry A) (n t : ℕ)
    → Live (new_buffered_stream {A = A} {L = L} zero_value (suc n)) [] t
unfolding new_buffered_stream
new_buffered_stream-Live zero_value n t = record {
  held = new_ring_buf-Holds zero_value n;
  rising = tt;
  index_small = omega arith;
  below = tt;
}

module _ {ℓ} {A L : Type ℓ} (set_cursor : Cursor → A → A) where
  -- Appends one after the other, each at its time, with the listeners' calls left out.
  pub append_all : List (ℕ × A) → Buffered A L → Option (Buffered A L)
  append_all [] s = some s
  append_all ((now, value) ∷ rest) s = do
    (s', calls) ← append set_cursor now value s
    append_all rest s'

  append_all-from :
      {s : Buffered A L} {xs : List (Entry A)} (t c i : ℕ) (ops : List (ℕ × A))
      → Live s xs t
      → capacity s.buf ≡ c
      → s.index ≡ i
      → Steady t ops
      → i + length ops < 2 ^ 31
      → (s' : Buffered A L) × (t' : ℕ) × (append_all ops s ≡ some s')
        × Live s' (last_n c (xs ++ entries_of set_cursor i ops)) t'
  unfolding append_all
  append_all-from {s} {xs} t c i [] v sized at_i steady room = (
    s,
    t,
    refl,
    rw (append-nil, last_n_short c xs (omega (arith, v.held.count, v.held.size_in))) v,
  )
  append_all-from {s} {xs} t c i ((now, value) ∷ ops) v sized at_i steady room =
      let e = stored set_cursor now i value in
      let (s', appended, v', next, same, sized') =
        append-Live set_cursor t now value v steady.0 steady.1 (omega arith) in
      let w : Live s' (last_n c (xs ++ e ∷ [])) now =
        subst (λ k. Live s' (last_n c (xs ++ stored set_cursor now k value ∷ [])) now) at_i
          (subst (λ n. Live s' (last_n n (xs ++ stored set_cursor now s.index value ∷ [])) now)
            sized v') in
      let (s2, t2, rest, v2) =
        append_all-from {s = s'} {xs = last_n c (xs ++ e ∷ [])} now c (i + 1) ops w (sized' ∙ sized)
          (omega arith) steady.2 (omega arith) in
      (s2, t2, rw appended rest, subst (λ zs. Live s2 zs t2) (joined i e) v2)
    where
      joined :
          (i : ℕ) (e : Entry A)
          → last_n c (last_n c (xs ++ e ∷ []) ++ entries_of set_cursor (i + 1) ops)
            ≡ last_n c (xs ++ e ∷ entries_of set_cursor (i + 1) ops)
      joined i e =
          last_n-last_n c (xs ++ e ∷ []) (entries_of set_cursor (i + 1) ops)
          ∙ ap (last_n c) (append_assoc xs (e ∷ []) (entries_of set_cursor (i + 1) ops))

  -- A stream made with a positive capacity and appended to at times that do not go back and lie in
  -- one period, fewer than 2 ^ 31 times, never panics: it then holds the last entries, as many as
  -- the capacity, with rising cursors.
  pub append_all-Live :
      (zero_value : Entry A) (n t : ℕ) (ops : List (ℕ × A))
      → Steady t ops
      → length ops < 2 ^ 31
      → (s : Buffered A L) × (t' : ℕ) × (append_all ops (new_buffered_stream zero_value (suc n))
          ≡ some s)
        × Live s (last_n (suc n) (entries_of set_cursor 0 ops)) t'
  unfolding new_buffered_stream
  append_all-Live zero_value n t ops steady room =
      append_all-from {xs = []} t (suc n) 0 ops (new_buffered_stream-Live zero_value n t)
        (capacity-new_ring_buf zero_value (suc n)) refl steady (omega arith)
