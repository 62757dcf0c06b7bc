-- ===== src/Stream/Buffered/Listeners.antt =====
-- `Listen`, the `stop` function that it returns, and whom `Append` calls.
use keenetic_dns.Prelude.{
  ℕ, ◌≡◌, refl, Option, none, some, List, ◌∷◌, ◌>>=◌, nat_eq, ==-true, Option-cases, inl, inr,
}
use keenetic_dns.GoMap.{get, put, delete}
use keenetic_dns.GoMap.Laws.{delete_absent}
use keenetic_dns.Util.RingBuf
use keenetic_dns.Stream.Cursor.{Cursor, make_cursor}
use keenetic_dns.Stream.Buffered.Append.{stored}
use keenetic_dns.Stream.Buffered.{Buffered, append, listen, stop}

-- The calls of an append, or `none` if it panics.
abbrev pub calls {ℓ} :
    {A L : Type ℓ} → Option (Buffered A L × List (L × Cursor × A)) → Option (List (L × Cursor × A))
calls none = none
calls (some (s, cs)) = some cs

module _ {ℓ} {A L : Type ℓ} (set_cursor : Cursor → A → A) where
  -- If its key is not in use, a new listener is called once by a later append, with the cursor and
  -- the item, and the others are called as before; its `stop` leaves the listeners as they were.
  pub listen-stop :
      (s : Buffered A L) (l : L) (now : ℕ) (value : A)
      → get s.next_listener s.listeners ≡ none
      → let (t, key) = listen l s in
        let c = make_cursor now s.index in
        (calls (append set_cursor now value t)
          ≡ (do cs ← calls (append set_cursor now value s); some ((l, c, set_cursor c value) ∷ cs)))
        × ((stop key t).listeners ≡ s.listeners)
  unfolding listen stop append put delete
  listen-stop s l now value free = (
    rw (delete_absent s.next_listener s.listeners free)
        (elim (Option-cases (RingBuf.add s.buf (stored set_cursor now s.index value))) [
          | inl e ↦ rw e
          | inr (b, e) ↦ rw e
        ]),
    rw
        (
          ==-true s.next_listener s.next_listener refl,
          delete_absent s.next_listener s.listeners free,
        )
        (delete_absent s.next_listener s.listeners free),
  )
