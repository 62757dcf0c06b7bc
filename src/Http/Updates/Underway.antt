-- ===== src/Http/Updates/Underway.antt =====
-- That no update of a client is forgotten.
use keenetic_dns.Prelude.{ℕ, ◌+◌, ◌≤◌, ◌≡◌, ◌⊎◌, some, Bool, true, false, ◌||◌, arith}
use keenetic_dns.Http.Updates.{selecting, sending, woken, Updates}

module _ (min_interval max_interval : ℕ) where
  -- Something will make the loop query the stream: a timer that becomes ready within the smaller
  -- interval, an update on its way, or an `Append` that has not called the listener.
  abbrev pub Underway : Updates → Type 0
  Underway s =
      (s.locked ≡ true)
      ⊎ (s.loop ≡ woken)
      ⊎ (s.debouncer.phase ≡ sending)
      ⊎ ((s.debouncer.phase ≡ selecting)
          × ((d : ℕ) × (s.debouncer.min_timer ≡ some d) × (d ≤ s.now + min_interval)))

  or_left : (a b : Bool) → (a || b) ≡ false → a ≡ false
  or_left a b e = ground arith
