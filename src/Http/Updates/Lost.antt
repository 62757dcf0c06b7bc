-- ===== src/Http/Updates/Lost.antt =====
-- A signal that comes between the end of an update and the debouncer's next select is lost.
use keenetic_dns.Prelude.{ℕ, ◌+◌, ◌≡◌, refl, none, some, true, false, [], ◌∷◌, le→leb, arith}
use keenetic_dns.Http.Updates.{
  selecting, Updates, waiting, due, receive, signal, History, opened, passed, appends, signals,
  fires_now, hands_over, selects, listens, notify, queries, unnoticed,
}

-- Nothing will make the loop query the stream before another signal comes.
abbrev pub Idle : Updates → Type 0
Idle s =
    (s.locked ≡ false)
    × ((s.loop ≡ waiting)
        × ((s.debouncer.phase ≡ selecting)
            × ((s.debouncer.min_timer ≡ none) × (s.debouncer.max_timer ≡ none))))

module _ (min_interval max_interval : ℕ) where
  now_due : due (0 + min_interval) (some (0 + min_interval)) ≡ true
  unfolding due
  now_due = le→leb _ _ (omega arith)

  -- Whatever the intervals are, there is a history in which two items are appended that pass the filter
  -- and `sendUpdate` is called once, after which the client has the first item, the second one waits,
  -- and the connection is idle: a signal was lost.
  pub update_lost :
      (time : ℕ) × (s : Updates) × History min_interval max_interval true (time ∷ []) s
      × (s.appended ≡ 2)
      × (s.seen ≡ 1)
      × Idle s
  unfolding signal receive unnoticed notify
  update_lost =
      let start = selects (listens (opened 0) refl refl) refl in
      let first = signals (appends true start refl) refl in
      let fired = fires_now (passed min_interval first) refl (rw now_due refl) in
      let seen = queries true (hands_over fired refl refl) refl refl in
      let second = signals (appends true seen refl) refl in
      (_, _, selects second refl, refl, refl, (refl, (refl, (refl, (refl, refl)))))
