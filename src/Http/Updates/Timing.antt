-- ===== src/Http/Updates/Timing.antt =====
-- How often a client is sent updates.
use keenetic_dns.Prelude.{
  ℕ, ◌+◌, ◌≤◌, ◌≡◌, ◌⊎◌, inl, inr, refl, Option, none, some, Bool, true, List, [], ◌∷◌, arith,
  Bool-cases,
}
use keenetic_dns.Http.Updates.{
  Phase, selecting, sending, away, Debouncer, Updates, due, receive, signal, ready, History, opened,
  listens, notify, passed, appends, signals, fires_now, hands_over, selects, queries,
}

pub phase_cases : (p : Phase) → (p ≡ selecting) ⊎ ((p ≡ sending) ⊎ (p ≡ away))
phase_cases selecting = inl refl
phase_cases sending = inr (inl refl)
phase_cases away = inr (inr refl)

module _ (min_interval max_interval : ℕ) (shorter : min_interval ≤ max_interval) where
  -- A time is an interval after the last call of `sendUpdate`.
  abbrev Later : List ℕ → ℕ → Type 0
  Later [] d = Unit
  Later (t ∷ ts) d = t + min_interval ≤ d

  abbrev Past : List ℕ → ℕ → Type 0
  Past [] now = Unit
  Past (t ∷ ts) now = t ≤ now

  abbrev Set : Option ℕ → List ℕ → Type 0
  Set none fires = Unit
  Set (some d) fires = Later fires d

  -- Each call is at least the interval after the one before.
  abbrev pub Apart : List ℕ → Type 0
  Apart [] = Unit
  Apart (t ∷ ts) = Later ts t × Apart ts

  record Paced (fires : List ℕ) (s : Updates) : Type 0 where
    apart : Apart fires
    past : Past fires s.now
    min_set : Set s.debouncer.min_timer fires
    max_set : Set s.debouncer.max_timer fires

  Later_sum :
      (fires : List ℕ) (now more : ℕ)
      → min_interval ≤ more
      → Past fires now
      → Later fires (now + more)
  Later_sum [] now more h p = tt
  Later_sum (t ∷ ts) now more h p = omega arith

  later_on : (fires : List ℕ) (now time : ℕ) → Past fires now → Past fires (now + time)
  later_on [] now time p = tt
  later_on (t ∷ ts) now time p = omega arith

  Later_due :
      (fires : List ℕ) (timer : Option ℕ) (now : ℕ)
      → Set timer fires
      → due now timer ≡ true
      → Later fires now
  unfolding due
  Later_due fires none now h e = cc
  Later_due [] (some d) now h e = tt
  Later_due (t ∷ ts) (some d) now h e = ground arith

  max_received :
      (fires : List ℕ) (now : ℕ) (timer : Option ℕ)
      → Past fires now
      → Set timer fires
      → Set (elim timer [ none ↦ some (now + max_interval) | some t ↦ some t ]) fires
  max_received fires now none p h = Later_sum fires now max_interval shorter p
  max_received fires now (some t) p h = h

  signal-Paced :
      (fires : List ℕ) (s : Updates) (d : Debouncer)
      → Past fires s.now
      → Set d.min_timer fires
      → Set d.max_timer fires
      → Set (signal min_interval max_interval s.now d).min_timer fires
        × Set (signal min_interval max_interval s.now d).max_timer fires
  unfolding signal receive
  signal-Paced fires s d p h k = elim (phase_cases d.phase) [
    | inl e ↦
        rw (signal, e, receive)
          (
            Later_sum fires s.now min_interval (omega arith) p,
            max_received fires s.now d.max_timer p k,
          )
    | inr (inl e) ↦ rw (signal, e) (h, k)
    | inr (inr e) ↦ rw (signal, e) (h, k)
  ]

  notify-Paced :
      (fires : List ℕ) (s : Updates)
      → Past fires s.now
      → Set s.debouncer.min_timer fires
      → Set s.debouncer.max_timer fires
      → Set (notify min_interval max_interval s).min_timer fires
        × Set (notify min_interval max_interval s).max_timer fires
  unfolding notify
  notify-Paced fires s p h k = elim (Bool-cases s.listening) [
    | inl e ↦ rw (notify, e) (signal-Paced fires s s.debouncer p h k)
    | inr e ↦ rw (notify, e) (h, k)
  ]

  ready_later :
      (fires : List ℕ) (s : Updates)
      → Set s.debouncer.min_timer fires
      → Set s.debouncer.max_timer fires
      → ready s ≡ true
      → Later fires s.now
  ready_later fires s h k e = elim (Bool-cases (due s.now s.debouncer.min_timer)) [
    | inl a ↦ Later_due fires s.debouncer.min_timer s.now h a
    | inr a ↦ Later_due fires s.debouncer.max_timer s.now k (ground arith)
  ]

  History-Paced :
      {lost : Bool} {fires : List ℕ} {s : Updates}
      → History min_interval max_interval lost fires s
      → Paced fires s
  History-Paced (opened now) = record { apart = tt; past = tt; min_set = tt; max_set = tt }
  History-Paced (listens h e f) =
      let v = History-Paced h in
      record { apart = v.apart; past = v.past; min_set = v.min_set; max_set = v.max_set }
  History-Paced (passed {lost} {fires} {s} time h) =
      let v = History-Paced h in
      record {
        apart = v.apart;
        past = later_on fires s.now time v.past;
        min_set = v.min_set;
        max_set = v.max_set;
      }
  History-Paced (appends passes h free) =
      let v = History-Paced h in
      record { apart = v.apart; past = v.past; min_set = v.min_set; max_set = v.max_set }
  History-Paced (signals {lost} {fires} {s} h locked) =
      let v = History-Paced h in
      let (a, b) = notify-Paced fires s v.past v.min_set v.max_set in
      record { apart = v.apart; past = v.past; min_set = a; max_set = b }
  History-Paced (fires_now {lost} {fires} {s} h in_select now_ready) =
      let v = History-Paced h in
      record {
        apart = (ready_later fires s v.min_set v.max_set now_ready, v.apart);
        past = omega arith;
        min_set = tt;
        max_set = tt;
      }
  History-Paced (hands_over h e f) =
      let v = History-Paced h in
      record { apart = v.apart; past = v.past; min_set = v.min_set; max_set = v.max_set }
  History-Paced (selects h e) =
      let v = History-Paced h in
      record { apart = v.apart; past = v.past; min_set = v.min_set; max_set = v.max_set }
  History-Paced (queries write_ok h e f) =
      let v = History-Paced h in
      record { apart = v.apart; past = v.past; min_set = v.min_set; max_set = v.max_set }

  -- A client is not sent updates too often: between two calls of `sendUpdate` at least the smaller
  -- interval passes, whenever the signals come, if it is not above the larger one.
  pub sends_spaced :
      {lost : Bool} {fires : List ℕ} {s : Updates}
      → History min_interval max_interval lost fires s
      → Apart fires
  sends_spaced h = (History-Paced h).apart
