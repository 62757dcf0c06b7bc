-- ===== src/Inflight/Shared.antt =====
-- As long as no request has failed, one call at most asks the next resolver for each question.
use keenetic_dns.Prelude.{
  update, update_self, update_other, ℕ, ◌≡◌, ◌≢◌, ◌<◌, inl, inr, sym, ◌∙◌, ap, subst, Option, none,
  some, ◌==◌, ==_iff, arith, ◌=?◌, Bool-cases, Option-cases,
}
use native.Mathlib.Decide.{ℕ_discrete}
use keenetic_dns.GoMap
use keenetic_dns.GoMap.{Map}
use keenetic_dns.GoMap.Laws.{get-put, get-delete}
use keenetic_dns.Message.{Question, question_eq, Msg}
use keenetic_dns.Inflight.{
  Pc, start, waiting, asking, finishing, returned, panicked, System, move, register, is_registered,
  unregister, key, Step, bypass, bypass_panics, panics, join, enter, cancel, share, retry, answer,
  finish, Reach, begin, later,
}
use keenetic_dns.Inflight.Invariant.{PcOk, Inv}
use keenetic_dns.Inflight.Finish.{Reach-Inv}

-- No request has got an error so far.
abbrev pub NoErrors : System → Type 0
NoErrors s = (r : ℕ) → r < s.next → (s.slots r).result ≢ some none

-- What is registered stays registered when another request is given up.
get-unregister_other :
    (q q' : Question) (r r' : ℕ) (m : Map Question ℕ)
    → GoMap.get q' m ≡ some r'
    → (q ≡ q' → r ≢ r')
    → GoMap.get q' (unregister q r m) ≡ some r'
unfolding unregister is_registered
get-unregister_other q q' r r' m h other = elim (Option-cases (GoMap.get q m)) [
  | inl g ↦ rw (unregister, is_registered, g) h
  | inr (x, g) ↦ elim (Bool-cases (x == r)) [
    | inr not_mine ↦ rw (unregister, is_registered, g, not_mine) h
    | inl mine ↦ elim (Bool-cases (q =? q')) [
      | inr apart ↦ rw (unregister, is_registered, g, mine, get-delete q q' m, apart) h
      | inl same ↦
          let e = (question_eq.beq_iff q q').0 same in
          let there : some x ≡ some r' = sym g ∙ ap (λ z. GoMap.get z m) e ∙ h in
          let x_is : x ≡ r' = cc in absurd (other e (sym ((==_iff x r).0 mine) ∙ x_is))
    ]
  ]
]

module _ (msgs : ℕ → Msg) where
  -- The request of a call that asks is the one that is registered.
  abbrev Registered : System → Type 0
  Registered s =
      (i r : ℕ) (q : Question)
      → s.pc i ≡ asking r
      → key msgs i ≡ some q
      → GoMap.get q s.requests ≡ some r

  -- A call that asks after a move asked before it.
  asked_before :
      (s : System) (i j r : ℕ) (p : Pc)
      → update s.pc i p j ≡ asking r
      → p ≢ asking r
      → (s.pc j ≡ asking r) × (i ≢ j)
  asked_before s i j r p e ne = elim (ℕ_discrete i j) [
    | yes same ↦ absurd (ne (sym (update_self s.pc i p) ∙ ap (update s.pc i p) same ∙ e))
    | no other ↦ (sym (update_other s.pc i j p other) ∙ e, other)
  ]

  entered :
      (s : System) (i : ℕ) (q : Question)
      → GoMap.get q s.requests ≡ none
      → key msgs i ≡ some q
      → Registered s
      → Registered (register s i q)
  entered s i q g asked all j r q' e k = elim (ℕ_discrete i j) [
    | yes same ↦
        let qs : some q ≡ some q' = sym asked ∙ ap (key msgs) same ∙ k in
        let q_is : q ≡ q' = cc in
        let rs : asking s.next ≡ asking r =
          sym (update_self s.pc i (asking s.next)) ∙ ap (update s.pc i (asking s.next)) same ∙ e in
        let r_is : s.next ≡ r = cc in
        get-put q q' s.next s.requests ∙ rw ((question_eq.beq_iff q q').1 q_is) (ap some r_is)
    | no other ↦
        let before = all j r q' (sym (update_other s.pc i j (asking s.next) other) ∙ e) k in
        get-put q q' s.next s.requests ∙ elim (Bool-cases (q =? q')) [
          | inr apart ↦ rw (apart) before
          | inl same ↦ absurd (
              let n : none ≡ some r =
                sym g
                ∙ ap (λ z. GoMap.get z s.requests) ((question_eq.beq_iff q q').0 same)
                ∙ before in
              cc)
        ]
  ]

  moved :
      (s : System) (i : ℕ) (p : Pc)
      → ((r : ℕ) → p ≢ asking r)
      → Registered s
      → Registered (move s i p)
  moved s i p quiet all j r q e k = all j r q (asked_before s i j r p e (quiet r)).0 k

  finished :
      (s : System) (i r : ℕ) (q : Question) (o : Option Msg)
      → Inv msgs s
      → s.pc i ≡ finishing r
      → Registered s
      → Registered (record (move s i (returned o)) { requests = unregister q r s.requests })
  finished s i r q o v at all j r' q' e k =
      let (before, other) = asked_before s i j r' (returned o) e (cc) in
      get-unregister_other q q' r r' s.requests (all j r' q' before k) (λ same eq.
        let mine = (subst (PcOk msgs s i) at (v.calls i)).1 in
        let theirs = (subst (PcOk msgs s j) before (v.calls j)).1 in
        other (sym mine ∙ ap (λ x. (s.slots x).owner) eq ∙ theirs))

  Step-Registered :
      {s t : System} → Step msgs s t → Inv msgs s → NoErrors s → Registered s → Registered t
  Step-Registered {s} (bypass i o at multi) v clean all = moved s i (returned o) (λ r. cc) all
  Step-Registered {s} (bypass_panics i at multi) v clean all = moved s i panicked (λ r. cc) all
  Step-Registered {s} (panics i r at) v clean all = moved s i panicked (λ r. cc) all
  Step-Registered {s} (join i r q at single asked g) v clean all =
      moved s i (waiting r) (λ x. cc) all
  Step-Registered {s} (enter i q at single asked g) v clean all = entered s i q g asked all
  Step-Registered {s} (cancel i r at) v clean all = moved s i (returned none) (λ x. cc) all
  Step-Registered {s} (share i r m at e) v clean all = moved s i _ (λ x. cc) all
  Step-Registered {s} (retry i r q at e asked) v clean all =
      absurd (clean r (subst (PcOk msgs s i) at (v.calls i)).0 e)
  Step-Registered {s} (answer i r o at) v clean all = moved s i (finishing r) (λ x. cc) all
  Step-Registered {s} (finish i r q o at asked e) v clean all = finished s i r q o v at all

  -- An error stays where it was.
  Step-NoErrors : {s t : System} → Step msgs s t → Inv msgs s → NoErrors t → NoErrors s
  Step-NoErrors {s} (bypass i o at multi) v clean x h e = clean x h e
  Step-NoErrors {s} (bypass_panics i at multi) v clean x h e = clean x h e
  Step-NoErrors {s} (panics i r at) v clean x h e = clean x h e
  Step-NoErrors {s} (join i r q at single asked g) v clean x h e = clean x h e
  Step-NoErrors {s} (enter i q at single asked g) v clean x h e = clean x (omega arith) (
      ap (λ z. z.result)
        (update_other s.slots s.next x (record { owner = i; result = none }) (omega arith))
      ∙ e)
  Step-NoErrors {s} (cancel i r at) v clean x h e = clean x h e
  Step-NoErrors {s} (share i r m at k) v clean x h e = clean x h e
  Step-NoErrors {s} (retry i r q at k asked) v clean x h e = clean x (omega arith) (
      ap (λ z. z.result)
        (update_other s.slots s.next x (record { owner = i; result = none }) (omega arith))
      ∙ e)
  Step-NoErrors {s} (answer i r o at) v clean x h e =
      let (a, b, c) = subst (PcOk msgs s i) at (v.calls i) in
      clean x h (
        ap (λ z. z.result)
          (update_other s.slots r x (record { owner = (s.slots r).owner; result = some o })
            (λ same.
              let n : none ≡ some none = sym c ∙ ap (λ z. (s.slots z).result) same ∙ e in cc))
        ∙ e)
  Step-NoErrors {s} (finish i r q o at asked k) v clean x h e = clean x h e

  Reach-Registered : {s : System} → Reach msgs s → NoErrors s → Registered s
  Reach-Registered begin clean = λ i r q e k. let n : start ≡ asking r = e in cc
  Reach-Registered (later reach st) clean =
      let v = Reach-Inv msgs reach in
      let before = Step-NoErrors st v clean in
      Step-Registered st v before (Reach-Registered reach before)

  -- In every reachable state in which no request has failed, two calls with the same question are
  -- never in the next resolver together.
  pub single_flight :
      {s : System} (i j r r' : ℕ) (q : Question)
      → Reach msgs s
      → NoErrors s
      → s.pc i ≡ asking r
      → s.pc j ≡ asking r'
      → key msgs i ≡ some q
      → key msgs j ≡ some q
      → i ≡ j
  single_flight {s} i j r r' q reach clean at at' k k' =
      let v = Reach-Inv msgs reach in
      let all = Reach-Registered reach clean in
      let rs : some r ≡ some r' = sym (all i r q at k) ∙ all j r' q at' k' in
      let r_is : r ≡ r' = cc in
      let mine = (subst (PcOk msgs s i) at (v.calls i)).1 in
      let theirs = (subst (PcOk msgs s j) at' (v.calls j)).1 in
      sym mine ∙ ap (λ x. (s.slots x).owner) r_is ∙ theirs
