-- ===== src/Inflight/Waiting.antt =====
-- What becomes of a call of the single-inflight resolver that waits for another call's request.
use keenetic_dns.Prelude.{
  update, update_self, update_other, ℕ, ◌≡◌, ◌≢◌, ◌<◌, ◌⊎◌, inl, inr, sym, ◌∙◌, ap, subst, Option,
  none, some, Option-cases, arith, refl,
}
use native.Mathlib.Decide.{ℕ_discrete}
use keenetic_dns.Message.{Question, question_eq, Msg}
use keenetic_dns.Inflight.{
  Pc, start, waiting, asking, finishing, returned, panicked, System, complete, register, Step,
  answer, Reach, bypass, bypass_panics, join, enter, cancel, share, retry, panics, finish, Later,
  now, after,
}
use keenetic_dns.Inflight.Invariant.{PcOk, Inv}
use keenetic_dns.Inflight.Finish.{Reach-Inv, Step-Inv}

-- A call that waited for the request has been left alone, or was cancelled.
abbrev Waits : Pc → ℕ → Type 0
Waits p r = (p ≡ waiting r) ⊎ (p ≡ returned none)

start-quiet : (r : ℕ) → ¬ Waits start r
start-quiet r (inl e) = cc
start-quiet r (inr e) = cc

asking-quiet : (x r : ℕ) → ¬ Waits (asking x) r
asking-quiet x r (inl e) = cc
asking-quiet x r (inr e) = cc

finishing-quiet : (x r : ℕ) → ¬ Waits (finishing x) r
finishing-quiet x r (inl e) = cc
finishing-quiet x r (inr e) = cc

module _ (msgs : ℕ → Msg) where
  -- The call waits for a request whose owner has panicked.
  record Stuck (i r : ℕ) (s : System) : Type 0 where
    made : r < s.next
    gone : s.pc (s.slots r).owner ≡ panicked
    no_result : (s.slots r).result ≡ none
    waits : Waits (s.pc i) r

  -- Another call than the owner moves, and not to the panicked one.
  moved-Stuck :
      {s t : System} (i r k : ℕ) (p : Pc)
      → Stuck i r s
      → r < t.next
      → t.slots r ≡ s.slots r
      → t.pc ≡ update s.pc k p
      → s.pc k ≢ panicked
      → (k ≡ i → Waits p r)
      → Stuck i r t
  moved-Stuck {s} {t} i r k p v more same moves alive mine = record {
    made = more;
    gone =
        ap t.pc (ap (λ x. x.owner) same)
        ∙ ap (λ f. f (s.slots r).owner) moves
        ∙ update_other s.pc k (s.slots r).owner p (λ e. alive (ap s.pc e ∙ v.gone))
        ∙ v.gone;
    no_result = ap (λ x. x.result) same ∙ v.no_result;
    waits =
        subst (λ f. Waits (f i) r) (sym moves)
          (elim (ℕ_discrete k i) [
            | yes e ↦
                subst (λ x. Waits x r) (sym (ap (update s.pc k p) (sym e) ∙ update_self s.pc k p))
                  (mine e)
            | no ne ↦ subst (λ x. Waits x r) (sym (update_other s.pc k i p ne)) v.waits
          ]);
  }

  not_this :
      {s : System} (i r k : ℕ) (p q : Pc)
      → Stuck i r s
      → s.pc k ≡ q
      → ¬ Waits q r
      → k ≡ i
      → Waits p r
  not_this {s} i r k p q v at quiet e =
      absurd (quiet (subst (λ x. Waits x r) (sym (ap s.pc e) ∙ at) v.waits))

  -- A call with a result is not the one that waits.
  has_result :
      {s : System} (i r k x : ℕ) (p : Pc) (o : Option Msg)
      → Stuck i r s
      → s.pc k ≡ waiting x
      → (s.slots x).result ≡ some o
      → k ≡ i
      → Waits p r
  has_result {s} i r k x p o v at e same = elim v.waits [
    | inl w ↦
        let this : waiting x ≡ waiting r = sym at ∙ ap s.pc same ∙ w in
        let x_is : x ≡ r = cc in
        absurd
          (let n : some o ≡ none = sym e ∙ ap (λ z. (s.slots z).result) x_is ∙ v.no_result in cc)
    | inr w ↦ absurd (let n : waiting x ≡ returned none = sym at ∙ ap s.pc same ∙ w in cc)
  ]

  registered-Stuck :
      {s : System} (i r k : ℕ) (q : Question)
      → Stuck i r s
      → s.pc k ≢ panicked
      → (k ≡ i → Waits (asking s.next) r)
      → Stuck i r (register s k q)
  registered-Stuck {s} i r k q v alive mine =
      moved-Stuck {s = s} {t = register s k q} i r k (asking s.next) v (omega (arith, v.made))
        (update_other s.slots s.next r (record { owner = k; result = none })
          (omega (arith, v.made)))
        refl alive mine

  answered-Stuck :
      {s : System} (i r k x : ℕ) (o : Option Msg)
      → Inv msgs s
      → Stuck i r s
      → s.pc k ≡ asking x
      → Stuck i r (complete s k x o)
  answered-Stuck {s} i r k x o inv v at =
      moved-Stuck {s = s} {t = complete s k x o} i r k (finishing x) v v.made
        (update_other s.slots x r (record { owner = (s.slots x).owner; result = some o })
          (λ e.
            let owns : (s.slots x).owner ≡ k = (subst (PcOk msgs s k) at (inv.calls k)).1 in
            let n : asking x ≡ panicked =
              sym at ∙ ap s.pc (sym owns) ∙ ap (λ z. s.pc (s.slots z).owner) e ∙ v.gone in
            cc))
        refl (λ e. let n : asking x ≡ panicked = sym at ∙ e in cc)
        (not_this i r k (finishing x) (asking x) v at (asking-quiet x r))

  quietly-Stuck :
      {s t : System} (i r k : ℕ) (p q : Pc)
      → Stuck i r s
      → t.next ≡ s.next
      → t.slots ≡ s.slots
      → t.pc ≡ update s.pc k p
      → s.pc k ≡ q
      → q ≢ panicked
      → (k ≡ i → Waits p r)
      → Stuck i r t
  quietly-Stuck {s} {t} i r k p q v next slots moves at alive mine =
      moved-Stuck {s = s} {t = t} i r k p v (omega (arith, v.made, next)) (ap (λ f. f r) slots)
        moves (λ e. alive (sym at ∙ e)) mine

  Step-Stuck : {s t : System} (i r : ℕ) → Step msgs s t → Inv msgs s → Stuck i r s → Stuck i r t
  Step-Stuck i r (bypass k o at multi) inv v =
      quietly-Stuck i r k (returned o) start v refl refl refl at (cc)
        (not_this i r k (returned o) start v at (start-quiet r))
  Step-Stuck i r (bypass_panics k at multi) inv v =
      quietly-Stuck i r k panicked start v refl refl refl at (cc)
        (not_this i r k panicked start v at (start-quiet r))
  Step-Stuck i r (join k x q at single asked g) inv v =
      quietly-Stuck i r k (waiting x) start v refl refl refl at (cc)
        (not_this i r k (waiting x) start v at (start-quiet r))
  Step-Stuck {s} i r (enter k q at single asked g) inv v =
      registered-Stuck i r k q v (λ e. let n : start ≡ panicked = sym at ∙ e in cc)
        (not_this i r k (asking s.next) start v at (start-quiet r))
  Step-Stuck i r (cancel k x at) inv v =
      quietly-Stuck i r k (returned none) (waiting x) v refl refl refl at (cc) (λ e. inr refl)
  Step-Stuck i r (share k x m at e) inv v =
      quietly-Stuck i r k _ (waiting x) v refl refl refl at (cc)
        (has_result i r k x _ (some m) v at e)
  Step-Stuck {s} i r (retry k x q at e asked) inv v =
      registered-Stuck i r k q v (λ e. let n : waiting x ≡ panicked = sym at ∙ e in cc)
        (has_result i r k x (asking s.next) none v at e)
  Step-Stuck i r (answer k x o at) inv v = answered-Stuck i r k x o inv v at
  Step-Stuck i r (panics k x at) inv v =
      quietly-Stuck i r k panicked (asking x) v refl refl refl at (cc)
        (not_this i r k panicked (asking x) v at (asking-quiet x r))
  Step-Stuck i r (finish k x q o at asked e) inv v =
      quietly-Stuck i r k (returned o) (finishing x) v refl refl refl at (cc)
        (not_this i r k (returned o) (finishing x) v at (finishing-quiet x r))

  Later-Inv : {s t : System} → Later msgs s t → Inv msgs s → Inv msgs t
  Later-Inv now v = v
  Later-Inv (after l st) v = Step-Inv msgs st (Later-Inv l v)

  Later-Stuck : {s t : System} (i r : ℕ) → Later msgs s t → Inv msgs s → Stuck i r s → Stuck i r t
  Later-Stuck i r now inv v = v
  Later-Stuck i r (after l st) inv v = Step-Stuck i r st (Later-Inv l inv) (Later-Stuck i r l inv v)

  -- What a call that waits for a request can count on: the request has its result.
  abbrev pub Answered : System → ℕ → Type 0
  Answered s r = (o : Option Msg) × ((s.slots r).result ≡ some o)

  -- Or its owner is in the next resolver, and the call still waits and has the result when that
  -- answers, whatever it answers.
  abbrev pub Expected : System → ℕ → ℕ → Type 0
  Expected s i r =
      let j = (s.slots r).owner in
      (s.pc j ≡ asking r)
      × ((o : Option Msg)
          → Step msgs s (complete s j r o)
            × ((complete s j r o).pc i ≡ waiting r)
            × (((complete s j r o).slots r).result ≡ some o))

  -- Or the owner has panicked, and whatever the calls do, the call waits from then on, until it is
  -- cancelled.
  abbrev pub Abandoned : System → ℕ → ℕ → Type 0
  Abandoned s i r =
      (s.pc (s.slots r).owner ≡ panicked)
      × ((t : System) → Later msgs s t → (t.pc i ≡ waiting r) ⊎ (t.pc i ≡ returned none))

  -- In every reachable state, a call that waits for a request can go on, since the request has its
  -- result; or another call is in the next resolver with this request, and whatever answer it gets,
  -- the call that waits can go on then; or the other call has panicked there, and the call waits for
  -- good, whatever the calls do from then on, if it is not cancelled.
  pub waiting_goes_on :
      {s : System} (i r : ℕ)
      → Reach msgs s
      → s.pc i ≡ waiting r
      → Answered s r ⊎ Expected s i r ⊎ Abandoned s i r
  waiting_goes_on {s} i r reach at =
      let inv = Reach-Inv msgs reach in
      let (a, b, c, d) = subst (PcOk msgs s i) at (inv.calls i) in
      let j = (s.slots r).owner in
      elim (Option-cases (s.slots r).result) [
        | inr (o, e) ↦ inl (o, e)
        | inl e ↦ elim (c e) [
          | inl asks ↦ inr (
              inl (
                asks,
                λ o. (
                  answer j r o asks,
                  update_other s.pc j i (finishing r) d ∙ at,
                  ap (λ x. x.result)
                      (update_self s.slots r (record { owner = j; result = some o })),
                ),
              ))
          | inr gone ↦ inr (
              inr (
                gone,
                λ t l.
                    (Later-Stuck i r l inv
                      (record { made = a; gone = gone; no_result = e; waits = inl at })).waits,
              ))
        ]
      ]
