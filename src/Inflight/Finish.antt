-- ===== src/Inflight/Finish.antt =====
-- The last step of a call, and with it every step, keeps the invariant.
use keenetic_dns.Prelude.{
  update_other, ℕ, ◌≡◌, ◌≢◌, inl, inr, refl, sym, ◌∙◌, ap, subst, Option, none, some, true, false,
  ◌==◌, ==-true, arith, ◌=?◌, Bool-cases, Option-cases,
}
use keenetic_dns.GoMap
use keenetic_dns.GoMap.{Map}
use keenetic_dns.GoMap.Laws.{get-delete}
use keenetic_dns.Message.{Question, question_eq, Msg}
use keenetic_dns.Inflight.{
  Pc, start, waiting, finishing, returned, panicked, System, share_answer, init, move,
  is_registered, unregister, key, Step, bypass, bypass_panics, panics, join, enter, cancel, share,
  retry, answer, finish, Reach, begin, later,
}
use keenetic_dns.Inflight.Invariant.{Live, Held, PcOk, Inv, Keeps}
use keenetic_dns.Inflight.Steps.{Idle, one_moved, move-Inv, register-Inv, Held-other}
use keenetic_dns.Inflight.Complete.{complete-Inv, panics-Inv}

-- What is still registered was registered, and is not the request that is given up.
get-unregister :
    (q q' : Question) (r r' : ℕ) (m : Map Question ℕ)
    → GoMap.get q' (unregister q r m) ≡ some r'
    → (GoMap.get q' m ≡ some r') × (q ≡ q' → r ≢ r')
unfolding unregister is_registered
get-unregister q q' r r' m e = elim (Option-cases (GoMap.get q m)) [
  | inl g ↦
      let h : GoMap.get q' m ≡ some r' = rw (unregister, is_registered, g) at e in
      (h, λ same. absurd (let n : none ≡ some r' = sym g ∙ ap (λ x. GoMap.get x m) same ∙ h in cc))
  | inr (x, g) ↦ elim (Bool-cases (x == r)) [
    | inl mine ↦ elim (Bool-cases (q =? q')) [
      | inl same ↦ absurd (
          let n : none ≡ some r' =
            rw (unregister, is_registered, g, mine, get-delete q q' m, same) at e in
          cc)
      | inr other ↦
          let h : GoMap.get q' m ≡ some r' =
            rw (unregister, is_registered, g, mine, get-delete q q' m, other) at e in
          (
            h,
            λ same.
                absurd
                  (let n : true ≡ false = sym ((question_eq.beq_iff q q').1 same) ∙ other in cc),
          )
    ]
    | inr not_mine ↦
        let h : GoMap.get q' m ≡ some r' = rw (unregister, is_registered, g, not_mine) at e in
        (
          h,
          λ same eq.
              let there : some x ≡ some r' = sym g ∙ ap (λ z. GoMap.get z m) same ∙ h in
              let x_is : x ≡ r' = cc in
              absurd (let n : true ≡ false = sym (==-true x r (x_is ∙ sym eq)) ∙ not_mine in cc),
        )
  ]
]

module _ (msgs : ℕ → Msg) where
  own_reply :
      (s : System) (i r : ℕ) (o : Option Msg)
      → PcOk msgs s i (finishing r)
      → (s.slots r).result ≡ some o
      → PcOk msgs s i (returned o)
  own_reply s i r none h e = tt
  own_reply s i r (some m) (a, b, c) e = inr record {
    request = r;
    reply = m;
    made = a;
    replied = e;
    same_key = ap (key msgs) b;
    taken = inl (b, refl);
  }

  finish-Inv :
      (s : System) (i r : ℕ) (q : Question) (o : Option Msg)
      → Inv msgs s
      → s.pc i ≡ finishing r
      → key msgs i ≡ some q
      → (s.slots r).result ≡ some o
      → Inv msgs (record (move s i (returned o)) { requests = unregister q r s.requests })
  finish-Inv s i r q o v at asked e = record {
    calls =
        one_moved msgs {s = s} {t = t} i (returned o) keeps refl
          (ok_in_t o (own_reply s i r o (subst (PcOk msgs s i) at (v.calls i)) e)) v.calls;
    registered = λ q' r' g.
        let (there, other) = get-unregister q q' r r' s.requests g in
        let (a, b, c) = v.registered q' r' there in
        (
          a,
          b,
          subst (λ x. Live x r')
              (sym (
                update_other s.pc i (s.slots r').owner (returned o) (λ same.
                  let k : Live (finishing r) r' =
                    subst (λ x. Live x r') at (subst (λ x. Live (s.pc x) r') (sym same) c) in
                  let qs : some q ≡ some q' = sym asked ∙ ap (key msgs) same ∙ b in
                  other (cc) (same_request r r' k))))
              c,
        );
  }
    where
      t : System
      t = record (move s i (returned o)) { requests = unregister q r s.requests }

      not_held : (x : ℕ) → ¬ Held (finishing r) x
      not_held x (inl h) = cc
      not_held x (inr h) = cc

      keeps : Keeps msgs s t
      keeps = record {
        grows = omega arith;
        slots = λ x h. refl;
        held = λ k x h.
            Held-other s.pc i k (returned o) x
              (λ same.
                not_held x (subst (λ p. Held p x) at (subst (λ z. Held (s.pc z) x) (sym same) h)))
              h;
      }

      ok_in_t : (o' : Option Msg) → PcOk msgs s i (returned o') → PcOk msgs t i (returned o')
      ok_in_t none h = tt
      ok_in_t (some m) h = h

      same_request : (x y : ℕ) → Live (finishing x) y → x ≡ y
      same_request x y (inl h) = cc
      same_request x y (inr (inl h)) = cc
      same_request x y (inr (inr h)) = cc

  resting : (s : System) (i : ℕ) (p : Pc) → s.pc i ≡ p → Idle p → Idle (s.pc i)
  resting s i p e h r l = h r (subst (λ x. Live x r) e l)

  start-Idle : Idle start
  start-Idle r (inl e) = cc
  start-Idle r (inr (inl e)) = cc
  start-Idle r (inr (inr e)) = cc

  waiting-Idle : (x : ℕ) → Idle (waiting x)
  waiting-Idle x r (inl e) = cc
  waiting-Idle x r (inr (inl e)) = cc
  waiting-Idle x r (inr (inr e)) = cc

  joined :
      (s : System) (i r : ℕ) (q : Question)
      → Inv msgs s
      → s.pc i ≡ start
      → key msgs i ≡ some q
      → GoMap.get q s.requests ≡ some r
      → PcOk msgs (move s i (waiting r)) i (waiting r)
  joined s i r q v at asked g =
      let (a, b, c) = v.registered q r g in
      let another : i ≢ (s.slots r).owner =
        λ same. start-Idle r (subst (λ p. Live p r) (sym (ap s.pc same) ∙ at) c) in
      (
        a,
        b ∙ sym asked,
        λ none_yet. Held-other s.pc i (s.slots r).owner (waiting r) r another (elim c [
          | inl l ↦ inl l
          | inr (inr l) ↦ inr l
          | inr (inl l) ↦ absurd (
              let (x, y, (o, z)) =
                subst (PcOk msgs s (s.slots r).owner) l (v.calls (s.slots r).owner) in
              let n : none ≡ some o = sym none_yet ∙ z in cc)
        ]),
        λ mine. another (sym mine),
      )

  -- Every step keeps the invariant.
  pub Step-Inv : {s t : System} → Step msgs s t → Inv msgs s → Inv msgs t
  Step-Inv {s} (bypass i none at multi) v =
      move-Inv msgs s i (returned none) v (resting s i start at start-Idle) tt
  Step-Inv {s} (bypass i (some m) at multi) v =
      move-Inv msgs s i (returned (some m)) v (resting s i start at start-Idle) (inl multi)
  Step-Inv {s} (bypass_panics i at multi) v =
      move-Inv msgs s i panicked v (resting s i start at start-Idle) tt
  Step-Inv {s} (panics i r at) v = panics-Inv msgs s i r none v at
  Step-Inv {s} (join i r q at single asked g) v =
      move-Inv msgs s i (waiting r) v (resting s i start at start-Idle)
        (joined s i r q v at asked g)
  Step-Inv {s} (enter i q at single asked g) v =
      register-Inv msgs s i q v (resting s i start at start-Idle) asked
  Step-Inv {s} (cancel i r at) v =
      move-Inv msgs s i (returned none) v (resting s i (waiting r) at (waiting-Idle r)) tt
  Step-Inv {s} (share i r m at e) v =
      let (a, b, c, d) = subst (PcOk msgs s i) at (v.calls i) in
      move-Inv msgs s i (returned (some (share_answer (msgs i) m))) v
        (resting s i (waiting r) at (waiting-Idle r))
        (inr record {
          request = r;
          reply = m;
          made = a;
          replied = e;
          same_key = b;
          taken = inr (d, refl);
        })
  Step-Inv {s} (retry i r q at e asked) v =
      register-Inv msgs s i q v (resting s i (waiting r) at (waiting-Idle r)) asked
  Step-Inv {s} (answer i r o at) v = complete-Inv msgs s i r o v at
  Step-Inv {s} (finish i r q o at asked e) v = finish-Inv s i r q o v at asked e

  init-Inv : Inv msgs init
  unfolding GoMap.get
  init-Inv = record {
    calls = λ i. tt;
    registered = λ q r e. absurd (let n : none ≡ some r = e in cc);
  }

  pub Reach-Inv : {s : System} → Reach msgs s → Inv msgs s
  Reach-Inv begin = init-Inv
  Reach-Inv (later r st) = Step-Inv st (Reach-Inv r)
