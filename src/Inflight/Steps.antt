-- ===== src/Inflight/Steps.antt =====
-- Every step of a call keeps the invariant.
use keenetic_dns.Prelude.{
  update, update_self, update_other, ℕ, ◌≡◌, ◌≢◌, ◌<◌, inl, inr, refl, sym, ◌∙◌, ap, subst, none,
  some, arith, ◌=?◌, Bool-cases,
}
use native.Mathlib.Decide.{ℕ_discrete}
use keenetic_dns.GoMap
use keenetic_dns.GoMap.{Map}
use keenetic_dns.GoMap.Laws.{get-put}
use keenetic_dns.Message.{Question, question_eq, Msg}
use keenetic_dns.Inflight.{Pc, asking, System, move, register, key}
use keenetic_dns.Inflight.Invariant.{Live, Held, Held-Live, PcOk, Inv, Keeps, PcOk-kept}

-- A call that does not work on a request.
abbrev pub Idle : Pc → Type 0
Idle p = (r : ℕ) → ¬ Live p r

-- A call that is not the one that moves holds its request as before.
pub Held-other :
    (pc : ℕ → Pc) (i k : ℕ) (p : Pc) (r : ℕ) → i ≢ k → Held (pc k) r → Held (update pc i p k) r
Held-other pc i k p r ne h = subst (λ x. Held x r) (sym (update_other pc i k p ne)) h

module _ (msgs : ℕ → Msg) where
  -- One call moves, and what the others rely on stays.
  pub one_moved :
      {s t : System} (i : ℕ) (p : Pc)
      → Keeps msgs s t
      → t.pc ≡ update s.pc i p
      → PcOk msgs t i p
      → ((j : ℕ) → PcOk msgs s j (s.pc j))
      → (j : ℕ) → PcOk msgs t j (t.pc j)
  one_moved {s} {t} i p k e mine all j = elim (ℕ_discrete i j) [
    | yes same ↦
        subst (PcOk msgs t j)
          (sym (ap (λ f. f j) e ∙ ap (update s.pc i p) (sym same) ∙ update_self s.pc i p))
          (subst (λ x. PcOk msgs t x p) same mine)
    | no ne ↦
        subst (PcOk msgs t j) (sym (ap (λ f. f j) e ∙ update_other s.pc i j p ne))
          (PcOk-kept msgs j (s.pc j) k (all j))
  ]

  pub move-Keeps :
      (s : System) (i : ℕ) (p : Pc) → ((r : ℕ) → ¬ Held (s.pc i) r) → Keeps msgs s (move s i p)
  move-Keeps s i p quiet = record {
    grows = omega arith;
    slots = λ r h. refl;
    held = λ k r e.
        Held-other s.pc i k p r (λ same. quiet r (subst (λ x. Held (s.pc x) r) (sym same) e)) e;
  }

  -- A call that works on no request moves on.
  pub move-Inv :
      (s : System) (i : ℕ) (p : Pc)
      → Inv msgs s
      → Idle (s.pc i)
      → PcOk msgs (move s i p) i p
      → Inv msgs (move s i p)
  move-Inv s i p v idle mine = record {
    calls =
        one_moved i p (move-Keeps s i p (λ r e. idle r (Held-Live (s.pc i) r e))) refl mine v.calls;
    registered = λ q r e.
        let (a, b, c) = v.registered q r e in
        (
          a,
          b,
          subst (λ x. Live x r)
              (sym (
                update_other s.pc i (s.slots r).owner p
                  (λ same. idle r (subst (λ x. Live (s.pc x) r) (sym same) c))))
              c,
        );
  }

  register-Keeps :
      (s : System) (i : ℕ) (q : Question) → Idle (s.pc i) → Keeps msgs s (register s i q)
  register-Keeps s i q idle = record {
    grows = omega arith;
    slots = λ r h. update_other s.slots s.next r _ (omega arith);
    held = λ k r e.
        Held-other s.pc i k _ r
          (λ same. idle r (Held-Live (s.pc i) r (subst (λ x. Held (s.pc x) r) (sym same) e))) e;
  }

  newest :
      (s : System) (i : ℕ) (q q' : Question)
      → key msgs i ≡ some q
      → q ≡ q'
      → let t = register s i q in
        (s.next < t.next)
        × (key msgs (t.slots s.next).owner ≡ some q')
        × Live (t.pc (t.slots s.next).owner) s.next
  newest s i q q' asked same =
      let slot = update_self s.slots s.next (record { owner = i; result = none }) in
      (
        omega arith,
        rw (slot) (asked ∙ ap some same),
        rw (slot) (inl (update_self s.pc i (asking s.next))),
      )

  register-registered :
      (s : System) (i : ℕ) (q : Question)
      → Inv msgs s
      → Idle (s.pc i)
      → key msgs i ≡ some q
      → let t = register s i q in
        (q' : Question) (r : ℕ)
        → GoMap.get q' t.requests ≡ some r
        → (r < t.next) × (key msgs (t.slots r).owner ≡ some q') × Live (t.pc (t.slots r).owner) r
  register-registered s i q v idle asked q' r e = elim (Bool-cases (q =? q')) [
    | inl same ↦
        let now : some s.next ≡ some r =
          sym (get-put q q' s.next s.requests ∙ rw (same) refl) ∙ e in
        let r_is : s.next ≡ r = cc in
        let t = register s i q in
        subst
          (λ x.
            (x < t.next) × (key msgs (t.slots x).owner ≡ some q') × Live (t.pc (t.slots x).owner) x)
          r_is (newest s i q q' asked ((question_eq.beq_iff q q').0 same))
    | inr other ↦
        let before : GoMap.get q' s.requests ≡ some r =
          sym (get-put q q' s.next s.requests ∙ rw (other) refl) ∙ e in
        let (a, b, c) = v.registered q' r before in
        let slot =
          update_other s.slots s.next r (record { owner = i; result = none }) (omega arith) in
        (
          omega arith,
          rw slot b,
          rw (slot) (
              subst (λ x. Live x r)
                (sym (
                  update_other s.pc i (s.slots r).owner (asking s.next)
                    (λ same. idle r (subst (λ x. Live (s.pc x) r) (sym same) c))))
                c),
        )
  ]

  pub register-Inv :
      (s : System) (i : ℕ) (q : Question)
      → Inv msgs s
      → Idle (s.pc i)
      → key msgs i ≡ some q
      → Inv msgs (register s i q)
  register-Inv s i q v idle asked = record {
    calls =
        one_moved i (asking s.next) (register-Keeps s i q idle) refl
          (omega arith, ap (λ x. x.owner) fresh, ap (λ x. x.result) fresh) v.calls;
    registered = register-registered s i q v idle asked;
  }
    where
      fresh : (register s i q).slots s.next ≡ record { owner = i; result = none }
      fresh = update_self s.slots s.next (record { owner = i; result = none })
