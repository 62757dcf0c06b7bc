-- ===== src/Inflight/Complete.antt =====
-- The steps of a call that is in the next resolver: its request gets a result, or it panics.
use keenetic_dns.Prelude.{
  update, update_self, update_other, ℕ, ◌≡◌, ◌≢◌, ◌<◌, inl, inr, refl, sym, ◌∙◌, ap, subst, Option,
  none, some, arith,
}
use native.Mathlib.Decide.{ℕ_discrete}
use keenetic_dns.Message.{question_eq, Msg}
use keenetic_dns.Inflight.{
  Pc, start, waiting, asking, finishing, returned, panicked, System, move, complete, key,
}
use keenetic_dns.Inflight.Invariant.{Live, Held, PcOk, Inv}
use keenetic_dns.Inflight.Steps.{one_moved}

module _ (msgs : ℕ → Msg) where
  -- A request that has a result is another than one that has none.
  apart :
      (s : System) (r r' : ℕ) (o : Option Msg)
      → (s.slots r).result ≡ none
      → (s.slots r').result ≡ some o
      → r ≢ r'
  apart s r r' o h k e = let n : none ≡ some o = sym h ∙ ap (λ x. (s.slots x).result) e ∙ k in cc

  module _ (s : System) (i r : ℕ) (o : Option Msg) (v : Inv msgs s) (at : s.pc i ≡ asking r) where
    own : (r < s.next) × ((s.slots r).owner ≡ i) × ((s.slots r).result ≡ none)
    own = subst (PcOk msgs s i) at (v.calls i)

    t : System
    t = complete s i r o

    owners : (r' : ℕ) → (t.slots r').owner ≡ (s.slots r').owner
    unfolding t
    owners r' = elim (ℕ_discrete r r') [
      | yes e ↦
          ap
            (λ x.
              (update s.slots r (record { owner = (s.slots r).owner; result = some o }) x).owner)
            (sym e)
          ∙ ap (λ x. x.owner)
              (update_self s.slots r (record { owner = (s.slots r).owner; result = some o }))
          ∙ ap (λ x. (s.slots x).owner) e
      | no ne ↦
          ap (λ x. x.owner)
            (update_other s.slots r r' (record { owner = (s.slots r).owner; result = some o }) ne)
    ]

    others : (r' : ℕ) → r ≢ r' → t.slots r' ≡ s.slots r'
    unfolding t
    others r' ne =
        update_other s.slots r r' (record { owner = (s.slots r).owner; result = some o }) ne

    done : (t.slots r).result ≡ some o
    unfolding t
    done =
        ap (λ x. x.result)
          (update_self s.slots r (record { owner = (s.slots r).owner; result = some o }))

    -- The results that were there are still there.
    results :
        (r' : ℕ) (o' : Option Msg) → (s.slots r').result ≡ some o' → (t.slots r').result ≡ some o'
    results r' o' e = ap (λ x. x.result) (others r' (apart s r r' o' own.2 e)) ∙ e

    -- A request without a result had none before, and is another one.
    pending : (r' : ℕ) → (t.slots r').result ≡ none → (r ≢ r') × ((s.slots r').result ≡ none)
    pending r' e = (ne, sym (ap (λ x. x.result) (others r' ne)) ∙ e)
      where
        ne : r ≢ r'
        ne same = let n : some o ≡ none = sym done ∙ ap (λ x. (t.slots x).result) same ∙ e in cc

    -- The calls that ask for another request still ask for it.
    still : (k r' : ℕ) → r ≢ r' → s.pc k ≡ asking r' → t.pc k ≡ asking r'
    unfolding t
    still k r' ne e =
        update_other s.pc i k (finishing r)
          (λ same. let n : asking r ≡ asking r' = sym at ∙ ap s.pc same ∙ e in ne (cc))
        ∙ e

    still-Held : (k r' : ℕ) → r ≢ r' → Held (s.pc k) r' → Held (t.pc k) r'
    unfolding t
    still-Held k r' ne (inl e) = inl (still k r' ne e)
    still-Held k r' ne (inr e) = inr (
        update_other s.pc i k (finishing r)
          (λ same. let n : asking r ≡ panicked = sym at ∙ ap s.pc same ∙ e in cc)
        ∙ e)

    completed : (j : ℕ) (p : Pc) → i ≢ j → PcOk msgs s j p → PcOk msgs t j p
    unfolding t
    completed j start ne h = tt
    completed j panicked ne h = tt
    completed j (waiting r') ne (a, b, c, d) = (
      a,
      ap (key msgs) (owners r') ∙ b,
      λ e.
          let (other, none_yet) = pending r' e in
          subst (λ k. Held (t.pc k) r') (sym (owners r'))
            (still-Held (s.slots r').owner r' other (c none_yet)),
      λ mine. d (sym (owners r') ∙ mine),
    )
    completed j (asking r') ne (a, b, c) =
        (a, owners r' ∙ b, ap (λ x. x.result) (others r' other) ∙ c)
      where
        other : r ≢ r'
        other same = ne (sym own.1 ∙ ap (λ x. (s.slots x).owner) same ∙ b)
    completed j (finishing r') ne (a, b, (o', c)) = (a, owners r' ∙ b, (o', results r' o' c))
    completed j (returned none) ne h = tt
    completed j (returned (some m)) ne (inl h) = inl h
    completed j (returned (some m)) ne (inr f) = inr record {
      request = f.request;
      reply = f.reply;
      made = f.made;
      replied = results f.request (some f.reply) f.replied;
      same_key = ap (key msgs) (owners f.request) ∙ f.same_key;
      taken = rw (owners f.request) f.taken;
    }

    all_calls : (j : ℕ) → PcOk msgs t j (t.pc j)
    unfolding t
    all_calls j = elim (ℕ_discrete i j) [
      | yes same ↦
          subst (λ x. PcOk msgs t x (t.pc x)) same
            (subst (PcOk msgs t i) (sym mine) (own.0, owners r ∙ own.1, (o, done)))
      | no ne ↦
          subst (PcOk msgs t j) (sym (unfold t in update_other s.pc i j (finishing r) ne))
            (completed j (s.pc j) ne (v.calls j))
    ]
      where
        mine : t.pc i ≡ finishing r
        mine = unfold t in update_self s.pc i (finishing r)

    -- The call that completes its request works on it still.
    still-Live : (k r' : ℕ) → Live (s.pc k) r' → Live (t.pc k) r'
    unfolding t
    still-Live k r' (inl e) = elim (ℕ_discrete r r') [
      | yes same ↦ elim (ℕ_discrete i k) [
        | yes me ↦ inr (
            inl (
              subst (λ x. t.pc x ≡ finishing r') me
                (update_self s.pc i (finishing r) ∙ ap finishing same)))
        | no ne ↦ inl (update_other s.pc i k (finishing r) ne ∙ e)
      ]
      | no ne ↦ inl (still k r' ne e)
    ]
    still-Live k r' (inr (inl e)) = inr (
        inl (
          update_other s.pc i k (finishing r)
            (λ same. let n : asking r ≡ finishing r' = sym at ∙ ap s.pc same ∙ e in cc)
          ∙ e))
    still-Live k r' (inr (inr e)) = inr (
        inr (
          update_other s.pc i k (finishing r)
            (λ same. let n : asking r ≡ panicked = sym at ∙ ap s.pc same ∙ e in cc)
          ∙ e))

    pub complete-Inv : Inv msgs (complete s i r o)
    unfolding t
    complete-Inv = record {
      calls = all_calls;
      registered = λ q r' e.
          let (a, b, c) = v.registered q r' e in
          (
            a,
            ap (key msgs) (owners r') ∙ b,
            subst (λ x. Live (t.pc x) r') (sym (owners r')) (still-Live (s.slots r').owner r' c),
          );
    }

    gone : (P : Pc → Type 0) (k : ℕ) → P panicked → P (s.pc k) → P ((move s i panicked).pc k)
    gone P k now before = elim (ℕ_discrete i k) [
      | yes same ↦
          subst P (sym (ap (update s.pc i panicked) (sym same) ∙ update_self s.pc i panicked)) now
      | no ne ↦ subst P (sym (update_other s.pc i k panicked ne)) before
    ]

    -- A call that panics in the next resolver leaves its request behind.
    pub panics-Inv : Inv msgs (move s i panicked)
    panics-Inv = record {
      calls =
          one_moved msgs {s = s} {t = move s i panicked} i panicked
            (record {
              grows = omega arith;
              slots = λ x h. refl;
              held = λ k x h. gone (λ p. Held p x) k (inr refl) h;
            })
            refl tt v.calls;
      registered = λ q r' e.
          let (a, b, c) = v.registered q r' e in
          (a, b, gone (λ p. Live p r') (s.slots r').owner (inr (inr refl)) c);
    }
