-- ===== src/Inflight/Invariant.antt =====
-- What holds between two steps of the calls.
use keenetic_dns.Prelude.{
  ℕ, ◌≡◌, ◌≢◌, ◌<◌, ◌≤◌, ◌⊎◌, inl, inr, Option, none, some, false, [], arith,
}
use keenetic_dns.GoMap
use keenetic_dns.GoMap.{Map}
use keenetic_dns.Message.{Question, question_eq, Msg, has_single_question}
use keenetic_dns.Inflight.{
  Slot, Pc, start, waiting, asking, finishing, returned, panicked, System, share_answer, key,
}

-- The call works on its own request, or has panicked with it.
abbrev pub Live : Pc → ℕ → Type 0
Live p r = (p ≡ asking r) ⊎ (p ≡ finishing r) ⊎ (p ≡ panicked)

-- The call is in the next resolver with its request, or has panicked there.
abbrev pub Held : Pc → ℕ → Type 0
Held p r = (p ≡ asking r) ⊎ (p ≡ panicked)

pub Held-Live : (p : Pc) (r : ℕ) → Held p r → Live p r
Held-Live p r (inl e) = inl e
Held-Live p r (inr e) = inr (inr e)

module _ (msgs : ℕ → Msg) where
  -- The message comes from a request for the question of the call: from its own request as it is, or
  -- from another call's with the answer records taken over.
  pub record FromRequest (slots : ℕ → Slot) (next i : ℕ) (m : Msg) : Type 0 where
    pub request : ℕ
    pub reply : Msg
    pub made : request < next
    pub replied : (slots request).result ≡ some (some reply)
    pub same_key : key msgs (slots request).owner ≡ key msgs i
    pub taken :
        (((slots request).owner ≡ i) × (m ≡ reply))
        ⊎ (((slots request).owner ≢ i) × (m ≡ share_answer (msgs i) reply))

  -- What is known of a call that stands at a place.
  abbrev pub PcOk : System → ℕ → Pc → Type 0
  PcOk s i start = Unit
  PcOk s i (waiting r) =
      (r < s.next)
      × (key msgs (s.slots r).owner ≡ key msgs i)
      × ((s.slots r).result ≡ none → Held (s.pc (s.slots r).owner) r)
      × ((s.slots r).owner ≢ i)
  PcOk s i (asking r) = (r < s.next) × ((s.slots r).owner ≡ i) × ((s.slots r).result ≡ none)
  PcOk s i (finishing r) =
      (r < s.next) × ((s.slots r).owner ≡ i) × ((o : Option Msg) × ((s.slots r).result ≡ some o))
  PcOk s i panicked = Unit
  PcOk s i (returned none) = Unit
  PcOk s i (returned (some m)) =
      (has_single_question (msgs i) [] ≡ false) ⊎ FromRequest s.slots s.next i m

  pub record Inv (s : System) : Type 0 where
    pub calls : (i : ℕ) → PcOk s i (s.pc i)
    pub registered :
        (q : Question) (r : ℕ)
        → GoMap.get q s.requests ≡ some r
        → (r < s.next) × (key msgs (s.slots r).owner ≡ some q) × Live (s.pc (s.slots r).owner) r

  -- The requests that were made stay as they are, and the calls that ask do, or panic.
  pub record Keeps (s t : System) : Type 0 where
    pub grows : s.next ≤ t.next
    pub slots : (r : ℕ) → r < s.next → t.slots r ≡ s.slots r
    pub held : (k r : ℕ) → Held (s.pc k) r → Held (t.pc k) r

  FromRequest-kept :
      {s t : System} (i : ℕ) (m : Msg)
      → Keeps s t
      → FromRequest s.slots s.next i m
      → FromRequest t.slots t.next i m
  FromRequest-kept {s} {t} i m k f = record {
    request = f.request;
    reply = f.reply;
    made = omega (arith, k.grows, f.made);
    replied = rw (k.slots f.request f.made) f.replied;
    same_key = rw (k.slots f.request f.made) f.same_key;
    taken = rw (k.slots f.request f.made) f.taken;
  }

  pub PcOk-kept : {s t : System} (i : ℕ) (p : Pc) → Keeps s t → PcOk s i p → PcOk t i p
  PcOk-kept i start k h = tt
  PcOk-kept i panicked k h = tt
  PcOk-kept i (waiting r) k (a, b, c, d) = (
    omega (arith, k.grows),
    rw (k.slots r a) b,
    rw (k.slots r a) (λ e. k.held _ r (c e)),
    rw (k.slots r a) d,
  )
  PcOk-kept i (asking r) k (a, b, c) =
      (omega (arith, k.grows), rw (k.slots r a) b, rw (k.slots r a) c)
  PcOk-kept i (finishing r) k (a, b, c) =
      (omega (arith, k.grows), rw (k.slots r a) b, rw (k.slots r a) c)
  PcOk-kept i (returned none) k h = tt
  PcOk-kept i (returned (some m)) k (inl h) = inl h
  PcOk-kept i (returned (some m)) k (inr f) = inr (FromRequest-kept i m k f)
