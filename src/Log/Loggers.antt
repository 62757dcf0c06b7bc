-- ===== src/Log/Loggers.antt =====
-- What the loggers of the program write and record.
use keenetic_dns.Prelude.{
  ◌≡◌, refl, sym, ap, ◌∙◌, none, some, false, List, [], ◌∷◌, ◌++◌, append_assoc, append-nil, All,
  Bytes,
}
use keenetic_dns.Text.{is_empty}
use keenetic_dns.Text.Fields.{is_empty-append}
use keenetic_dns.Log.{
  Attrs, LogRecord, new_entry, Handler, sink, prefixed, recorder, tee, Handlers, no_handlers,
  handler_and, Sink, Logged, add_prefix, errors_of_sink, handle, handle_all, single_prefix,
  new_prefix, with_attrs, with_prefix, logger,
}

-- Prefixes with a dot between.
abbrev pub dotted : Bytes → List Bytes → Bytes
dotted p [] = p
dotted p (q ∷ qs) = p ++ b'.' ∷ dotted q qs

dotted-append :
    (p q : Bytes) (qs : List Bytes) → dotted (p ++ b'.' ∷ q) qs ≡ p ++ b'.' ∷ dotted q qs
dotted-append p q [] = refl
dotted-append p q (r ∷ rs) = append_assoc p (b'.' ∷ q) (b'.' ∷ dotted r rs)

dotted_some : (p : Bytes) (ps : List Bytes) → is_empty p ≡ false → is_empty (dotted p ps) ≡ false
dotted_some p [] h = h
dotted_some p (q ∷ qs) h = is_empty-append p b'.' (dotted q qs)

-- A record behind a prefix.
abbrev pub behind : Bytes → LogRecord → LogRecord
behind prefix rec = record rec { message = prefix ++ b':' ∷ b' ' ∷ rec.message }

add_prefix-some :
    (p : Bytes) (rec : LogRecord) → is_empty p ≡ false → add_prefix p rec ≡ behind p rec
unfolding add_prefix
add_prefix-some p rec h = rw h refl

module _ {H : Type 0} (lib : Sink H) where
  abbrev pub with_prefixes : Handler H → List Bytes → Handler H
  with_prefixes h [] = h
  with_prefixes h (p ∷ ps) = with_prefixes (with_prefix lib h p) ps

  with_prefix-prefixed :
      (h : Handler H) (old p : Bytes)
      → with_prefix lib (recorder (prefixed h old)) p
        ≡ recorder (prefixed h (new_prefix lib old (some p)))
  unfolding with_prefix with_attrs single_prefix
  with_prefix-prefixed h old p = refl

  with_prefixes-prefixed :
      (h : Handler H) (p : Bytes) (ps : List Bytes)
      → is_empty p ≡ false
      → with_prefixes (recorder (prefixed h p)) ps ≡ recorder (prefixed h (dotted p ps))
  unfolding new_prefix
  with_prefixes-prefixed h p [] some_byte = refl
  with_prefixes-prefixed h p (q ∷ qs) some_byte =
      let joined : new_prefix lib p (some q) ≡ p ++ b'.' ∷ q = rw some_byte refl in
      ap (λ x. with_prefixes x qs)
        (with_prefix-prefixed h p q ∙ ap (λ x. recorder (prefixed h x)) joined)
      ∙ with_prefixes-prefixed h (p ++ b'.' ∷ q) qs (is_empty-append p b'.' q)
      ∙ ap (λ x. recorder (prefixed h x)) (dotted-append p q qs)

  -- A logger of the program with prefixes, the first of them not empty, prints a record once, with the
  -- prefixes, a dot between them, in front of its message, and records it without them.
  pub prefixes_lem :
      (h : H) (p : Bytes) (ps : List Bytes) (rec : LogRecord) (s : Logged H)
      → is_empty p ≡ false
      → handle lib (with_prefixes (logger h) (p ∷ ps)) rec s ≡ (
        errors_of_sink (lib.handle h (behind (dotted p ps) rec)),
        record {
          recorded = s.recorded ++ new_entry rec ∷ [];
          written = s.written ++ (h, behind (dotted p ps) rec) ∷ [];
        },
      )
  unfolding handle new_prefix
  prefixes_lem h p ps rec s some_byte =
      ap (λ x. handle lib x rec s)
        (ap (λ x. with_prefixes x ps) (with_prefix-prefixed (sink h) [] p)
          ∙ with_prefixes-prefixed (sink h) p ps some_byte)
      ∙ ap
          (λ r. (
            errors_of_sink (lib.handle h r),
            record {
              recorded = s.recorded ++ new_entry rec ∷ [];
              written = s.written ++ (h, r) ∷ [];
            },
          ))
          (add_prefix-some (dotted p ps) rec (dotted_some p ps some_byte))

  abbrev pub with_all_attrs : Handler H → List Attrs → Handler H
  with_all_attrs h [] = h
  with_all_attrs h (given ∷ rest) = with_all_attrs (with_attrs lib h given) rest

  attrs_ignored :
      (h : Handler H) (prefix : Bytes) (given : List Attrs)
      → All (λ g. single_prefix lib g ≡ none) given
      → with_all_attrs (recorder (prefixed h prefix)) given ≡ recorder (prefixed h prefix)
  unfolding with_attrs new_prefix
  attrs_ignored h prefix [] v = refl
  attrs_ignored h prefix (given ∷ rest) (v, vs) =
      ap (λ x. with_all_attrs (recorder (prefixed h (new_prefix lib prefix x))) rest) v
      ∙ attrs_ignored h prefix rest vs

  -- The prefix of a logger of the program.
  with_prefixes-recorder :
      (h : Handler H) (prefix : Bytes) (ps : List Bytes)
      → (prefix' : Bytes) × (with_prefixes (recorder (prefixed h prefix)) ps
          ≡ recorder (prefixed h prefix'))
  with_prefixes-recorder h prefix [] = (prefix, refl)
  with_prefixes-recorder h prefix (p ∷ ps) =
      let (prefix', e) = with_prefixes-recorder h (new_prefix lib prefix (some p)) ps in
      (prefix', ap (λ x. with_prefixes x ps) (with_prefix-prefixed h prefix p) ∙ e)

  -- Attributes that a logger of the program, whatever prefixes it has, is given, other than a prefix,
  -- change nothing of what it prints and records: they are lost.
  pub attributes_lost :
      (h : H) (ps : List Bytes) (given : List Attrs) (rec : LogRecord) (s : Logged H)
      → All (λ g. single_prefix lib g ≡ none) given
      → handle lib (with_all_attrs (with_prefixes (logger h) ps) given) rec s
        ≡ handle lib (with_prefixes (logger h) ps) rec s
  attributes_lost h ps given rec s v =
      let (prefix, e) = with_prefixes-recorder (sink h) [] ps in
      ap (λ x. handle lib x rec s)
        (ap (λ x. with_all_attrs x given) e ∙ attrs_ignored (sink h) prefix given v ∙ sym e)

  -- What the handlers of the library below a handler are to be given for a record, in order.
  abbrev mutual
    pub outputs : Handler H → LogRecord → List (H × LogRecord)
    outputs (sink h) rec = (h, rec) ∷ []
    outputs (prefixed h prefix) rec = outputs h (add_prefix prefix rec)
    outputs (recorder h) rec = outputs h rec
    outputs (tee hs) rec = all_outputs hs rec

    pub all_outputs : Handlers H → LogRecord → List (H × LogRecord)
    all_outputs no_handlers rec = []
    all_outputs (handler_and h hs) rec = outputs h rec ++ all_outputs hs rec

  abbrev pub errors_of : List (H × LogRecord) → List Bytes
  errors_of [] = []
  errors_of ((h, rec) ∷ outs) = errors_of_sink (lib.handle h rec) ++ errors_of outs

  errors_of-append :
      (xs ys : List (H × LogRecord)) → errors_of (xs ++ ys) ≡ errors_of xs ++ errors_of ys
  errors_of-append [] ys = refl
  errors_of-append (x ∷ xs) ys =
      rw (errors_of-append xs ys)
        (sym (append_assoc (errors_of_sink (lib.handle x.0 x.1)) (errors_of xs) (errors_of ys)))

  mutual
    unfolding handle handle_all

    handled :
        (h : Handler H) (rec : LogRecord) (s : Logged H)
        → ((handle lib h rec s).0 ≡ errors_of (outputs h rec))
          × ((handle lib h rec s).1.written ≡ s.written ++ outputs h rec)
    handled (sink h) rec s = (sym (append-nil (errors_of_sink (lib.handle h rec))), refl)
    handled (prefixed h prefix) rec s = handled h (add_prefix prefix rec) s
    handled (recorder h) rec s =
        handled h rec (record s { recorded = s.recorded ++ new_entry rec ∷ [] })
    handled (tee hs) rec s = all_handled hs rec s

    all_handled :
        (hs : Handlers H) (rec : LogRecord) (s : Logged H)
        → ((handle_all lib hs rec s).0 ≡ errors_of (all_outputs hs rec))
          × ((handle_all lib hs rec s).1.written ≡ s.written ++ all_outputs hs rec)
    all_handled no_handlers rec s = (refl, sym (append-nil s.written))
    all_handled (handler_and h hs) rec s =
        let s1 = (handle lib h rec s).1 in
        let (e, w) = handled h rec s in
        let (es, ws) = all_handled hs rec s1 in
        (
          ap (λ x. x ++ (handle_all lib hs rec s1).0) e
              ∙ ap (λ x. errors_of (outputs h rec) ++ x) es
              ∙ sym (errors_of-append (outputs h rec) (all_outputs hs rec)),
          ws
              ∙ ap (λ x. x ++ all_outputs hs rec) w
              ∙ append_assoc s.written (outputs h rec) (all_outputs hs rec),
        )

  -- However handlers are put together, every handler of the library below them is given a record once,
  -- in order, whatever the others return, and the errors are those of these handlers and no others.
  pub every_output :
      (h : Handler H) (rec : LogRecord) (s : Logged H)
      → ((handle lib h rec s).0 ≡ errors_of (outputs h rec))
        × ((handle lib h rec s).1.written ≡ s.written ++ outputs h rec)
  every_output h rec s = handled h rec s
