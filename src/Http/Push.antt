-- ===== src/Http/Push.antt =====
-- What `createStreamHandler` of dns-server/internal/dns_server_http.go sends to a client.
use mathlib.Core.List.{map-append}
use keenetic_dns.Prelude.{
  ◌^◌, ◌-◌, ◌≤◌, ◌<◌, ◌≡◌, refl, sym, ap, ◌∙◌, subst, Option, none, some, Bool, true, false, List,
  keep-append, [], ◌∷◌, ◌++◌, append_assoc, append-nil, some_injective, length, map, take, drop,
  take-append-drop, take_all, drop_all, All, ltb, lt→ltb, ltb-false, if◌then◌else◌, arith,
}
use keenetic_dns.Util.RingBuf.Inv.{Holds}
use keenetic_dns.Stream.Cursor.{Cursor}
use keenetic_dns.Stream.Buffered.{Entry, Buffered, passes}
use keenetic_dns.Stream.Buffered.Find.{Increasing}
use keenetic_dns.Stream.Buffered.Contents.{cursors, after}
use keenetic_dns.Stream.Buffered.Collect.{matching, last_of, collect_lem}
use keenetic_dns.Stream.Buffered.Query.{query_forward, query_backward}
use keenetic_dns.Stream.Buffered.Ahead.{matching-ahead_page, page_above}
use keenetic_dns.Http.{Connection, last_cursor, push_update}

module _ {A : Type 0} (filter : Option (A → Bool)) where
  -- The items above a cursor that pass the filter.
  abbrev pub items_after : Cursor → List (Entry A) → List A
  items_after c zs = map (λ it. it.val) (matching filter (after c zs))

  -- What becomes of a connection that began at the cursor `c0`, with the entries that were appended to
  -- the stream, also those that it has dropped.
  pub data Run (L : Type 0) (c0 : Cursor) : List (Entry A) → Connection A → Type 0 where
    begin :
        (zs : List (Entry A))
        → Increasing (cursors zs)
        → Run L c0 zs (record { cursor = c0; sent = [] })
    append :
        {zs : List (Entry A)} {c : Connection A} (e : Entry A)
        → Run L c0 zs c
        → Increasing (cursors (zs ++ e ∷ []))
        → c.cursor < e.cursor
        → Run L c0 (zs ++ e ∷ []) c
    update :
        {zs : List (Entry A)} {c d : Connection A} (st : Buffered A L) (xs : List (Entry A))
        (write_ok : Bool)
        → Run L c0 zs c
        → Holds st.buf xs
        → Increasing (cursors xs)
        → after c.cursor xs ≡ after c.cursor zs
        → push_update filter write_ok st c ≡ some d
        → Run L c0 zs d

  -- What is sent and what is still to be sent make up the items above the first cursor.
  record Served (c0 : Cursor) (zs : List (Entry A)) (c : Connection A) : Type 0 where
    above : c0 ≤ c.cursor
    rising : Increasing (cursors zs)
    whole : c.sent ++ items_after c.cursor zs ≡ items_after c0 zs

  items_after-append :
      (c : Cursor) (zs : List (Entry A)) (e : Entry A)
      → c < e.cursor
      → items_after c (zs ++ e ∷ [])
        ≡ items_after c zs ++ map (λ it. it.val) (matching filter (e ∷ []))
  items_after-append c zs e h =
      ap (λ x. map (λ it. it.val) (matching filter x))
        (keep-append (λ it. ltb c it.cursor) zs (e ∷ []) ∙ rw (lt→ltb c e.cursor h) refl)
      ∙ ap (map (λ it. it.val)) (keep-append (λ it. passes filter it.val) (after c zs) (e ∷ []))
      ∙ map-append (λ it. it.val) (matching filter (after c zs)) (matching filter (e ∷ []))

  page_lem :
      (page : List (Entry A)) (write_ok : Bool) (c : Connection A)
      → (if ltb 0 (length (map (λ it. it.val) page))
          then (if write_ok
              then some (record {
                cursor = last_of c.cursor page;
                sent = c.sent ++ map (λ it. it.val) page;
              })
              else some c)
          else some c)
        ≡ some (
            if write_ok
            then record { cursor = last_of c.cursor page; sent = c.sent ++ map (λ it. it.val) page }
            else c)
  page_lem [] true c = rw append-nil refl
  page_lem [] false c = refl
  page_lem (e ∷ page) true c =
      rw (lt→ltb 0 (length (map (λ (it : Entry A). it.val) (e ∷ page))) (omega arith)) refl
  page_lem (e ∷ page) false c =
      rw (lt→ltb 0 (length (map (λ (it : Entry A). it.val) (e ∷ page))) (omega arith)) refl

  -- What an update does to the connection.
  abbrev pub pushed : Bool → List (Entry A) → Connection A → Connection A
  pushed write_ok xs c =
      let page = take 1000 (matching filter (after c.cursor xs)) in
      if write_ok
      then record { cursor = last_of c.cursor page; sent = c.sent ++ map (λ it. it.val) page }
      else c

  pushed_none :
      (write_ok : Bool) (xs : List (Entry A)) (c : Connection A)
      → after c.cursor xs ≡ []
      → pushed write_ok xs c ≡ c
  pushed_none true xs c e = rw (e, append-nil) refl
  pushed_none false xs c e = refl

  pub push_lem :
      {L : Type 0} (st : Buffered A L) (xs : List (Entry A)) (write_ok : Bool) (c : Connection A)
      → Holds st.buf xs
      → Increasing (cursors xs)
      → push_update filter write_ok st c ≡ some (pushed write_ok xs c)
  unfolding push_update
  push_lem st xs write_ok c held up =
      rw
        (
          push_update,
          query_forward st held up c.cursor 1000 filter,
          collect_lem 1000 filter c.cursor (after c.cursor xs),
        )
        (page_lem (take 1000 (matching filter (after c.cursor xs))) write_ok c)

  pushed-Served :
      (c0 : Cursor) (zs xs : List (Entry A)) (write_ok : Bool) (c : Connection A)
      → Served c0 zs c
      → after c.cursor xs ≡ after c.cursor zs
      → Served c0 zs (pushed write_ok xs c)
  pushed-Served c0 zs xs false c v same = v
  pushed-Served c0 zs xs true c v same =
      let ms = matching filter (after c.cursor zs) in
      rw same (record {
        above = omega (arith, page_above filter 1000 c.cursor zs, v.above);
        rising = v.rising;
        whole =
            append_assoc c.sent (map (λ it. it.val) (take 1000 ms)) _
            ∙ ap (λ x. c.sent ++ (map (λ it. it.val) (take 1000 ms) ++ map (λ it. it.val) x))
                (matching-ahead_page true filter 1000 c.cursor zs v.rising)
            ∙ ap (λ x. c.sent ++ x)
                (sym (map-append (λ it. it.val) (take 1000 ms) (drop 1000 ms))
                  ∙ ap (map (λ it. it.val)) (take-append-drop 1000 ms))
            ∙ v.whole;
      })

  Run-Served :
      {L : Type 0} {c0 : Cursor} {zs : List (Entry A)} {c : Connection A}
      → Run L c0 zs c
      → Served c0 zs c
  Run-Served (begin zs up) = record { above = omega arith; rising = up; whole = refl }
  Run-Served {c0 = c0} {c = c} (append {zs} e run up h) =
      let v = Run-Served run in
      record {
        above = v.above;
        rising = up;
        whole =
            ap (λ x. c.sent ++ x) (items_after-append c.cursor zs e h)
            ∙ sym (append_assoc c.sent (items_after c.cursor zs) _)
            ∙ ap (λ x. x ++ map (λ it. it.val) (matching filter (e ∷ []))) v.whole
            ∙ sym (items_after-append c0 zs e (omega (arith, v.above)));
      }
  Run-Served {c0 = c0} (update {zs} {c} st xs write_ok run held up same pushed_now) =
      subst (Served c0 zs) (some_injective (sym (push_lem st xs write_ok c held up) ∙ pushed_now))
        (pushed-Served c0 zs xs write_ok c (Run-Served run) same)

  -- A client is sent the items that pass the filter, each once and in order: whatever is appended and
  -- whenever the loop runs, also after writes that failed, what was sent and what is still above the
  -- connection's cursor make up the items above the cursor it began with, as long as the cursors of
  -- the stream rise, and the stream drops no entry above the connection's cursor and new entries are
  -- above it.
  pub sent_once :
      {L : Type 0} {c0 : Cursor} {zs : List (Entry A)} {c : Connection A}
      → Run L c0 zs c
      → c.sent ++ items_after c.cursor zs ≡ items_after c0 zs
  sent_once run = (Run-Served run).whole

  -- One update with a write that succeeds sends everything that waits, if that is 1000 items at most
  -- and the cursors of the stream rise: nothing above the connection's new cursor passes the filter.
  pub update_catches_up :
      {L : Type 0} (st : Buffered A L) (xs : List (Entry A)) (c : Connection A)
      → Holds st.buf xs
      → Increasing (cursors xs)
      → length (matching filter (after c.cursor xs)) ≤ 1000
      → (d : Connection A) × (push_update filter true st c ≡ some d)
        × (d.sent ≡ c.sent ++ items_after c.cursor xs)
        × (items_after d.cursor xs ≡ [])
  update_catches_up st xs c held up few =
      let ms = matching filter (after c.cursor xs) in
      (
        pushed true xs c,
        push_lem st xs true c held up,
        ap (λ x. c.sent ++ map (λ it. it.val) x) (take_all 1000 ms few),
        ap (map (λ it. it.val))
            (matching-ahead_page true filter 1000 c.cursor xs up ∙ drop_all 1000 ms few),
      )

  after_none : (c : Cursor) (xs : List (Entry A)) → All (λ k. k ≤ c) (cursors xs) → after c xs ≡ []
  after_none c [] all = refl
  after_none c (x ∷ xs) (h, hs) = rw (ltb-false c x.cursor h) (after_none c xs hs)

  -- A connection that is opened while the stream is empty begins at the highest cursor of all, and no
  -- update ever sends anything to it, whatever the stream holds by then, if its cursors rise and have
  -- 64 bits.
  pub silent_from_empty :
      {L : Type 0} (st : Buffered A L)
      → Holds st.buf []
      → (c0 : Cursor) × (last_cursor st ≡ some c0)
        × ((st' : Buffered A L) (xs : List (Entry A)) (write_ok : Bool)
            → Holds st'.buf xs
            → Increasing (cursors xs)
            → All (λ k. k ≤ 2 ^ 64 - 1) (cursors xs)
            → push_update filter write_ok st' (record { cursor = c0; sent = [] })
              ≡ some (record { cursor = c0; sent = [] }))
  unfolding last_cursor
  silent_from_empty st held = (
    2 ^ 64 - 1,
    rw
        (
          last_cursor,
          query_backward st held tt (2 ^ 64 - 1) 1 none,
          collect_lem 1 none (2 ^ 64 - 1) [],
        )
        refl,
    λ st' xs write_ok held' up all.
        let c : Connection A = record { cursor = 2 ^ 64 - 1; sent = [] } in
        push_lem st' xs write_ok c held' up
        ∙ ap some (pushed_none write_ok xs c (after_none (2 ^ 64 - 1) xs all)),
  )
