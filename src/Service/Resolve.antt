-- ===== src/Service/Resolve.antt =====
-- The queries that pass through `Resolve` of dns-server/internal/service.go: what is logged of them,
-- and what is stored.
use keenetic_dns.Prelude.{
  ℕ, ◌+◌, ◌/◌, ◌^◌, ◌≤◌, ◌<◌, ◌≡◌, refl, sym, ap, subst, ◌∙◌, some, Bool, true, false, List, [],
  ◌∷◌, ◌++◌, All, In, append_assoc, Bytes, bytes_eq, arith,
}
use keenetic_dns.Util.RingBuf.{capacity}
use keenetic_dns.Util.RingBuf.Inv.{last_n}
use keenetic_dns.Util.RingBuf.History.{last_n-last_n}
use keenetic_dns.Types.{IPv4, ipv4_eq}
use keenetic_dns.Message.{Question, Msg, type_a, has_single_question}
use keenetic_dns.Cache.{second}
use keenetic_dns.Config.{lookup_host}
use keenetic_dns.Store.Invariant.{view}
use keenetic_dns.Stream.Buffered.{Entry, Buffered}
use keenetic_dns.Stream.Buffered.Append.{Live, stored, append-Live}
use keenetic_dns.Routes.{Agent}
use keenetic_dns.Service.{
  normalize_name, DnsQuery, DnsRawQuery, Followed, sort_ips, Service, chase, set_raw_cursor,
  append_raw_query, Resolved, resolved, error, error_text, resolve,
}
use keenetic_dns.Service.Answers.{
  AddressOk, chase-some, record_of, expires_at, In-sort_ips, process_lem, remembered,
}

-- The entry of the raw stream for a text.
abbrev pub raw_entry : ℕ → ℕ → ℕ → Bytes → Bool → Bytes → Entry DnsRawQuery
raw_entry now millis index addr response text =
    stored set_raw_cursor millis index
      (record { cursor = 0; time = now; client_addr = addr; response = response; text = text })

append_raw_lem :
    {L : Type 0} (s : Service L) {xs : List (Entry DnsRawQuery)} (t now millis : ℕ) (addr : Bytes)
    (response : Bool) (text : Bytes)
    → Live s.raw_query_stream xs t
    → t ≤ millis
    → t / 2 ^ 32 ≡ millis / 2 ^ 32
    → s.raw_query_stream.index + 1 < 2 ^ 31
    → (b : Buffered DnsRawQuery L) × (append_raw_query now millis addr response text s
        ≡ some (record s { raw_query_stream = b }))
      × Live b
          (last_n
            (capacity s.raw_query_stream.buf)
            (xs ++ raw_entry now millis s.raw_query_stream.index addr response text ∷ []))
          millis
      × (b.index ≡ s.raw_query_stream.index + 1)
      × (capacity b.buf ≡ capacity s.raw_query_stream.buf)
unfolding append_raw_query
append_raw_lem s t now millis addr response text v later period room =
    let value : DnsRawQuery = record {
      cursor = 0;
      time = now;
      client_addr = addr;
      response = response;
      text = text;
    } in
    let (b, appended, held, next, same, sized) =
      append-Live set_raw_cursor t millis value v later period room in
    (b, rw (append_raw_query, appended) refl, held, next, sized)

-- The streams of the service are in order, and have room for what one query appends.
pub record Ready {L : Type 0} (s : Service L) (xs : List (Entry DnsRawQuery))
    (ys : List (Entry DnsQuery)) (t : ℕ) : Type 0 where
  pub raw : Live s.raw_query_stream xs t
  pub queries : Live s.query_stream ys t
  pub raw_room : s.raw_query_stream.index + 2 < 2 ^ 31
  pub room : s.query_stream.index + 1 < 2 ^ 31

-- The times of the appends do not go back and lie in one period of the cursors.
pub record InOrder (t millis millis' : ℕ) : Type 0 where
  pub first : t ≤ millis
  pub second_later : millis ≤ millis'
  pub period : t / 2 ^ 32 ≡ millis / 2 ^ 32
  pub period' : millis / 2 ^ 32 ≡ millis' / 2 ^ 32

-- The entries that are kept once the texts of a query and of its outcome are appended.
abbrev pub with_texts :
    {L : Type 0}
    → Service L
    → List (Entry DnsRawQuery)
    → ℕ × ℕ
    → ℕ × ℕ
    → Bytes
    → Bytes
    → Bytes
    → List (Entry DnsRawQuery)
with_texts s xs (now, millis) (now', millis') addr text text' =
    let i = s.raw_query_stream.index in
    last_n (capacity s.raw_query_stream.buf) (
      xs
      ++ raw_entry now millis i addr false text
        ∷ raw_entry now' millis' (i + 1) addr true text'
        ∷ [])

-- Two texts are appended to the raw stream, one after the other.
two_texts :
    {L : Type 0} (s : Service L) {xs : List (Entry DnsRawQuery)} {ys : List (Entry DnsQuery)}
    (t now millis now' millis' : ℕ) (addr text text' : Bytes)
    → Ready s xs ys t
    → InOrder t millis millis'
    → (b : Buffered DnsRawQuery L) × (b' : Buffered DnsRawQuery L) × (append_raw_query now millis
          addr false text s
        ≡ some (record s { raw_query_stream = b }))
      × (append_raw_query now' millis' addr true text' (record s { raw_query_stream = b })
          ≡ some (record s { raw_query_stream = b' }))
      × Live b' (with_texts s xs (now, millis) (now', millis') addr text text') millis'
two_texts s {xs} t now millis now' millis' addr text text' r o =
    let i = s.raw_query_stream.index in
    let c = capacity s.raw_query_stream.buf in
    let (b, appended, held, next, sized) =
      append_raw_lem s t now millis addr false text r.raw o.first o.period
        (omega (arith, r.raw_room)) in
    let (b', appended', held', next', sized') =
      append_raw_lem (record s { raw_query_stream = b }) millis now' millis' addr true text' held
        o.second_later o.period' (omega (arith, r.raw_room, next)) in
    let e = raw_entry now millis i addr false text in
    (
      b,
      b',
      appended,
      appended',
      subst (λ zs. Live b' zs millis')
          (ap
              (λ n.
                last_n n
                  (last_n c (xs ++ e ∷ []) ++ raw_entry now' millis' b.index addr true text' ∷ []))
              sized
            ∙ ap
                (λ j.
                  last_n c
                    (last_n c (xs ++ e ∷ []) ++ raw_entry now' millis' j addr true text' ∷ []))
                next
            ∙ last_n-last_n c (xs ++ e ∷ []) (raw_entry now' millis' (i + 1) addr true text' ∷ [])
            ∙ ap (last_n c)
                (append_assoc xs (e ∷ []) (raw_entry now' millis' (i + 1) addr true text' ∷ [])))
          held',
    )

module _ {L : Type 0} (agent : Agent) (show : Msg → Bytes) (inner : Msg → Resolved) where
  pub resolve_remembers :
      (s : Service L) (xs : List (Entry DnsRawQuery)) (ys : List (Entry DnsQuery))
      (t now millis now' millis' : ℕ) (addr : Bytes) (msg resp : Msg) (q : Question)
      (qs : List Question)
      → Ready s xs ys t
      → InOrder t millis millis'
      → has_single_question msg (type_a ∷ []) ≡ true
      → inner msg ≡ resolved resp
      → resp.question ≡ q ∷ qs
      → All AddressOk resp.answer
      → (s' : Service L) × (f : Followed) × (resolve agent show inner
            (now, millis)
            (now', millis')
            addr
            msg
            s
          ≡ some (resolved resp, s'))
        × Live s'.raw_query_stream
            (with_texts s xs (now, millis) (now', millis') addr (show msg) (show resp))
            millis'
        × (chase (λ host. lookup_host host s.controller.cfg) resp ≡ some (q.name, f))
        × ((ip : IPv4)
            → In ip f.ips
            → view (normalize_name q.name) ip s'.controller.store
              ≡ some (record_of (normalize_name q.name) (expires_at now' f) ip))
  unfolding resolve
  resolve_remembers s xs ys t now millis now' millis' addr msg resp q qs r o single answered asked
        ok =
      let (b, b', first, second, held) =
        two_texts s t now millis now' millis' addr (show msg) (show resp) r o in
      let (f, found) = chase-some (λ host. lookup_host host s.controller.cfg) resp q qs asked ok in
      let s2 : Service L = record s { raw_query_stream = b' } in
      let (s3, processed, raw_same, stored_all) =
        process_lem agent now' millis' t addr resp s2 q.name f found r.queries
          (omega (arith, o.first, o.second_later)) (o.period ∙ o.period') r.room in
      (
        s3,
        f,
        rw (resolve, first, answered, second, single, processed) refl,
        subst
            (λ x.
              Live x (with_texts s xs (now, millis) (now', millis') addr (show msg) (show resp))
                millis')
            (sym raw_same) held,
        found,
        λ ip i.
            ap (view (normalize_name q.name) ip) stored_all
            ∙ remembered (normalize_name q.name) (expires_at now' f) (sort_ips f.ips) ip
                s.controller.store (In-sort_ips f.ips i),
      )

  -- When the next resolver fails, the error is handed back, the texts of the query and of the error
  -- are the last of the raw stream, and nothing else of the service changes: if both streams have a
  -- positive capacity, are in order and have indices below 2 ^ 31 left for what is appended, and the
  -- times of the appends do not go back and lie in one period of the cursors.
  pub resolve_error :
      (s : Service L) (xs : List (Entry DnsRawQuery)) (ys : List (Entry DnsQuery))
      (t now millis now' millis' : ℕ) (addr : Bytes) (msg : Msg) (text : Bytes)
      → Ready s xs ys t
      → InOrder t millis millis'
      → inner msg ≡ error text
      → (b : Buffered DnsRawQuery L) × (resolve agent show inner
            (now, millis)
            (now', millis')
            addr
            msg
            s
          ≡ some (error text, record s { raw_query_stream = b }))
        × Live b
            (with_texts s xs (now, millis) (now', millis') addr (show msg) (error_text msg.id text))
            millis'
  unfolding resolve
  resolve_error s xs ys t now millis now' millis' addr msg text r o failed =
      let (b, b', first, second, held) =
        two_texts s t now millis now' millis' addr (show msg) (error_text msg.id text) r o in
      (b', rw (resolve, first, failed, second) refl, held)
