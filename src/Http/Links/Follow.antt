-- ===== src/Http/Links/Follow.antt =====
-- What a client gets that follows the links of the list handler of
-- dns-server/internal/dns_server_http.go.
use keenetic_dns.Prelude.{
  ℕ, zero, suc, ◌^◌, ◌<◌, ◌≡◌, refl, ap, ◌∙◌, Option, some, Bool, true, false, not, List, [], ◌∷◌,
  take, All-take, All-keep, arith, length, map, All, ◌=?◌, Bytes, bytes_eq,
}
use keenetic_dns.GoMap
use keenetic_dns.GoMap.{Map, Distinct}
use keenetic_dns.Util.RingBuf.Inv.{Holds}
use keenetic_dns.Stream.Cursor.{Cursor}
use keenetic_dns.Stream.Buffered.{Entry, Buffered}
use keenetic_dns.Stream.Buffered.Find.{Increasing}
use keenetic_dns.Stream.Buffered.Contents.{cursors}
use keenetic_dns.Stream.Buffered.Collect.{matching, last_of, collect_lem}
use keenetic_dns.Stream.Buffered.Direction.{ahead, ordered}
use keenetic_dns.Stream.Buffered.Ahead.{All-reverse, length-matching_le, query_ahead}
use keenetic_dns.Stream.Buffered.Paging.{read_pages, read_pages_lem}
use keenetic_dns.Http.{Values, query_param_set, page_cursor, page_count, list_page}
use keenetic_dns.Http.Links.{
  after_name, before_name, count_name, backward_name, given, page_request, list_handler,
  follow_next,
}
use keenetic_dns.Http.Links.Queries.{
  given-get, query_param_set-get, next_query, next_other, page_cursor-next, page_cursor_below,
  page_count_positive,
}

pub last_of_All {ℓ} :
    {A : Type ℓ} (P : Cursor → Type 0) (c : Cursor) (page : List (Entry A))
    → P c
    → All (λ it. P it.cursor) page
    → P (last_of c page)
last_of_All P c [] h all = h
last_of_All P c (x ∷ page) h (first, rest) = last_of_All P x.cursor page first rest

module _ {A L : Type 0} (factory : Values → Option (A → Bool)) (st : Buffered A L)
    {xs : List (Entry A)} (held : Holds st.buf xs) (up : Increasing (cursors xs))
    (small : All (λ (it : Entry A). it.cursor < 2 ^ 64) xs)
    (unmoved : (q r : Values)
      → ((name : Bytes)
          → (after_name =? name) ≡ false
          → (before_name =? name) ≡ false
          → GoMap.get name q ≡ GoMap.get name r)
      → factory q ≡ factory r) where
  -- The matching items ahead of a cursor, for the direction and the filter of a query.
  abbrev wanted : Values → Cursor → List (Entry A)
  wanted q c = matching (factory q) (ahead (not (query_param_set q backward_name)) c xs)

  All-ordered : (b : Bool) → All (λ (it : Entry A). it.cursor < 2 ^ 64) (ordered b xs)
  All-ordered true = small
  All-ordered false = All-reverse (λ it. it.cursor < 2 ^ 64) xs small

  last_of_below :
      (b : Bool) (filter : Option (A → Bool)) (n c : ℕ)
      → c < 2 ^ 64
      → last_of c (take n (matching filter (ahead b c xs))) < 2 ^ 64
  last_of_below b filter n c h =
      last_of_All (λ k. k < 2 ^ 64) c _ h
        (All-take _ n _ (All-keep _ _ _ (All-keep _ _ _ (All-ordered b))))

  follow_next-read_pages :
      (fuel : ℕ) (q : Values) (c n : ℕ) (b : Bool) (filter : Option (A → Bool))
      → page_cursor (page_request q) ≡ (c, true)
      → c < 2 ^ 64
      → query_param_set q backward_name ≡ b
      → page_count (given count_name q) ≡ n
      → factory q ≡ filter
      → follow_next factory st fuel q ≡ read_pages st (not b) n filter fuel c
  unfolding follow_next read_pages list_handler list_page page_request
  follow_next-read_pages zero q c n b filter start h back count same = refl
  follow_next-read_pages (suc fuel) q c n b filter start h back count same =
      let here : Cursor = last_of c (take n (matching filter (ahead (not b) c xs))) in
      let inside : here < 2 ^ 64 = last_of_below (not b) filter n c h in
      let next : follow_next factory st fuel (next_query here q)
          ≡ read_pages st (not b) n filter fuel here =
        follow_next-read_pages fuel (next_query here q) here n b filter
          (page_cursor-next here q inside) inside
          (query_param_set-get backward_name _ q (next_other backward_name here q refl refl) ∙ back)
          (ap page_count (given-get count_name _ q (next_other count_name here q refl refl))
            ∙ count)
          (unmoved (next_query here q) q
              (λ name not_after not_before. next_other name here q not_after not_before)
            ∙ same) in
      rw
        (
          list_handler,
          list_page,
          page_request,
          start,
          back,
          count,
          same,
          query_ahead st held up (not b) c n filter,
          collect_lem n filter c (ahead (not b) c xs),
          next,
        )
        refl

  -- A client that starts from a page after a cursor, in either direction, and follows the next links
  -- as long as there is more, gets every item beyond that cursor that passes the filter, once and in
  -- order: for a stream that does not change, with rising cursors of 64 bits, and a filter that does
  -- not depend on the parameters after and before.
  pub follow_next_lem :
      (q : Values)
      → (page_cursor (page_request q)).1 ≡ true
      → follow_next factory st (suc (length xs)) q
        ≡ some (map (λ it. it.val) (wanted q (page_cursor (page_request q)).0))
  follow_next_lem q after_mode =
      follow_next-read_pages (suc (length xs)) q _ _ _ _
        (ap (λ b. ((page_cursor (page_request q)).0, b)) after_mode)
        (page_cursor_below (page_request q)) refl refl refl
      ∙ read_pages_lem st _ _ (factory q) (suc (length xs)) _ xs held up (page_count_positive _) (
          omega (
            arith,
            length-matching_le (not (query_param_set q backward_name)) (factory q)
                (page_cursor (page_request q)).0 xs,
          ))
