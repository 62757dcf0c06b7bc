-- ===== src/Http/Links/Back.antt =====
-- The previous link of a page, in the list handler of dns-server/internal/dns_server_http.go.
use mathlib.Core.List.{reverse-reverse}
use keenetic_dns.Prelude.{
  ℕ, ◌^◌, ◌<◌, ◌≡◌, refl, sym, ap, ◌∙◌, Option, none, some, Bool, true, false, not, List, [], ◌∷◌,
  take, All-take, All-keep, length, map, ltb, ltb→lt, some_injective, All, ◌=?◌, Bytes, bytes_eq,
}
use keenetic_dns.GoMap
use keenetic_dns.GoMap.{Map, Distinct}
use keenetic_dns.GoMap.Laws.{has-get}
use keenetic_dns.Util.RingBuf.Inv.{Holds}
use keenetic_dns.Stream.Cursor.{Cursor, to_string}
use keenetic_dns.Stream.Cursor.Text.{parse_cursor-to_string}
use keenetic_dns.Stream.Buffered.{Entry, Buffered, reverse_result}
use keenetic_dns.Stream.Buffered.Find.{Increasing}
use keenetic_dns.Stream.Buffered.Contents.{cursors}
use keenetic_dns.Stream.Buffered.Collect.{matching, first_of, last_of, shown, collect_lem}
use keenetic_dns.Stream.Buffered.Direction.{ahead}
use keenetic_dns.Stream.Buffered.Ahead.{All-reverse, query_ahead, map-reverse}
use keenetic_dns.Stream.Buffered.Back.{page_back}
use keenetic_dns.Http.{Values, query_param_set, page_cursor, page_count, list_page}
use keenetic_dns.Http.Links.{
  after_name, before_name, count_name, backward_name, delete_mark, update_url_query, given,
  page_request, list_handler, ListAnswer, there_and_back,
}
use keenetic_dns.Http.Links.Queries.{
  updated, get-update_url_query, not_mark, given_one, cursor_or_zero-to_string, given-get,
  query_param_set-get, next_query, next_other, page_cursor-next, page_cursor_below,
  page_count_positive,
}
use keenetic_dns.Http.Links.Follow.{last_of_All}

-- The query that the previous link encodes.
abbrev pub prev_query : Cursor → Values → Values
prev_query c q = update_url_query ((after_name, delete_mark) ∷ (before_name, to_string c) ∷ []) q

prev_Distinct :
    (c : Cursor) → Distinct ((after_name, delete_mark) ∷ (before_name, to_string c) ∷ [])
unfolding GoMap.get
prev_Distinct c = (refl, (refl, tt))

prev_other :
    (name : Bytes) (c : Cursor) (q : Values)
    → (after_name =? name) ≡ false
    → (before_name =? name) ≡ false
    → GoMap.get name (prev_query c q) ≡ GoMap.get name q
unfolding updated GoMap.get
prev_other name c q not_after not_before =
    get-update_url_query name _ q (prev_Distinct c) ∙ rw (not_after, not_before) refl

prev_before :
    (c : Cursor) (q : Values)
    → c < 2 ^ 64
    → GoMap.get before_name (prev_query c q) ≡ some (to_string c ∷ [])
unfolding updated GoMap.get
prev_before c q small =
    get-update_url_query before_name _ q (prev_Distinct c)
    ∙ rw (not_mark (to_string c) (parse_cursor-to_string c small).1) refl

prev_after : (c : Cursor) (q : Values) → given after_name (prev_query c q) ≡ none
unfolding updated GoMap.get given
prev_after c q =
    let gone : GoMap.get after_name (prev_query c q) ≡ none =
      get-update_url_query after_name _ q (prev_Distinct c) in
    rw (given, has-get after_name (prev_query c q), gone) refl

page_cursor-prev :
    (c : Cursor) (q : Values)
    → c < 2 ^ 64
    → page_cursor (page_request (prev_query c q)) ≡ (c, false)
unfolding page_cursor page_request
page_cursor-prev c q small =
    rw
      (
        page_cursor,
        page_request,
        prev_after c q,
        given_one before_name (to_string c) _ (prev_before c q small),
        cursor_or_zero-to_string c small,
      )
      refl

first_of_All {ℓ} :
    {A : Type ℓ} (P : Cursor → Type 0) (c : Cursor) (page : List (Entry A))
    → P c
    → All (λ it. P it.cursor) page
    → P (first_of c page)
first_of_All P c [] h all = h
first_of_All P c (x ∷ page) h (first, rest) = first

-- A query that asks for the same list as another one: only its page differs.
pub record SameList (A : Type 0) (factory : Values → Option (A → Bool)) (q r : Values)
    : Type 0 where
  pub backward : query_param_set q backward_name ≡ query_param_set r backward_name
  pub count : page_count (given count_name q) ≡ page_count (given count_name r)
  pub filter : factory q ≡ factory r

module _ {A L : Type 0} (factory : Values → Option (A → Bool)) (st : Buffered A L)
    {xs : List (Entry A)} (held : Holds st.buf xs) (up : Increasing (cursors xs))
    (small : All (λ (it : Entry A). it.cursor < 2 ^ 64) xs)
    (unmoved : (q r : Values)
      → ((name : Bytes)
          → (after_name =? name) ≡ false
          → (before_name =? name) ≡ false
          → GoMap.get name q ≡ GoMap.get name r)
      → factory q ≡ factory r) where
  All-ahead :
      (b : Bool) (filter : Option (A → Bool)) (n : ℕ) (c : Cursor)
      → All (λ (it : Entry A). it.cursor < 2 ^ 64) (take n (matching filter (ahead b c xs)))
  All-ahead true filter n c = All-take _ n _ (All-keep _ _ _ (All-keep _ _ _ small))
  All-ahead false filter n c =
      All-take _ n _
        (All-keep _ _ _ (All-keep _ _ _ (All-reverse (λ it. it.cursor < 2 ^ 64) xs small)))

  SameList-other :
      (q r : Values)
      → ((name : Bytes)
          → (after_name =? name) ≡ false
          → (before_name =? name) ≡ false
          → GoMap.get name q ≡ GoMap.get name r)
      → SameList A factory q r
  SameList-other q r other = record {
    backward = query_param_set-get backward_name q r (other backward_name refl refl);
    count = ap page_count (given-get count_name q r (other count_name refl refl));
    filter = unmoved q r other;
  }

  module _ (q : Values) where
    abbrev onward : Bool
    onward = not (query_param_set q backward_name)

    abbrev size : ℕ
    size = page_count (given count_name q)

    abbrev found : Bool → Cursor → List (Entry A)
    found forward c = matching (factory q) (ahead forward c xs)

    -- The answer to a query for a page of the list of `q` after a cursor, and before one.
    pub handler_after :
        (r : Values) (c : Cursor)
        → SameList A factory r q
        → page_cursor (page_request r) ≡ (c, true)
        → let page = take size (found onward c) in
          list_handler factory r st
          ≡ some (record {
            result = shown c page (ltb size (length (found onward c)));
            prev_page = prev_query (first_of c page) r;
            next_page = next_query (last_of c page) r;
          })
    unfolding list_handler list_page page_request
    handler_after r c same start =
        rw
          (
            list_handler,
            list_page,
            page_request,
            start,
            same.backward,
            same.count,
            same.filter,
            query_ahead st held up onward c size (factory q),
            collect_lem size (factory q) c (ahead onward c xs),
          )
          refl

    handler_before :
        (r : Values) (c : Cursor)
        → SameList A factory r q
        → page_cursor (page_request r) ≡ (c, false)
        → let page = take size (found (not onward) c) in
          list_handler factory r st
          ≡ some (record {
            result = reverse_result (shown c page (ltb size (length (found (not onward) c))));
            prev_page = prev_query (last_of c page) r;
            next_page = next_query (first_of c page) r;
          })
    unfolding list_handler list_page page_request reverse_result
    handler_before r c same start =
        rw
          (
            list_handler,
            list_page,
            page_request,
            start,
            same.backward,
            same.count,
            same.filter,
            query_ahead st held up (not onward) c size (factory q),
            collect_lem size (factory q) c (ahead (not onward) c xs),
          )
          refl

    -- From the first page and the next link on, the previous link leads back.
    from_first :
        (c : Cursor)
        → page_cursor (page_request q) ≡ (c, true)
        → c < 2 ^ 64
        → size < length (found onward c)
        → there_and_back factory st q ≡ some (map (λ it. it.val) (take size (found onward c)))
    unfolding there_and_back reverse_result
    from_first c start inside more =
        let here : Cursor = last_of c (take size (found onward c)) in
        let q2 : Values = next_query here q in
        let page2 : List (Entry A) = take size (found onward here) in
        let there : Cursor = first_of here page2 in
        let here_in : here < 2 ^ 64 =
          last_of_All (λ k. k < 2 ^ 64) c _ inside (All-ahead onward (factory q) size c) in
        let there_in : there < 2 ^ 64 =
          first_of_All (λ k. k < 2 ^ 64) here page2 here_in
            (All-ahead onward (factory q) size here) in
        let second : SameList A factory q2 q =
          SameList-other q2 q (λ name. next_other name here q) in
        let third : SameList A factory (prev_query there q2) q =
          SameList-other (prev_query there q2) q
            (λ name a b. prev_other name there q2 a b ∙ next_other name here q a b) in
        rw
          (
            there_and_back,
            handler_after q c (SameList-other q q (λ name a b. refl)) start,
            handler_after q2 here second (page_cursor-next here q here_in),
            handler_before (prev_query there q2) there third (page_cursor-prev there q2 there_in),
            page_back onward (factory q) size c xs up (page_count_positive _) more,
            map-reverse (λ it. it.val) (take size (found onward c)),
            reverse-reverse (map (λ it. it.val) (take size (found onward c))),
          )
          refl

    -- A client that follows the next link of a page after a cursor, and then the previous link of the
    -- page that it gets, is back at the items it began with, if the first page said that there is
    -- more: in either direction, for a stream that does not change, with rising cursors of 64 bits,
    -- and a filter that does not depend on the parameters after and before.
    pub there_and_back_lem :
        (first : ListAnswer A)
        → (page_cursor (page_request q)).1 ≡ true
        → list_handler factory q st ≡ some first
        → first.result.has_more ≡ true
        → there_and_back factory st q ≡ some first.result.items
    there_and_back_lem first after_mode answer more =
        let c : Cursor = (page_cursor (page_request q)).0 in
        let start : page_cursor (page_request q) ≡ (c, true) = ap (λ b. (c, b)) after_mode in
        let is : _ ≡ first =
          some_injective
            (sym (handler_after q c (SameList-other q q (λ name a b. refl)) start) ∙ answer) in
        from_first c start (page_cursor_below (page_request q))
          (ltb→lt size (length (found onward c)) (ap (λ a. a.result.has_more) is ∙ more))
        ∙ ap (λ a. some a.result.items) is
