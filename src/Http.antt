-- ===== src/Http.antt =====
-- dns-server/internal/dns_server_http.go: the filters and the pages of the lists that the web pages
-- read. A request's query is a map from names to the texts given for them, as package net/url has it.
pub mod Pages
pub mod Filters
pub mod Links
pub mod Push
pub mod RouteList
pub mod Updates
use keenetic_dns.Prelude.{
  ℕ, zero, suc, ◌^◌, ◌-◌, Option, none, some, Bool, true, false, not, ◌&&◌, ◌||◌, List, [], ◌∷◌,
  map, keep, length, drop, any, ltb, leb, ◌==◌, ◌=?◌, if◌then◌else◌, ◌>>=◌, max, ℤ, pos, negsuc,
  ◌+◌, ◌++◌, Bytes, bytes_eq,
}
use mathlib.Core.List.{reverse}
use keenetic_dns.GoMap
use keenetic_dns.GoMap.{Map}
use keenetic_dns.Text.{atoi, unsigned, trim_space, to_lower, contains, split, is_empty}
use keenetic_dns.Service.{DnsQuery, DnsRawQuery}
use keenetic_dns.Types
use keenetic_dns.Types.{IPv4}
use keenetic_dns.Stream.Cursor.{Cursor, parse_cursor}
use keenetic_dns.Stream.Buffered
use keenetic_dns.Stream.Buffered.{Buffered, QueryResult}

-- `url.Values`
abbrev pub Values : Type 0
Values = Map Bytes (List Bytes)

-- `query.Get`: the first text, or the empty one.
unfoldable pub get_value : Bytes → Values → Bytes
get_value name q = elim (GoMap.get name q) [
  | none ↦ []
  | some vs ↦ elim vs [ [] ↦ [] | ◌∷◌ v (rest → r) ↦ v ]
]

-- `queryParamSet`
unfoldable pub query_param_set : Values → Bytes → Bool
query_param_set q name =
    if GoMap.has name q
    then (let v = get_value name q in
        is_empty v || v =? (b'1' ∷ []) || to_lower v =? (b't' ∷ b'r' ∷ b'u' ∷ b'e' ∷ []))
    else false

-- `filterLogs`: the test of an entry's level; no filter is `none`.
unfoldable pub filter_logs : Bytes → Option (Bytes → Bool)
filter_logs level_param =
    let levels = keep (λ s. not (is_empty s)) (split b',' level_param) in
    if length levels == 0 then none else some (λ level. any (λ l. l =? level) levels)

-- `filterQueries`, for the parameters `domain` and `search` and whether `exclude_routed` is set.
-- `lookup` is `LookupHost` of the route controller.
unfoldable pub filter_queries : (Bytes → Bytes) → Bytes → Bytes → Bool → Option (DnsQuery → Bool)
filter_queries lookup domain_param search_param exclude_routed =
    let domain = trim_space domain_param in
    let search = trim_space search_param in
    if is_empty domain && is_empty search && not exclude_routed
    then none
    else some (λ v.
      if exclude_routed && not (is_empty (lookup v.domain))
      then false
      else if not (is_empty search) && not (contains v.domain search)
      then false
      else if not (is_empty domain) && not (v.domain =? domain)
      then false
      else true)

-- `filterRawQueries`, for the parameter `search` and whether `only_responses` is set.
unfoldable pub filter_raw_queries : Bytes → Bool → Option (DnsRawQuery → Bool)
filter_raw_queries search_param only_responses =
    let search = trim_space search_param in
    if is_empty search && not only_responses
    then none
    else some (λ v.
      if only_responses && not v.response
      then false
      else if not (is_empty search) && not (contains v.text search)
      then false
      else true)

-- What `createListHandler` reads of a request: the texts of `after`, `before` and `count`, where
-- given, and whether `backward` is set.
pub record PageRequest : Type 0 where
  pub after_text : Option Bytes
  pub before_text : Option Bytes
  pub count_text : Option Bytes
  pub backward : Bool

-- A cursor that cannot be read is 0, as `ParseCursor` returns it beside its error.
unfoldable pub cursor_or_zero : Bytes → Cursor
cursor_or_zero s = elim (parse_cursor s) [ none ↦ 0 | some c ↦ c ]

-- The cursor, and whether the page lies after it.
unfoldable pub page_cursor : PageRequest → Cursor × Bool
page_cursor r = elim r.after_text [
  | some s ↦ (cursor_or_zero s, true)
  | none ↦ elim r.before_text [
    | some s ↦ (cursor_or_zero s, false)
    | none ↦ if r.backward then (2 ^ 64 - 1, true) else (0, true)
  ]
]

-- `strconv.Atoi` returns the largest number beside its error for one that is too large, and 0 for a
-- text that is no number.
unfoldable pub too_large : Bytes → Bool
too_large [] = false
too_large (c ∷ s) = elim (unsigned (if c == b'+' then s else c ∷ s)) [
  | none ↦ false
  | some n ↦ true
]

unfoldable pub page_count : Option Bytes → ℕ
page_count none = 50
page_count (some s) = elim (atoi s) [
  | none ↦ if too_large s then 2 ^ 63 - 1 else 1
  | some n ↦ elim n [ pos k ↦ max 1 k | negsuc k ↦ 1 ]
]

-- `createListHandler`: the page that is written as the answer. `none` is a panic.
unfoldable pub list_page :
    {A L : Type 0} → Option (A → Bool) → PageRequest → Buffered A L → Option (QueryResult A)
list_page filter r st =
    let (cursor, after_mode) = page_cursor r in
    let count = page_count r.count_text in
    do
      res ←
          Buffered.query (not (if after_mode then r.backward else not r.backward)) cursor count
            filter st
      (if after_mode then some res else some (Buffered.reverse_result res))

-- The order of `handleRoutes`, as the test for less: addresses with a prefix come last.
unfoldable pub route_less : (IPv4 → IPv4 → Bool) → IPv4 → IPv4 → Bool
route_less bytes_less x y =
    if Types.has_prefix x
    then (if Types.has_prefix y then bytes_less x y else false)
    else (if Types.has_prefix y then true else bytes_less x y)

-- A connection of `createStreamHandler`: the cursor up to which its client has been served, and what
-- was sent to it.
pub record Connection (A : Type 0) : Type 0 where
  pub cursor : Cursor
  pub sent : List A

-- The cursor that a connection begins with: `QueryBackward(math.MaxUint64, 1, nil).FirstCursor`.
unfoldable pub last_cursor : {A L : Type 0} → Buffered A L → Option Cursor
last_cursor st = do page ← Buffered.query false (2 ^ 64 - 1) 1 none st; some page.first_cursor

-- What the loop does on an update; `write_ok` says whether the client could be written to.
unfoldable pub push_update :
    {A L : Type 0} → Option (A → Bool) → Bool → Buffered A L → Connection A → Option (Connection A)
push_update filter write_ok st c = do
  res ← Buffered.query true c.cursor 1000 filter st
  (if ltb 0 (length res.items)
      then (if write_ok
          then some (record { cursor = res.last_cursor; sent = c.sent ++ res.items })
          else some c)
      else some c)
