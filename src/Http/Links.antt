-- ===== src/Http/Links.antt =====
-- `createListHandler` of dns-server/internal/dns_server_http.go as a whole: a request's query to the
-- page it asks for, and the links of the answer. A link is the query that its text encodes.
pub mod Queries
pub mod Follow
pub mod Back
use keenetic_dns.Prelude.{
  ℕ, zero, suc, Option, none, some, Bool, List, [], ◌∷◌, ◌++◌, if◌then◌else◌, ◌=?◌, ◌>>=◌, Bytes,
  bytes_eq,
}
use keenetic_dns.GoMap
use keenetic_dns.GoMap.{Map}
use keenetic_dns.Stream.Cursor.{to_string}
use keenetic_dns.Stream.Buffered.{Buffered, QueryResult}
use keenetic_dns.Http.{Values, get_value, query_param_set, PageRequest, list_page}

-- The names of the parameters, and the text that stands for a deletion.
abbrev pub after_name : Bytes
after_name = b'a' ∷ b'f' ∷ b't' ∷ b'e' ∷ b'r' ∷ []

abbrev pub before_name : Bytes
before_name = b'b' ∷ b'e' ∷ b'f' ∷ b'o' ∷ b'r' ∷ b'e' ∷ []

abbrev pub count_name : Bytes
count_name = b'c' ∷ b'o' ∷ b'u' ∷ b'n' ∷ b't' ∷ []

abbrev pub backward_name : Bytes
backward_name = b'b' ∷ b'a' ∷ b'c' ∷ b'k' ∷ b'w' ∷ b'a' ∷ b'r' ∷ b'd' ∷ []

abbrev pub delete_mark : Bytes
delete_mark = 0 ∷ []

-- The loop of `updateURLQuery` over its map.
unfoldable pub update_url_query : Map Bytes Bytes → Values → Values
update_url_query [] q = q
update_url_query ((k, v) ∷ updates) q =
    update_url_query updates (if v =? delete_mark then GoMap.delete k q else GoMap.put k (v ∷ []) q)

-- A parameter's text, where the query has it.
unfoldable pub given : Bytes → Values → Option Bytes
given name q = if GoMap.has name q then some (get_value name q) else none

unfoldable pub page_request : Values → PageRequest
page_request q = record {
  after_text = given after_name q;
  before_text = given before_name q;
  count_text = given count_name q;
  backward = query_param_set q backward_name;
}

pub record ListAnswer (A : Type 0) : Type 0 where
  pub result : QueryResult A
  pub prev_page : Values
  pub next_page : Values

-- `createListHandler`: the answer to a request with the query `q`; `factory` is `filterFactory`.
unfoldable pub list_handler :
    {A L : Type 0} → (Values → Option (A → Bool)) → Values → Buffered A L → Option (ListAnswer A)
list_handler factory q st = do
  res ← list_page (factory q) (page_request q) st
  some (record {
    result = res;
    prev_page =
        update_url_query
          ((after_name, delete_mark) ∷ (before_name, to_string res.first_cursor) ∷ []) q;
    next_page =
        update_url_query ((after_name, to_string res.last_cursor) ∷ (before_name, delete_mark) ∷ [])
          q;
  })

-- A client that follows the next links for as long as there is more; `fuel` bounds their number.
unfoldable pub follow_next :
    {A L : Type 0} → (Values → Option (A → Bool)) → Buffered A L → ℕ → Values → Option (List A)
follow_next factory st zero q = none
follow_next factory st (suc fuel) q = do
  answer ← list_handler factory q st
  let rest = follow_next factory st fuel answer.next_page
  (if answer.result.has_more
      then (do items ← rest; some (answer.result.items ++ items))
      else some answer.result.items)

-- A client that follows the next link of a page, and then the previous link of the page it gets.
unfoldable pub there_and_back :
    {A L : Type 0} → (Values → Option (A → Bool)) → Buffered A L → Values → Option (List A)
there_and_back factory st q = do
  first ← list_handler factory q st
  second ← list_handler factory first.next_page st
  third ← list_handler factory second.prev_page st
  some third.result.items
