-- ===== src/Http/Links/Queries.antt =====
-- The links of the list handler of dns-server/internal/dns_server_http.go: what a query has under its
-- names after an update, and which page it asks for then.
use keenetic_dns.Prelude.{
  ◌^◌, ◌<◌, ◌≡◌, refl, ◌∙◌, subst, Option, none, some, true, false, List, [], ◌∷◌, arith, length,
  pos, negsuc, if◌then◌else◌, ◌=?◌, Bytes, bytes_eq, bytes_beq_iff, Bool-cases, Option-cases, inl,
  inr,
}
use keenetic_dns.GoMap
use keenetic_dns.GoMap.{Map, Distinct}
use keenetic_dns.GoMap.Laws.{get-delete, get-put, has-get}
use keenetic_dns.Text.{atoi}
use keenetic_dns.Stream.Cursor.{Cursor, to_string, parse_cursor}
use keenetic_dns.Stream.Cursor.Text.{parse_cursor-to_string, parse_cursor_below}
use keenetic_dns.Http.{
  Values, get_value, query_param_set, cursor_or_zero, PageRequest, page_cursor, page_count,
  too_large,
}
use keenetic_dns.Http.Links.{
  after_name, before_name, delete_mark, update_url_query, given, page_request,
}

-- What an update leaves under a name: the new text, nothing, or what was there.
unfoldable pub updated : Option Bytes → Option (List Bytes) → Option (List Bytes)
updated none old = old
updated (some v) old = if v =? delete_mark then none else some (v ∷ [])

pub get-update_url_query :
    (name : Bytes) (updates : Map Bytes Bytes) (q : Values)
    → Distinct updates
    → GoMap.get name (update_url_query updates q)
      ≡ updated (GoMap.get name updates) (GoMap.get name q)
unfolding update_url_query updated GoMap.get
get-update_url_query name [] q d = refl
get-update_url_query name ((k, v) ∷ updates) q (absent, d) =
    get-update_url_query name updates _ d ∙ (elim (Bool-cases (k =? name)) [
      | inr other ↦ elim (Bool-cases (v =? delete_mark)) [
        | inl e ↦ rw (e, get-delete k name q, other) refl
        | inr e ↦ rw (e, get-put k name (v ∷ []) q, other) refl
      ]
      | inl same ↦
          let here : GoMap.get name updates ≡ none =
            subst (λ n. GoMap.get n updates ≡ none) ((bytes_beq_iff k name).0 same) absent in
          elim (Bool-cases (v =? delete_mark)) [
            | inl e ↦ rw (e, get-delete k name q, same, here, e) refl
            | inr e ↦ rw (e, get-put k name (v ∷ []) q, same, here, e) refl
          ]
    ])

pub get_value-get :
    (name : Bytes) (q r : Values)
    → GoMap.get name q ≡ GoMap.get name r
    → get_value name q ≡ get_value name r
unfolding get_value
get_value-get name q r e = rw (get_value, get_value, e) refl

pub given-get :
    (name : Bytes) (q r : Values)
    → GoMap.get name q ≡ GoMap.get name r
    → given name q ≡ given name r
unfolding given
given-get name q r e = rw (has-get name q, has-get name r, e, get_value-get name q r e) refl

pub query_param_set-get :
    (name : Bytes) (q r : Values)
    → GoMap.get name q ≡ GoMap.get name r
    → query_param_set q name ≡ query_param_set r name
unfolding query_param_set
query_param_set-get name q r e =
    rw (has-get name q, has-get name r, e, get_value-get name q r e) refl

-- The query that the next link encodes.
abbrev pub next_query : Cursor → Values → Values
next_query c q = update_url_query ((after_name, to_string c) ∷ (before_name, delete_mark) ∷ []) q

next_Distinct :
    (c : Cursor) → Distinct ((after_name, to_string c) ∷ (before_name, delete_mark) ∷ [])
unfolding GoMap.get
next_Distinct c = (refl, (refl, tt))

pub next_other :
    (name : Bytes) (c : Cursor) (q : Values)
    → (after_name =? name) ≡ false
    → (before_name =? name) ≡ false
    → GoMap.get name (next_query c q) ≡ GoMap.get name q
unfolding updated GoMap.get
next_other name c q not_after not_before =
    get-update_url_query name _ q (next_Distinct c) ∙ rw (not_after, not_before) refl

pub not_mark : (s : Bytes) → length s ≡ 16 → (s =? delete_mark) ≡ false
not_mark [] h = ground arith
not_mark (c ∷ []) h = ground arith
not_mark (c ∷ d ∷ s) h = ground arith

next_after :
    (c : Cursor) (q : Values)
    → c < 2 ^ 64
    → GoMap.get after_name (next_query c q) ≡ some (to_string c ∷ [])
unfolding updated GoMap.get
next_after c q small =
    get-update_url_query after_name _ q (next_Distinct c)
    ∙ rw (not_mark (to_string c) (parse_cursor-to_string c small).1) refl

pub given_one :
    (name v : Bytes) (q : Values) → GoMap.get name q ≡ some (v ∷ []) → given name q ≡ some v
unfolding given get_value
given_one name v q e = rw (given, get_value, has-get name q, e) refl

pub cursor_or_zero-to_string : (c : Cursor) → c < 2 ^ 64 → cursor_or_zero (to_string c) ≡ c
unfolding cursor_or_zero
cursor_or_zero-to_string c small = rw (cursor_or_zero, (parse_cursor-to_string c small).0) refl

pub page_cursor-next :
    (c : Cursor) (q : Values) → c < 2 ^ 64 → page_cursor (page_request (next_query c q)) ≡ (c, true)
unfolding page_cursor page_request
page_cursor-next c q small =
    rw
      (
        page_cursor,
        page_request,
        given_one after_name (to_string c) _ (next_after c q small),
        cursor_or_zero-to_string c small,
      )
      refl

cursor_or_zero_below : (s : Bytes) → cursor_or_zero s < 2 ^ 64
unfolding cursor_or_zero
cursor_or_zero_below s = elim (Option-cases (parse_cursor s)) [
  | inl e ↦ rw (cursor_or_zero, e) (omega arith)
  | inr (c, e) ↦ rw (cursor_or_zero, e) (parse_cursor_below s c e)
]

pub page_count_positive : (t : Option Bytes) → 0 < page_count t
unfolding page_count
page_count_positive none = omega arith
page_count_positive (some s) = elim (Option-cases (atoi s)) [
  | inl e ↦
      rw (page_count, e)
        (elim (Bool-cases (too_large s)) [
          | inl l ↦ rw l (omega arith)
          | inr l ↦ rw l (omega arith)
        ])
  | inr (pos k, e) ↦ rw (page_count, e) (omega arith)
  | inr (negsuc k, e) ↦ rw (page_count, e) (omega arith)
]

pub page_cursor_below : (r : PageRequest) → (page_cursor r).0 < 2 ^ 64
unfolding page_cursor
page_cursor_below r = elim (Option-cases r.after_text) [
  | inr (s, e) ↦ rw (page_cursor, e) (cursor_or_zero_below s)
  | inl e ↦ elim (Option-cases r.before_text) [
    | inr (s, f) ↦ rw (page_cursor, e, f) (cursor_or_zero_below s)
    | inl f ↦ elim (Bool-cases r.backward) [
      | inl b ↦ rw (page_cursor, e, f, b) (omega arith)
      | inr b ↦ rw (page_cursor, e, f, b) (omega arith)
    ]
  ]
]
