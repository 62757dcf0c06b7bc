-- ===== src/Http/Filters.antt =====
-- The filter factories of dns-server/internal/dns_server_http.go: a filter from the parameters of a
-- request. A filter does not depend on where its page begins.
use keenetic_dns.Prelude.{
  ◌≡◌, ◌↔◌, ◌⊎◌, inl, inr, refl, Bool-cases, true, not, ◌&&◌, ◌||◌, length, ==_iff, arith, ap₂,
  Option, none, some, Bool, false, [], ◌∷◌, ◌=?◌, Bytes, bytes_eq, bytes_beq_iff,
}
use keenetic_dns.GoMap
use keenetic_dns.Log
use keenetic_dns.Service.{DnsQuery, DnsRawQuery}
use keenetic_dns.Text.{trim_space, is_empty, contains}
use keenetic_dns.Text.Contains.{Within, contains_iff}
use keenetic_dns.Stream.Buffered.{passes}
use keenetic_dns.Http.{
  Values, get_value, query_param_set, filter_logs, filter_queries, filter_raw_queries,
}
use keenetic_dns.Http.Links.{after_name, before_name}
use keenetic_dns.Http.Links.Queries.{get_value-get, query_param_set-get}

abbrev pub level_name : Bytes
level_name = b'l' ∷ b'e' ∷ b'v' ∷ b'e' ∷ b'l' ∷ []

abbrev pub domain_name : Bytes
domain_name = b'd' ∷ b'o' ∷ b'm' ∷ b'a' ∷ b'i' ∷ b'n' ∷ []

abbrev pub search_name : Bytes
search_name = b's' ∷ b'e' ∷ b'a' ∷ b'r' ∷ b'c' ∷ b'h' ∷ []

-- `exclude_routed` and `only_responses`
abbrev pub exclude_name : Bytes
exclude_name =
    b'e' ∷ b'x' ∷ b'c' ∷ b'l' ∷ b'u' ∷ b'd' ∷ b'e' ∷ b'_' ∷ b'r' ∷ b'o' ∷ b'u' ∷ b't' ∷ b'e' ∷ b'd'
    ∷ []

abbrev pub responses_name : Bytes
responses_name =
    b'o' ∷ b'n' ∷ b'l' ∷ b'y' ∷ b'_' ∷ b'r' ∷ b'e' ∷ b's' ∷ b'p' ∷ b'o' ∷ b'n' ∷ b's' ∷ b'e' ∷ b's'
    ∷ []

-- `filterLogs`
unfoldable pub logs_filter : Values → Option (Log.Entry → Bool)
logs_filter q = elim (filter_logs (get_value level_name q)) [
  | none ↦ none
  | some test ↦ some (λ entry. test entry.level)
]

-- `filterQueries`
unfoldable pub queries_filter : (Bytes → Bytes) → Values → Option (DnsQuery → Bool)
queries_filter lookup q =
    filter_queries lookup (get_value domain_name q) (get_value search_name q)
      (query_param_set q exclude_name)

-- `filterRawQueries`
unfoldable pub raw_queries_filter : Values → Option (DnsRawQuery → Bool)
raw_queries_filter q =
    filter_raw_queries (get_value search_name q) (query_param_set q responses_name)

-- Queries that agree on every parameter but after and before.
abbrev pub SameFilters : Values → Values → Type 0
SameFilters q r =
    (name : Bytes)
    → (after_name =? name) ≡ false
    → (before_name =? name) ≡ false
    → GoMap.get name q ≡ GoMap.get name r

pub logs_filter-same : (q r : Values) → SameFilters q r → logs_filter q ≡ logs_filter r
unfolding logs_filter
logs_filter-same q r same =
    rw (logs_filter, get_value-get level_name q r (same level_name refl refl)) refl

pub raw_queries_filter-same :
    (q r : Values) → SameFilters q r → raw_queries_filter q ≡ raw_queries_filter r
unfolding raw_queries_filter
raw_queries_filter-same q r same =
    ap₂ filter_raw_queries (get_value-get search_name q r (same search_name refl refl))
      (query_param_set-get responses_name q r (same responses_name refl refl))

pub queries_filter-same :
    (lookup : Bytes → Bytes) (q r : Values)
    → SameFilters q r
    → queries_filter lookup q ≡ queries_filter lookup r
unfolding queries_filter
queries_filter-same lookup q r same =
    rw
      (
        queries_filter,
        get_value-get domain_name q r (same domain_name refl refl),
        get_value-get search_name q r (same search_name refl refl),
        query_param_set-get exclude_name q r (same exclude_name refl refl),
      )
      refl

contains_empty : (text part : Bytes) → is_empty part ≡ true → contains text part ≡ true
contains_empty text [] e = (contains_iff text []).1 ([], text, refl)
contains_empty text (c ∷ part) e = absurd (omega (arith, (==_iff (length (c ∷ part)) 0).0 e))

-- The tests of the filters, without the shortcut for requests that ask for everything.
raw_queries_test :
    (part : Bytes) (only : Bool) (v : DnsRawQuery)
    → passes (filter_raw_queries part only) v
      ≡ ((not only || v.response) && contains v.text (trim_space part))
unfolding filter_raw_queries passes
raw_queries_test part only v = elim (Bool-cases (is_empty (trim_space part))) [
  | inr e ↦ rw e (ground arith)
  | inl e ↦
      rw (e, contains_empty v.text (trim_space part) e)
        (elim (Bool-cases only) [
          | inr o ↦ rw o refl
          | inl o ↦ elim (Bool-cases v.response) [ inl r ↦ rw (o, r) refl | inr r ↦ rw (o, r) refl ]
        ])
]

queries_test :
    (lookup : Bytes → Bytes) (domain part : Bytes) (exclude : Bool) (v : DnsQuery)
    → passes (filter_queries lookup domain part exclude) v ≡ (
        (not exclude || is_empty (lookup v.domain))
        && (contains v.domain (trim_space part)
            && (is_empty (trim_space domain) || v.domain =? trim_space domain)))
unfolding filter_queries passes
queries_test lookup domain part exclude v = elim (Bool-cases (is_empty (trim_space part))) [
  | inr e ↦ elim (Bool-cases (is_empty (trim_space domain))) [
    | inl d ↦ rw (e, d) (ground arith)
    | inr d ↦ rw (e, d) (ground arith)
  ]
  | inl e ↦ elim (Bool-cases (is_empty (trim_space domain))) [
    | inr d ↦ rw (e, d, contains_empty v.domain (trim_space part) e) (ground arith)
    | inl d ↦
        rw (e, d, contains_empty v.domain (trim_space part) e)
          (elim (Bool-cases exclude) [
            | inr o ↦ rw o refl
            | inl o ↦ elim (Bool-cases (is_empty (lookup v.domain))) [
              | inl r ↦ rw (o, r) refl
              | inr r ↦ rw (o, r) refl
            ]
          ])
  ]
]

-- What a filter of raw queries lets pass: replies only, if only_responses is set, and texts in which
-- the text that is searched for stands, without the spaces around it.
pub raw_queries_filter_iff :
    (q : Values) (v : DnsRawQuery)
    → (passes (raw_queries_filter q) v ≡ true) ↔ (
        (query_param_set q responses_name ≡ true → v.response ≡ true)
        × Within (trim_space (get_value search_name q)) v.text)
unfolding raw_queries_filter
raw_queries_filter_iff q v = ground (
  arith,
  raw_queries_test (get_value search_name q) (query_param_set q responses_name) v,
  contains_iff v.text (trim_space (get_value search_name q)),
)

is_empty_iff : (s : Bytes) → (is_empty s ≡ true) ↔ (s ≡ [])
is_empty_iff [] = (λ e. refl, λ e. refl)
is_empty_iff (c ∷ s) = (λ e. absurd (omega (arith, (==_iff (length (c ∷ s)) 0).0 e)), λ e. cc)

-- What a filter of queries lets pass: domains without a route, if exclude_routed is set, in which the
-- text that is searched for stands, and the domain alone that is asked for, if one is; of both texts
-- the spaces around them do not count.
pub queries_filter_iff :
    (lookup : Bytes → Bytes) (q : Values) (v : DnsQuery)
    → (passes (queries_filter lookup q) v ≡ true) ↔ (
        (query_param_set q exclude_name ≡ true → lookup v.domain ≡ [])
        × Within (trim_space (get_value search_name q)) v.domain
        × ((trim_space (get_value domain_name q) ≡ [])
            ⊎ (v.domain ≡ trim_space (get_value domain_name q))))
unfolding queries_filter
queries_filter_iff lookup q v = ground (
  arith,
  queries_test lookup (get_value domain_name q) (get_value search_name q)
      (query_param_set q exclude_name) v,
  contains_iff v.domain (trim_space (get_value search_name q)),
  is_empty_iff (lookup v.domain),
  is_empty_iff (trim_space (get_value domain_name q)),
  bytes_beq_iff v.domain (trim_space (get_value domain_name q)),
)
