-- ===== src/Examples/Links.antt =====
-- Clients that follow the links of a list.
use keenetic_dns.Prelude.{
  ℕ, zero, suc, ◌+◌, ◌%◌, ◌<◌, List, get_elem?, pos, ◌≡◌, ◌↔◌, ◌⊎◌, refl, some, true, not, [], ◌∷◌,
  map, Bytes, arith,
}
use keenetic_dns.Text.{trim_space, atoi, split}
use keenetic_dns.Text.Contains.{Within}
use keenetic_dns.GoMap
use keenetic_dns.Util.RingBuf.Inv.{Holds}
use keenetic_dns.Log
use keenetic_dns.Service.{DnsQuery, DnsRawQuery}
use keenetic_dns.Stream.Buffered.{Entry, Buffered, passes}
use keenetic_dns.Stream.Buffered.Collect.{matching}
use keenetic_dns.Stream.Buffered.Direction.{ahead}
use keenetic_dns.Http.{Values, get_value, query_param_set, page_cursor, page_count, filter_logs}
use keenetic_dns.Http.Links.{
  given, backward_name, count_name, page_request, follow_next, list_handler, ListAnswer,
  there_and_back,
}
use keenetic_dns.Http.Links.Follow.{follow_next_lem}
use keenetic_dns.Http.Links.Back.{there_and_back_lem, handler_after, SameList, prev_query}
use keenetic_dns.Http.Links.Queries.{next_query}
use keenetic_dns.Http.Filters.{
  logs_filter, logs_filter-same, raw_queries_filter, raw_queries_filter_iff, queries_filter,
  queries_filter_iff, level_name, search_name, domain_name, responses_name, exclude_name,
}

abbrev line : ℕ → Bytes → Log.Entry
line c level = record { cursor = c; time = 0; level = level; msg = []; attrs = [] }

abbrev logged : ℕ → Bytes → Entry Log.Entry
logged c level = record { cursor = c; val = line c level }

abbrev lines : List (Entry Log.Entry)
lines = logged 3 (b'I' ∷ []) ∷ logged 5 (b'D' ∷ []) ∷ logged 9 (b'I' ∷ []) ∷ []

abbrev log_stream : Buffered Log.Entry ℕ
log_stream = record {
  buf = record { start = 0; end = pos 2; size = 3; buf = lines };
  index = 3;
  listeners = [];
  next_listener = 0;
}

lines-entries : (i : ℕ) → i < 3 → get_elem? lines ((0 + i) % 3) ≡ get_elem? lines i
lines-entries zero h = refl
lines-entries (suc zero) h = refl
lines-entries (suc (suc zero)) h = refl
lines-entries (suc (suc (suc i))) h = absurd (omega arith)

lines-Holds : Holds log_stream.buf lines
lines-Holds = record {
  nonempty = omega arith;
  start_in = omega arith;
  size_in = omega arith;
  next_slot = refl;
  count = refl;
  entries = lines-entries;
}

-- `?level=I&count=1`
abbrev log_query : Values
log_query = (level_name, (b'I' ∷ []) ∷ []) ∷ (count_name, (b'1' ∷ []) ∷ []) ∷ []

starts : (page_cursor (page_request log_query)).1 ≡ true
unfolding page_cursor page_request given query_param_set GoMap.has
starts = refl

follow_next_lem_example :
    follow_next logs_filter log_stream 4 log_query
    ≡ some (
        map
          (λ it. it.val)
          (matching (logs_filter log_query) (
            ahead
              (not (query_param_set log_query backward_name))
              (page_cursor (page_request log_query)).0
              lines)))
follow_next_lem_example =
    follow_next_lem logs_filter log_stream lines-Holds (omega arith) (omega arith) logs_filter-same
      log_query starts

-- Its answer: the first line, with more to come.
abbrev first_answer : ListAnswer Log.Entry
first_answer = record {
  result = record {
    items = line 3 (b'I' ∷ []) ∷ [];
    first_cursor = 3;
    last_cursor = 3;
    has_more = true;
  };
  prev_page = prev_query 3 log_query;
  next_page = next_query 3 log_query;
}

the_same : SameList Log.Entry logs_filter log_query log_query
the_same = record { backward = refl; count = refl; filter = refl }

first_page : page_cursor (page_request log_query) ≡ (0, true)
unfolding page_cursor page_request given query_param_set GoMap.has
first_page = refl

first_answered : list_handler logs_filter log_query log_stream ≡ some first_answer
unfolding page_count given query_param_set GoMap.has passes logs_filter get_value atoi GoMap.get
    filter_logs split
first_answered =
    handler_after logs_filter log_stream lines-Holds (omega arith) (omega arith) logs_filter-same
      log_query log_query 0 the_same first_page

there_and_back_lem_example :
    there_and_back logs_filter log_stream log_query ≡ some first_answer.result.items
there_and_back_lem_example =
    there_and_back_lem logs_filter log_stream lines-Holds (omega arith) (omega arith)
      logs_filter-same log_query first_answer starts first_answered refl

-- `?search=a&only_responses`
abbrev raw_query : Values
raw_query = (search_name, (b'a' ∷ []) ∷ []) ∷ (responses_name, [] ∷ []) ∷ []

abbrev raw_reply : DnsRawQuery
raw_reply = record {
  cursor = 0;
  time = 0;
  client_addr = [];
  response = true;
  text = b'b' ∷ b'a' ∷ [];
}

raw_queries_filter_iff_example : (passes (raw_queries_filter raw_query) raw_reply ≡ true) ↔ (
    (query_param_set raw_query responses_name ≡ true → raw_reply.response ≡ true)
    × Within (trim_space (get_value search_name raw_query)) raw_reply.text)
raw_queries_filter_iff_example = raw_queries_filter_iff raw_query raw_reply

abbrev no_host : Bytes → Bytes
no_host h = []

-- `?domain=a&exclude_routed=1`
abbrev one_domain : Values
one_domain = (domain_name, (b'a' ∷ []) ∷ []) ∷ (exclude_name, (b'1' ∷ []) ∷ []) ∷ []

abbrev one_query : DnsQuery
one_query = record {
  cursor = 0;
  time = 0;
  client_addr = [];
  domain = b'a' ∷ [];
  ttl = 60;
  ips = [];
  routed = [];
}

queries_filter_iff_example : (passes (queries_filter no_host one_domain) one_query ≡ true) ↔ (
    (query_param_set one_domain exclude_name ≡ true → no_host one_query.domain ≡ [])
    × Within (trim_space (get_value search_name one_domain)) one_query.domain
    × ((trim_space (get_value domain_name one_domain) ≡ [])
        ⊎ (one_query.domain ≡ trim_space (get_value domain_name one_domain))))
queries_filter_iff_example = queries_filter_iff no_host one_domain one_query
