-- ===== src/Examples/Queries.antt =====
-- Queries that go through the service and the two servers.
use keenetic_dns.Prelude.{ℕ, ◌≡◌, ◌↔◌, refl, Option, some, true, false, [], ◌∷◌, All, Bytes, arith}
use keenetic_dns.Message.{question_eq, Msg, type_a, type_in, has_single_question}
use keenetic_dns.Config.{RoutingConfig}
use keenetic_dns.Store.{new_dns_store}
use keenetic_dns.Stream.Buffered.{Entry, Buffered, new_buffered_stream}
use keenetic_dns.Stream.Buffered.Append.{Live}
use keenetic_dns.Stream.Buffered.History.{new_buffered_stream-Live}
use keenetic_dns.Routes.{Agent, new_controller}
use keenetic_dns.Service.{
  DnsQuery, DnsRawQuery, Service, Resolved, resolved, error, error_text, resolve,
}
use keenetic_dns.Service.Answers.{AddressOk}
use keenetic_dns.Service.Resolve.{Ready, InOrder, with_texts, resolve_error}
use keenetic_dns.Server.{
  resolver_chain, handle_udp, Request, wrap_handler, handle_dns_query, dns_message_media_type,
}
use keenetic_dns.Server.Replies.{
  KeepsId, handle_udp_id, ok_response, Answered, handle_dns_query_iff,
}
use keenetic_dns.Examples.Answers.{query, reply}

abbrev no_query : Entry DnsQuery
no_query = record {
  cursor = 0;
  val = record {
    cursor = 0;
    time = 0;
    client_addr = [];
    domain = [];
    ttl = 0;
    ips = [];
    routed = [];
  };
}

abbrev no_raw_query : Entry DnsRawQuery
no_raw_query = record {
  cursor = 0;
  val = record { cursor = 0; time = 0; client_addr = []; response = false; text = [] };
}

abbrev pub no_routing : RoutingConfig
no_routing = record {
  rule = record { table = 1000; iif = []; priority = 2000 };
  dynamic = record { route_timeout = 0; hosts = []; static_routes = [] };
}

abbrev pub idle_agent : Agent
idle_agent = record {
  accepts_route = λ r. true;
  accepts_delete = λ r. true;
  list_routes = λ t. some [];
  has_rule = λ r. some true;
}

-- A service that has just started.
abbrev pub started : Service ℕ
started = record {
  controller = new_controller no_routing new_dns_store;
  query_stream = new_buffered_stream no_query 2;
  raw_query_stream = new_buffered_stream no_raw_query 2;
}

pub started-Ready : Ready started [] [] 1000
unfolding new_buffered_stream
started-Ready = record {
  raw = new_buffered_stream-Live no_raw_query 1 1000;
  queries = new_buffered_stream-Live no_query 1 1000;
  raw_room = omega arith;
  room = omega arith;
}

pub in_order : InOrder 1000 2000 2005
in_order = record {
  first = omega arith;
  second_later = omega arith;
  period = omega arith;
  period' = omega arith;
}

abbrev pub show : Msg → Bytes
show m = m.id ∷ []

abbrev pub provider : Msg → Resolved
provider m = resolved reply

abbrev dead_provider : Msg → Resolved
dead_provider m = error (b'!' ∷ [])

pub one_question : has_single_question query (type_a ∷ []) ≡ true
unfolding has_single_question type_in
one_question = refl

pub reply_ok : All AddressOk reply.answer
reply_ok = ((10, 0, 0, 1, refl), tt)

resolve_error_example :
    (b : Buffered DnsRawQuery ℕ) × (resolve idle_agent show dead_provider
        (0, 2000)
        (0, 2005)
        []
        query
        started
      ≡ some (error (b'!' ∷ []), record started { raw_query_stream = b }))
    × Live b
        (with_texts started []
          (0, 2000)
          (0, 2005)
          []
          (show query)
          (error_text query.id (b'!' ∷ [])))
        2005
resolve_error_example =
    resolve_error idle_agent show dead_provider started [] [] 1000 0 2000 0 2005 [] query
      (b'!' ∷ []) started-Ready in_order refl

abbrev set_rcode : Msg → ℕ → Msg
set_rcode m code = record m { response = true; rcode = code; answer = [] }

-- A next resolver that says that there is no such name.
abbrev echo : Msg → Option Msg
echo m = some (set_rcode m 3)

echo-KeepsId : KeepsId echo
echo-KeepsId msg resp h = cc

handle_udp_id_example :
    (handle_udp set_rcode (λ m. (resolver_chain echo 60000000000 0 5 m []).0) query).id ≡ 7
handle_udp_id_example =
    handle_udp_id set_rcode echo 60000000000 0 5 [] query (λ m code. refl) echo-KeepsId

abbrev unpack : Bytes → Option Msg
unpack b = some query

abbrev pack : Msg → Option Bytes
pack m = some (m.id ∷ [])

abbrev posted : Request
posted = record {
  content_type = dns_message_media_type;
  accept = dns_message_media_type;
  body = some [];
}

handle_dns_query_iff_example :
    (((wrap_handler (handle_dns_query unpack pack echo) posted).status_code ≡ 200)
      ↔ ((bytes : Bytes) × Answered unpack pack echo posted bytes))
    × ((bytes : Bytes)
        → Answered unpack pack echo posted bytes
        → wrap_handler (handle_dns_query unpack pack echo) posted ≡ ok_response bytes)
handle_dns_query_iff_example = handle_dns_query_iff unpack pack echo posted
