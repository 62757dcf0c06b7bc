-- ===== src/Service.antt =====
-- dns-server/internal/service.go: the answers to A queries are remembered and their addresses routed.
pub mod Answers
pub mod Chain
pub mod Resolve
use keenetic_dns.Prelude.{
  ℕ, zero, suc, ◌+◌, ◌*◌, ◌^◌, ◌-◌, ◌≡◌, Option, none, some, Bool, true, false, not, List, [], ◌∷◌,
  ◌++◌, map, keep, length, ltb, ◌==◌, if◌then◌else◌, ◌>>=◌, min, max, Bytes, bytes_eq,
}
use keenetic_dns.GoMap
use keenetic_dns.GoMap.{Map}
use keenetic_dns.Util.Set
use keenetic_dns.Util.Set.{Set}
use keenetic_dns.Text.{trim_right, itoa}
use keenetic_dns.Types.{IPv4, Outcome, returns, fails, panics, new_ipv4}
use keenetic_dns.Types.Record.{DnsRecord}
use keenetic_dns.Message.{Question, Rr, Rdata, a, cname, other, Msg, type_a, has_single_question}
use keenetic_dns.Cache.{second}
use keenetic_dns.Config.{lookup_host}
use keenetic_dns.Store
use keenetic_dns.Stream.Cursor.{Cursor}
use keenetic_dns.Stream.Buffered
use keenetic_dns.Stream.Buffered.{Buffered}
use keenetic_dns.Routes
use keenetic_dns.Routes.{Controller, Agent}

-- `normalizeName`
unfoldable pub normalize_name : Bytes → Bytes
normalize_name name = trim_right b'.' name

-- `DNSQuery` of types.go
pub record DnsQuery : Type 0 where
  pub cursor : Cursor
  pub time : ℕ
  pub client_addr : Bytes
  pub domain : Bytes
  pub ttl : ℕ
  pub ips : List IPv4
  pub routed : List Bytes

-- `DNSRawQuery` of types.go
pub record DnsRawQuery : Type 0 where
  pub cursor : Cursor
  pub time : ℕ
  pub client_addr : Bytes
  pub response : Bool
  pub text : Bytes

-- What the first loop of `processTypeAResponse` collects.
pub record Collected : Type 0 where
  pub cnames : Map Bytes (Bytes × ℕ)
  pub ttl : ℕ
  pub name_ips : Map Bytes (List IPv4)

abbrev pub nothing_collected : Collected
nothing_collected = record { cnames = []; ttl = 2 ^ 32 - 1; name_ips = [] }

-- A missing key reads as the nil slice.
abbrev pub ips_of : Bytes → Map Bytes (List IPv4) → List IPv4
ips_of name m = elim (GoMap.get name m) [ none ↦ [] | some ips ↦ ips ]

-- The first loop; `none` is a panic of `NewIPv4`.
unfoldable pub collect_answers : List Rr → Collected → Option Collected
collect_answers [] c = some c
collect_answers (r ∷ rs) c = elim r.data' [
  | a ip ↦ elim (new_ipv4 (some ip)) [
    | returns addr ↦ collect_answers rs (record c {
      ttl = min c.ttl r.ttl;
      name_ips = GoMap.put r.name (ips_of r.name c.name_ips ++ addr ∷ []) c.name_ips;
    })
    | fails ↦ none
    | panics ↦ none
  ]
  | cname target ↦
      collect_answers rs (record c { cnames = GoMap.put r.name (target, r.ttl) c.cnames })
  | other ↦ collect_answers rs c
]

-- What the second loop knows at its end.
pub record Followed : Type 0 where
  pub ips : List IPv4
  pub ifaces : Set Bytes
  pub ttl : ℕ

-- The second loop, from a name on: it follows the chain of aliases until a name has no alias or was
-- visited. Out of fuel is `none`.
unfoldable pub follow :
    ℕ → (Bytes → Bytes) → Collected → Bytes → Set Bytes → Set Bytes → ℕ → Option Followed
follow zero lookup c name visited ifaces ttl = none
follow (suc fuel) lookup c name visited ifaces ttl =
    let iface = lookup (normalize_name name) in
    let ifaces' = if length iface == 0 then ifaces else Set.insert iface ifaces in
    if Set.has name visited
    then some (record { ips = []; ifaces = ifaces; ttl = ttl })
    else elim (GoMap.get name c.cnames) [
      | some target ↦
          follow fuel lookup c target.0 (Set.insert name visited) ifaces' (min ttl target.1)
      | none ↦ some (record { ips = ips_of name c.name_ips; ifaces = ifaces'; ttl = ttl })
    ]

-- `bytes.Compare` of two addresses, as the test for less.
unfoldable pub ipv4_less : IPv4 → IPv4 → Bool
ipv4_less x y =
    if not (x.a == y.a)
    then ltb x.a y.a
    else if not (x.b == y.b)
    then ltb x.b y.b
    else if not (x.c == y.c)
    then ltb x.c y.c
    else if not (x.d == y.d)
    then ltb x.d y.d
    else ltb x.prefix y.prefix

-- `slices.SortFunc` with that comparison; addresses that compare as equal are equal.
unfoldable pub insert_ip : IPv4 → List IPv4 → List IPv4
insert_ip x [] = x ∷ []
insert_ip x (y ∷ ys) = let rest = insert_ip x ys in if ipv4_less y x then y ∷ rest else x ∷ y ∷ ys

unfoldable pub sort_ips : List IPv4 → List IPv4
sort_ips [] = []
sort_ips (x ∷ xs) = insert_ip x (sort_ips xs)

-- `DNSRoutingService` with the controller that shares its store.
pub record Service (L : Type 0) : Type 0 where
  pub controller : Controller
  pub query_stream : Buffered DnsQuery L
  pub raw_query_stream : Buffered DnsRawQuery L

-- `NewDNSRecord` and the loops at the end of `processTypeAResponse`, for one address and for all.
unfoldable pub route_ip : Agent → List Bytes → IPv4 → Controller → Controller
route_ip agent [] ip c = c
route_ip agent (iface ∷ ifaces) ip c = route_ip agent ifaces ip (Routes.add_route agent iface ip c)

unfoldable pub add_ips : Agent → Bytes → ℕ → List Bytes → List IPv4 → Controller → Controller
add_ips agent domain expires ifaces [] c = c
add_ips agent domain expires ifaces (ip ∷ ips) c =
    let r : DnsRecord = record { ip = ip; domain = domain; expires = expires } in
    add_ips agent domain expires ifaces ips
      (route_ip agent ifaces ip (record c { store = Store.add r c.store }))

-- What is known of an answer when the loops have run: the name that was asked for and what the chain
-- from it led to. `none` is a panic.
unfoldable pub chase : (Bytes → Bytes) → Msg → Option (Bytes × Followed)
chase lookup resp = elim resp.question [
  | [] ↦ none
  | ◌∷◌ q (qs → r) ↦ do
    c ← collect_answers resp.answer nothing_collected
    f ← follow (suc (length c.cnames)) lookup c q.name [] [] c.ttl
    some (q.name, f)
]

abbrev pub set_query_cursor : Cursor → DnsQuery → DnsQuery
set_query_cursor k q = record q { cursor = k }

-- The `DNSQuery` of `processTypeAResponse`.
abbrev pub query_of : ℕ → Bytes → Bytes → Followed → DnsQuery
query_of now client_addr name f = record {
  cursor = 0;
  time = now;
  client_addr = client_addr;
  domain = normalize_name name;
  ttl = max f.ttl 1;
  ips = sort_ips f.ips;
  routed = Set.values f.ifaces;
}

-- `processTypeAResponse` at the time `now` in nanoseconds, which is `millis` for the cursor.
unfoldable pub process_type_a_response :
    {L : Type 0} → Agent → ℕ → ℕ → Bytes → Msg → Service L → Option (Service L)
process_type_a_response agent now millis client_addr resp s = do
  (name, f) ← chase (λ host. lookup_host host s.controller.cfg) resp
  let res = query_of now client_addr name f
  (if length res.ips == 0 then some s else (do
    (stream, calls) ← Buffered.append set_query_cursor millis res s.query_stream
    some (record s {
      query_stream = stream;
      controller =
          add_ips agent res.domain (now + res.ttl * second) res.routed res.ips s.controller;
    })))

abbrev pub set_raw_cursor : Cursor → DnsRawQuery → DnsRawQuery
set_raw_cursor k q = record q { cursor = k }

-- `appendRawQuery`, at a time that is read twice: for the query in nanoseconds, and for the cursor.
unfoldable pub append_raw_query :
    {L : Type 0} → ℕ → ℕ → Bytes → Bool → Bytes → Service L → Option (Service L)
append_raw_query now millis client_addr response text s = do
  let q : DnsRawQuery = record {
    cursor = 0;
    time = now;
    client_addr = client_addr;
    response = response;
    text = text;
  }
  (stream, calls) ← Buffered.append set_raw_cursor millis q s.raw_query_stream
  some (record s { raw_query_stream = stream })

-- What the next resolver returns: a message, or an error with its text.
pub data Resolved : Type 0 where
  resolved : Msg → Resolved
  error : Bytes → Resolved

-- `ERROR: query (id: %d) failed: %v`
abbrev pub error_text : ℕ → Bytes → Bytes
error_text id text =
    (b'E' ∷ b'R' ∷ b'R' ∷ b'O' ∷ b'R' ∷ b':' ∷ b' ' ∷ b'q' ∷ b'u' ∷ b'e' ∷ b'r' ∷ b'y' ∷ b' ' ∷ b'('
      ∷ b'i' ∷ b'd' ∷ b':' ∷ b' ' ∷ [])
    ++ itoa id
    ++ (b')' ∷ b' ' ∷ b'f' ∷ b'a' ∷ b'i' ∷ b'l' ∷ b'e' ∷ b'd' ∷ b':' ∷ b' ' ∷ [])
    ++ text

-- `DNSRoutingService.Resolve`: what it returns and the service, where `show` is the print of a
-- message, `asked` and `answered` the times before and after the next resolver, in nanoseconds and in
-- milliseconds.
module _ {L : Type 0} (agent : Agent) (show : Msg → Bytes) (inner : Msg → Resolved) where
  unfoldable pub resolve : ℕ × ℕ → ℕ × ℕ → Bytes → Msg → Service L → Option (Resolved × Service L)
  resolve (now, millis) (now', millis') client_addr msg s = do
    s1 ← append_raw_query now millis client_addr false (show msg) s
    elim (inner msg) [
      | error text ↦ do
        s2 ← append_raw_query now' millis' client_addr true (error_text msg.id text) s1
        some (error text, s2)
      | resolved resp ↦ do
        s2 ← append_raw_query now' millis' client_addr true (show resp) s1
        s3 ←
            if has_single_question msg (type_a ∷ [])
            then process_type_a_response agent now' millis' client_addr resp s2
            else some s2
        some (resolved resp, s3)
    ]
