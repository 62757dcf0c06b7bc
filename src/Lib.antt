-- ===== src/Lib.antt =====
-- keenetic-dns: a DNS server that routes the hosts of its configuration through chosen interfaces.
--
-- The server (dns-server/) answers DNS queries through a chain of resolvers, remembers the records
-- that it hands out in a store, keeps the queries in streams of bounded length that its web pages
-- read page by page, and asks an agent (agent/) to add and delete routes. Paths are relative to
-- the root of the repository.
--
-- - Prelude: names passed on from the libraries, Boolean tests, lists over native numbers, signed
--   integers, equality of keys as an interface (Eq), functions changed at one number, sorting.
--   GoMap: Go's map as an association list in which a key stands once; the order of its entries
--   stands for the order of `range`, which Go leaves open. Text: what the program uses of the
--   packages strings, strconv and net.
-- - Util/RingBuf: internal/util/ring_buf.go. `add`, `get`, `slice`, `values`, `iterator` are its
--   methods; `none` is a panic. Inv says which list a buffer holds, Reads what is read from it,
--   History follows it from its construction. The loop of Iterator runs on fuel: `size` rounds,
--   since each round is at another index below the size.
-- - Stream/Cursor: internal/stream/cursor.go and the cursor that Append makes, a number of 64
--   bits.
-- - Stream/Buffered: internal/stream/buffered.go. `append`, `listen`, `stop` and `query` are its
--   methods, each one step under the mutex; time is an argument. The halving of sort.Find runs on
--   the length of the interval, which is enough since each round shortens it.
-- - Types: dns-server/internal/types.go: addresses with a prefix and their texts, DNS records,
--   their TTL. A call returns, fails or panics (Outcome). The colon notation of net.ParseIP is a
--   parameter.
-- - MultiMap, Store: dns-server/internal/dns_store.go. The store is a pair of maps of maps; the
--   JSON coding is a parameter (Codec) with the law that plain records are read back.
-- - Util/Set: internal/util/set.go and map.go.
-- - Config: dns-server/internal/config.go: which interface a host is for, and the reloading of the
--   file in dns-server/cmd/main.go; the YAML library is a parameter.
-- - Message, Cache, Resolver: what is used of DNS messages; dns-server/internal/dns_cache.go; the
--   resolvers of dns_resolver.go and mdns_resolver.go that stand before another one, which is a
--   parameter.
-- - Inflight: the single-inflight resolver of dns-server/internal/dns_resolver.go: its calls are
--   threads, and their steps under the mutex or while they wait a relation between states.
-- - Log: the handlers of internal/log; the library's handlers are a parameter (Sink). Values: what
--   the log shows of the types of dns-server/internal/types.go.
-- - Mdns: dns-server/internal/mdns_client.go: the calls for the connection are threads that share
--   the mutex.
-- - AgentService: agent/internal/service.go. The commands it runs are a parameter; agent_of is the
--   service as the server's routes see it.
-- - Service: dns-server/internal/service.go: a query and its reply are logged, an answer is
--   collected, the chain of aliases followed, and its addresses stored and routed. The loop over
--   the aliases runs on fuel, one round more than there are aliases.
-- - Server: the handlers of dns-server/internal/dns_server_udp.go and of /dns-query in
--   dns_server_http.go, and the order of the resolvers in dns-server/cmd/main.go.
-- - Routes: dns-server/internal/ip_routes.go. The agent's answers are a parameter (Agent); the
--   requests to it are recorded in the state.
-- - Run: the life of the route controller as dns-server/cmd/main.go starts it: the steps under its
--   mutexes, in any order; Methods says which of them a method takes.
-- - Client: dns-server/internal/doh_client.go and dns_client.go; the network is a parameter.
-- - Http: the handlers of dns-server/internal/dns_server_http.go but that of DNS queries. Links is
--   the list handler, from a request's query to the links of the answer; the coding of a query as
--   a text is the library's. Updates has the three goroutines of a stream handler as a relation
--   between states, with the time and both timers. Filters and RouteList are the filters and the
--   routes.
-- - Examples: the theorems at concrete inputs.
--
-- Not modelled: the starting and stopping of the HTTP, WebSocket and DNS servers, the coding of
-- JSON and of URLs, contexts that are cancelled, metrics, and set-up, which only call libraries;
-- and the resolver that prints its queries, which is not in use. Allocations are taken to succeed,
-- the stream of a recorder to have a positive capacity, and a number of type `int` is a number
-- without a bound where the code only counts what is in memory.
pub mod AgentService
pub mod Cache
pub mod Client
pub mod Config
pub mod Examples
pub mod GoMap
pub mod Http
pub mod Inflight
pub mod Log
pub mod Mdns
pub mod Message
pub mod MultiMap
pub mod Prelude
pub mod Resolver
pub mod Routes
pub mod Run
pub mod Server
pub mod Service
pub mod Store
pub mod Stream
pub mod Text
pub mod Types
pub mod Util
