-- ===== src/Server.antt =====
-- How the resolvers are put together in dns-server/cmd/main.go, and the two ways in which a query
-- reaches them: dns-server/internal/dns_server_udp.go and the handler of /dns-query in
-- dns-server/internal/dns_server_http.go. The coding of messages and the message of an error are the
-- DNS library's, and parameters here.
pub mod Replies
use keenetic_dns.Prelude.{
  ℕ, ◌≡◌, Option, none, some, Bool, true, false, not, ◌||◌, List, [], ◌∷◌, length, if◌then◌else◌,
  Bytes, bytes_eq, ◌=?◌,
}
use keenetic_dns.Text.{itoa}
use keenetic_dns.Message.{Msg}
use keenetic_dns.Cache.{DnsCache}
use keenetic_dns.Resolver.{cached_resolve, new_ttl_overriding}

-- The caching resolver over the next one, with the override of the TTL in front: the answer or an
-- error, and the cache, with the times of `cached_resolve`.
unfoldable pub resolver_chain :
    (Msg → Option Msg) → ℕ → ℕ → ℕ → Msg → DnsCache → Option Msg × DnsCache
resolver_chain inner ttl_override now now' msg c = (
  new_ttl_overriding (λ m. (cached_resolve inner now now' m c).0) ttl_override msg,
  (cached_resolve inner now now' msg c).1,
)

-- `dns.RcodeServerFailure`
abbrev pub server_failure : ℕ
server_failure = 2

-- The handler of `DNSServer`: the message that is written.
unfoldable pub handle_udp : (Msg → ℕ → Msg) → (Msg → Option Msg) → Msg → Msg
handle_udp set_rcode resolve req = elim (resolve req) [
  | none ↦ set_rcode req server_failure
  | some resp ↦ resp
]

-- What is used of a request; a body that cannot be read is `none`.
pub record Request : Type 0 where
  pub content_type : Bytes
  pub accept : Bytes
  pub body : Option Bytes

-- What a handler does: the status code, whether there is an error, and what it has written before it
-- returned, with the headers.
pub record Handled : Type 0 where
  pub status_code : ℕ
  pub failed : Bool
  pub content_type : Bytes
  pub content_length : Bytes
  pub body : Bytes

-- What is sent.
pub record Response : Type 0 where
  pub status_code : ℕ
  pub content_type : Bytes
  pub content_length : Bytes
  pub body : Bytes

abbrev pub fails_with : ℕ → Handled
fails_with status = record {
  status_code = status;
  failed = true;
  content_type = [];
  content_length = [];
  body = [];
}

-- `application/dns-message`
abbrev pub dns_message_media_type : Bytes
dns_message_media_type =
    b'a' ∷ b'p' ∷ b'p' ∷ b'l' ∷ b'i' ∷ b'c' ∷ b'a' ∷ b't' ∷ b'i' ∷ b'o' ∷ b'n' ∷ b'/' ∷ b'd' ∷ b'n'
    ∷ b's' ∷ b'-' ∷ b'm' ∷ b'e' ∷ b's' ∷ b's' ∷ b'a' ∷ b'g' ∷ b'e' ∷ []

-- `wrapHandler`; where the handler has written its own header, the status is the one it wrote.
unfoldable pub respond : Handled → Response
respond h =
    if h.failed
    then record { status_code = h.status_code; content_type = []; content_length = []; body = [] }
    else record {
      status_code = h.status_code;
      content_type = h.content_type;
      content_length = h.content_length;
      body = h.body;
    }

unfoldable pub wrap_handler : (Request → Handled) → Request → Response
wrap_handler handler req = respond (handler req)

module _ (unpack : Bytes → Option Msg) (pack : Msg → Option Bytes)
    (resolve : Msg → Option Msg) where
  -- `handleDNSQuery`
  unfoldable pub handle_dns_query : Request → Handled
  handle_dns_query req =
      if not (req.content_type =? dns_message_media_type)
        || not (req.accept =? dns_message_media_type)
      then fails_with 400
      else elim req.body [
        | none ↦ fails_with 500
        | some body ↦ elim (unpack body) [
          | none ↦ fails_with 400
          | some dns_req ↦ elim (resolve dns_req) [
            | none ↦ fails_with 500
            | some dns_resp ↦ elim (pack dns_resp) [
              | none ↦ fails_with 500
              | some bytes ↦ record {
                status_code = 200;
                failed = false;
                content_type = dns_message_media_type;
                content_length = itoa (length bytes);
                body = bytes;
              }
            ]
          ]
        ]
      ]
