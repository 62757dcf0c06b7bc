-- ===== src/Client.antt =====
-- dns-server/internal/doh_client.go and dns_client.go: the two resolvers that ask a DNS provider, and
-- the choice between them in dns-server/cmd/main.go. The network, the coding of messages and the test
-- of a URL are libraries, and parameters here.
pub mod Served
use keenetic_dns.Prelude.{ℕ, Option, none, some, Bool, List, [], ◌∷◌, ◌==◌, if◌then◌else◌, Bytes}
use keenetic_dns.Text.{has_prefix}
use keenetic_dns.Message.{Msg}
use keenetic_dns.Server.{Request, dns_message_media_type}

-- What is used of a response; a body that cannot be read is `none`.
pub record Reply : Type 0 where
  pub status_code : ℕ
  pub body : Option Bytes

-- The errors of `dohClient.Resolve`, in the order of its returns.
pub data DohError : Type 0 where
  not_packed : DohError
  not_created : DohError
  not_sent : DohError
  unexpected_status : ℕ → DohError
  not_read : DohError
  not_unpacked : DohError

pub data DohResult : Type 0 where
  replied : Msg → DohResult
  failed : DohError → DohResult

-- `dohClient.Resolve`, for the client's URL: `valid_url` says whether a request can be created, and
-- `do_request` is the client's `Do`.
module _ (pack : Msg → Option Bytes) (unpack : Bytes → Option Msg) (valid_url : Bytes → Bool)
    (do_request : Bytes → Request → Option Reply) where
  -- The part behind the response.
  unfoldable pub read_reply : Reply → DohResult
  read_reply resp =
      if resp.status_code == 200
      then elim resp.body [
        | none ↦ failed not_read
        | some body ↦ elim (unpack body) [ none ↦ failed not_unpacked | some res ↦ replied res ]
      ]
      else failed (unexpected_status resp.status_code)

  abbrev pub doh_request : Bytes → Request
  doh_request req_body = record {
    content_type = dns_message_media_type;
    accept = dns_message_media_type;
    body = some req_body;
  }

  unfoldable pub doh_resolve : Bytes → Msg → DohResult
  doh_resolve url msg = elim (pack msg) [
    | none ↦ failed not_packed
    | some req_body ↦
        if valid_url url
        then elim (do_request url (doh_request req_body)) [
          | none ↦ failed not_sent
          | some resp ↦ read_reply resp
        ]
        else failed not_created
  ]

  -- A resolver's view of the client: an error has no message.
  abbrev pub answer_of : DohResult → Option Msg
  answer_of (replied m) = some m
  answer_of (failed e) = none

  -- `dnsClient.Resolve` and the choice of the provider; `exchange` is `ExchangeContext`.
  unfoldable pub dns_resolve : (Msg → Bytes → Option Msg) → Bytes → Msg → Option Msg
  dns_resolve exchange address msg = exchange msg address

  unfoldable pub provider : (Msg → Bytes → Option Msg) → Bytes → Msg → Option Msg
  provider exchange dns_provider msg =
      if has_prefix dns_provider (b'h' ∷ b't' ∷ b't' ∷ b'p' ∷ [])
      then answer_of (doh_resolve dns_provider msg)
      else dns_resolve exchange dns_provider msg
