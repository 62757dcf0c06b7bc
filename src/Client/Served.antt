-- ===== src/Client/Served.antt =====
-- The client of dns-server/internal/doh_client.go asks a server of this program.
use keenetic_dns.Prelude.{◌≡◌, refl, Option, none, some, Bool, true, Bytes, Option-cases, inl, inr}
use keenetic_dns.Message.{Msg}
use keenetic_dns.Server.{Request, respond, wrap_handler, handle_dns_query}
use keenetic_dns.Client.{
  Reply, DohResult, replied, failed, unexpected_status, not_unpacked, doh_resolve, read_reply,
}

-- The network, where the URL leads to a server with the resolver `resolve`.
abbrev pub served :
    (Bytes → Option Msg)
    → (Msg → Option Bytes)
    → (Msg → Option Msg)
    → Bytes
    → Request
    → Option Reply
served unpack pack resolve url req =
    let resp = wrap_handler (handle_dns_query unpack pack resolve) req in
    some (record { status_code = resp.status_code; body = some resp.body })

-- What becomes of a query that arrives.
abbrev pub expected : (Bytes → Option Msg) → (Msg → Option Bytes) → Option Msg → DohResult
expected unpack pack none = failed (unexpected_status 500)
expected unpack pack (some resp) = elim (pack resp) [
  | none ↦ failed (unexpected_status 500)
  | some bytes ↦ elim (unpack bytes) [ none ↦ failed not_unpacked | some res ↦ replied res ]
]

-- A query that the client packs and the server unpacks as the same message gets what the server's
-- resolver returns for it, packed and unpacked again; an error of the resolver, or of packing its
-- reply, is an unexpected status.
pub doh_resolve-handle_dns_query :
    (pack : Msg → Option Bytes) (unpack : Bytes → Option Msg) (valid_url : Bytes → Bool)
    (resolve : Msg → Option Msg) (url : Bytes) (msg : Msg) (bytes : Bytes)
    → valid_url url ≡ true
    → pack msg ≡ some bytes
    → unpack bytes ≡ some msg
    → doh_resolve pack unpack valid_url (served unpack pack resolve) url msg
      ≡ expected unpack pack (resolve msg)
unfolding doh_resolve handle_dns_query wrap_handler respond read_reply
doh_resolve-handle_dns_query pack unpack valid_url resolve url msg bytes valid packed same =
    elim (Option-cases (resolve msg)) [
      | inl e ↦ rw (doh_resolve, packed, valid, handle_dns_query, same, e) refl
      | inr (resp, e) ↦ elim (Option-cases (pack resp)) [
        | inl f ↦ rw (doh_resolve, packed, valid, handle_dns_query, same, e, f, expected) refl
        | inr (out, f) ↦
            rw (doh_resolve, packed, valid, handle_dns_query, same, e, f, expected) refl
      ]
    ]
