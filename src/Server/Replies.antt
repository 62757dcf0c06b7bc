-- ===== src/Server/Replies.antt =====
-- What the clients of the server get.
use keenetic_dns.Prelude.{
  ℕ, ◌^◌, ◌/◌, ◌%◌, ◌≡◌, ◌↔◌, refl, sym, ap, ◌∙◌, Option, none, some, Bool, true, false, [], ◌∷◌,
  map, length, ltb, ◌==◌, if◌then◌else◌, Bytes, bytes_eq, ◌=?◌, Bool-cases, Option-cases, inl, inr,
  arith,
}
use keenetic_dns.Text.{itoa}
use keenetic_dns.Message.{Msg, type_a, has_single_question}
use keenetic_dns.Cache
use keenetic_dns.Cache.{DnsCache, second}
use keenetic_dns.Resolver.{
  first_question, cached_resolve, override_ttl, ttl_overriding_resolve, new_ttl_overriding,
}
use keenetic_dns.Server.{
  resolver_chain, server_failure, handle_udp, Request, Response, fails_with, dns_message_media_type,
  respond, wrap_handler, handle_dns_query,
}

-- The resolver answers with the id of the query.
abbrev pub KeepsId : (Msg → Option Msg) → Type 0
KeepsId inner = (msg resp : Msg) → inner msg ≡ some resp → resp.id ≡ msg.id

abbrev id_of : Option Msg → ℕ
id_of none = 0
id_of (some m) = m.id

cached_resolve-KeepsId :
    (inner : Msg → Option Msg) (now now' : ℕ) (c : DnsCache)
    → KeepsId inner
    → KeepsId (λ m. (cached_resolve inner now now' m c).0)
unfolding cached_resolve
cached_resolve-KeepsId inner now now' c keeps msg resp h =
    elim (Bool-cases (has_single_question msg (type_a ∷ []))) [
      | inr n ↦ keeps msg resp (rw (cached_resolve, n) at h)
      | inl single ↦ elim (Option-cases (first_question msg)) [
        | inl e ↦ absurd (let n : none ≡ some resp = rw (cached_resolve, single, e) at h in cc)
        | inr (q, e) ↦ elim (Option-cases (Cache.get now q c)) [
          | inr (hit, g) ↦
              let same : some (record hit { id = msg.id }) ≡ some resp =
                rw (cached_resolve, single, e, g) at h in
              sym (ap id_of same)
          | inl miss ↦ elim (Option-cases (inner msg)) [
            | inl f ↦
                absurd
                  (let n : none ≡ some resp = rw (cached_resolve, single, e, miss, f) at h in cc)
            | inr (r, f) ↦
                let same : some r ≡ some resp = rw (cached_resolve, single, e, miss, f) at h in
                keeps msg resp (f ∙ same)
          ]
        ]
      ]
    ]

override_keeps :
    (b c : Bool) (ttl : ℕ) (r : Msg)
    → id_of (
        if b
        then (if c then some (record r { answer = map (override_ttl ttl) r.answer }) else some r)
        else some r)
      ≡ r.id
override_keeps true true ttl r = refl
override_keeps true false ttl r = refl
override_keeps false c ttl r = refl

new_ttl_overriding-KeepsId :
    (inner : Msg → Option Msg) (ttl : ℕ) → KeepsId inner → KeepsId (new_ttl_overriding inner ttl)
unfolding new_ttl_overriding ttl_overriding_resolve
new_ttl_overriding-KeepsId inner ttl keeps msg resp h = elim (Bool-cases (ttl == 0)) [
  | inl z ↦ keeps msg resp (rw (new_ttl_overriding, z) at h)
  | inr nz ↦ elim (Option-cases (inner msg)) [
    | inl e ↦ absurd (
        let n : none ≡ some resp = rw (new_ttl_overriding, nz, ttl_overriding_resolve, e) at h in
        cc)
    | inr (r, e) ↦
        sym (ap id_of (rw (new_ttl_overriding, nz, ttl_overriding_resolve, e) at h))
        ∙ override_keeps (has_single_question msg (type_a ∷ [])) (ltb 0 (ttl / second % 2 ^ 32))
            (ttl / second % 2 ^ 32) r
        ∙ keeps msg r e
  ]
]

-- With a next resolver that answers with the id of the query, and an error message that has it, every
-- message that the UDP server writes has the id of the query it answers: from the cache, from the
-- next resolver, or for a query that failed.
pub handle_udp_id :
    (set_rcode : Msg → ℕ → Msg) (inner : Msg → Option Msg) (ttl_override now now' : ℕ)
    (c : DnsCache) (req : Msg)
    → ((m : Msg) (code : ℕ) → (set_rcode m code).id ≡ m.id)
    → KeepsId inner
    → (handle_udp set_rcode (λ m. (resolver_chain inner ttl_override now now' m c).0) req).id
      ≡ req.id
unfolding handle_udp resolver_chain
handle_udp_id set_rcode inner ttl_override now now' c req error_id keeps =
    let chain = new_ttl_overriding (λ m. (cached_resolve inner now now' m c).0) ttl_override in
    elim (Option-cases (chain req)) [
      | inl e ↦ rw (handle_udp, e) (error_id req server_failure)
      | inr (resp, e) ↦
          rw (handle_udp, e)
            (new_ttl_overriding-KeepsId (λ m. (cached_resolve inner now now' m c).0) ttl_override
              (cached_resolve-KeepsId inner now now' c keeps) req resp e)
    ]

abbrev pub ok_response : Bytes → Response
ok_response bytes = record {
  status_code = 200;
  content_type = dns_message_media_type;
  content_length = itoa (length bytes);
  body = bytes;
}

module _ (unpack : Bytes → Option Msg) (pack : Msg → Option Bytes)
    (resolve : Msg → Option Msg) where
  -- The request is one for a message and has a query, which is answered with these bytes.
  pub record Answered (req : Request) (bytes : Bytes) : Type 0 where
    pub content_type_ok : (req.content_type =? dns_message_media_type) ≡ true
    pub accept_ok : (req.accept =? dns_message_media_type) ≡ true
    pub text : Bytes
    pub query : Msg
    pub reply : Msg
    pub text_read : req.body ≡ some text
    pub unpacked : unpack text ≡ some query
    pub answered : resolve query ≡ some reply
    pub packed : pack reply ≡ some bytes

  refused :
      (req : Request) (status : ℕ)
      → (wrap_handler (handle_dns_query unpack pack resolve) req).status_code ≡ 200
      → handle_dns_query unpack pack resolve req ≡ fails_with status
      → status ≡ 200
  unfolding wrap_handler respond
  refused req status h e = ap (λ r. r.status_code) (sym (ap respond e)) ∙ h

  from_ok :
      (req : Request)
      → (wrap_handler (handle_dns_query unpack pack resolve) req).status_code ≡ 200
      → (bytes : Bytes) × Answered req bytes
  unfolding handle_dns_query
  from_ok req h = elim (Bool-cases (req.content_type =? dns_message_media_type)) [
    | inr ct ↦
        absurd (let n = refused req 400 h (rw (handle_dns_query, ct) refl) in omega (arith, n))
    | inl ct ↦ elim (Bool-cases (req.accept =? dns_message_media_type)) [
      | inr ac ↦
          absurd
            (let n = refused req 400 h (rw (handle_dns_query, ct, ac) refl) in omega (arith, n))
      | inl ac ↦ elim (Option-cases req.body) [
        | inl b ↦
            absurd (
              let n = refused req 500 h (rw (handle_dns_query, ct, ac, b) refl) in omega (arith, n))
        | inr (text, b) ↦ elim (Option-cases (unpack text)) [
          | inl u ↦ absurd (
              let n = refused req 400 h (rw (handle_dns_query, ct, ac, b, u) refl) in
              omega (arith, n))
          | inr (query, u) ↦ elim (Option-cases (resolve query)) [
            | inl a ↦ absurd (
                let n = refused req 500 h (rw (handle_dns_query, ct, ac, b, u, a) refl) in
                omega (arith, n))
            | inr (reply, a) ↦ elim (Option-cases (pack reply)) [
              | inl p ↦ absurd (
                  let n = refused req 500 h (rw (handle_dns_query, ct, ac, b, u, a, p) refl) in
                  omega (arith, n))
              | inr (sent, p) ↦ (
                sent,
                record {
                  content_type_ok = ct;
                  accept_ok = ac;
                  text = text;
                  query = query;
                  reply = reply;
                  text_read = b;
                  unpacked = u;
                  answered = a;
                  packed = p;
                },
              )
            ]
          ]
        ]
      ]
    ]
  ]

  to_ok :
      (req : Request) (bytes : Bytes)
      → Answered req bytes
      → wrap_handler (handle_dns_query unpack pack resolve) req ≡ ok_response bytes
  unfolding handle_dns_query wrap_handler respond
  to_ok req bytes v =
      rw
        (
          wrap_handler, handle_dns_query, v.content_type_ok, v.accept_ok, v.text_read, v.unpacked,
          v.answered, v.packed,
        )
        refl

  -- A query over HTTP gets a response with the status 200 exactly if its headers are those of a DNS
  -- message and its body is read, unpacked, resolved and the reply packed; the response is then the
  -- packed reply with its length.
  pub handle_dns_query_iff :
      (req : Request)
      → (((wrap_handler (handle_dns_query unpack pack resolve) req).status_code ≡ 200)
          ↔ ((bytes : Bytes) × Answered req bytes))
        × ((bytes : Bytes)
            → Answered req bytes
            → wrap_handler (handle_dns_query unpack pack resolve) req ≡ ok_response bytes)
  handle_dns_query_iff req =
      ((from_ok req, λ (bytes, v). ap (λ r. r.status_code) (to_ok req bytes v)), to_ok req)
