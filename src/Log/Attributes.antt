-- ===== src/Log/Attributes.antt =====
-- The records of a route in a log entry: each under a key of its own.
use keenetic_dns.Prelude.{
  ℕ, zero, suc, ◌+◌, ◌^◌, ◌<◌, ◌≡◌, refl, sym, ◌∙◌, subst, some, some_injective, false, List, [],
  ◌∷◌, ◌++◌, length, get_elem?, ◌=?◌, Bool-cases, inl, inr, Bytes, bytes_eq, bytes_beq_iff, ℤ,
  arith,
}
use keenetic_dns.GoMap
use keenetic_dns.GoMap.{Map}
use keenetic_dns.GoMap.Laws.{get-put}
use keenetic_dns.Text.Decimal.{itoa_injective, itoa_nonempty}
use keenetic_dns.Types.{to_string}
use keenetic_dns.Types.Record.{DnsRecord}
use keenetic_dns.Types.Ttl.{ttl}
use keenetic_dns.Log.{add_attr, add_attrs}
use keenetic_dns.Log.Values.{
  number, domain_key, ttl_key, addr_key, iface_key, record_attrs, ip_route_dns_value,
}
use keenetic_dns.Routes.Listing.{IpRouteDns}

number_injective : (i j : ℕ) → i + 1 < 10 ^ 20 → j + 1 < 10 ^ 20 → number i ≡ number j → i ≡ j
number_injective zero zero h k e = refl
number_injective zero (suc j) h k e =
    absurd (omega (arith, itoa_nonempty (suc j + 1) (omega arith) k e))
number_injective (suc i) zero h k e =
    absurd (omega (arith, itoa_nonempty (suc i + 1) (omega arith) h (sym e)))
number_injective (suc i) (suc j) h k e = omega (arith, itoa_injective (suc i + 1) (suc j + 1) h k e)

other_number : (i j : ℕ) → i < j → j + 1 < 10 ^ 20 → (number j =? number i) ≡ false
other_number i j h k = elim (Bool-cases (number j =? number i)) [
  | inr e ↦ e
  | inl e ↦ absurd (
      omega
        (arith, number_injective j i k (omega arith) ((bytes_beq_iff (number j) (number i)).0 e)))
]

module _ (show_duration : ℤ → Bytes) (now : ℕ) where
  -- The attributes of a record with a number.
  abbrev Shows : ℕ → DnsRecord → Map Bytes Bytes → Type 0
  Shows n r m =
      (GoMap.get (domain_key ++ number n) m ≡ some r.domain)
      × (GoMap.get (ttl_key ++ number n) m ≡ some (show_duration (ttl now r)))

  -- The map with the two attributes of a record.
  abbrev with_record : ℕ → DnsRecord → Map Bytes Bytes → Map Bytes Bytes
  with_record j r m =
      GoMap.put (ttl_key ++ number j) (show_duration (ttl now r))
        (GoMap.put (domain_key ++ number j) r.domain m)

  with_record-Shows : (j : ℕ) (r : DnsRecord) (m : Map Bytes Bytes) → Shows j r (with_record j r m)
  with_record-Shows j r m =
      let self = (bytes_beq_iff (number j) (number j)).1 refl in
      let printed = show_duration (ttl now r) in
      let m' = GoMap.put (domain_key ++ number j) r.domain m in
      (
        rw
            (
              get-put (ttl_key ++ number j) (domain_key ++ number j) printed m',
              get-put (domain_key ++ number j) (domain_key ++ number j) r.domain m,
              self,
            )
            refl,
        rw (get-put (ttl_key ++ number j) (ttl_key ++ number j) printed m', self) refl,
      )

  -- The later records leave the attributes of the earlier ones.
  get-later :
      (i j : ℕ) (rs : List DnsRecord) (m : Map Bytes Bytes)
      → i < j
      → j + length rs < 10 ^ 20
      → (GoMap.get (domain_key ++ number i) (add_attrs (record_attrs show_duration now j rs) m)
          ≡ GoMap.get (domain_key ++ number i) m)
        × (GoMap.get (ttl_key ++ number i) (add_attrs (record_attrs show_duration now j rs) m)
            ≡ GoMap.get (ttl_key ++ number i) m)
  unfolding add_attrs record_attrs add_attr
  get-later i j [] m h small = (refl, refl)
  get-later i j (r ∷ rs) m h small =
      let (a, b) = get-later i (suc j) rs _ (omega arith) (omega arith) in
      let other = other_number i j h (omega arith) in
      (
        a
            ∙ rw
                (
                  get-put (ttl_key ++ number j) (domain_key ++ number i) (show_duration (ttl now r))
                      (GoMap.put (domain_key ++ number j) r.domain m),
                  get-put (domain_key ++ number j) (domain_key ++ number i) r.domain m,
                  other,
                )
                refl,
        b
            ∙ rw
                (
                  get-put (ttl_key ++ number j) (ttl_key ++ number i) (show_duration (ttl now r))
                      (GoMap.put (domain_key ++ number j) r.domain m),
                  get-put (domain_key ++ number j) (ttl_key ++ number i) r.domain m,
                  other,
                )
                refl,
      )

  get-record_attrs :
      (i j : ℕ) (rs : List DnsRecord) (r : DnsRecord) (m : Map Bytes Bytes)
      → get_elem? rs i ≡ some r
      → j + length rs < 10 ^ 20
      → Shows (i + j) r (add_attrs (record_attrs show_duration now j rs) m)
  unfolding add_attrs record_attrs add_attr
  get-record_attrs i j [] r m e small = cc
  get-record_attrs zero j (x ∷ rs) r m e small =
      let (a, b) = get-later j (suc j) rs (with_record j x m) (omega arith) (omega arith) in
      let (c, d) = with_record-Shows j x m in
      subst
        (λ n. Shows n r (add_attrs (record_attrs show_duration now (suc j) rs) (with_record j x m)))
        {x = j} (omega arith)
        (subst
          (λ z.
            Shows j z (add_attrs (record_attrs show_duration now (suc j) rs) (with_record j x m)))
          (some_injective e) (a ∙ c, b ∙ d))
  get-record_attrs (suc i) j (x ∷ rs) r m e small =
      subst
        (λ n. Shows n r (add_attrs (record_attrs show_duration now (suc j) rs) (with_record j x m)))
        {x = i + suc j} (omega arith)
        (get-record_attrs i (suc j) rs r (with_record j x m) e (omega arith))

  -- In the entry of a log record with a route, the domain and the TTL of every record of the route
  -- stand under keys of their own, domain and ttl for the first and numbered from the second on, for
  -- fewer than 10 ^ 20 records.
  route_attrs_lem :
      (key : Bytes) (route : IpRouteDns) (m : Map Bytes Bytes) (i : ℕ) (r : DnsRecord)
      → length route.dns_records < 10 ^ 20
      → get_elem? route.dns_records i ≡ some r
      → let entry = add_attr key (ip_route_dns_value show_duration now route) m in Shows i r entry
  unfolding add_attr add_attrs ip_route_dns_value
  route_attrs_lem key route m i r small e =
      let m' =
        GoMap.put iface_key route.route.iface (GoMap.put addr_key (to_string route.route.addr) m) in
      subst (λ n. Shows n r (add_attrs (record_attrs show_duration now 0 route.dns_records) m'))
        {x = i + 0} (omega arith) (get-record_attrs i 0 route.dns_records r m' e (omega arith))
