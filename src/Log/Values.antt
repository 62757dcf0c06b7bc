-- ===== src/Log/Values.antt =====
-- The `LogValue` methods of dns-server/internal/types.go and agent/rpc/v1/agent.pb.custom.go: the
-- attributes that a log record shows of a value. The print of a duration is a library's.
use keenetic_dns.Prelude.{ℕ, zero, suc, ◌+◌, List, [], ◌∷◌, ◌++◌, ℤ, Bytes}
use keenetic_dns.Text.{itoa}
use keenetic_dns.Log.{Attrs, Value, text, group, no_attrs, attr}
use keenetic_dns.Types.{to_string}
use keenetic_dns.Types.Record.{DnsRecord}
use keenetic_dns.Types.Ttl.{ttl}
use keenetic_dns.Config.{RoutingRule}
use keenetic_dns.Routes.{IpRoute, AgentRoute}
use keenetic_dns.Routes.Listing.{IpRouteDns}

abbrev pub domain_key : Bytes
domain_key = b'd' ∷ b'o' ∷ b'm' ∷ b'a' ∷ b'i' ∷ b'n' ∷ []

abbrev pub ttl_key : Bytes
ttl_key = b't' ∷ b't' ∷ b'l' ∷ []

abbrev pub addr_key : Bytes
addr_key = b'a' ∷ b'd' ∷ b'd' ∷ b'r' ∷ []

abbrev pub iface_key : Bytes
iface_key = b'i' ∷ b'f' ∷ b'a' ∷ b'c' ∷ b'e' ∷ []

abbrev table_key : Bytes
table_key = b't' ∷ b'a' ∷ b'b' ∷ b'l' ∷ b'e' ∷ []

abbrev iif_key : Bytes
iif_key = b'i' ∷ b'i' ∷ b'f' ∷ []

abbrev priority_key : Bytes
priority_key = b'p' ∷ b'r' ∷ b'i' ∷ b'o' ∷ b'r' ∷ b'i' ∷ b't' ∷ b'y' ∷ []

-- What follows the key of the record at an index: the first has no number.
abbrev pub number : ℕ → Bytes
number zero = []
number (suc i) = itoa (suc i + 1)

module _ (show_duration : ℤ → Bytes) (now : ℕ) where
  -- `DNSRecord.LogValue`
  unfoldable pub dns_record_value : DnsRecord → Value
  dns_record_value r = group (
      attr domain_key (text r.domain) (
        attr (b'i' ∷ b'p' ∷ []) (text (to_string r.ip))
          (attr ttl_key (text (show_duration (ttl now r))) no_attrs)))

  -- The loop of `IPRouteDNS.LogValue`, from the index `i` on.
  unfoldable pub record_attrs : ℕ → List DnsRecord → Attrs
  record_attrs i [] = no_attrs
  record_attrs i (r ∷ rs) =
      attr (domain_key ++ number i) (text r.domain)
        (attr (ttl_key ++ number i) (text (show_duration (ttl now r))) (record_attrs (suc i) rs))

  unfoldable pub ip_route_dns_value : IpRouteDns → Value
  ip_route_dns_value r = group (
      attr addr_key (text (to_string r.route.addr))
        (attr iface_key (text r.route.iface) (record_attrs 0 r.dns_records)))

-- `IPRoute.LogValue`
unfoldable pub ip_route_value : IpRoute → Value
ip_route_value r =
    group (attr addr_key (text (to_string r.addr)) (attr iface_key (text r.iface) no_attrs))

-- `IPRoutingRule.LogValue`
unfoldable pub ip_routing_rule_value : RoutingRule → Value
ip_routing_rule_value r = group (
    attr table_key (text (itoa r.table))
      (attr iif_key (text r.iif) (attr priority_key (text (itoa r.priority)) no_attrs)))

-- `Rule.LogValue` and `Route.LogValue` of the agent's messages
unfoldable pub rule_value : RoutingRule → Value
rule_value r = group (
    attr iif_key (text r.iif)
      (attr table_key (text (itoa r.table)) (attr priority_key (text (itoa r.priority)) no_attrs)))

unfoldable pub route_value : AgentRoute → Value
route_value r = group (
    attr table_key (text (itoa r.table))
      (attr iface_key (text r.iface) (attr addr_key (text r.address) no_attrs)))
