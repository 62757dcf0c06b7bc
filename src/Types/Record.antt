-- ===== src/Types/Record.antt =====
-- `DNSRecord` of dns-server/internal/types.go. A time is a number of nanoseconds since the zero time
-- of Go, which is 0; a duration is a number of nanoseconds.
use keenetic_dns.Prelude.{ℕ, ◌+◌, Bool, false, ltb, ◌==◌, if◌then◌else◌, Bytes}
use keenetic_dns.Types.{IPv4}

-- `DNSRecordKey` is embedded in `DNSRecord`.
pub record DnsRecord : Type 0 where
  pub ip : IPv4
  pub domain : Bytes
  pub expires : ℕ

-- `DNSRecord.Expired` at the time `now`: a record with the zero time does not expire.
unfoldable pub expired : ℕ → ℕ → DnsRecord → Bool
expired now extra_ttl r = if r.expires == 0 then false else ltb (r.expires + extra_ttl) now
