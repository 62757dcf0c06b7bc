-- ===== src/Examples/Addresses.antt =====
-- The examples for dns-server/internal/types.go.
use keenetic_dns.Prelude.{◌≡◌, Option, none, arith, Bytes}
use keenetic_dns.Types.{IPv4, returns, parse_ipv4, to_string}
use keenetic_dns.Types.AddressText.{IsAddress, parse_ipv4-to_string}

-- 10.0.7.0/24
abbrev pub network : IPv4
network = record { a = 10; b = 0; c = 7; d = 0; prefix = 24 }

-- A reader of the colon notation that accepts nothing.
abbrev no_ipv6 : Bytes → Option Bytes
no_ipv6 s = none

pub network-IsAddress : IsAddress network
network-IsAddress = record {
  a_in = omega arith;
  b_in = omega arith;
  c_in = omega arith;
  d_in = omega arith;
  prefix_in = omega arith;
}

parse_ipv4-to_string_example : parse_ipv4 no_ipv6 (to_string network) ≡ returns network
parse_ipv4-to_string_example = parse_ipv4-to_string no_ipv6 network network-IsAddress
