-- ===== src/Examples/Listings.antt =====
-- A route with a record of its address.
use keenetic_dns.Prelude.{◌≡◌, ◌↔◌, false, [], ◌∷◌, In}
use keenetic_dns.Types.Record.{DnsRecord, expired}
use keenetic_dns.Store
use keenetic_dns.Store.{new_dns_store}
use keenetic_dns.Store.Invariant.{new-Sound, add-Sound}
use keenetic_dns.Routes.{IpRoute, Controller}
use keenetic_dns.Routes.Listing.{records_of, records_of_iff}
use keenetic_dns.Examples.Routing.{host, controller}

abbrev remembered : DnsRecord
remembered = record { ip = host 9; domain = b'a' ∷ []; expires = 500 }

abbrev routed : Controller
routed = record controller { store = Store.add remembered new_dns_store }

abbrev route : IpRoute
route = record { table = 100; iface = b't' ∷ []; addr = host 9 }

records_of_iff_example : In remembered (records_of 400 routed route) ↔ (
    (remembered.ip ≡ route.addr)
    × In remembered (Store.records routed.store)
    × (expired 400 routed.cfg.dynamic.route_timeout remembered ≡ false))
records_of_iff_example =
    records_of_iff 400 routed route remembered (add-Sound remembered new_dns_store new-Sound)
