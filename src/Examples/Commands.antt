-- ===== src/Examples/Commands.antt =====
-- The agent with an `ip` command that prints a fixed text.
use keenetic_dns.Prelude.{
  ◌≡◌, refl, Option, none, List, [], ◌∷◌, All, here, there, Bytes, arith, bytes_eq,
}
use keenetic_dns.GoMap
use keenetic_dns.Util.Set.{Set}
use keenetic_dns.Text.{is_space}
use keenetic_dns.Types.{IPv4, panics}
use keenetic_dns.Config.{RoutingRule}
use keenetic_dns.Routes.{route_eq, load_routes}
use keenetic_dns.AgentService.{Output, agent_of}
use keenetic_dns.AgentService.Tables.{Shown, IsShown, print_routes}
use keenetic_dns.AgentService.Rules
use keenetic_dns.AgentService.Server.{Known, default_word, default_route_panics}

abbrev prints : Bytes → List Bytes → Output
prints text args = record { stdout = text; error = none }

abbrev no_ipv6 : Bytes → Option Bytes
no_ipv6 s = none

abbrev br0 : Bytes
br0 = b'b' ∷ b'r' ∷ b'0' ∷ []

abbrev host : IPv4
host = record { a = 209; b = 85; c = 233; d = 100; prefix = 32 }

abbrev net : IPv4
net = record { a = 10; b = 0; c = 0; d = 0; prefix = 8 }

abbrev known : List Known
known = (host, br0) ∷ (net, br0) ∷ []

abbrev with_default : List Shown
with_default = (b'1' ∷ b'.' ∷ b'1' ∷ [], br0) ∷ (default_word, br0) ∷ []

with_default-IsShown : All IsShown with_default
unfolding is_space
with_default-IsShown = (
  record {
    address_in = (refl, (refl, (refl, tt)));
    address_some = refl;
    iface_in = (refl, (refl, (refl, tt)));
  },
  (
    record {
      address_in = (refl, (refl, (refl, (refl, (refl, (refl, (refl, tt)))))));
      address_some = refl;
      iface_in = (refl, (refl, (refl, tt)));
    },
    tt,
  ),
)

default_route_panics_example :
    load_routes (agent_of (prints (print_routes with_default))) no_ipv6 1000 ≡ panics
default_route_panics_example =
    default_route_panics (prints (print_routes with_default)) no_ipv6 1000 with_default br0
      (omega arith) with_default-IsShown (there (here refl)) refl

-- `0: from all` and `2000: from br0`
abbrev rules : List Rules.Shown
rules =
    record { priority = b'0' ∷ []; first = b'f'; between = b'r' ∷ []; last = b'm' }
    ∷ record { priority = b'2' ∷ b'0' ∷ []; first = b'b'; between = b'r' ∷ []; last = b'0' }
    ∷ []

rules-IsShown : All Rules.IsShown rules
unfolding is_space
rules-IsShown = (
  record {
    priority_in = (refl, tt);
    priority_some = refl;
    priority_free = (refl, tt);
    first_in = refl;
    last_in = refl;
    text_free = (refl, (refl, (refl, tt)));
    text_line = (refl, (refl, (refl, tt)));
  },
  (
    record {
      priority_in = (refl, (refl, tt));
      priority_some = refl;
      priority_free = (refl, (refl, tt));
      first_in = refl;
      last_in = refl;
      text_free = (refl, (refl, (refl, tt)));
      text_line = (refl, (refl, (refl, tt)));
    },
    tt,
  ),
)

abbrev br0_rule : RoutingRule
br0_rule = record { table = 1000; iif = br0; priority = 2000 }
