-- ===== src/Examples/Reloads.antt =====
-- A configuration file that is broken at first.
use keenetic_dns.Prelude.{◌≡◌, refl, Option, some, [], ◌∷◌, ◌++◌, replicate, Bytes, arith}
use keenetic_dns.Types.{Outcome, returns, fails}
use keenetic_dns.Config.{Config, load_config, Watch, check_versions, set_defaults, normalize, init}
use keenetic_dns.Config.Reload.{updated_once}

abbrev embedded : Config
embedded = record {
  addr = b'a' ∷ [];
  http_addr = b'h' ∷ [];
  log_history_size = 2000;
  dns_query_history_size = 2000;
  agent_base_url = [];
  agent_timeout = 10;
  dns_provider = [];
  dns_provider_timeout = 20;
  dns_ttl_override = 60;
  reconcile_interval = 120;
  reconcile_timeout = 20;
  mdns = record { domains = []; addr = []; query_timeout = 500 };
  dump = record { file = []; interval = 600 };
  routing = record {
    rule = record { table = 1001; iif = []; priority = 1995 };
    dynamic = record { route_timeout = 3600; hosts = []; static_routes = [] };
  };
}

-- A file of one byte is one for the address; any other is broken.
abbrev decode : Bytes → Config → Outcome Config
decode [] c = fails
decode (b ∷ bs) c = returns (record c { addr = b ∷ [] })

abbrev loaded : Config
loaded = record embedded { addr = b'x' ∷ [] }

abbrev broken : Option Bytes
broken = some []

abbrev good : Option Bytes
good = some (b'x' ∷ [])

fails_first : load_config decode embedded broken ≡ fails
unfolding load_config
fails_first = refl

loads_later : load_config decode embedded good ≡ returns loaded
unfolding load_config init set_defaults normalize
loads_later = refl

abbrev watch : Watch
watch = record { mod_time = 100; updates = [] }

updated_once_example :
    check_versions decode embedded
      (replicate 3 (some 200, broken) ++ (some 200, good) ∷ replicate 5 (some 200, good))
      watch
    ≡ some (record { mod_time = 200; updates = [] ++ loaded ∷ [] })
updated_once_example =
    updated_once decode embedded 3 5 200 broken good loaded watch (omega arith) fails_first
      loads_later
