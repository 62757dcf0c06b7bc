-- ===== src/Config.antt =====
-- dns-server/internal/config.go: the routing configuration, which host goes through which interface,
-- and what is done to a configuration that was read.
pub mod Laws
pub mod Reload
use keenetic_dns.Prelude.{
  ℕ, ◌≡◌, Option, none, some, Bool, true, false, ◌||◌, List, [], ◌∷◌, ◌++◌, map, if◌then◌else◌,
  Bytes, bytes_eq, ◌=?◌, ltb, ◌>>=◌,
}
use keenetic_dns.GoMap.{Map}
use keenetic_dns.Text.{has_suffix, trim_left, trim_right}
use keenetic_dns.Types.{IPv4, Outcome, returns, fails, panics}

-- `RoutingRuleConfig`
pub record RoutingRule : Type 0 where
  pub table : ℕ
  pub iif : Bytes
  pub priority : ℕ

-- `RoutingDynamicConfig`: the part that can be changed while the server runs. A duration is a number
-- of nanoseconds.
pub record RoutingDynamic : Type 0 where
  pub route_timeout : ℕ
  pub hosts : Map Bytes (List Bytes)
  pub static_routes : Map Bytes (List IPv4)

-- `RoutingConfig`
pub record RoutingConfig : Type 0 where
  pub rule : RoutingRule
  pub dynamic : RoutingDynamic

-- `Hosts.LookupHost`
unfoldable pub hosts_lookup : Bytes → List Bytes → Bool
hosts_lookup host [] = false
hosts_lookup host (h ∷ hs) =
    let rest = hosts_lookup host hs in
    if host =? h || has_suffix host (b'.' ∷ h) then true else rest

-- `RoutingConfig.LookupHost`: the first interface in the order of the loop; the empty text is none.
unfoldable pub lookup_hosts : Bytes → Map Bytes (List Bytes) → Bytes
lookup_hosts host [] = []
lookup_hosts host ((iface, hosts) ∷ rest) =
    let later = lookup_hosts host rest in if hosts_lookup host hosts then iface else later

unfoldable pub lookup_host : Bytes → RoutingConfig → Bytes
lookup_host host c = lookup_hosts host c.dynamic.hosts

-- `MDNSConfig.normalize`: the domains between two dots.
unfoldable pub normalize_domain : Bytes → Bytes
normalize_domain d = b'.' ∷ trim_right b'.' (trim_left b'.' d) ++ b'.' ∷ []

unfoldable pub normalize : List Bytes → List Bytes
normalize domains = map normalize_domain domains

-- `Config.setDefaults`: the HTTP address, given the DNS address.
unfoldable pub set_defaults : Bytes → Bytes → Bytes
set_defaults addr [] = addr
set_defaults addr (c ∷ http_addr) = c ∷ http_addr

-- `MDNSConfig` and `DumpConfig`
pub record MdnsConfig : Type 0 where
  pub domains : List Bytes
  pub addr : Bytes
  pub query_timeout : ℕ

pub record DumpConfig : Type 0 where
  pub file : Bytes
  pub interval : ℕ

-- `Config`
pub record Config : Type 0 where
  pub addr : Bytes
  pub http_addr : Bytes
  pub log_history_size : ℕ
  pub dns_query_history_size : ℕ
  pub agent_base_url : Bytes
  pub agent_timeout : ℕ
  pub dns_provider : Bytes
  pub dns_provider_timeout : ℕ
  pub dns_ttl_override : ℕ
  pub reconcile_interval : ℕ
  pub reconcile_timeout : ℕ
  pub mdns : MdnsConfig
  pub dump : DumpConfig
  pub routing : RoutingConfig

-- `Config.init`
unfoldable pub init : Config → Config
init c = record c {
  http_addr = set_defaults c.addr c.http_addr;
  mdns = record c.mdns { domains = normalize c.mdns.domains };
}

-- `listenConfigUpdate` of dns-server/cmd/main.go: the time of the last version that was loaded, and
-- the configurations that `onUpdate` was called with.
pub record Watch : Type 0 where
  pub mod_time : ℕ
  pub updates : List Config

-- A version of the file: its time, if it is there, and its text, if it can be opened.
abbrev pub Version : Type 0
Version = Option ℕ × Option Bytes

-- The time of a file that is not there is the zero time.
unfoldable pub start_watch : Option ℕ → Watch
start_watch none = record { mod_time = 0; updates = [] }
start_watch (some t) = record { mod_time = t; updates = [] }

-- The YAML library's part: what a file's text makes of a configuration, and the configuration in the
-- embedded default file. A static address that is none makes `UnmarshalText` panic.
module _ (decode : Bytes → Config → Outcome Config) (embedded : Config) where
  -- `DefaultConfig`
  unfoldable pub default_config : Config
  default_config = init embedded

  -- `LoadConfig`, for the text of the file, if it can be opened.
  unfoldable pub load_config : Option Bytes → Outcome Config
  load_config none = fails
  load_config (some content) = elim (decode content embedded) [
    | fails ↦ fails
    | panics ↦ panics
    | returns cfg ↦ returns (init cfg)
  ]

  -- What a tick of the clock does; `none` is a panic.
  unfoldable pub check_version : Version → Watch → Option Watch
  check_version (stat, file) w = elim stat [
    | none ↦ some w
    | some t ↦
        if ltb w.mod_time t
        then elim (load_config file) [
          | fails ↦ some w
          | panics ↦ none
          | returns cfg ↦ some (record { mod_time = t; updates = w.updates ++ cfg ∷ [] })
        ]
        else some w
  ]

  unfoldable pub check_versions : List Version → Watch → Option Watch
  check_versions [] w = some w
  check_versions (v ∷ vs) w = elim (check_version v w) [
    | none ↦ none
    | some w' ↦ check_versions vs w'
  ]
