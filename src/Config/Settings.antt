-- ===== src/Config/Settings.antt =====
-- Config and its defaults, and the library functions on texts that it is read with.
use rtbh_panel.Common.{ℕ, ◌*◌, String, Bool, true, false, Option, List, [], ◌∷◌}
use rtbh_panel.Common.Results.{Attempt}
use rtbh_panel.Net.Addr.{Addr, no_addr, ip4, ip6}
use rtbh_panel.Net.Prefix.{Prefix, p4}
use rtbh_panel.Policy.{Time}

-- The counts are Go ints, and the durations and counts below 0 are 0 here: the validation only tests
-- whether they are below 1. A feed interval below 0, which Save replaces by an hour, is left out.
pub record Config : Type 0 where
  pub local_asn : ℕ
  pub router_id : Addr
  pub bgp_listen_address : String
  pub http_listen_address : String
  pub sync_listen_address : String
  pub sync_server_address : String
  pub listen_ranges : List Prefix
  pub allowed_asns : List ℕ
  pub max_sessions : ℕ
  pub sync_max_message_bytes : ℕ
  pub sync_max_in_flight : ℕ
  pub reconnect_min : Time
  pub reconnect_max : Time
  pub policy_file : String
  pub cursor_file : String
  pub dry_run : Bool
  pub shutdown_timeout : Time
  pub insecure_listen : Bool
  pub rtbh_next_hop_v4 : Addr
  pub rtbh_next_hop_v6 : Addr
  pub blocklist_feed : String
  pub whitelist_feed : String
  pub feed_interval : Time
  pub whitelist_expand_slash24 : Bool
  pub db_driver : String
  pub db_dsn : String
  pub api_token : String

abbrev pub millisecond : Time
millisecond = 1_000_000

-- DefaultConfig
abbrev pub default_config : Config
default_config = record {
  local_asn = 65000;
  router_id = ip4 0xc0000201;
  bgp_listen_address = "127.0.0.1:4179";
  http_listen_address = "127.0.0.1:8080";
  sync_listen_address = "127.0.0.1:17900";
  sync_server_address = "127.0.0.1:17900";
  listen_ranges = p4 0x7f000000 24 ∷ [];
  allowed_asns = [];
  max_sessions = 8;
  sync_max_message_bytes = 0x100000;
  sync_max_in_flight = 16;
  reconnect_min = 250 * millisecond;
  reconnect_max = 5000 * millisecond;
  policy_file = "";
  cursor_file = "";
  dry_run = true;
  shutdown_timeout = 5000 * millisecond;
  insecure_listen = false;
  rtbh_next_hop_v4 = no_addr;
  rtbh_next_hop_v6 = ip6 1 "";
  blocklist_feed = "";
  whitelist_feed = "";
  feed_interval = 0;
  whitelist_expand_slash24 = true;
  db_driver = "";
  db_dsn = "";
  api_token = "";
}

pub data ConfigError : Type 0 where
  bad_setting : String → ConfigError
  bad_flags unexpected_arguments bad_asn bad_router_id bad_next_hop bad_range bad_allowed_asn :
      ConfigError
  bad_limits no_policy_file bad_counts no_ipv4_or_range range_not_canonical zero_asn : ConfigError
  bad_timeout bad_address not_loopback bad_reconnect : ConfigError

abbrev pub Checked : Type 0 → Type 0
Checked A = Attempt ConfigError A

-- Functions of Go's library: of net/netip, strconv, strings, net and time. `atoi` and
-- `parse_duration` give 0 for a value below 0.
pub record Library : Type 0 where
  pub parse_addr : String → Option Addr
  pub print_addr : Addr → String
  pub is_loopback : Addr → Bool
  pub parse_prefix : String → Option Prefix
  pub print_prefix : Prefix → String
  pub parse_uint32 : String → Option ℕ
  pub format_uint : ℕ → String
  pub atoi : String → Option ℕ
  pub parse_bool : String → Option Bool
  pub parse_duration : String → Option Time
  pub trim_space : String → String
  pub split_comma : String → List String
  pub join_comma : List String → String
  pub split_host_port : String → Option (String × String)
