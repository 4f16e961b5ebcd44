-- ===== src/Tests/Setup.antt =====
-- The configuration, the creation of the server, its loop, and the reconnecting agent.
use rtbh_panel.Common.{
  ℕ, suc, ◌⊎◌, ℕ_discrete, ◌<◌, ◌≡◌, ◌≢◌, refl, true, false, ◌==◌, none, some, [], ◌∷◌, str_eq,
  if◌then◌else◌, arith,
}
use rtbh_panel.Common.Lists.{any}
use rtbh_panel.Common.Results.{err}
use rtbh_panel.Net.Addr.{no_addr, ip4, ip6, is4}
use rtbh_panel.Net.Prefix.{p4, masked, discrete}
use rtbh_panel.PolicyStore.State
use rtbh_panel.Engine.Settings
use rtbh_panel.Config.Settings.{Config, Library, default_config}
use rtbh_panel.Config.Load.{
  ParseFlags, config_all, read_flags, load_config, parse_next_hop, validate_mode,
}
use rtbh_panel.Config.Environment.{
  apply_environment, parse_prefixes, parse_ranges, parse_asns, parse_numbers, split_csv,
  join_prefixes, join_asns,
}
use rtbh_panel.Config.Checks.{
  validate_common, validate_server, validate_agent, validate_local_address,
}
use rtbh_panel.Config.Sound.{IsServable, load_config-IsServable}
use rtbh_panel.Policy.{blocklist}
use rtbh_panel.Dashboard.Feeds.{FeedBackend, imports, serve_feeds, IsAllowed, serve_feeds-IsAllowed}
use rtbh_panel.Agent.Cursor
use rtbh_panel.Feed.Fetch.{Net}
use rtbh_panel.Feed.Open
use rtbh_panel.Server.Create.{Host, create_engine, new_server}
use rtbh_panel.Server.Accepted.{new_server_engine}

-- Texts for the values of the default configuration.
abbrev pub library : Library
library = record {
  parse_addr = λ t.
      if str_eq t "192.0.2.1"
      then some (ip4 0xc0000201)
      else if str_eq t "100::1"
      then some (ip6 1 "")
      else if str_eq t "127.0.0.1"
      then some (ip4 0x7f000001)
      else none;
  print_addr = λ a. elim a [ no_addr ↦ "invalid IP" | ip4 n ↦ "192.0.2.1" | ip6 n z ↦ "100::1" ];
  is_loopback = λ a. elim a [ no_addr ↦ false | ip4 n ↦ n == 0x7f000001 | ip6 n z ↦ false ];
  parse_prefix = λ t. if str_eq t "127.0.0.0/24" then some (p4 0x7f000000 24) else none;
  print_prefix = λ p. "127.0.0.0/24";
  parse_uint32 = λ t. if str_eq t "65000" then some 65000 else none;
  format_uint = λ n. "65000";
  atoi = λ t. none;
  parse_bool = λ t. none;
  parse_duration = λ t. none;
  trim_space = λ t. t;
  split_comma = λ t. t ∷ [];
  join_comma = λ l. elim l [ [] ↦ "" | t ∷ ts ↦ t ];
  split_host_port = λ t. some ("127.0.0.1", "8080");
}

abbrev pub no_flags : ParseFlags
no_flags = λ mode f. some (f, false)

-- The default configuration, with the router ID as the next hop.
abbrev loaded_config : Config
loaded_config = record default_config { rtbh_next_hop_v4 = ip4 0xc0000201 }

load_config-IsServable_example :
    IsServable library loaded_config
    × (is4 loaded_config.rtbh_next_hop_v4 ≡ true)
    × (is4 loaded_config.rtbh_next_hop_v6 ≡ false)
    × (0 < loaded_config.sync_max_message_bytes)
    × (0 < loaded_config.sync_max_in_flight)
unfolding load_config apply_environment read_flags parse_next_hop parse_prefixes parse_ranges
    parse_asns parse_numbers split_csv join_prefixes join_asns validate_mode validate_common
    validate_server validate_agent validate_local_address masked discrete any ℕ_discrete
load_config-IsServable_example =
    load_config-IsServable library (λ key. "") no_flags config_all loaded_config
      (λ e. absurd (ground arith)) refl

abbrev pub host : Host
host = record {
  parse_int32 = λ t. some (Settings.port 4179);
  has_suffix = λ text suffix. false;
  feeds_path = λ path. path;
  open_policies = λ path. err State.read;
  opens_sql = λ driver dsn. true;
  cursor_file = λ path. Cursor.missing;
  feeds_file = λ path. Open.missing;
  fresh_id = λ first. "feed-1";
  writes = λ first. true;
}

new_server_engine_example :
    new_server library host default_config ≢ err (create_engine Settings.zero_asn)
new_server_engine_example = new_server_engine library host default_config Settings.zero_asn

-- example.org is 8.8.8.8, which is public, and every other host is 127.0.0.1, which is not.
abbrev net : Net
net = record {
  classes = record {
    is_global_unicast = λ a. true;
    is_private = λ a. false;
    is_loopback = λ a. elim a [ no_addr ↦ false | ip4 n ↦ n == 0x7f000001 | ip6 n z ↦ false ];
    is_link_local_unicast = λ a. false;
  };
  trim_space = λ t. t;
  parse_url = λ t.
      if str_eq t "https://example.org"
      then some (record { scheme = "https"; hostname = "example.org"; has_user = false })
      else none;
  split_host_port = λ t. some (t, "443");
  lookup_net_ip = λ moment host.
      some ((if str_eq host "example.org" then ip4 0x08080808 else ip4 0x7f000001) ∷ []);
  dials = λ a p. true;
}

-- A backend that counts its calls.
abbrev counting : FeedBackend ℕ
counting = record {
  import_feed = λ list source expand applying n. (true, suc n);
  save_feed = λ feed n. (true, suc n);
  delete_feed = λ id n. (true, suc n);
  sync_feed = λ id n. (true, suc n);
}

serve_feeds-IsAllowed_example :
    ((serve_feeds counting net 0 true (imports blocklist "https://example.org" false true) 0).1 ≡ 0)
    ⊎ ((true ≡ true)
        × IsAllowed counting net 0 (imports blocklist "https://example.org" false true))
serve_feeds-IsAllowed_example =
    serve_feeds-IsAllowed counting net 0 true (imports blocklist "https://example.org" false true) 0
