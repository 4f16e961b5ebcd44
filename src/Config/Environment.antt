-- ===== src/Config/Environment.antt =====
-- applyEnvironment, and the comma-separated lists of prefixes and numbers.
use rtbh_panel.Common.{
  ℕ, String, ◌==◌, Option, none, some, List, [], ◌∷◌, map, if◌then◌else◌, str_eq, ite,
}
use rtbh_panel.Common.Results.{ok, ◌>>=◌, require}
use rtbh_panel.Net.Prefix.{Prefix, masked, discrete}
use rtbh_panel.Config.Settings.{Config, Library, Checked, bad_setting, bad_range, bad_allowed_asn}

module _ (lib : Library) where
  -- splitCSV
  unfoldable pub split_csv : String → List String
  split_csv raw =
      if str_eq (lib.trim_space raw) "" then [] else map lib.trim_space (lib.split_comma raw)

  abbrev canonical_range : String → Option Prefix
  canonical_range part = elim (lib.parse_prefix part) [
    | none ↦ none
    | some p ↦ ite (discrete p (masked p)) (some p) none
  ]

  -- the loop of parsePrefixes
  unfoldable pub parse_ranges : List String → Checked (List Prefix)
  parse_ranges [] = ok []
  parse_ranges (part ∷ parts) = do
    p ← require bad_range (canonical_range part)
    ps ← parse_ranges parts
    ok (p ∷ ps)

  unfoldable pub parse_prefixes : String → Checked (List Prefix)
  parse_prefixes raw = parse_ranges (split_csv raw)

  abbrev nonzero : Option ℕ → Option ℕ
  nonzero none = none
  nonzero (some n) = if n == 0 then none else some n

  -- the loop of parseASNs
  unfoldable pub parse_numbers : List String → Checked (List ℕ)
  parse_numbers [] = ok []
  parse_numbers (part ∷ parts) = do
    n ← require bad_allowed_asn (nonzero (lib.parse_uint32 part))
    ns ← parse_numbers parts
    ok (n ∷ ns)

  unfoldable pub parse_asns : String → Checked (List ℕ)
  parse_asns raw = parse_numbers (split_csv raw)

  unfoldable pub join_prefixes : List Prefix → String
  join_prefixes prefixes = lib.join_comma (map lib.print_prefix prefixes)

  unfoldable pub join_asns : List ℕ → String
  join_asns asns = lib.join_comma (map lib.format_uint asns)

  module _ (getenv : String → String) where
    -- applyStringEnv: the new value of its target
    abbrev pub string_env : String → String → String
    string_env key target = if str_eq (getenv key) "" then target else getenv key

    -- A variable that is not set leaves the fallback; one that is set is parsed. envInt, envUint32,
    -- envBool and envDuration have this form, and so have the addresses.
    abbrev pub parsed_env : {A : Type 0} → (String → Option A) → String → A → Checked A
    parsed_env parse key fallback =
        if str_eq (getenv key) ""
        then ok fallback
        else require (bad_setting key) (parse (getenv key))

    abbrev pub list_env : {A : Type 0} → (String → Checked A) → String → A → Checked A
    list_env parse key fallback = if str_eq (getenv key) "" then ok fallback else parse (getenv key)

    unfoldable pub apply_environment : Config → Checked Config
    apply_environment c = do
      local_asn ← parsed_env lib.parse_uint32 "RTBH_LOCAL_ASN" c.local_asn
      router_id ← parsed_env lib.parse_addr "RTBH_ROUTER_ID" c.router_id
      listen_ranges ← list_env parse_prefixes "RTBH_LISTEN_RANGES" c.listen_ranges
      allowed_asns ← list_env parse_asns "RTBH_ALLOWED_ASNS" c.allowed_asns
      max_sessions ← parsed_env lib.atoi "RTBH_MAX_SESSIONS" c.max_sessions
      max_bytes ← parsed_env lib.atoi "RTBH_MAX_MESSAGE_BYTES" c.sync_max_message_bytes
      in_flight ← parsed_env lib.atoi "RTBH_MAX_IN_FLIGHT" c.sync_max_in_flight
      reconnect_min ← parsed_env lib.parse_duration "RTBH_RECONNECT_MIN" c.reconnect_min
      reconnect_max ← parsed_env lib.parse_duration "RTBH_RECONNECT_MAX" c.reconnect_max
      dry_run ← parsed_env lib.parse_bool "RTBH_DRY_RUN" c.dry_run
      insecure ← parsed_env lib.parse_bool "RTBH_INSECURE_LISTEN" c.insecure_listen
      feed_interval ← parsed_env lib.parse_duration "RTBH_FEED_INTERVAL" c.feed_interval
      expand ← parsed_env lib.parse_bool "RTBH_WHITELIST_EXPAND_SLASH24" c.whitelist_expand_slash24
      next_hop_v4 ← parsed_env lib.parse_addr "RTBH_NEXT_HOP_V4" c.rtbh_next_hop_v4
      next_hop_v6 ← parsed_env lib.parse_addr "RTBH_NEXT_HOP_V6" c.rtbh_next_hop_v6
      shutdown ← parsed_env lib.parse_duration "RTBH_SHUTDOWN_TIMEOUT" c.shutdown_timeout
      ok (record {
        local_asn = local_asn;
        router_id = router_id;
        bgp_listen_address = string_env "RTBH_BGP_LISTEN" c.bgp_listen_address;
        http_listen_address = string_env "RTBH_HTTP_LISTEN" c.http_listen_address;
        sync_listen_address = string_env "RTBH_SYNC_LISTEN" c.sync_listen_address;
        sync_server_address = string_env "RTBH_SYNC_SERVER" c.sync_server_address;
        listen_ranges = listen_ranges;
        allowed_asns = allowed_asns;
        max_sessions = max_sessions;
        sync_max_message_bytes = max_bytes;
        sync_max_in_flight = in_flight;
        reconnect_min = reconnect_min;
        reconnect_max = reconnect_max;
        policy_file = string_env "RTBH_POLICY_FILE" c.policy_file;
        cursor_file = string_env "RTBH_CURSOR_FILE" c.cursor_file;
        dry_run = dry_run;
        shutdown_timeout = shutdown;
        insecure_listen = insecure;
        rtbh_next_hop_v4 = next_hop_v4;
        rtbh_next_hop_v6 = next_hop_v6;
        blocklist_feed = string_env "RTBH_BLOCKLIST_FEED" c.blocklist_feed;
        whitelist_feed = string_env "RTBH_WHITELIST_FEED" c.whitelist_feed;
        feed_interval = feed_interval;
        whitelist_expand_slash24 = expand;
        db_driver = string_env "RTBH_DB_DRIVER" c.db_driver;
        db_dsn = string_env "RTBH_DB_DSN" c.db_dsn;
        api_token = string_env "RTBH_API_TOKEN" c.api_token;
      })
