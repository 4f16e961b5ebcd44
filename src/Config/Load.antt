-- ===== src/Config/Load.antt =====
-- loadConfig: the defaults, the environment, and the flags, in this order.
use rtbh_panel.Common.{
  String, Bool, true, false, not, ◌&&◌, ◌||◌, Option, none, some, if◌then◌else◌, str_eq,
}
use rtbh_panel.Common.Results.{ok, err, ◌>>=◌, ◌>>◌, check, require}
use rtbh_panel.Net.Addr.{Addr, is_valid, is4, ip6}
use rtbh_panel.Config.Settings.{
  Config, Library, Checked, default_config, bad_flags, unexpected_arguments, bad_asn, bad_router_id,
  bad_next_hop,
}
use rtbh_panel.Config.Environment.{
  parse_prefixes, parse_asns, join_prefixes, join_asns, apply_environment,
}
use rtbh_panel.Config.Checks.{validate_common, validate_server, validate_agent}

pub data ConfigMode : Type 0 where
  config_all config_server config_agent : ConfigMode

-- The variables that the flags are bound to: the configuration, and texts for six of its fields.
pub record Flags : Type 0 where
  pub config : Config
  pub local_asn : String
  pub router_id : String
  pub listen_ranges : String
  pub allowed_asns : String
  pub rtbh_next_hop_v4 : String
  pub rtbh_next_hop_v6 : String

-- flag.FlagSet.Parse of the arguments: the variables afterwards and whether arguments are left, or an
-- error. Which flags there are depends on the mode.
abbrev pub ParseFlags : Type 0
ParseFlags = ConfigMode → Flags → Option (Flags × Bool)

abbrev server_checked : ConfigMode → Bool
server_checked config_agent = false
server_checked _ = true

abbrev agent_checked : ConfigMode → Bool
agent_checked config_server = false
agent_checked _ = true

module _ (lib : Library) where
  -- The texts that the flags default to.
  abbrev pub default_flags : Config → Flags
  default_flags c = record {
    config = c;
    local_asn = lib.format_uint c.local_asn;
    router_id = lib.print_addr c.router_id;
    listen_ranges = join_prefixes lib c.listen_ranges;
    allowed_asns = join_asns lib c.allowed_asns;
    rtbh_next_hop_v4 =
        if is_valid c.rtbh_next_hop_v4 then lib.print_addr c.rtbh_next_hop_v4 else "";
    rtbh_next_hop_v6 = lib.print_addr c.rtbh_next_hop_v6;
  }

  abbrev same_family : Addr → Addr → Bool
  same_family a b = (is4 a && is4 b) || (not (is4 a) && not (is4 b))

  -- parseNextHop
  unfoldable pub parse_next_hop : String → Addr → Checked Addr
  parse_next_hop raw fallback = if str_eq raw "" then ok fallback else elim (lib.parse_addr raw) [
    | none ↦ err bad_next_hop
    | some a ↦ if same_family a fallback then ok a else err bad_next_hop
  ]

  abbrev parse_router_id : String → Checked Addr
  parse_router_id raw = elim (lib.parse_addr raw) [
    | none ↦ err bad_router_id
    | some a ↦ if is4 a then ok a else err bad_router_id
  ]

  -- From the parsed flags on.
  unfoldable pub read_flags : Flags → Checked Config
  read_flags f = do
    asn ← require bad_asn (lib.parse_uint32 f.local_asn)
    router_id ← parse_router_id f.router_id
    hop_v4 ← parse_next_hop f.rtbh_next_hop_v4 router_id
    hop_v6 ← parse_next_hop f.rtbh_next_hop_v6 (ip6 1 "")
    ranges ← parse_prefixes lib f.listen_ranges
    asns ← parse_asns lib f.allowed_asns
    ok (record f.config {
      local_asn = asn;
      router_id = router_id;
      rtbh_next_hop_v4 = hop_v4;
      rtbh_next_hop_v6 = hop_v6;
      listen_ranges = ranges;
      allowed_asns = asns;
    })

  unfoldable pub validate_mode : ConfigMode → Config → Checked (Unit {0})
  validate_mode mode c = do
    validate_common lib c
    if server_checked mode then validate_server lib c else ok tt
    if agent_checked mode then validate_agent lib c else ok tt

  unfoldable pub load_config : (String → String) → ParseFlags → ConfigMode → Checked Config
  load_config getenv parse mode = do
    environment ← apply_environment lib getenv default_config
    parsed ← require bad_flags (parse mode (default_flags environment))
    check (not parsed.1) unexpected_arguments
    c ← read_flags parsed.0
    validate_mode mode c
    ok c
