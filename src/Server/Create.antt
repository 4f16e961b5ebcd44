-- ===== src/Server/Create.antt =====
-- NewServer, and the session of a new connection.
use rtbh_panel.Common.{
  ℕ, String, Bool, true, false, ◌||◌, Option, none, some, List, [], if◌then◌else◌, str_eq,
}
use rtbh_panel.Common.Results.{Attempt, ok, err, ◌>>=◌, ◌>>◌, require}
use rtbh_panel.Net.Addr.{Addr, is_valid}
use rtbh_panel.Policy.{blocklist, whitelist}
use rtbh_panel.PolicyStore.State
use rtbh_panel.PolicyStore.State.{Store, new}
use rtbh_panel.Engine.Settings
use rtbh_panel.Engine.Settings.{Port, bad_port}
use rtbh_panel.Config.Settings.{Config, ConfigError, Library, Checked}
use rtbh_panel.Config.Checks.{validate_common, validate_server}
use rtbh_panel.Feed.Manager.{FeedSource, Manager, save}
use rtbh_panel.Feed.Open
use rtbh_panel.Feed.Open.{open_manager}
use rtbh_panel.Agent.Cursor
use rtbh_panel.Agent.Cursor.{CursorFile, load_cursor}
use rtbh_panel.Rpc.Message.{Frame}
use rtbh_panel.Rpc.Message
use rtbh_panel.Rpc.Session.{Session, new_session}

pub data Failure : Type 0 where
  bad_config : ConfigError → Failure
  bad_listen_address bad_bgp_port open_sql open_feeds : Failure
  create_engine : Settings.Error → Failure
  open_store : State.Error → Failure
  read_cursor : Cursor.Failure → Failure

-- What NewServer asks of its host: strconv.ParseInt in 32 bits, strings.HasSuffix, the path of the
-- file of the feeds, policystore.Open, sqlstore.Open, the files of the cursor and of the feeds, and
-- for each of the two default feeds its random id and whether it is written.
pub record Host : Type 0 where
  pub parse_int32 : String → Option Port
  pub has_suffix : String → String → Bool
  pub feeds_path : String → String
  pub open_policies : String → Attempt State.Error Store
  pub opens_sql : String → String → Bool
  pub cursor_file : String → CursorFile
  pub feeds_file : String → Open.File
  pub fresh_id : Bool → String
  pub writes : Bool → Bool

-- A Server before Run.
pub record Created : Type 0 where
  pub config : Config
  pub engine : Settings.Config
  pub store : Store
  pub has_sql : Bool
  pub cursor : ℕ
  pub next_hop_v4 : Addr
  pub feeds : Manager

abbrev checked : {A : Type 0} → Checked A → Attempt Failure A
checked (err e) = err (bad_config e)
checked (ok a) = ok a

abbrev port_of : Host → String → Attempt Failure Port
port_of host raw = elim (host.parse_int32 raw) [
  | none ↦ err bad_bgp_port
  | some parsed ↦ if bad_port parsed then err bad_bgp_port else ok parsed
]

abbrev pub engine_config : Config → Port → Settings.Config
engine_config c listen_port = record {
  local_asn = c.local_asn;
  router_id = c.router_id;
  listen_port = listen_port;
  listen_ranges = c.listen_ranges;
  allowed_asns = c.allowed_asns;
  max_sessions = c.max_sessions;
}

abbrev new_engine : Settings.Config → Attempt Failure Settings.Config
new_engine c = elim (Settings.validate c) [ none ↦ ok c | some e ↦ err (create_engine e) ]

abbrev opened : Attempt State.Error Store → Config → Attempt Failure (Store × Config)
opened (err e) c = err (open_store e)
opened (ok s) c = ok (s, c)

abbrev is_database : Host → String → Bool
is_database host path = host.has_suffix path ".db" || host.has_suffix path ".sqlite"

-- The policy store, and the configuration with the SQL driver that a database file implies.
abbrev open_store_of : Host → Config → Attempt Failure (Store × Config)
open_store_of host c =
    if str_eq c.policy_file ""
    then ok (new "", c)
    else if is_database host c.policy_file
    then ok (
      new "",
      if str_eq c.db_driver ""
          then record c { db_driver = "sqlite"; db_dsn = c.policy_file }
          else c,
    )
    else opened (host.open_policies c.policy_file) c

abbrev open_sql_of : Host → Config → Attempt Failure Bool
open_sql_of host c =
    if str_eq c.db_driver ""
    then ok false
    else if host.opens_sql c.db_driver (if str_eq c.db_dsn "" then "policy.db" else c.db_dsn)
    then ok true
    else err open_sql

abbrev cursor_of : Option Cursor.Failure × ℕ → Attempt Failure ℕ
cursor_of (some e, n) = err (read_cursor e)
cursor_of (none, n) = ok n

abbrev default_blocklist : Config → FeedSource
default_blocklist c = record {
  id = "";
  name = "Default Blocklist";
  list = blocklist;
  url = c.blocklist_feed;
  interval = some c.feed_interval;
  enabled = true;
  last_sync = 0;
  prefix_count = 0;
  last_error = "";
  expand_subnets = false;
  prefixes = [];
}

abbrev default_whitelist : Config → FeedSource
default_whitelist c = record {
  id = "";
  name = "Default Whitelist";
  list = whitelist;
  url = c.whitelist_feed;
  interval = some c.feed_interval;
  enabled = true;
  last_sync = 0;
  prefix_count = 0;
  last_error = "";
  expand_subnets = c.whitelist_expand_slash24;
  prefixes = [];
}

-- The two calls of Save, whose errors are dropped.
abbrev pub with_defaults : Host → Config → Manager → Manager
with_defaults host c m =
    let first =
      if str_eq c.blocklist_feed ""
      then m
      else (save (host.fresh_id true) (host.writes true) (default_blocklist c) m).1 in
    if str_eq c.whitelist_feed ""
    then first
    else (save (host.fresh_id false) (host.writes false) (default_whitelist c) first).1

-- NewServer
unfoldable pub new_server : Library → Host → Config → Attempt Failure Created
new_server lib host c = do
  checked (validate_common lib c)
  checked (validate_server lib c)
  address ← require bad_listen_address (lib.split_host_port c.bgp_listen_address)
  listen_port ← port_of host address.1
  engine ← new_engine (engine_config c listen_port)
  kept ← open_store_of host c
  has_sql ← open_sql_of host kept.1
  cursor ← cursor_of (load_cursor (host.cursor_file kept.1.cursor_file))
  let feeds_path = if str_eq kept.1.policy_file "" then "" else host.feeds_path kept.1.policy_file
  feeds ← require open_feeds (open_manager feeds_path (host.feeds_file feeds_path))
  ok (record {
    config = kept.1;
    engine = engine;
    store = kept.0;
    has_sql = has_sql;
    cursor = cursor;
    next_hop_v4 =
        if is_valid kept.1.rtbh_next_hop_v4 then kept.1.rtbh_next_hop_v4 else kept.1.router_id;
    feeds = with_defaults host kept.1 feeds;
  })

-- The session of handleSync for a new connection.
unfoldable pub open_session : List Frame → Config → ℕ → Option Message.Failure × Option Session
open_session incoming c cursor =
    new_session incoming
      (record {
        max_message_bytes = c.sync_max_message_bytes;
        max_in_flight = c.sync_max_in_flight;
      })
      (record { applied_cursor = 0; peer_cursor = cursor; next_sequence = 0 })
