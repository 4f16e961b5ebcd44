-- ===== src/Backend/View.antt =====
-- What dashboardBackend shows: Config and ListFeeds.
use rtbh_panel.Common.{
  ℕ, ◌+◌, ◌-◌, ◌*◌, ◌/◌, ◌%◌, String, Bool, not, ◌&&◌, ltb, Option, none, some, List, [], ◌++◌, map,
  if◌then◌else◌, str_eq,
}
use rtbh_panel.Common.Results.{ok, err, ◌>>=◌}
use rtbh_panel.Policy.{Time, is_zero_time}
use rtbh_panel.PolicyStore.State.{Store}
use rtbh_panel.Config.Settings
use rtbh_panel.Config.Settings.{Config}
use rtbh_panel.Feed.Manager
use rtbh_panel.Feed.Manager.{Manager}
use rtbh_panel.Feed.Open
use rtbh_panel.Sql.Tables.{Database, FeedRow}
use rtbh_panel.Sql.Sync.{Driver, Attempted}
use rtbh_panel.Sql.Feeds.{FeedSource, list_feeds}
use rtbh_panel.Sql.Policies
use rtbh_panel.Sql.Policies.{Queries, list_policies_paginated, get_counts}
use rtbh_panel.Sql.Store.{list_name}
use rtbh_panel.Backend.Listing.{PolicyItem, item_of}

-- The dashboard's Config, with the counts that only the SQL store gives.
pub record View : Type 0 where
  pub local_asn : ℕ
  pub router_id : String
  pub listen_ranges : List String
  pub peer_group : String
  pub allowed_asns : List ℕ
  pub max_sessions : ℕ
  pub default_policy : String
  pub dry_run : Bool
  pub blocklist : List String
  pub whitelist : List String
  pub policies : List PolicyItem
  pub blocklist_count : ℕ
  pub whitelist_count : ℕ

abbrev prefix_of : Policies.PolicyItem → String
prefix_of it = it.prefix

abbrev shown_item : Policies.PolicyItem → PolicyItem
shown_item it = record { prefix = it.prefix; list = it.list; source = it.source }

-- The first 50 policies of a list; an error shows none.
abbrev first_page : Driver → Queries → String → Database → List Policies.PolicyItem
first_page driver q list db = elim (list_policies_paginated driver q list "" 1 50 db) [
  | err _ ↦ []
  | ok (items, total) ↦ items
]

abbrev view : Settings.Library → Config → List String → List String → List PolicyItem → ℕ × ℕ → View
view lib c blocklist whitelist policies (blocked, allowed) = record {
  local_asn = c.local_asn;
  router_id = lib.print_addr c.router_id;
  listen_ranges = map lib.print_prefix c.listen_ranges;
  peer_group = "rtbh-dynamic";
  allowed_asns = c.allowed_asns;
  max_sessions = c.max_sessions;
  default_policy = "reject";
  dry_run = c.dry_run;
  blocklist = blocklist;
  whitelist = whitelist;
  policies = policies;
  blocklist_count = blocked;
  whitelist_count = allowed;
}

-- Config with the SQL store.
unfoldable pub view_sql : Settings.Library → Driver → Queries → Config → Database → View
view_sql lib driver q c db =
    let blocked = first_page driver q "blocklist" db in
    let allowed = first_page driver q "whitelist" db in
    view lib c (map prefix_of blocked) (map prefix_of allowed)
      (map shown_item blocked ++ map shown_item allowed) (get_counts driver db)

-- Config without it.
unfoldable pub view_memory : Settings.Library → Option Manager → Config → Store → View
view_memory lib feeds c s =
    let blocked = map lib.print_prefix s.blocklist in
    let allowed = map lib.print_prefix s.whitelist in
    view lib c blocked allowed
      (map (item_of feeds "blocklist") blocked ++ map (item_of feeds "whitelist") allowed) (0, 0)

-- The texts of `nextSync` and `status`, with the numbers that they show.
pub data NextSync : Type 0 where
  manual immediately due_now under_a_minute : NextSync
  in_minutes : ℕ → NextSync
  in_hours_minutes : ℕ → ℕ → NextSync

pub data Status : Type 0 where
  idle synced error : Status

abbrev second : Time
second = 1_000_000_000

abbrev minute : Time
minute = 60 * second

abbrev hour : Time
hour = 60 * minute

abbrev time_left : Time → NextSync
time_left rem =
    if ltb rem minute
    then under_a_minute
    else if ltb rem hour
    then in_minutes (rem / minute)
    else in_hours_minutes (rem / hour) ((rem / minute) % 60)

unfoldable pub next_sync : Time → Time → NextSync
next_sync now next_time = if ltb next_time now then due_now else time_left (next_time - now)

abbrev pub sql_status : FeedSource → Status
sql_status f =
    if not (str_eq f.last_error "")
    then error
    else if not (str_eq f.last_sync "")
    then synced
    else idle

-- The next sync of a feed of the SQL store; `parse` is time.Parse with the layout of last_sync.
unfoldable pub sql_next_sync : (String → Option Time) → Time → FeedSource → NextSync
sql_next_sync parse now f =
    if not (f.enabled && ltb 0 f.interval)
    then manual
    else if str_eq f.last_sync ""
    then immediately
    else elim (parse f.last_sync) [
      | none ↦ manual
      | some t ↦ next_sync now (t + (f.interval * second))
    ]

-- dashboard.SourceFeed
pub record ShownFeed : Type 0 where
  pub id : String
  pub name : String
  pub list : String
  pub url : String
  pub interval : ℕ
  pub enabled : Bool
  pub last_sync : String
  pub next_sync : NextSync
  pub status : Status
  pub prefix_count : ℕ
  pub last_error : String
  pub expand_subnets : Bool

abbrev show_sql_feed : (String → Option Time) → Time → FeedSource → ShownFeed
show_sql_feed parse now f = record {
  id = f.id;
  name = f.name;
  list = f.list;
  url = f.url;
  interval = f.interval;
  enabled = f.enabled;
  last_sync = f.last_sync;
  next_sync = sql_next_sync parse now f;
  status = sql_status f;
  prefix_count = f.prefix_count;
  last_error = f.last_error;
  expand_subnets = f.expand_subnets;
}

-- ListFeeds with the SQL store.
unfoldable pub show_sql_feeds :
    Driver
    → (List FeedRow → List FeedRow)
    → (String → Option Time)
    → Time
    → Database
    → Attempted (List ShownFeed)
show_sql_feeds driver by_name parse now db =
    list_feeds driver by_name db >>= λ feeds. ok (map (show_sql_feed parse now) feeds)

abbrev interval_of : Option Time → Time
interval_of none = 0
interval_of (some t) = t

abbrev scheduled : Manager.FeedSource → Bool
scheduled f = f.enabled && ltb 0 (interval_of f.interval)

-- status, lastSync and nextSync of a feed of the manager; `format` is the format of last_sync.
unfoldable pub manager_status :
    (Time → String) → Time → Manager.FeedSource → Status × String × NextSync
manager_status format now f =
    if not (str_eq f.last_error "")
    then (error, "", manual)
    else if not (is_zero_time f.last_sync)
    then (
      synced,
      format f.last_sync,
      if scheduled f then next_sync now (f.last_sync + interval_of f.interval) else manual,
    )
    else if scheduled f
    then (idle, "", immediately)
    else (idle, "", manual)

abbrev show_manager_feed : (Time → String) → Time → Manager.FeedSource → ShownFeed
show_manager_feed format now f =
    let (status, last_sync, next) = manager_status format now f in
    record {
      id = f.id;
      name = f.name;
      list = list_name f.list;
      url = f.url;
      interval = interval_of f.interval / second;
      enabled = f.enabled;
      last_sync = last_sync;
      next_sync = next;
      status = status;
      prefix_count = f.prefix_count;
      last_error = f.last_error;
      expand_subnets = f.expand_subnets;
    }

-- ListFeeds without an SQL store.
unfoldable pub show_feeds : (Time → String) → Time → Option Manager → List ShownFeed
show_feeds format now none = []
show_feeds format now (some m) = map (show_manager_feed format now) (Open.list m)
