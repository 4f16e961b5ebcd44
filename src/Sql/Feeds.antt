-- ===== src/Sql/Feeds.antt =====
-- ListFeeds, SaveFeed and UpdateFeedStatus.
use rtbh_panel.Common.{
  ℕ, String, Bool, true, false, not, ◌==◌, Option, none, some, List, [], ◌∷◌, map, if◌then◌else◌,
  ◌≡◌, arith,
}
use rtbh_panel.Common.Results.{ok, err, ◌>>◌}
use rtbh_panel.Sql.Tables.{FeedRow, Database, same, upsert_feed, update_feeds}
use rtbh_panel.Sql.Sync.{Driver, Attempted, execute, changes, queries}

-- FeedSource of the SQL store. An interval below 1 is 0.
pub record FeedSource : Type 0 where
  pub id : String
  pub name : String
  pub list : String
  pub url : String
  pub interval : ℕ
  pub enabled : Bool
  pub last_sync : String
  pub prefix_count : ℕ
  pub last_error : String
  pub expand_subnets : Bool

-- The text of a sql.NullString
abbrev pub text_of : Option String → String
text_of none = ""
text_of (some text) = text

-- Scan of a row of ListFeeds
abbrev pub scan_feed : FeedRow → FeedSource
scan_feed row = record {
  id = row.id;
  name = row.name;
  list = row.list;
  url = row.url;
  interval = row.interval_sec;
  enabled = not (row.enabled == 0);
  last_sync = text_of row.last_sync;
  prefix_count = row.prefix_count;
  last_error = text_of row.last_error;
  expand_subnets = not (row.expand_subnets == 0);
}

-- ListFeeds; `by_name` is the order of the database.
unfoldable pub list_feeds :
    Driver → (List FeedRow → List FeedRow) → Database → Attempted (List FeedSource)
list_feeds driver by_name db = execute driver queries >> ok (map scan_feed (by_name db.feeds))

abbrev flag : Bool → ℕ
flag false = 0
flag true = 1

abbrev pub feed_values : FeedSource → FeedRow
feed_values f = record {
  id = f.id;
  name = f.name;
  list = f.list;
  url = f.url;
  interval_sec = f.interval;
  enabled = flag f.enabled;
  last_sync = some f.last_sync;
  prefix_count = f.prefix_count;
  last_error = some f.last_error;
  expand_subnets = flag f.expand_subnets;
}

abbrev pub updated_feed : FeedSource → FeedRow → FeedRow
updated_feed f row = record row {
  name = f.name;
  list = f.list;
  url = f.url;
  interval_sec = f.interval;
  enabled = flag f.enabled;
  expand_subnets = flag f.expand_subnets;
}

-- A statement of its own that changes the tables.
abbrev pub change_tables :
    Driver → (Database → Database) → Database → Attempted (Unit {0}) × Database
change_tables driver change db =
    if driver.works changes then (ok tt, change db) else (err changes, db)

unfoldable pub save_feed : Driver → FeedSource → Database → Attempted (Unit {0}) × Database
save_feed driver f db =
    change_tables driver
      (λ tables. record tables {
        feeds = upsert_feed (updated_feed f) (feed_values f) tables.feeds;
      })
      db

abbrev pub status_row : ℕ → String → String → FeedRow → FeedRow
status_row count last_sync last_error row = record row {
  prefix_count = count;
  last_sync = some last_sync;
  last_error = some last_error;
}

unfoldable pub update_feed_status :
    Driver → String → ℕ → String → String → Database → Attempted (Unit {0}) × Database
update_feed_status driver id count last_sync last_error db =
    change_tables driver
      (λ tables. record tables {
        feeds = update_feeds (status_row count last_sync last_error) id tables.feeds;
      })
      db

-- The first feed of an id, as the loop of backend.SyncFeed looks it up.
unfoldable pub find_feed : String → List FeedSource → Option FeedSource
find_feed id [] = none
find_feed id (f ∷ feeds) = let rest = find_feed id feeds in if same f.id id then some f else rest

-- The status that a feed keeps when it is saved: that of the row it had.
abbrev kept_status : FeedSource → Option FeedSource → FeedSource
kept_status f none = f
kept_status f (some old) = record f {
  last_sync = old.last_sync;
  prefix_count = old.prefix_count;
  last_error = old.last_error;
}

find_feed-upsert_feed :
    (f : FeedSource) (rows : List FeedRow) (id : String)
    → find_feed id (map scan_feed (upsert_feed (updated_feed f) (feed_values f) rows)) ≡ (
        if same f.id id
        then some (kept_status f (find_feed f.id (map scan_feed rows)))
        else find_feed id (map scan_feed rows))
unfolding find_feed upsert_feed
find_feed-upsert_feed f [] id = ground (arith)
find_feed-upsert_feed f (row ∷ rows) id =
    let rest = find_feed-upsert_feed f rows id in ground (arith, rest)

-- A feed that is saved reads back with its settings, with the status it had before if it was there;
-- the feeds of other ids read back as before.
pub find_feed-save_feed :
    (driver : Driver) (f : FeedSource) (db : Database) (id : String)
    → driver.works changes ≡ true
    → find_feed id (map scan_feed (save_feed driver f db).1.feeds) ≡ (
        if same f.id id
        then some (kept_status f (find_feed f.id (map scan_feed db.feeds)))
        else find_feed id (map scan_feed db.feeds))
unfolding save_feed
find_feed-save_feed driver f db id works = rw works (find_feed-upsert_feed f db.feeds id)
