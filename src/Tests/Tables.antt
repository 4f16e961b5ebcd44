-- ===== src/Tests/Tables.antt =====
-- The SQL store, and the backend that stands on it.
use rtbh_panel.Common.{
  ℕ_discrete, ◌≡◌, refl, String, true, false, not, ◌&&◌, none, some, List, [], ◌∷◌, map, ◌⊎◌,
  str_eq, arith,
}
use rtbh_panel.Common.Lists.{length, filter, member, drop}
use rtbh_panel.Common.Results.{ok}
use rtbh_panel.Common.Texts.{string_discrete}
use rtbh_panel.Feed.Manager.{without_repeats, lacking}
use rtbh_panel.Net.Prefix.{discrete}
use rtbh_panel.Sql.Tables.{FeedRow, PolicyRow, Database, feed_prefixes}
use rtbh_panel.Sql.Sync.{
  Driver, Change, inserts_batch, sync_feed_policies, delete_feed, carry_out, in_batches, idle,
  run_sync, run_delete, sync_statements,
}
use rtbh_panel.Sql.Synced.{owns, feed_prefixes-sync_feed_policies}
use rtbh_panel.Controller.Service.{apply_batch}
use rtbh_panel.Sql.Atomic.{IsRolledBack, IsCommitted, IsReported, IsGone, run_sync-IsRolledBack}
use rtbh_panel.Sql.Apart.{owns_other-sync_feed_policies}
use rtbh_panel.Sql.Feeds.{FeedSource, scan_feed, find_feed, list_feeds}
use rtbh_panel.Sql.Policies.{Queries}
use rtbh_panel.Backend.Listing
use rtbh_panel.Backend.Listing.{list_memory, selected, item_of}
use rtbh_panel.Backend.Feeds.{Backend, Environment, sync_in_sql}
use rtbh_panel.Backend.Synced.{owns-sync_in_sql}
use rtbh_panel.Backend.Pages.{read_pages, read_pages-selected}
use rtbh_panel.Tests.Samples.{system, Table, table, two_lists, next_hop, ten, docs}

abbrev driver : Driver
driver = record { works = λ statement. true; rows_read = λ l. l; now = 7; now_text = "now" }

abbrev one_feed : FeedRow
one_feed = record {
  id = "f1";
  name = "One";
  list = "blocklist";
  url = "https://example.org/one";
  interval_sec = 60;
  enabled = 1;
  last_sync = none;
  prefix_count = 2;
  last_error = none;
  expand_subnets = 0;
}

abbrev row : String → String → PolicyRow
row prefix feed = record {
  prefix = prefix;
  list = "blocklist";
  source = "One";
  feed_id = some feed;
  expires_at = none;
  created_at = 1;
}

abbrev database : Database
database = record {
  feeds = one_feed ∷ [];
  policies = row "10.0.0.0/24" "f1" ∷ row "10.0.1.0/24" "f1" ∷ row "10.0.2.0/24" "f2" ∷ [];
  audit_logs = [];
}

-- The first prefix goes, the second stays, and the third comes from the other feed.
abbrev new : List String
new = "10.0.1.0/24" ∷ "10.0.2.0/24" ∷ []

abbrev change : Change
change = record { to_add = "10.0.2.0/24" ∷ []; to_remove = "10.0.0.0/24" ∷ [] }

feed_prefixes-sync_feed_policies_example :
    (owns "f1" "10.0.2.0/24"
        (sync_feed_policies driver "f1" "One" "blocklist" new database).1.policies
      ≡ member string_discrete "10.0.2.0/24" new)
    × (member string_discrete "10.0.2.0/24" change.to_add
        ≡ member string_discrete "10.0.2.0/24" new
          && not (owns "f1" "10.0.2.0/24" database.policies))
    × (member string_discrete "10.0.2.0/24" change.to_remove
        ≡ owns "f1" "10.0.2.0/24" database.policies
          && not (member string_discrete "10.0.2.0/24" new))
unfolding sync_feed_policies run_sync sync_statements carry_out in_batches feed_prefixes filter
    lacking without_repeats member string_discrete drop
feed_prefixes-sync_feed_policies_example =
    feed_prefixes-sync_feed_policies driver "f1" "One" "blocklist" new database "10.0.2.0/24" change
      refl refl

-- A database that stops at the batch of the third prefix.
abbrev failing : Driver
failing = record driver {
  works = λ statement. elim statement [ inserts_batch batch ↦ false | _ ↦ true ];
}

run_sync-IsRolledBack_example :
    (IsRolledBack failing database (run_sync failing "f1" "One" "blocklist" new (idle database))
      ⊎ IsCommitted
          (IsReported failing "f1" new database)
          (run_sync failing "f1" "One" "blocklist" new (idle database)))
    × (IsRolledBack failing database (run_delete failing "f1" (idle database))
        ⊎ IsCommitted (IsGone "f1") (run_delete failing "f1" (idle database)))
run_sync-IsRolledBack_example = run_sync-IsRolledBack failing "f1" "One" "blocklist" new database

owns_other-sync_feed_policies_example :
    (owns "f2" "10.0.3.0/24"
        (sync_feed_policies driver "f1" "One" "blocklist" new database).1.policies
      ≡ owns "f2" "10.0.3.0/24" database.policies)
    × ((q : String)
        → owns "f2" q (delete_feed driver "f1" database).1.policies ≡ owns "f2" q database.policies)
unfolding string_discrete member
owns_other-sync_feed_policies_example =
    owns_other-sync_feed_policies driver "f1" "f2" "One" "blocklist" new database "10.0.3.0/24" refl
      refl

abbrev queries : Queries
queries = record {
  trim_space = λ t. t;
  pattern = λ t. t;
  like = λ text pattern. str_eq text pattern;
  newest_first = λ rows. rows;
  below_zero = λ rows. ok rows;
  format_time = λ t. "time";
  parse_time = λ t. none;
  parse_prefix = system.parse;
}

-- The first feed, renamed and disabled.
abbrev renamed : FeedSource
renamed = record (scan_feed one_feed) { name = "First"; enabled = false; prefix_count = 0 }

abbrev texts : Listing.Library
texts = record {
  print = system.print;
  trim_space = λ t. t;
  to_lower = λ t. t;
  contains = λ text query. str_eq text query;
  ceil_div = λ total limit. total;
}

read_pages-selected_example :
    read_pages texts none "whitelist" "" 1 two_lists.store 2
    ≡ some (map (item_of none "whitelist") (selected texts "whitelist" "" two_lists.store))
unfolding selected filter
read_pages-selected_example =
    read_pages-selected texts none "whitelist" "" 1 two_lists.store 2 (omega arith) (omega arith)
      (omega arith)

abbrev backend : Backend Table
backend = record {
  controller = record {
    stored = two_lists;
    sql = some database;
    engine = λ p. false;
    dry_run = false;
    next_hop_v4 = next_hop;
    next_hop_v6 = next_hop;
    publishes = false;
    published = [];
    active = [];
    wake = false;
  };
  feeds = none;
  syncing = [];
}

abbrev environment : Environment Table
environment = record {
  engine = table;
  driver = driver;
  queries = queries;
  by_name = λ rows. rows;
  now_ms = 7;
  system = system;
  dry_run = false;
  expand_whitelist = false;
}

owns-sync_in_sql_example :
    (after : Database) × ((sync_in_sql environment "f1"
        (ok (ten ∷ docs ∷ []))
        database
        backend).1.controller.sql
      ≡ some after)
    × ((p : String)
        → owns "f1" p after.policies
          ≡ member string_discrete p (map system.print (ten ∷ docs ∷ [])))
    × (2 ≡ length (map system.print (ten ∷ docs ∷ [])))
unfolding sync_in_sql sync_feed_policies run_sync sync_statements carry_out in_batches feed_prefixes
    filter lacking without_repeats member string_discrete drop list_feeds find_feed discrete
    ℕ_discrete apply_batch
owns-sync_in_sql_example =
    owns-sync_in_sql environment "f1" (ten ∷ docs ∷ []) database backend 2 refl refl
