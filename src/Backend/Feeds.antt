-- ===== src/Backend/Feeds.antt =====
-- The feeds of dashboardBackend: SaveFeed, DeleteFeed and SyncFeed.
use rtbh_panel.Common.{
  ℕ, ◌*◌, String, Bool, false, not, ◌==◌, Option, none, some, List, [], ◌∷◌, map, if◌then◌else◌,
  str_eq,
}
use rtbh_panel.Common.Lists.{length, filter, member}
use rtbh_panel.Common.Results.{Attempt, ok, err}
use rtbh_panel.Common.Texts.{string_discrete}
use rtbh_panel.Net.Prefix.{Prefix}
use rtbh_panel.Policy.{Time}
use rtbh_panel.PolicyStore.Disk.{System}
use rtbh_panel.Feed.Manager
use rtbh_panel.Feed.Manager.{Manager, Sync, Synced}
use rtbh_panel.Controller.Interface.{RouteEngine}
use rtbh_panel.Controller.Apply
use rtbh_panel.Controller.Apply.{Controller}
use rtbh_panel.Controller.Service.{apply_batch}
use rtbh_panel.Sql.Tables.{Database, same, FeedRow}
use rtbh_panel.Sql.Sync.{Driver, Attempted, Change, Statement, sync_feed_policies}
use rtbh_panel.Sql.Sync
use rtbh_panel.Sql.Feeds.{FeedSource, list_feeds, save_feed, update_feed_status, find_feed}
use rtbh_panel.Sql.Policies.{Queries}
use rtbh_panel.Sql.Store.{sql_store, list_of}

pub data Failure : Type 0 where
  no_manager feed_not_found fetch_failed : Failure
  sql : Statement → Failure
  manager : Manager.Failure → Failure
  controller : Apply.Failure → Failure

-- The controller, whose SQL store is the backend's; the feed manager; and the map `syncing`.
pub record Backend (E : Type 0) : Type 0 where
  pub controller : Controller E Database
  pub feeds : Option Manager
  pub syncing : List String

-- What the backend is created with, and what its calls ask of their surroundings.
pub record Environment (E : Type 0) : Type 0 where
  pub engine : RouteEngine E
  pub driver : Driver
  pub queries : Queries
  pub by_name : List FeedRow → List FeedRow
  pub now_ms : ℕ
  pub system : System
  pub dry_run : Bool
  pub expand_whitelist : Bool

-- dashboard.SourceFeed, as far as a request sets it. An interval below 1 is 0.
pub record SourceFeed : Type 0 where
  pub id : String
  pub name : String
  pub list : String
  pub url : String
  pub interval : ℕ
  pub enabled : Bool
  pub expand_subnets : Bool

abbrev in_sql : SourceFeed → FeedSource
in_sql req = record {
  id = req.id;
  name = req.name;
  list = req.list;
  url = req.url;
  interval = req.interval;
  enabled = req.enabled;
  last_sync = "";
  prefix_count = 0;
  last_error = "";
  expand_subnets = req.expand_subnets;
}

-- The request with the defaults that SaveFeed fills in for the SQL store.
abbrev pub completed : String → SourceFeed → SourceFeed
completed fresh_id req = record req {
  id = if str_eq req.id "" then fresh_id else req.id;
  interval = if req.interval == 0 then 21600 else req.interval;
}

-- What a fetch gives: its prefixes, or the text of its error.
abbrev pub Fetched : Type 0
Fetched = Attempt String (List Prefix)

-- What SaveFeed returns, whether it starts a sync of the feed, and the backend.
pub record Saved (E : Type 0) : Type 0 where
  pub feed : SourceFeed
  pub error : Option Failure
  pub syncs : Bool
  pub backend : Backend E

module _ {E : Type 0} (env : Environment E) where
  abbrev with_sql : Database → Backend E → Backend E
  with_sql db b = record b { controller = record b.controller { sql = some db } }

  abbrev saved_sql : SourceFeed → Backend E → Attempted (Unit {0}) × Database → Saved E
  saved_sql req b (err e, db) = record {
    feed = req;
    error = some (sql e);
    syncs = false;
    backend = with_sql db b;
  }
  saved_sql req b (ok _, db) = record {
    feed = req;
    error = none;
    syncs = req.enabled;
    backend = with_sql db b;
  }

  abbrev in_manager : Time → SourceFeed → Manager.FeedSource
  in_manager interval req = record {
    id = req.id;
    name = req.name;
    list = list_of req.list;
    url = req.url;
    interval = some interval;
    enabled = req.enabled;
    last_sync = 0;
    prefix_count = 0;
    last_error = "";
    expand_subnets = req.expand_subnets;
    prefixes = [];
  }

  abbrev saved_manager :
      String → SourceFeed → Backend E → Option Manager.Failure × Manager → Saved E
  saved_manager fresh_id req b (some e, m) = record {
    feed = req;
    error = some (manager e);
    syncs = false;
    backend = record b { feeds = some m };
  }
  saved_manager fresh_id req b (none, m) = record {
    feed = record req { id = if str_eq req.id "" then fresh_id else req.id };
    error = none;
    syncs = req.enabled;
    backend = record b { feeds = some m };
  }

  -- SaveFeed, with the random id of a new feed and whether the manager's file is written. The
  -- interval of the request is below 2 ^ 63 nanoseconds.
  unfoldable pub save : String → Bool → SourceFeed → Backend E → Saved E
  save fresh_id writes req b = elim b.controller.sql [
    | some db ↦
        saved_sql (completed fresh_id req) b
          (save_feed env.driver (in_sql (completed fresh_id req)) db)
    | none ↦ elim b.feeds [
      | none ↦ record { feed = req; error = some no_manager; syncs = false; backend = b }
      | some m ↦
          (let interval =
              if req.interval == 0 then 3_600_000_000_000 else req.interval * 1_000_000_000 in
            saved_manager fresh_id req b (Manager.save fresh_id writes (in_manager interval req) m))
    ]
  ]

  abbrev batch :
      String → List String → List String → Backend E → Option Apply.Failure × Controller E Database
  batch list to_add to_remove b =
      apply_batch env.engine (sql_store env.driver env.queries env.now_ms) env.system (list_of list)
        to_add to_remove b.controller

  abbrev withdrawn : List String × String → Backend E → Backend E
  withdrawn ([], list) b = b
  withdrawn (p ∷ ps, list) b = record b { controller = (batch list [] (p ∷ ps) b).1 }

  abbrev deleted_sql :
      Backend E → Attempted (List String × String) × Database → Option Failure × Backend E
  deleted_sql b (err e, db) = (some (sql e), with_sql db b)
  deleted_sql b (ok gone, db) = (none, withdrawn gone (with_sql db b))

  -- DeleteFeed with the SQL store.
  unfoldable pub delete_in_sql : String → Database → Backend E → Option Failure × Backend E
  delete_in_sql id db b = deleted_sql b (Sync.delete_feed env.driver id db)

  abbrev announced :
      ℕ → Backend E → Option Apply.Failure × Controller E Database → Attempt Failure ℕ × Backend E
  announced count b (some e, c) = (err (controller e), record b { controller = c })
  announced count b (none, c) = (ok count, record b { controller = c })

  -- After SyncFeedPolicies: the status again, and the routes.
  abbrev applied :
      FeedSource
      → List String
      → Backend E
      → Attempted Change × Database
      → Attempt Failure ℕ × Backend E
  applied target new b (err e, db) = (err (sql e), with_sql db b)
  applied target new b (ok change, db) =
      let after =
        (update_feed_status env.driver target.id (length new) env.driver.now_text "" db).1 in
      announced (length new) b (batch target.list change.to_add change.to_remove (with_sql after b))

  abbrev fetched_target :
      FeedSource → Fetched → Database → Backend E → Attempt Failure ℕ × Backend E
  fetched_target target (err text) db b =
      (err fetch_failed, with_sql (update_feed_status env.driver target.id 0 "" text db).1 b)
  fetched_target target (ok prefixes) db b =
      let new = map env.system.print prefixes in
      applied target new b (sync_feed_policies env.driver target.id target.name target.list new db)

  abbrev looked_up :
      Option FeedSource → Fetched → Database → Backend E → Attempt Failure ℕ × Backend E
  looked_up none fetched db b = (err feed_not_found, b)
  looked_up (some target) fetched db b = fetched_target target fetched db b

  -- SyncFeed with the SQL store, after the guard.
  unfoldable pub sync_in_sql :
      String → Fetched → Database → Backend E → Attempt Failure ℕ × Backend E
  sync_in_sql id fetched db b = elim (list_feeds env.driver env.by_name db) [
    | err e ↦ (err (sql e), b)
    | ok feeds ↦ looked_up (find_feed id feeds) fetched db b
  ]

  abbrev released : String → Attempt Failure ℕ × Backend E → Attempt Failure ℕ × Backend E
  released id (result, b) =
      (result, record b { syncing = filter (λ other. not (same other id)) b.syncing })

  -- SyncFeed: a sync of the same feed that is running is not repeated. Without an SQL store it is the
  -- manager's, which is an argument.
  unfoldable pub sync :
      (Backend E → Attempt Failure ℕ × Backend E)
      → String
      → Fetched
      → Backend E
      → Attempt Failure ℕ × Backend E
  sync in_manager_sync id fetched b =
      if member string_discrete id b.syncing
      then (ok 0, b)
      else released id (
          let marked = record b { syncing = id ∷ b.syncing } in
          elim b.controller.sql [
            | some db ↦ sync_in_sql id fetched db marked
            | none ↦ elim b.feeds [ none ↦ (ok 0, marked) | some m ↦ in_manager_sync marked ]
          ])
