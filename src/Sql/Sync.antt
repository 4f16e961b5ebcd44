-- ===== src/Sql/Sync.antt =====
-- SyncFeedPolicies and DeleteFeed, each in a transaction.
use rtbh_panel.Common.{
  ℕ, zero, suc, String, Bool, not, ◌&&◌, Option, none, some, List, [], ◌∷◌, if◌then◌else◌,
}
use rtbh_panel.Common.Lists.{length, filter, member, take, drop}
use rtbh_panel.Common.Results.{Attempt, ok, err, check}
use rtbh_panel.Common.Texts.{string_discrete}
use rtbh_panel.Policy.{Time}
use rtbh_panel.Feed.Manager.{without_repeats, lacking}
use rtbh_panel.Sql.Tables.{
  FeedRow, PolicyRow, Database, same, is_of_feed, policies_key, upsert_policy, update_feeds,
  feed_prefixes,
}

-- A call of the database.
pub data Statement : Type 0 where
  begins selects_feed selects_prefixes deletes_policies deletes_feed updates_feed commits :
      Statement
  removes_batch inserts_batch : List String → Statement
  changes queries prepares : Statement

-- Which calls return no error; which rows of a query are read before its iteration ends; and the
-- clock, as the time and as its text.
pub record Driver : Type 0 where
  pub works : Statement → Bool
  pub rows_read : List String → List String
  pub now : Time
  pub now_text : String

abbrev pub Attempted : Type 0 → Type 0
Attempted A = Attempt Statement A

-- A statement in a transaction.
abbrev pub execute : Driver → Statement → Attempted (Unit {0})
execute driver statement = check (driver.works statement) statement

-- A statement that changes what it is run on; one that fails leaves it as it was.
abbrev pub execute_on : {S : Type 0} → Driver → Statement → (S → S) → S → Attempted (Unit {0}) × S
execute_on driver statement change s =
    if driver.works statement then (ok tt, change s) else (err statement, s)

-- What comes after a step that may fail: nothing, if it does, and what was changed is kept.
abbrev pub follow : {S A B : Type 0} → (A → S → Attempted B × S) → Attempted A × S → Attempted B × S
follow next (err cause, s) = (err cause, s)
follow next (ok a, s) = next a s

-- The database: the tables as committed, which every other call reads, and those of a transaction that
-- is open.
pub record Connection : Type 0 where
  pub committed : Database
  pub working : Option Database

abbrev pub idle : Database → Connection
idle db = record { committed = db; working = none }

-- tx.Commit, which ends the transaction whether or not it works; a return before it leaves the
-- transaction open.
abbrev pub commit :
    {R : Type 0} → Driver → Connection → Attempted R × Database → Attempted R × Connection
commit driver c (err cause, tables) = (err cause, record c { working = some tables })
commit driver c (ok result, tables) =
    if driver.works commits
    then (ok result, record c { committed = tables; working = none })
    else (err commits, record c { working = none })

-- tx.Rollback, which drops the tables of an open transaction.
abbrev pub rollback : Connection → Connection
rollback c = record c { working = none }

-- BeginTx, the statements run on the transaction's tables, Commit, and the deferred Rollback.
abbrev pub transaction :
    {R : Type 0}
    → Driver
    → (Database → Attempted R × Database)
    → Connection
    → Attempted R × Connection
transaction driver body c =
    if not (driver.works begins)
    then (err begins, c)
    else (let (result, ended) = commit driver c (body c.committed) in (result, rollback ended))

-- The tables that the other calls read afterwards.
abbrev pub read_back : {R : Type 0} → Attempted R × Connection → Attempted R × Database
read_back (result, c) = (result, c.committed)

abbrev pub batch_size : ℕ
batch_size = 500

-- The loop over batches of 500, on fuel.
unfoldable pub in_batches :
    (List String → List PolicyRow → Attempted (Unit {0}) × List PolicyRow)
    → ℕ
    → List String
    → List PolicyRow
    → Attempted (Unit {0}) × List PolicyRow
in_batches run fuel [] rows = (ok tt, rows)
in_batches run zero (p ∷ ps) rows = (ok tt, rows)
in_batches run (suc fuel) (p ∷ ps) rows =
    follow (λ _ next. in_batches run fuel (drop batch_size (p ∷ ps)) next)
      (run (take batch_size (p ∷ ps)) rows)

-- DELETE FROM policies WHERE feed_id = ? AND prefix IN (...)
unfoldable pub remove_prefixes : String → List String → List PolicyRow → List PolicyRow
remove_prefixes id prefixes rows =
    filter (λ row. not (is_of_feed id row && member string_discrete row.prefix prefixes)) rows

-- The row of a prefix of a feed, and what an insert of it changes of a row with the same key.
abbrev pub feed_row : Time → String → String → String → String → PolicyRow
feed_row now id name list prefix = record {
  prefix = prefix;
  list = list;
  source = name;
  feed_id = some id;
  expires_at = none;
  created_at = now;
}

abbrev pub taken_over : String → String → PolicyRow → PolicyRow
taken_over id name row = record row { source = name; feed_id = some id }

-- INSERT INTO policies (prefix, list, source, feed_id) VALUES ...
unfoldable pub insert_prefixes :
    Time → String → String → String → List String → List PolicyRow → List PolicyRow
insert_prefixes now id name list [] rows = rows
insert_prefixes now id name list (p ∷ ps) rows =
    insert_prefixes now id name list ps
      (upsert_policy policies_key (taken_over id name) (feed_row now id name list p) rows)

abbrev pub remove_batch :
    Driver → String → List String → List PolicyRow → Attempted (Unit {0}) × List PolicyRow
remove_batch driver id batch rows =
    execute_on driver (removes_batch batch) (remove_prefixes id batch) rows

abbrev pub insert_batch :
    Driver
    → String
    → String
    → String
    → List String
    → List PolicyRow
    → Attempted (Unit {0}) × List PolicyRow
insert_batch driver id name list batch rows =
    execute_on driver (inserts_batch batch) (insert_prefixes driver.now id name list batch) rows

-- What a sync returns.
pub record Change : Type 0 where
  pub to_add : List String
  pub to_remove : List String

-- The differences that SyncFeedPolicies computes. toRemove is taken from a map, so its order in the
-- code is any order.
abbrev pub change_of : List String → List String → Change
change_of current new = record {
  to_add = lacking current new;
  to_remove = lacking new (without_repeats [] current);
}

abbrev pub synced_row : Driver → ℕ → FeedRow → FeedRow
synced_row driver count row = record row {
  prefix_count = count;
  last_sync = some driver.now_text;
  last_error = some "";
}

-- The loops of SyncFeedPolicies over what it removes and what it inserts.
unfoldable pub carry_out :
    Driver
    → String
    → String
    → String
    → Change
    → List PolicyRow
    → Attempted (Unit {0}) × List PolicyRow
carry_out driver id name list change rows =
    follow
      (λ _ kept.
        in_batches (insert_batch driver id name list) (length change.to_add) change.to_add kept)
      (in_batches (remove_batch driver id) (length change.to_remove) change.to_remove rows)

abbrev pub on_policies :
    Database → Attempted (Unit {0}) × List PolicyRow → Attempted (Unit {0}) × Database
on_policies tables (result, rows) = (result, record tables { policies = rows })

abbrev pub set_feeds : (List FeedRow → List FeedRow) → Database → Database
set_feeds change tables = record tables { feeds = change tables.feeds }

abbrev pub set_policies : (List PolicyRow → List PolicyRow) → Database → Database
set_policies change tables = record tables { policies = change tables.policies }

-- The statements of SyncFeedPolicies, on the tables of its transaction.
unfoldable pub sync_statements :
    Driver → String → String → String → List String → Database → Attempted Change × Database
sync_statements driver id name list new tables =
    let change = change_of (driver.rows_read (feed_prefixes id tables.policies)) new in
    follow (λ _ t. (ok change, t))
      (follow
        (λ _ t.
          execute_on driver updates_feed
            (set_feeds (update_feeds (synced_row driver (length new)) id)) t)
        (follow (λ _ t. on_policies t (carry_out driver id name list change t.policies))
          (execute_on driver selects_prefixes (λ t. t) tables)))

-- SyncFeedPolicies on a connection
unfoldable pub run_sync :
    Driver → String → String → String → List String → Connection → Attempted Change × Connection
run_sync driver id name list new c = transaction driver (sync_statements driver id name list new) c

-- SyncFeedPolicies, as the other calls see it.
unfoldable pub sync_feed_policies :
    Driver → String → String → String → List String → Database → Attempted Change × Database
sync_feed_policies driver id name list new db =
    read_back (run_sync driver id name list new (idle db))

-- SELECT list FROM feeds WHERE id = ?; "" if there is no row
unfoldable pub feed_list : String → List FeedRow → String
feed_list id [] = ""
feed_list id (row ∷ rows) =
    let rest = feed_list id rows in if same row.id id then row.list else rest

-- The statements of DeleteFeed, on the tables of its transaction.
unfoldable pub delete_statements :
    Driver → String → Database → Attempted (List String × String) × Database
delete_statements driver id tables =
    follow
      (λ _ t.
        (ok (driver.rows_read (feed_prefixes id tables.policies), feed_list id tables.feeds), t))
      (follow
        (λ _ t. execute_on driver deletes_feed (set_feeds (filter (λ row. not (same row.id id)))) t)
        (follow
          (λ _ t.
            execute_on driver deletes_policies
              (set_policies (filter (λ row. not (is_of_feed id row)))) t)
          (follow (λ _ t. execute_on driver selects_prefixes (λ u. u) t)
            (execute_on driver selects_feed (λ u. u) tables))))

-- DeleteFeed on a connection
unfoldable pub run_delete :
    Driver → String → Connection → Attempted (List String × String) × Connection
run_delete driver id c = transaction driver (delete_statements driver id) c

-- DeleteFeed, as the other calls see it.
unfoldable pub delete_feed :
    Driver → String → Database → Attempted (List String × String) × Database
delete_feed driver id db = read_back (run_delete driver id (idle db))
