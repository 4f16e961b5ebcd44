-- ===== src/Sql/Atomic.antt =====
-- The paths through the transactions of SyncFeedPolicies and DeleteFeed.
use rtbh_panel.Common.{
  ℕ, zero, suc, ◌≡◌, refl, String, false, not, none, List, [], ◌∷◌, map, arith, inl, inr, ◌⊎◌,
  Bool-cases,
}
use rtbh_panel.Common.Lists.{take, drop, length, filter, member}
use rtbh_panel.Common.Results.{ok, err, Attempt-cases}
use rtbh_panel.Sql.Tables.{
  FeedRow, PolicyRow, Database, feed_prefixes, is_of_feed, same, update_feeds,
}
use rtbh_panel.Sql.Sync.{
  Driver, Attempted, Change, Statement, Connection, change_of, batch_size, in_batches, remove_batch,
  insert_batch, carry_out, transaction, idle, sync_statements, delete_statements, run_sync,
  run_delete, synced_row, begins, commits,
}
use rtbh_panel.Sql.Synced.{owns}
use rtbh_panel.Sql.Feeds.{find_feed, scan_feed}

-- A call that did not work stopped it.
abbrev Stopped : {A : Type 0} → Driver → Attempted A → Type 0
Stopped driver attempt = (cause : Statement) × (attempt ≡ err cause) × (driver.works cause ≡ false)

-- A call that did not work stopped it, the committed tables are as before, and no transaction is
-- left open.
abbrev pub IsRolledBack : {A : Type 0} → Driver → Database → Attempted A × Connection → Type 0
IsRolledBack driver db (attempt, after) = Stopped driver attempt × (after ≡ idle db)

-- It succeeded, what it changed is committed, no transaction is left open, and the committed tables
-- are as demanded.
abbrev pub IsCommitted : {A : Type 0} → (Database → Type 0) → Attempted A × Connection → Type 0
IsCommitted {A} demand (attempt, after) =
    (result : A) × (attempt ≡ ok result)
    × (tables : Database) × (after ≡ idle tables)
    × demand tables

in_batches-Stopped :
    (driver : Driver) (run : List String → List PolicyRow → Attempted (Unit {0}) × List PolicyRow)
    → ((batch : List String) (rows : List PolicyRow) (cause : Statement)
        → (run batch rows).0 ≡ err cause
        → driver.works cause ≡ false)
    → (fuel : ℕ) (l : List String) (rows : List PolicyRow) (cause : Statement)
    → (in_batches run fuel l rows).0 ≡ err cause
    → driver.works cause ≡ false
unfolding in_batches
in_batches-Stopped driver run step fuel [] rows cause h = absurd (ground arith)
in_batches-Stopped driver run step zero (p ∷ ps) rows cause h = absurd (ground arith)
in_batches-Stopped driver run step (suc fuel) (p ∷ ps) rows cause h =
    let one = run (take batch_size (p ∷ ps)) rows in
    elim (Attempt-cases one.0) [
      | inl (other, failed) ↦ step (take batch_size (p ∷ ps)) rows cause (ground arith)
      | inr (u, done) ↦
          in_batches-Stopped driver run step fuel (drop batch_size (p ∷ ps)) one.1 cause
            (ground arith)
    ]

carry_out-Stopped :
    (driver : Driver) (id name list : String) (change : Change) (rows : List PolicyRow)
    (cause : Statement)
    → (carry_out driver id name list change rows).0 ≡ err cause
    → driver.works cause ≡ false
unfolding carry_out
carry_out-Stopped driver id name list change rows cause h =
    let removing =
      in_batches (remove_batch driver id) (length change.to_remove) change.to_remove rows in
    elim (Attempt-cases removing.0) [
      | inl (other, failed) ↦
          in_batches-Stopped driver (remove_batch driver id) (λ batch before c e. ground arith)
            (length change.to_remove) change.to_remove rows cause (ground arith)
      | inr (u, done) ↦
          in_batches-Stopped driver (insert_batch driver id name list)
            (λ batch before c e. ground arith) (length change.to_add) change.to_add removing.1 cause
            (ground arith)
    ]

transaction-IsRolledBack :
    {R : Type 0} (driver : Driver) (demand : Database → Type 0) (db : Database)
    (body : Database → Attempted R × Database)
    → ((cause : Statement) → (body db).0 ≡ err cause → driver.works cause ≡ false)
    → ((result : R) → (body db).0 ≡ ok result → demand (body db).1)
    → IsRolledBack driver db (transaction driver body (idle db))
      ⊎ IsCommitted demand (transaction driver body (idle db))
transaction-IsRolledBack driver demand db body stops reaches = elim (Attempt-cases (body db).0) [
  | inl (cause, failed) ↦
      let stopped = stops cause failed in
      elim (Bool-cases (driver.works begins)) [
        | inl began ↦ inl ((cause, ground arith, stopped), ground arith)
        | inr refused ↦ inl ((begins, ground arith, refused), ground arith)
      ]
  | inr (result, done) ↦ elim (Bool-cases (driver.works begins)) [
    | inr refused ↦ inl ((begins, ground arith, refused), ground arith)
    | inl began ↦ elim (Bool-cases (driver.works commits)) [
      | inl kept ↦ inr (result, ground arith, (body db).1, ground arith, reaches result done)
      | inr lost ↦ inl ((commits, ground arith, lost), ground arith)
    ]
  ]
]

sync_statements-Stopped :
    (driver : Driver) (id name list : String) (new : List String) (db : Database)
    (cause : Statement)
    → (sync_statements driver id name list new db).0 ≡ err cause
    → driver.works cause ≡ false
unfolding sync_statements
sync_statements-Stopped driver id name list new db cause h =
    let change = change_of (driver.rows_read (feed_prefixes id db.policies)) new in
    elim (Attempt-cases (carry_out driver id name list change db.policies).0) [
      | inl (other, failed) ↦
          let stopped = carry_out-Stopped driver id name list change db.policies other failed in
          ground (arith, stopped)
      | inr (u, done) ↦ ground arith
    ]

-- The status of the synced feed is set, and the audit log is as it was.
abbrev pub IsReported : Driver → String → List String → Database → Database → Type 0
IsReported driver id new db after =
    (after.feeds ≡ update_feeds (synced_row driver (length new)) id db.feeds)
    × (after.audit_logs ≡ db.audit_logs)

sync_statements-IsReported :
    (driver : Driver) (id name list : String) (new : List String) (db : Database) (change : Change)
    → (sync_statements driver id name list new db).0 ≡ ok change
    → IsReported driver id new db (sync_statements driver id name list new db).1
unfolding sync_statements
sync_statements-IsReported driver id name list new db change h =
    let made = change_of (driver.rows_read (feed_prefixes id db.policies)) new in
    elim (Attempt-cases (carry_out driver id name list made db.policies).0) [
      | inl (cause, failed) ↦ absurd (ground arith)
      | inr (u, done) ↦ (ground arith, ground arith)
    ]

-- Neither the feed nor a policy of it is left.
abbrev pub IsGone : String → Database → Type 0
IsGone id after =
    (find_feed id (map scan_feed after.feeds) ≡ none)
    × ((p : String) → owns id p after.policies ≡ false)

find_feed-filter :
    (id : String) (rows : List FeedRow)
    → find_feed id (map scan_feed (filter (λ row. not (same row.id id)) rows)) ≡ none
unfolding find_feed filter
find_feed-filter id [] = refl
find_feed-filter id (row ∷ rows) = ground (arith, find_feed-filter id rows)

owns-filter :
    (id p : String) (rows : List PolicyRow)
    → owns id p (filter (λ row. not (is_of_feed id row)) rows) ≡ false
unfolding feed_prefixes filter member
owns-filter id p [] = refl
owns-filter id p (row ∷ rows) = ground (arith, owns-filter id p rows)

delete_statements-IsGone :
    (driver : Driver) (id : String) (db : Database) (deleted : List String × String)
    → (delete_statements driver id db).0 ≡ ok deleted
    → IsGone id (delete_statements driver id db).1
unfolding delete_statements
delete_statements-IsGone driver id db deleted h = (
  ground (arith, find_feed-filter id db.feeds),
  λ p. ground (arith, owns-filter id p db.policies),
)

-- On a connection without an open transaction, SyncFeedPolicies and DeleteFeed either report a call of
-- the database that did not work, with the committed tables as they were, though statements before it
-- had changed those of the transaction; or they succeed, with their changes committed. No transaction
-- is left open in either case. A sync that succeeds has set the status of the feed, and a deletion
-- that succeeds has left neither the feed nor a policy of it.
pub run_sync-IsRolledBack :
    (driver : Driver) (id name list : String) (new : List String) (db : Database)
    → (IsRolledBack driver db (run_sync driver id name list new (idle db))
        ⊎ IsCommitted (IsReported driver id new db) (run_sync driver id name list new (idle db)))
      × (IsRolledBack driver db (run_delete driver id (idle db))
          ⊎ IsCommitted (IsGone id) (run_delete driver id (idle db)))
unfolding run_sync run_delete
run_sync-IsRolledBack driver id name list new db = (
  transaction-IsRolledBack driver (IsReported driver id new db) db
      (sync_statements driver id name list new) (sync_statements-Stopped driver id name list new db)
      (sync_statements-IsReported driver id name list new db),
  transaction-IsRolledBack driver (IsGone id) db (delete_statements driver id)
      (λ cause h. unfold delete_statements in ground arith) (delete_statements-IsGone driver id db),
)
