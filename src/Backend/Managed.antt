-- ===== src/Backend/Managed.antt =====
-- The feeds of dashboardBackend without an SQL store: the feed manager, and its handlers onSync and
-- onDelete, which NewServer sets.
use rtbh_panel.Common.{ℕ, String, Bool, not, Option, none, some, List, [], ◌∷◌, if◌then◌else◌}
use mathlib.Core.Option
use rtbh_panel.Common.Results.{Attempt, ok, err}
use rtbh_panel.Policy.{PolicyList, valid_list}
use rtbh_panel.Controller.Apply
use rtbh_panel.Controller.Apply.{Controller}
use rtbh_panel.Controller.Service.{apply_batch}
use rtbh_panel.Feed.Manager
use rtbh_panel.Feed.Manager.{FeedSource, Manager, Sync, Synced, sync_feed, source_of}
use rtbh_panel.Sql.Tables.{Database}
use rtbh_panel.Sql.Store.{sql_store}
use rtbh_panel.Backend.Feeds.{Backend, Environment, Failure, manager, controller, delete_in_sql}

module _ {E : Type 0} (env : Environment E) where
  -- The handlers: a source of another list is left alone.
  unfoldable pub on_feed :
      PolicyList
      → List String
      → List String
      → Controller E Database
      → Option Apply.Failure × Controller E Database
  on_feed list to_add to_remove c =
      if not (valid_list list)
      then (none, c)
      else apply_batch env.engine (sql_store env.driver env.queries env.now_ms) env.system list
          to_add to_remove c

  abbrev deleted_prefixes : PolicyList → List String → Backend E → Option Failure × Backend E
  deleted_prefixes list [] b = (none, b)
  deleted_prefixes list (p ∷ ps) b =
      let (e, c) = on_feed list [] (p ∷ ps) b.controller in
      (Option.map controller e, record b { controller = c })

  abbrev list_of_source : String → Manager → PolicyList
  list_of_source id m = (source_of id m.sources).list

  -- Manager.Delete with its handler.
  unfoldable pub delete_in_manager :
      Bool → String → Manager → Backend E → Option Failure × Backend E
  delete_in_manager writes id m b =
      let (prefixes, next) = Manager.delete writes id m in
      deleted_prefixes (list_of_source id m) prefixes (record b { feeds = some next })

  -- DeleteFeed
  unfoldable pub delete_feed : Bool → String → Backend E → Option Failure × Backend E
  delete_feed writes id b = elim b.controller.sql [
    | some db ↦ delete_in_sql env id db b
    | none ↦ elim b.feeds [ none ↦ (none, b) | some m ↦ delete_in_manager writes id m b ]
  ]

  -- The text of an error of the handler.
  abbrev shown_by : (Apply.Failure → String) → Option Apply.Failure → Option String
  shown_by show none = none
  shown_by show (some e) = some (show e)

  abbrev finished : ℕ → Synced → Backend E → Attempt Failure ℕ × Backend E
  finished count s b = elim s.error [
    | some e ↦ (err (manager e), record b { feeds = some s.manager })
    | none ↦ (ok count, record b { feeds = some s.manager })
  ]

  abbrev handler_called : Synced → String → Backend E → Option Apply.Failure × Controller E Database
  handler_called asked id b = elim asked.error [
    | some _ ↦ (none, b.controller)
    | none ↦ on_feed (list_of_source id asked.manager) asked.to_add asked.to_remove b.controller
  ]

  -- Manager.SyncFeed with its handler onSync: it gets the two differences, and its error is the
  -- source's last error. No other call changes the manager during the fetch.
  unfoldable pub sync_in_manager :
      (Apply.Failure → String) → Sync → String → Manager → Backend E → Attempt Failure ℕ × Backend E
  sync_in_manager show sync id m b =
      let asked = sync_feed (record sync { handler_error = none }) id m m in
      let (failed, c) = handler_called asked id b in
      let done = sync_feed (record sync { handler_error = shown_by show failed }) id m m in
      finished (source_of id done.manager.sources).prefix_count done (record b { controller = c })
