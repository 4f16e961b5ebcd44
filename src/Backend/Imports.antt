-- ===== src/Backend/Imports.antt =====
-- MutatePolicy and ImportFeed of dashboardBackend.
use rtbh_panel.Common.{
  ℕ, String, Bool, true, false, not, ◌&&◌, ◌||◌, Option, none, some, List, [], ◌∷◌, map,
  if◌then◌else◌,
}
use mathlib.Core.Option
use rtbh_panel.Common.Lists.{length}
use rtbh_panel.Common.Results.{ok, err}
use rtbh_panel.Net.Prefix.{Prefix}
use rtbh_panel.Policy.{Time, PolicyList, whitelist, Mutation, add}
use rtbh_panel.Controller.Apply
use rtbh_panel.Controller.Apply.{Controller}
use rtbh_panel.Controller.Service.{apply}
use rtbh_panel.Sql.Store.{sql_store}
use rtbh_panel.Backend.Feeds.{Backend, Environment, Failure, fetch_failed, controller, Fetched}

-- What ImportFeed returns besides its error.
pub record Imported : Type 0 where
  pub applied : Bool
  pub dry_run : Bool
  pub count : ℕ
  pub prefixes : List String

abbrev not_imported : Imported
not_imported = record { applied = false; dry_run = false; count = 0; prefixes = [] }

module _ {E : Type 0} (env : Environment E) where
  -- MutatePolicy, of a backend with a controller.
  unfoldable pub mutate_policy : Time → Mutation → Backend E → Option Apply.Failure × Backend E
  mutate_policy earlier m b =
      let (e, c) =
        apply env.engine (sql_store env.driver env.queries env.now_ms) env.system earlier m
          b.controller in
      (e, record b { controller = c })

  -- The loop of ImportFeed, which stops at the first error.
  unfoldable pub import_each :
      Time → PolicyList → List Prefix → Backend E → Option Apply.Failure × Backend E
  import_each earlier list [] b = (none, b)
  import_each earlier list (p ∷ ps) b =
      let (e, next) =
        mutate_policy earlier
          (record { action = add; list = list; prefix = env.system.print p; expires_at = none })
          b in
      let rest = import_each earlier list ps next in
      elim e [ some f ↦ (some f, next) | none ↦ rest ]

  abbrev import_fetched :
      Time → PolicyList → Bool → Fetched → Backend E → Option Failure × Imported × Backend E
  import_fetched earlier list applying (err text) b = (some fetch_failed, not_imported, b)
  import_fetched earlier list applying (ok prefixes) b =
      let live = applying && not env.dry_run in
      let result : Imported = record {
        applied = live;
        dry_run = not live;
        count = length prefixes;
        prefixes = map env.system.print prefixes;
      } in
      if not live
      then (none, result, b)
      else (let (e, next) = import_each earlier list prefixes b in
          (Option.map controller e, result, next))

  abbrev is_whitelist : PolicyList → Bool
  is_whitelist whitelist = true
  is_whitelist _ = false

  -- ImportFeed: the fetch depends on whether IPv4 prefixes are expanded.
  unfoldable pub import_feed :
      Time
      → (Bool → Fetched)
      → PolicyList
      → Bool
      → Bool
      → Backend E
      → Option Failure × Imported × Backend E
  import_feed earlier fetch list expand applying b =
      import_fetched earlier list applying
        (fetch (expand || (is_whitelist list && env.expand_whitelist))) b
