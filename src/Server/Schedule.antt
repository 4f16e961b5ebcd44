-- ===== src/Server/Schedule.antt =====
-- The feeds that are due in runSQLFeedSync, and the SyncFeed of Server. An interval is below 2 ^ 63
-- nanoseconds.
use rtbh_panel.Common.{
  ℕ, suc, ◌-◌, ◌*◌, String, Bool, true, false, not, ◌&&◌, ◌||◌, ◌==◌, leb, Option, none, some, List,
  [], ◌∷◌, if◌then◌else◌, str_eq,
}
use rtbh_panel.Net.Prefix.{Prefix}
use rtbh_panel.Policy.{Time, PolicyList, blocklist, whitelist, add}
use rtbh_panel.PolicyStore.Disk.{System}
use rtbh_panel.Controller.Interface.{RouteEngine}
use rtbh_panel.Controller.Apply
use rtbh_panel.Controller.Apply.{SqlStore, Controller}
use rtbh_panel.Controller.Service.{apply}
use rtbh_panel.Sql.Feeds.{FeedSource}

-- time.Parse with the two layouts of last_sync, RFC 3339 and the one that a sync writes.
pub record Layouts : Type 0 where
  pub rfc3339 : String → Option Time
  pub written : String → Option Time

-- now.Sub(t) >= interval; it is below 0 where t lies ahead of the clock.
abbrev elapsed : Time → ℕ → Time → Bool
elapsed now interval t = leb t now && leb (interval * 1_000_000_000) (now - t)

abbrev due_since : Layouts → Time → FeedSource → Bool
due_since layouts now f = elim (layouts.rfc3339 f.last_sync) [
  | some t ↦ elapsed now f.interval t
  | none ↦ elim (layouts.written f.last_sync) [ some t ↦ elapsed now f.interval t | none ↦ true ]
]

unfoldable pub is_due : Layouts → Time → FeedSource → Bool
is_due layouts now f =
    if not f.enabled || (f.interval == 0)
    then false
    else if str_eq f.last_sync ""
    then true
    else due_since layouts now f

-- The ids that syncDue syncs, in turn.
unfoldable pub due_feeds : Layouts → Time → List FeedSource → List String
due_feeds layouts now [] = []
due_feeds layouts now (f ∷ feeds) =
    let rest = due_feeds layouts now feeds in if is_due layouts now f then f.id ∷ rest else rest

module _ {E D : Type 0} (g : RouteEngine E) (q : SqlStore D) (sys : System) (earlier : Time) where
  -- The loop of Server.SyncFeed: how many prefixes were applied before the first error.
  unfoldable pub apply_prefixes :
      PolicyList → List Prefix → ℕ → Controller E D → ℕ × Option Apply.Failure × Controller E D
  apply_prefixes list [] applied c = (applied, none, c)
  apply_prefixes list (p ∷ ps) applied c =
      let (e, next) =
        apply g q sys earlier
          (record { action = add; list = list; prefix = sys.print p; expires_at = none }) c in
      let rest = apply_prefixes list ps (suc applied) next in
      elim e [ some f ↦ (applied, some f, next) | none ↦ rest ]

  -- Why SyncFeed of Server returns an error.
  pub data SyncFailure : Type 0 where
    fetch_failed : SyncFailure
    apply_failed : Apply.Failure → SyncFailure

  abbrev applied_prefixes :
      ℕ × Option Apply.Failure × Controller E D → ℕ × Option SyncFailure × Controller E D
  applied_prefixes (n, none, c) = (n, none, c)
  applied_prefixes (n, some f, c) = (n, some (apply_failed f), c)

  -- SyncFeed of Server, with what the fetch of its source gives.
  unfoldable pub sync_source :
      PolicyList
      → String
      → Option (List Prefix)
      → Controller E D
      → ℕ × Option SyncFailure × Controller E D
  sync_source list source fetched c = if str_eq source "" then (0, none, c) else elim fetched [
    | none ↦ (0, some fetch_failed, c)
    | some prefixes ↦ applied_prefixes (apply_prefixes list prefixes 0 c)
  ]

  -- syncAll of runFeedSync: the whitelist comes first, and errors are only logged.
  unfoldable pub sync_all :
      String
      → String
      → Option (List Prefix)
      → Option (List Prefix)
      → Controller E D
      → Controller E D
  sync_all whitelist_feed blocklist_feed allowed blocked c =
      let (_, _, first) = sync_source whitelist whitelist_feed allowed c in
      let (_, _, both) = sync_source blocklist blocklist_feed blocked first in both
