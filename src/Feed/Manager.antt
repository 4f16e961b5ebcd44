-- ===== src/Feed/Manager.antt =====
-- Manager: the feed sources, their synchronization, and their schedule.
use rtbh_panel.Common.{
  ℕ, ◌+◌, ◌-◌, String, Bool, true, false, not, ◌&&◌, ◌||◌, ◌==◌, Option, none, some, List, [], ◌∷◌,
  ◌++◌, map, if◌then◌else◌, str_eq, ltb, leb,
}
use rtbh_panel.Common.Lists.{length, filter, member}
use rtbh_panel.Common.Assoc
use rtbh_panel.Common.Assoc.{lookup, insert}
use rtbh_panel.Common.Texts.{string_discrete}
use rtbh_panel.Net.Prefix.{Prefix}
use rtbh_panel.Policy.{Time, is_zero_time, PolicyList, blocklist, other, valid_list}

-- An interval below 0 is `none`. A last_sync of 0 is Go's zero time. The text of an error is the
-- environment's.
pub record FeedSource : Type 0 where
  pub id : String
  pub name : String
  pub list : PolicyList
  pub url : String
  pub interval : Option Time
  pub enabled : Bool
  pub last_sync : Time
  pub prefix_count : ℕ
  pub last_error : String
  pub expand_subnets : Bool
  pub prefixes : List String

abbrev pub Sources : Type 0
Sources = List (String × FeedSource)

-- The map in memory, and the map that the file was written from.
pub record Manager : Type 0 where
  pub has_path : Bool
  pub file : Option Sources
  pub sources : Sources
  pub woken : Bool

pub data Failure : Type 0 where
  name_required url_required not_persisted not_found fetch_failed handler_failed : Failure

-- persistLocked, whose file write fails or not
abbrev pub persist_locked : Bool → Manager → Bool × Manager
persist_locked writes m =
    if not m.has_path
    then (true, m)
    else if writes
    then (true, record m { file = some m.sources })
    else (false, m)

abbrev pub hour : Time
hour = 3_600_000_000_000

abbrev normalized : FeedSource → FeedSource
normalized s = record s {
  list = if valid_list s.list then s.list else blocklist;
  interval = elim s.interval [ none ↦ some hour | some t ↦ some t ];
}

-- The id of a new source is a random one; an existing source keeps what its syncs have set.
abbrev identified : String → Sources → FeedSource → FeedSource
identified fresh_id sources s =
    if str_eq s.id ""
    then record s { id = fresh_id }
    else elim (lookup string_discrete s.id sources) [
      | none ↦ s
      | some existing ↦ record s {
        prefixes = existing.prefixes;
        prefix_count = existing.prefix_count;
        last_sync = existing.last_sync;
      }
    ]

abbrev wake_if : Bool × Manager → Option Failure × Manager
wake_if (true, m) = (none, record m { woken = true })
wake_if (false, m) = (some not_persisted, m)

-- Save
unfoldable pub save : String → Bool → FeedSource → Manager → Option Failure × Manager
save fresh_id writes s m =
    if str_eq s.name ""
    then (some name_required, m)
    else if str_eq s.url ""
    then (some url_required, m)
    else (let kept = identified fresh_id m.sources (normalized s) in
        wake_if (
          persist_locked writes
            (record m { sources = insert string_discrete kept.id kept m.sources })))

-- Delete: the prefixes that the handler onDelete is called with; [] stands for no call.
unfoldable pub delete : Bool → String → Manager → List String × Manager
delete writes id m = elim (lookup string_discrete id m.sources) [
  | none ↦ ([], m)
  | some source ↦ (
    source.prefixes,
    (persist_locked writes (record m { sources = Assoc.delete string_discrete id m.sources })).1,
  )
]

-- A list without its repetitions, and the elements of a list that another one lacks. SyncFeed takes
-- the two differences from maps, so the code's order is any order.
unfoldable pub without_repeats : List String → List String → List String
without_repeats seen [] = seen
without_repeats seen (p ∷ ps) =
    without_repeats (if member string_discrete p seen then seen else seen ++ p ∷ []) ps

unfoldable pub lacking : List String → List String → List String
lacking others ps = filter (λ p. not (member string_discrete p others)) ps

-- What the environment of a sync gives: the clock, the fetch, the text of prefixes, whether the
-- handler onSync reports an error, and whether each of the two writes works.
pub record Sync : Type 0 where
  pub now : Time
  pub fetched : Option (List Prefix)
  pub fetch_error : String
  pub print : Prefix → String
  pub handler_error : Option String
  pub writes_first : Bool
  pub writes_second : Bool

abbrev pub put_source : Bool → FeedSource → String → Manager → Manager
put_source writes source id m =
    (persist_locked writes (record m { sources = insert string_discrete id source m.sources })).1

-- After the handler was called with the two differences.
abbrev pub handled : Sync → FeedSource → String → Manager → Option Failure × Manager
handled sync source id m = elim sync.handler_error [
  | none ↦ (none, m)
  | some text ↦ (
    some handler_failed,
    put_source sync.writes_second (record source { last_error = text }) id m,
  )
]

-- What m.sources[id] is when no source has the id.
abbrev zero_source : FeedSource
zero_source = record {
  id = "";
  name = "";
  list = other "";
  url = "";
  interval = some 0;
  enabled = false;
  last_sync = 0;
  prefix_count = 0;
  last_error = "";
  expand_subnets = false;
  prefixes = [];
}

abbrev pub source_of : String → Sources → FeedSource
source_of id sources = elim (lookup string_discrete id sources) [ none ↦ zero_source | some s ↦ s ]

-- The error of SyncFeed, toAdd and toRemove, and the manager.
pub record Synced : Type 0 where
  pub error : Option Failure
  pub to_add : List String
  pub to_remove : List String
  pub manager : Manager

abbrev synced_with : List String → List String → Option Failure × Manager → Synced
synced_with add remove (e, m) = record { error = e; to_add = add; to_remove = remove; manager = m }

-- SyncFeed after the fetch, from "Re-check under lock"
abbrev pub finish_sync : Sync → String → FeedSource → Manager → Synced
finish_sync sync id source m = elim sync.fetched [
  | none ↦ synced_with [] [] (
    some fetch_failed,
    put_source sync.writes_first
        (record source { last_sync = sync.now; last_error = sync.fetch_error }) id m,
  )
  | some prefixes ↦
      (let new = without_repeats [] (map sync.print prefixes) in
        let synced = record source {
          last_sync = sync.now;
          last_error = "";
          prefix_count = length new;
          prefixes = new;
        } in
        synced_with (lacking source.prefixes new) (lacking new (without_repeats [] source.prefixes))
          (handled sync synced id (put_source sync.writes_first synced id m)))
]

-- SyncFeed: it looks the id up, fetches without the lock, and goes on with the manager that there is
-- then.
unfoldable pub sync_feed : Sync → String → Manager → Manager → Synced
sync_feed sync id before m = elim (lookup string_discrete id before.sources) [
  | none ↦ synced_with [] [] (some not_found, m)
  | some _ ↦ finish_sync sync id (source_of id m.sources) m
]

-- now.Sub(s.LastSync) is negative where the last sync lies ahead of the clock.
abbrev pub is_due : Time → Time → Time → Bool
is_due now last_sync interval =
    is_zero_time last_sync || (leb last_sync now && leb interval (now - last_sync))

abbrev pub remaining : Time → Time → Time → Time
remaining now last_sync interval = (interval + last_sync) - now

-- The loop of Run over the sources: which are due, and how long to wait for the next.
unfoldable pub schedule : Time → Time → Sources → List String × Time
schedule now next_run [] = ([], next_run)
schedule now next_run ((id, s) ∷ rest) = elim s.interval [
  | none ↦ schedule now next_run rest
  | some interval ↦
      if not s.enabled || (interval == 0)
      then schedule now next_run rest
      else if is_due now s.last_sync interval
      then (let (due, wait) = schedule now next_run rest in (id ∷ due, wait))
      else schedule now
          (if ltb (remaining now s.last_sync interval) next_run
            then remaining now s.last_sync interval
            else next_run)
          rest
]
