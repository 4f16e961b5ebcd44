-- ===== src/Feed/Rounds.antt =====
-- Manager.Run: one round of its loop, from the reading of the sources to the wait.
use rtbh_panel.Common.{
  String, Bool, true, ◌≡◌, refl, ◌∙◌, ite, map, Option, none, some, List, [], ◌∷◌, arith,
  Option-cases, inl, inr, if◌then◌else◌, is_some, false, ◌&&◌, ◌||◌, ◌+◌, leb, ltb,
}
use rtbh_panel.Common.Lists.{member, length, distinct}
use rtbh_panel.Common.Assoc.{lookup, insert, lookup-insert, keys, member-keys}
use rtbh_panel.Common.Texts.{string_discrete}
use rtbh_panel.Policy.{Time, is_zero_time}
use rtbh_panel.Feed.Manager.{
  Sources, hour, FeedSource, Manager, Sync, sync_feed, schedule, remaining, put_source, source_of,
  finish_sync, without_repeats,
}

-- The syncs of the sources that are due, each in what its environment gives; errors are dropped.
unfoldable pub run_due : (String → Sync) → List String → Manager → Manager
run_due sync [] m = m
run_due sync (id ∷ ids) m = run_due sync ids (sync_feed (sync id) id m m).manager

-- A round: the wait that follows it, and the manager.
unfoldable pub round : Time → (String → Sync) → Manager → Time × Manager
round now sync m =
    let (due, next_run) = schedule now hour m.sources in (next_run, run_due sync due m)

-- When the source of an id was synced last.
unfoldable pub synced_at : String → Manager → Option Time
synced_at id m = elim (lookup string_discrete id m.sources) [
  | none ↦ none
  | some s ↦ some s.last_sync
]

put_source_sources :
    (writes : Bool) (source : FeedSource) (id : String) (m : Manager)
    → (put_source writes source id m).sources ≡ insert string_discrete id source m.sources
put_source_sources writes source id m = ground arith

put_source_at :
    (writes : Bool) (source : FeedSource) (id other : String) (m : Manager)
    → synced_at other (put_source writes source id m)
      ≡ ite (string_discrete id other) (some source.last_sync) (synced_at other m)
unfolding synced_at
put_source_at writes source id other m =
    let same = put_source_sources writes source id m in
    let found = lookup-insert string_discrete id other source m.sources in
    ground (arith, same, found)

finish_sync_at :
    (sync : Sync) (id other : String) (source : FeedSource) (m : Manager)
    → synced_at other (finish_sync sync id source m).manager
      ≡ ite (string_discrete id other) (some sync.now) (synced_at other m)
finish_sync_at sync id other source m = elim (Option-cases sync.fetched) [
  | inl n ↦
      let failed : FeedSource = record source {
        last_sync = sync.now;
        last_error = sync.fetch_error;
      } in
      ground (arith, put_source_at sync.writes_first failed id other m)
  | inr (prefixes, n) ↦
      let new = without_repeats [] (map sync.print prefixes) in
      let synced : FeedSource = record source {
        last_sync = sync.now;
        last_error = "";
        prefix_count = length new;
        prefixes = new;
      } in
      let first = put_source sync.writes_first synced id m in
      let once = put_source_at sync.writes_first synced id other m in
      elim (Option-cases sync.handler_error) [
        | inl h ↦ ground (arith, once)
        | inr (text, h) ↦
            let told : FeedSource = record synced { last_error = text } in
            let twice = put_source_at sync.writes_second told id other first in
            ground (arith, once, twice)
      ]
]

sync_feed_at :
    (sync : Sync) (id other : String) (m : Manager)
    → is_some (lookup string_discrete id m.sources) ≡ true
    → synced_at other (sync_feed sync id m m).manager
      ≡ ite (string_discrete id other) (some sync.now) (synced_at other m)
unfolding sync_feed
sync_feed_at sync id other m h =
    ground (arith, finish_sync_at sync id other (source_of id m.sources) m)

-- A source is there exactly if it has a time of its last sync.
synced_at-some :
    (id : String) (m : Manager)
    → is_some (synced_at id m) ≡ is_some (lookup string_discrete id m.sources)
unfolding synced_at
synced_at-some id m = ground arith

run_due_at :
    (sync : String → Sync) (ids : List String) (other : String) (m : Manager)
    → ((id : String) → member string_discrete id ids ≡ true → is_some (synced_at id m) ≡ true)
    → synced_at other (run_due sync ids m)
      ≡ (if member string_discrete other ids then some (sync other).now else synced_at other m)
unfolding run_due member
run_due_at sync [] other m h = refl
run_due_at sync (id ∷ ids) other m h =
    let next = (sync_feed (sync id) id m m).manager in
    let first = h id (ground arith) in
    let here_first = synced_at-some id m in
    let there : is_some (lookup string_discrete id m.sources) ≡ true = ground arith in
    let still : (k : String)
        → member string_discrete k ids ≡ true
        → is_some (synced_at k next) ≡ true =
      λ k e. ground (arith, sync_feed_at (sync id) id k m there, h k) in
    let rest = run_due_at sync ids other next still in
    let once = sync_feed_at (sync id) id other m there in ground (arith, rest, once)

schedule_known :
    (now wait : Time) (l : Sources) (id : String)
    → member string_discrete id (schedule now wait l).0 ≡ true
    → is_some (lookup string_discrete id l) ≡ true
unfolding schedule member lookup
schedule_known now wait [] id h = absurd (ground arith)
schedule_known now wait ((k, s) ∷ rest) id h = elim (Option-cases s.interval) [
  | inl n ↦ ground (arith, schedule_known now wait rest id)
  | inr (interval, n) ↦ ground (
    arith,
    schedule_known now wait rest id,
    schedule_known now (remaining now s.last_sync interval) rest id,
  )
]

-- A source that is to be synced now: it is enabled, its interval is positive, and it has never been
-- synced or its interval has passed since.
abbrev pub needs_sync : Time → FeedSource → Bool
needs_sync now s = elim s.interval [
  | none ↦ false
  | some interval ↦
      s.enabled
      && (ltb 0 interval && (is_zero_time s.last_sync || leb (s.last_sync + interval) now))
]

abbrev pub needed : Time → Option FeedSource → Bool
needed now none = false
needed now (some s) = needs_sync now s

-- The ids that the loop of Run collects are those of the sources that are to be synced.
schedule-needed :
    (now wait : Time) (l : Sources) (id : String)
    → distinct string_discrete (keys l) ≡ true
    → member string_discrete id (schedule now wait l).0 ≡ needed now (lookup string_discrete id l)
unfolding schedule member lookup distinct
schedule-needed now wait [] id h = refl
schedule-needed now wait ((k, s) ∷ rest) id h =
    let absent = member-keys string_discrete k rest in
    elim (Option-cases s.interval) [
      | inl n ↦ elim (string_discrete k id) [
        | yes e ↦ ground (arith, schedule-needed now wait rest k, absent)
        | no other ↦ ground (arith, schedule-needed now wait rest id)
      ]
      | inr (interval, n) ↦
          let later =
            if ltb (remaining now s.last_sync interval) wait
            then remaining now s.last_sync interval
            else wait in
          elim (string_discrete k id) [
            | yes e ↦
                ground
                  (arith, schedule-needed now wait rest k, schedule-needed now later rest k, absent)
            | no other ↦
                ground (arith, schedule-needed now wait rest id, schedule-needed now later rest id)
          ]
    ]

-- A round of Run, over a map of sources, whose ids are distinct, syncs each source that is enabled,
-- has a positive interval, and has never been synced or last that interval ago or more, and no other:
-- afterwards the time of its last sync is the one that its sync read from the clock, whether or not
-- the fetch, the handler and the writes worked, and every other source has the time that it had.
pub round_synced :
    (now : Time) (sync : String → Sync) (m : Manager) (id : String)
    → distinct string_discrete (keys m.sources) ≡ true
    → synced_at id (round now sync m).1 ≡ (
        if needed now (lookup string_discrete id m.sources)
        then some (sync id).now
        else synced_at id m)
unfolding round
round_synced now sync m id apart =
    let synced =
      run_due_at sync (schedule now hour m.sources).0 id m
        (λ k e. synced_at-some k m ∙ schedule_known now hour m.sources k e) in
    let chosen = schedule-needed now hour m.sources id apart in ground (arith, synced, chosen)
