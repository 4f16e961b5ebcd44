-- ===== src/Feed/Diff.antt =====
-- What SyncFeed hands to its handler, and what it stores.
use rtbh_panel.Common.{
  ◌≡◌, refl, String, Bool, true, false, not, ◌&&◌, ◌||◌, some, List, [], ◌∷◌, ◌++◌, map, arith,
  is_some, if◌then◌else◌, Option-cases, inl, inr,
}
use rtbh_panel.Common.Lists.{filter, member, member-append}
use rtbh_panel.Common.Assoc.{lookup, lookup-insert, lookup-delete}
use rtbh_panel.Common.Texts.{string_discrete}
use rtbh_panel.Net.Prefix.{Prefix}
use rtbh_panel.Feed.Manager.{
  FeedSource, Manager, Sync, delete, without_repeats, lacking, sync_feed, put_source, finish_sync,
  source_of, put_source, finish_sync, source_of,
}

pub member-without_repeats :
    (seen ps : List String) (p : String)
    → member string_discrete p (without_repeats seen ps)
      ≡ member string_discrete p seen || member string_discrete p ps
unfolding without_repeats member
member-without_repeats seen [] p = ground arith
member-without_repeats seen (q ∷ ps) p = ground (
  arith,
  member-without_repeats (if member string_discrete q seen then seen else seen ++ q ∷ []) ps p,
  member-append string_discrete p seen (q ∷ []),
)

pub member-lacking :
    (others ps : List String) (p : String)
    → member string_discrete p (lacking others ps)
      ≡ member string_discrete p ps && not (member string_discrete p others)
unfolding lacking member filter
member-lacking others [] p = refl
member-lacking others (q ∷ ps) p = ground (arith, member-lacking others ps p)

-- A sync of a feed that is there before and after a successful fetch hands over the fetched
-- prefixes that the feed did not have, and its old prefixes that were not fetched, and no others.
pub sync_feed_difference :
    (sync : Sync) (id : String) (before m : Manager) (old : FeedSource) (ps : List Prefix)
    (p : String)
    → is_some (lookup string_discrete id before.sources) ≡ true
    → lookup string_discrete id m.sources ≡ some old
    → sync.fetched ≡ some ps
    → (member string_discrete p (sync_feed sync id before m).to_add
        ≡ member string_discrete p (map sync.print ps)
          && not (member string_discrete p old.prefixes))
      × (member string_discrete p (sync_feed sync id before m).to_remove
          ≡ member string_discrete p old.prefixes
            && not (member string_discrete p (map sync.print ps)))
unfolding sync_feed
sync_feed_difference sync id before m old ps p b h f =
    let new = without_repeats [] (map sync.print ps) in
    let fresh = member-without_repeats [] (map sync.print ps) p in
    let kept = member-without_repeats [] old.prefixes p in
    let added = member-lacking old.prefixes new p in
    let removed = member-lacking new (without_repeats [] old.prefixes) p in
    unfold member in (ground (arith, fresh, added), ground (arith, fresh, kept, removed))

put_source_present :
    (writes : Bool) (source : FeedSource) (id : String) (m : Manager)
    → is_some (lookup string_discrete id (put_source writes source id m).sources) ≡ true
put_source_present writes source id m =
    let found = lookup-insert string_discrete id id source m.sources in ground (arith, found)

finish_sync_present :
    (sync : Sync) (id : String) (source : FeedSource) (m : Manager)
    → is_some (lookup string_discrete id (finish_sync sync id source m).manager.sources) ≡ true
finish_sync_present sync id source m = elim (Option-cases sync.fetched) [
  | inl n ↦ rw n (put_source_present sync.writes_first _ id m)
  | inr (ps, f) ↦ elim (Option-cases sync.handler_error) [
    | inl n ↦ rw (f, n) (put_source_present sync.writes_first _ id m)
    | inr (t, e) ↦ rw (f, e) (put_source_present sync.writes_second _ id _)
  ]
]

-- If a feed is deleted after SyncFeed has found it and before it goes on with what it fetched, it
-- is gone after the deletion, and back after the sync.
pub sync_feed_after_delete :
    (sync : Sync) (id : String) (m : Manager) (writes : Bool)
    → is_some (lookup string_discrete id m.sources) ≡ true
    → (is_some (lookup string_discrete id (delete writes id m).1.sources) ≡ false)
      × (is_some
            (lookup string_discrete id (sync_feed sync id m (delete writes id m).1).manager.sources)
          ≡ true)
unfolding sync_feed delete
sync_feed_after_delete sync id m writes h =
    elim (Option-cases (lookup string_discrete id m.sources)) [
      | inl n ↦ absurd (ground arith)
      | inr (source, n) ↦
          let gone = lookup-delete string_discrete id id m.sources in
          let back =
            finish_sync_present sync id (source_of id (delete writes id m).1.sources)
              (delete writes id m).1 in
          (ground (arith, gone), ground (arith, back))
    ]
