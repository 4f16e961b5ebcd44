-- ===== src/Sql/Apart.antt =====
-- What SyncFeedPolicies and DeleteFeed leave of the other feeds.
use rtbh_panel.Common.{
  ℕ, zero, suc, ◌≡◌, refl, sym, ap, ◌∙◌, String, false, not, List, [], ◌∷◌, arith, inl, inr,
}
use rtbh_panel.Common.Lists.{take, drop, take-drop, length, filter, member, member-append}
use rtbh_panel.Common.Results.{Attempt-cases}
use rtbh_panel.Common.Texts.{string_discrete}
use rtbh_panel.Policy.{Time}
use rtbh_panel.Feed.Diff.{member-lacking}
use rtbh_panel.Sql.Tables.{
  PolicyRow, Database, policies_key, upsert_policy, feed_prefixes, is_of_feed, same,
}
use rtbh_panel.Sql.Sync.{
  Driver, Attempted, change_of, batch_size, in_batches, remove_prefixes, insert_prefixes, feed_row,
  taken_over, remove_batch, insert_batch, carry_out, sync_feed_policies, run_sync, sync_statements,
  delete_feed, run_delete, delete_statements,
}
use rtbh_panel.Sql.Synced.{owns}

module _ (id other : String) (apart : same id other ≡ false) where
  remove_prefixes_other :
      (p : String) (batch : List String) (rows : List PolicyRow)
      → owns other p (remove_prefixes id batch rows) ≡ owns other p rows
  unfolding remove_prefixes feed_prefixes member filter
  remove_prefixes_other p batch [] = refl
  remove_prefixes_other p batch (row ∷ rows) =
      let rest = remove_prefixes_other p batch rows in ground (arith, rest)

  filter_other :
      (p : String) (rows : List PolicyRow)
      → owns other p (filter (λ row. not (is_of_feed id row)) rows) ≡ owns other p rows
  unfolding feed_prefixes member filter
  filter_other p [] = refl
  filter_other p (row ∷ rows) = ground (arith, filter_other p rows)

  -- The row that an upsert takes over is one of the prefix.
  upsert_policy_other :
      (now : Time) (name list p q : String) (rows : List PolicyRow)
      → same q p ≡ false
      → owns other p
          (upsert_policy policies_key (taken_over id name) (feed_row now id name list q) rows)
        ≡ owns other p rows
  unfolding upsert_policy feed_prefixes member filter
  upsert_policy_other now name list p q [] h = ground arith
  upsert_policy_other now name list p q (row ∷ rows) h =
      let rest = upsert_policy_other now name list p q rows h in ground (arith, rest)

  insert_prefixes_other :
      (now : Time) (name list p : String) (batch : List String) (rows : List PolicyRow)
      → member string_discrete p batch ≡ false
      → owns other p (insert_prefixes now id name list batch rows) ≡ owns other p rows
  unfolding insert_prefixes member
  insert_prefixes_other now name list p [] rows h = refl
  insert_prefixes_other now name list p (q ∷ batch) rows h =
      let next =
        upsert_policy policies_key (taken_over id name) (feed_row now id name list q) rows in
      let first = upsert_policy_other now name list p q rows (ground arith) in
      let rest = insert_prefixes_other now name list p batch next (ground arith) in rest ∙ first

  -- A loop over batches without the prefix, whose steps leave it alone, leaves it alone, whether or
  -- not one of them fails.
  in_batches_other :
      (p : String) (run : List String → List PolicyRow → Attempted (Unit {0}) × List PolicyRow)
      → ((batch : List String) (rows : List PolicyRow)
          → member string_discrete p batch ≡ false
          → owns other p (run batch rows).1 ≡ owns other p rows)
      → (fuel : ℕ) (l : List String) (rows : List PolicyRow) → member string_discrete p l ≡ false
      → owns other p (in_batches run fuel l rows).1 ≡ owns other p rows
  unfolding in_batches
  in_batches_other p run step fuel [] rows h = refl
  in_batches_other p run step zero (q ∷ qs) rows h = refl
  in_batches_other p run step (suc fuel) (q ∷ qs) rows h =
      let l = q ∷ qs in
      let one = run (take batch_size l) rows in
      let parts =
        sym (member-append string_discrete p (take batch_size l) (drop batch_size l))
        ∙ ap (member string_discrete p) (take-drop batch_size l) in
      let first = step (take batch_size l) rows (ground (arith, parts)) in
      let rest =
        in_batches_other p run step fuel (drop batch_size l) one.1 (ground (arith, parts)) in
      elim (Attempt-cases one.0) [
        | inl (cause, failed) ↦ ground (arith, first)
        | inr (u, done) ↦ ground (arith, first, rest)
      ]

  -- A loop without a step that the other feed sees: the removals.
  in_batches_unseen :
      (p : String) (run : List String → List PolicyRow → Attempted (Unit {0}) × List PolicyRow)
      → ((batch : List String) (rows : List PolicyRow)
          → owns other p (run batch rows).1 ≡ owns other p rows)
      → (fuel : ℕ) (l : List String) (rows : List PolicyRow)
      → owns other p (in_batches run fuel l rows).1 ≡ owns other p rows
  unfolding in_batches
  in_batches_unseen p run step fuel [] rows = refl
  in_batches_unseen p run step zero (q ∷ qs) rows = refl
  in_batches_unseen p run step (suc fuel) (q ∷ qs) rows =
      let one = run (take batch_size (q ∷ qs)) rows in
      let first = step (take batch_size (q ∷ qs)) rows in
      let rest = in_batches_unseen p run step fuel (drop batch_size (q ∷ qs)) one.1 in
      elim (Attempt-cases one.0) [
        | inl (cause, failed) ↦ ground (arith, first)
        | inr (u, done) ↦ ground (arith, first, rest)
      ]

  carry_out_other :
      (driver : Driver) (name list p : String) (current new : List String) (rows : List PolicyRow)
      → member string_discrete p new ≡ false
      → owns other p (carry_out driver id name list (change_of current new) rows).1
        ≡ owns other p rows
  unfolding carry_out
  carry_out_other driver name list p current new rows h =
      let change = change_of current new in
      let removed =
        in_batches (remove_batch driver id) (length change.to_remove) change.to_remove rows in
      let first =
        in_batches_unseen p (remove_batch driver id)
          (λ batch before. ground (arith, remove_prefixes_other p batch before))
          (length change.to_remove) change.to_remove rows in
      let adds = member-lacking current new p in
      let second =
        in_batches_other p (insert_batch driver id name list)
          (λ batch before e.
            ground (arith, insert_prefixes_other driver.now name list p batch before e))
          (length change.to_add) change.to_add removed.1 (ground (arith, adds)) in
      elim (Attempt-cases removed.0) [
        | inl (cause, failed) ↦ ground (arith, first)
        | inr (u, done) ↦ ground (arith, first, second)
      ]

-- Whether or not they succeed: a sync of a feed leaves it as it was whether another feed has a prefix
-- that the sync was not given, and a deletion of a feed leaves the prefixes of every other feed as
-- they were.
pub owns_other-sync_feed_policies :
    (driver : Driver) (id other name list : String) (new : List String) (db : Database) (p : String)
    → same id other ≡ false
    → member string_discrete p new ≡ false
    → (owns other p (sync_feed_policies driver id name list new db).1.policies
        ≡ owns other p db.policies)
      × ((q : String)
          → owns other q (delete_feed driver id db).1.policies ≡ owns other q db.policies)
unfolding sync_feed_policies run_sync sync_statements delete_feed run_delete delete_statements
owns_other-sync_feed_policies driver id other name list new db p apart absent =
    let current = driver.rows_read (feed_prefixes id db.policies) in
    let carried =
      carry_out_other id other apart driver name list p current new db.policies absent in
    (
      elim (Attempt-cases (carry_out driver id name list (change_of current new) db.policies).0) [
        | inl (cause, failed) ↦ ground (arith, carried)
        | inr (u, done) ↦ ground (arith, carried)
      ],
      λ q. ground (arith, filter_other id other apart q db.policies),
    )
