-- ===== src/Sql/Synced.antt =====
-- What a sync of a feed leaves in the table of policies.
use rtbh_panel.Common.{
  ℕ, zero, suc, ◌≤◌, ◌≡◌, sym, ap, ◌∙◌, String, Bool, false, not, ◌&&◌, ◌||◌, List, [], ◌∷◌, arith,
  inl, inr, refl, subst, Bool-cases,
}
use rtbh_panel.Common.Lists.{take, drop, take-drop, length, filter, member, member-append}
use rtbh_panel.Common.Results.{ok, err, Attempt-cases}
use rtbh_panel.Common.Texts.{string_discrete}
use rtbh_panel.Policy.{Time}
use rtbh_panel.Feed.Manager.{without_repeats}
use rtbh_panel.Feed.Diff.{member-without_repeats, member-lacking}
use rtbh_panel.Sql.Tables.{PolicyRow, Database, policies_key, upsert_policy, feed_prefixes, same}
use rtbh_panel.Sql.Sync.{
  Driver, Attempted, Change, change_of, batch_size, in_batches, remove_prefixes, insert_prefixes,
  feed_row, taken_over, remove_batch, insert_batch, carry_out, sync_feed_policies, removes_batch,
  inserts_batch, execute_on, follow, Statement, run_sync, sync_statements,
}

-- A step that is followed by another one without an error had none.
pub follow_ok :
    {S A B : Type 0} (next : A → S → Attempted B × S) (x : Attempted A × S) (b : B)
    → (follow next x).0 ≡ ok b
    → (a : A) × (x.0 ≡ ok a) × (follow next x ≡ next a x.1)
follow_ok next (err cause, s) b h = absurd (ground arith)
follow_ok next (ok a, s) b h = (a, refl, refl)

-- Whether a prefix is of a feed.
abbrev pub owns : String → String → List PolicyRow → Bool
owns id p rows = member string_discrete p (feed_prefixes id rows)

owns-remove_prefixes :
    (id p : String) (batch : List String) (rows : List PolicyRow)
    → owns id p (remove_prefixes id batch rows)
      ≡ owns id p rows && not (member string_discrete p batch)
unfolding remove_prefixes feed_prefixes member filter
owns-remove_prefixes id p batch [] = ground (arith)
owns-remove_prefixes id p batch (row ∷ rows) =
    let rest = owns-remove_prefixes id p batch rows in ground (arith, rest)

owns-upsert_policy :
    (now : Time) (id name list p q : String) (rows : List PolicyRow)
    → owns id p (upsert_policy policies_key (taken_over id name) (feed_row now id name list q) rows)
      ≡ owns id p rows || same q p
unfolding upsert_policy feed_prefixes member filter
owns-upsert_policy now id name list p q [] = ground (arith)
owns-upsert_policy now id name list p q (row ∷ rows) =
    let rest = owns-upsert_policy now id name list p q rows in ground (arith, rest)

owns-insert_prefixes :
    (now : Time) (id name list p : String) (batch : List String) (rows : List PolicyRow)
    → owns id p (insert_prefixes now id name list batch rows)
      ≡ owns id p rows || member string_discrete p batch
unfolding insert_prefixes member
owns-insert_prefixes now id name list p [] rows = ground (arith)
owns-insert_prefixes now id name list p (q ∷ batch) rows =
    let next = upsert_policy policies_key (taken_over id name) (feed_row now id name list q) rows in
    let first = owns-upsert_policy now id name list p q rows in
    let rest = owns-insert_prefixes now id name list p batch next in ground (arith, first, rest)

length-drop_le :
    {A : Type 0} (n : ℕ) (x : A) (l : List A) → length (drop (suc n) (x ∷ l)) ≤ length l
unfolding drop
length-drop_le zero x l = omega arith
length-drop_le (suc n) x [] = omega arith
length-drop_le (suc n) x (y ∷ l) = omega (arith, length-drop_le n y l)

-- A loop over batches has, on the prefixes of a feed, the effect of one statement on all of them.
module _ (id p : String) (op : Bool → Bool → Bool) (op_none : (a : Bool) → op a false ≡ a)
    (op_twice : (a b c : Bool) → op (op a b) c ≡ op a (b || c))
    (run : List String → List PolicyRow → Attempted (Unit {0}) × List PolicyRow)
    (step : (batch : List String) (rows : List PolicyRow)
      → (run batch rows).0 ≡ ok tt
      → owns id p (run batch rows).1 ≡ op (owns id p rows) (member string_discrete p batch)) where
  owns-in_batches :
      (fuel : ℕ) (l : List String) (rows : List PolicyRow)
      → length l ≤ fuel
      → (in_batches run fuel l rows).0 ≡ ok tt
      → owns id p (in_batches run fuel l rows).1 ≡ op (owns id p rows) (member string_discrete p l)
  unfolding in_batches
  owns-in_batches fuel [] rows enough h =
      let none = op_none (owns id p rows) in unfold member in sym none
  owns-in_batches zero (q ∷ qs) rows enough h = absurd (ground arith)
  owns-in_batches (suc fuel) (q ∷ qs) rows enough h =
      let l = q ∷ qs in
      let rest = drop batch_size l in
      let one = run (take batch_size l) rows in
      let (u, first, whole) = follow_ok (λ _ next. in_batches run fuel rest next) one tt h in
      let shorter = length-drop_le 499 q qs in
      let fuelled : length rest ≤ fuel = omega (arith, shorter, enough) in
      let second : (in_batches run fuel rest one.1).0 ≡ ok tt = ap (λ x. x.0) (sym whole) ∙ h in
      let after = owns-in_batches fuel rest one.1 fuelled second in
      let before = step (take batch_size l) rows first in
      let parts = member-append string_discrete p (take batch_size l) rest in
      ap (λ x. owns id p x.1) whole
      ∙ after
      ∙ ap (λ b. op b (member string_discrete p rest)) before
      ∙ op_twice (owns id p rows) (member string_discrete p (take batch_size l))
          (member string_discrete p rest)
      ∙ ap (op (owns id p rows))
          (sym parts ∙ ap (member string_discrete p) (take-drop batch_size l))

execute_on_ok :
    {S : Type 0} (driver : Driver) (statement : Statement) (change : S → S) (s : S)
    → (execute_on driver statement change s).0 ≡ ok tt
    → (execute_on driver statement change s).1 ≡ change s
execute_on_ok driver statement change s h = elim (Bool-cases (driver.works statement)) [
  | inl works ↦ rw works refl
  | inr fails ↦ absurd (ground arith)
]

owns_remove_batches :
    (driver : Driver) (id p : String) (l : List String) (rows : List PolicyRow)
    → (in_batches (remove_batch driver id) (length l) l rows).0 ≡ ok tt
    → owns id p (in_batches (remove_batch driver id) (length l) l rows).1
      ≡ owns id p rows && not (member string_discrete p l)
owns_remove_batches driver id p l rows h =
    owns-in_batches id p (λ a b. a && not b) (λ a. ground arith) (λ a b c. ground arith)
      (remove_batch driver id)
      (λ batch before e.
        ap (owns id p)
          (execute_on_ok driver (removes_batch batch) (remove_prefixes id batch) before e)
        ∙ owns-remove_prefixes id p batch before)
      (length l) l rows (omega arith) h

owns_insert_batches :
    (driver : Driver) (id name list p : String) (l : List String) (rows : List PolicyRow)
    → (in_batches (insert_batch driver id name list) (length l) l rows).0 ≡ ok tt
    → owns id p (in_batches (insert_batch driver id name list) (length l) l rows).1
      ≡ owns id p rows || member string_discrete p l
owns_insert_batches driver id name list p l rows h =
    owns-in_batches id p (λ a b. a || b) (λ a. ground arith) (λ a b c. ground arith)
      (insert_batch driver id name list)
      (λ batch before e.
        ap (owns id p) (
          execute_on_ok driver (inserts_batch batch) (insert_prefixes driver.now id name list batch)
            before e)
        ∙ owns-insert_prefixes driver.now id name list p batch before)
      (length l) l rows (omega arith) h

owns-carry_out :
    (driver : Driver) (id name list p : String) (new : List String) (rows : List PolicyRow)
    → (carry_out driver id name list (change_of (feed_prefixes id rows) new) rows).0 ≡ ok tt
    → owns id p (carry_out driver id name list (change_of (feed_prefixes id rows) new) rows).1
      ≡ member string_discrete p new
unfolding carry_out
owns-carry_out driver id name list p new rows h =
    let current = feed_prefixes id rows in
    let change = change_of current new in
    let removed =
      in_batches (remove_batch driver id) (length change.to_remove) change.to_remove rows in
    let inserts = λ (kept : List PolicyRow).
      in_batches (insert_batch driver id name list) (length change.to_add) change.to_add kept in
    let (u, first, whole) = follow_ok (λ _ kept. inserts kept) removed tt h in
    let second : (inserts removed.1).0 ≡ ok tt = ap (λ x. x.0) (sym whole) ∙ h in
    let one = owns_remove_batches driver id p change.to_remove rows first in
    let two = owns_insert_batches driver id name list p change.to_add removed.1 second in
    let adds = member-lacking current new p in
    let removes = member-lacking new (without_repeats [] current) p in
    let listed = member-without_repeats [] current p in
    ap (λ x. owns id p x.1) whole ∙ unfold member in ground (arith, one, two, adds, removes, listed)

-- What a sync without an error has done.
sync_feed_policies_ok :
    (driver : Driver) (id name list : String) (new : List String) (db : Database) (change : Change)
    → (sync_feed_policies driver id name list new db).0 ≡ ok change
    → (change_of (driver.rows_read (feed_prefixes id db.policies)) new ≡ change)
      × ((carry_out driver id name list
            (change_of (driver.rows_read (feed_prefixes id db.policies)) new)
            db.policies).0
          ≡ ok tt)
      × ((sync_feed_policies driver id name list new db).1.policies
          ≡ (carry_out driver id name list
              (change_of (driver.rows_read (feed_prefixes id db.policies)) new)
              db.policies).1)
unfolding sync_feed_policies run_sync sync_statements
sync_feed_policies_ok driver id name list new db change h =
    let made = change_of (driver.rows_read (feed_prefixes id db.policies)) new in
    elim (Attempt-cases (carry_out driver id name list made db.policies).0) [
      | inl (cause, failed) ↦ absurd (ground arith)
      | inr (u, done) ↦ (ground arith, ground arith, ground arith)
    ]

-- A sync of a feed that succeeds, and that read every row of the feed, leaves the feed with exactly
-- the prefixes it was given. It reports those that the feed did not have as added, and those it had
-- that were not given as removed.
pub feed_prefixes-sync_feed_policies :
    (driver : Driver) (id name list : String) (new : List String) (db : Database) (p : String)
    (change : Change)
    → driver.rows_read (feed_prefixes id db.policies) ≡ feed_prefixes id db.policies
    → (sync_feed_policies driver id name list new db).0 ≡ ok change
    → (owns id p (sync_feed_policies driver id name list new db).1.policies
        ≡ member string_discrete p new)
      × (member string_discrete p change.to_add
          ≡ member string_discrete p new && not (owns id p db.policies))
      × (member string_discrete p change.to_remove
          ≡ owns id p db.policies && not (member string_discrete p new))
feed_prefixes-sync_feed_policies driver id name list new db p change read h =
    let current = feed_prefixes id db.policies in
    let (made, done, left) = sync_feed_policies_ok driver id name list new db change h in
    let exact : change_of current new ≡ change =
      ap (λ rows. change_of rows new) (sym read) ∙ made in
    let carried : (carry_out driver id name list (change_of current new) db.policies).0 ≡ ok tt =
      subst (λ rows. (carry_out driver id name list (change_of rows new) db.policies).0 ≡ ok tt)
        read done in
    let same_rows : (sync_feed_policies driver id name list new db).1.policies
        ≡ (carry_out driver id name list (change_of current new) db.policies).1 =
      left ∙ ap (λ rows. (carry_out driver id name list (change_of rows new) db.policies).1) read in
    let adds = member-lacking current new p in
    let removes = member-lacking new (without_repeats [] current) p in
    let listed = member-without_repeats [] current p in
    (
      ap (owns id p) same_rows ∙ owns-carry_out driver id name list p new db.policies carried,
      ap (λ (c : Change). member string_discrete p c.to_add) (sym exact) ∙ ground (arith, adds),
      ap (λ (c : Change). member string_discrete p c.to_remove) (sym exact)
          ∙ unfold member in ground (arith, removes, listed),
    )
