-- ===== src/Backend/Synced.antt =====
-- What SyncFeed of the backend leaves in the SQL store.
use rtbh_panel.Common.{
  ℕ, ◌≡◌, refl, ap, ◌∙◌, String, some, List, [], ◌∷◌, map, arith, inl, inr, Option-cases, sym,
  subst,
}
use rtbh_panel.Common.Lists.{length, member}
use rtbh_panel.Common.Results.{ok, Attempt-cases}
use rtbh_panel.Common.Texts.{string_discrete}
use rtbh_panel.Net.Prefix.{Prefix}
use rtbh_panel.Policy.{PolicyList, blocklist, whitelist, other}
use rtbh_panel.PolicyStore.Disk.{System}
use rtbh_panel.Controller.Interface.{RouteEngine}
use rtbh_panel.Controller.Apply.{SqlStore, Controller}
use rtbh_panel.Controller.Service.{each, withdraw_one, announce_one, apply_batch, on_blocklist}
use rtbh_panel.Sql.Tables.{Database, feed_prefixes}
use rtbh_panel.Sql.Sync.{sync_feed_policies}
use rtbh_panel.Sql.Store.{sql_store, list_of}
use rtbh_panel.Sql.Synced.{owns, feed_prefixes-sync_feed_policies}
use rtbh_panel.Sql.Feeds.{FeedSource, list_feeds, find_feed, update_feed_status}
use rtbh_panel.Backend.Feeds.{Backend, Environment, sync_in_sql}

module _ {E : Type 0} (g : RouteEngine E) (q : SqlStore Database) where
  on_blocklist_sql :
      (sys : System) (f : Prefix → Controller E Database → Controller E Database)
      → ((p : Prefix) (c : Controller E Database) → (f p c).sql ≡ c.sql)
      → (list : PolicyList) (text : String) (c : Controller E Database)
      → (on_blocklist g q sys f list text c).sql ≡ c.sql
  on_blocklist_sql sys f keeps blocklist text c = elim (Option-cases (sys.parse text)) [
    | inl n ↦ ground (arith)
    | inr (p, n) ↦ let kept = keeps p c in ground (arith, kept)
  ]
  on_blocklist_sql sys f keeps whitelist text c = refl
  on_blocklist_sql sys f keeps (other name) text c = refl

  each_sql :
      (sys : System) (f : Prefix → Controller E Database → Controller E Database)
      → ((p : Prefix) (c : Controller E Database) → (f p c).sql ≡ c.sql)
      → (list : PolicyList) (texts : List String) (c : Controller E Database)
      → (each g q sys f list texts c).sql ≡ c.sql
  unfolding each
  each_sql sys f keeps list [] c = refl
  each_sql sys f keeps list (text ∷ texts) c =
      each_sql sys f keeps list texts (on_blocklist g q sys f list text c)
      ∙ on_blocklist_sql sys f keeps list text c

  withdraw_one_sql : (p : Prefix) (c : Controller E Database) → (withdraw_one g q p c).sql ≡ c.sql
  unfolding withdraw_one
  withdraw_one_sql p c = ground (arith)

  announce_one_sql : (p : Prefix) (c : Controller E Database) → (announce_one g q p c).sql ≡ c.sql
  unfolding announce_one
  announce_one_sql p c = ground (arith)

  apply_batch_sql :
      (sys : System) (list : PolicyList) (to_add to_remove : List String)
      (c : Controller E Database)
      → (apply_batch g q sys list to_add to_remove c).1.sql ≡ c.sql
  unfolding apply_batch
  apply_batch_sql sys list to_add to_remove c =
      let first = each_sql sys (withdraw_one g q) withdraw_one_sql list to_remove c in
      let second =
        each_sql sys (announce_one g q) announce_one_sql list to_add
          (each g q sys (withdraw_one g q) list to_remove c) in
      ground (arith, first, second)

find_feed_id :
    (id : String) (feeds : List FeedSource) (target : FeedSource)
    → find_feed id feeds ≡ some target
    → target.id ≡ id
unfolding find_feed
find_feed_id id [] target h = absurd (ground arith)
find_feed_id id (f ∷ feeds) target h = elim (string_discrete f.id id) [
  | yes e ↦ let first : f ≡ target = ground arith in ap (λ (s : FeedSource). s.id) (sym first) ∙ e
  | no n ↦ find_feed_id id feeds target (ground arith)
]

-- A sync of the feed of an id in the SQL store that succeeds, with every row of the feed read, leaves
-- the feed of that id with exactly the prefixes that were fetched, and returns their count.
pub owns-sync_in_sql :
    {E : Type 0} (env : Environment E) (id : String) (fetched : List Prefix) (db : Database)
    (b : Backend E) (n : ℕ)
    → env.driver.rows_read (feed_prefixes id db.policies) ≡ feed_prefixes id db.policies
    → (sync_in_sql env id (ok fetched) db b).0 ≡ ok n
    → (after : Database) × ((sync_in_sql env id (ok fetched) db b).1.controller.sql ≡ some after)
      × ((p : String)
          → owns id p after.policies ≡ member string_discrete p (map env.system.print fetched))
      × (n ≡ length (map env.system.print fetched))
unfolding sync_in_sql
owns-sync_in_sql env id fetched db b n reads h =
    elim (Attempt-cases (list_feeds env.driver env.by_name db)) [
      | inl (e, failed) ↦ absurd (ground arith)
      | inr (feeds, listed) ↦ elim (Option-cases (find_feed id feeds)) [
        | inl missing ↦ absurd (ground arith)
        | inr (target, found) ↦
            let named = find_feed_id id feeds target found in
            let new = map env.system.print fetched in
            let out = sync_feed_policies env.driver target.id target.name target.list new db in
            elim (Attempt-cases out.0) [
              | inl (e, failed) ↦ absurd (ground arith)
              | inr (change, done) ↦
                  let after =
                    (update_feed_status env.driver target.id (length new) env.driver.now_text ""
                      out.1).1 in
                  let kept : after.policies ≡ out.1.policies =
                    unfold update_feed_status in ground arith in
                  let read : env.driver.rows_read (feed_prefixes target.id db.policies)
                      ≡ feed_prefixes target.id db.policies =
                    subst
                      (λ k.
                        env.driver.rows_read (feed_prefixes k db.policies)
                        ≡ feed_prefixes k db.policies)
                      (sym named) reads in
                  let store =
                    apply_batch_sql env.engine (sql_store env.driver env.queries env.now_ms)
                      env.system (list_of target.list) change.to_add change.to_remove
                      (record b.controller { sql = some after }) in
                  (
                    after,
                    ground (arith, store, done),
                    λ p.
                        ap (λ k. owns k p after.policies) (sym named)
                        ∙ ap (owns target.id p) kept
                        ∙ (feed_prefixes-sync_feed_policies env.driver target.id target.name
                            target.list new db p change read done).0,
                    ground arith,
                  )
            ]
      ]
    ]
