-- ===== src/Controller/Service.antt =====
-- The calls around applyLocked: Apply with its SQL branch, ApplyBatch for feeds, Reconcile, and the
-- removal of expired prefixes.
use rtbh_panel.Common.{
  ◌-◌, String, Bool, true, false, Option, none, some, List, [], ◌∷◌, if◌then◌else◌, leb, ltb,
}
use rtbh_panel.Common.Assoc.{lookup, insert, lookup-insert}
use rtbh_panel.Common.Assoc
use rtbh_panel.Net.Prefix.{Prefix, discrete}
use rtbh_panel.Policy.{Time, PolicyList, blocklist, add, remove, replace, delete, unknown, Mutation}
use rtbh_panel.PolicyStore.Disk.{System}
use rtbh_panel.Adapter.{canonical}
use rtbh_panel.Engine.Route.{Route}
use rtbh_panel.Controller.Interface.{RouteEngine}
use rtbh_panel.Controller.Routes.{route_for}
use rtbh_panel.Controller.Delta
use rtbh_panel.Controller.Apply.{
  SqlStore, Controller, Failure, dry_run_rejected, canonical_prefix_required, sql_failed, delta,
  routes, deliver, publish, apply_locked,
}

module _ {E D : Type 0} (g : RouteEngine E) (q : SqlStore D) where
  unfoldable pub reconcile : Time → Controller E D → Option Delta.Failure × Controller E D
  reconcile now c = if c.dry_run then (none, c) else deliver g q (routes g q now c) c

  -- The write of the SQL branch; other actions write nothing.
  abbrev pub sql_write : Mutation → D → Bool × D
  sql_write m d = elim m.action [
    | add ↦ q.add_policy m d
    | replace ↦ q.add_policy m d
    | remove ↦ q.remove_policy m d
    | delete ↦ q.remove_policy m d
    | unknown _ ↦ (true, d)
  ]

  abbrev after_sql :
      Mutation → Option Delta.Failure × Controller E D → Option Failure × Controller E D
  after_sql m (some f, c) = (some (delta f), c)
  after_sql m (none, c) = (none, publish g q m c)

  abbrev pub apply_sql :
      Time → Mutation → Controller E D → Bool × D → Option Failure × Controller E D
  apply_sql now m c (false, d) = (some sql_failed, record c { sql = some d })
  apply_sql now m c (true, d) =
      let logged = record c { sql = some (q.record_audit m d) } in
      after_sql m (deliver g q (routes g q now logged) logged)

  unfoldable pub apply : System → Time → Mutation → Controller E D → Option Failure × Controller E D
  apply sys earlier m c =
      if c.dry_run then (some dry_run_rejected, c) else elim (canonical sys m.prefix) [
        | none ↦ (some canonical_prefix_required, c)
        | some p ↦ elim c.sql [
          | some d ↦ apply_sql sys.now m c (sql_write m d)
          | none ↦ apply_locked g q sys earlier m c
        ]
      ]

  -- The first loop of ApplyBatch. An error of Withdraw is dropped, and the route is forgotten.
  unfoldable pub withdraw_one : Prefix → Controller E D → Controller E D
  withdraw_one p c = elim (lookup discrete p c.active) [
    | none ↦ c
    | some r ↦ record c {
      engine = (g.withdraw r c.engine).1;
      active = Assoc.delete discrete p c.active;
    }
  ]

  abbrev keep_announced : Prefix → Route → Controller E D → Bool × E → Controller E D
  keep_announced p r c (true, e) = record c { engine = e; active = insert discrete p r c.active }
  keep_announced p r c (false, e) = record c { engine = e }

  -- The second loop.
  unfoldable pub announce_one : Prefix → Controller E D → Controller E D
  announce_one p c = elim (lookup discrete p c.active) [
    | some _ ↦ c
    | none ↦
        let r = route_for c.next_hop_v4 c.next_hop_v6 p in
        keep_announced p r c (g.announce r c.engine)
  ]

  -- A text that does not parse is skipped, and only the blocklist has routes.
  abbrev pub on_blocklist :
      System
      → (Prefix → Controller E D → Controller E D)
      → PolicyList
      → String
      → Controller E D
      → Controller E D
  on_blocklist sys f blocklist text c = elim (sys.parse text) [ none ↦ c | some p ↦ f p c ]
  on_blocklist sys f _ text c = c

  unfoldable pub each :
      System
      → (Prefix → Controller E D → Controller E D)
      → PolicyList
      → List String
      → Controller E D
      → Controller E D
  each sys f list [] c = c
  each sys f list (text ∷ texts) c = each sys f list texts (on_blocklist sys f list text c)

  -- len(toAdd) == 0 && len(toRemove) == 0
  abbrev pub nothing_to_do : List String → List String → Bool
  nothing_to_do [] [] = true
  nothing_to_do _ _ = false

  unfoldable pub apply_batch :
      System
      → PolicyList
      → List String
      → List String
      → Controller E D
      → Option Failure × Controller E D
  apply_batch sys list to_add to_remove c =
      if c.dry_run
      then (some dry_run_rejected, c)
      else if nothing_to_do to_add to_remove
      then (none, c)
      else (none, each sys announce_one list to_add (each sys withdraw_one list to_remove c))

  -- applyExpired over a copy of the expiries, in any order
  unfoldable pub remove_expired :
      System → List (Prefix × Time) → Controller E D → Option Failure × Controller E D
  remove_expired sys [] c = (none, c)
  remove_expired sys ((p, t) ∷ rest) c = elim (leb t sys.now) [
    | false ↦ remove_expired sys rest c
    | true ↦
        (let (failed, next) =
            apply_locked g q sys sys.now
              (record {
                action = remove;
                list = blocklist;
                prefix = sys.print p;
                expires_at = none;
              })
              c in
          elim failed [ some f ↦ (some f, next) | none ↦ remove_expired sys rest next ])
  ]

  unfoldable pub apply_expired : System → Controller E D → Option Failure × Controller E D
  apply_expired sys c = remove_expired sys c.stored.store.expirations c

-- RunExpiry: how long to wait for the next expiry, an hour at most. time.Until of a time that has
-- passed is negative, and then the wait is 0.
abbrev pub hour : Time
hour = 3_600_000_000_000

unfoldable pub next_wait : Time → Time → List (Prefix × Time) → Time
next_wait now wait [] = wait
next_wait now wait ((p, t) ∷ m) = next_wait now (if ltb (t - now) wait then t - now else wait) m
