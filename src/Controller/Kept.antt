-- ===== src/Controller/Kept.antt =====
-- What Announce and Withdraw leave alone in the engine, all operations of the controller leave alone.
use rtbh_panel.Common.{
  String, Bool, true, false, ◌≡◌, refl, ◌∙◌, Option, none, some, List, [], ◌∷◌, arith, Option-cases,
  inl, inr, ◌++◌,
}
use rtbh_panel.Common.Assoc.{lookup}
use rtbh_panel.Net.Prefix.{Prefix, discrete}
use rtbh_panel.Policy.{Time, PolicyList, blocklist, whitelist, other, Mutation, remove}
use rtbh_panel.PolicyStore.Disk.{System}
use rtbh_panel.PolicyStore.Mutate.{Stored}
use rtbh_panel.Adapter
use rtbh_panel.Adapter.{canonical}
use rtbh_panel.Engine.Route.{Route}
use rtbh_panel.Controller.Interface.{RouteEngine}
use rtbh_panel.Controller.Routes.{RouteMap, route_for, effective_routes}
use rtbh_panel.Controller.Delta.{
  withdraw_stale, announce_new, announce_all, withdraw_all, apply_delta,
}
use rtbh_panel.Controller.Apply.{
  SqlStore, Controller, Proposal, changed, unchanged, unsupported, propose, routes, deliver,
  persist_policy, carry_out, conclude, apply_locked,
}
use rtbh_panel.Controller.Service.{
  reconcile, sql_write, apply_sql, apply, withdraw_one, announce_one, each, on_blocklist,
  apply_batch, remove_expired, apply_expired,
}

module _ {E D X : Type 0} (g : RouteEngine E) (q : SqlStore D) (f : E → X)
    (announced : (r : Route) (e : E) → f (g.announce r e).1 ≡ f e)
    (withdrawn : (r : Route) (e : E) → f (g.withdraw r e).1 ≡ f e) where
  withdraw_stale_kept :
      (desired active : RouteMap) (done : List Route) (e : E)
      → f (withdraw_stale g desired active done e).engine ≡ f e
  unfolding withdraw_stale
  withdraw_stale_kept desired [] done e = refl
  withdraw_stale_kept desired ((p, r) ∷ active) done e =
      let skipped = withdraw_stale_kept desired active done e in
      let next = withdraw_stale_kept desired active (done ++ r ∷ []) (g.withdraw r e).1 in
      ground (arith, skipped, next, withdrawn r e)

  announce_new_kept :
      (active desired : RouteMap) (done : List Route) (e : E)
      → f (announce_new g active desired done e).engine ≡ f e
  unfolding announce_new
  announce_new_kept active [] done e = refl
  announce_new_kept active ((p, r) ∷ desired) done e =
      let skipped = announce_new_kept active desired done e in
      let next = announce_new_kept active desired (done ++ r ∷ []) (g.announce r e).1 in
      ground (arith, skipped, next, announced r e)

  announce_all_kept : (rs : List Route) (e : E) → f (announce_all g rs e) ≡ f e
  unfolding announce_all
  announce_all_kept [] e = refl
  announce_all_kept (r ∷ rs) e = announce_all_kept rs (g.announce r e).1 ∙ announced r e

  withdraw_all_kept : (rs : List Route) (e : E) → f (withdraw_all g rs e) ≡ f e
  unfolding withdraw_all
  withdraw_all_kept [] e = refl
  withdraw_all_kept (r ∷ rs) e = withdraw_all_kept rs (g.withdraw r e).1 ∙ withdrawn r e

  apply_delta_kept :
      (desired active : RouteMap) (e : E) → f (apply_delta g desired active e).engine ≡ f e
  unfolding apply_delta
  apply_delta_kept desired active e =
      let w = withdraw_stale g desired active [] e in
      let n = announce_new g active desired [] w.engine in
      let stale = withdraw_stale_kept desired active [] e in
      let fresh = announce_new_kept active desired [] w.engine in
      let again = announce_all_kept w.routes w.engine in
      let back = withdraw_all_kept n.routes n.engine in
      let all = announce_all_kept w.routes (withdraw_all g n.routes n.engine) in
      elim (Option-cases w.failed) [
        | inr (p, h) ↦ ground (arith, stale, again)
        | inl h ↦ elim (Option-cases n.failed) [
          | inl k ↦ ground (arith, stale, fresh)
          | inr (p, k) ↦ ground (arith, stale, fresh, back, all)
        ]
      ]

  deliver_kept :
      (desired : RouteMap) (c : Controller E D) → f (deliver g q desired c).1.engine ≡ f c.engine
  unfolding deliver
  deliver_kept desired c = apply_delta_kept desired c.active c.engine

  pub reconcile_kept :
      (now : Time) (c : Controller E D) → f (reconcile g q now c).1.engine ≡ f c.engine
  unfolding reconcile
  reconcile_kept now c = ground (arith, deliver_kept (routes g q now c) c)

  conclude_kept :
      (m : Mutation) (before : RouteMap) (c : Controller E D) (w : Option Adapter.Failure × Stored)
      → f (conclude g q m before c w).1.engine ≡ f c.engine
  conclude_kept m before c (some e, s) = deliver_kept before (record c { stored = s })
  conclude_kept m before c (none, s) = ground arith

  carry_out_kept :
      (sys : System) (m : Mutation) (p : Prefix) (before : RouteMap) (pr : Proposal)
      (c : Controller E D)
      → f (carry_out g q sys m p before pr c).1.engine ≡ f c.engine
  carry_out_kept sys m p before unsupported c = refl
  carry_out_kept sys m p before unchanged c = refl
  carry_out_kept sys m p before (changed bl wl) c =
      let desired =
        effective_routes wl c.stored.store.expirations sys.now c.next_hop_v4 c.next_hop_v6 bl in
      let next = (deliver g q desired c).1 in
      let delivered = deliver_kept desired c in
      let concluded = conclude_kept m before next (persist_policy g q sys m p next.stored) in
      ground (arith, delivered, concluded)

  apply_locked_kept :
      (sys : System) (earlier : Time) (m : Mutation) (c : Controller E D)
      → f (apply_locked g q sys earlier m c).1.engine ≡ f c.engine
  unfolding apply_locked
  apply_locked_kept sys earlier m c = elim (Option-cases (canonical sys m.prefix)) [
    | inl n ↦ ground arith
    | inr (p, n) ↦
        let carried =
          carry_out_kept sys m p (routes g q earlier c)
            (propose m.action m.list p m.expires_at c.stored.store) c in
        ground (arith, carried)
  ]

  apply_sql_kept :
      (now : Time) (m : Mutation) (c : Controller E D) (w : Bool × D)
      → f (apply_sql g q now m c w).1.engine ≡ f c.engine
  apply_sql_kept now m c (false, d) = refl
  apply_sql_kept now m c (true, d) =
      let logged : Controller E D = record c { sql = some (q.record_audit m d) } in
      ground (arith, deliver_kept (routes g q now logged) logged)

  pub apply_kept :
      (sys : System) (earlier : Time) (m : Mutation) (c : Controller E D)
      → f (apply g q sys earlier m c).1.engine ≡ f c.engine
  unfolding apply
  apply_kept sys earlier m c = elim (Option-cases (canonical sys m.prefix)) [
    | inl n ↦ ground arith
    | inr (p, n) ↦ elim (Option-cases c.sql) [
      | inl k ↦ ground (arith, apply_locked_kept sys earlier m c)
      | inr (d, k) ↦ ground (arith, apply_sql_kept sys.now m c (sql_write g q m d))
    ]
  ]

  withdraw_one_kept :
      (p : Prefix) (c : Controller E D) → f (withdraw_one g q p c).engine ≡ f c.engine
  unfolding withdraw_one
  withdraw_one_kept p c = elim (Option-cases (lookup discrete p c.active)) [
    | inl n ↦ ground arith
    | inr (r, n) ↦ ground (arith, withdrawn r c.engine)
  ]

  announce_one_kept :
      (p : Prefix) (c : Controller E D) → f (announce_one g q p c).engine ≡ f c.engine
  unfolding announce_one
  announce_one_kept p c =
      ground (arith, announced (route_for c.next_hop_v4 c.next_hop_v6 p) c.engine)

  each_kept :
      (sys : System) (h : Prefix → Controller E D → Controller E D) (list : PolicyList)
      (texts : List String)
      → ((p : Prefix) (c : Controller E D) → f (h p c).engine ≡ f c.engine)
      → (c : Controller E D) → f (each g q sys h list texts c).engine ≡ f c.engine
  unfolding each
  each_kept sys h list [] keep c = refl
  each_kept sys h list (text ∷ texts) keep c =
      each_kept sys h list texts keep (on_blocklist g q sys h list text c) ∙ one list
    where
      one : (list : PolicyList) → f (on_blocklist g q sys h list text c).engine ≡ f c.engine
      one blocklist = elim (Option-cases (sys.parse text)) [
        | inl n ↦ ground arith
        | inr (p, n) ↦ ground (arith, keep p c)
      ]
      one whitelist = refl
      one (other _) = refl

  pub apply_batch_kept :
      (sys : System) (list : PolicyList) (to_add to_remove : List String) (c : Controller E D)
      → f (apply_batch g q sys list to_add to_remove c).1.engine ≡ f c.engine
  unfolding apply_batch
  apply_batch_kept sys list to_add to_remove c =
      let without = each g q sys (withdraw_one g q) list to_remove c in
      let removed = each_kept sys (withdraw_one g q) list to_remove withdraw_one_kept c in
      let added = each_kept sys (announce_one g q) list to_add announce_one_kept without in
      ground (arith, removed, added)

  remove_expired_kept :
      (sys : System) (l : List (Prefix × Time)) (c : Controller E D)
      → f (remove_expired g q sys l c).1.engine ≡ f c.engine
  unfolding remove_expired
  remove_expired_kept sys [] c = refl
  remove_expired_kept sys ((p, t) ∷ rest) c =
      let m : Mutation = record {
        action = remove;
        list = blocklist;
        prefix = sys.print p;
        expires_at = none;
      } in
      let later = remove_expired_kept sys rest c in
      let one = apply_locked_kept sys sys.now m c in
      let next = remove_expired_kept sys rest (apply_locked g q sys sys.now m c).1 in
      ground (arith, later, one, next)

  pub apply_expired_kept :
      (sys : System) (c : Controller E D) → f (apply_expired g q sys c).1.engine ≡ f c.engine
  unfolding apply_expired
  apply_expired_kept sys c = remove_expired_kept sys c.stored.store.expirations c
