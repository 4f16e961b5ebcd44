-- ===== src/Controller/Batch.antt =====
-- What Reconcile and ApplyBatch leave advertised.
use rtbh_panel.Common.{
  String, Bool, true, false, ◌≡◌, refl, ap, Option, none, some, List, [], ◌∷◌, arith, if◌then◌else◌,
  Option-cases, inl, inr, ◌∙◌,
}
use rtbh_panel.Common.Assoc.{lookup, delete, lookup-insert, lookup-delete}
use rtbh_panel.Net.Prefix.{Prefix, discrete}
use rtbh_panel.Policy.{Time, PolicyList, blocklist, whitelist, other}
use rtbh_panel.PolicyStore.Disk.{System}
use rtbh_panel.Engine.Route.{Route}
use rtbh_panel.Controller.Interface.{RouteEngine, Laws}
use rtbh_panel.Controller.Routes.{RouteMap, route_for, lookup-effective_routes, suppressed}
use rtbh_panel.Controller.Delta.{apply_delta}
use rtbh_panel.Controller.Delta.Rollback.{Keyed, has, apply_delta_advertised}
use rtbh_panel.Controller.Apply.{Failure, dry_run_rejected, SqlStore, Controller, routes, deliver}
use rtbh_panel.Controller.InStep.{IsInStep, effective_routes-Keyed, insert-Keyed}
use rtbh_panel.Controller.Service.{
  reconcile, withdraw_one, announce_one, each, on_blocklist, nothing_to_do, apply_batch,
}

delete-Keyed : (p : Prefix) (m : RouteMap) → Keyed m → Keyed (delete discrete p m)
unfolding delete
delete-Keyed p [] k = k
delete-Keyed p ((x, y) ∷ m) k = elim (discrete x p) [
  | yes e ↦ ground (arith, delete-Keyed p m k.1)
  | no n ↦ ground (arith, delete-Keyed p m k.1)
]

lookup-Keyed :
    (m : RouteMap) (p : Prefix) (r : Route) → Keyed m → lookup discrete p m ≡ some r → r.prefix ≡ p
unfolding lookup
lookup-Keyed [] p r k h = absurd (ground arith)
lookup-Keyed ((x, y) ∷ m) p r k h = elim (discrete x p) [
  | yes e ↦ ground arith
  | no n ↦ ground (arith, lookup-Keyed m p r k.1)
]

module _ {E D : Type 0} (g : RouteEngine E) (q : SqlStore D) (laws : Laws g) where
  routes-Keyed : (now : Time) (c : Controller E D) → Keyed (routes g q now c)
  unfolding routes
  routes-Keyed now c = elim (Option-cases c.sql) [
    | inl e ↦ rw (e, routes) (effective_routes-Keyed _ _ _ _ _ _)
    | inr (d, e) ↦ rw (e, routes) (effective_routes-Keyed _ _ _ _ _ _)
  ]

  -- A Reconcile outside dry-run that reports no error leaves exactly the prefixes advertised that
  -- the lists call for. Before, the engine, which keeps its laws, advertises exactly the active
  -- routes, and the store is valid.
  pub reconcile_advertised :
      (now : Time) (c : Controller E D) (p : Prefix)
      → IsInStep g q laws c
      → c.dry_run ≡ false
      → (reconcile g q now c).0 ≡ none
      → laws.advertised (reconcile g q now c).1.engine p ≡ has (routes g q now c) p
  unfolding reconcile deliver
  reconcile_advertised now c p i n h =
      let sound : (apply_delta g (routes g q now c) c.active c.engine).error ≡ none =
        ground arith in
      let (_, told) =
        apply_delta_advertised g laws (routes g q now c) c.active c.engine i.keyed
          (routes-Keyed now c) i.advertising sound in
      ground (arith, told p)

  announce_one-IsInStep :
      (p : Prefix) (c : Controller E D)
      → IsInStep g q laws c
      → IsInStep g q laws (announce_one g q p c)
  unfolding announce_one
  announce_one-IsInStep p c i =
      let r = route_for c.next_hop_v4 c.next_hop_v6 p in
      record {
        valid = ground (arith, i.valid);
        keyed = ground (arith, insert-Keyed p r c.active (unfold route_for in refl) i.keyed);
        advertising = λ x.
            unfold route_for in
            ground (
              arith,
              i.advertising x,
              laws.announced r c.engine x,
              laws.not_announced r c.engine x,
              lookup-insert discrete p x r c.active,
            );
      }

  withdraw_one-IsInStep :
      (p : Prefix) (c : Controller E D)
      → IsInStep g q laws c
      → ((r : Route) (e : E) → (g.withdraw r e).0 ≡ true)
      → IsInStep g q laws (withdraw_one g q p c)
  unfolding withdraw_one
  withdraw_one-IsInStep p c i w = elim (Option-cases (lookup discrete p c.active)) [
    | inl n ↦ rw (n, withdraw_one) i
    | inr (r, n) ↦
        rw (n, withdraw_one)
          (record {
            valid = i.valid;
            keyed = delete-Keyed p c.active i.keyed;
            advertising = λ x. ground (
              arith,
              i.advertising x,
              laws.withdrawn r c.engine x,
              w r c.engine,
              lookup-delete discrete p x c.active,
              lookup-Keyed c.active p r i.keyed,
            );
          })
  ]

  -- A loop of ApplyBatch keeps what each of its calls keeps.
  each-IsInStep :
      (sys : System) (f : Prefix → Controller E D → Controller E D) (list : PolicyList)
      (texts : List String)
      → ((p : Prefix) (c : Controller E D) → IsInStep g q laws c → IsInStep g q laws (f p c))
      → (c : Controller E D) → IsInStep g q laws c
      → IsInStep g q laws (each g q sys f list texts c)
  unfolding each
  each-IsInStep sys f list [] keep c i = i
  each-IsInStep sys f list (text ∷ texts) keep c i =
      each-IsInStep sys f list texts keep (on_blocklist g q sys f list text c) (one list)
    where
      one : (list : PolicyList) → IsInStep g q laws (on_blocklist g q sys f list text c)
      one blocklist = elim (Option-cases (sys.parse text)) [
        | inl n ↦ rw (n, on_blocklist) i
        | inr (p, n) ↦ rw (n, on_blocklist) (keep p c i)
      ]
      one whitelist = i
      one (other _) = i

  -- If the engine advertised exactly the active routes before an ApplyBatch, then it does so after
  -- it, with the store valid as before. Single announcements may fail, but no withdrawal does.
  pub apply_batch-IsInStep :
      (sys : System) (list : PolicyList) (to_add to_remove : List String) (c : Controller E D)
      → IsInStep g q laws c
      → ((r : Route) (e : E) → (g.withdraw r e).0 ≡ true)
      → IsInStep g q laws (apply_batch g q sys list to_add to_remove c).1
  unfolding apply_batch
  apply_batch-IsInStep sys list to_add to_remove c i w =
      either c.dry_run (nothing_to_do g q to_add to_remove)
    where
      after : Controller E D
      after =
          each g q sys (announce_one g q) list to_add
            (each g q sys (withdraw_one g q) list to_remove c)

      either :
          (dry idle : Bool)
          → IsInStep g q laws
              (if◌then◌else◌ {A = Option Failure × Controller E D} dry
                (some dry_run_rejected, c)
                (if idle then (none, c) else (none, after))).1
      either true idle = i
      either false true = i
      either false false =
          each-IsInStep sys (announce_one g q) list to_add announce_one-IsInStep
            (each g q sys (withdraw_one g q) list to_remove c)
            (each-IsInStep sys (withdraw_one g q) list to_remove
              (λ p c i. withdraw_one-IsInStep p c i w) c i)

  announce_one_advertised :
      (p : Prefix) (c : Controller E D)
      → IsInStep g q laws c
      → ((r : Route) (e : E) → (g.announce r e).0 ≡ true)
      → laws.advertised (announce_one g q p c).engine p ≡ true
  unfolding announce_one route_for
  announce_one_advertised p c i a = ground (
    arith,
    i.advertising p,
    a (route_for c.next_hop_v4 c.next_hop_v6 p) c.engine,
    laws.announced (route_for c.next_hop_v4 c.next_hop_v6 p) c.engine p,
  )

  announce_one_routes :
      (now : Time) (p : Prefix) (c : Controller E D)
      → routes g q now (announce_one g q p c) ≡ routes g q now c
  unfolding announce_one routes
  announce_one_routes now p c = ground arith

  suppressed_routes :
      (now : Time) (p : Prefix) (c : Controller E D)
      → c.sql ≡ none
      → suppressed c.stored.store.whitelist p ≡ true
      → has (routes g q now c) p ≡ false
  unfolding routes
  suppressed_routes now p c n s = rw n (
      ground (
        arith,
        lookup-effective_routes c.stored.store.whitelist c.stored.store.expirations now
            c.next_hop_v4 c.next_hop_v6 p c.stored.store.blocklist,
      ))

  -- ApplyBatch does not look at the whitelist: outside dry-run and without an SQL store, a
  -- blocklist feed that adds one prefix which the whitelist suppresses gets it advertised, if the
  -- engine accepts every announcement, although the lists do not call for it.
  pub apply_batch_ignores_whitelist :
      (sys : System) (text : String) (p : Prefix) (c : Controller E D)
      → IsInStep g q laws c
      → c.dry_run ≡ false
      → c.sql ≡ none
      → sys.parse text ≡ some p
      → suppressed c.stored.store.whitelist p ≡ true
      → ((r : Route) (e : E) → (g.announce r e).0 ≡ true)
      → (laws.advertised (apply_batch g q sys blocklist (text ∷ []) [] c).1.engine p ≡ true)
        × (has (routes g q sys.now (apply_batch g q sys blocklist (text ∷ []) [] c).1) p ≡ false)
  unfolding apply_batch each
  apply_batch_ignores_whitelist sys text p c i d n t s a =
      let same : (apply_batch g q sys blocklist (text ∷ []) [] c).1 ≡ announce_one g q p c =
        ground arith in
      (
        ap (λ (c : Controller E D). laws.advertised c.engine p) same
            ∙ announce_one_advertised p c i a,
        ap (λ (c : Controller E D). has (routes g q sys.now c) p) same
            ∙ (ap (λ (m : RouteMap). has m p) (announce_one_routes sys.now p c)
                ∙ suppressed_routes sys.now p c n s),
      )
