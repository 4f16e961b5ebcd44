-- ===== src/Server/Run/Serving.antt =====
-- What a server advertises once it has started.
use rtbh_panel.Common.{
  true, false, ◌≡◌, refl, ◌∙◌, ap, Option, none, some, arith, Option-cases, Bool-cases, inl, inr,
}
use rtbh_panel.Net.Prefix.{Prefix}
use rtbh_panel.Engine.Export.{DefinedSet, Policy, PeerGroup}
use rtbh_panel.Engine.Settings
use rtbh_panel.Engine.Lifecycle.{Gobgp, Engine, start, in_turn, set_up}
use rtbh_panel.Engine.Running.{in_turn_kept, neighbours_kept}
use rtbh_panel.Config.Settings.{Config}
use rtbh_panel.Controller.Delta
use rtbh_panel.Controller.Delta.Rollback.{has}
use rtbh_panel.Controller.Apply.{SqlStore, Controller, routes, deliver}
use rtbh_panel.Controller.Service.{reconcile}
use rtbh_panel.Controller.Kept.{reconcile_kept}
use rtbh_panel.Controller.InStep.{IsInStep}
use rtbh_panel.Controller.Batch.{reconcile_advertised}
use rtbh_panel.Server.Engine.{route_engine, Tabled, engine_laws, announce-running, withdraw-running}
use rtbh_panel.Server.Run.{Service, Outside, opened, start_up, engine_started, reconciled}

-- The calls of the start leave GoBGP's table alone.
pub record Quiet {B : Type 0} (g : Gobgp B) (t : Tabled g) : Type 0 where
  pub starting :
      (c : Settings.Config) (b : B) (p : Prefix)
      → t.advertised (g.start_bgp c b).1 p ≡ t.advertised b p
  pub defining :
      (s : DefinedSet) (b : B) (p : Prefix)
      → t.advertised (g.add_defined_set s b).1 p ≡ t.advertised b p
  pub policing :
      (s : Policy) (b : B) (p : Prefix) → t.advertised (g.add_policy s b).1 p ≡ t.advertised b p
  pub grouping :
      (s : PeerGroup) (b : B) (p : Prefix)
      → t.advertised (g.add_peer_group s b).1 p ≡ t.advertised b p
  pub neighbouring :
      (r : Prefix) (b : B) (p : Prefix)
      → t.advertised (g.add_dynamic_neighbor r b).1 p ≡ t.advertised b p
  pub watching : (b : B) (p : Prefix) → t.advertised (g.watch_event b).1 p ≡ t.advertised b p

module _ {B D : Type 0} (g : Gobgp B) (q : SqlStore D) (t : Tabled g) (quiet : Quiet g t) where
  set_up_table :
      (c : Settings.Config) (p : Prefix) (b : B)
      → t.advertised (in_turn (set_up g c) b).1 p ≡ t.advertised b p
  set_up_table c p b =
      in_turn_kept (λ b. t.advertised b p) (set_up g c) b
        (
          λ b. quiet.defining _ b p,
          (
            λ b. quiet.policing _ b p,
            (
              λ b. quiet.grouping _ b p,
              neighbours_kept g (λ b. t.advertised b p) c.listen_ranges
                  (λ r b. quiet.neighbouring r b p),
            ),
          ),
        )

  start_running : (e : Engine B) → (start g e).0 ≡ true → (start g e).1.running ≡ true
  unfolding start
  start_running e h = ground arith

  start_table :
      (e : Engine B) (p : Prefix)
      → (start g e).0 ≡ true
      → t.advertised (start g e).1.bgp p ≡ t.advertised e.bgp p
  unfolding start
  start_table e p h =
      let begun = quiet.starting e.config e.bgp p in
      let set = set_up_table e.config p (g.start_bgp e.config e.bgp).1 in
      let watched =
        quiet.watching (in_turn (set_up g e.config) (g.start_bgp e.config e.bgp).1).1 p in
      ground (arith, begun, set, watched)

  module _ (out : Outside) (config : Config) where
    -- What an outcome without an error has come from.
    all_listening :
        (r : Option Delta.Failure × Controller (Engine B) D) (s : Service B D)
        → (reconciled g q out config r s).0 ≡ none
        → (r.0 ≡ none)
          × ((reconciled g q out config r s).1.controller ≡ r.1)
          × ((reconciled g q out config r s).1.http ≡ opened)
          × ((reconciled g q out config r s).1.sync ≡ opened)
    all_listening (some d, c) s h = absurd (ground arith)
    all_listening (none, c) s h = elim (Option-cases (out.listen_http config.http_listen_address)) [
      | inl n ↦ absurd (ground arith)
      | inr (address, n) ↦ elim (Option-cases (out.listen_sync config.sync_listen_address)) [
        | inl m ↦ absurd (ground arith)
        | inr (other, m) ↦ (refl, ground arith, ground arith, ground arith)
      ]
    ]

    reconcile_routes_kept :
        (c : Controller (Engine B) D) (p : Prefix)
        → has (routes (route_engine g) q out.now c) p
          ≡ has (routes (route_engine g) q out.now (reconcile (route_engine g) q out.now c).1) p
    unfolding reconcile deliver routes
    reconcile_routes_kept c p = ground arith

    reconcile_table :
        (c : Controller (Engine B) D) (p : Prefix)
        → IsInStep (route_engine g) q (engine_laws g t) c
        → c.dry_run ≡ false
        → (reconcile (route_engine g) q out.now c).0 ≡ none
        → t.advertised (reconcile (route_engine g) q out.now c).1.engine.bgp p
          ≡ has (routes (route_engine g) q out.now (reconcile (route_engine g) q out.now c).1) p
    reconcile_table c p i n h =
        reconcile_advertised (route_engine g) q (engine_laws g t) out.now c p i n h
        ∙ reconcile_routes_kept c p

    -- Over a GoBGP server that keeps a table, which the calls of the start leave alone: when Run of a
    -- server outside dry-run comes to start its workers, the engine runs, both listeners are open,
    -- and GoBGP advertises exactly the prefixes that the lists call for. Before, the store is valid,
    -- and GoBGP advertises exactly the controller's active routes.
    pub start_up_serves :
        (s : Service B D)
        → IsInStep (route_engine g) q (engine_laws g t) s.controller
        → s.controller.dry_run ≡ false
        → (start_up g q out config s).0 ≡ none
        → ((start_up g q out config s).1.controller.engine.running ≡ true)
          × ((start_up g q out config s).1.http ≡ opened)
          × ((start_up g q out config s).1.sync ≡ opened)
          × ((p : Prefix)
              → t.advertised (start_up g q out config s).1.controller.engine.bgp p
                ≡ has
                    (routes (route_engine g) q out.now (start_up g q out config s).1.controller)
                    p)
    unfolding start_up
    start_up_serves s i n h = elim (Bool-cases (start g s.controller.engine).0) [
      | inr k ↦ absurd (ground arith)
      | inl k ↦
          let e = (start g s.controller.engine).1 in
          let c : Controller (Engine B) D = record s.controller { engine = e; publishes = true } in
          let r = reconcile (route_engine g) q out.now c in
          let (sound, controlled, http, sync) = all_listening r s (rw (k, engine_started) at h) in
          let step : IsInStep (route_engine g) q (engine_laws g t) c = record {
            valid = i.valid;
            keyed = i.keyed;
            advertising = λ p. start_table s.controller.engine p k ∙ i.advertising p;
          } in
          let kept =
            reconcile_kept (route_engine g) q (λ (e : Engine B). e.running) (announce-running g)
              (withdraw-running g) out.now c in
          let begun = start_running s.controller.engine k in
          rw (k, engine_started)
            (
              ap (λ (c : Controller (Engine B) D). c.engine.running) controlled ∙ (kept ∙ begun),
              http,
              sync,
              λ p. rw controlled (reconcile_table c p step n sound),
            )
    ]
