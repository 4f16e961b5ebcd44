-- ===== src/Server/Run/Stopped.antt =====
-- Run leaves nothing running.
use rtbh_panel.Common.{
  Bool, true, false, ◌≡◌, ◌≢◌, ◌∙◌, sym, Option, none, some, List, [], ◌∷◌, arith, Option-cases,
  Bool-cases, inl, inr,
}
use rtbh_panel.Engine.Route.{Route, route_path}
use rtbh_panel.Engine.Lifecycle.{Gobgp, Engine, start, stop, announce, withdraw}
use rtbh_panel.Engine.Running
use rtbh_panel.Engine.Running.{step, starts, stops, announces, withdraws, step-running}
use rtbh_panel.Config.Settings.{Config}
use rtbh_panel.Controller.Delta
use rtbh_panel.Controller.Apply.{SqlStore, Controller}
use rtbh_panel.Controller.Service.{reconcile}
use rtbh_panel.Controller.Kept.{reconcile_kept, apply_kept, apply_batch_kept, apply_expired_kept}
use rtbh_panel.Server.Engine.{route_engine}
use rtbh_panel.Server.Run.{
  listened_http, listened_sync, Service, Outside, Failure, opened, closed, Work, mutates, batches,
  expires, peer_updates, do_work, do_all, halt, start_up, shut_down, run, engine_started,
  reconciled,
}

module _ {B D : Type 0} (g : Gobgp B) (q : SqlStore D) (laws : Running.Serving g) where
  -- The flag, and whether the server runs.
  unfoldable observe : Engine B → Bool × Bool
  observe e = (e.running, laws.alive e.bgp)

  observe-announce : (r : Route) (e : Engine B) → observe (announce g r e).1 ≡ observe e
  unfolding announce observe
  observe-announce r e = elim (Option-cases (route_path r)) [
    | inl n ↦ ground arith
    | inr (path, n) ↦ let kept = laws.adding path e.bgp in ground (arith, kept)
  ]

  observe-withdraw : (r : Route) (e : Engine B) → observe (withdraw g r e).1 ≡ observe e
  unfolding withdraw observe
  observe-withdraw r e = elim (Option-cases (route_path r)) [
    | inl n ↦ ground arith
    | inr (path, n) ↦
        let kept = laws.deleting (record path { withdrawal = true }) e.bgp in ground (arith, kept)
  ]

  -- The flag says whether the server runs.
  abbrev IsFlagged : Engine B → Type 0
  IsFlagged e = e.running ≡ laws.alive e.bgp

  keeps_flag : (d e : Engine B) → observe d ≡ observe e → IsFlagged e → IsFlagged d
  unfolding observe
  keeps_flag d e same h = ground arith

  do_work-IsFlagged :
      (w : Work) (c : Controller (Engine B) D)
      → IsFlagged c.engine
      → IsFlagged (do_work g q w c).engine
  unfolding do_work
  do_work-IsFlagged (mutates sys earlier m) c h =
      keeps_flag _ c.engine
        (apply_kept (route_engine g) q observe observe-announce observe-withdraw sys earlier m c) h
  do_work-IsFlagged (batches sys list to_add to_remove) c h =
      keeps_flag _ c.engine
        (apply_batch_kept (route_engine g) q observe observe-announce observe-withdraw sys list
          to_add to_remove c)
        h
  do_work-IsFlagged (expires sys) c h =
      keeps_flag _ c.engine
        (apply_expired_kept (route_engine g) q observe observe-announce observe-withdraw sys c) h
  do_work-IsFlagged (peer_updates event) c h =
      unfold step in step-running g laws (Running.peer_updates event) c.engine h

  do_all-IsFlagged :
      (ws : List Work) (c : Controller (Engine B) D)
      → IsFlagged c.engine
      → IsFlagged (do_all g q ws c).engine
  unfolding do_all
  do_all-IsFlagged [] c h = h
  do_all-IsFlagged (w ∷ ws) c h = do_all-IsFlagged ws (do_work g q w c) (do_work-IsFlagged w c h)

  -- Neither the engine nor its server runs, and no listener is open.
  pub record IsStopped (s : Service B D) : Type 0 where
    pub idle : s.controller.engine.running ≡ false
    pub dead : laws.alive s.controller.engine.bgp ≡ false
    pub no_http : s.http ≢ opened
    pub no_sync : s.sync ≢ opened

  halt-IsStopped :
      (s : Service B D)
      → IsFlagged s.controller.engine
      → s.http ≢ opened
      → s.sync ≢ opened
      → IsStopped (halt g q s).1
  unfolding stop
  halt-IsStopped s h a b =
      let gone = laws.stopped s.controller.engine.bgp in
      record { idle = ground arith; dead = ground (arith, gone); no_http = a; no_sync = b }

  module _ (out : Outside) (config : Config) where
    reconciled-IsStopped :
        (r : Option Delta.Failure × Controller (Engine B) D) (s : Service B D)
        → IsFlagged r.1.engine
        → s.http ≢ opened
        → s.sync ≢ opened
        → (f : Failure) → (reconciled g q out config r s).0 ≡ some f
        → IsStopped (reconciled g q out config r s).1
    reconciled-IsStopped (some d, c) s h a b f e =
        halt-IsStopped (record s { controller = c }) h a b
    reconciled-IsStopped (none, c) s h a b f e =
        elim (Option-cases (out.listen_http config.http_listen_address)) [
          | inl n ↦ rw (n, listened_http) (halt-IsStopped (record s { controller = c }) h a b)
          | inr (address, n) ↦ elim (Option-cases (out.listen_sync config.sync_listen_address)) [
            | inl m ↦
                rw (n, m, listened_http, listened_sync)
                  (halt-IsStopped (record s { controller = c; http = closed; http_addr = address })
                    h (λ x. absurd (ground arith)) b)
            | inr (other, m) ↦ absurd (ground arith)
          ]
        ]

    start-IsFlagged : (e : Engine B) → IsFlagged e → IsFlagged (start g e).1
    start-IsFlagged e h = unfold step in step-running g laws starts e h

    start_failed-running :
        (e : Engine B) → e.running ≡ false → (start g e).0 ≡ false → (start g e).1.running ≡ false
    unfolding start
    start_failed-running e h k = ground arith

    -- The controller after the reconciliation of Run.
    pub reconcile-IsFlagged :
        (s : Service B D) (e : Engine B)
        → IsFlagged e
        → IsFlagged
            (reconcile
              (route_engine g)
              q
              out.now
              (record s.controller { engine = e; publishes = true })).1.engine
    reconcile-IsFlagged s e h =
        keeps_flag _ e
          (reconcile_kept (route_engine g) q observe observe-announce observe-withdraw out.now
            (record s.controller { engine = e; publishes = true }))
          h

    start_up-IsStopped :
        (s : Service B D) (f : Failure)
        → IsStopped s
        → (start_up g q out config s).0 ≡ some f
        → IsStopped (start_up g q out config s).1
    unfolding start_up
    start_up-IsStopped s f i e =
        let flagged = start-IsFlagged s.controller.engine (i.idle ∙ sym i.dead) in
        elim (Bool-cases (start g s.controller.engine).0) [
          | inr n ↦
              let off = start_failed-running s.controller.engine i.idle n in
              rw (n, engine_started)
                (record {
                  idle = off;
                  dead = sym flagged ∙ off;
                  no_http = i.no_http;
                  no_sync = i.no_sync;
                })
          | inl n ↦
              rw (n, engine_started)
                (reconciled-IsStopped _ s (reconcile-IsFlagged s _ flagged) i.no_http i.no_sync f
                  (rw (n, engine_started) at e))
        ]

    reconciled-IsFlagged :
        (r : Option Delta.Failure × Controller (Engine B) D) (s : Service B D)
        → IsFlagged r.1.engine
        → (reconciled g q out config r s).0 ≡ none
        → IsFlagged (reconciled g q out config r s).1.controller.engine
    reconciled-IsFlagged (some d, c) s h e = absurd (ground arith)
    reconciled-IsFlagged (none, c) s h e =
        elim (Option-cases (out.listen_http config.http_listen_address)) [
          | inl n ↦ absurd (ground arith)
          | inr (address, n) ↦ elim (Option-cases (out.listen_sync config.sync_listen_address)) [
            | inl m ↦ absurd (ground arith)
            | inr (other, m) ↦ ground arith
          ]
        ]

    start_up-IsFlagged :
        (s : Service B D)
        → IsStopped s
        → (start_up g q out config s).0 ≡ none
        → IsFlagged (start_up g q out config s).1.controller.engine
    unfolding start_up
    start_up-IsFlagged s i e =
        let flagged = start-IsFlagged s.controller.engine (i.idle ∙ sym i.dead) in
        elim (Bool-cases (start g s.controller.engine).0) [
          | inr n ↦ absurd (ground arith)
          | inl n ↦
              rw (n, engine_started)
                (reconciled-IsFlagged _ s (reconcile-IsFlagged s _ flagged)
                  (rw (n, engine_started) at e))
        ]

    -- Over a GoBGP server that runs from a start without an error until it is stopped: a Run of a
    -- server that is stopped leaves it stopped when it returns, whichever call of the start or of
    -- the shutdown fails, and whatever the handlers and workers have done in between. Neither the
    -- engine nor its GoBGP server runs, and no listener is open.
    pub run-IsStopped :
        (work : List Work) (s : Service B D) → IsStopped s → IsStopped (run g q out config work s).1
    unfolding run shut_down
    run-IsStopped work s i = elim (Option-cases (start_up g q out config s).0) [
      | inr (f, n) ↦ rw (n, run) (start_up-IsStopped s f i n)
      | inl n ↦
          let up = (start_up g q out config s).1 in
          rw (n, run)
            (halt-IsStopped
              (record up {
                controller = do_all g q work up.controller;
                sync = closed;
                http = closed;
              })
              (do_all-IsFlagged work up.controller (start_up-IsFlagged s i n))
              (λ x. absurd (ground arith)) (λ x. absurd (ground arith)))
    ]
