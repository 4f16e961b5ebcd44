-- ===== src/Server/Run.antt =====
-- Server.Run: the start of the engine, the reconciliation and the two listeners, what the handlers do
-- to the controller and the engine until the end, and the shutdown.
pub mod Stopped
pub mod Serving
use rtbh_panel.Common.{
  String, Bool, true, false, not, Option, none, some, List, [], ◌∷◌, if◌then◌else◌,
}
use rtbh_panel.Policy.{Time, PolicyList, Mutation}
use rtbh_panel.PolicyStore.Disk.{System}
use rtbh_panel.Engine.Peers.{PeerEvent}
use rtbh_panel.Engine.Lifecycle.{Gobgp, Engine, start, stop, on_peer_update}
use rtbh_panel.Config.Settings.{Config}
use rtbh_panel.Controller.Delta
use rtbh_panel.Controller.Apply.{SqlStore, Controller}
use rtbh_panel.Controller.Service.{reconcile, apply, apply_batch, apply_expired}
use rtbh_panel.Server.Engine.{route_engine}

-- Of an error that is joined from several, the flags say whether the closing of the HTTP listener and
-- the stop of the engine returned one.
pub data Failure : Type 0 where
  start_engine close_sync shutdown_http stop_engine : Failure
  reconcile_routes : Delta.Failure → Bool → Failure
  dashboard_listen : Bool → Failure
  sync_listen : Bool → Bool → Failure
  worker_failed : String → Failure

pub data Socket : Type 0 where
  unopened opened closed : Socket

-- The part of a Server, and of the locals of Run, that Run changes. `started` says whether the
-- channel of Started is closed.
pub record Service (B D : Type 0) : Type 0 where
  pub controller : Controller (Engine B) D
  pub http : Socket
  pub sync : Socket
  pub http_addr : String
  pub sync_addr : String
  pub started : Bool

-- An error of Serve.
pub data ServeError : Type 0 where
  server_closed net_closed : ServeError
  other_error : String → ServeError

unfoldable pub normalize_server_error : Option ServeError → Option String
normalize_server_error none = none
normalize_server_error (some server_closed) = none
normalize_server_error (some net_closed) = none
normalize_server_error (some (other_error text)) = some text

-- Why the select of Run ends: the context is done, or a value of errCh, from Serve or a worker.
pub data Ending : Type 0 where
  cancelled : Ending
  from_http : Option ServeError → Ending
  from_worker : Option String → Ending

pub data Closing : Type 0 where
  closes was_closed close_fails : Closing

-- What happens around Run: the addresses of the listeners or an error, the time, how the calls of the
-- shutdown go.
pub record Outside : Type 0 where
  pub now : Time
  pub listen_http : String → Option String
  pub listen_sync : String → Option String
  pub close_http_fails : Bool
  pub ending : Ending
  pub close_sync : Closing
  pub shutdown_fails : Bool

-- What the handlers and the workers call while the server runs.
pub data Work : Type 0 where
  mutates : System → Time → Mutation → Work
  batches : System → PolicyList → List String → List String → Work
  expires : System → Work
  peer_updates : PeerEvent → Work

module _ {B D : Type 0} (g : Gobgp B) (q : SqlStore D) where
  unfoldable pub do_work : Work → Controller (Engine B) D → Controller (Engine B) D
  do_work (mutates sys earlier m) c = (apply (route_engine g) q sys earlier m c).1
  do_work (batches sys list to_add to_remove) c =
      (apply_batch (route_engine g) q sys list to_add to_remove c).1
  do_work (expires sys) c = (apply_expired (route_engine g) q sys c).1
  do_work (peer_updates event) c = record c { engine = on_peer_update g event c.engine }

  unfoldable pub do_all : List Work → Controller (Engine B) D → Controller (Engine B) D
  do_all [] c = c
  do_all (w ∷ ws) c = do_all ws (do_work w c)

  -- s.engine.Stop(...), and whether it failed
  abbrev pub halt : Service B D → Bool × Service B D
  halt s =
      let (done, e) = stop g s.controller.engine in
      (not done, record s { controller = record s.controller { engine = e } })

  module _ (out : Outside) (config : Config) where
    abbrev pub listened_sync : Option String → Service B D → Option Failure × Service B D
    listened_sync none s =
        let (failed, t) = halt (record s { http = closed }) in
        (some (sync_listen out.close_http_fails failed), t)
    listened_sync (some address) s =
        (none, record s { sync = opened; sync_addr = address; started = true })

    abbrev pub listened_http : Option String → Service B D → Option Failure × Service B D
    listened_http none s = let (failed, t) = halt s in (some (dashboard_listen failed), t)
    listened_http (some address) s =
        listened_sync (out.listen_sync config.sync_listen_address)
          (record s { http = opened; http_addr = address })

    abbrev pub reconciled :
        Option Delta.Failure × Controller (Engine B) D → Service B D → Option Failure × Service B D
    reconciled (some f, c) s =
        let (failed, t) = halt (record s { controller = c }) in
        (some (reconcile_routes f failed), t)
    reconciled (none, c) s =
        listened_http (out.listen_http config.http_listen_address) (record s { controller = c })

    abbrev pub engine_started : Bool × Engine B → Service B D → Option Failure × Service B D
    engine_started (false, e) s =
        (some start_engine, record s { controller = record s.controller { engine = e } })
    engine_started (true, e) s =
        reconciled
          (reconcile (route_engine g) q out.now
            (record s.controller { engine = e; publishes = true }))
          s

    -- Run up to the start of the workers.
    unfoldable pub start_up : Service B D → Option Failure × Service B D
    start_up s = engine_started (start g s.controller.engine) s

    -- runErr after the select
    unfoldable pub reported : Ending → Option Failure
    reported cancelled = none
    reported (from_http e) = elim (normalize_server_error e) [
      | none ↦ none
      | some text ↦ some (worker_failed text)
    ]
    reported (from_worker none) = none
    reported (from_worker (some text)) = some (worker_failed text)

    -- runErr == nil && err != nil
    abbrev pub first_of : Option Failure → Bool → Failure → Option Failure
    first_of (some e) failed f = some e
    first_of none true f = some f
    first_of none false f = none

    -- errors.Is(err, net.ErrClosed) is no error
    abbrev close_failed : Closing → Bool
    close_failed close_fails = true
    close_failed _ = false

    -- The shutdown after the select.
    unfoldable pub shut_down : Option Failure → Service B D → Option Failure × Service B D
    shut_down run_err s =
        let after_sync = first_of run_err (close_failed out.close_sync) close_sync in
        let after_http = first_of after_sync out.shutdown_fails shutdown_http in
        let (failed, t) = halt (record s { sync = closed; http = closed }) in
        (first_of after_http failed stop_engine, t)

    -- Run, with the work that is done until the select ends.
    unfoldable pub run : List Work → Service B D → Option Failure × Service B D
    run work s =
        let (failed, t) = start_up s in
        elim failed [
          | some f ↦ (some f, t)
          | none ↦
              shut_down (reported out.ending) (record t { controller = do_all work t.controller })
        ]
