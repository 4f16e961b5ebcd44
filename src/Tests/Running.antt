-- ===== src/Tests/Running.antt =====
-- The engine over a GoBGP server that keeps a table, and the run of a server over it.
use rtbh_panel.Common.{
  ℕ, ◌≤◌, ◌≡◌, refl, String, Bool, true, false, none, some, List, [], ◌∷◌, ite, arith, ℕ_discrete,
}
use rtbh_panel.Common.Lists.{length, member, any}
use rtbh_panel.Common.Assoc.{lookup, insert}
use rtbh_panel.Common.Texts.{string_discrete}
use rtbh_panel.Net.Prefix.{Prefix, discrete, contains}
use rtbh_panel.Engine.Route.{route_path}
use rtbh_panel.Engine.Peers.{established, update, permits}
use rtbh_panel.Engine.Peers
use rtbh_panel.Engine.Settings.{Config, port, validate}
use rtbh_panel.Engine.Lifecycle.{Gobgp, Engine, new, start, in_turn, announce}
use rtbh_panel.Engine.Running.{Serving, Call, starts, stops, peer_updates, run}
use rtbh_panel.Engine.Sound
use rtbh_panel.Controller.Apply.{Controller, routes, deliver}
use rtbh_panel.Controller.Routes.{effective_routes, add_routes, add_route, suppressed, route_for}
use rtbh_panel.Controller.Delta.{apply_delta, withdraw_stale, announce_new}
use rtbh_panel.Controller.Delta.Rollback.{has}
use rtbh_panel.Controller.Service.{reconcile}
use rtbh_panel.Controller.InStep.{IsInStep}
use rtbh_panel.Server.Engine.{Tabled, engine_laws, route_engine}
use rtbh_panel.Server.Run.{Service, Outside, unopened, opened, cancelled, closes, start_up}
use rtbh_panel.Server.Run.Serving.{Quiet, start_up_serves}
use rtbh_panel.Config.Settings.{default_config}
use rtbh_panel.Tests.Samples.{ten, next_hop, two_lists, two_lists-IsValid, no_sql}

-- A GoBGP server: whether it runs, and its table. No call fails.
abbrev pub Daemon : Type 0
Daemon = Bool × (Prefix → Bool)

abbrev pub daemon : Gobgp Daemon
daemon = record {
  start_bgp = λ c b. (true, (true, b.1));
  add_defined_set = λ s b. (true, b);
  add_policy = λ p b. (true, b);
  add_peer_group = λ p b. (true, b);
  add_dynamic_neighbor = λ p b. (true, b);
  watch_event = λ b. (true, b);
  stop_bgp = λ b. (true, (false, b.1));
  add_path = λ path b. (true, (b.0, λ p. ite (discrete path.nlri p) true (b.1 p)));
  delete_path = λ path b. (true, (b.0, λ p. ite (discrete path.nlri p) false (b.1 p)));
  reset_peer = λ a b. (true, b);
  list_peer = λ b. (true, []);
}

abbrev pub serving : Serving daemon
serving = record {
  alive = λ b. b.0;
  started = λ c b h. refl;
  not_started = λ c b h. absurd (ground arith);
  stopped = λ b. refl;
  defining = λ s b. refl;
  policing = λ p b. refl;
  grouping = λ p b. refl;
  neighbouring = λ p b. refl;
  watching = λ b. refl;
  adding = λ p b. refl;
  deleting = λ p b. refl;
  resetting = λ a b. refl;
}

abbrev tabled : Tabled daemon
tabled = record {
  advertised = λ b p. b.1 p;
  added = λ path b p h. refl;
  not_added = λ path b p h. absurd (ground arith);
  deleted = λ path b p h. refl;
  not_deleted = λ path b p h. absurd (ground arith);
}

abbrev quiet : Quiet daemon tabled
quiet = record {
  starting = λ c b p. refl;
  defining = λ s b p. refl;
  policing = λ s b p. refl;
  grouping = λ s b p. refl;
  neighbouring = λ r b p. refl;
  watching = λ b p. refl;
}

abbrev config : Config
config = record {
  local_asn = 64500;
  router_id = next_hop;
  listen_port = port 179;
  listen_ranges = ten ∷ [];
  allowed_asns = 64501 ∷ [];
  max_sessions = 1;
}

abbrev engine : Engine Daemon
engine = record {
  config = config;
  bgp = (false, λ p. false);
  policy = Peers.new (64501 ∷ []) 1;
  running = false;
  watch_cancel = false;
}

abbrev calls : List Call
calls =
    starts
    ∷ peer_updates (update established "192.0.2.9" 64501)
    ∷ peer_updates (update established "192.0.2.10" 64501)
    ∷ stops
    ∷ []

run-new_example :
    ((run daemon calls engine).running ≡ (run daemon calls engine).bgp.0)
    × (length (run daemon calls engine).policy.peers ≤ 1)
    × ((address : String) (asn : ℕ)
        → lookup string_discrete address (run daemon calls engine).policy.peers ≡ some asn
        → permits (64501 ∷ []) asn ≡ true)
run-new_example =
    Sound.run-new daemon serving config (false, λ p. false) engine calls
      (unfold new in unfold validate in unfold any in unfold Peers.new in refl) refl

abbrev controller : Controller (Engine Daemon) Unit
controller = record {
  stored = two_lists;
  sql = none;
  engine = engine;
  dry_run = false;
  next_hop_v4 = next_hop;
  next_hop_v6 = next_hop;
  publishes = false;
  published = [];
  active = [];
  wake = false;
}

abbrev pub service : Service Daemon Unit
service = record {
  controller = controller;
  http = unopened;
  sync = unopened;
  http_addr = "";
  sync_addr = "";
  started = false;
}

abbrev pub outside : Outside
outside = record {
  now = 5;
  listen_http = λ a. some a;
  listen_sync = λ a. some a;
  close_http_fails = false;
  ending = cancelled;
  close_sync = closes;
  shutdown_fails = false;
}

controller-IsInStep :
    IsInStep (route_engine daemon) no_sql (engine_laws daemon tabled) service.controller
unfolding lookup
controller-IsInStep = record { valid = two_lists-IsValid; keyed = tt; advertising = λ p. refl }

start_up_serves_example :
    ((start_up daemon no_sql outside default_config service).1.controller.engine.running ≡ true)
    × ((start_up daemon no_sql outside default_config service).1.http ≡ opened)
    × ((start_up daemon no_sql outside default_config service).1.sync ≡ opened)
    × ((p : Prefix)
        → (start_up daemon no_sql outside default_config service).1.controller.engine.bgp.1 p
          ≡ has
              (routes
                (route_engine daemon)
                no_sql
                5
                (start_up daemon no_sql outside default_config service).1.controller)
              p)
unfolding start_up start in_turn reconcile apply_delta withdraw_stale announce_new lookup routes
    effective_routes add_routes add_route suppressed any contains insert member discrete ℕ_discrete
    announce route_path deliver route_for
start_up_serves_example =
    start_up_serves daemon no_sql tabled quiet outside default_config service controller-IsInStep
      refl refl
