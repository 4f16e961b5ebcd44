-- ===== src/Command.antt =====
-- The two commands, cmd/rtbh-server and cmd/rtbh-agent: from the arguments to the run.
pub mod Ended
use rtbh_panel.Common.{ℕ, String, Bool, true, false, Option, none, some, List, []}
use rtbh_panel.Common.Results.{Attempt, ok, err, ◌>>=◌, ◌>>◌}
use rtbh_panel.PolicyStore.State
use rtbh_panel.PolicyStore.Disk.{DiskState}
use rtbh_panel.Engine.Lifecycle.{Gobgp, Engine, new}
use rtbh_panel.Config.Settings.{Config, ConfigError, Library}
use rtbh_panel.Config.Load.{ParseFlags, config_server, config_agent, load_config}
use rtbh_panel.Controller.Apply.{SqlStore, Controller}
use rtbh_panel.Agent.Run.{NewFailure, new_agent}
use rtbh_panel.Backend.Direct.{Files, ConfiguredAdapter, new_configured_adapter}
use rtbh_panel.Server.Create
use rtbh_panel.Server.Create.{Host, Created, create_engine, new_server}
use rtbh_panel.Server.Run
use rtbh_panel.Server.Run.{Service, Outside, Work, unopened}

-- Why a command ends with an error.
pub data RunError : Type 0 where
  bad_config : ConfigError → RunError
  not_created : Create.Failure → RunError
  server_failed : Run.Failure → RunError
  no_adapter : State.Error → RunError
  no_agent : NewFailure → RunError

-- What a command is run in: the environment variables and the arguments, and for the server what
-- NewServer asks for, a new GoBGP server, the opened database, the policy file as it is, and what
-- happens during Run.
pub record World (B D : Type 0) : Type 0 where
  pub library : Library
  pub getenv : String → String
  pub parse : ParseFlags
  pub host : Host
  pub bgp : B
  pub database : D
  pub file : Option DiskState
  pub outside : Outside
  pub work : List Work

abbrev pub opened_sql : {D : Type 0} → Bool → D → Option D
opened_sql true d = some d
opened_sql false d = none

abbrev pub created_by : Attempt Create.Failure Created → Attempt RunError Created
created_by (err e) = err (not_created e)
created_by (ok c) = ok c

abbrev pub loaded_by : Attempt ConfigError Config → Attempt RunError Config
loaded_by (err e) = err (bad_config e)
loaded_by (ok c) = ok c

abbrev pub failed_with : Option Run.Failure → Option RunError
failed_with none = none
failed_with (some e) = some (server_failed e)

module _ {B D : Type 0} where
  -- newPolicyController, with the next hop that NewServer sets.
  unfoldable pub new_policy_controller :
      Created → Option DiskState → Option D → Engine B → Controller (Engine B) D
  new_policy_controller created file sql engine = record {
    stored = record { store = created.store; file = file };
    sql = sql;
    engine = engine;
    dry_run = created.config.dry_run;
    next_hop_v4 = created.next_hop_v4;
    next_hop_v6 = created.config.rtbh_next_hop_v6;
    publishes = false;
    published = [];
    active = [];
    wake = false;
  }

  -- The Server of NewServer, as Run finds it.
  unfoldable pub service_of : World B D → Created → Engine B → Service B D
  service_of world created engine = record {
    controller =
        new_policy_controller created world.file (opened_sql created.has_sql world.database) engine;
    http = unopened;
    sync = unopened;
    http_addr = "";
    sync_addr = "";
    started = false;
  }

  abbrev pub with_engine : World B D → Created → Attempt RunError (Created × Engine B)
  with_engine world created = elim (new created.engine world.bgp) [
    | err e ↦ err (not_created (create_engine e))
    | ok engine ↦ ok (created, engine)
  ]

  -- run of rtbh-server up to the server's Run.
  unfoldable pub prepare : World B D → Attempt RunError (Config × Service B D)
  prepare world = do
    config ← loaded_by (load_config world.library world.getenv world.parse config_server)
    created ← created_by (new_server world.library world.host config)
    both ← with_engine world created
    ok (both.0.config, service_of world both.0 both.1)

  module _ (g : Gobgp B) (q : SqlStore D) where
    abbrev pub run_prepared :
        World B D → Attempt RunError (Config × Service B D) → Option RunError × Option (Service B D)
    run_prepared world (err e) = (some e, none)
    run_prepared world (ok (config, service)) =
        let (e, after) = Run.run g q world.outside config world.work service in
        (failed_with e, some after)

    -- run of rtbh-server: its error, and the server after Run.
    unfoldable pub run_server : World B D → Option RunError × Option (Service B D)
    run_server world = run_prepared world (prepare world)

-- main: the status of the process; asking for help is no error.
unfoldable pub exit_status : Bool → Option RunError → ℕ
exit_status is_help none = 0
exit_status true (some e) = 0
exit_status false (some e) = 1

abbrev adapted : Attempt State.Error ConfiguredAdapter → Attempt RunError ConfiguredAdapter
adapted (err e) = err (no_adapter e)
adapted (ok a) = ok a

abbrev agent_made : {A : Type 0} → Attempt NewFailure A → Attempt RunError A
agent_made (err e) = err (no_agent e)
agent_made (ok a) = ok a

-- run of rtbh-agent up to the agent's Run.
unfoldable pub prepare_agent :
    Library → (String → String) → ParseFlags → Files → Attempt RunError (Config × ConfiguredAdapter)
prepare_agent lib getenv parse files = do
  config ← loaded_by (load_config lib getenv parse config_agent)
  adapter ← adapted (new_configured_adapter files config)
  agent_made (new_agent lib true config)
  ok (config, adapter)
