-- ===== src/Tests/Serving.antt =====
-- The loop of the server, and the sleeps of an agent that reconnects.
use rtbh_panel.Common.{
  ℕ_discrete, ◌≤◌, ◌/◌, ◌-◌, ◌*◌, ◌≡◌, refl, true, false, none, some, List, [], ◌∷◌, ◌++◌, map,
  arith,
}
use rtbh_panel.Common.Lists.{All}
use rtbh_panel.Policy.{blocklist, add}
use rtbh_panel.Adapter.{PolicyChange, canonical}
use rtbh_panel.Net.Prefix.{masked, discrete}
use rtbh_panel.Rpc.Message.{Frame, one, ack_message, validate_policy, read_frame}
use rtbh_panel.Rpc.Session.{Session, Wire}
use rtbh_panel.Agent.Cursor.{missing}
use rtbh_panel.Agent.Consume
use rtbh_panel.Agent.Consume.{consume}
use rtbh_panel.Agent.Delivered.{acks, apply_all}
use rtbh_panel.Agent.Run.{State, refused, connected, sleeps, sleeps_bounds}
use rtbh_panel.Config.Settings.{default_config, millisecond}
use rtbh_panel.Server.Sync.{SyncState, Environment, waiting, handle_sync}
use rtbh_panel.Server.Drained.{IsReady, messages, handle_sync_drained}
use rtbh_panel.Server.Exchange.{Transport, Peers, exchange_delivered}
use rtbh_panel.Tests.Samples.{system}

abbrev change : PolicyChange
change = record {
  id = "dashboard-1";
  idempotency_key = "dashboard-1";
  operation = add;
  list = blocklist;
  prefix = "10.0.0.0/24";
  expires_at = none;
}

abbrev pub wire : Wire
wire = record { size = λ m. 9; accepts = λ sent m. true }

abbrev pub environment : Environment
environment = record {
  system = system;
  wire = wire;
  dashboard_id = λ n. "dashboard";
  save_fails = λ step. false;
}

abbrev pub ack_frames : List Frame
ack_frames =
    record { size = 9; payload = one (ack_message 1) }
    ∷ record { size = 9; payload = one (ack_message 2) }
    ∷ []

abbrev session : Session
session = record {
  config = record { max_message_bytes = 100; max_in_flight = 1 };
  next_sequence = 1;
  applied_cursor = 0;
  peer_cursor = 0;
  pending = [];
  incoming = ack_frames;
  sent = [];
}

-- The same change twice.
abbrev start : SyncState
start = record {
  session = session;
  queue = record { pending = change ∷ change ∷ []; notify = true; next_id = 2 };
  cursor = 0;
  file = missing;
}

abbrev ready : IsReady start 1
ready = record {
  numbered = refl;
  idle = refl;
  slots = omega arith;
  behind = omega arith;
  readable = refl;
  advancing = omega arith;
}

handle_sync_drained_example :
    ((handle_sync environment 3 start).0 ≡ some waiting)
    × ((handle_sync environment 3 start).1.queue.pending ≡ [])
    × ((handle_sync environment 3 start).1.session.sent ≡ [] ++ messages 1 (change ∷ change ∷ []))
unfolding validate_policy canonical read_frame masked discrete ℕ_discrete
handle_sync_drained_example =
    handle_sync_drained environment (λ before m. refl) (λ step. refl) (change ∷ change ∷ [])
      ack_frames start 1 ready (omega arith) refl refl
      ((refl, omega arith, refl, (refl, omega arith, refl, tt)))

abbrev agent_environment : Consume.Environment (List PolicyChange)
agent_environment = record {
  system = system;
  wire = wire;
  dry_run = false;
  apply = λ c a. (true, a ++ c ∷ []);
  save_fails = λ step. false;
}

abbrev agent : State (List PolicyChange)
agent = record {
  agent = record { session = session; cursor = 0; file = missing; adapter = [] };
  delay = 250 * millisecond;
}

sleeps_bounds_example :
    All
      (λ sleep. (default_config.reconnect_min / 2 ≤ sleep) × (sleep ≤ default_config.reconnect_max))
      (sleeps agent_environment default_config
        (λ n. n - 1)
        (refused ∷ refused ∷ connected [] ∷ refused ∷ [])
        agent)
sleeps_bounds_example =
    sleeps_bounds agent_environment default_config (λ n. n - 1) (λ n h. omega (arith, h))
      (omega arith) (omega arith) (refused ∷ refused ∷ connected [] ∷ refused ∷ []) agent
      (omega arith) (omega arith)

abbrev transport : Transport wire 100
transport = record {
  frame = λ m. record { size = 9; payload = one m };
  reads = λ m h. unfold read_frame in refl;
}

abbrev peers : Peers environment agent_environment
peers = record {
  system = refl;
  wire = refl;
  accepts = λ before m. refl;
  accepted = λ before m. refl;
  applying = refl;
  applies = λ c a. refl;
  server_saves = λ step. refl;
  agent_saves = λ step. refl;
}

-- The agent's session, to which the two policies will arrive.
abbrev replica : Consume.Agent (List PolicyChange)
replica = record {
  session = record session { incoming = map transport.frame (messages 1 (change ∷ change ∷ [])) };
  cursor = 0;
  file = missing;
  adapter = [];
}

exchange_delivered_example :
    (replica.session.incoming
      ≡ map transport.frame (handle_sync environment 3 start).1.session.sent)
    × (start.session.incoming
        ≡ map transport.frame (consume agent_environment 3 replica).1.session.sent)
    × ((handle_sync environment 3 start).1.queue.pending ≡ [])
    × ((consume agent_environment 3 replica).1.adapter
        ≡ apply_all agent_environment (change ∷ change ∷ []) [])
unfolding validate_policy canonical masked discrete ℕ_discrete acks
exchange_delivered_example =
    exchange_delivered environment agent_environment peers 100 transport (change ∷ change ∷ [])
      start replica 1 ready (record { numbered = refl; readable = refl; advancing = omega arith })
      (omega arith) refl (refl, omega arith, omega arith, (refl, omega arith, omega arith, tt)) refl
      refl refl refl refl refl
