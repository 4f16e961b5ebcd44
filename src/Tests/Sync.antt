-- ===== src/Tests/Sync.antt =====
-- The transport, the agent, and the queue.
use rtbh_panel.Common.{ℕ_discrete, ℕ, suc, ◌≤◌, ◌≢◌, refl, true, false, none, List, [], ◌∷◌, arith}
use rtbh_panel.Common.Lists.{length}
use rtbh_panel.Net.Prefix.{masked, discrete}
use rtbh_panel.Policy.{blocklist, add, Mutation}
use rtbh_panel.Adapter.{PolicyChange, canonical}
use rtbh_panel.Rpc.Message.{Frame, one, policy_message, validate_policy, read_frame}
use rtbh_panel.Rpc.Session.{
  Config, Session, Wire, new_session, write, on_message, on_frame, receive_from, receive, ack,
}
use rtbh_panel.Rpc.Bounds.{send, receives, run, run-new_session}
use rtbh_panel.Agent.Cursor.{holds, save_cursor, load_cursor, load_cursor-save_cursor_le}
use rtbh_panel.Agent.Consume.{Agent, Environment, take, consume, out_of_fuel}
use rtbh_panel.Agent.Replica.{Replicated, consume_replicates}
use rtbh_panel.Agent.Termination.{consume_ends}
use rtbh_panel.Tests.Samples.{system}

abbrev change : PolicyChange
change = record {
  id = "dashboard-1";
  idempotency_key = "dashboard-1";
  operation = add;
  list = blocklist;
  prefix = "10.0.0.0/24";
  expires_at = none;
}

-- A connection that takes everything, and a message of 9 bytes.
abbrev wire : Wire
wire = record { size = λ m. 9; accepts = λ sent m. true }

abbrev limits : Config
limits = record { max_message_bytes = 100; max_in_flight = 1 }

abbrev session : List Frame → Session
session frames = record {
  config = limits;
  next_sequence = 1;
  applied_cursor = 0;
  peer_cursor = 0;
  pending = [];
  incoming = frames;
  sent = [];
}

run-new_session_example :
    length (run system wire (send change ∷ send change ∷ receives ∷ []) (session [])).pending
    ≤ (run system wire
        (send change ∷ send change ∷ receives ∷ [])
        (session [])).config.max_in_flight
unfolding new_session
run-new_session_example =
    run-new_session system wire [] limits
      (record { applied_cursor = 0; peer_cursor = 0; next_sequence = 0 }) (session [])
      (send change ∷ send change ∷ receives ∷ []) refl

-- A frame with the first policy, twice: the second is a replay.
abbrev frames : List Frame
frames =
    record { size = 9; payload = one (policy_message 1 change) }
    ∷ record { size = 9; payload = one (policy_message 1 change) }
    ∷ []

-- An agent that counts the policies that it applies.
abbrev environment : Environment ℕ
environment = record {
  system = system;
  wire = wire;
  dry_run = false;
  apply = λ c n. (true, suc n);
  save_fails = λ f. false;
}

abbrev agent : Agent ℕ
agent = record { session = session frames; cursor = 0; file = holds 0; adapter = 0 }

consume_replicates_example :
    Replicated environment (λ n. change) agent (consume environment 3 agent).1
unfolding consume take receive receive_from on_frame on_message read_frame validate_policy canonical
    masked discrete ℕ_discrete save_cursor ack write
consume_replicates_example =
    consume_replicates environment (λ n. change) 3 agent refl refl (ground arith)
      (λ c h. ground arith, (λ c h. ground arith, tt)) refl

consume_ends_example : (consume environment 3 agent).0 ≢ out_of_fuel
consume_ends_example = consume_ends environment 3 agent (ground arith)

load_cursor-save_cursor_le_example :
    (load_cursor (holds 7)).1 ≤ (load_cursor (save_cursor (λ f. false) 8 (holds 7)).1).1
load_cursor-save_cursor_le_example = load_cursor-save_cursor_le (λ f. false) 8 (holds 7)

abbrev mutation : Mutation
mutation = record { action = add; list = blocklist; prefix = "10.0.0.0/24"; expires_at = none }
