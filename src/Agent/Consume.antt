-- ===== src/Agent/Consume.antt =====
-- consume of internal/runtime/agent.go: receive a policy, apply it, save the cursor, acknowledge.
use rtbh_panel.Common.{ℕ, zero, suc, Bool, true, false, Option, none, some, if◌then◌else◌}
use rtbh_panel.PolicyStore.Disk.{System}
use rtbh_panel.Adapter.{PolicyChange}
use rtbh_panel.Rpc.Message
use rtbh_panel.Rpc.Message.{Message, policy_type, ack_type, other_type}
use rtbh_panel.Rpc.Session.{Session, Wire, Received, received, failed, receive, ack}
use rtbh_panel.Agent.Cursor
use rtbh_panel.Agent.Cursor.{CursorFile, save_cursor}

-- Why consume returned, which it does only with an error. `out_of_fuel` is of the model alone.
pub data Stop : Type 0 where
  out_of_fuel dry_run_policy apply_failed : Stop
  receive_failed : Message.Failure → Stop
  cursor_failed : Cursor.Failure → Stop
  ack_failed : Message.Failure → Stop

-- What consume works on: the session, the variable `cursor` of Run, the cursor file, and the state
-- of the policy adapter.
pub record Agent (A : Type 0) : Type 0 where
  pub session : Session
  pub cursor : ℕ
  pub file : CursorFile
  pub adapter : A

-- The surroundings of an agent: its configuration, PolicyAdapter.Apply, and what fails of a save.
pub record Environment (A : Type 0) : Type 0 where
  pub system : System
  pub wire : Wire
  pub dry_run : Bool
  pub apply : PolicyChange → A → Bool × A
  pub save_fails : Cursor.Failure → Bool

module _ {A : Type 0} (env : Environment A) where
  -- session.Ack and the two assignments of *cursor
  abbrev acknowledged : Option Message.Failure × Session → Agent A → Option Stop × Agent A
  acknowledged (some e, s) a =
      (some (ack_failed e), record a { session = s; cursor = s.applied_cursor })
  acknowledged (none, s) a = (none, record a { session = s; cursor = s.applied_cursor })

  abbrev saved : ℕ → Option Cursor.Failure × CursorFile → Agent A → Option Stop × Agent A
  saved n (some e, f) a = (some (cursor_failed e), record a { file = f })
  saved n (none, f) a = acknowledged (ack env.wire n a.session) (record a { file = f })

  abbrev applied : ℕ → Bool × A → Agent A → Option Stop × Agent A
  applied n (false, x) a = (some apply_failed, record a { adapter = x })
  applied n (true, x) a =
      if env.dry_run
      then (some dry_run_policy, record a { adapter = x })
      else saved n (save_cursor env.save_fails n a.file) (record a { adapter = x })

  abbrev take_policy : Message → Agent A → Option Stop × Agent A
  take_policy m a = elim m.policy [
    | none ↦ (none, a)
    | some change ↦ applied m.sequence (env.apply change a.adapter) a
  ]

  -- The body of the loop after Receive: no error means that the loop goes on.
  unfoldable pub take : Message → Agent A → Option Stop × Agent A
  take m a = elim m.kind [ policy_type ↦ take_policy m a | _ ↦ (none, a) ]

  -- One round after Receive returned, with the rest of the loop as an argument.
  abbrev pub after_take : (Agent A → Stop × Agent A) → Option Stop × Agent A → Stop × Agent A
  after_take next (some e, a) = (e, a)
  after_take next (none, a) = next a

  abbrev pub after_receive : (Agent A → Stop × Agent A) → Agent A → Received → Stop × Agent A
  after_receive next a (failed e s) = (receive_failed e, record a { session = s })
  after_receive next a (received m s) = after_take next (take m (record a { session = s }))

  unfoldable pub consume : ℕ → Agent A → Stop × Agent A
  consume zero a = (out_of_fuel, a)
  consume (suc fuel) a = after_receive (consume fuel) a (receive env.system env.wire a.session)
