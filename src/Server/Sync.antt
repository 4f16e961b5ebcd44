-- ===== src/Server/Sync.antt =====
-- handleSync of internal/runtime/server.go: take a change from the queue, send it, wait for its
-- acknowledgement, save the cursor, and remove the change from the queue.
use rtbh_panel.Common.{
  ℕ, zero, suc, String, Bool, true, false, not, ◌||◌, Option, none, some, if◌then◌else◌, ltb,
}
use rtbh_panel.PolicyStore.Disk.{System}
use rtbh_panel.Adapter.{PolicyChange}
use rtbh_panel.Queue.{PolicyQueue, next, commit}
use rtbh_panel.Rpc.Message
use rtbh_panel.Rpc.Message.{Message, MessageType, policy_type, ack_type, other_type, Frame}
use rtbh_panel.Rpc.Session.{Session, Wire, Received, received, failed, send_policy, receive}
use rtbh_panel.Agent.Cursor
use rtbh_panel.Agent.Cursor.{CursorFile, save_cursor}

-- Why handleSync returned, or that it waits for the next change. `out_of_fuel` is of the model alone.
pub data Stop : Type 0 where
  out_of_fuel waiting invalid_ack : Stop
  send_failed receive_failed : Message.Failure → Stop
  cursor_failed : Cursor.Failure → Stop

-- The session, the server's queue and cursor, and the cursor file.
pub record SyncState : Type 0 where
  pub session : Session
  pub queue : PolicyQueue
  pub cursor : ℕ
  pub file : CursorFile

pub record Environment : Type 0 where
  pub system : System
  pub wire : Wire
  pub dashboard_id : ℕ → String
  pub save_fails : Cursor.Failure → Bool

abbrev pub is_ack : MessageType → Bool
is_ack ack_type = true
is_ack _ = false

module _ (env : Environment) where
  abbrev pub saved :
      PolicyChange
      → Message
      → Option Cursor.Failure × CursorFile
      → SyncState
      → Option Stop × SyncState
  saved change m (some e, f) s = (some (cursor_failed e), record s { file = f })
  saved change m (none, f) s = (
    none,
    record s { file = f; cursor = m.cursor; queue = commit env.dashboard_id change s.queue },
  )

  abbrev pub acknowledged : PolicyChange → ℕ → Received → SyncState → Option Stop × SyncState
  acknowledged change sequence (failed e t) s = (some (receive_failed e), record s { session = t })
  acknowledged change sequence (received m t) s =
      if not (is_ack m.kind) || ltb m.cursor sequence
      then (some invalid_ack, record s { session = t })
      else saved change m (save_cursor env.save_fails m.cursor s.file) (record s { session = t })

  abbrev pub sent :
      PolicyChange → ℕ → Option Message.Failure × Session → SyncState → Option Stop × SyncState
  sent change sequence (some e, t) s = (some (send_failed e), record s { session = t })
  sent change sequence (none, t) s =
      acknowledged change sequence (receive env.system env.wire t) (record s { session = t })

  -- A round of the loop: no stop means that the loop goes on.
  unfoldable pub serve_one : SyncState → Option Stop × SyncState
  serve_one s = elim (next env.dashboard_id s.queue) [
    | none ↦ (some waiting, s)
    | some change ↦
        sent change s.session.next_sequence (send_policy env.system env.wire change s.session) s
  ]

  -- The loop, for at most n rounds.
  unfoldable pub handle_sync : ℕ → SyncState → Option Stop × SyncState
  handle_sync zero s = (some out_of_fuel, s)
  handle_sync (suc n) s =
      let (stop, t) = serve_one s in elim stop [ some e ↦ (some e, t) | none ↦ handle_sync n t ]
