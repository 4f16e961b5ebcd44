-- ===== src/Rpc/Session.antt =====
-- Session: sending policies, receiving policies and acknowledgements, acknowledging.
use rtbh_panel.Common.{
  ℕ, ◌+◌, ◌%◌, ◌^◌, Bool, not, ◌||◌, Option, none, some, List, [], ◌∷◌, ◌++◌, if◌then◌else◌, leb,
  ltb, ◌==◌, ℕ_discrete,
}
use rtbh_panel.Common.Lists.{length, filter, member}
use rtbh_panel.PolicyStore.Disk.{System}
use rtbh_panel.Adapter.{PolicyChange}
use rtbh_panel.Rpc.Message.{
  Message, policy_type, ack_type, other_type, policy_message, ack_message, Frame, Failure,
  read_frame, validate_policy, positive_limits_required, next_sequence_not_after_cursor,
  backpressure, message_too_large, write_failed, no_header, zero_ack_cursor, incomplete_policy,
  sequence_gap, unknown_type, ack_out_of_order,
}

pub record Config : Type 0 where
  pub max_message_bytes : ℕ
  pub max_in_flight : ℕ

pub record Resume : Type 0 where
  pub applied_cursor : ℕ
  pub peer_cursor : ℕ
  pub next_sequence : ℕ

-- A session, with the frames that its connection will deliver and the messages that it has sent.
pub record Session : Type 0 where
  pub config : Config
  pub next_sequence : ℕ
  pub applied_cursor : ℕ
  pub peer_cursor : ℕ
  pub pending : List ℕ
  pub incoming : List Frame
  pub sent : List Message

-- The connection's other side: the length of a message's JSON text, and whether the connection takes
-- a message after those that were sent.
pub record Wire : Type 0 where
  pub size : Message → ℕ
  pub accepts : List Message → Message → Bool

-- next, with its default
abbrev next_of : Resume → ℕ
next_of resume =
    if resume.next_sequence == 0 then (resume.peer_cursor + 1) % 2 ^ 64 else resume.next_sequence

-- NewSession; the limits are Go ints, of which those below 1 are all 0 here.
unfoldable pub new_session : List Frame → Config → Resume → Option Failure × Option Session
new_session incoming config resume =
    if leb config.max_message_bytes 0 || leb config.max_in_flight 0
    then (some positive_limits_required, none)
    else if leb (next_of resume) resume.peer_cursor
    then (some next_sequence_not_after_cursor, none)
    else (
      none,
      some (record {
        config = config;
        next_sequence = next_of resume;
        applied_cursor = resume.applied_cursor;
        peer_cursor = resume.peer_cursor;
        pending = [];
        incoming = incoming;
        sent = [];
      }),
    )

-- write: a part of a frame that was written before an error is not kept.
unfoldable pub write : Wire → Message → Session → Option Failure × Session
write wire m s =
    if ltb s.config.max_message_bytes (wire.size m)
    then (some message_too_large, s)
    else if wire.accepts s.sent m
    then (none, record s { sent = s.sent ++ m ∷ [] })
    else (some write_failed, s)

-- s.pending[sequence] = struct{}{}, and delete(s.pending, sequence)
abbrev put : ℕ → List ℕ → List ℕ
put n pending = if member ℕ_discrete n pending then pending else pending ++ n ∷ []

abbrev drop : ℕ → List ℕ → List ℕ
drop n pending = filter (λ m. not (m == n)) pending

abbrev sent_or_dropped : ℕ → Option Failure × Session → Option Failure × Session
sent_or_dropped n (some f, s) = (some f, record s { pending = drop n s.pending })
sent_or_dropped n (none, s) = (none, s)

-- SendPolicy; the sequence that it returns is the next_sequence before the call.
unfoldable pub send_policy : System → Wire → PolicyChange → Session → Option Failure × Session
send_policy sys wire change s = elim (validate_policy sys change) [
  | some f ↦ (some f, s)
  | none ↦
      if leb s.config.max_in_flight (length s.pending)
      then (some backpressure, s)
      else sent_or_dropped s.next_sequence (
          write wire (policy_message s.next_sequence change) (record s {
            next_sequence = (s.next_sequence + 1) % 2 ^ 64;
            pending = put s.next_sequence s.pending;
          }))
]

-- What one round of Receive's loop does: it returns a message or an error, or it goes on.
pub data Round : Type 0 where
  returns : Message → Session → Round
  fails : Failure → Session → Round
  continues : Session → Round

abbrev on_ack : Message → Session → Round
on_ack m s =
    if m.cursor == 0
    then fails zero_ack_cursor s
    else if ltb s.peer_cursor m.cursor
    then returns m (record s {
      peer_cursor = m.cursor;
      pending = filter (λ n. not (leb n m.cursor)) s.pending;
    })
    else returns m s

abbrev acknowledged : Option Failure × Session → Round
acknowledged (some f, s) = fails f s
acknowledged (none, s) = continues s

abbrev on_policy : System → Wire → Message → Session → Round
on_policy sys wire m s = elim m.policy [
  | none ↦ fails incomplete_policy s
  | some change ↦
      if m.sequence == 0 then fails incomplete_policy s else elim (validate_policy sys change) [
        | some f ↦ fails f s
        | none ↦
            if leb m.sequence s.applied_cursor
            then acknowledged (write wire (ack_message s.applied_cursor) s)
            else if not (m.sequence == (s.applied_cursor + 1) % 2 ^ 64)
            then fails sequence_gap s
            else returns m s
      ]
]

-- The switch of Receive.
unfoldable pub on_message : System → Wire → Message → Session → Round
on_message sys wire m s = elim m.kind [
  | ack_type ↦ on_ack m s
  | policy_type ↦ on_policy sys wire m s
  | other_type _ ↦ fails unknown_type s
]

unfoldable pub on_frame : System → Wire → Frame → Session → Round
on_frame sys wire f s = elim (read_frame s.config.max_message_bytes f).1 [
  | some m ↦ on_message sys wire m s
  | none ↦ elim (read_frame s.config.max_message_bytes f).0 [
    | some e ↦ fails e s
    | none ↦ fails no_header s
  ]
]

-- What Receive returns.
pub data Received : Type 0 where
  received : Message → Session → Received
  failed : Failure → Session → Received

-- Receive, over the frames that arrive. When they end the connection is closed.
unfoldable pub receive_from : System → Wire → List Frame → Session → Received
receive_from sys wire [] s = failed no_header (record s { incoming = [] })
receive_from sys wire (f ∷ rest) s = elim (on_frame sys wire f (record s { incoming = rest })) [
  | returns m t ↦ received m t
  | fails e t ↦ failed e t
  | continues t ↦ receive_from sys wire rest t
]

unfoldable pub receive : System → Wire → Session → Received
receive sys wire s = receive_from sys wire s.incoming s

-- Ack: the cursor stays advanced when the write fails.
unfoldable pub ack : Wire → ℕ → Session → Option Failure × Session
ack wire sequence s =
    if not (sequence == (s.applied_cursor + 1) % 2 ^ 64)
    then (some ack_out_of_order, s)
    else write wire (ack_message sequence) (record s { applied_cursor = sequence })
