-- ===== src/Rpc/Message.antt =====
-- The messages of the transport, their frames, and the check of a policy change.
use rtbh_panel.Common.{
  ℕ, String, Bool, true, false, not, ◌&&◌, ◌||◌, Option, none, some, str_eq, if◌then◌else◌, is_some,
  ltb, ◌==◌,
}
use rtbh_panel.Policy.{PolicyList, blocklist, Action, add, unknown, valid_list}
use rtbh_panel.PolicyStore.Disk.{System}
use rtbh_panel.Adapter.{PolicyChange, canonical}

-- The type of a message, TypePolicy or TypeACK; any other text is `other_type`.
pub data MessageType : Type 0 where
  policy_type ack_type : MessageType
  other_type : String → MessageType

-- A missing field of the JSON object is 0, or a nil policy.
pub record Message : Type 0 where
  pub kind : MessageType
  pub sequence : ℕ
  pub cursor : ℕ
  pub policy : Option PolicyChange

abbrev pub policy_message : ℕ → PolicyChange → Message
policy_message n change = record {
  kind = policy_type;
  sequence = n;
  cursor = 0;
  policy = some change;
}

abbrev pub ack_message : ℕ → Message
ack_message n = record { kind = ack_type; sequence = 0; cursor = n; policy = none }

pub data Failure : Type 0 where
  positive_limits_required next_sequence_not_after_cursor : Failure
  id_and_key_required bad_operation bad_list bad_expiry canonical_prefix_required : Failure
  backpressure message_too_large write_failed : Failure
  no_header empty_message short_payload undecodable not_one_value : Failure
  zero_ack_cursor incomplete_policy sequence_gap unknown_type ack_out_of_order : Failure

-- What the payload of a frame holds: too few bytes, no message, a message and more, or a message.
pub data Payload : Type 0 where
  short bad_json trailing : Payload
  one : Message → Payload

-- A frame that arrives: the size in its header, and its payload.
pub record Frame : Type 0 where
  pub size : ℕ
  pub payload : Payload

abbrev read_payload : Payload → Option Failure × Option Message
read_payload short = (some short_payload, none)
read_payload bad_json = (some undecodable, none)
read_payload trailing = (some not_one_value, none)
read_payload (one m) = (none, some m)

-- read, after the header
unfoldable pub read_frame : ℕ → Frame → Option Failure × Option Message
read_frame max_message_bytes f =
    if f.size == 0
    then (some empty_message, none)
    else if ltb max_message_bytes f.size
    then (some message_too_large, none)
    else read_payload f.payload

abbrev operation_allowed : Action → Bool
operation_allowed (unknown _) = false
operation_allowed _ = true

-- change.Operation != "add" || change.List != "blocklist", negated
abbrev pub may_expire : Action → PolicyList → Bool
may_expire add blocklist = true
may_expire _ _ = false

-- validatePolicy
unfoldable pub validate_policy : System → PolicyChange → Option Failure
validate_policy sys change =
    if str_eq change.id "" || str_eq change.idempotency_key ""
    then some id_and_key_required
    else if not (operation_allowed change.operation)
    then some bad_operation
    else if not (valid_list change.list)
    then some bad_list
    else if is_some change.expires_at && not (may_expire change.operation change.list)
    then some bad_expiry
    else if is_some (canonical sys change.prefix)
    then none
    else some canonical_prefix_required
