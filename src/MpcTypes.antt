-- ===== src/MpcTypes.antt =====
-- rust/crates/shachain2pc-mpc-types/src/lib.rs: frames, their checks, and their protobuf records
-- (proto/mpc.proto). The protobuf bytes are the `Prost` parameter of `MpcTypes.Codec`.
pub mod Codec
pub mod RoundTrip
pub mod Tests
use native.Mathlib.Decide.{ℕ_discrete}
use shachain2pc.Base.{
  ℕ, ◌-◌, ◌^◌, not, ◌&&◌, Bool, true, false, List, ltb, ◌==◌, if◌then◌else◌, bit_and, length,
  Result, ok, err, ◌>>=◌, ◌>>◌,
}
use shachain2pc.Types.Index.{Role, alice, bob}

abbrev pub protocol_version : ℕ
protocol_version = 1

abbrev pub max_job_id_bytes : ℕ
max_job_id_bytes = 64

abbrev pub frame_flag_optional_kind : ℕ
frame_flag_optional_kind = 1

-- `!SUPPORTED_FRAME_FLAGS` on a `u32`.
abbrev pub unsupported_flags_mask : ℕ
unsupported_flags_mask = 2 ^ 32 - 1 - frame_flag_optional_kind

pub data LogicalChannel : Type 0 where
  main sibling : LogicalChannel

pub data MessageKind : Type 0 where
  session_start session_start_ack input_auth_request input_auth_response : MessageKind
  program_run_request program_run_response cot_check_request cot_check_response : MessageKind
  reveal_request reveal_response abort : MessageKind
  unknown_optional : ℕ → MessageKind

-- `Decode` carries no detail of the protobuf decoder's error.
pub data MpcTypeError : Type 0 where
  decode_error empty_job_id unknown_optional_without_flag non_canonical_frame : MpcTypeError
  unsupported_version job_id_too_long bad_role bad_channel : ℕ → MpcTypeError
  unsupported_flags unknown_mandatory_kind : ℕ → MpcTypeError

unfoldable pub LogicalChannel-discrete : Discrete LogicalChannel
LogicalChannel-discrete = hlevel

unfoldable pub MessageKind-discrete : Discrete MessageKind
MessageKind-discrete = hlevel ℕ_discrete

unfoldable pub Role-discrete : Discrete Role
Role-discrete = hlevel

unfoldable pub Bytes-discrete : Discrete (List ℕ)
Bytes-discrete = hlevel ℕ_discrete

unfoldable pub channel_from_code : ℕ → Result MpcTypeError LogicalChannel
channel_from_code c = if c == 1 then ok main else if c == 2 then ok sibling else err (bad_channel c)

unfoldable pub channel_code : LogicalChannel → ℕ
channel_code main = 1
channel_code sibling = 2

unfoldable pub role_code : Role → ℕ
role_code alice = 1
role_code bob = 2

unfoldable pub role_from_code : ℕ → Result MpcTypeError Role
role_from_code c = if c == 1 then ok alice else if c == 2 then ok bob else err (bad_role c)

-- The mandatory kinds of `MessageKind::from_code`, and its two last arms.
unfoldable pub kind_from_code : ℕ → ℕ → Result MpcTypeError MessageKind
kind_from_code c flags =
    if c == 1
    then ok session_start
    else if c == 2
    then ok session_start_ack
    else if c == 3
    then ok input_auth_request
    else if c == 4
    then ok input_auth_response
    else if c == 5
    then ok program_run_request
    else if c == 6
    then ok program_run_response
    else if c == 7
    then ok cot_check_request
    else if c == 8
    then ok cot_check_response
    else if c == 9
    then ok reveal_request
    else if c == 10
    then ok reveal_response
    else if c == 11
    then ok abort
    else if not (bit_and flags frame_flag_optional_kind == 0)
    then ok (unknown_optional c)
    else err (unknown_mandatory_kind c)

unfoldable pub kind_code : MessageKind → ℕ
kind_code session_start = 1
kind_code session_start_ack = 2
kind_code input_auth_request = 3
kind_code input_auth_response = 4
kind_code program_run_request = 5
kind_code program_run_response = 6
kind_code cot_check_request = 7
kind_code cot_check_response = 8
kind_code reveal_request = 9
kind_code reveal_response = 10
kind_code abort = 11
kind_code (unknown_optional c) = c

-- `matches!(kind, MessageKind::UnknownOptional(_))`.
unfoldable pub is_unknown_optional : MessageKind → Bool
is_unknown_optional (unknown_optional c) = true
is_unknown_optional _ = false

pub record MpcFrame : Type 0 where
  pub job_id : List ℕ
  pub sender_role : Role
  pub channel : LogicalChannel
  pub sequence : ℕ
  pub kind : MessageKind
  pub payload : List ℕ
  pub flags : ℕ

unfoldable pub validate_job_id : List ℕ → Result MpcTypeError (Unit {0})
validate_job_id job_id =
    if length job_id == 0
    then err empty_job_id
    else if ltb max_job_id_bytes (length job_id)
    then err (job_id_too_long (length job_id))
    else ok tt

unfoldable pub validate_flags : ℕ → Result MpcTypeError (Unit {0})
validate_flags flags =
    if not (bit_and flags unsupported_flags_mask == 0) then err (unsupported_flags flags) else ok tt

-- The last check of `validate`: an optional kind has the optional flag.
unfoldable pub validate_kind : MpcFrame → Result MpcTypeError (Unit {0})
validate_kind f =
    if is_unknown_optional f.kind && bit_and f.flags frame_flag_optional_kind == 0
    then err unknown_optional_without_flag
    else ok tt

unfoldable pub validate : MpcFrame → Result MpcTypeError (Unit {0})
validate f = do validate_job_id f.job_id; validate_flags f.flags; validate_kind f

unfoldable pub new_frame :
    List ℕ → Role → LogicalChannel → ℕ → MessageKind → List ℕ → Result MpcTypeError MpcFrame
new_frame job_id role channel sequence kind payload =
    let frame : MpcFrame = record {
      job_id = job_id;
      sender_role = role;
      channel = channel;
      sequence = sequence;
      kind = kind;
      payload = payload;
      flags = if is_unknown_optional kind then frame_flag_optional_kind else 0;
    } in
    validate frame >> ok frame

-- The message `MpcFrame` of mpc.proto.
pub record ProtoFrame : Type 0 where
  pub version : ℕ
  pub job_id : List ℕ
  pub sender_role : ℕ
  pub channel : ℕ
  pub sequence : ℕ
  pub message_kind : ℕ
  pub payload : List ℕ
  pub flags : ℕ

unfoldable pub to_proto : MpcFrame → ProtoFrame
to_proto f = record {
  version = protocol_version;
  job_id = f.job_id;
  sender_role = role_code f.sender_role;
  channel = channel_code f.channel;
  sequence = f.sequence;
  message_kind = kind_code f.kind;
  payload = f.payload;
  flags = f.flags;
}

-- The frame that `from_proto` makes, once its parts are read.
abbrev pub frame_of : ProtoFrame → Role → LogicalChannel → MessageKind → MpcFrame
frame_of p role channel kind = record {
  job_id = p.job_id;
  sender_role = role;
  channel = channel;
  sequence = p.sequence;
  kind = kind;
  payload = p.payload;
  flags = p.flags;
}

unfoldable pub from_proto : ProtoFrame → Result MpcTypeError MpcFrame
from_proto p =
    if not (p.version == protocol_version) then err (unsupported_version p.version) else do
      validate_job_id p.job_id
      validate_flags p.flags
      role ← role_from_code p.sender_role
      channel ← channel_from_code p.channel
      kind ← kind_from_code p.message_kind p.flags
      let frame = frame_of p role channel kind
      validate frame
      ok frame

pub record SessionStart : Type 0 where
  pub ssp : ℕ
  pub circuit_digest : List ℕ
  pub job_binding : List ℕ

pub record SessionStartAck : Type 0 where
  pub transcript_binding : List ℕ
