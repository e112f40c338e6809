-- ===== src/Flow.antt =====
-- ChannelFlow of rust/crates/shachain2pc-mpc-core/src/channel_flow.rs: the order of the frames of
-- one job on one channel. An error returns the state with it.
pub mod Words
pub mod Sequence
pub mod Handshake
pub mod Tests
use shachain2pc.Base.{
  ℕ, ◌+◌, ◌-◌, ◌^◌, min, Bool, true, false, not, List, ◌==◌, Result, ok, err, ◌>>=◌, ◌>>◌, guard,
  ensure, refuse, map_err,
}
use shachain2pc.Types.Index.{Role, alice, bob}
use shachain2pc.MpcTypes.{
  LogicalChannel, main, MessageKind, MpcTypeError, MpcFrame, LogicalChannel-discrete,
  MessageKind-discrete, Role-discrete, Bytes-discrete, new_frame,
}

pub record ChannelFlow : Type 0 where
  pub job_id : List ℕ
  pub local_role : Role
  pub channel : LogicalChannel
  pub next_send : ℕ
  pub next_recv : ℕ
  pub aborted : Bool

-- `Frame` carries the error that the source prints.
pub data CoreError : Type 0 where
  job_aborted job_mismatch session_ack_mismatch : CoreError
  wrong_channel_for_phase channel_mismatch : LogicalChannel → LogicalChannel → CoreError
  role_mismatch : Role → Role → CoreError
  sequence_mismatch : ℕ → ℕ → CoreError
  unexpected_message_kind : MessageKind → MessageKind → CoreError
  ssp_mismatch circuit_digest_mismatch job_binding_mismatch : CoreError
  frame_error : MpcTypeError → CoreError

pub record StepError : Type 0 where
  pub state : ChannelFlow
  pub error : CoreError

abbrev pub StepResult {ℓ} : Type ℓ → Type ℓ
StepResult A = Result StepError A

unfoldable pub new_flow : List ℕ → Role → LogicalChannel → ChannelFlow
new_flow job_id role channel = record {
  job_id = job_id;
  local_role = role;
  channel = channel;
  next_send = 0;
  next_recv = 0;
  aborted = false;
}

unfoldable pub abort_flow : ChannelFlow → ChannelFlow
abort_flow flow = record flow { aborted = true }

unfoldable pub aborting_error : ChannelFlow → CoreError → StepError
unfolding abort_flow
aborting_error flow error = record { state = abort_flow flow; error = error }

abbrev pub step_error : ChannelFlow → CoreError → StepError
step_error flow error = record { state = flow; error = error }

unfoldable pub opposite_role : Role → Role
opposite_role alice = bob
opposite_role bob = alice

-- `n.saturating_add(1)` on a `u64`.
unfoldable pub saturating_inc : ℕ → ℕ
saturating_inc n = min (n + 1) (2 ^ 64 - 1)

unfoldable pub accept_outbound : ChannelFlow → MpcFrame → StepResult (ChannelFlow × MpcFrame)
accept_outbound flow frame = do
  guard (not flow.aborted) (step_error flow job_aborted)
  ensure (Bytes-discrete frame.job_id flow.job_id) (aborting_error flow job_mismatch)
  ensure (Role-discrete frame.sender_role flow.local_role)
      (aborting_error flow (role_mismatch flow.local_role frame.sender_role))
  ensure (LogicalChannel-discrete frame.channel flow.channel)
      (aborting_error flow (channel_mismatch flow.channel frame.channel))
  guard (frame.sequence == flow.next_send)
      (aborting_error flow (sequence_mismatch flow.next_send frame.sequence))
  ok (record flow { next_send = saturating_inc flow.next_send }, frame)

-- A frame that cannot be made is refused with the state as it was.
unfoldable pub outbound_frame :
    ChannelFlow → MessageKind → List ℕ → StepResult (ChannelFlow × MpcFrame)
unfolding accept_outbound
outbound_frame flow kind payload = do
  guard (not flow.aborted) (step_error flow job_aborted)
  frame ←
      map_err (λ e. step_error flow (frame_error e))
        (new_frame flow.job_id flow.local_role flow.channel flow.next_send kind payload)
  accept_outbound flow frame

unfoldable pub accept_inbound : ChannelFlow → MpcFrame → StepResult (ChannelFlow × MpcFrame)
accept_inbound flow frame = do
  guard (not flow.aborted) (step_error flow job_aborted)
  ensure (Bytes-discrete frame.job_id flow.job_id) (aborting_error flow job_mismatch)
  refuse (Role-discrete frame.sender_role flow.local_role)
      (aborting_error flow (role_mismatch (opposite_role flow.local_role) frame.sender_role))
  ensure (LogicalChannel-discrete frame.channel flow.channel)
      (aborting_error flow (channel_mismatch flow.channel frame.channel))
  guard (frame.sequence == flow.next_recv)
      (aborting_error flow (sequence_mismatch flow.next_recv frame.sequence))
  ok (record flow { next_recv = saturating_inc flow.next_recv }, frame)

unfoldable pub require_main : ChannelFlow → StepResult ChannelFlow
require_main flow = do
  ensure (LogicalChannel-discrete flow.channel main)
      (aborting_error flow (wrong_channel_for_phase main flow.channel))
  ok flow

unfoldable pub require_kind : ChannelFlow → MpcFrame → MessageKind → StepResult ChannelFlow
require_kind flow frame expected = do
  ensure (MessageKind-discrete frame.kind expected)
      (aborting_error flow (unexpected_message_kind expected frame.kind))
  ok flow
