-- ===== src/Flow/Tests.antt =====
-- Frames of one job between two ends of the main channel.
use shachain2pc.Base.{ℕ, ◌+◌, ◌≡◌, ◌≢◌, ◌↔◌, refl, inl, false, List, [], ◌∷◌, map, ok, err, arith}
use shachain2pc.Types.Index.{alice, bob}
use shachain2pc.MpcTypes.{
  MpcFrame, main, session_start, new_frame, validate, validate_job_id, validate_flags,
  validate_kind, is_unknown_optional, Bytes-discrete, Role-discrete, LogicalChannel-discrete,
}
use shachain2pc.MpcTypes.Tests.{hello}
use shachain2pc.Flow.{
  ChannelFlow, StepError, abort_flow, aborting_error, sequence_mismatch, saturating_inc,
  accept_inbound, accept_outbound, outbound_frame,
}
use shachain2pc.Flow.Sequence.{
  accept_inbound_iff, accept_error, accept_all, consecutive, accept_all-consecutive, IsLinked,
  outbound_frame-accept_inbound,
}

abbrev job : List ℕ
job = 1 ∷ 2 ∷ []

abbrev sender : ChannelFlow
sender = record {
  job_id = job;
  local_role = alice;
  channel = main;
  next_send = 0;
  next_recv = 0;
  aborted = false;
}

abbrev receiver : ChannelFlow
receiver = record {
  job_id = job;
  local_role = bob;
  channel = main;
  next_send = 0;
  next_recv = 0;
  aborted = false;
}

abbrev late : ChannelFlow
late = record receiver { next_recv = 3 }

abbrev taken_hello : ChannelFlow × MpcFrame
taken_hello = (record receiver { next_recv = 1 }, hello)

accept_inbound_iff_example : (accept_inbound receiver hello ≡ ok taken_hello) ↔ (
    (receiver.aborted ≡ false)
    × (hello.job_id ≡ receiver.job_id)
    × (hello.sender_role ≢ receiver.local_role)
    × (hello.channel ≡ receiver.channel)
    × (hello.sequence ≡ receiver.next_recv)
    × (taken_hello ≡ (record receiver { next_recv = saturating_inc receiver.next_recv }, hello)))
accept_inbound_iff_example = accept_inbound_iff receiver hello taken_hello

abbrev late_error : StepError
late_error = aborting_error late (sequence_mismatch 3 0)

late_refused : accept_inbound late hello ≡ err late_error
unfolding accept_inbound Bytes-discrete Role-discrete LogicalChannel-discrete
late_refused = ground arith

accept_error_example : late_error.state ≡ abort_flow late
accept_error_example = accept_error late hello late_error (inl late_refused)

abbrev second : MpcFrame
second = record hello { sequence = 1 }

both_taken : accept_all receiver (hello ∷ second ∷ []) ≡ ok (record receiver { next_recv = 2 })
unfolding accept_all accept_inbound saturating_inc Bytes-discrete Role-discrete
    LogicalChannel-discrete
both_taken = ground arith

accept_all-consecutive_example :
    (map (λ (f : MpcFrame). f.sequence) (hello ∷ second ∷ []) ≡ consecutive 0 2) × (2 ≡ 0 + 2)
accept_all-consecutive_example =
    accept_all-consecutive receiver (hello ∷ second ∷ []) (omega arith) both_taken

linked : IsLinked sender receiver
linked = record {
  same_job = refl;
  other_role = λ e. cc;
  same_channel = refl;
  in_step = refl;
  live = refl;
}

hello_sent :
    outbound_frame sender session_start (9 ∷ []) ≡ ok (record sender { next_send = 1 }, hello)
unfolding outbound_frame accept_outbound new_frame validate validate_job_id validate_flags
    validate_kind is_unknown_optional saturating_inc Bytes-discrete Role-discrete
    LogicalChannel-discrete
hello_sent = ground arith

outbound_frame-accept_inbound_example :
    (b' : ChannelFlow) × (accept_inbound receiver hello ≡ ok (b', hello))
    × IsLinked (record sender { next_send = 1 }) b'
    × (hello.kind ≡ session_start)
    × (hello.payload ≡ 9 ∷ [])
outbound_frame-accept_inbound_example =
    outbound_frame-accept_inbound sender receiver session_start (9 ∷ []) linked hello_sent
