-- ===== src/Runner/Transport.antt =====
-- ByteFrameTransport and MemoryTransport of rust/crates/shachain2pc-mpc-runner/src/lib.rs. A byte
-- stream is the bytes still to come and the bytes sent; reading more than will come fails. The queues
-- of a memory transport are lists, and `peer_open` says that the other end is there.
pub mod RoundTrip
use shachain2pc.Base.{
  ℕ, zero, suc, ◌+◌, ◌-◌, ◌*◌, ◌/◌, ◌%◌, ◌^◌, ◌≤◌, ◌<◌, ◌≡◌, refl, sym, ap, ◌∙◌, Bool, true, false,
  ◌==◌, ltb, leb, if◌then◌else◌, List, [], ◌∷◌, ◌++◌, length, length-append, take, drop, Option,
  none, some, Result, ok, err, ◌>>=◌, ◌>>◌, guard, map_err, arith,
}
use shachain2pc.Base.Reads.{take-append, drop-append}
use shachain2pc.Types.Index.{Role}
use shachain2pc.MpcTypes.{MpcFrame, LogicalChannel}
use shachain2pc.MpcTypes.Codec.{Prost, IsProst, encode_to_vec, decode}
use shachain2pc.MpcTypes.RoundTrip.{IsOwnKind, decode_iff}
use shachain2pc.Flow.{ChannelFlow, StepError, StepResult, new_flow, accept_outbound, accept_inbound}
use shachain2pc.Flow.Handshake.{le_bytes}
use shachain2pc.Flow.Words.{le_value}
use shachain2pc.Runner.{
  RunnerError, transport_closed, internal_state_missing, wire_closed, length_too_large, core, frame,
  frame_too_large,
}

abbrev pub default_max_frame_bytes : ℕ
default_max_frame_bytes = 16 * 1024 * 1024

-- `stream.recv_data(len)`: the bytes, and those behind them.
unfoldable pub recv_data : ℕ → List ℕ → Result RunnerError (List ℕ × List ℕ)
recv_data len incoming =
    if leb len (length incoming) then ok (take len incoming, drop len incoming) else err wire_closed

module _ (p : Prost) (max_frame_bytes : ℕ) where
  -- The bytes that `send` writes for a frame: the length in four bytes, and the frame.
  unfoldable pub frame_bytes : MpcFrame → Result RunnerError (List ℕ)
  unfolding le_bytes
  frame_bytes f = do
    bytes ← map_err frame (encode_to_vec p f)
    guard (leb (length bytes) max_frame_bytes) (frame_too_large (length bytes) max_frame_bytes)
    guard (ltb (length bytes) (2 ^ 32)) length_too_large
    ok (le_bytes 4 (length bytes) ++ bytes)

  unfoldable pub send_frame : MpcFrame → List ℕ → Result RunnerError (List ℕ)
  unfolding frame_bytes
  send_frame f sent = frame_bytes f >>= λ bytes. ok (sent ++ bytes)

  unfoldable pub recv_frame : List ℕ → Result RunnerError (MpcFrame × List ℕ)
  unfolding recv_data le_value
  recv_frame incoming = do
    (prefix, rest) ← recv_data 4 incoming
    let len = le_value prefix
    guard (leb len max_frame_bytes) (frame_too_large len max_frame_bytes)
    (bytes, rest') ← recv_data len rest
    f ← map_err frame (decode p bytes)
    ok (f, rest')

  unfoldable pub send_frames : List MpcFrame → List ℕ → Result RunnerError (List ℕ)
  unfolding send_frame
  send_frames [] sent = ok sent
  send_frames (f ∷ fs) sent = send_frame f sent >>= send_frames fs

  unfoldable pub recv_frames : ℕ → List ℕ → Result RunnerError (List MpcFrame × List ℕ)
  unfolding recv_frame
  recv_frames zero incoming = ok ([], incoming)
  recv_frames (suc n) incoming = do
    (f, rest) ← recv_frame incoming
    (fs, rest') ← recv_frames n rest
    ok (f ∷ fs, rest')

-- A memory transport: its flow, and the two queues.
pub record MemoryTransport : Type 0 where
  pub flow : Option ChannelFlow
  pub outbox : List MpcFrame
  pub inbox : List MpcFrame
  pub peer_open : Bool

unfoldable pub new_memory_transport :
    List ℕ → Role → LogicalChannel → List MpcFrame → MemoryTransport
unfolding new_flow
new_memory_transport job_id role channel inbox = record {
  flow = some (new_flow job_id role channel);
  outbox = [];
  inbox = inbox;
  peer_open = true;
}

abbrev pub commit_send :
    StepResult (ChannelFlow × MpcFrame)
    → MemoryTransport
    → Result RunnerError (Unit {0}) × MemoryTransport
commit_send (err e) t = (err (core e.error), record t { flow = some e.state })
commit_send (ok (flow, f)) t =
    if t.peer_open
    then (ok tt, record t { flow = some flow; outbox = t.outbox ++ f ∷ [] })
    else (err transport_closed, record t { flow = some flow })

abbrev pub send_with :
    Option ChannelFlow
    → MpcFrame
    → MemoryTransport
    → Result RunnerError (Unit {0}) × MemoryTransport
unfolding accept_outbound
send_with none f t = (err internal_state_missing, t)
send_with (some flow) f t = commit_send (accept_outbound flow f) t

unfoldable pub memory_send :
    MpcFrame → MemoryTransport → Result RunnerError (Unit {0}) × MemoryTransport
memory_send f t = send_with t.flow f t

abbrev pub commit_recv :
    StepResult (ChannelFlow × MpcFrame)
    → MemoryTransport
    → Result RunnerError MpcFrame × MemoryTransport
commit_recv (err e) t = (err (core e.error), record t { flow = some e.state })
commit_recv (ok (flow, f)) t = (ok f, record t { flow = some flow })

abbrev pub recv_with :
    Option ChannelFlow → MpcFrame → MemoryTransport → Result RunnerError MpcFrame × MemoryTransport
unfolding accept_inbound
recv_with none f t = (err internal_state_missing, t)
recv_with (some flow) f t = commit_recv (accept_inbound flow f) t

abbrev pub recv_from :
    List MpcFrame → MemoryTransport → Result RunnerError MpcFrame × MemoryTransport
recv_from [] t = (err transport_closed, t)
recv_from (f ∷ fs) t = recv_with t.flow f (record t { inbox = fs })

unfoldable pub memory_recv : MemoryTransport → Result RunnerError MpcFrame × MemoryTransport
memory_recv t = recv_from t.inbox t
