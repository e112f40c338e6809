-- ===== src/Flow/Handshake.antt =====
-- The session handshake of rust/crates/shachain2pc-mpc-core/src/channel_flow.rs. SHA-256 is the
-- parameter `sha256`, the protobuf bytes are `Prost`.
pub mod Agreement
use Prim.Native.Char.{code}
use Prim.Native.String.{String}
use shachain2pc.Base.{
  ℕ, zero, suc, ◌/◌, ◌%◌, List, [], ◌∷◌, ◌++◌, length, ◌==◌, Result, ok, err, ◌>>=◌, ◌>>◌, guard,
  ensure, map_err,
}
use shachain2pc.Types.Index.{Role}
use shachain2pc.MpcTypes.{
  MpcFrame, SessionStart, SessionStartAck, Bytes-discrete, role_code, session_start,
}
use shachain2pc.MpcTypes
use shachain2pc.MpcTypes.Codec.{Prost, decode_session_start, decode_session_start_ack}
use shachain2pc.Flow.{
  ChannelFlow, StepResult, aborting_error, frame_error, ssp_mismatch, circuit_digest_mismatch,
  job_binding_mismatch, session_ack_mismatch, accept_inbound, outbound_frame, require_main,
  require_kind,
}

-- The bytes of an ASCII text.
abbrev pub codes : String → List ℕ
codes String.[] = []
codes (String.◌∷◌ c s) = code c ∷ codes s

abbrev pub session_ack_domain : List ℕ
session_ack_domain = codes "shachain2pc-mpc-core/session-start-ack/v1"

-- `to_le_bytes` of a word of `n` bytes.
unfoldable pub le_bytes : ℕ → ℕ → List ℕ
le_bytes zero v = []
le_bytes (suc n) v = v % 256 ∷ le_bytes n (v / 256)

unfoldable pub len_prefixed : List ℕ → List ℕ
unfolding le_bytes
len_prefixed bytes = le_bytes 8 (length bytes) ++ bytes

pub record SessionParams : Type 0 where
  pub ssp : ℕ
  pub circuit_digest : List ℕ
  pub job_binding : List ℕ

unfoldable pub to_start : SessionParams → SessionStart
to_start s = record { ssp = s.ssp; circuit_digest = s.circuit_digest; job_binding = s.job_binding }

unfoldable pub params_of : SessionStart → SessionParams
params_of s = record { ssp = s.ssp; circuit_digest = s.circuit_digest; job_binding = s.job_binding }

unfoldable pub compare_session_params :
    ChannelFlow → SessionParams → SessionParams → StepResult ChannelFlow
compare_session_params flow expected got = do
  guard (expected.ssp == got.ssp) (aborting_error flow ssp_mismatch)
  ensure (Bytes-discrete expected.circuit_digest got.circuit_digest)
      (aborting_error flow circuit_digest_mismatch)
  ensure (Bytes-discrete expected.job_binding got.job_binding)
      (aborting_error flow job_binding_mismatch)
  ok flow

module _ (sha256 : List ℕ → List ℕ) where
  unfoldable pub session_start_ack : List ℕ → Role → SessionParams → SessionStartAck
  session_start_ack job_id role params = record {
    transcript_binding = sha256 (
        session_ack_domain
        ++ (len_prefixed job_id
            ++ (role_code role
                ∷ (le_bytes 4 params.ssp
                    ++ (len_prefixed params.circuit_digest ++ len_prefixed params.job_binding)))));
  }

module _ (p : Prost) where
  unfoldable pub send_session_start :
      ChannelFlow → SessionParams → StepResult (ChannelFlow × MpcFrame)
  send_session_start flow params = do
    flow' ← require_main flow
    outbound_frame flow' session_start (p.encode_start (to_start params))

module _ (p : Prost) (sha256 : List ℕ → List ℕ) where
  unfoldable pub receive_session_start_and_ack :
      ChannelFlow → SessionParams → MpcFrame → StepResult (ChannelFlow × MpcFrame)
  receive_session_start_and_ack flow expected frame = do
    flow₁ ← require_main flow
    (flow₂, frame') ← accept_inbound flow₁ frame
    flow₃ ← require_kind flow₂ frame' session_start
    start ←
        map_err (λ e. aborting_error flow₃ (frame_error e)) (decode_session_start p frame'.payload)
    flow₄ ← compare_session_params flow₃ expected (params_of start)
    outbound_frame flow₄ MpcTypes.session_start_ack
        (p.encode_ack (session_start_ack sha256 flow₄.job_id flow₄.local_role expected))

  unfoldable pub receive_session_start_ack :
      ChannelFlow → SessionParams → MpcFrame → StepResult ChannelFlow
  receive_session_start_ack flow expected frame = do
    flow₁ ← require_main flow
    (flow₂, frame') ← accept_inbound flow₁ frame
    flow₃ ← require_kind flow₂ frame' MpcTypes.session_start_ack
    ack ←
        map_err (λ e. aborting_error flow₃ (frame_error e))
          (decode_session_start_ack p frame'.payload)
    ensure
        (Bytes-discrete ack.transcript_binding
          (session_start_ack sha256 flow₃.job_id frame'.sender_role expected).transcript_binding)
        (aborting_error flow₃ session_ack_mismatch)
    ok flow₃
