-- ===== src/Runner/Tests.antt =====
-- A whole handshake, with a digest that keeps its input.
use shachain2pc.Base.{ℕ, ◌≡◌, refl, List, [], ◌∷◌, ◌++◌, ok}
use shachain2pc.Types.Index.{alice, bob}
use shachain2pc.MpcTypes.{
  MpcFrame, validate_job_id, validate, validate_flags, validate_kind, to_proto, role_code,
  channel_code, kind_code, is_unknown_optional,
}
use shachain2pc.MpcTypes.Codec.{encode_to_vec}
use shachain2pc.MpcTypes.Tests.{plain, plain-IsProst, hello, hello_bytes}
use shachain2pc.Flow.{opposite_role}
use shachain2pc.Flow.Handshake.{SessionParams, le_bytes}
use shachain2pc.Runner.{run_session_handshake}
use shachain2pc.Runner.Transport.{frame_bytes, send_frame, send_frames, recv_frames}
use shachain2pc.Runner.Transport.RoundTrip.{send_frames-recv_frames}
use shachain2pc.Runner.Agreement.{run_session_handshake-agrees}
use shachain2pc.Runner.Completion.{run_session_handshake-completes}

abbrev keep : List ℕ → List ℕ
keep xs = xs

abbrev job : List ℕ
job = 5 ∷ 6 ∷ []

abbrev session : SessionParams
session = record { ssp = 40; circuit_digest = 1 ∷ 2 ∷ []; job_binding = 3 ∷ [] }

job_valid : validate_job_id job ≡ ok tt
unfolding validate_job_id
job_valid = refl

run_session_handshake-completes_example :
    (fs gs : List MpcFrame) × (run_session_handshake plain keep job alice session
        (record { inbox = gs; sent = [] })
      ≡ (ok tt, record { inbox = []; sent = fs }))
    × (run_session_handshake plain keep job bob session (record { inbox = fs; sent = [] })
        ≡ (ok tt, record { inbox = []; sent = gs }))
run_session_handshake-completes_example =
    run_session_handshake-completes plain plain-IsProst keep session job job_valid

completed :
    (fs gs : List MpcFrame) × (run_session_handshake plain keep job alice session
        (record { inbox = gs; sent = [] })
      ≡ (ok tt, record { inbox = []; sent = fs }))
    × (run_session_handshake plain keep job
          (opposite_role alice)
          session
          (record { inbox = fs; sent = [] })
        ≡ (ok tt, record { inbox = []; sent = gs }))
unfolding opposite_role
completed = run_session_handshake-completes plain plain-IsProst keep session job job_valid

run_session_handshake-agrees_example : session ≡ session
run_session_handshake-agrees_example =
    run_session_handshake-agrees plain plain-IsProst keep alice job job session session completed.0
      completed.1 [] completed.2 completed.3

abbrev framed : List ℕ
framed = 10 ∷ 0 ∷ 0 ∷ 0 ∷ hello_bytes

send_two : send_frames plain 64 (hello ∷ hello ∷ []) (9 ∷ []) ≡ ok (9 ∷ (framed ++ framed))
unfolding send_frames send_frame frame_bytes le_bytes encode_to_vec validate validate_job_id
    validate_flags validate_kind to_proto role_code channel_code kind_code is_unknown_optional
send_two = refl

send_frames-recv_frames_example :
    (bytes : List ℕ) × (9 ∷ (framed ++ framed) ≡ (9 ∷ []) ++ bytes)
    × (recv_frames plain 64 2 (bytes ++ 5 ∷ []) ≡ ok (hello ∷ hello ∷ [], 5 ∷ []))
send_frames-recv_frames_example =
    send_frames-recv_frames plain 64 (hello ∷ hello ∷ []) (9 ∷ []) (5 ∷ []) plain-IsProst
      (tt, (tt, tt)) send_two
