-- ===== src/Runner/Completion.antt =====
-- Two parties with equal parameters complete the handshake.
use shachain2pc.Base.{ℕ, ◌≡◌, ◌≢◌, refl, ap, ◌∙◌, false, List, [], ◌∷◌, ok, arith}
use shachain2pc.Types.Index.{alice, bob}
use shachain2pc.MpcTypes.{
  MpcFrame, MessageKind, LogicalChannel, main, session_start, is_unknown_optional, validate_job_id,
  validate_flags, validate_kind, validate, new_frame,
}
use shachain2pc.MpcTypes
use shachain2pc.MpcTypes.Codec.{Prost, IsProst, decode_session_start, decode_session_start_ack}
use shachain2pc.Flow.{
  ChannelFlow, new_flow, saturating_inc, accept_inbound, outbound_frame, require_main, require_kind,
}
use shachain2pc.Flow.Sequence.{accept_inbound_iff}
use shachain2pc.Flow.Handshake.{
  SessionParams, to_start, session_start_ack, send_session_start, receive_session_start_and_ack,
  receive_session_start_ack,
}
use shachain2pc.Flow.Handshake.Agreement.{
  compare_session_params_self, params_of-to_start, decode_start_back, decode_ack_back,
}
use shachain2pc.Runner.{run_session_handshake}

-- The frame that a live flow sends, of a mandatory kind.
abbrev frame_at : ChannelFlow → MessageKind → List ℕ → MpcFrame
frame_at flow kind payload = record {
  job_id = flow.job_id;
  sender_role = flow.local_role;
  channel = flow.channel;
  sequence = flow.next_send;
  kind = kind;
  payload = payload;
  flags = 0;
}

abbrev after_send : ChannelFlow → ChannelFlow
after_send flow = record flow { next_send = saturating_inc flow.next_send }

abbrev after_recv : ChannelFlow → ChannelFlow
after_recv flow = record flow { next_recv = saturating_inc flow.next_recv }

-- A live job on the main channel, under a job id that frames may carry.
abbrev IsLive : ChannelFlow → Type 0
IsLive flow = (flow.aborted ≡ false) × (flow.channel ≡ main) × (validate_job_id flow.job_id ≡ ok tt)

-- The next frame of the other party.
abbrev IsNext : ChannelFlow → MpcFrame → Type 0
IsNext flow f =
    (f.job_id ≡ flow.job_id)
    × (f.sender_role ≢ flow.local_role)
    × (f.channel ≡ flow.channel)
    × (f.sequence ≡ flow.next_recv)

outbound_frame_lem :
    (flow : ChannelFlow) (kind : MessageKind) (payload : List ℕ)
    → IsLive flow
    → is_unknown_optional kind ≡ false
    → outbound_frame flow kind payload ≡ ok (after_send flow, frame_at flow kind payload)
unfolding outbound_frame new_frame validate validate_flags validate_kind
outbound_frame_lem flow kind payload (live, chan, job) known = ground arith

accept_inbound_lem :
    (flow : ChannelFlow) (f : MpcFrame)
    → IsLive flow
    → IsNext flow f
    → accept_inbound flow f ≡ ok (after_recv flow, f)
accept_inbound_lem flow f (live, chan, job) (j, r, c, s) =
    (accept_inbound_iff flow f (after_recv flow, f)).1 (live, j, r, c, s, refl)

module _ (p : Prost) (laws : IsProst p) (sha256 : List ℕ → List ℕ) (params : SessionParams) where
  start_of : ChannelFlow → MpcFrame
  start_of flow = frame_at flow session_start (p.encode_start (to_start params))

  ack_of : ChannelFlow → MpcFrame
  ack_of flow =
      frame_at flow MpcTypes.session_start_ack
        (p.encode_ack (session_start_ack sha256 flow.job_id flow.local_role params))

  send_start_lem :
      (flow : ChannelFlow)
      → IsLive flow
      → send_session_start p flow params ≡ ok (after_send flow, start_of flow)
  unfolding send_session_start require_main start_of is_unknown_optional
  send_start_lem flow live =
      let sent =
        outbound_frame_lem flow session_start (p.encode_start (to_start params)) live refl in
      ground arith

  receive_start_lem :
      (flow : ChannelFlow) (f : MpcFrame)
      → IsLive flow
      → IsNext flow f
      → f.kind ≡ session_start
      → f.payload ≡ p.encode_start (to_start params)
      → receive_session_start_and_ack p sha256 flow params f
        ≡ ok (after_send (after_recv flow), ack_of (after_recv flow))
  unfolding receive_session_start_and_ack require_main require_kind ack_of is_unknown_optional
  receive_start_lem flow f live next kind payload =
      let taken = accept_inbound_lem flow f live next in
      let read : decode_session_start p f.payload ≡ ok (to_start params) =
        ap (decode_session_start p) payload ∙ decode_start_back p laws (to_start params) in
      let same = params_of-to_start params in
      let agreed = compare_session_params_self (after_recv flow) params in
      let sent =
        outbound_frame_lem (after_recv flow) MpcTypes.session_start_ack
          (p.encode_ack (session_start_ack sha256 flow.job_id flow.local_role params)) live refl in
      ground arith

  receive_ack_lem :
      (flow : ChannelFlow) (f : MpcFrame)
      → IsLive flow
      → IsNext flow f
      → f.kind ≡ MpcTypes.session_start_ack
      → f.payload ≡ p.encode_ack (session_start_ack sha256 flow.job_id f.sender_role params)
      → receive_session_start_ack p sha256 flow params f ≡ ok (after_recv flow)
  unfolding receive_session_start_ack require_main require_kind
  receive_ack_lem flow f live next kind payload =
      let taken = accept_inbound_lem flow f live next in
      let read : decode_session_start_ack p f.payload
          ≡ ok (session_start_ack sha256 flow.job_id f.sender_role params) =
        ap (decode_session_start_ack p) payload
        ∙ decode_ack_back p laws (session_start_ack sha256 flow.job_id f.sender_role params) in
      ground arith

  -- With equal parameters and a job id of 1 to 64 bytes the handshake ends well on both sides:
  -- there are frames such that each party, given those of the other, sends its own, receives all
  -- and returns, where the protobuf decoder reads back what the encoder writes.
  pub run_session_handshake-completes :
      (job : List ℕ)
      → validate_job_id job ≡ ok tt
      → (fs gs : List MpcFrame) × (run_session_handshake p sha256 job alice params
            (record { inbox = gs; sent = [] })
          ≡ (ok tt, record { inbox = []; sent = fs }))
        × (run_session_handshake p sha256 job bob params (record { inbox = fs; sent = [] })
            ≡ (ok tt, record { inbox = []; sent = gs }))
  unfolding new_flow start_of ack_of
  run_session_handshake-completes job valid =
      let a₀ = new_flow job alice main in
      let a₁ = after_send a₀ in
      let a₂ = after_recv a₁ in
      let b₀ = new_flow job bob main in
      let b₁ = after_send (after_recv b₀) in
      let b₂ = after_send b₁ in
      let a_start = send_start_lem a₀ (refl, refl, valid) in
      let b_answer =
        receive_start_lem b₀ (start_of a₀) (refl, refl, valid) (refl, (λ e. cc), refl, refl) refl
          refl in
      let b_start = send_start_lem b₁ (refl, refl, valid) in
      let a_check =
        receive_ack_lem a₁ (ack_of (after_recv b₀)) (refl, refl, valid)
          (refl, (λ e. cc), refl, refl) refl refl in
      let a_answer =
        receive_start_lem a₂ (start_of b₁) (refl, refl, valid) (refl, (λ e. cc), refl, refl) refl
          refl in
      let b_check =
        receive_ack_lem b₂ (ack_of (after_recv a₂)) (refl, refl, valid)
          (refl, (λ e. cc), refl, refl) refl refl in
      (
        start_of a₀ ∷ ack_of (after_recv a₂) ∷ [],
        ack_of (after_recv b₀) ∷ start_of b₁ ∷ [],
        unfold run_session_handshake in rw (a_start, a_check, a_answer),
        unfold run_session_handshake in rw (b_answer, b_start, b_check),
      )
