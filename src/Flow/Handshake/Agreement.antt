-- ===== src/Flow/Handshake/Agreement.antt =====
-- What a completed step of the handshake says of the two parties' parameters.
use shachain2pc.Base.{ℕ, ◌≡◌, refl, sym, ap, ◌∙◌, List, Result-cases, ok, inl, inr, arith}
use shachain2pc.MpcTypes.{
  MpcFrame, SessionStart, SessionStartAck, Bytes-discrete, session_start, main,
}
use shachain2pc.MpcTypes
use shachain2pc.MpcTypes.Codec.{Prost, IsProst, decode_session_start, decode_session_start_ack}
use shachain2pc.Flow.{ChannelFlow, accept_inbound, outbound_frame, require_main, require_kind}
use shachain2pc.Flow.Sequence.{accept_inbound_iff}
use shachain2pc.Flow.Handshake.{
  SessionParams, to_start, params_of, compare_session_params, session_start_ack, send_session_start,
  receive_session_start_and_ack,
}

-- Equal parameters pass, and no others.
pub compare_session_params_lem :
    (flow : ChannelFlow) (a b : SessionParams) {flow' : ChannelFlow}
    → compare_session_params flow a b ≡ ok flow'
    → (a ≡ b) × (flow' ≡ flow)
unfolding compare_session_params
compare_session_params_lem flow a b e = ground arith

pub compare_session_params_self :
    (flow : ChannelFlow) (a : SessionParams) → compare_session_params flow a a ≡ ok flow
unfolding compare_session_params
compare_session_params_self flow a = ground arith

pub params_of-to_start : (a : SessionParams) → params_of (to_start a) ≡ a
unfolding params_of to_start
params_of-to_start a = refl

module _ (p : Prost) (laws : IsProst p) where
  pub decode_start_back : (m : SessionStart) → decode_session_start p (p.encode_start m) ≡ ok m
  unfolding decode_session_start
  decode_start_back m = rw (laws.start_back m) (ground arith)

  pub decode_ack_back : (m : SessionStartAck) → decode_session_start_ack p (p.encode_ack m) ≡ ok m
  unfolding decode_session_start_ack
  decode_ack_back m = rw (laws.ack_back m) (ground arith)

module _ (p : Prost) (sha256 : List ℕ → List ℕ) where
  -- A start frame is answered only if it is one of the kind, its payload decodes, and what it
  -- says is what this party expects.
  pub receive_start_inv :
      (flow : ChannelFlow) (expected : SessionParams) (frame : MpcFrame)
      {r : ChannelFlow × MpcFrame}
      → receive_session_start_and_ack p sha256 flow expected frame ≡ ok r
      → (flow.channel ≡ main)
        × (frame.kind ≡ session_start)
        × (s : SessionStart) × (flow' : ChannelFlow) × (decode_session_start p frame.payload ≡ ok s)
        × (params_of s ≡ expected)
        × (accept_inbound flow frame ≡ ok (flow', frame))
        × (outbound_frame flow' MpcTypes.session_start_ack
              (p.encode_ack (session_start_ack sha256 flow'.job_id flow'.local_role expected))
            ≡ ok r)
  unfolding receive_session_start_and_ack require_main require_kind
  receive_start_inv flow expected frame {r} e = elim (Result-cases (accept_inbound flow frame)) [
    | inr (x, ea) ↦ absurd (ground arith)
    | inl ((flow', frame'), ea) ↦
        let (_, _, _, _, _, moved) = (accept_inbound_iff flow frame (flow', frame')).0 ea in
        let same : frame' ≡ frame = ap (λ (t : ChannelFlow × MpcFrame). t.1) moved in
        let taken : accept_inbound flow frame ≡ ok (flow', frame) =
          ea ∙ ap (λ (t : MpcFrame). ok (flow', t)) same in
        elim (Result-cases (decode_session_start p frame.payload)) [
          | inr (x, ed) ↦ absurd (ground arith)
          | inl (s, ed) ↦
              elim (Result-cases (compare_session_params flow' expected (params_of s))) [
                | inr (x, ec) ↦ absurd (ground arith)
                | inl (flow₄, ec) ↦
                    let (agree, still) =
                      compare_session_params_lem flow' expected (params_of s) ec in
                    (ground arith, ground arith, s, flow', ed, sym agree, taken, ground arith)
              ]
        ]
  ]

  pub send_start_inv :
      (flow : ChannelFlow) (params : SessionParams) {r : ChannelFlow × MpcFrame}
      → send_session_start p flow params ≡ ok r
      → outbound_frame flow session_start (p.encode_start (to_start params)) ≡ ok r
  unfolding send_session_start require_main
  send_start_inv flow params e = ground arith

module _ (p : Prost) (laws : IsProst p) (sha256 : List ℕ → List ℕ) where
  -- A start frame with the other party's parameters is answered only if they are this party's own.
  pub receive_start_agrees :
      (flow : ChannelFlow) (mine theirs : SessionParams) (frame : MpcFrame)
      {r : ChannelFlow × MpcFrame}
      → frame.payload ≡ p.encode_start (to_start theirs)
      → receive_session_start_and_ack p sha256 flow mine frame ≡ ok r
      → mine ≡ theirs
  receive_start_agrees flow mine theirs frame sent e =
      let (_, _, s, _, ed, agree, _, _) = receive_start_inv p sha256 flow mine frame e in
      let back : decode_session_start p frame.payload ≡ ok (to_start theirs) =
        ap (decode_session_start p) sent ∙ decode_start_back p laws (to_start theirs) in
      let same : s ≡ to_start theirs = cc in
      sym agree ∙ ap params_of same ∙ params_of-to_start theirs
