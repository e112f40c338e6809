-- ===== src/Runner/Agreement.antt =====
-- A completed handshake: both parties have the same session parameters.
use shachain2pc.Base.{
  ℕ, ◌≡◌, refl, ap, ◌∙◌, inl, inr, List, [], ◌∷◌, Result, ok, err, Result-cases, arith,
}
use shachain2pc.Types.Index.{Role, alice, bob}
use shachain2pc.MpcTypes.{MpcFrame, main, session_start}
use shachain2pc.MpcTypes.Codec.{Prost, IsProst}
use shachain2pc.Flow.{ChannelFlow, StepError, new_flow, opposite_role}
use shachain2pc.Flow.Sequence.{outbound_frame-eq-ok, new_frame-eq-ok}
use shachain2pc.Flow.Handshake.{
  SessionParams, to_start, send_session_start, receive_session_start_and_ack,
  receive_session_start_ack,
}
use shachain2pc.Flow.Handshake.Agreement.{send_start_inv, receive_start_agrees}
use shachain2pc.Runner.{RunnerError, Wire, run_alice, run_bob, run_session_handshake}

abbrev pub wire : List MpcFrame → Wire
wire inbox = record { inbox = inbox; sent = [] }

module _ (p : Prost) (sha256 : List ℕ → List ℕ) (job : List ℕ) (params : SessionParams) where
  -- The payload of a start frame is what the sender's parameters encode to.
  start_payload :
      (flow : ChannelFlow) {flow' : ChannelFlow} {f : MpcFrame}
      → send_session_start p flow params ≡ ok (flow', f)
      → f.payload ≡ p.encode_start (to_start params)
  start_payload flow e =
      let made =
        (outbound_frame-eq-ok flow session_start _ (send_start_inv p sha256 flow params e)).1 in
      (new_frame-eq-ok flow.job_id flow.local_role flow.channel flow.next_send session_start _
        made).5

  abbrev IsStart : MpcFrame → Type 0
  IsStart f = f.payload ≡ p.encode_start (to_start params)

  -- This party answered the start frame `f`.
  abbrev Answered : MpcFrame → Type 0
  Answered f =
      (flow : ChannelFlow) × (r : ChannelFlow × MpcFrame) × (receive_session_start_and_ack p sha256
          flow params f
        ≡ ok r)

  -- Alice ends well only if she answered the second frame that came.
  alice_answers :
      (gs : List MpcFrame) {w : Wire}
      → run_alice p sha256 job params (wire gs) ≡ (ok tt, w)
      → (a f : MpcFrame) × (rest : List MpcFrame) × (gs ≡ a ∷ f ∷ rest) × Answered f
  unfolding run_alice
  alice_answers [] e = elim (Result-cases (send_session_start p (new_flow job alice main) params)) [
    | inr (x, es) ↦ absurd (ground arith)
    | inl ((flow₁, start), es) ↦ absurd (ground arith)
  ]
  alice_answers (a ∷ []) e =
      elim (Result-cases (send_session_start p (new_flow job alice main) params)) [
        | inr (x, es) ↦ absurd (ground arith)
        | inl ((flow₁, start), es) ↦
            elim (Result-cases (receive_session_start_ack p sha256 flow₁ params a)) [
              | inr (x, ea) ↦ absurd (ground arith)
              | inl (flow₂, ea) ↦ absurd (ground arith)
            ]
      ]
  alice_answers (a ∷ f ∷ rest) e =
      elim (Result-cases (send_session_start p (new_flow job alice main) params)) [
        | inr (x, es) ↦ absurd (ground arith)
        | inl ((flow₁, start), es) ↦
            elim (Result-cases (receive_session_start_ack p sha256 flow₁ params a)) [
              | inr (x, ea) ↦ absurd (ground arith)
              | inl (flow₂, ea) ↦
                  elim (Result-cases (receive_session_start_and_ack p sha256 flow₂ params f)) [
                    | inr (x, ef) ↦ absurd (ground arith)
                    | inl (r, ef) ↦ (a, f, rest, refl, (flow₂, r, ef))
                  ]
            ]
      ]

  -- Bob ends well only if he answered the first frame that came.
  bob_answers :
      (gs : List MpcFrame) {w : Wire}
      → run_bob p sha256 job params (wire gs) ≡ (ok tt, w)
      → (f : MpcFrame) × (rest : List MpcFrame) × (gs ≡ f ∷ rest) × Answered f
  unfolding run_bob
  bob_answers [] e = absurd (ground arith)
  bob_answers (f ∷ rest) e =
      elim (Result-cases
        (receive_session_start_and_ack p sha256 (new_flow job bob main) params f)) [
          | inr (x, ef) ↦ absurd (ground arith)
          | inl (r, ef) ↦ (f, rest, refl, (new_flow job bob main, r, ef))
        ]

  -- However her run ends, the first frame that Alice sent is her start frame.
  alice_starts :
      (fs gs left : List MpcFrame) {r : Result RunnerError (Unit {0})} (f : MpcFrame)
      (rest : List MpcFrame)
      → run_alice p sha256 job params (wire fs) ≡ (r, record { inbox = left; sent = gs })
      → gs ≡ f ∷ rest
      → IsStart f
  alice_starts fs gs left f rest e h =
      elim (Result-cases (send_session_start p (new_flow job alice main) params)) [
        | inr (x, es) ↦ absurd (failed x es)
        | inl ((flow₁, start), es) ↦
            ap (λ (t : MpcFrame). t.payload) (first fs flow₁ start es e)
            ∙ start_payload (new_flow job alice main) es
      ]
    where
      failed : (x : StepError) → send_session_start p (new_flow job alice main) params ≡ err x → ⊥
      failed x es = unfold run_alice in ground arith

      first :
          (fs : List MpcFrame) (flow₁ : ChannelFlow) (start : MpcFrame)
          {r : Result RunnerError (Unit {0})}
          → send_session_start p (new_flow job alice main) params ≡ ok (flow₁, start)
          → run_alice p sha256 job params (wire fs) ≡ (r, record { inbox = left; sent = gs })
          → f ≡ start
      first [] flow₁ start es e = unfold run_alice in ground arith
      first (a ∷ []) flow₁ start es e = unfold run_alice in ground arith
      first (a ∷ b ∷ fs) flow₁ start es e = unfold run_alice in ground arith

  -- However his run ends, the second frame that Bob sent is his start frame.
  bob_starts :
      (fs gs left : List MpcFrame) {r : Result RunnerError (Unit {0})} (a f : MpcFrame)
      (rest : List MpcFrame)
      → run_bob p sha256 job params (wire fs) ≡ (r, record { inbox = left; sent = gs })
      → gs ≡ a ∷ f ∷ rest
      → IsStart f
  unfolding run_bob
  bob_starts [] gs left a f rest e h = absurd (ground arith)
  bob_starts (s ∷ fs) gs left a f rest e h =
      elim (Result-cases
        (receive_session_start_and_ack p sha256 (new_flow job bob main) params s)) [
          | inr (x, er) ↦ absurd (ground arith)
          | inl ((flow₁, ack), er) ↦ elim (Result-cases (send_session_start p flow₁ params)) [
            | inr (x, es) ↦ absurd (ground arith)
            | inl ((flow₂, start), es) ↦
                ap (λ (t : MpcFrame). t.payload) (second fs flow₁ flow₂ ack start er es e)
                ∙ start_payload flow₁ es
          ]
        ]
    where
      second :
          (fs : List MpcFrame) (flow₁ flow₂ : ChannelFlow) (ack start : MpcFrame)
          {r : Result RunnerError (Unit {0})}
          → receive_session_start_and_ack p sha256 (new_flow job bob main) params s
            ≡ ok (flow₁, ack)
          → send_session_start p flow₁ params ≡ ok (flow₂, start)
          → run_bob p sha256 job params (wire (s ∷ fs)) ≡ (r, record { inbox = left; sent = gs })
          → f ≡ start
      second [] flow₁ flow₂ ack start er es e = ground arith
      second (b ∷ fs) flow₁ flow₂ ack start er es e = ground arith

module _ (p : Prost) (laws : IsProst p) (sha256 : List ℕ → List ℕ) where
  -- A party whose handshake ends well, on frames that a run of the other party sent, has the same
  -- session parameters as that party, whatever became of the other run and whatever it received,
  -- where the protobuf decoder reads back what the encoder writes.
  pub run_session_handshake-agrees :
      (role : Role) (job job' : List ℕ) (mine theirs : SessionParams) (fs gs left : List MpcFrame)
      {w : Wire} {r : Result RunnerError (Unit {0})}
      → run_session_handshake p sha256 job role mine (wire gs) ≡ (ok tt, w)
      → run_session_handshake p sha256 job' (opposite_role role) theirs (wire fs)
        ≡ (r, record { inbox = left; sent = gs })
      → mine ≡ theirs
  unfolding run_session_handshake opposite_role
  run_session_handshake-agrees alice job job' mine theirs fs gs left e e' =
      let (a, f, rest, shape, answer) = alice_answers p sha256 job mine gs e in
      let (flow, r, ef) = answer in
      receive_start_agrees p laws sha256 flow mine theirs f
        (bob_starts p sha256 job' theirs fs gs left a f rest e' shape) ef
  run_session_handshake-agrees bob job job' mine theirs fs gs left e e' =
      let (f, rest, shape, answer) = bob_answers p sha256 job mine gs e in
      let (flow, r, ef) = answer in
      receive_start_agrees p laws sha256 flow mine theirs f
        (alice_starts p sha256 job' theirs fs gs left f rest e' shape) ef
