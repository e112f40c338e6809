-- ===== src/Flow/Sequence.antt =====
-- What the checks of a ChannelFlow establish of the frames that pass.
use shachain2pc.Base.{
  ℕ, zero, suc, ◌+◌, ◌^◌, ◌<◌, ◌≡◌, ◌≢◌, ◌↔◌, ◌⊎◌, refl, sym, ap, ◌∙◌, false, List, [], ◌∷◌, map,
  length, inl, inr, Result-cases, ok, err, ◌>>=◌, arith,
}
use shachain2pc.Types.Index.{Role}
use shachain2pc.MpcTypes.{LogicalChannel, MessageKind, MpcFrame, new_frame}
use shachain2pc.Flow.{
  ChannelFlow, StepResult, StepError, abort_flow, aborting_error, saturating_inc, accept_outbound,
  outbound_frame, accept_inbound,
}

-- An incoming frame passes exactly when the job is live and the frame has its job id, the other
-- party's role, its channel and the next sequence number; then only the counter moves.
pub accept_inbound_iff :
    (flow : ChannelFlow) (frame : MpcFrame) (r : ChannelFlow × MpcFrame)
    → (accept_inbound flow frame ≡ ok r) ↔ (
        (flow.aborted ≡ false)
        × (frame.job_id ≡ flow.job_id)
        × (frame.sender_role ≢ flow.local_role)
        × (frame.channel ≡ flow.channel)
        × (frame.sequence ≡ flow.next_recv)
        × (r ≡ (record flow { next_recv = saturating_inc flow.next_recv }, frame)))
unfolding accept_inbound
accept_inbound_iff flow frame r = (λ e. ground arith, λ h. ground arith)

-- A frame that is refused, coming or going, aborts the job and changes nothing else.
pub accept_error :
    (flow : ChannelFlow) (frame : MpcFrame) (e : StepError)
    → (accept_inbound flow frame ≡ err e) ⊎ (accept_outbound flow frame ≡ err e)
    → e.state ≡ abort_flow flow
unfolding accept_inbound accept_outbound aborting_error abort_flow
accept_error flow frame e h = ground arith

-- One party takes a list of frames in turn, and gives up at the first refusal.
unfoldable pub accept_all : ChannelFlow → List MpcFrame → StepResult ChannelFlow
accept_all flow [] = ok flow
accept_all flow (f ∷ fs) = do (flow', _) ← accept_inbound flow f; accept_all flow' fs

-- `n`, `n + 1`, … : `count` numbers.
abbrev pub consecutive : ℕ → ℕ → List ℕ
consecutive n zero = []
consecutive n (suc count) = n ∷ consecutive (n + 1) count

saturating_inc-lt : (n : ℕ) → n + 1 < 2 ^ 64 → saturating_inc n ≡ n + 1
unfolding saturating_inc
saturating_inc-lt n h = omega arith

-- Frames are taken in order, each once: below the top of a `u64`, the sequence numbers of the
-- frames taken are the consecutive numbers from the counter on, and the counter ends behind them.
pub accept_all-consecutive :
    (flow : ChannelFlow) (fs : List MpcFrame) {flow' : ChannelFlow}
    → flow.next_recv + length fs < 2 ^ 64
    → accept_all flow fs ≡ ok flow'
    → (map (λ f. f.sequence) fs ≡ consecutive flow.next_recv (length fs))
      × (flow'.next_recv ≡ flow.next_recv + length fs)
unfolding accept_all
accept_all-consecutive flow [] h e = (refl, ground arith)
accept_all-consecutive flow (f ∷ fs) {flow'} h e = elim (Result-cases (accept_inbound flow f)) [
  | inr (x, ef) ↦ absurd (ground arith)
  | inl ((flow₁, f₁), ef) ↦
      let (_, _, _, _, seq, same) = (accept_inbound_iff flow f (flow₁, f₁)).0 ef in
      let step : flow₁.next_recv ≡ flow.next_recv + 1 =
        ap (λ (r : ChannelFlow × MpcFrame). r.0.next_recv) same
        ∙ saturating_inc-lt flow.next_recv (omega arith) in
      let rest : accept_all flow₁ fs ≡ ok flow' = ground arith in
      let (seqs, last) = accept_all-consecutive flow₁ fs (omega arith) rest in
      (ground arith, omega arith)
]

-- Two ends of a channel: what one sends next is what the other takes next.
pub record IsLinked (a b : ChannelFlow) : Type 0 where
  pub same_job : a.job_id ≡ b.job_id
  pub other_role : a.local_role ≢ b.local_role
  pub same_channel : a.channel ≡ b.channel
  pub in_step : a.next_send ≡ b.next_recv
  pub live : b.aborted ≡ false

pub new_frame-eq-ok :
    (j : List ℕ) (r : Role) (c : LogicalChannel) (s : ℕ) (k : MessageKind) (p : List ℕ)
    {f : MpcFrame}
    → new_frame j r c s k p ≡ ok f
    → (f.job_id ≡ j)
      × (f.sender_role ≡ r)
      × (f.channel ≡ c)
      × (f.sequence ≡ s)
      × (f.kind ≡ k)
      × (f.payload ≡ p)
unfolding new_frame
new_frame-eq-ok j r c s k p e = ground arith

pub outbound_frame-eq-ok :
    (a : ChannelFlow) (kind : MessageKind) (payload : List ℕ) {a' : ChannelFlow} {f : MpcFrame}
    → outbound_frame a kind payload ≡ ok (a', f)
    → (a' ≡ record a { next_send = saturating_inc a.next_send })
      × (new_frame a.job_id a.local_role a.channel a.next_send kind payload ≡ ok f)
unfolding outbound_frame
outbound_frame-eq-ok a kind payload e =
    elim (Result-cases (new_frame a.job_id a.local_role a.channel a.next_send kind payload)) [
      | inl (g, eg) ↦ ground arith
      | inr (x, ex) ↦ absurd (ground arith)
    ]

-- Every frame that an end sends is taken by the other end, which sees the kind and the payload
-- that were sent, and the two ends stay linked.
pub outbound_frame-accept_inbound :
    (a b : ChannelFlow) (kind : MessageKind) (payload : List ℕ) {a' : ChannelFlow} {f : MpcFrame}
    → IsLinked a b
    → outbound_frame a kind payload ≡ ok (a', f)
    → (b' : ChannelFlow) × (accept_inbound b f ≡ ok (b', f))
      × IsLinked a' b'
      × (f.kind ≡ kind)
      × (f.payload ≡ payload)
outbound_frame-accept_inbound a b kind payload {a'} {f} l e =
    let (moved, made) = outbound_frame-eq-ok a kind payload e in
    let (j, r, c, s, k, p) =
      new_frame-eq-ok a.job_id a.local_role a.channel a.next_send kind payload made in
    let taken =
      (accept_inbound_iff b f (record b { next_recv = saturating_inc b.next_recv }, f)).1 (
        l.live,
        j ∙ l.same_job,
        (λ same. l.other_role (sym r ∙ same)),
        c ∙ l.same_channel,
        s ∙ l.in_step,
        refl,
      ) in
    let linked : IsLinked a' (record b { next_recv = saturating_inc b.next_recv }) =
      rw moved (record {
        same_job = l.same_job;
        other_role = l.other_role;
        same_channel = l.same_channel;
        in_step = ap saturating_inc l.in_step;
        live = l.live;
      }) in
    (record b { next_recv = saturating_inc b.next_recv }, taken, linked, k, p)
