-- ===== src/Runner.antt =====
-- run_session_handshake of rust/crates/shachain2pc-mpc-runner/src/lib.rs. The main transport is
-- the trait MpcTransport as a reliable queue: what is still to be received, and what was sent.
-- `flush` writes nothing of its own.
pub mod Transport
pub mod Agreement
pub mod Completion
pub mod Tests
use shachain2pc.Base.{ℕ, List, [], ◌∷◌, ◌++◌, Result, ok, err, map_err}
use shachain2pc.Types.Index.{Role, alice, bob}
use shachain2pc.MpcTypes.{MpcFrame, MpcTypeError, main}
use shachain2pc.MpcTypes.Codec.{Prost}
use shachain2pc.Flow.{ChannelFlow, CoreError, StepResult, new_flow}
use shachain2pc.Flow.Handshake.{
  SessionParams, send_session_start, receive_session_start_and_ack, receive_session_start_ack,
}

-- The errors. `wire_closed` stands for `Wire`, and `frame` for `Frame`, but for a length that does not
-- fit 32 bits.
pub data RunnerError : Type 0 where
  transport_closed : RunnerError
  core : CoreError → RunnerError
  internal_state_missing wire_closed length_too_large : RunnerError
  frame : MpcTypeError → RunnerError
  frame_too_large : ℕ → ℕ → RunnerError

pub record Wire : Type 0 where
  pub inbox : List MpcFrame
  pub sent : List MpcFrame

abbrev pub Io : Type 0 → Type 0
Io A = Wire → Result RunnerError A × Wire

abbrev pub bind_result {κ} :
    {A : Type 0} {B : Type κ}
    → (A → Wire → Result RunnerError B × Wire)
    → Result RunnerError A
    → Wire
    → Result RunnerError B × Wire
bind_result k (ok a) w = k a w
bind_result k (err e) w = (err e, w)

infixl 5 ◌>>=◌ ◌>>◌
abbrev pub ◌>>=◌ : {A B : Type 0} → Io A → (A → Io B) → Io B
◌>>=◌ m k w = bind_result k (m w).0 (m w).1

abbrev pub ◌>>◌ : {B : Type 0} → Io (Unit {0}) → Io B → Io B
m >> k = m >>= λ _. k

unfoldable pub send : MpcFrame → Io (Unit {0})
send f w = (ok tt, record w { sent = w.sent ++ f ∷ [] })

abbrev take_frame : List MpcFrame → Wire → Result RunnerError MpcFrame × Wire
take_frame [] w = (err transport_closed, w)
take_frame (f ∷ fs) w = (ok f, record w { inbox = fs })

unfoldable pub recv : Io MpcFrame
recv w = take_frame w.inbox w

-- `map_core`: the state that comes with an error is dropped.
unfoldable pub map_core : {A : Type 0} → StepResult A → Io A
map_core r w = (map_err (λ e. core e.error) r, w)

module _ (p : Prost) (sha256 : List ℕ → List ℕ) where
  unfoldable pub run_alice : List ℕ → SessionParams → Io (Unit {0})
  unfolding send recv map_core
  run_alice job_id params = do
    (flow₁, start) ← map_core (send_session_start p (new_flow job_id alice main) params)
    send start
    peer_ack ← recv
    flow₂ ← map_core (receive_session_start_ack p sha256 flow₁ params peer_ack)
    peer_start ← recv
    (_, ack) ← map_core (receive_session_start_and_ack p sha256 flow₂ params peer_start)
    send ack

  unfoldable pub run_bob : List ℕ → SessionParams → Io (Unit {0})
  unfolding send recv map_core
  run_bob job_id params = do
    peer_start ← recv
    (flow₁, ack) ←
        map_core
          (receive_session_start_and_ack p sha256 (new_flow job_id bob main) params peer_start)
    send ack
    (flow₂, start) ← map_core (send_session_start p flow₁ params)
    send start
    peer_ack ← recv
    _ ← map_core (receive_session_start_ack p sha256 flow₂ params peer_ack)
    λ w. (ok tt, w)

  unfoldable pub run_session_handshake : List ℕ → Role → SessionParams → Io (Unit {0})
  unfolding run_alice run_bob
  run_session_handshake job_id alice params = run_alice job_id params
  run_session_handshake job_id bob params = run_bob job_id params
