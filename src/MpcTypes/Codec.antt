-- ===== src/MpcTypes/Codec.antt =====
-- encode_to_vec and decode of rust/crates/shachain2pc-mpc-types/src/lib.rs, over the protobuf
-- encoder and decoder that prost generates.
use mathlib.Core.Logic.{ite}
use shachain2pc.Base.{ℕ, ◌≡◌, List, Option, none, some, Result, ok, err, ◌>>=◌, ◌>>◌}
use shachain2pc.MpcTypes.{
  MpcFrame, MpcTypeError, decode_error, non_canonical_frame, ProtoFrame, SessionStart,
  SessionStartAck, Bytes-discrete, validate, to_proto, from_proto,
}

-- What prost gives for the three messages: an encoder, and a decoder that reads back what the
-- encoder writes. The records of the two session messages are those of the source.
pub record Prost : Type 0 where
  pub encode_frame : ProtoFrame → List ℕ
  pub decode_frame : List ℕ → Option ProtoFrame
  pub encode_start : SessionStart → List ℕ
  pub decode_start : List ℕ → Option SessionStart
  pub encode_ack : SessionStartAck → List ℕ
  pub decode_ack : List ℕ → Option SessionStartAck

-- Encoding a message and decoding the bytes gives the message.
pub record IsProst (p : Prost) : Type 0 where
  pub frame_back : (m : ProtoFrame) → p.decode_frame (p.encode_frame m) ≡ some m
  pub start_back : (m : SessionStart) → p.decode_start (p.encode_start m) ≡ some m
  pub ack_back : (m : SessionStartAck) → p.decode_ack (p.encode_ack m) ≡ some m

abbrev ok_or_decode {ℓ} : {A : Type ℓ} → Option A → Result MpcTypeError A
ok_or_decode none = err decode_error
ok_or_decode (some a) = ok a

module _ (p : Prost) where
  unfoldable pub encode_to_vec : MpcFrame → Result MpcTypeError (List ℕ)
  encode_to_vec f = validate f >> ok (p.encode_frame (to_proto f))

  unfoldable pub decode : List ℕ → Result MpcTypeError MpcFrame
  unfolding encode_to_vec
  decode bytes = do
    message ← ok_or_decode (p.decode_frame bytes)
    frame ← from_proto message
    canonical ← encode_to_vec frame
    ite (Bytes-discrete canonical bytes) (ok frame) (err non_canonical_frame)

  unfoldable pub decode_session_start : List ℕ → Result MpcTypeError SessionStart
  decode_session_start bytes = do
    out ← ok_or_decode (p.decode_start bytes)
    ite (Bytes-discrete (p.encode_start out) bytes) (ok out) (err non_canonical_frame)

  unfoldable pub decode_session_start_ack : List ℕ → Result MpcTypeError SessionStartAck
  decode_session_start_ack bytes = do
    out ← ok_or_decode (p.decode_ack bytes)
    ite (Bytes-discrete (p.encode_ack out) bytes) (ok out) (err non_canonical_frame)
