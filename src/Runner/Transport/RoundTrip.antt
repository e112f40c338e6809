-- ===== src/Runner/Transport/RoundTrip.antt =====
-- Frames sent over a byte stream arrive as they were sent.
use shachain2pc.Base.{
  ℕ, ◌^◌, ◌≤◌, ◌<◌, ◌≡◌, refl, sym, ap, ◌∙◌, true, leb, List, [], ◌∷◌, ◌++◌, length, length-append,
  All, ok, >>=-eq-ok, ok_injective, Result-cases, inl, inr, arith,
}
use shachain2pc.Base.Reads.{take-append, drop-append}
use shachain2pc.MpcTypes.{MpcFrame}
use shachain2pc.MpcTypes.Codec.{Prost, IsProst, encode_to_vec}
use shachain2pc.MpcTypes.RoundTrip.{IsOwnKind, decode_iff}
use shachain2pc.Flow.Handshake.{le_bytes}
use shachain2pc.Flow.Words.{le_value, length-le_bytes, le_value-le_bytes}
use shachain2pc.Runner.Transport.{
  recv_data, frame_bytes, send_frame, recv_frame, send_frames, recv_frames,
}

recv_data-append : (n : ℕ) (xs ys : List ℕ) → length xs ≡ n → recv_data n (xs ++ ys) ≡ ok (xs, ys)
unfolding recv_data
recv_data-append n xs ys h =
    let enough : leb n (length (xs ++ ys)) ≡ true = ground (arith, length-append xs ys, h) in
    rw (enough, take-append xs ys n h, drop-append xs ys n h) refl

-- What a written frame is.
frame_bytes-eq-ok :
    (p : Prost) (max : ℕ) (f : MpcFrame) {w : List ℕ}
    → frame_bytes p max f ≡ ok w
    → (bytes : List ℕ) × (encode_to_vec p f ≡ ok bytes)
      × (length bytes ≤ max)
      × (length bytes < 2 ^ 32)
      × (w ≡ le_bytes 4 (length bytes) ++ bytes)
unfolding frame_bytes
frame_bytes-eq-ok p max f e = elim (Result-cases (encode_to_vec p f)) [
  | inr (x, q) ↦ absurd (ground (arith, q))
  | inl (bytes, q) ↦ (bytes, q, ground (arith, q), ground (arith, q), ground (arith, q))
]

append_assoc : (xs ys zs : List ℕ) → (xs ++ ys) ++ zs ≡ xs ++ (ys ++ zs)
append_assoc [] ys zs = refl
append_assoc (x ∷ xs) ys zs = ap (λ l. x ∷ l) (append_assoc xs ys zs)

recv_frame-frame_bytes :
    (p : Prost) (max : ℕ) (f : MpcFrame) (rest : List ℕ) {w : List ℕ}
    → IsProst p
    → IsOwnKind f.kind
    → frame_bytes p max f ≡ ok w
    → recv_frame p max (w ++ rest) ≡ ok (f, rest)
unfolding recv_frame
recv_frame-frame_bytes p max f rest laws own e =
    let (bytes, encoded, small, fits, same) = frame_bytes-eq-ok p max f e in
    let prefix : List ℕ = le_bytes 4 (length bytes) in
    let value : le_value prefix ≡ length bytes = le_value-le_bytes 4 (length bytes) (omega arith) in
    let allowed : leb (length bytes) max ≡ true = ground (arith, small) in
    let back = (decode_iff p laws f bytes own).1 encoded in
    rw (same, append_assoc prefix bytes rest)
      (rw (recv_data-append 4 prefix (bytes ++ rest) (length-le_bytes 4 (length bytes)))
        (rw (value, allowed) (rw (recv_data-append (length bytes) bytes rest refl) (rw back refl))))

abbrev pub IsOwn : MpcFrame → Type 0
IsOwn f = IsOwnKind f.kind

-- Frames of own kinds that a byte transport sends, one after the other, are written as bytes behind
-- those sent before; from these bytes, whatever comes behind, the other end receives the frames in
-- order and no more, where both have the same limit on a frame and the decoder of the protobuf
-- messages reads back what the encoder writes.
pub send_frames-recv_frames :
    (p : Prost) (max : ℕ) (fs : List MpcFrame) (sent rest : List ℕ) {out : List ℕ}
    → IsProst p
    → All IsOwn fs
    → send_frames p max fs sent ≡ ok out
    → (bytes : List ℕ) × (out ≡ sent ++ bytes)
      × (recv_frames p max (length fs) (bytes ++ rest) ≡ ok (fs, rest))
unfolding send_frames recv_frames send_frame
send_frames-recv_frames p max [] sent rest laws own e =
    ([], sym (ok_injective e) ∙ sym (append_nil sent), refl)
  where
    append_nil : (xs : List ℕ) → xs ++ [] ≡ xs
    append_nil [] = refl
    append_nil (x ∷ xs) = ap (λ l. x ∷ l) (append_nil xs)
send_frames-recv_frames p max (f ∷ fs) sent rest laws own e =
    let (mid, first, later) = >>=-eq-ok (send_frame p max f sent) (send_frames p max fs) e in
    let (w, written, at) = >>=-eq-ok (frame_bytes p max f) _ first in
    let (bytes, same, received) = send_frames-recv_frames p max fs mid rest laws own.1 later in
    (
      w ++ bytes,
      same ∙ ap (λ (l : List ℕ). l ++ bytes) (sym (ok_injective at)) ∙ append_assoc sent w bytes,
      rw
          (
            append_assoc w bytes rest,
            recv_frame-frame_bytes p max f (bytes ++ rest) laws own.0 written,
            received,
          )
          refl,
    )
