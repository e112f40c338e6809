-- ===== src/MpcTypes/Tests.antt =====
-- An encoder of the three messages, and frames that it writes.
use shachain2pc.Base.{
  ℕ, ◌≡◌, ◌≢◌, ◌↔◌, ap, refl, List, [], ◌∷◌, ◌++◌, take, drop, length, Option, none, some, ok,
  arith,
}
use shachain2pc.Types.Index.{alice}
use shachain2pc.MpcTypes.{
  MpcFrame, main, session_start, unknown_optional, ProtoFrame, SessionStart, to_proto,
}
use shachain2pc.MpcTypes.Codec.{Prost, IsProst, encode_to_vec, decode}
use shachain2pc.MpcTypes.RoundTrip.{decode_iff, decode_ambiguous}

take-append_length : (xs ys : List ℕ) → take (length xs) (xs ++ ys) ≡ xs
take-append_length [] ys = refl
take-append_length (x ∷ xs) ys = ap (λ l. x ∷ l) (take-append_length xs ys)

drop-append_length : (xs ys : List ℕ) → drop (length xs) (xs ++ ys) ≡ ys
drop-append_length [] ys = refl
drop-append_length (x ∷ xs) ys = drop-append_length xs ys

abbrev write_frame : ProtoFrame → List ℕ
write_frame m =
    m.version
    ∷ m.sender_role
    ∷ m.channel
    ∷ m.sequence
    ∷ m.message_kind
    ∷ m.flags
    ∷ length m.job_id
    ∷ (m.job_id ++ m.payload)

abbrev read_frame : List ℕ → Option ProtoFrame
read_frame (v ∷ r ∷ c ∷ s ∷ k ∷ f ∷ n ∷ rest) = some (record {
  version = v;
  job_id = take n rest;
  sender_role = r;
  channel = c;
  sequence = s;
  message_kind = k;
  payload = drop n rest;
  flags = f;
})
read_frame _ = none

abbrev write_start : SessionStart → List ℕ
write_start m = m.ssp ∷ length m.circuit_digest ∷ (m.circuit_digest ++ m.job_binding)

abbrev read_start : List ℕ → Option SessionStart
read_start (s ∷ n ∷ rest) =
    some (record { ssp = s; circuit_digest = take n rest; job_binding = drop n rest })
read_start _ = none

abbrev pub plain : Prost
plain = record {
  encode_frame = write_frame;
  decode_frame = read_frame;
  encode_start = write_start;
  decode_start = read_start;
  encode_ack = λ m. m.transcript_binding;
  decode_ack = λ bytes. some (record { transcript_binding = bytes });
}

pub plain-IsProst : IsProst plain
plain-IsProst = record {
  frame_back =
      λ m. rw (take-append_length m.job_id m.payload, drop-append_length m.job_id m.payload) refl;
  start_back = λ m.
      rw
        (
          take-append_length m.circuit_digest m.job_binding,
          drop-append_length m.circuit_digest m.job_binding,
        )
        refl;
  ack_back = λ m. refl;
}

abbrev pub hello : MpcFrame
hello = record {
  job_id = 1 ∷ 2 ∷ [];
  sender_role = alice;
  channel = main;
  sequence = 0;
  kind = session_start;
  payload = 9 ∷ [];
  flags = 0;
}

abbrev pub hello_bytes : List ℕ
hello_bytes = 1 ∷ 1 ∷ 1 ∷ 0 ∷ 1 ∷ 0 ∷ 2 ∷ 1 ∷ 2 ∷ 9 ∷ []

decode_iff_example :
    (decode plain hello_bytes ≡ ok hello) ↔ (encode_to_vec plain hello ≡ ok hello_bytes)
decode_iff_example = decode_iff plain plain-IsProst hello hello_bytes tt

-- An optional kind with the number of `SessionStart`.
abbrev clash : MpcFrame
clash = record hello { kind = unknown_optional 1; flags = 1 }

decode_ambiguous_example :
    (encode_to_vec plain clash ≡ ok (plain.encode_frame (to_proto clash)))
    × ((bytes : List ℕ) → decode plain bytes ≢ ok clash)
decode_ambiguous_example =
    decode_ambiguous plain plain-IsProst clash 1 refl (omega arith) (omega arith) refl (omega arith)
      (omega arith)
