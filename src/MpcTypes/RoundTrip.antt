-- ===== src/MpcTypes/RoundTrip.antt =====
-- Frames and their bytes: what is sent is what is received.
use shachain2pc.Base.{
  ℕ, ◌≤◌, ◌<◌, ◌≡◌, ◌≢◌, ◌↔◌, ◌⊎◌, refl, sym, ap, ◌∙◌, subst, List, length, bit_and, ◌==◌, ltb,
  false, some, ok, ◌>>◌, Result-cases, >>=-eq-ok, Option-cases, inl, inr, arith,
}
use shachain2pc.Types.Index.{Role, alice, bob}
use shachain2pc.MpcTypes.{
  LogicalChannel, main, sibling, MessageKind, session_start, unknown_optional, MpcFrame, ProtoFrame,
  channel_code, channel_from_code, role_code, role_from_code, kind_code, kind_from_code,
  is_unknown_optional, validate_job_id, validate_flags, validate_kind, validate, to_proto,
  from_proto, frame_of, frame_flag_optional_kind, protocol_version,
}
use shachain2pc.MpcTypes.Codec.{Prost, IsProst, encode_to_vec, decode}

-- An optional kind whose number is not that of a mandatory one. `from_code` makes no other.
abbrev pub IsOwnKind : MessageKind → Type 0
IsOwnKind (unknown_optional c) = (c ≡ 0) ⊎ (11 < c)
IsOwnKind _ = Unit

abbrev NoClash : MessageKind → Type 0
NoClash k = (c : ℕ) → k ≡ unknown_optional c → (c ≡ 0) ⊎ (11 < c)

own-NoClash : (k : MessageKind) → IsOwnKind k → NoClash k
own-NoClash k own c e = subst IsOwnKind e own

role_back : (r : Role) → role_from_code (role_code r) ≡ ok r
unfolding role_from_code role_code
role_back alice = refl
role_back bob = refl

channel_back : (c : LogicalChannel) → channel_from_code (channel_code c) ≡ ok c
unfolding channel_from_code channel_code
channel_back main = refl
channel_back sibling = refl

unknown_back :
    (c flags : ℕ)
    → (c ≡ 0) ⊎ (11 < c)
    → bit_and flags frame_flag_optional_kind ≢ 0
    → kind_from_code c flags ≡ ok (unknown_optional c)
unfolding kind_from_code
unknown_back c flags h n = ground arith

validate_kind_flag :
    (f : MpcFrame) (c : ℕ)
    → f.kind ≡ unknown_optional c
    → validate_kind f ≡ ok tt
    → bit_and f.flags frame_flag_optional_kind ≢ 0
unfolding validate_kind is_unknown_optional
validate_kind_flag f c e v z = ground arith

kind_back :
    (k : MessageKind) (f : MpcFrame)
    → f.kind ≡ k
    → NoClash k
    → validate_kind f ≡ ok tt
    → kind_from_code (kind_code k) f.flags ≡ ok k
unfolding kind_from_code kind_code
kind_back (unknown_optional c) f e h v =
    unknown_back c f.flags (h c refl) (validate_kind_flag f c e v)
kind_back session_start f e h v = refl
kind_back _ f e h v = refl

code_of_role : (c : ℕ) {r : Role} → role_from_code c ≡ ok r → role_code r ≡ c
unfolding role_from_code role_code
code_of_role c e = ground arith

code_of_channel : (c : ℕ) {k : LogicalChannel} → channel_from_code c ≡ ok k → channel_code k ≡ c
unfolding channel_from_code channel_code
code_of_channel c e = ground arith

code_of_kind : (c flags : ℕ) {k : MessageKind} → kind_from_code c flags ≡ ok k → kind_code k ≡ c
unfolding kind_from_code kind_code
code_of_kind c flags e = ground arith

own_kind : (c flags : ℕ) {k : MessageKind} → kind_from_code c flags ≡ ok k → NoClash k
unfolding kind_from_code
own_kind c flags e d h = ground arith

validate_parts :
    (f : MpcFrame)
    → validate f ≡ ok tt
    → (validate_job_id f.job_id ≡ ok tt)
      × (validate_flags f.flags ≡ ok tt)
      × (validate_kind f ≡ ok tt)
unfolding validate
validate_parts f v =
    let (_, j, r) =
      >>=-eq-ok (validate_job_id f.job_id) (λ _. validate_flags f.flags >> validate_kind f) v in
    let (_, g, k) = >>=-eq-ok (validate_flags f.flags) (λ _. validate_kind f) r in (j, g, k)

-- A valid frame of an own kind survives the protobuf record.
from_proto-to_proto :
    (f : MpcFrame) → validate f ≡ ok tt → NoClash f.kind → from_proto (to_proto f) ≡ ok f
unfolding from_proto to_proto
from_proto-to_proto f v own =
    let (j, g, k) = validate_parts f v in
    rw (j, g, role_back f.sender_role, channel_back f.channel, kind_back f.kind f refl own k, v)
      refl

from_proto_parts :
    (p : ProtoFrame) (r : Role) (c : LogicalChannel) (k : MessageKind) {f : MpcFrame}
    → role_from_code p.sender_role ≡ ok r
    → channel_from_code p.channel ≡ ok c
    → kind_from_code p.message_kind p.flags ≡ ok k
    → from_proto p ≡ ok f
    → (f ≡ frame_of p r c k)
      × (validate (frame_of p r c k) ≡ ok tt)
      × (p.version ≡ protocol_version)
unfolding from_proto
from_proto_parts p r c k er ec ek e = ground arith

from_proto_reads :
    (p : ProtoFrame) {f : MpcFrame}
    → from_proto p ≡ ok f
    → (r : Role) × (c : LogicalChannel) × (k : MessageKind) × (role_from_code p.sender_role ≡ ok r)
      × (channel_from_code p.channel ≡ ok c)
      × (kind_from_code p.message_kind p.flags ≡ ok k)
unfolding from_proto
from_proto_reads p e = elim (Result-cases (role_from_code p.sender_role)) [
  | inr (x, er) ↦ absurd (ground arith)
  | inl (r, er) ↦ elim (Result-cases (channel_from_code p.channel)) [
    | inr (x, ec) ↦ absurd (ground arith)
    | inl (c, ec) ↦ elim (Result-cases (kind_from_code p.message_kind p.flags)) [
      | inr (x, ek) ↦ absurd (ground arith)
      | inl (k, ek) ↦ (r, c, k, er, ec, ek)
    ]
  ]
]

-- What `from_proto` accepts is a valid frame of an own kind, and the record is its own.
to_proto-from_proto :
    (p : ProtoFrame) {f : MpcFrame}
    → from_proto p ≡ ok f
    → (to_proto f ≡ p) × (validate f ≡ ok tt) × NoClash f.kind
to_proto-from_proto p {f} e =
    let (r, c, k, er, ec, ek) = from_proto_reads p e in
    let (same, valid, version) = from_proto_parts p r c k er ec ek e in
    rw same (
      unfold to_proto in
          rw
            (
              code_of_role p.sender_role er,
              code_of_channel p.channel ec,
              code_of_kind p.message_kind p.flags ek,
              ← version,
            )
            refl,
      valid,
      own_kind p.message_kind p.flags ek,
    )

module _ (p : Prost) where
  encode_parts :
      (f : MpcFrame) {bytes : List ℕ}
      → encode_to_vec p f ≡ ok bytes
      → (validate f ≡ ok tt) × (p.encode_frame (to_proto f) ≡ bytes)
  unfolding encode_to_vec
  encode_parts f e = elim (Result-cases (validate f)) [
    | inl (u, ev) ↦ (ev, ground arith)
    | inr (x, ev) ↦ absurd (ground arith)
  ]

  decode_parts :
      (bytes : List ℕ) {f : MpcFrame}
      → decode p bytes ≡ ok f
      → (m : ProtoFrame) × (p.decode_frame bytes ≡ some m)
        × (from_proto m ≡ ok f)
        × (encode_to_vec p f ≡ ok bytes)
  unfolding decode
  decode_parts bytes {f} e = elim (Option-cases (p.decode_frame bytes)) [
    | inl d ↦ absurd (ground arith)
    | inr (m, d) ↦ elim (Result-cases (from_proto m)) [
      | inr (x, ef) ↦ absurd (ground arith)
      | inl (g, ef) ↦ elim (Result-cases (encode_to_vec p g)) [
        | inr (x, ee) ↦ absurd (ground arith)
        | inl (canonical, ee) ↦
            let (same, bytes_same) = taken bytes m g f canonical d ef ee e in
            (m, d, ef ∙ ap ok same, ap (encode_to_vec p) (sym same) ∙ ee ∙ ap ok bytes_same)
      ]
    ]
  ]
    where
      taken :
          (bytes : List ℕ) (m : ProtoFrame) (g f : MpcFrame) (canonical : List ℕ)
          → p.decode_frame bytes ≡ some m
          → from_proto m ≡ ok g
          → encode_to_vec p g ≡ ok canonical
          → decode p bytes ≡ ok f
          → (g ≡ f) × (canonical ≡ bytes)
      taken bytes m g f canonical d ef ee e = ground arith

-- An optional kind passes the checks with the optional flag.
optional-validate :
    (f : MpcFrame) (c : ℕ)
    → f.kind ≡ unknown_optional c
    → f.flags ≡ 1
    → 1 ≤ length f.job_id
    → length f.job_id ≤ 64
    → validate f ≡ ok tt
unfolding validate validate_job_id validate_flags validate_kind
optional-validate f c k flag some_id short =
    let some_job : (length f.job_id == 0) ≡ false = ground arith in
    let fits : ltb 64 (length f.job_id) ≡ false = ground arith in
    rw (some_job, fits, k, flag) (ground arith)

module _ (p : Prost) (laws : IsProst p) where
  -- Bytes decode to a frame of an own kind exactly when they are what that frame encodes to: a
  -- frame that is sent arrives unchanged, and no other bytes are taken for it, where the protobuf
  -- decoder reads back what the encoder writes.
  pub decode_iff :
      (f : MpcFrame) (bytes : List ℕ)
      → IsOwnKind f.kind
      → (decode p bytes ≡ ok f) ↔ (encode_to_vec p f ≡ ok bytes)
  decode_iff f bytes own = (λ e. (decode_parts p bytes e).3, encoded)
    where
      encoded : encode_to_vec p f ≡ ok bytes → decode p bytes ≡ ok f
      encoded e =
          let (v, b) = encode_parts p f e in
          unfold decode in
          rw
            (
              ← b,
              laws.frame_back (to_proto f),
              from_proto-to_proto f v (own-NoClash f.kind own),
              e,
              b,
            )
            (ground arith)

  -- A frame with the optional flag alone, a job id of 1 to 64 bytes and an optional kind that has the
  -- number of a mandatory one passes the checks and is encoded, and no bytes decode to it.
  pub decode_ambiguous :
      (f : MpcFrame) (c : ℕ)
      → f.kind ≡ unknown_optional c
      → 1 ≤ c
      → c ≤ 11
      → f.flags ≡ 1
      → 1 ≤ length f.job_id
      → length f.job_id ≤ 64
      → (encode_to_vec p f ≡ ok (p.encode_frame (to_proto f)))
        × ((bytes : List ℕ) → decode p bytes ≢ ok f)
  unfolding encode_to_vec validate
  decode_ambiguous f c k low high flag some_id short = (
    ap (λ r. r >> ok (p.encode_frame (to_proto f))) (optional-validate f c k flag some_id short),
    λ bytes d.
        let (m, _, ef, _) = decode_parts p bytes d in
        let (_, _, own) = to_proto-from_proto m ef in absurd (ground (arith, own c k)),
  )
