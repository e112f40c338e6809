-- ===== src/Circuit/Digests/Binding.antt =====
-- Equal digests come from equal circuits, or from a collision of the hash.
use shachain2pc.Base.{
  ℕ, zero, suc, ◌^◌, ◌<◌, ◌≡◌, ◌≢◌, ◌⊎◌, inl, inr, refl, sym, ap, ap₂, ◌∙◌, List, [], ◌∷◌, length,
  length-append, get_or, All, arith,
}
use shachain2pc.Base.Reads.{front_equal}
use shachain2pc.Flow.Handshake.{le_bytes}
use shachain2pc.Flow.Words.{length-le_bytes, le_bytes_injective}
use shachain2pc.Circuit.Bristol.{
  Gate, and_gate, xor_gate, inv_gate, Circuit, num_gate, to_emp_gate_array,
}
use shachain2pc.Circuit.Digests.{
  words_bytes, circuit_digest, circuit_text, gadget_digest, chunk_spec_text, chunk_spec_digest,
}
use shachain2pc.MpcTypes.{Bytes-discrete}

abbrev pub IsI32 : ℕ → Type 0
IsI32 v = v < 2 ^ 31

-- A circuit whose numbers are `i32`s that are not negative.
abbrev pub HasI32 : Circuit → Type 0
HasI32 c =
    All IsI32 (num_gate c ∷ c.num_wire ∷ c.n1 ∷ c.n2 ∷ c.n3 ∷ [])
    × All IsI32 (to_emp_gate_array c.gates)

words_bytes_injective :
    (vs ws : List ℕ) → All IsI32 vs → All IsI32 ws → words_bytes 4 vs ≡ words_bytes 4 ws → vs ≡ ws
unfolding words_bytes
words_bytes_injective [] [] p q e = refl
words_bytes_injective [] (w ∷ ws) p q e = absurd (
    omega (
      arith,
      ap (λ (l : List ℕ). length l) e,
      length-append (le_bytes 4 w) (words_bytes 4 ws),
      length-le_bytes 4 w,
    ))
words_bytes_injective (v ∷ vs) [] p q e = absurd (
    omega (
      arith,
      ap (λ (l : List ℕ). length l) e,
      length-append (le_bytes 4 v) (words_bytes 4 vs),
      length-le_bytes 4 v,
    ))
words_bytes_injective (v ∷ vs) (w ∷ ws) p q e =
    let (first, rest) =
      front_equal 4 (le_bytes 4 v) (le_bytes 4 w) (words_bytes 4 vs) (words_bytes 4 ws)
        (length-le_bytes 4 v) (length-le_bytes 4 w) e in
    ap₂ ◌∷◌ (le_bytes_injective 4 v w (omega (arith, p.0)) (omega (arith, q.0)) first)
      (words_bytes_injective vs ws p.1 q.1 rest)

-- The gate of four numbers.
gate_of : ℕ → ℕ → ℕ → ℕ → Gate
gate_of a b o zero = and_gate a b o
gate_of a b o (suc zero) = xor_gate a b o
gate_of a b o (suc (suc t)) = inv_gate a o

gates_of : List ℕ → List Gate
gates_of (a ∷ b ∷ o ∷ t ∷ rest) = gate_of a b o t ∷ gates_of rest
gates_of _ = []

gates_of-to_emp_gate_array : (gs : List Gate) → gates_of (to_emp_gate_array gs) ≡ gs
unfolding gates_of gate_of to_emp_gate_array
gates_of-to_emp_gate_array [] = refl
gates_of-to_emp_gate_array (and_gate a b o ∷ gs) =
    ap (λ l. and_gate a b o ∷ l) (gates_of-to_emp_gate_array gs)
gates_of-to_emp_gate_array (xor_gate a b o ∷ gs) =
    ap (λ l. xor_gate a b o ∷ l) (gates_of-to_emp_gate_array gs)
gates_of-to_emp_gate_array (inv_gate a o ∷ gs) =
    ap (λ l. inv_gate a o ∷ l) (gates_of-to_emp_gate_array gs)

abbrev header_words : Circuit → List ℕ
header_words c = num_gate c ∷ c.num_wire ∷ c.n1 ∷ c.n2 ∷ c.n3 ∷ []

header_length : (c : Circuit) → length (words_bytes 4 (header_words c)) ≡ 20
unfolding words_bytes le_bytes
header_length c = refl

-- The words of a circuit give the circuit.
circuit_of_words : (c d : Circuit) → header_words c ≡ header_words d → c.gates ≡ d.gates → c ≡ d
circuit_of_words c d e g =
    let num_wire = ap (λ (l : List ℕ). get_or l 1 0) e in
    let n1 = ap (λ (l : List ℕ). get_or l 2 0) e in
    let n2 = ap (λ (l : List ℕ). get_or l 3 0) e in
    let n3 = ap (λ (l : List ℕ). get_or l 4 0) e in
    λ x. record { num_wire = num_wire x; n1 = n1 x; n2 = n2 x; n3 = n3 x; gates = g x }

-- The text that the digest of a gadget hashes.
abbrev pub gadget_text : Circuit → List ℕ
gadget_text c = circuit_text c (to_emp_gate_array c.gates)

gadget_text_injective :
    (c d : Circuit) → HasI32 c → HasI32 d → gadget_text c ≡ gadget_text d → c ≡ d
unfolding circuit_text
gadget_text_injective c d (hc, gc) (hd, gd) e =
    let (header, gates) =
      front_equal 20 (words_bytes 4 (header_words c)) (words_bytes 4 (header_words d))
        (words_bytes 4 (to_emp_gate_array c.gates)) (words_bytes 4 (to_emp_gate_array d.gates))
        (header_length c) (header_length d) e in
    let arrays =
      words_bytes_injective (to_emp_gate_array c.gates) (to_emp_gate_array d.gates) gc gd gates in
    circuit_of_words c d (words_bytes_injective (header_words c) (header_words d) hc hd header) (
      sym (gates_of-to_emp_gate_array c.gates)
      ∙ ap gates_of arrays
      ∙ gates_of-to_emp_gate_array d.gates)

-- Two different texts with one hash.
abbrev pub Collide : (List ℕ → List ℕ) → List ℕ → List ℕ → Type 0
Collide sha256 xs ys = (xs ≢ ys) × (sha256 xs ≡ sha256 ys)

same_or_Collide :
    (sha256 : List ℕ → List ℕ) (xs ys : List ℕ)
    → sha256 xs ≡ sha256 ys
    → (xs ≡ ys) ⊎ Collide sha256 xs ys
same_or_Collide sha256 xs ys e = elim (Bytes-discrete xs ys) [
  | yes same ↦ inl same
  | no differ ↦ inr (differ, e)
]

-- The texts of two chunk plans that are the same give the same index and blocks per chunk, and
-- gadgets of one digest.
chunk_spec_text-parts :
    (sha256 : List ℕ → List ℕ) (i j n m : ℕ) (c d : Circuit)
    → i < 2 ^ 64
    → j < 2 ^ 64
    → IsI32 n
    → IsI32 m
    → chunk_spec_text sha256 i n c ≡ chunk_spec_text sha256 j m d
    → (i ≡ j) × (n ≡ m) × (gadget_digest sha256 c ≡ gadget_digest sha256 d)
unfolding chunk_spec_text
chunk_spec_text-parts sha256 i j n m c d hi hj hn hm e =
    let (indices, rest) =
      front_equal 8 (le_bytes 8 i) (le_bytes 8 j) _ _ (length-le_bytes 8 i) (length-le_bytes 8 j)
        e in
    let (blocks, digests) =
      front_equal 4 (le_bytes 4 n) (le_bytes 4 m) _ _ (length-le_bytes 4 n) (length-le_bytes 4 m)
        rest in
    (
      le_bytes_injective 8 i j hi hj indices,
      le_bytes_injective 4 n m (omega (arith, hn)) (omega (arith, hm)) blocks,
      digests,
    )

-- The digest that two parties compare binds them: with the same chunk_spec_digest they have the same
-- index, the same blocks per chunk and the same gadget, gate by gate, or the texts that they hashed,
-- of their plans or of their gadgets, are a collision of the hash; for indices of 64 bits, and numbers
-- that are `i32`s and not negative.
pub chunk_spec_digest_binding :
    (sha256 : List ℕ → List ℕ) (i j n m : ℕ) (c d : Circuit)
    → i < 2 ^ 64
    → j < 2 ^ 64
    → IsI32 n
    → IsI32 m
    → HasI32 c
    → HasI32 d
    → chunk_spec_digest sha256 i n c ≡ chunk_spec_digest sha256 j m d
    → ((i ≡ j) × (n ≡ m) × (c ≡ d))
      ⊎ Collide sha256 (chunk_spec_text sha256 i n c) (chunk_spec_text sha256 j m d)
      ⊎ Collide sha256 (gadget_text c) (gadget_text d)
unfolding chunk_spec_digest circuit_digest
chunk_spec_digest_binding sha256 i j n m c d hi hj hn hm hc hd e =
    elim (same_or_Collide sha256 (chunk_spec_text sha256 i n c) (chunk_spec_text sha256 j m d) e) [
      | inr plans ↦ inr (inl plans)
      | inl same ↦
          let (indices, blocks, digests) =
            chunk_spec_text-parts sha256 i j n m c d hi hj hn hm same in
          elim (same_or_Collide sha256 (gadget_text c) (gadget_text d) digests) [
            | inr gadgets ↦ inr (inr gadgets)
            | inl texts ↦ inl (indices, blocks, gadget_text_injective c d hc hd texts)
          ]
    ]
