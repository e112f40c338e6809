-- ===== src/Circuit/Builder/Tests.antt =====
-- The circuits around a gadget with one gate: its outputs are 255 bits of the padding and the
-- inverse of the first input.
use shachain2pc.Base.{
  ℕ, zero, suc, ◌<◌, ◌≡◌, refl, sym, ap, ap₂, ◌∙◌, true, false, List, [], ◌∷◌, ◌++◌, map, length,
  length-append, drop, replicate, get_or, All, bit_and, bit_xor, ok, ◌>>=◌, arith,
}
use shachain2pc.Base.Bits.{◌>>>◌, bit_and-one}
use shachain2pc.Base.Reads.{range, range_below, map-agree}
use shachain2pc.Types.Value.{Value32, IsValue, zero_value, byte_bits, bytes_bits, to_bits_msb}
use shachain2pc.Types.Tests.{sevens, sevens-IsValue}
use shachain2pc.Types.ValueText.{length-bytes_bits}
use shachain2pc.Shachain.{generate_from_seed, combine, set_bits_desc, bits_below}
use shachain2pc.Shachain.Tests.{index_5}
use shachain2pc.Circuit.{split_chain_bits, add_bits}
use shachain2pc.Circuit.Bristol.{Circuit, inv_gate, eval_bristol, input_width}
use shachain2pc.Circuit.Bristol.Store.{run}
use shachain2pc.Circuit.Builder.{
  padding_bits, build_circuit_for_index, build_chunk_circuit, build_derivation_circuit,
}
use shachain2pc.Circuit.Builder.Chain.{IsCompression, hash_bits}
use shachain2pc.Circuit.Builder.Finish.{
  IsBit, inputs_of, inputs_at, eval_bristol-wires, parse_bristol-eval_bristol,
}
use shachain2pc.Circuit.Bristol.Tests.{and_text, and_circuit, parse_and}
use shachain2pc.Circuit.Builder.Derivation.{IsRow, IsChunk, FitsI32, chunk_bits, chunk_start}
use shachain2pc.Circuit.Builder.Chunks.{
  build_chunk_circuit-IsChunk, build_chunk_circuit-eval_bristol, eval_chunks,
  split_chain_bits-eval_chunks,
}
use shachain2pc.Circuit.Builder.Digest.{Computes, to_bits_msb-IsRow}
use shachain2pc.Circuit.Builder.Refinement.{build_circuit_for_index-generate_from_seed}

abbrev gadget : Circuit
gadget = record { num_wire = 513; n1 = 512; n2 = 0; n3 = 256; gates = inv_gate 0 512 ∷ [] }

gadget-IsCompression : IsCompression gadget
unfolding input_width
gadget-IsCompression = record {
  gadget = record { inputs_fit = omega arith; outputs_fit = omega arith; gates_fit = omega arith };
  takes = refl;
  gives = refl;
}

-- The inverse of the first bit.
abbrev last_bit : List ℕ → ℕ
last_bit xs = bit_xor (bit_and (get_or xs 0 0 >>> 7) 1) 1

abbrev inverse_digest : List ℕ → List ℕ
inverse_digest xs = replicate 30 0 ++ 2 ∷ last_bit xs ∷ []

last_bit-cases : (x : ℕ) → x < 2 → bit_xor x 1 < 2
last_bit-cases zero h = omega arith
last_bit-cases (suc zero) h = omega arith
last_bit-cases (suc (suc x)) h = absurd (omega arith)

output_bits :
    (b : ℕ) → b < 2 → drop 1 padding_bits ++ b ∷ [] ≡ bytes_bits (replicate 30 0 ++ 2 ∷ b ∷ [])
unfolding padding_bits bytes_bits byte_bits
output_bits zero h = refl
output_bits (suc zero) h = refl
output_bits (suc (suc b)) h = absurd (omega arith)

padding_IsBit : All IsBit (drop 1 padding_bits)
unfolding padding_bits bytes_bits byte_bits
padding_IsBit = omega arith

padding_rest : length (drop 1 padding_bits) ≡ 255
unfolding padding_bits bytes_bits byte_bits
padding_rest = refl

padding_split : (xs : List ℕ) → xs ++ padding_bits ≡ (xs ++ 1 ∷ []) ++ (drop 1 padding_bits ++ [])
unfolding padding_bits bytes_bits byte_bits
padding_split [] = refl
padding_split (x ∷ xs) = ap (λ (l : List ℕ). x ∷ l) (padding_split xs)

padded_length : (xs : List ℕ) → length xs ≡ 256 → length (xs ++ padding_bits) ≡ 512
unfolding padding_bits bytes_bits byte_bits
padded_length xs e = omega (arith, length-append xs padding_bits, e)

-- The last 255 bits of the padding.
middle :
    (xs : List ℕ)
    → length xs ≡ 256
    → map (inputs_of (xs ++ padding_bits)) (range 257 255) ≡ drop 1 padding_bits
middle xs e =
    let front : length (xs ++ 1 ∷ []) ≡ 257 = omega (arith, length-append xs (1 ∷ []), e) in
    ap (λ (l : List ℕ). map (inputs_of l) (range 257 255)) (padding_split xs)
    ∙ ap₂ (λ (n k : ℕ). map (inputs_of ((xs ++ 1 ∷ []) ++ (drop 1 padding_bits ++ []))) (range n k))
        (sym front) (sym padding_rest)
    ∙ inputs_at (xs ++ 1 ∷ []) (drop 1 padding_bits) [] padding_IsBit

gadget-gate : (f : ℕ → ℕ) (i : ℕ) → i < 512 → run f gadget.gates i ≡ f i
unfolding run
gadget-gate f i h = ground arith

gadget-last : (f : ℕ → ℕ) → run f gadget.gates 512 ≡ bit_xor (f 0) 1
unfolding run
gadget-last f = refl

first_input :
    (x : ℕ) (xs ys : List ℕ) → inputs_of (bytes_bits (x ∷ xs) ++ ys) 0 ≡ bit_and (x >>> 7) 1
unfolding bytes_bits byte_bits
first_input x xs ys = omega (arith, bit_and-one (x >>> 7))

gadget-evaluates :
    (v : Value32)
    → IsValue v
    → eval_bristol gadget (to_bits_msb v ++ padding_bits) ≡ ok (bytes_bits (inverse_digest v.bytes))
unfolding to_bits_msb input_width
gadget-evaluates v h =
    let bits : List ℕ = bytes_bits v.bytes in
    let f = inputs_of (bits ++ padding_bits) in
    let len : length bits ≡ 256 = omega (arith, length-bytes_bits v.bytes, h.0) in
    let width = padded_length bits len in
    eval_bristol-wires gadget (bits ++ padding_bits) width (omega (arith, width)) (omega arith)
      (omega arith)
    ∙ ap ok (
        ap₂ (λ (l : List ℕ) (x : ℕ). l ++ x ∷ [])
          (map-agree (run f gadget.gates) (λ i. i < 512) f (range 257 255)
              (range_below 257 255 512 (omega arith)) (gadget-gate f)
            ∙ middle bits len)
          (gadget-last f ∙ ap (λ (x : ℕ). bit_xor x 1) (first_bit v.bytes h.0))
        ∙ output_bits (last_bit v.bytes)
            (last_bit-cases _ (omega (arith, bit_and-one (get_or v.bytes 0 0 >>> 7)))))
  where
    first_bit :
        (xs : List ℕ)
        → length xs ≡ 32
        → inputs_of (bytes_bits xs ++ padding_bits) 0 ≡ bit_and (get_or xs 0 0 >>> 7) 1
    first_bit [] e = absurd (omega arith)
    first_bit (x ∷ xs) e = first_input x xs padding_bits

gadget-Computes : Computes gadget inverse_digest
gadget-Computes = record {
  compression = gadget-IsCompression;
  digest_value = λ v h. (
    refl,
    omega (
      arith,
      last_bit-cases (bit_and (get_or v.bytes 0 0 >>> 7) 1)
          (omega (arith, bit_and-one (get_or v.bytes 0 0 >>> 7))),
    ),
  );
  evaluates = gadget-evaluates;
}

zero_value-IsValue : IsValue zero_value
unfolding zero_value
zero_value-IsValue = (refl, omega arith)

five_fits : FitsI32 gadget (set_bits_desc index_5.value) true
unfolding set_bits_desc bits_below
five_fits = omega arith

fits_22 : FitsI32 gadget (set_bits_desc 22) true
unfolding set_bits_desc bits_below
fits_22 = omega arith

build_circuit_for_index-generate_from_seed_example :
    (build_circuit_for_index index_5 gadget >>= λ c.
    eval_bristol c (to_bits_msb sevens ++ to_bits_msb zero_value))
    ≡ ok (to_bits_msb (generate_from_seed inverse_digest (combine sevens zero_value) index_5))
build_circuit_for_index-generate_from_seed_example =
    build_circuit_for_index-generate_from_seed gadget inverse_digest sevens zero_value index_5
      gadget-Computes sevens-IsValue zero_value-IsValue (omega arith) five_fits

build_chunk_circuit-IsChunk_example :
    (c : Circuit) × (build_chunk_circuit gadget (2 ∷ 0 ∷ []) true ≡ ok c)
    × IsChunk gadget (2 ∷ 0 ∷ []) true c
build_chunk_circuit-IsChunk_example =
    build_chunk_circuit-IsChunk gadget (2 ∷ 0 ∷ []) true gadget-IsCompression (omega arith)
      (omega arith)

build_chunk_circuit-eval_bristol_example :
    (v : List ℕ) × ((build_chunk_circuit gadget (2 ∷ 0 ∷ []) false >>= λ c.
    eval_bristol c (chunk_bits false (to_bits_msb sevens) (to_bits_msb zero_value)))
      ≡ ok v)
    × (hash_bits gadget
          (2 ∷ 0 ∷ [])
          (chunk_start false (to_bits_msb sevens) (to_bits_msb zero_value))
        ≡ ok v)
    × IsRow v
build_chunk_circuit-eval_bristol_example =
    build_chunk_circuit-eval_bristol gadget (2 ∷ 0 ∷ []) false (to_bits_msb sevens)
      (to_bits_msb zero_value) gadget-IsCompression (omega arith) (omega arith)
      (to_bits_msb-IsRow sevens sevens-IsValue) (to_bits_msb-IsRow zero_value zero_value-IsValue)

abbrev chunks_22 : List (List ℕ)
chunks_22 = (4 ∷ 2 ∷ []) ∷ (1 ∷ []) ∷ []

split_into_two : split_chain_bits 22 2 ≡ ok chunks_22
unfolding split_chain_bits add_bits
split_into_two = refl

split_chain_bits-eval_chunks_example :
    eval_chunks gadget true chunks_22 (to_bits_msb sevens ++ to_bits_msb zero_value) ≡ (
      build_derivation_circuit gadget 22 >>= λ c.
      eval_bristol c (to_bits_msb sevens ++ to_bits_msb zero_value))
split_chain_bits-eval_chunks_example =
    split_chain_bits-eval_chunks gadget 22 2 (to_bits_msb sevens) (to_bits_msb zero_value)
      gadget-IsCompression (omega arith) fits_22 (to_bits_msb-IsRow sevens sevens-IsValue)
      (to_bits_msb-IsRow zero_value zero_value-IsValue) split_into_two

parse_bristol-eval_bristol_example :
    (out : List ℕ) × (eval_bristol and_circuit (1 ∷ 0 ∷ []) ≡ ok out)
    × (length out ≡ 1)
    × All IsBit out
parse_bristol-eval_bristol_example =
    parse_bristol-eval_bristol and_text (1 ∷ 0 ∷ []) parse_and (omega arith) refl
