-- ===== src/Circuit/Builder/Refinement.antt =====
-- build_circuit_for_index of rust/crates/shachain2pc-circuit/src/lib.rs against generate_from_seed
-- and combine there.
use shachain2pc.Base.{
  ℕ, ◌≡◌, refl, sym, ap, ◌∙◌, List, [], ◌∷◌, ◌++◌, length, All, true, ok, ◌>>=◌, arith,
}
use shachain2pc.Base.Bits.{bit_xor-lt}
use shachain2pc.Types.Index.{Index48, IsIndex, index_bits}
use shachain2pc.Types.Value.{Value32, IsValue, IsByte, xor_bytes, xor, bytes_bits, to_bits_msb}
use shachain2pc.Shachain.{generate_from_seed, combine, bits_below, set_bits_desc}
use shachain2pc.Shachain.Derive.{generate_below-eq-derive_bits}
use shachain2pc.Circuit.Bristol.{Circuit, eval_bristol}
use shachain2pc.Circuit.Builder.{build_circuit_for_index}
use shachain2pc.Circuit.Builder.Chain.{hash_bits}
use shachain2pc.Circuit.Builder.Derivation.{FitsI32}
use shachain2pc.Circuit.Builder.Chunks.{
  build_chunk_circuit-eval_bristol, build_derivation_circuit-eq-build_chunk_circuit, set_bits-Below,
}
use shachain2pc.Circuit.Builder.Digest.{
  Computes, hash_bits-derive_bits, bytes_bits-xor_bytes, to_bits_msb-IsRow,
}

xor_bytes-IsValue :
    (a b : List ℕ)
    → length a ≡ length b
    → All IsByte a
    → All IsByte b
    → (length (xor_bytes a b) ≡ length a) × All IsByte (xor_bytes a b)
unfolding xor_bytes
xor_bytes-IsValue [] [] e h k = (refl, tt)
xor_bytes-IsValue [] (y ∷ b) e h k = absurd (omega arith)
xor_bytes-IsValue (x ∷ a) [] e h k = absurd (omega arith)
xor_bytes-IsValue (x ∷ a) (y ∷ b) e h k =
    let (len, small) = xor_bytes-IsValue a b (omega arith) h.1 k.1 in
    (omega (arith, len), (bit_xor-lt 8 x y h.0 k.0, small))

-- For a gadget that computes the digest of 32 padded bytes, and an index whose circuit has fewer than
-- 2 ^ 31 wires, the circuit of an index evaluates, on
-- the bits of two shares, to the bits of the value that generate_from_seed derives at the index from
-- the combined share.
pub build_circuit_for_index-generate_from_seed :
    (sha : Circuit) (digest : List ℕ → List ℕ) (a b : Value32) (index : Index48)
    → Computes sha digest
    → IsValue a
    → IsValue b
    → IsIndex index
    → FitsI32 sha (set_bits_desc index.value) true
    → (build_circuit_for_index index sha >>= λ c. eval_bristol c (to_bits_msb a ++ to_bits_msb b))
      ≡ ok (to_bits_msb (generate_from_seed digest (combine a b) index))
unfolding build_circuit_for_index to_bits_msb generate_from_seed combine xor set_bits_desc
build_circuit_for_index-generate_from_seed sha digest a b index g ha hb l fit =
    let bits : List ℕ = bits_below index_bits index.value in
    let small = set_bits-Below index_bits index.value (omega arith) in
    let same_length : length a.bytes ≡ length b.bytes = omega (arith, ha.0, hb.0) in
    let (len, is_bytes) = xor_bytes-IsValue a.bytes b.bytes same_length ha.1 hb.1 in
    let (v, evaluates, spec, _) =
      build_chunk_circuit-eval_bristol sha bits true (bytes_bits a.bytes) (bytes_bits b.bytes)
        g.compression small fit (to_bits_msb-IsRow a ha) (to_bits_msb-IsRow b hb) in
    let start : xor_bytes (bytes_bits a.bytes) (bytes_bits b.bytes)
        ≡ bytes_bits (xor_bytes a.bytes b.bytes) =
      sym (bytes_bits-xor_bytes a.bytes b.bytes same_length) in
    ap (λ r. r >>= λ c. eval_bristol c (bytes_bits a.bytes ++ bytes_bits b.bytes))
      (build_derivation_circuit-eq-build_chunk_circuit sha index.value l)
    ∙ evaluates
    ∙ sym spec
    ∙ ap (hash_bits sha bits) start
    ∙ hash_bits-derive_bits sha digest g bits (xor_bytes a.bytes b.bytes) small
        (omega (arith, len, ha.0), is_bytes)
    ∙ ap (λ (p : List ℕ). ok (bytes_bits p))
        (sym
          (generate_below-eq-derive_bits digest index_bits index.value (xor_bytes a.bytes b.bytes)))
