-- ===== src/Circuit/Builder/Chain.antt =====
-- The chain of a circuit hashes as the gadget does: one bit, a list of bits, the bits of an index.
use mathlib.Core.Path.{fun_ext}
use shachain2pc.Base.{
  ℕ, zero, suc, ◌+◌, ◌-◌, ◌*◌, ◌<◌, ◌≡◌, refl, sym, ap, ap₂, ◌∙◌, ◌==◌, if◌then◌else◌, not,
  Bool-cases, inl, inr, List, [], ◌∷◌, ◌++◌, map, length, length-append, length-map, length-set,
  get_or, set, All, All-append, bit_and, bit_xor, Result, ok, ◌>>=◌, arith,
}
use shachain2pc.Base.Bits.{◌>>>◌}
use shachain2pc.Base.Reads.{map-set, map-append, get_or-map, All-set, All-get_or}
use shachain2pc.Types.Value.{value_bits, bytes_bits, byte_bits}
use shachain2pc.Shachain.{bits_below}
use shachain2pc.Circuit.{CircuitError}
use shachain2pc.Circuit.Bristol.{Circuit, input_width, eval_bristol}
use shachain2pc.Circuit.Builder.{
  Builder, inv_w, padding_bits, pad_wires, flip_bit_index, msb_bit_index, chain_bit, chain_bits,
  chain_below,
}
use shachain2pc.Circuit.Builder.Ready.{
  Below, All-mono, wire_value, Ready, Later, Later-refl, Later-trans, Later-map, inv_w_lem,
}
use shachain2pc.Circuit.Builder.Gadget.{IsGadget}
use shachain2pc.Circuit.Builder.Apply.{apply_gadget-Applied}

-- A bit list with one bit flipped.
abbrev pub flip_at : ℕ → List ℕ → List ℕ
flip_at i v = set v i (bit_xor (get_or v i 0) 1)

-- What one bit of the chain computes, and a list of them.
unfoldable pub hash_bit : Circuit → ℕ → List ℕ → Result CircuitError (List ℕ)
hash_bit sha bit v = eval_bristol sha (flip_at (flip_bit_index bit) v ++ padding_bits)

unfoldable pub hash_bits : Circuit → List ℕ → List ℕ → Result CircuitError (List ℕ)
unfolding hash_bit
hash_bits sha [] v = ok v
hash_bits sha (bit ∷ bits) v = hash_bit sha bit v >>= hash_bits sha bits

-- A gadget from 512 bits to 256.
pub record IsCompression (sha : Circuit) : Type 0 where
  pub gadget : IsGadget sha
  pub takes : sha.n1 + sha.n2 ≡ 512
  pub gives : sha.n3 ≡ value_bits

pub takes_512 : (sha : Circuit) → IsCompression sha → input_width sha ≡ 512
unfolding input_width
takes_512 sha g = ground (arith, g.takes)

padding_length : length padding_bits ≡ 256
unfolding padding_bits bytes_bits byte_bits
padding_length = refl

padding_small : All (λ x. x < 2) padding_bits
unfolding padding_bits bytes_bits byte_bits
padding_small = omega arith

pad_wires-value :
    (f : ℕ → ℕ) (c0 c1 : ℕ) (pad : List ℕ)
    → f c0 ≡ 0
    → f c1 ≡ 1
    → All (λ x. x < 2) pad
    → map f (pad_wires c0 c1 pad) ≡ pad
pad_wires-value f c0 c1 [] e0 e1 h = refl
pad_wires-value f c0 c1 (zero ∷ xs) e0 e1 h = ap₂ ◌∷◌ e0 (pad_wires-value f c0 c1 xs e0 e1 h.1)
pad_wires-value f c0 c1 (suc zero ∷ xs) e0 e1 h = ap₂ ◌∷◌ e1 (pad_wires-value f c0 c1 xs e0 e1 h.1)
pad_wires-value f c0 c1 (suc (suc x) ∷ xs) e0 e1 h = absurd (omega (arith, h.0))

pad_wires-Below :
    (c0 c1 n : ℕ) (pad : List ℕ) → c0 < n → c1 < n → All (Below n) (pad_wires c0 c1 pad)
pad_wires-Below c0 c1 n [] p q = tt
pad_wires-Below c0 c1 n (x ∷ xs) p q = (ground arith, pad_wires-Below c0 c1 n xs p q)

module _ (f₀ : ℕ → ℕ) where
  -- A call that adds `grow` wires and returns 256 wires that carry what `spec` gives.
  abbrev pub Gives :
      Builder → Result CircuitError (List ℕ) → ℕ → Result CircuitError (List ℕ × Builder) → Type 0
  Gives b spec grow call =
      (out : List ℕ × Builder) × (call ≡ ok out)
      × Ready f₀ out.1
      × Later f₀ b out.1
      × All (Below out.1.next) out.0
      × (spec ≡ ok (map (wire_value f₀ out.1) out.0))
      × (out.1.next ≡ b.next + grow)
      × (length out.0 ≡ value_bits)

  -- The wires of the constants.
  pub record Constants (c0 c1 : ℕ) (b : Builder) : Type 0 where
    pub zero_below : c0 < b.next
    pub one_below : c1 < b.next
    pub zero_value : wire_value f₀ b c0 ≡ 0
    pub one_value : wire_value f₀ b c1 ≡ 1

  pub Constants-Later :
      {c0 c1 : ℕ} {b c : Builder} → Later f₀ b c → Constants c0 c1 b → Constants c0 c1 c
  Constants-Later {c0} {c1} l k = record {
    zero_below = omega (arith, k.zero_below, l.grows);
    one_below = omega (arith, k.one_below, l.grows);
    zero_value = l.keeps c0 k.zero_below ∙ k.zero_value;
    one_value = l.keeps c1 k.one_below ∙ k.one_value;
  }

  module _ (sha : Circuit) (g : IsCompression sha) (c0 c1 : ℕ) where
    -- The wires of one bit of the chain.
    abbrev pub bit_wires : ℕ
    bit_wires = suc (sha.num_wire - 512)

    pub chain_bit-Gives :
        (bit : ℕ) (p : List ℕ) (b : Builder)
        → Ready f₀ b
        → Constants c0 c1 b
        → All (Below b.next) p
        → length p ≡ value_bits
        → flip_bit_index bit < value_bits
        → Gives b
            (hash_bit sha bit (map (wire_value f₀ b) p))
            bit_wires
            (chain_bit sha c0 c1 bit p b)
    unfolding chain_bit hash_bit inv_w
    chain_bit-Gives bit p b r k below len l =
        let i : ℕ = flip_bit_index bit in
        let at : get_or p i 0 < b.next = All-get_or (Below b.next) p i 0 below (omega arith) in
        let (ready, later, flipped, next) = inv_w_lem f₀ (get_or p i 0) b r at in
        let b₁ : Builder = (inv_w (get_or p i 0) b).1 in
        let k₁ = Constants-Later later k in
        let row : List ℕ = set p i b.next in
        let inputs : List ℕ = row ++ pad_wires c0 c1 padding_bits in
        let row-Below : All (Below b₁.next) row =
          All-set (Below b₁.next) p i b.next (All-mono _ _ p later.grows below)
            (omega (arith, next)) in
        let inputs_below : All (Below b₁.next) inputs =
          All-append (Below b₁.next) row _ row-Below
            (pad_wires-Below c0 c1 b₁.next padding_bits k₁.zero_below k₁.one_below) in
        let fits : length inputs ≡ input_width sha = omega (
          arith,
          takes_512 sha g,
          length-append row (pad_wires c0 c1 padding_bits),
          length-set p i b.next,
          length-map padding_bits (λ (x : ℕ). if not (x == 0) then c1 else c0),
          padding_length,
          len,
        ) in
        let ((out, b₂), (call, ready₂, later₂, out_below, spec, next₂, out_length)) =
          apply_gadget-Applied f₀ sha g.gadget inputs b₁ ready inputs_below fits in
        let carries : map (wire_value f₀ b₁) inputs
            ≡ flip_at i (map (wire_value f₀ b) p) ++ padding_bits =
          map-append (wire_value f₀ b₁) row _
          ∙ ap₂ ◌++◌
              (map-set (wire_value f₀ b₁) p i b.next
                ∙ ap₂ (λ (v : List ℕ) (x : ℕ). set v i x) (Later-map f₀ p later below)
                    (flipped
                      ∙ ap (λ (x : ℕ). bit_xor x 1)
                          (sym (get_or-map (wire_value f₀ b) p i 0 0 (omega arith)))))
              (pad_wires-value (wire_value f₀ b₁) c0 c1 padding_bits k₁.zero_value k₁.one_value
                padding_small) in
        (
          (out, b₂),
          call,
          ready₂,
          Later-trans f₀ later later₂,
          out_below,
          ap (eval_bristol sha) (sym carries) ∙ spec,
          omega (arith, next, next₂, takes_512 sha g),
          omega (arith, out_length, g.gives),
        )

    flip_bit_index-lt : (bit : ℕ) → bit < 48 → flip_bit_index bit < value_bits
    unfolding flip_bit_index msb_bit_index
    flip_bit_index-lt bit h = omega arith

    pub chain_bits-Gives :
        (bits : List ℕ) (p : List ℕ) (b : Builder)
        → Ready f₀ b
        → Constants c0 c1 b
        → All (Below b.next) p
        → length p ≡ value_bits
        → All (Below 48) bits
        → Gives b
            (hash_bits sha bits (map (wire_value f₀ b) p))
            (length bits * bit_wires)
            (chain_bits sha c0 c1 bits p b)
    unfolding chain_bits hash_bits
    chain_bits-Gives [] p b r k below len h =
        ((p, b), refl, r, Later-refl f₀ b, below, refl, omega arith, len)
    chain_bits-Gives (bit ∷ bits) p b r k below len h =
        let ((q, b₁), call, ready, later, q_below, spec, next, q_length) =
          chain_bit-Gives bit p b r k below len (flip_bit_index-lt bit h.0) in
        let ((out, b₂), call₂, ready₂, later₂, out_below, spec₂, next₂, out_length) =
          chain_bits-Gives bits q b₁ ready (Constants-Later later k) q_below q_length h.1 in
        (
          (out, b₂),
          rw call call₂,
          ready₂,
          Later-trans f₀ later later₂,
          out_below,
          rw spec spec₂,
          grind (arith, next, next₂),
          out_length,
        )

-- The rounds over an index are the rounds over its set bits.
pub chain_below-eq-chain_bits :
    (sha : Circuit) (c0 c1 n index : ℕ) (p : List ℕ) (b : Builder)
    → chain_below sha c0 c1 n index p b ≡ chain_bits sha c0 c1 (bits_below n index) p b
unfolding chain_below chain_bits bits_below
chain_below-eq-chain_bits sha c0 c1 zero index p b = refl
chain_below-eq-chain_bits sha c0 c1 (suc n) index p b =
    elim (Bool-cases (bit_and (index >>> n) 1 == 0)) [
      | inl t ↦ rw t (chain_below-eq-chain_bits sha c0 c1 n index p b)
      | inr t ↦ rw t (
          ap (λ f. chain_bit sha c0 c1 n p b >>= f)
            (fun_ext (λ r. chain_below-eq-chain_bits sha c0 c1 n index r.0 r.1)))
    ]
