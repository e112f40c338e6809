-- ===== src/Circuit/Builder/Chunks.antt =====
-- The circuits against the chain of the gadget: one chunk, the whole derivation, and the chunks of
-- a plan one after the other.
use shachain2pc.Base.{
  ℕ, zero, suc, ◌+◌, ◌-◌, ◌*◌, length, length-append, ◌≤◌, ◌≡◌, ◌≢◌, refl, sym, ap, ◌∙◌, leb, Bool,
  true, false, List, [], ◌∷◌, ◌++◌, replicate, All, Result, ok, err, ◌>>=◌, arith,
}
use shachain2pc.Types.Index.{index_bits, max_index}
use shachain2pc.Types.Value.{value_bits, xor_bytes}
use shachain2pc.Shachain.{set_bits_desc, bits_below}
use shachain2pc.Circuit.{CircuitError, split_chain_bits, add_bits, close_groups}
use shachain2pc.Circuit.Plan.{concat, split_chain_bits-concat}
use shachain2pc.Circuit.Bristol.{Circuit, eval_bristol}
use shachain2pc.Circuit.Builder.{build_derivation_circuit, build_chunk_circuit, chunk_value}
use shachain2pc.Circuit.Builder.Ready.{Below}
use shachain2pc.Circuit.Builder.Chain.{
  IsCompression, hash_bit, hash_bits, chain_below-eq-chain_bits,
}
use shachain2pc.Circuit.Builder.Finish.{IsBit}
use shachain2pc.Circuit.Builder.Derivation.{
  IsRow, IsChunk, FitsI32, chunk_wires, chunk_start, chunk_bits, chunk_run, has_large_bit_lem,
}

abbrev zero_row : List ℕ
zero_row = replicate value_bits 0

zero_row-IsRow : IsRow zero_row
zero_row-IsRow = (refl, all_zero value_bits)
  where
    all_zero : (n : ℕ) → All IsBit (replicate n 0)
    all_zero zero = tt
    all_zero (suc n) = (omega arith, all_zero n)

-- For a gadget from 512 bits to 256 whose gates write none of its inputs, and chain bits below 48
-- with fewer than 2 ^ 31 wires in all, a chunk circuit is built; it passes check_chunk_circuit, its gates use wires below its wire
-- count, and that count is the one of its parts.
pub build_chunk_circuit-IsChunk :
    (sha : Circuit) (bits : List ℕ) (first : Bool)
    → IsCompression sha
    → All (Below 48) bits
    → FitsI32 sha bits first
    → (c : Circuit) × (build_chunk_circuit sha bits first ≡ ok c) × IsChunk sha bits first c
build_chunk_circuit-IsChunk sha bits first g h fit =
    let ((c, v), (built, chunk, _, _, _, _)) =
      chunk_run sha g bits h first fit zero_row zero_row zero_row-IsRow zero_row-IsRow in
    (c, built, chunk)

-- For such a gadget, chain bits and number of wires, the chunk circuit on two rows of 256 bits (the second is used in
-- a first chunk alone) gives 256 bits: the ones that the gadget's own evaluation gives when it is
-- applied once for each chain bit, to the value with that bit flipped and the padding behind it.
pub build_chunk_circuit-eval_bristol :
    (sha : Circuit) (bits : List ℕ) (first : Bool) (a b : List ℕ)
    → IsCompression sha
    → All (Below 48) bits
    → FitsI32 sha bits first
    → IsRow a
    → IsRow b
    → (v : List ℕ) × ((build_chunk_circuit sha bits first >>= λ c.
          eval_bristol c (chunk_bits first a b))
        ≡ ok v)
      × (hash_bits sha bits (chunk_start first a b) ≡ ok v)
      × IsRow v
build_chunk_circuit-eval_bristol sha bits first a b g h fit ha hb =
    let ((c, v), (built, chunk, evaluates, spec, len, bit)) =
      chunk_run sha g bits h first fit a b ha hb in
    (v, rw built evaluates, spec, (len, bit))

pub set_bits-Below : (n index : ℕ) → n ≤ 48 → All (Below 48) (bits_below n index)
unfolding bits_below
set_bits-Below zero index h = tt
set_bits-Below (suc n) index h = ground (arith, set_bits-Below n index (omega arith))

-- The derivation circuit of an index is the first chunk over all the bits that it has set, gate by
-- gate, and the same error where the gadget has another shape.
pub build_derivation_circuit-eq-build_chunk_circuit :
    (sha : Circuit) (index : ℕ)
    → index ≤ max_index
    → build_derivation_circuit sha index ≡ build_chunk_circuit sha (set_bits_desc index) true
unfolding build_derivation_circuit build_chunk_circuit set_bits_desc chunk_value
build_derivation_circuit-eq-build_chunk_circuit sha index h =
    let small : leb index max_index ≡ true = ground (arith, h) in
    rw
      (
        small,
        has_large_bit_lem (bits_below index_bits index)
            (set_bits-Below index_bits index (omega arith)),
      )
      (simp (chain_below-eq-chain_bits) refl)

hash_bits-append :
    (sha : Circuit) (xs ys : List ℕ) (v : List ℕ)
    → hash_bits sha (xs ++ ys) v ≡ (hash_bits sha xs v >>= hash_bits sha ys)
unfolding hash_bits
hash_bits-append sha [] ys v = refl
hash_bits-append sha (x ∷ xs) ys v = go (hash_bit sha x v) (hash_bits-append sha xs ys)
  where
    go :
        (r : Result CircuitError (List ℕ))
        → ((w : List ℕ) → hash_bits sha (xs ++ ys) w ≡ (hash_bits sha xs w >>= hash_bits sha ys))
        → (r >>= hash_bits sha (xs ++ ys)) ≡ (r >>= hash_bits sha xs >>= hash_bits sha ys)
    go (err e) f = refl
    go (ok w) f = f w

-- The chunks' circuits one after the other, each on what the one before gave.
unfoldable pub eval_chunks : Circuit → Bool → List (List ℕ) → List ℕ → Result CircuitError (List ℕ)
eval_chunks sha first [] v = ok v
eval_chunks sha first (bits ∷ chunks) v =
    build_chunk_circuit sha bits first >>= λ c. eval_bristol c v >>= eval_chunks sha false chunks

All-prefix : (P : ℕ → Type 0) (xs ys : List ℕ) → All P (xs ++ ys) → All P xs × All P ys
All-prefix P [] ys h = (tt, h)
All-prefix P (x ∷ xs) ys h = let (front, back) = All-prefix P xs ys h.1 in ((h.0, front), back)

-- The parts of a chain have fewer wires than the whole.
wires_append :
    (sha : Circuit) (first : Bool) (xs ys : List ℕ)
    → (chunk_wires sha xs first ≤ chunk_wires sha (xs ++ ys) first)
      × (chunk_wires sha ys false ≤ chunk_wires sha (xs ++ ys) first)
wires_append sha first xs ys =
    let k : ℕ = suc (sha.num_wire - 512) in
    let sum : length (xs ++ ys) * k ≡ length xs * k + length ys * k =
      ap (λ (n : ℕ). n * k) (length-append xs ys) ∙ grind arith in
    (omega (arith, sum), more first sum)
  where
    more :
        (x : Bool)
        → length (xs ++ ys) * suc (sha.num_wire - 512)
          ≡ length xs * suc (sha.num_wire - 512) + length ys * suc (sha.num_wire - 512)
        → chunk_wires sha ys false ≤ chunk_wires sha (xs ++ ys) x
    more true sum = omega (arith, sum)
    more false sum = omega (arith, sum)

chunks_lem :
    (sha : Circuit) (chunks : List (List ℕ)) (v : List ℕ)
    → IsCompression sha
    → All (Below 48) (concat chunks)
    → FitsI32 sha (concat chunks) false
    → IsRow v
    → eval_chunks sha false chunks v ≡ hash_bits sha (concat chunks) v
unfolding eval_chunks hash_bits
chunks_lem sha [] v g h fit r = refl
chunks_lem sha (bits ∷ chunks) v g h fit r =
    let (few, fewer) = wires_append sha false bits (concat chunks) in
    let (front, back) = All-prefix (Below 48) bits (concat chunks) h in
    let ((c, w), (built, _, evaluates, spec, len, bit)) =
      chunk_run sha g bits front false (omega arith) v zero_row r zero_row-IsRow in
    rw (built, evaluates, hash_bits-append sha bits (concat chunks) v, spec)
      (chunks_lem sha chunks w g back (omega arith) (len, bit))

append_ne : (xs : List (List ℕ)) (y : List ℕ) → (xs ++ y ∷ []) ≢ []
append_ne [] y e = cc
append_ne (x ∷ xs) y e = cc

split_chain_bits_ne : (index blocks : ℕ) → split_chain_bits index blocks ≢ ok []
unfolding split_chain_bits
split_chain_bits_ne index blocks e =
    let s = add_bits blocks index index_bits ([], []) in
    let same : close_groups s ≡ [] = ground arith in append_ne s.0 s.1 same

-- For such a gadget, and an index whose chain has fewer than 2 ^ 31 wires in all, the circuits of the
-- chunks that split_chain_bits plans for an index, evaluated
-- one after the other from the two shares of a value, give what the derivation circuit of the index
-- gives.
pub split_chain_bits-eval_chunks :
    (sha : Circuit) (index blocks : ℕ) (a b : List ℕ) {chunks : List (List ℕ)}
    → IsCompression sha
    → index ≤ max_index
    → FitsI32 sha (set_bits_desc index) true
    → IsRow a
    → IsRow b
    → split_chain_bits index blocks ≡ ok chunks
    → eval_chunks sha true chunks (a ++ b)
      ≡ (build_derivation_circuit sha index >>= λ c. eval_bristol c (a ++ b))
unfolding eval_chunks set_bits_desc
split_chain_bits-eval_chunks sha index blocks a b {chunks = []} g l fit ha hb e =
    absurd (split_chain_bits_ne index blocks e)
split_chain_bits-eval_chunks sha index blocks a b {chunks = bits ∷ chunks} g l fit ha hb e =
    let all_bits = (split_chain_bits-concat index blocks e).0 in
    let small : All (Below 48) (concat (bits ∷ chunks)) =
      rw all_bits (set_bits-Below index_bits index (omega arith)) in
    let (front, back) = All-prefix (Below 48) bits (concat chunks) small in
    let (few, fewer) = wires_append sha true bits (concat chunks) in
    let all_fit : FitsI32 sha (concat (bits ∷ chunks)) true = rw all_bits fit in
    let ((c, w), (built, _, evaluates, spec, len, bit)) =
      chunk_run sha g bits front true (omega arith) a b ha hb in
    let ((d, v), (built', _, evaluates', spec', _, _)) =
      chunk_run sha g (set_bits_desc index) (set_bits-Below index_bits index (omega arith)) true fit
        a b ha hb in
    rw (built, evaluates)
      (chunks_lem sha chunks w g back (omega arith) (len, bit)
        ∙ sym (ap (λ r. r >>= hash_bits sha (concat chunks)) spec)
        ∙ sym (hash_bits-append sha bits (concat chunks) (xor_bytes a b))
        ∙ ap (λ (xs : List ℕ). hash_bits sha xs (xor_bytes a b)) all_bits
        ∙ spec'
        ∙ sym (
            ap (λ r. r >>= λ c. eval_bristol c (a ++ b))
              (build_derivation_circuit-eq-build_chunk_circuit sha index l ∙ built')
            ∙ evaluates'))
