-- ===== src/Circuit/Builder/Derivation.antt =====
-- build_derivation_circuit and build_chunk_circuit evaluate to chains of the gadget.
use shachain2pc.Base.{
  ℕ, suc, ◌+◌, ◌-◌, ◌*◌, ◌^◌, ◌≤◌, ◌<◌, ltb, ◌≡◌, refl, sym, ap, ap₂, ◌∙◌, Bool, true, false,
  if◌then◌else◌, List, [], ◌∷◌, ◌++◌, map, length, length-append, length-map, All, ok, arith,
}
use shachain2pc.Base.Reads.{range, length-range, range_below}
use shachain2pc.Types.Value.{value_bits, xor_bytes}
use shachain2pc.Circuit.{CircuitError}
use shachain2pc.Circuit.Bristol.{Circuit, input_width, eval_bristol}
use shachain2pc.Circuit.Bristol.Store.{IsWithin}
use shachain2pc.Circuit.Builder.{
  Builder, new_builder, xor_shares, constants, chunk_value, chunk_inputs, copy_out, finish,
  checked_finish, build_chunk_circuit, has_large_bit, is_gadget, check_chunk_circuit,
}
use shachain2pc.Circuit.Builder.Ready.{Below, wire_value, Ready, Later, Later-refl, Later-map}
use shachain2pc.Circuit.Builder.Rows.{xor_rows-range, xor_rows_lem}
use shachain2pc.Circuit.Builder.Chain.{IsCompression, Constants-Later, hash_bits, chain_bits-Gives}
use shachain2pc.Circuit.Builder.Finish.{IsBit, inputs_of, finish-eval, constants_lem, inputs_at}

-- 256 bits.
abbrev pub IsRow : List ℕ → Type 0
IsRow v = (length v ≡ value_bits) × All IsBit v

-- The inputs of a chunk, and the value that its chain starts from: the xor of two shares in the
-- first chunk, the one input in a later one.
abbrev pub chunk_start : Bool → List ℕ → List ℕ → List ℕ
chunk_start true a b = xor_bytes a b
chunk_start false a b = a

abbrev pub chunk_bits : Bool → List ℕ → List ℕ → List ℕ
chunk_bits true a b = a ++ b
chunk_bits false a b = a

is_gadget_lem : (sha : Circuit) → IsCompression sha → is_gadget sha ≡ true
is_gadget_lem sha g = ground (arith, g.takes, g.gives)

pub has_large_bit_lem : (bits : List ℕ) → All (Below 48) bits → has_large_bit bits ≡ false
unfolding has_large_bit
has_large_bit_lem [] h = refl
has_large_bit_lem (b ∷ bs) h = ground (arith, h.0, has_large_bit_lem bs h.1)

-- The row that the chain starts from, after the constants.
abbrev StartsAt : Bool → List ℕ → List ℕ → Builder → List ℕ × Builder → ℕ → Type 0
StartsAt first a b before (p, after) grow =
    Ready (inputs_of (chunk_bits first a b)) after
    × Later (inputs_of (chunk_bits first a b)) before after
    × All (Below after.next) p
    × (map (wire_value (inputs_of (chunk_bits first a b)) after) p ≡ chunk_start first a b)
    × (length p ≡ value_bits)
    × (after.next ≡ before.next + grow)

append_nil : (xs : List ℕ) → xs ++ [] ≡ xs
append_nil [] = refl
append_nil (x ∷ xs) = ap (λ l. x ∷ l) (append_nil xs)

abbrev share_wires : Bool → ℕ
share_wires first = if first then value_bits else 0

input_row :
    (xs : List ℕ) (m start : ℕ) (row : List ℕ) {c : Builder}
    → Later (inputs_of xs) (new_builder m) c
    → start + value_bits ≤ m
    → map (inputs_of xs) (range start value_bits) ≡ row
    → map (wire_value (inputs_of xs) c) (range start value_bits) ≡ row
unfolding new_builder shachain2pc.Circuit.Bristol.Store.run
input_row xs m start row l h e =
    Later-map (inputs_of xs) (range start value_bits) l (range_below start value_bits m h) ∙ e

chunk_value_lem :
    (first : Bool) (a b : List ℕ) (before : Builder)
    → IsRow a
    → IsRow b
    → Ready (inputs_of (chunk_bits first a b)) before
    → Later (inputs_of (chunk_bits first a b)) (new_builder (chunk_inputs first)) before
    → StartsAt first a b before (chunk_value first before) (share_wires first)
unfolding chunk_value xor_shares new_builder
chunk_value_lem false a b before ha hb r l = (
  r,
  Later-refl (inputs_of a) before,
  range_below 0 value_bits before.next l.grows,
  input_row a value_bits 0 a l (omega arith) (
      ap₂ (λ (xs : List ℕ) (n : ℕ). map (inputs_of xs) (range 0 n)) (sym (append_nil a)) (sym ha.0)
      ∙ inputs_at [] a [] ha.1),
  length-range 0 value_bits,
  omega arith,
)
chunk_value_lem true a b before ha hb r l =
    let low : All (Below before.next) (range 0 value_bits) =
      range_below 0 value_bits before.next (omega (arith, l.grows)) in
    let high : All (Below before.next) (range value_bits value_bits) =
      range_below value_bits value_bits before.next (omega (arith, l.grows)) in
    let (ready, later, below, carries) =
      xor_rows_lem (inputs_of (a ++ b)) (range 0 value_bits) (range value_bits value_bits) before r
        low high in
    let (wires, next) =
      xor_rows-range (range 0 value_bits) (range value_bits value_bits) before
        (length-range 0 value_bits ∙ sym (length-range value_bits value_bits)) in
    (
      ready,
      later,
      below,
      carries
          ∙ ap₂ xor_bytes
              (input_row (a ++ b) (2 * value_bits) 0 a l (omega arith) (
                ap (λ (n : ℕ). map (inputs_of (a ++ b)) (range 0 n)) (sym ha.0)
                ∙ inputs_at [] a b ha.1))
              (input_row (a ++ b) (2 * value_bits) value_bits b l (omega arith) (
                ap₂ (λ (n k : ℕ). map (inputs_of (a ++ b)) (range n k)) (sym ha.0) (sym hb.0)
                ∙ ap (λ (xs : List ℕ). map (inputs_of (a ++ xs)) (range (length a) (length b)))
                    (sym (append_nil b))
                ∙ inputs_at a b [] hb.1)),
      ap length wires ∙ length-range before.next _ ∙ length-range 0 value_bits,
      next ∙ omega (arith, length-range 0 value_bits),
    )

abbrev ChunkWidth : Bool → List ℕ → List ℕ → Type 0
ChunkWidth first a b = length (chunk_bits first a b) ≡ chunk_inputs first

chunk_bits-length : (first : Bool) (a b : List ℕ) → IsRow a → IsRow b → ChunkWidth first a b
chunk_bits-length true a b ha hb = omega (arith, length-append a b, ha.0, hb.0)
chunk_bits-length false a b ha hb = ha.0

chunk_input_width :
    (first : Bool) (b : Builder)
    → input_width (finish value_bits (if first then value_bits else 0) value_bits b)
      ≡ chunk_inputs first
unfolding input_width finish
chunk_input_width true b = refl
chunk_input_width false b = refl

chunk_shape :
    (first : Bool) (b : Builder)
    → check_chunk_circuit (finish value_bits (if first then value_bits else 0) value_bits b) ≡ ok tt
unfolding check_chunk_circuit finish
chunk_shape true b = refl
chunk_shape false b = refl

checked_finish-eq-ok :
    (n1 n2 n3 : ℕ) (b : Builder) {n : ℕ}
    → b.next ≡ n
    → n < 2 ^ 31
    → checked_finish n1 n2 n3 b ≡ ok (finish n1 n2 n3 b)
unfolding checked_finish
checked_finish-eq-ok n1 n2 n3 b e small =
    let fits : ltb b.next (2 ^ 31) ≡ true = ground arith in rw fits refl

abbrev pub chunk_wires : Circuit → List ℕ → Bool → ℕ
chunk_wires sha bits first =
    chunk_inputs first + 2 + share_wires first + length bits * suc (sha.num_wire - 512) + value_bits

-- The wires of the chunk are numbers of an `i32`.
abbrev pub FitsI32 : Circuit → List ℕ → Bool → Type 0
FitsI32 sha bits first = chunk_wires sha bits first < 2 ^ 31

-- A circuit of a chunk's shape whose gates use its own wires, of which there are as many as the
-- constants, the xor of the shares, the bits of the chain and the outputs need.
pub record IsChunk (sha : Circuit) (bits : List ℕ) (first : Bool) (c : Circuit) : Type 0 where
  pub shape : check_chunk_circuit c ≡ ok tt
  pub within : All (IsWithin c.num_wire) c.gates
  pub wires : c.num_wire ≡ chunk_wires sha bits first

module _ (sha : Circuit) (g : IsCompression sha) (bits : List ℕ) (h : All (Below 48) bits)
    (first : Bool) (fit : FitsI32 sha bits first) where
  -- The circuit, and what it gives of one input.
  abbrev pub Builds : List ℕ → List ℕ → Circuit × List ℕ → Type 0
  Builds a b (c, v) =
      (build_chunk_circuit sha bits first ≡ ok c)
      × IsChunk sha bits first c
      × (eval_bristol c (chunk_bits first a b) ≡ ok v)
      × (hash_bits sha bits (chunk_start first a b) ≡ ok v)
      × (length v ≡ value_bits)
      × All IsBit v

  pub chunk_run : (a b : List ℕ) → IsRow a → IsRow b → (r : Circuit × List ℕ) × Builds a b r
  unfolding build_chunk_circuit
  chunk_run a b ha hb =
      let xs : List ℕ = chunk_bits first a b in
      let width = chunk_bits-length first a b ha hb in
      let some_input : 0 < chunk_inputs first = inputs_positive first in
      let (r₀, l₀, k₀, n₀) = constants_lem xs (chunk_inputs first) width some_input in
      let (c0, c1, b₀) = constants (chunk_inputs first) in
      let (r₁, l₁, below, start, len, n₁) = chunk_value_lem first a b b₀ ha hb r₀ l₀ in
      let (p, b₁) = chunk_value first b₀ in
      let ((q, b₂), call, r₂, l₂, q_below, spec, n₂, q_length) =
        chain_bits-Gives (inputs_of xs) sha g c0 c1 bits p b₁ r₁
          (Constants-Later (inputs_of xs) l₁ k₀) below len h in
      let k₂ = Constants-Later (inputs_of xs) l₂ (Constants-Later (inputs_of xs) l₁ k₀) in
      let (evaluates, within, top) =
        finish-eval xs c0 c1 value_bits (share_wires first) q b₂ r₂ k₂ q_below q_length
          (omega (arith, width, n₀, l₁.grows, l₂.grows))
          (width ∙ sym (chunk_input_width first (copy_out c0 q b₂))) in
      let wires : (copy_out c0 q b₂).next ≡ chunk_wires sha bits first =
        omega (arith, top, n₂, n₁, n₀) in
      let checked =
        checked_finish-eq-ok value_bits (share_wires first) value_bits (copy_out c0 q b₂) wires
          fit in
      (
        (
          finish value_bits (share_wires first) value_bits (copy_out c0 q b₂),
          map (wire_value (inputs_of xs) b₂) q,
        ),
        (
          rw (is_gadget_lem sha g, has_large_bit_lem bits h, call, checked) refl,
          record { shape = chunk_shape first (copy_out c0 q b₂); within = within; wires = wires },
          evaluates,
          ap (hash_bits sha bits) (sym start) ∙ spec,
          length-map q (wire_value (inputs_of xs) b₂) ∙ q_length,
          row_bits (inputs_of xs) b₂ q r₂,
        ),
      )
    where
      inputs_positive : (x : Bool) → 0 < chunk_inputs x
      inputs_positive true = omega arith
      inputs_positive false = omega arith

      row_bits :
          (f : ℕ → ℕ) (c : Builder) (q : List ℕ) → Ready f c → All IsBit (map (wire_value f c) q)
      row_bits f c [] r = tt
      row_bits f c (x ∷ q) r = (r.bits x, row_bits f c q r)
