-- ===== src/Circuit/Builder.antt =====
-- The circuits that rust/crates/shachain2pc-circuit/src/lib.rs builds around a gadget for the
-- SHA-256 compression: Builder, build_derivation_circuit, build_chunk_circuit and the checks of
-- the shapes of chunks and tiles. The builder's counter only grows, so its `i32` has overflowed
-- exactly when it stands at 2 ^ 31 or more at the end: checked_finish then panics, as a build with
-- overflow checks does at the allocation.
pub mod Ready
pub mod Rows
pub mod Gadget
pub mod Apply
pub mod Chain
pub mod Finish
pub mod Derivation
pub mod Chunks
pub mod Digest
pub mod Refinement
pub mod Tests
use shachain2pc.Base.{
  ℕ, zero, suc, ◌+◌, ◌-◌, ◌*◌, ◌/◌, ◌%◌, ◌^◌, Bool, true, false, not, ◌&&◌, ◌||◌, ◌==◌, ltb, leb,
  if◌then◌else◌, List, [], ◌∷◌, ◌++◌, map, length, replicate, take, drop, get_or, set, bit_and,
  Result, ok, err, ◌>>=◌, ◌>>◌, guard,
}
use shachain2pc.Base.Bits.{◌>>>◌}
use shachain2pc.Base.Reads.{range}
use shachain2pc.Types.Index.{Index48, index_bits, max_index}
use shachain2pc.Types.Value.{value_bits, bytes_bits}
use shachain2pc.Circuit.{
  CircuitError, index_error, wrong_input_width, wrong_shape, large_chain_bit, large_tile, panicked,
}
use shachain2pc.Circuit.Bristol.{
  Gate, and_gate, xor_gate, inv_gate, Circuit, input_width, wires_exist,
}

pub record Builder : Type 0 where
  pub next : ℕ
  pub gates : List Gate

unfoldable pub new_builder : ℕ → Builder
new_builder num_inputs = record { next = num_inputs; gates = [] }

-- `self.gates.push(..)`.
unfoldable pub push : Gate → Builder → Builder
push g b = record b { gates = b.gates ++ g ∷ [] }

-- `count` calls of `alloc`.
unfoldable pub alloc : ℕ → Builder → List ℕ × Builder
alloc count b = (range b.next count, record b { next = b.next + count })

unfoldable pub xor_w : ℕ → ℕ → Builder → ℕ × Builder
unfolding push
xor_w in0 in1 b = (b.next, push (xor_gate in0 in1 b.next) (record b { next = suc b.next }))

unfoldable pub inv_w : ℕ → Builder → ℕ × Builder
unfolding push
inv_w in0 b = (b.next, push (inv_gate in0 b.next) (record b { next = suc b.next }))

-- A gate of the gadget, on the wires that stand for the gadget's.
unfoldable pub relabel : List ℕ → Gate → Gate
relabel m (and_gate a b o) = and_gate (get_or m a 0) (get_or m b 0) (get_or m o 0)
relabel m (xor_gate a b o) = xor_gate (get_or m a 0) (get_or m b 0) (get_or m o 0)
relabel m (inv_gate a o) = inv_gate (get_or m a 0) (get_or m o 0)

unfoldable pub push_gates : List ℕ → List Gate → Builder → Builder
unfolding relabel push
push_gates m [] b = b
push_gates m (g ∷ gs) b = push_gates m gs (push (relabel m g) b)

-- The wire of the circuit for each wire of the gadget.
unfoldable pub wire_map : Circuit → List ℕ → Builder → List ℕ
unfolding alloc
wire_map gadget inputs b = inputs ++ (alloc (gadget.num_wire - input_width gadget) b).0

-- Whether the gates read and write the `n` slots of the wire map.
unfoldable pub gates_exist : ℕ → List Gate → Bool
unfolding wires_exist
gates_exist n [] = true
gates_exist n (g ∷ gs) = wires_exist n g && gates_exist n gs

unfoldable pub apply_gadget : Circuit → List ℕ → Builder → Result CircuitError (List ℕ × Builder)
unfolding push_gates alloc wire_map gates_exist
apply_gadget gadget inputs b =
    guard (length inputs == input_width gadget) wrong_input_width
    >> guard (leb (input_width gadget) gadget.num_wire) panicked
    >> guard (gates_exist gadget.num_wire gadget.gates) panicked
    >> guard (leb gadget.n3 gadget.num_wire) panicked
    >> ok (
      take gadget.n3 (drop (gadget.num_wire - gadget.n3) (wire_map gadget inputs b)),
      push_gates (wire_map gadget inputs b) gadget.gates
          (alloc (gadget.num_wire - input_width gadget) b).1,
    )

unfoldable pub finish : ℕ → ℕ → ℕ → Builder → Circuit
finish n1 n2 n3 b = record { num_wire = b.next; n1 = n1; n2 = n2; n3 = n3; gates = b.gates }

-- `finish`, on a counter that has not overflowed.
unfoldable pub checked_finish : ℕ → ℕ → ℕ → Builder → Result CircuitError Circuit
unfolding finish
checked_finish n1 n2 n3 b = guard (ltb b.next (2 ^ 31)) panicked >> ok (finish n1 n2 n3 b)

-- The padding of a 32-byte message: 0x80, 29 zeros, and its length 256 as two bytes.
unfoldable pub padding_bits : List ℕ
padding_bits = bytes_bits (0x80 ∷ replicate 29 0 ++ 0x01 ∷ 0x00 ∷ [])

unfoldable pub msb_bit_index : ℕ → ℕ → ℕ
msb_bit_index byte lsb = 8 * byte + (7 - lsb)

unfoldable pub flip_bit_index : ℕ → ℕ
unfolding msb_bit_index
flip_bit_index bit = msb_bit_index (bit / 8) (bit % 8)

-- Rounds of `xor_w` on the wires of two rows.
unfoldable pub xor_rows : List ℕ → List ℕ → Builder → List ℕ × Builder
unfolding xor_w
xor_rows (x ∷ xs) (y ∷ ys) b =
    let rest = xor_rows xs ys (xor_w x y b).1 in ((xor_w x y b).0 ∷ rest.0, rest.1)
xor_rows _ _ b = ([], b)

-- The second half of the block: `c1` where the padding has a bit, `c0` where it has none.
abbrev pub pad_wires : ℕ → ℕ → List ℕ → List ℕ
pad_wires c0 c1 pad = map (λ x. if not (x == 0) then c1 else c0) pad

-- One bit of the chain: flip it in the value on the wires `p`, then hash.
unfoldable pub chain_bit :
    Circuit → ℕ → ℕ → ℕ → List ℕ → Builder → Result CircuitError (List ℕ × Builder)
unfolding inv_w apply_gadget padding_bits flip_bit_index
chain_bit sha c0 c1 bit p b =
    let (flipped, b₁) = inv_w (get_or p (flip_bit_index bit) 0) b in
    apply_gadget sha (set p (flip_bit_index bit) flipped ++ pad_wires c0 c1 padding_bits) b₁

unfoldable pub chain_bits :
    Circuit → ℕ → ℕ → List ℕ → List ℕ → Builder → Result CircuitError (List ℕ × Builder)
unfolding chain_bit
chain_bits sha c0 c1 [] p b = ok (p, b)
chain_bits sha c0 c1 (bit ∷ bits) p b =
    chain_bit sha c0 c1 bit p b >>= λ (q, b₁). chain_bits sha c0 c1 bits q b₁

-- The rounds below bit `n` of `build_derivation_circuit`, for the bits that the index has set.
unfoldable pub chain_below :
    Circuit → ℕ → ℕ → ℕ → ℕ → List ℕ → Builder → Result CircuitError (List ℕ × Builder)
unfolding chain_bit
chain_below sha c0 c1 zero index p b = ok (p, b)
chain_below sha c0 c1 (suc n) index p b =
    (if bit_and (index >>> n) 1 == 0 then ok (p, b) else chain_bit sha c0 c1 n p b) >>= λ (q, b₁).
    chain_below sha c0 c1 n index q b₁

-- The copy of the result to the last wires, `xor_w(*wire, c0)`.
unfoldable pub copy_out : ℕ → List ℕ → Builder → Builder
unfolding xor_rows
copy_out c0 p b = (xor_rows (take value_bits p) (replicate value_bits c0) b).1

-- The wires `c0` and `c1` of the constants, and the builder after them.
unfoldable pub constants : ℕ → ℕ × ℕ × Builder
unfolding xor_w inv_w new_builder
constants num_inputs =
    let (c0, b₁) = xor_w 0 0 (new_builder num_inputs) in let (c1, b₂) = inv_w c0 b₁ in (c0, c1, b₂)

abbrev pub is_gadget : Circuit → Bool
is_gadget sha = sha.n1 + sha.n2 == 512 && sha.n3 == value_bits

-- The xor of the two shares.
unfoldable pub xor_shares : Builder → List ℕ × Builder
unfolding xor_rows
xor_shares b = xor_rows (range 0 value_bits) (range value_bits value_bits) b

unfoldable pub build_derivation_circuit : Circuit → ℕ → Result CircuitError Circuit
unfolding constants xor_shares chain_below copy_out checked_finish
build_derivation_circuit sha index = do
  guard (leb index max_index) (index_error index)
  guard (is_gadget sha) wrong_shape
  let (c0, c1, b) = constants (2 * value_bits)
  let (p, b₁) = xor_shares b
  (q, b₂) ← chain_below sha c0 c1 index_bits index p b₁
  checked_finish value_bits value_bits value_bits (copy_out c0 q b₂)

unfoldable pub build_circuit_for_index : Index48 → Circuit → Result CircuitError Circuit
unfolding build_derivation_circuit
build_circuit_for_index index sha = build_derivation_circuit sha index.value

-- `bit >= INDEX_BITS` for some chain bit.
unfoldable pub has_large_bit : List ℕ → Bool
has_large_bit [] = false
has_large_bit (bit ∷ bits) = leb index_bits bit || has_large_bit bits

-- The inputs of a chunk: two shares in the first, one value in a later one.
abbrev pub chunk_inputs : Bool → ℕ
chunk_inputs first = if first then 2 * value_bits else value_bits

unfoldable pub chunk_value : Bool → Builder → List ℕ × Builder
unfolding xor_shares
chunk_value true b = xor_shares b
chunk_value false b = (range 0 value_bits, b)

unfoldable pub build_chunk_circuit : Circuit → List ℕ → Bool → Result CircuitError Circuit
unfolding constants chunk_value chain_bits copy_out checked_finish has_large_bit
build_chunk_circuit sha bits first = do
  guard (is_gadget sha) wrong_shape
  guard (not (has_large_bit bits)) large_chain_bit
  let (c0, c1, b) = constants (chunk_inputs first)
  let (p, b₁) = chunk_value first b
  (q, b₂) ← chain_bits sha c0 c1 bits p b₁
  checked_finish value_bits (if first then value_bits else 0) value_bits (copy_out c0 q b₂)

unfoldable pub check_chunk_circuit : Circuit → Result CircuitError (Unit {0})
check_chunk_circuit c =
    let ni = c.n1 + c.n2 in
    guard ((ni == value_bits || ni == 2 * value_bits) && c.n3 == value_bits) wrong_shape

-- For heights below 64. `tile_bits as i32` keeps the lowest 32 bits.
unfoldable pub check_tile_circuit : ℕ → Circuit → Result CircuitError (Unit {0})
check_tile_circuit tile_height c =
    let tile_bits = value_bits * 2 ^ tile_height in
    guard (ltb tile_bits (2 ^ 64)) large_tile
    >> guard (c.n1 == value_bits && c.n2 == 0 && c.n3 == tile_bits % 2 ^ 32) wrong_shape
