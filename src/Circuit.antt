-- ===== src/Circuit.antt =====
-- split_chain_bits and plan_tile_levels of rust/crates/shachain2pc-circuit/src/lib.rs: how a
-- derivation is cut into chunks and tiles.
pub mod Plan
pub mod Bristol
pub mod Builder
pub mod Digests
pub mod Tests
use shachain2pc.Base.{
  ℕ, zero, suc, ◌+◌, ◌-◌, ◌/◌, ◌%◌, ◌*◌, Bool, true, false, not, ◌&&◌, ◌==◌, ltb, if◌then◌else◌,
  List, [], ◌∷◌, ◌++◌, length, bit_and, Result, ok, err, ◌>>=◌, ◌>>◌, guard,
}
use shachain2pc.Base.Bits.{◌>>>◌}
use shachain2pc.Types.Index.{index_bits, max_index}

-- The errors by their messages. `panicked` is a panic: an index out of bounds, or an `i32` that
-- overflows in a build that checks it.
pub data CircuitError : Type 0 where
  small_chunk small_tile small_depth : CircuitError
  missing_token bad_number inconsistent_header bad_arity unknown_op bad_fan_in : CircuitError
  wire_out_of_range wrong_input_width wrong_shape large_chain_bit : CircuitError
  bad_tile_height bad_bit_window large_tile panicked : CircuitError
  index_error : ℕ → CircuitError

pub record TileLevel : Type 0 where
  pub bit_offset : ℕ
  pub height : ℕ

-- One round of the loop: the bit joins the last group, or a new one where that is full. The groups
-- are the full ones and the last.
abbrev pub add_bit : ℕ → ℕ → List (List ℕ) × List ℕ → List (List ℕ) × List ℕ
add_bit blocks bit (groups, last) =
    if not (length last == 0) && length last == blocks
    then (groups ++ last ∷ [], bit ∷ [])
    else (groups, last ++ bit ∷ [])

-- The rounds below bit `b`, the highest first.
unfoldable pub add_bits : ℕ → ℕ → ℕ → List (List ℕ) × List ℕ → List (List ℕ) × List ℕ
add_bits blocks index zero groups = groups
add_bits blocks index (suc b) groups =
    add_bits blocks index b
      (if bit_and (index >>> b) 1 == 0 then groups else add_bit blocks b groups)

abbrev pub close_groups : List (List ℕ) × List ℕ → List (List ℕ)
close_groups (groups, last) = groups ++ last ∷ []

unfoldable pub split_chain_bits : ℕ → ℕ → Result CircuitError (List (List ℕ))
unfolding add_bits
split_chain_bits index blocks_per_chunk = do
  guard (not (ltb blocks_per_chunk 1)) small_chunk
  guard (not (ltb max_index index)) (index_error index)
  ok (close_groups (add_bits blocks_per_chunk index index_bits ([], [])))

-- The final loop of `plan_tile_levels`: a level at the offset, then the one below it, until the
-- offset is 0. The offset falls at every round, and stops at 0 here where the source would panic,
-- so `offset` rounds and the first are enough.
unfoldable pub tile_levels : ℕ → ℕ → ℕ → List TileLevel
tile_levels zero offset height = []
tile_levels (suc fuel) offset height =
    let rest = tile_levels fuel (offset - height) height in
    let level : TileLevel = record { bit_offset = offset; height = height } in
    if offset == 0 then level ∷ [] else level ∷ rest

-- The short level of the remainder, at the top.
abbrev pub top_level : ℕ → ℕ → List TileLevel
top_level depth r = if r == 0 then [] else record { bit_offset = depth - r; height = r } ∷ []

unfoldable pub plan_tile_levels : ℕ → ℕ → Result CircuitError (List TileLevel)
unfolding tile_levels
plan_tile_levels depth tile_height = do
  guard (not (ltb tile_height 1)) small_tile
  guard (not (ltb depth tile_height)) small_depth
  let r = depth % tile_height
  let remaining = depth - r
  let offset = remaining - tile_height
  ok (top_level depth r ++ tile_levels (offset + 1) offset tile_height)
