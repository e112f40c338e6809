-- ===== src/Circuit/Tests.antt =====
-- The plans of a small index and of a tree of depth 10.
use shachain2pc.Base.{ℕ, ◌≡◌, refl, List, [], ◌∷◌, All, ok}
use shachain2pc.Shachain.{set_bits_desc}
use shachain2pc.Circuit.{split_chain_bits, add_bits, TileLevel, plan_tile_levels, tile_levels}
use shachain2pc.Circuit.Plan.{
  concat, Fits, IsStack, split_chain_bits-concat, plan_tile_levels-IsStack,
}

abbrev chunks : List (List ℕ)
chunks = (4 ∷ 2 ∷ []) ∷ (1 ∷ []) ∷ []

split_22 : split_chain_bits 22 2 ≡ ok chunks
unfolding split_chain_bits add_bits
split_22 = refl

split_chain_bits-concat_example : (concat chunks ≡ set_bits_desc 22) × All (Fits 2) chunks
split_chain_bits-concat_example = split_chain_bits-concat 22 2 split_22

abbrev level : ℕ → ℕ → TileLevel
level o h = record { bit_offset = o; height = h }

abbrev levels_10 : List TileLevel
levels_10 = level 8 2 ∷ level 4 4 ∷ level 0 4 ∷ []

plan_10 : plan_tile_levels 10 4 ≡ ok levels_10
unfolding plan_tile_levels tile_levels
plan_10 = refl

plan_tile_levels-IsStack_example : IsStack 4 10 levels_10
plan_tile_levels-IsStack_example = plan_tile_levels-IsStack 10 4 plan_10
