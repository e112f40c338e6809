-- ===== src/Circuit/Digests.antt =====
-- The digests of rust/crates/shachain2pc-circuit/src/lib.rs that the two parties compare:
-- circuit_digest, batch_digest, chunk_spec_digest, tree_digest and cache_digest. SHA-256 is the
-- parameter `sha256`; the native byte order is the little-endian one.
pub mod Binding
pub mod Tests
use shachain2pc.Base.{ℕ, List, [], ◌∷◌, ◌++◌}
use shachain2pc.Flow.Handshake.{le_bytes}
use shachain2pc.Circuit.Bristol.{Circuit, num_gate, to_emp_gate_array}

-- `hasher.update(v.to_ne_bytes())` for each of a list of words of `n` bytes.
unfoldable pub words_bytes : ℕ → List ℕ → List ℕ
unfolding le_bytes
words_bytes n [] = []
words_bytes n (v ∷ vs) = le_bytes n v ++ words_bytes n vs

-- What circuit_digest hashes.
unfoldable pub circuit_text : Circuit → List ℕ → List ℕ
unfolding words_bytes
circuit_text c gate_arr =
    words_bytes 4 (num_gate c ∷ c.num_wire ∷ c.n1 ∷ c.n2 ∷ c.n3 ∷ []) ++ words_bytes 4 gate_arr

module _ (sha256 : List ℕ → List ℕ) where
  unfoldable pub circuit_digest : Circuit → List ℕ → List ℕ
  unfolding circuit_text
  circuit_digest c gate_arr = sha256 (circuit_text c gate_arr)

  abbrev pub gadget_digest : Circuit → List ℕ
  gadget_digest sha = circuit_digest sha (to_emp_gate_array sha.gates)

  unfoldable pub batch_digest : List ℕ → Circuit → List ℕ
  unfolding words_bytes circuit_digest to_emp_gate_array
  batch_digest indices sha = sha256 (words_bytes 8 indices ++ gadget_digest sha)

  -- What chunk_spec_digest hashes.
  unfoldable pub chunk_spec_text : ℕ → ℕ → Circuit → List ℕ
  unfolding circuit_digest to_emp_gate_array le_bytes
  chunk_spec_text index blocks_per_chunk sha =
      le_bytes 8 index ++ (le_bytes 4 blocks_per_chunk ++ gadget_digest sha)

  unfoldable pub chunk_spec_digest : ℕ → ℕ → Circuit → List ℕ
  unfolding chunk_spec_text
  chunk_spec_digest index blocks_per_chunk sha = sha256 (chunk_spec_text index blocks_per_chunk sha)

  unfoldable pub tree_digest : List ℕ → ℕ → Circuit → List ℕ
  unfolding words_bytes circuit_digest to_emp_gate_array le_bytes
  tree_digest indices trunk_chunk_blocks sha =
      sha256 (words_bytes 8 indices ++ (le_bytes 4 trunk_chunk_blocks ++ gadget_digest sha))

  unfoldable pub cache_digest : ℕ → ℕ → ℕ → ℕ → Circuit → List ℕ
  unfolding circuit_digest to_emp_gate_array le_bytes
  cache_digest lo hi trunk_chunk_blocks tile_fanout sha = sha256 (
      le_bytes 8 lo
      ++ (le_bytes 8 hi
          ++ (le_bytes 4 trunk_chunk_blocks ++ (le_bytes 4 tile_fanout ++ gadget_digest sha))))
