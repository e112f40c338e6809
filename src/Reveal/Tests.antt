-- ===== src/Reveal/Tests.antt =====
-- Two parties with one wire, the opening at both, and refusals.
use native.Mathlib.Decide.{ℕ_discrete}
use shachain2pc.Base.{◌+◌, ◌%◌, get_or, arith, ℕ, ◌≡◌, refl, true, List, [], ◌∷◌, ok, err}
use shachain2pc.MpcTypes.{Bytes-discrete}
use shachain2pc.Reveal.{
  AShareBundle, select_block, block_lsb, blocks_bytes, expected_macs, all_related, masked_bits,
  add_peer_bits, check_indices, open_from_peer_check, bad_wire_shape, open_mac_digest_mismatch,
  peer_input_index, verify_share_relation, reveal_local_share, verify_peer_mac_digest,
  reveal_recipient_bits, finalize_input_open,
}
use shachain2pc.Reveal.Open.{mac_at, peer_sum, finalize_input_open-reads}
use shachain2pc.Reveal.Honest.{reveal_recipient_bits-honest}
use shachain2pc.Flow.Handshake.{le_bytes}

abbrev keep : List ℕ → List ℕ
keep xs = xs

-- Local delta 6, peer delta 10: the local share is 1 and the peer's is 0.
abbrev mines : List AShareBundle
mines = record { mac = 3; key = 8 } ∷ []

abbrev others : List AShareBundle
others = record { mac = 8; key = 9 } ∷ []

mines_related : verify_share_relation mines 6 others 10 ≡ true
unfolding verify_share_relation all_related select_block block_lsb
mines_related = refl

reveal_recipient_bits-honest_example :
    reveal_recipient_bits keep
      (1 ∷ [])
      mines
      (reveal_local_share keep others).share_bits
      (reveal_local_share keep others).mac_digest
      6
    ≡ ok (0 ∷ [])
reveal_recipient_bits-honest_example =
    reveal_recipient_bits-honest keep (1 ∷ []) mines 6 others 10 refl mines_related

finalize_input_open-reads_example :
    (out : List ℕ) × (finalize_input_open keep mines
        (1 ∷ [])
        (0 ∷ 0 ∷ [])
        (reveal_local_share keep others).share_bits
        (reveal_local_share keep others).mac_digest
        (1 ∷ 1 ∷ [])
        6
      ≡ ok out)
    × (get_or out 0 0
        ≡ (mac_at mines 0 + mac_at others 0 + 1 + peer_sum 0 (0 ∷ 0 ∷ []) (1 ∷ 1 ∷ [])) % 2)
finalize_input_open-reads_example =
    finalize_input_open-reads keep mines 6 others 10 (1 ∷ []) (0 ∷ 0 ∷ []) (1 ∷ 1 ∷ []) 0
      mines_related refl refl (omega arith)

bad_shape : reveal_recipient_bits keep [] mines (0 ∷ []) [] 6 ≡ err (bad_wire_shape 0 1)
unfolding reveal_recipient_bits
bad_shape = refl

-- The other share needs another MAC.
lying_share :
    finalize_input_open keep mines (0 ∷ []) [] (1 ∷ []) (le_bytes 16 8) [] 6
    ≡ err open_mac_digest_mismatch
unfolding finalize_input_open verify_peer_mac_digest expected_macs blocks_bytes select_block
    le_bytes Bytes-discrete open_from_peer_check check_indices ℕ_discrete
lying_share = refl

bad_index :
    finalize_input_open keep mines (0 ∷ []) (1 ∷ []) (0 ∷ []) (le_bytes 16 8) (1 ∷ []) 6
    ≡ err (peer_input_index 1 1)
unfolding finalize_input_open check_indices
bad_index = refl

input_opened :
    finalize_input_open keep mines (1 ∷ []) (0 ∷ []) (0 ∷ []) (le_bytes 16 8) (1 ∷ []) 6
    ≡ ok (1 ∷ [])
unfolding finalize_input_open reveal_local_share verify_peer_mac_digest expected_macs blocks_bytes
    select_block le_bytes block_lsb masked_bits add_peer_bits check_indices Bytes-discrete
    open_from_peer_check ℕ_discrete
input_opened = refl
