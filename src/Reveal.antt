-- ===== src/Reveal.antt =====
-- The opening of shared wires in rust/crates/shachain2pc-mpc-core/src/reveal.rs, the MAC check at
-- the end of rust/crates/shachain2pc-mpc-core/src/channel_flow.rs and the operations on a Block of
-- rust/crates/shachain2pc-emp-wire/src/lib.rs that they use. A Block is the number below
-- `2 ^ 128` whose 16 bytes, the lowest first, the source keeps. SHA-256 is the parameter `sha256`.
pub mod Honest
pub mod Open
pub mod Tests
use shachain2pc.Base.{
  ℕ, zero, suc, ◌^◌, ◌-◌, ◌<◌, bit_and, bit_xor, ◌≡◌, Bool, true, false, ◌&&◌, List, [], ◌∷◌, ◌++◌,
  map, if◌then◌else◌, ◌==◌, ltb, ◌>>◌, Result, ok, err, guard, ensure, map_err, length, get_or, set,
}
use shachain2pc.Flow.Handshake.{le_bytes}
use shachain2pc.MpcTypes.{Bytes-discrete}

-- Block::xor, Block::and, Block::zero and Block::get_lsb.
abbrev pub block_xor : ℕ → ℕ → ℕ
block_xor a b = bit_xor a b

abbrev pub block_and : ℕ → ℕ → ℕ
block_and a b = bit_and a b

unfoldable pub block_lsb : ℕ → ℕ
block_lsb block = if bit_and block 1 == 1 then 1 else 0

-- Every byte 0xff, or zero, by the lowest bit.
unfoldable pub select_block : ℕ → ℕ
select_block bit = if bit_and bit 1 == 0 then 0 else 2 ^ 128 - 1

pub record AShareBundle : Type 0 where
  mac : ℕ
  key : ℕ

pub record RevealLocalShare : Type 0 where
  share_bits : List ℕ
  mac_digest : List ℕ

pub data PeerMacCheckError : Type 0 where
  peer_share_length : (expected actual : ℕ) → PeerMacCheckError
  mac_digest_mismatch : PeerMacCheckError

pub data RevealError : Type 0 where
  bad_wire_shape : (lambda_len bundle_len : ℕ) → RevealError
  reveal_peer_share_length : (expected actual : ℕ) → RevealError
  reveal_mac_digest_mismatch : RevealError

unfoldable pub reveal_from_peer_check : PeerMacCheckError → RevealError
reveal_from_peer_check (peer_share_length expected actual) =
    reveal_peer_share_length expected actual
reveal_from_peer_check mac_digest_mismatch = reveal_mac_digest_mismatch

pub data InputOpenError : Type 0 where
  own_input_length : (expected actual : ℕ) → InputOpenError
  open_peer_share_length : (expected actual : ℕ) → InputOpenError
  peer_input_length : (expected actual : ℕ) → InputOpenError
  peer_input_index : (index len : ℕ) → InputOpenError
  open_mac_digest_mismatch : InputOpenError

unfoldable pub open_from_peer_check : PeerMacCheckError → InputOpenError
open_from_peer_check (peer_share_length expected actual) = open_peer_share_length expected actual
open_from_peer_check mac_digest_mismatch = open_mac_digest_mismatch

-- The bytes of blocks, one after another, as the hash reads them.
unfoldable pub blocks_bytes : List ℕ → List ℕ
unfolding le_bytes
blocks_bytes [] = []
blocks_bytes (b ∷ bs) = le_bytes 16 b ++ blocks_bytes bs

-- The MAC that the holder of the keys expects on each share of the peer.
unfoldable pub expected_macs : ℕ → List AShareBundle → List ℕ → List ℕ
unfolding select_block
expected_macs delta (wire ∷ wires) (share ∷ shares) =
    block_xor wire.key (block_and (select_block share) delta) ∷ expected_macs delta wires shares
expected_macs delta _ _ = []

-- `local ^ lambda ^ (peer & 1)`, then `& 1`; the lists have one length where this runs.
unfoldable pub opened_bits : List ℕ → List ℕ → List ℕ → List ℕ
opened_bits (own ∷ owns) (masked ∷ lambda) (peer ∷ peers) =
    bit_and (bit_xor (bit_xor own masked) (bit_and peer 1)) 1 ∷ opened_bits owns lambda peers
opened_bits _ _ _ = []

-- `local ^ (peer & 1) ^ (own & 1)`, then `& 1`.
unfoldable pub masked_bits : List ℕ → List ℕ → List ℕ → List ℕ
masked_bits (mine ∷ mines) (peer ∷ peers) (own ∷ owns) =
    bit_and (bit_xor (bit_xor mine (bit_and peer 1)) (bit_and own 1)) 1
    ∷ masked_bits mines peers owns
masked_bits _ _ _ = []

-- `lambda[wire_index] ^= peer_x_bits[i] & 1`, for each of the peer's inputs.
unfoldable pub add_peer_bits : List ℕ → List ℕ → List ℕ → List ℕ
add_peer_bits (i ∷ indices) (x ∷ xs) lambda =
    add_peer_bits indices xs (set lambda i (bit_xor (get_or lambda i 0) (bit_and x 1)))
add_peer_bits _ _ lambda = lambda

unfoldable pub check_indices : ℕ → List ℕ → Result InputOpenError (Unit {0})
check_indices n [] = ok tt
check_indices n (i ∷ is) = guard (ltb i n) (peer_input_index i n) >> check_indices n is

abbrev pub shares_related : ℕ → ℕ → AShareBundle → AShareBundle → Bool
shares_related local_delta peer_delta mine theirs =
    (mine.mac == block_xor theirs.key (block_and (select_block (block_lsb mine.mac)) peer_delta))
    && (theirs.mac
        == block_xor mine.key (block_and (select_block (block_lsb theirs.mac)) local_delta))

unfoldable pub all_related : ℕ → ℕ → List AShareBundle → List AShareBundle → Bool
unfolding select_block block_lsb
all_related local_delta peer_delta (mine ∷ mines) (theirs ∷ others) =
    shares_related local_delta peer_delta mine theirs
    && all_related local_delta peer_delta mines others
all_related local_delta peer_delta _ _ = true

unfoldable pub verify_share_relation : List AShareBundle → ℕ → List AShareBundle → ℕ → Bool
unfolding all_related
verify_share_relation mines local_delta others peer_delta =
    (length mines == length others) && all_related local_delta peer_delta mines others

abbrev pub share_bits_of : List AShareBundle → List ℕ
share_bits_of wires = map (λ wire. block_lsb wire.mac) wires

module _ (sha256 : List ℕ → List ℕ) where
  unfoldable pub reveal_local_share : List AShareBundle → RevealLocalShare
  unfolding block_lsb blocks_bytes
  reveal_local_share wire_bundle = record {
    share_bits = share_bits_of wire_bundle;
    mac_digest = sha256 (blocks_bytes (map (λ wire. wire.mac) wire_bundle));
  }

  unfoldable pub verify_peer_mac_digest :
      List AShareBundle → List ℕ → List ℕ → ℕ → Result PeerMacCheckError (Unit {0})
  unfolding expected_macs blocks_bytes Bytes-discrete
  verify_peer_mac_digest wire_bundle peer_share peer_digest delta =
      guard (length peer_share == length wire_bundle)
        (peer_share_length (length wire_bundle) (length peer_share))
      >> ensure
          (Bytes-discrete (sha256 (blocks_bytes (expected_macs delta wire_bundle peer_share)))
            peer_digest)
          mac_digest_mismatch

  unfoldable pub reveal_recipient_bits :
      List ℕ → List AShareBundle → List ℕ → List ℕ → ℕ → Result RevealError (List ℕ)
  unfolding verify_peer_mac_digest reveal_local_share opened_bits reveal_from_peer_check
  reveal_recipient_bits lambda wire_bundle peer_share peer_digest delta =
      guard (length lambda == length wire_bundle)
        (bad_wire_shape (length lambda) (length wire_bundle))
      >> map_err reveal_from_peer_check
          (verify_peer_mac_digest wire_bundle peer_share peer_digest delta)
      >> ok (opened_bits (reveal_local_share wire_bundle).share_bits lambda peer_share)

  unfoldable pub finalize_input_open :
      List AShareBundle
      → List ℕ
      → List ℕ
      → List ℕ
      → List ℕ
      → List ℕ
      → ℕ
      → Result InputOpenError (List ℕ)
  unfolding verify_peer_mac_digest reveal_local_share masked_bits add_peer_bits check_indices
      open_from_peer_check
  finalize_input_open wire_bundle own_x_bits peer_indices peer_share peer_digest peer_x_bits delta =
      guard (length own_x_bits == length wire_bundle)
        (own_input_length (length wire_bundle) (length own_x_bits))
      >> guard (length peer_x_bits == length peer_indices)
          (peer_input_length (length peer_indices) (length peer_x_bits))
      >> check_indices (length wire_bundle) peer_indices
      >> map_err open_from_peer_check
          (verify_peer_mac_digest wire_bundle peer_share peer_digest delta)
      >> ok (
          add_peer_bits peer_indices peer_x_bits
            (masked_bits (reveal_local_share wire_bundle).share_bits peer_share own_x_bits))
