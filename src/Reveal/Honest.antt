-- ===== src/Reveal/Honest.antt =====
-- Wires whose shares are related: the digest of an honest peer passes the check of
-- rust/crates/shachain2pc-mpc-core/src/reveal.rs, and the recipient reads the opened bits.
use shachain2pc.Base.{
  ℕ, suc, ◌+◌, ◌%◌, bit_and, bit_xor, ◌≡◌, refl, ap, ap₂, true, List, [], ◌∷◌, map, arith, ok,
  length,
}
use shachain2pc.Base.Bits.{bit_and-one, bit_xor_step}
use shachain2pc.Reveal.{
  block_lsb, AShareBundle, blocks_bytes, expected_macs, opened_bits, all_related,
  verify_share_relation, share_bits_of, reveal_local_share, verify_peer_mac_digest,
  reveal_recipient_bits,
}

-- What an opening means: the sum, modulo 2, of the two shares and of the mask.
abbrev pub sum_bits : List AShareBundle → List ℕ → List AShareBundle → List ℕ
sum_bits (mine ∷ mines) (masked ∷ lambda) (theirs ∷ others) =
    (mine.mac + masked + theirs.mac) % 2 ∷ sum_bits mines lambda others
sum_bits _ _ _ = []

pub block_lsb-eq-mod : (b : ℕ) → block_lsb b ≡ b % 2
unfolding block_lsb
block_lsb-eq-mod b = let low = bit_and-one b in ground arith

pub bit_xor-mod : (a b : ℕ) → bit_xor a b % 2 ≡ (a + b) % 2
bit_xor-mod a b = omega (arith, bit_xor_step a b)

pub opened_bit :
    (a m b : ℕ)
    → bit_and (bit_xor (bit_xor (block_lsb a) m) (bit_and (block_lsb b) 1)) 1 ≡ (a + m + b) % 2
opened_bit a m b =
    rw
      (
        bit_and-one (bit_xor (bit_xor (block_lsb a) m) (bit_and (block_lsb b) 1)),
        bit_xor-mod (bit_xor (block_lsb a) m) (bit_and (block_lsb b) 1),
        bit_and-one (block_lsb b),
        block_lsb-eq-mod a,
        block_lsb-eq-mod b,
      )
      (omega (arith, bit_xor-mod (a % 2) m))

opened_bits-sum_bits :
    (mines : List AShareBundle) (lambda : List ℕ) (others : List AShareBundle)
    → opened_bits (share_bits_of mines) lambda (share_bits_of others) ≡ sum_bits mines lambda others
unfolding opened_bits
opened_bits-sum_bits [] lambda others = refl
opened_bits-sum_bits (mine ∷ mines) [] others = refl
opened_bits-sum_bits (mine ∷ mines) (masked ∷ lambda) [] = refl
opened_bits-sum_bits (mine ∷ mines) (masked ∷ lambda) (theirs ∷ others) =
    ap₂ (λ x xs. x ∷ xs) (opened_bit mine.mac masked theirs.mac)
      (opened_bits-sum_bits mines lambda others)

pub expected_macs-related :
    (local_delta peer_delta : ℕ) (mines others : List AShareBundle)
    → length mines ≡ length others
    → all_related local_delta peer_delta mines others ≡ true
    → expected_macs local_delta mines (share_bits_of others) ≡ map (λ wire. wire.mac) others
unfolding expected_macs all_related
expected_macs-related local_delta peer_delta [] [] e r = refl
expected_macs-related local_delta peer_delta [] (theirs ∷ others) e r = absurd (omega arith)
expected_macs-related local_delta peer_delta (mine ∷ mines) [] e r = absurd (omega arith)
expected_macs-related local_delta peer_delta (mine ∷ mines) (theirs ∷ others) e r =
    let rest = expected_macs-related local_delta peer_delta mines others (omega arith) in
    ground arith

length-share_bits_of : (wires : List AShareBundle) → length (share_bits_of wires) ≡ length wires
length-share_bits_of [] = refl
length-share_bits_of (wire ∷ wires) = ap suc (length-share_bits_of wires)

pub verify_share_relation-parts :
    (mines : List AShareBundle) (local_delta : ℕ) (others : List AShareBundle) (peer_delta : ℕ)
    → verify_share_relation mines local_delta others peer_delta ≡ true
    → (length mines ≡ length others) × (all_related local_delta peer_delta mines others ≡ true)
unfolding verify_share_relation
verify_share_relation-parts mines local_delta others peer_delta related = ground arith

module _ (sha256 : List ℕ → List ℕ) where
  pub verify_peer_mac_digest-related :
      (mines : List AShareBundle) (local_delta : ℕ) (others : List AShareBundle) (peer_delta : ℕ)
      → verify_share_relation mines local_delta others peer_delta ≡ true
      → verify_peer_mac_digest sha256 mines
          (share_bits_of others)
          (sha256 (blocks_bytes (map (λ wire. wire.mac) others)))
          local_delta
        ≡ ok tt
  unfolding verify_peer_mac_digest
  verify_peer_mac_digest-related mines local_delta others peer_delta related =
      let parts = verify_share_relation-parts mines local_delta others peer_delta related in
      let many = length-share_bits_of others in
      let macs = expected_macs-related local_delta peer_delta mines others parts.0 parts.1 in
      ground arith

  -- When the shares of two parties are related, what one sends of its own wires opens them at the
  -- other: the check passes, and each bit is the sum of the shares and of the mask, modulo 2.
  pub reveal_recipient_bits-honest :
      (lambda : List ℕ) (mines : List AShareBundle) (local_delta : ℕ) (others : List AShareBundle)
      (peer_delta : ℕ)
      → length lambda ≡ length mines
      → verify_share_relation mines local_delta others peer_delta ≡ true
      → reveal_recipient_bits sha256 lambda mines
          (reveal_local_share sha256 others).share_bits
          (reveal_local_share sha256 others).mac_digest
          local_delta
        ≡ ok (sum_bits mines lambda others)
  unfolding reveal_recipient_bits reveal_local_share
  reveal_recipient_bits-honest lambda mines local_delta others peer_delta e related =
      let check = verify_peer_mac_digest-related mines local_delta others peer_delta related in
      let bits = opened_bits-sum_bits mines lambda others in ground arith
