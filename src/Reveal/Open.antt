-- ===== src/Reveal/Open.antt =====
-- finalize_input_open: what the recipient of an honest peer's shares and inputs reads on each wire.
use native.Mathlib.Decide.{ℕ_discrete}
use shachain2pc.Base.{
  ℕ, zero, suc, ◌+◌, ◌%◌, ◌<◌, bit_and, bit_xor, ◌≡◌, refl, sym, ap, ◌∙◌, subst, ◌==◌,
  if◌then◌else◌, ltb, true, List, [], ◌∷◌, map, arith, ok, length, length-set, get_or, set, All,
}
use shachain2pc.Base.Bits.{bit_and-one, bit_xor-lt}
use shachain2pc.Base.Reads.{get_or-set_self, get_or-set_ne}
use shachain2pc.Reveal.{
  AShareBundle, masked_bits, add_peer_bits, check_indices, verify_share_relation, share_bits_of,
  block_lsb, reveal_local_share, finalize_input_open,
}
use shachain2pc.Reveal.Honest.{
  block_lsb-eq-mod, bit_xor-mod, verify_share_relation-parts, verify_peer_mac_digest-related,
}

-- The inputs of the peer that belong to wire `i`, summed.
abbrev pub peer_sum : ℕ → List ℕ → List ℕ → ℕ
peer_sum i (k ∷ ks) (x ∷ xs) = (if i == k then x else 0) + peer_sum i ks xs
peer_sum i _ _ = 0

abbrev pub mac_at : List AShareBundle → ℕ → ℕ
mac_at wires i = get_or (map (λ wire. wire.mac) wires) i 0

-- The bits before the peer's inputs, by their reads.
masked_bit :
    (a b x : ℕ)
    → bit_and (bit_xor (bit_xor (block_lsb a) (bit_and (block_lsb b) 1)) (bit_and x 1)) 1
      ≡ (a + b + x) % 2
masked_bit a b x =
    rw
      (
        bit_and-one (bit_xor (bit_xor (block_lsb a) (bit_and (block_lsb b) 1)) (bit_and x 1)),
        bit_xor-mod (bit_xor (block_lsb a) (bit_and (block_lsb b) 1)) (bit_and x 1),
        bit_and-one (block_lsb b),
        bit_and-one x,
        block_lsb-eq-mod a,
        block_lsb-eq-mod b,
      )
      (omega (arith, bit_xor-mod (a % 2) (b % 2 % 2)))

masked_bits-reads :
    (mines others : List AShareBundle) (own : List ℕ) (i : ℕ)
    → length others ≡ length mines
    → length own ≡ length mines
    → (get_or (masked_bits (share_bits_of mines) (share_bits_of others) own) i 0
        ≡ (mac_at mines i + mac_at others i + get_or own i 0) % 2)
      × (length (masked_bits (share_bits_of mines) (share_bits_of others) own) ≡ length mines)
unfolding masked_bits
masked_bits-reads [] [] [] i p q = (omega arith, refl)
masked_bits-reads [] (theirs ∷ others) own i p q = absurd (omega arith)
masked_bits-reads [] [] (x ∷ own) i p q = absurd (omega arith)
masked_bits-reads (mine ∷ mines) [] own i p q = absurd (omega arith)
masked_bits-reads (mine ∷ mines) (theirs ∷ others) [] i p q = absurd (omega arith)
masked_bits-reads (mine ∷ mines) (theirs ∷ others) (x ∷ own) zero p q =
    let (reads, len) = masked_bits-reads mines others own 0 (omega arith) (omega arith) in
    (masked_bit mine.mac theirs.mac x, ap suc len)
masked_bits-reads (mine ∷ mines) (theirs ∷ others) (x ∷ own) (suc i) p q =
    let (reads, len) = masked_bits-reads mines others own i (omega arith) (omega arith) in
    (reads, ap suc len)

xor_input : (a x : ℕ) → a < 2 → bit_xor a (bit_and x 1) ≡ (a + x) % 2
xor_input a x h = omega (
  arith,
  bit_xor-lt 1 a (bit_and x 1) h (omega (arith, bit_and-one x)),
  bit_xor-mod a (bit_and x 1),
  bit_and-one x,
)

-- Each of the peer's inputs is added on its wire.
add_peer_bits-reads :
    (i : ℕ) (ks xs row : List ℕ)
    → length xs ≡ length ks
    → All (λ k. k < length row) ks
    → ((j : ℕ) → get_or row j 0 < 2)
    → get_or (add_peer_bits ks xs row) i 0 ≡ (get_or row i 0 + peer_sum i ks xs) % 2
unfolding add_peer_bits
add_peer_bits-reads i [] [] row e h b = omega (arith, b i)
add_peer_bits-reads i [] (x ∷ xs) row e h b = absurd (omega arith)
add_peer_bits-reads i (k ∷ ks) [] row e h b = absurd (omega arith)
add_peer_bits-reads i (k ∷ ks) (x ∷ xs) row e (inside, h) b =
    let bit : ℕ = bit_xor (get_or row k 0) (bit_and x 1) in
    let sum = xor_input (get_or row k 0) x (b k) in
    add_peer_bits-reads i ks xs (set row k bit) (omega arith)
      (subst (λ n. All (λ j. j < n) ks) (sym (length-set row k bit)) h)
      (λ j. elim (ℕ_discrete k j) [
        | yes s ↦ omega (
          arith,
          ap (λ (l : ℕ). get_or (set row k bit) l 0) (sym s),
          get_or-set_self row k bit 0 inside,
          sum,
        )
        | no n ↦ omega (arith, get_or-set_ne row k j bit 0 n, b j)
      ])
    ∙ elim (ℕ_discrete k i) [
      | yes s ↦ ground (
        arith,
        ap (λ (l : ℕ). get_or (set row k bit) l 0) (sym s),
        ap (λ (l : ℕ). get_or row l 0) (sym s),
        get_or-set_self row k bit 0 inside,
        sum,
      )
      | no n ↦ ground (arith, get_or-set_ne row k i bit 0 n)
    ]

check_indices-eq-ok : (n : ℕ) (ks : List ℕ) → All (λ k. k < n) ks → check_indices n ks ≡ ok tt
unfolding check_indices
check_indices-eq-ok n [] h = refl
check_indices-eq-ok n (k ∷ ks) (inside, h) =
    let small : ltb k n ≡ true = ground arith in rw small (check_indices-eq-ok n ks h)

-- When the shares of two parties are related, the own inputs are one for each wire, and the peer's
-- inputs are for wires that exist, what the peer sends of its wires opens the inputs: the bit of a wire is
-- the sum, modulo 2, of the two shares, of the own input and of every input that the peer gives for it.
pub finalize_input_open-reads :
    (sha256 : List ℕ → List ℕ) (mines : List AShareBundle) (local_delta : ℕ)
    (others : List AShareBundle) (peer_delta : ℕ) (own ks xs : List ℕ) (i : ℕ)
    → verify_share_relation mines local_delta others peer_delta ≡ true
    → length own ≡ length mines
    → length xs ≡ length ks
    → All (λ k. k < length mines) ks
    → (out : List ℕ) × (finalize_input_open sha256 mines own ks
          (reveal_local_share sha256 others).share_bits
          (reveal_local_share sha256 others).mac_digest
          xs
          local_delta
        ≡ ok out)
      × (get_or out i 0
          ≡ (mac_at mines i + mac_at others i + get_or own i 0 + peer_sum i ks xs) % 2)
unfolding finalize_input_open reveal_local_share
finalize_input_open-reads sha256 mines local_delta others peer_delta own ks xs i related e f h =
    let (same, _) = verify_share_relation-parts mines local_delta others peer_delta related in
    let check = verify_peer_mac_digest-related sha256 mines local_delta others peer_delta related in
    let row : List ℕ = masked_bits (share_bits_of mines) (share_bits_of others) own in
    let (reads, len) = masked_bits-reads mines others own i (sym same) e in
    let owns : (length own == length mines) ≡ true = ground arith in
    let peers : (length xs == length ks) ≡ true = ground arith in
    (
      add_peer_bits ks xs row,
      rw (owns, peers, check_indices-eq-ok (length mines) ks h, check) refl,
      add_peer_bits-reads i ks xs row f (subst (λ n. All (λ k. k < n) ks) (sym len) h)
            (λ j. omega (arith, (masked_bits-reads mines others own j (sym same) e).0))
          ∙ omega (arith, reads),
    )
