-- ===== src/Shachain.antt =====
-- The BOLT-03 derivation: generate_from_seed, at_index and combine of
-- rust/crates/shachain2pc-circuit/src/lib.rs; set_bits_desc and derive_from_known of
-- rust/crates/shachain2pc-daemon/src/helpers.rs. `Sha256::digest` is the parameter `digest`.
pub mod Descent
pub mod Derive
pub mod Tests
use shachain2pc.Base.{
  ℕ, zero, suc, ◌+◌, ◌-◌, ◌/◌, ◌%◌, ◌^◌, not, ◌&&◌, List, [], ◌∷◌, ◌==◌, if◌then◌else◌, bit_and,
  bit_xor, get_or, set, Option, none, some, Result,
}
use shachain2pc.Base.Bits.{◌<<<◌, ◌>>>◌}
use shachain2pc.Types.Hex.{ParseError}
use shachain2pc.Types.Index.{Index48, index_bits, max_index, new_index}
use shachain2pc.Types.Value.{Value32, xor}

-- `p[b / 8] ^= 1u8 << (b % 8)`.
unfoldable pub flip_bit : ℕ → List ℕ → List ℕ
flip_bit b p = set p (b / 8) (bit_xor (get_or p (b / 8) 0) ((1 <<< (b % 8)) % 2 ^ 8))

-- `set_bits_desc` below bit `b`: the set bits of a word, the highest first.
unfoldable pub bits_below : ℕ → ℕ → List ℕ
bits_below zero value = []
bits_below (suc b) value =
    let rest = bits_below b value in if bit_and (value >>> b) 1 == 0 then rest else b ∷ rest

unfoldable pub set_bits_desc : ℕ → List ℕ
unfolding bits_below
set_bits_desc value = bits_below index_bits value

-- `u64::trailing_zeros`, for words of `width` bits.
unfoldable pub trailing_zeros : ℕ → ℕ → ℕ
trailing_zeros zero v = 0
trailing_zeros (suc width) v =
    let rest = trailing_zeros width (v / 2) in if v % 2 == 1 then 0 else suc rest

-- `!v` on a `u64`.
unfoldable pub not_u64 : ℕ → ℕ
not_u64 v = bit_xor v (2 ^ 64 - 1)

-- The difference is a `u64` that wraps; a build with overflow checks panics there, in place of the
-- error.
unfoldable pub at_index : ℕ → Result ParseError Index48
at_index v = new_index ((2 ^ 64 + max_index - v) % 2 ^ 64)

unfoldable pub combine : Value32 → Value32 → Value32
combine a b = xor a b

module _ (digest : List ℕ → List ℕ) where
  -- One step of the chain: flip the bit, then hash.
  unfoldable pub derive_bit : ℕ → List ℕ → List ℕ
  derive_bit b p = digest (flip_bit b p)

  -- The rounds of `generate_from_seed` below bit `b`.
  unfoldable pub generate_below : ℕ → ℕ → List ℕ → List ℕ
  generate_below zero index p = p
  generate_below (suc b) index p =
      generate_below b index (if bit_and (index >>> b) 1 == 0 then p else derive_bit b p)

  unfoldable pub generate_from_seed : Value32 → Index48 → Value32
  generate_from_seed seed index = record {
    bytes = generate_below index_bits index.value seed.bytes;
  }

  -- The loop of `derive_from_known` over the missing bits.
  unfoldable pub derive_bits : List ℕ → List ℕ → List ℕ
  derive_bits [] p = p
  derive_bits (b ∷ bs) p = derive_bits bs (derive_bit b p)

  unfoldable pub derive_from_known : ℕ → Value32 → ℕ → Option Value32
  derive_from_known from_index secret to_index =
      if not (bit_and from_index (not_u64 to_index) == 0)
      then none
      else let missing = bit_and to_index (not_u64 from_index) in
        if not (from_index == 0) && not (missing >>> trailing_zeros 64 from_index == 0)
        then none
        else some (record { bytes = derive_bits (set_bits_desc missing) secret.bytes })
