-- ===== src/Types/Value.antt =====
-- Value32 of rust/crates/shachain2pc-types/src/lib.rs: 32 bytes, their hexadecimal text, their xor
-- and their 256 bits.
use shachain2pc.Base.{
  ℕ, zero, suc, ◌+◌, ◌-◌, ◌*◌, ◌%◌, ◌^◌, ◌<◌, ◌≡◌, List, [], ◌∷◌, ◌++◌, map, ◌==◌, if◌then◌else◌,
  bit_or, bit_and, bit_xor, length, replicate, take, drop, Result, ok, err, ◌>>=◌, All,
}
use shachain2pc.Base.Bits.{◌<<<◌, ◌>>>◌}
use shachain2pc.Types.Hex.{ParseError, bad_value_length, bad_bit_length, hex_nibble, nibble_hex}

abbrev pub value_bytes : ℕ
value_bytes = 32

abbrev pub value_bits : ℕ
value_bits = 256

-- `Value32([u8; 32])`.
pub record Value32 : Type 0 where
  pub bytes : List ℕ

abbrev pub IsByte : ℕ → Type 0
IsByte x = x < 256

abbrev pub IsValue : Value32 → Type 0
IsValue v = (length v.bytes ≡ value_bytes) × All IsByte v.bytes

unfoldable pub zero_value : Value32
zero_value = record { bytes = replicate value_bytes 0 }

unfoldable pub hex_pairs : List ℕ → Result ParseError (List ℕ)
hex_pairs [] = ok []
hex_pairs (c ∷ []) = ok []
hex_pairs (c ∷ d ∷ rest) = do
  hi ← hex_nibble c
  lo ← hex_nibble d
  bytes ← hex_pairs rest
  ok (bit_or ((hi <<< 4) % 2 ^ 8) lo ∷ bytes)

unfoldable pub value_from_hex : List ℕ → Result ParseError Value32
value_from_hex input =
    if length input == value_bytes * 2
    then hex_pairs input >>= (λ bytes. ok (record { bytes = bytes }))
    else err (bad_value_length (length input))

unfoldable pub bytes_to_hex : List ℕ → List ℕ
bytes_to_hex [] = []
bytes_to_hex (b ∷ bs) = nibble_hex (b >>> 4) ∷ nibble_hex (bit_and b 0x0f) ∷ bytes_to_hex bs

unfoldable pub to_hex : Value32 → List ℕ
to_hex v = bytes_to_hex v.bytes

unfoldable pub xor_bytes : List ℕ → List ℕ → List ℕ
xor_bytes (a ∷ as') (b ∷ bs) = bit_xor a b ∷ xor_bytes as' bs
xor_bytes _ _ = []

unfoldable pub xor : Value32 → Value32 → Value32
xor a b = record { bytes = xor_bytes a.bytes b.bytes }

-- The eight rounds `bits[8 * j + k] = (byte >> (7 - k)) & 1`.
unfoldable pub byte_bits : ℕ → List ℕ
byte_bits x = map (λ k. bit_and (x >>> (7 - k)) 1) (0 ∷ 1 ∷ 2 ∷ 3 ∷ 4 ∷ 5 ∷ 6 ∷ 7 ∷ [])

unfoldable pub bytes_bits : List ℕ → List ℕ
bytes_bits [] = []
bytes_bits (x ∷ xs) = byte_bits x ++ bytes_bits xs

unfoldable pub to_bits_msb : Value32 → List ℕ
to_bits_msb v = bytes_bits v.bytes

-- The rounds `out |= (bit & 1) << (7 - k)` from round `k` on.
unfoldable pub or_bits : ℕ → ℕ → List ℕ → ℕ
or_bits out k [] = out
or_bits out k (b ∷ bs) = or_bits (bit_or out ((bit_and b 1 <<< (7 - k)) % 2 ^ 8)) (k + 1) bs

-- `n` groups of eight bits.
unfoldable pub bits_bytes : ℕ → List ℕ → List ℕ
bits_bytes zero bits = []
bits_bytes (suc n) bits = or_bits 0 0 (take 8 bits) ∷ bits_bytes n (drop 8 bits)

unfoldable pub from_bits_msb : List ℕ → Result ParseError Value32
from_bits_msb bits =
    if length bits == value_bits
    then ok (record { bytes = bits_bytes value_bytes bits })
    else err (bad_bit_length (length bits))
