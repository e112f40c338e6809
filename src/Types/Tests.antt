-- ===== src/Types/Tests.antt =====
-- The texts, bits and masks of concrete values.
use shachain2pc.Base.{
  ℕ, zero, suc, ◌-◌, ◌≡◌, refl, ◌≤◌, ◌<◌, List, [], ◌∷◌, ◌++◌, map, replicate, length, All, ok,
  arith,
}
use shachain2pc.Types.Hex.{to_lower, hex_nibble}
use shachain2pc.Types.Index.{
  Index48, IsIndex, index_from_hex, to_hex12, strip_hex_prefix, read_hex, new_index,
}
use shachain2pc.Types.Value.{
  Value32, IsValue, IsByte, value_from_hex, to_hex, from_bits_msb, to_bits_msb, hex_pairs,
}
use shachain2pc.Types.IndexText.{index_from_hex-to_hex12, to_hex12-index_from_hex}
use shachain2pc.Types.ValueText.{
  value_from_hex-to_hex, to_hex-value_from_hex, from_bits_msb-to_bits_msb,
}

abbrev pub five : Index48
five = record { value = 5 }

pub replicate-IsByte : (n x : ℕ) → x < 256 → All IsByte (replicate n x)
replicate-IsByte zero x h = tt
replicate-IsByte (suc n) x h = (h, replicate-IsByte n x h)

abbrev pub sevens : Value32
sevens = record { bytes = replicate 32 7 }

abbrev pub nines : Value32
nines = record { bytes = replicate 32 9 }

pub sevens-IsValue : IsValue sevens
sevens-IsValue = (refl, replicate-IsByte 32 7 (omega arith))

nines-IsValue : IsValue nines
nines-IsValue = (refl, replicate-IsByte 32 9 (omega arith))

index_from_hex-to_hex12_example : index_from_hex (to_hex12 five) ≡ ok five
index_from_hex-to_hex12_example = index_from_hex-to_hex12 five (omega arith)

-- `0xAb`.
abbrev ab_text : List ℕ
ab_text = b'0' ∷ b'x' ∷ b'A' ∷ b'b' ∷ []

ab_read : index_from_hex ab_text ≡ ok (record { value = 171 })
unfolding index_from_hex strip_hex_prefix read_hex new_index hex_nibble
ab_read = refl

to_hex12-index_from_hex_example :
    IsIndex (record { value = 171 })
    × (1 ≤ length (strip_hex_prefix ab_text))
    × (length (strip_hex_prefix ab_text) ≤ 12)
    × (to_hex12 (record { value = 171 })
        ≡ replicate (12 - length (strip_hex_prefix ab_text)) b'0'
          ++ map to_lower (strip_hex_prefix ab_text))
to_hex12-index_from_hex_example = to_hex12-index_from_hex ab_text ab_read

value_from_hex-to_hex_example : value_from_hex (to_hex sevens) ≡ ok sevens
value_from_hex-to_hex_example = value_from_hex-to_hex sevens sevens-IsValue

-- 64 digits `B`.
abbrev b_text : List ℕ
b_text = replicate 64 b'B'

b_read : value_from_hex b_text ≡ ok (record { bytes = replicate 32 187 })
unfolding value_from_hex hex_pairs hex_nibble
b_read = refl

to_hex-value_from_hex_example :
    IsValue (record { bytes = replicate 32 187 })
    × (length b_text ≡ 64)
    × (to_hex (record { bytes = replicate 32 187 }) ≡ map to_lower b_text)
to_hex-value_from_hex_example = to_hex-value_from_hex b_text b_read

from_bits_msb-to_bits_msb_example : from_bits_msb (to_bits_msb sevens) ≡ ok sevens
from_bits_msb-to_bits_msb_example = from_bits_msb-to_bits_msb sevens sevens-IsValue
