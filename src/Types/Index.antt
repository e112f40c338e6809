-- ===== src/Types/Index.antt =====
-- Role and Index48 of rust/crates/shachain2pc-types/src/lib.rs.
use shachain2pc.Base.{
  ℕ, zero, suc, ◌-◌, ◌/◌, ◌%◌, ◌^◌, ◌≤◌, ◌&&◌, ◌||◌, List, [], ◌∷◌, ◌++◌, leb, ltb, ◌==◌,
  if◌then◌else◌, bit_or, length, Result, ok, err, ◌>>=◌,
}
use shachain2pc.Base.Bits.{◌<<<◌}
use shachain2pc.Types.Hex.{
  ParseError, invalid_party, bad_index_length, index_too_large, hex_nibble, nibble_hex,
}

abbrev pub index_bits : ℕ
index_bits = 48

abbrev pub max_index : ℕ
max_index = 2 ^ index_bits - 1

pub data Role : Type 0 where
  alice bob : Role

unfoldable pub from_party_id : ℕ → Result ParseError Role
from_party_id id = if id == 1 then ok alice else if id == 2 then ok bob else err (invalid_party id)

unfoldable pub party_id : Role → ℕ
party_id alice = 1
party_id bob = 2

-- `Index48(u64)`; its values are made by `Index48.new` alone, see `IsIndex`.
pub record Index48 : Type 0 where
  pub value : ℕ

abbrev pub IsIndex : Index48 → Type 0
IsIndex i = i.value ≤ max_index

unfoldable pub new_index : ℕ → Result ParseError Index48
new_index v = if leb v max_index then ok (record { value = v }) else err (index_too_large v)

-- The text without one leading `0x` or `0X`.
unfoldable pub strip_hex_prefix : List ℕ → List ℕ
strip_hex_prefix [] = []
strip_hex_prefix (c ∷ []) = c ∷ []
strip_hex_prefix (c ∷ d ∷ rest) =
    if c == b'0' && (d == b'x' || d == b'X') then rest else c ∷ d ∷ rest

-- The loop `value = (value << 4) | hex_nibble(c)?` over a `u64`.
unfoldable pub read_hex : ℕ → List ℕ → Result ParseError ℕ
read_hex value [] = ok value
read_hex value (c ∷ cs) = do n ← hex_nibble c; read_hex (bit_or ((value <<< 4) % 2 ^ 64) n) cs

unfoldable pub index_from_hex : List ℕ → Result ParseError Index48
index_from_hex input =
    let hex = strip_hex_prefix input in
    if length hex == 0 || ltb 12 (length hex)
    then err (bad_index_length (length hex))
    else read_hex 0 hex >>= new_index

-- `format!("{:0nx}")` of a value below `16 ^ n`.
unfoldable pub write_hex : ℕ → ℕ → List ℕ
write_hex zero v = []
write_hex (suc n) v = write_hex n (v / 16) ++ nibble_hex (v % 16) ∷ []

unfoldable pub to_hex12 : Index48 → List ℕ
to_hex12 i = write_hex 12 i.value
