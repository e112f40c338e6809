-- ===== src/Types/Hex.antt =====
-- hex_nibble and nibble_hex of rust/crates/shachain2pc-types/src/lib.rs, which
-- rust/crates/shachain2pc-daemon/src/helpers.rs repeats. A text is the list of its bytes.
use shachain2pc.Base.{
  ℕ, ◌+◌, ◌-◌, ◌<◌, ◌≡◌, refl, Bool, true, false, ◌&&◌, List, [], ◌∷◌, arith, ltb, leb, ◌==◌,
  if◌then◌else◌, bit_and, get_or, Result, ok, err,
}
use shachain2pc.Base.Bits.{all_below, all_below_sound}

-- A party is told by its number, not by the text that the source prints.
pub data ParseError : Type 0 where
  invalid_party : ℕ → ParseError
  bad_index_length : ℕ → ParseError
  index_too_large : ℕ → ParseError
  bad_value_length : ℕ → ParseError
  bad_bit_length : ℕ → ParseError
  bad_hex_char : ℕ → ParseError

unfoldable pub hex_nibble : ℕ → Result ParseError ℕ
hex_nibble c =
    if leb b'0' c && leb c b'9'
    then ok (c - b'0')
    else if leb b'a' c && leb c b'f'
    then ok (c - b'a' + 10)
    else if leb b'A' c && leb c b'F'
    then ok (c - b'A' + 10)
    else err (bad_hex_char c)

abbrev digits : List ℕ
digits =
    b'0' ∷ b'1' ∷ b'2' ∷ b'3' ∷ b'4' ∷ b'5' ∷ b'6' ∷ b'7' ∷ b'8' ∷ b'9' ∷ b'a' ∷ b'b' ∷ b'c' ∷ b'd'
    ∷ b'e' ∷ b'f' ∷ []

unfoldable pub nibble_hex : ℕ → ℕ
nibble_hex n = get_or digits (bit_and n 0x0f) 0

-- The lower-case form of an ASCII letter.
unfoldable pub to_lower : ℕ → ℕ
to_lower c = if leb b'A' c && leb c b'Z' then c + 32 else c

abbrev reads_back : ℕ → Bool
reads_back n = elim (hex_nibble (nibble_hex n)) [ ok m ↦ m == n | err e ↦ false ]

abbrev writes_back : ℕ → Bool
writes_back c = elim (hex_nibble c) [ ok n ↦ ltb n 16 && nibble_hex n == to_lower c | err e ↦ true ]

reads_back_table : all_below 16 reads_back ≡ true
unfolding all_below hex_nibble nibble_hex
reads_back_table = refl

writes_back_table : all_below 128 writes_back ≡ true
unfolding all_below hex_nibble nibble_hex to_lower
writes_back_table = refl

pub hex_nibble-nibble_hex : (n : ℕ) → n < 16 → hex_nibble (nibble_hex n) ≡ ok n
hex_nibble-nibble_hex n h =
    let t = all_below_sound 16 reads_back n reads_back_table h in ground arith

hex_nibble_ascii : (c : ℕ) {n : ℕ} → hex_nibble c ≡ ok n → c < 128
unfolding hex_nibble
hex_nibble_ascii c h = ground arith

pub nibble_hex-hex_nibble :
    (c : ℕ) {n : ℕ} → hex_nibble c ≡ ok n → (n < 16) × (nibble_hex n ≡ to_lower c)
nibble_hex-hex_nibble c h =
    let t = all_below_sound 128 writes_back c writes_back_table (hex_nibble_ascii c h) in
    ground arith
