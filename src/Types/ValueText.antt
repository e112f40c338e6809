-- ===== src/Types/ValueText.antt =====
-- The hexadecimal text and the bits of a 32-byte value, and the xor of two values.
use native.Mathlib.Nat.{le_refl}
use shachain2pc.Base.{
  sym, ℕ, zero, suc, ◌+◌, ◌*◌, ◌%◌, ◌^◌, ◌<◌, ◌≡◌, refl, ap, true, ◌∙◌, List, [], ◌∷◌, ◌++◌, map,
  ◌==◌, ==_iff, bit_or, bit_and, length, length-append, All, take, drop, ok, ◌>>=◌, >>=-eq-ok,
  Bool-cases, inl, inr, arith,
}
use shachain2pc.Base.Bits.{◌<<<◌, ◌>>>◌, bit_or_fields, bit_xor-bit_xor, all_below, all_below_sound}
use shachain2pc.Types.Hex.{hex_nibble, to_lower, hex_nibble-nibble_hex, nibble_hex-hex_nibble}
use shachain2pc.Types.Value.{
  Value32, IsValue, IsByte, value_bytes, hex_pairs, value_from_hex, bytes_to_hex, to_hex, xor_bytes,
  xor, byte_bits, bytes_bits, to_bits_msb, or_bits, bits_bytes, from_bits_msb,
}

join_table : all_below 256 (λ b. bit_and b 0x0f == b % 16) ≡ true
unfolding all_below
join_table = refl

low_nibble : (b : ℕ) → b < 256 → bit_and b 0x0f ≡ b % 16
low_nibble b h = (==_iff _ _).0 (all_below_sound 256 (λ b. bit_and b 0x0f == b % 16) b join_table h)

join_nibbles : (hi lo : ℕ) → hi < 16 → lo < 16 → bit_or ((hi <<< 4) % 2 ^ 8) lo ≡ hi * 16 + lo
join_nibbles hi lo h k =
    let fits : (hi <<< 4) % 2 ^ 8 ≡ hi <<< 4 = omega arith in rw fits (bit_or_fields 4 hi lo k)

hex_pairs-bytes_to_hex : (bs : List ℕ) → All IsByte bs → hex_pairs (bytes_to_hex bs) ≡ ok bs
unfolding hex_pairs bytes_to_hex
hex_pairs-bytes_to_hex [] h = refl
hex_pairs-bytes_to_hex (b ∷ bs) (h, hs) =
    let low = low_nibble b h in
    rw
      (
        low,
        hex_nibble-nibble_hex (b >>> 4) (omega arith),
        hex_nibble-nibble_hex (b % 16) (omega arith),
        hex_pairs-bytes_to_hex bs hs,
        join_nibbles (b >>> 4) (b % 16) (omega arith) (omega arith),
      )
      (ap (λ (x : ℕ). ok (x ∷ bs)) (omega arith))

pub length-bytes_to_hex : (bs : List ℕ) → length (bytes_to_hex bs) ≡ length bs * 2
unfolding bytes_to_hex
length-bytes_to_hex [] = refl
length-bytes_to_hex (b ∷ bs) = omega (arith, length-bytes_to_hex bs)

-- Every value reads back from the 64 digits that `to_hex` writes.
pub value_from_hex-to_hex : (v : Value32) → IsValue v → value_from_hex (to_hex v) ≡ ok v
unfolding value_from_hex to_hex
value_from_hex-to_hex v (n, h) =
    rw (length-bytes_to_hex v.bytes, n, hex_pairs-bytes_to_hex v.bytes h) refl

-- A list of `n` pairs of digits.
bytes_to_hex-hex_pairs :
    (n : ℕ) (cs : List ℕ) {bs : List ℕ}
    → length cs ≡ n * 2
    → hex_pairs cs ≡ ok bs
    → (bytes_to_hex bs ≡ map to_lower cs) × (length bs ≡ n) × All IsByte bs
unfolding hex_pairs bytes_to_hex
bytes_to_hex-hex_pairs n [] {bs} l e =
    let same : [] ≡ bs = cc in rw (← same) (refl, omega arith, tt)
bytes_to_hex-hex_pairs n (c ∷ []) l e = absurd (omega arith)
bytes_to_hex-hex_pairs zero (c ∷ d ∷ cs) l e = absurd (omega arith)
bytes_to_hex-hex_pairs (suc n) (c ∷ d ∷ cs) {bs} l e =
    let (hi, e₁, e') =
      >>=-eq-ok (hex_nibble c)
        (λ hi. do
          lo ← hex_nibble d
          bytes ← hex_pairs cs
          ok (bit_or ((hi <<< 4) % 2 ^ 8) lo ∷ bytes))
        e in
    let (lo, e₂, e'') =
      >>=-eq-ok (hex_nibble d)
        (λ lo. do bytes ← hex_pairs cs; ok (bit_or ((hi <<< 4) % 2 ^ 8) lo ∷ bytes)) e' in
    let (bytes, e₃, e₄) =
      >>=-eq-ok (hex_pairs cs) (λ bytes. ok (bit_or ((hi <<< 4) % 2 ^ 8) lo ∷ bytes)) e'' in
    let (h₁, t₁) = nibble_hex-hex_nibble c e₁ in
    let (h₂, t₂) = nibble_hex-hex_nibble d e₂ in
    let (text, len, all) = bytes_to_hex-hex_pairs n cs (omega arith) e₃ in
    let j = join_nibbles hi lo h₁ h₂ in
    let same : bs ≡ (hi * 16 + lo) ∷ bytes = cc (e₄, ap (λ (t : ℕ). t ∷ bytes) j) in
    let q : (hi * 16 + lo) >>> 4 ≡ hi = omega arith in
    let r : (hi * 16 + lo) % 16 ≡ lo = omega arith in
    rw (same, low_nibble (hi * 16 + lo) (omega arith), q, r, t₁, t₂, text)
      (refl, omega arith, (omega arith, all))

-- A text that reads as a value has 64 digits, gives 32 bytes, and `to_hex` writes the same digits
-- in lower case.
pub to_hex-value_from_hex :
    (input : List ℕ) {v : Value32}
    → value_from_hex input ≡ ok v
    → IsValue v × (length input ≡ 64) × (to_hex v ≡ map to_lower input)
unfolding value_from_hex to_hex
to_hex-value_from_hex input {v} e = elim (Bool-cases (length input == value_bytes * 2)) [
  | inr bad ↦ absurd (ground arith)
  | inl good ↦
      let l : length input ≡ 32 * 2 = (==_iff (length input) (32 * 2)).0 good in
      let (bytes, e₁, e₂) =
        >>=-eq-ok (hex_pairs input) (λ bytes. ok (record { bytes = bytes })) (rw good at e) in
      let (text, n, all) = bytes_to_hex-hex_pairs 32 input l e₁ in
      let same : v.bytes ≡ bytes = ground arith in rw same ((n, all), l, text)
]

xor_bytes-xor_bytes : (xs ys : List ℕ) → length xs ≡ length ys → xor_bytes (xor_bytes xs ys) ys ≡ xs
unfolding xor_bytes
xor_bytes-xor_bytes [] [] l = refl
xor_bytes-xor_bytes [] (y ∷ ys) l = refl
xor_bytes-xor_bytes (x ∷ xs) [] l = absurd (omega arith)
xor_bytes-xor_bytes (x ∷ xs) (y ∷ ys) l =
    rw (bit_xor-bit_xor y x y (le_refl y), xor_bytes-xor_bytes xs ys (omega arith)) refl

-- A share masked by the other share gives the value back: `(a ^ b) ^ b = a`.
xor-xor : (a b : Value32) → IsValue a → IsValue b → xor (xor a b) b ≡ a
unfolding xor
xor-xor a b p q =
    ap (λ (xs : List ℕ). record { bytes = xs })
      (xor_bytes-xor_bytes a.bytes b.bytes (p.0 ∙ sym q.0))

byte_table : all_below 256 (λ x. or_bits 0 0 (byte_bits x) == x) ≡ true
unfolding all_below or_bits byte_bits
byte_table = refl

or_bits-byte_bits : (x : ℕ) → x < 256 → or_bits 0 0 (byte_bits x) ≡ x
or_bits-byte_bits x h =
    (==_iff _ _).0 (all_below_sound 256 (λ x. or_bits 0 0 (byte_bits x) == x) x byte_table h)

take_byte : (x : ℕ) (rest : List ℕ) → take 8 (byte_bits x ++ rest) ≡ byte_bits x
unfolding byte_bits
take_byte x rest = refl

drop_byte : (x : ℕ) (rest : List ℕ) → drop 8 (byte_bits x ++ rest) ≡ rest
unfolding byte_bits
drop_byte x rest = refl

bits_bytes-bytes_bits : (xs : List ℕ) → All IsByte xs → bits_bytes (length xs) (bytes_bits xs) ≡ xs
unfolding bits_bytes bytes_bits
bits_bytes-bytes_bits [] h = refl
bits_bytes-bytes_bits (x ∷ xs) (h, hs) =
    rw
      (
        take_byte x (bytes_bits xs),
        drop_byte x (bytes_bits xs),
        or_bits-byte_bits x h,
        bits_bytes-bytes_bits xs hs,
      )
      refl

length-byte_bits : (x : ℕ) → length (byte_bits x) ≡ 8
unfolding byte_bits
length-byte_bits x = refl

pub length-bytes_bits : (xs : List ℕ) → length (bytes_bits xs) ≡ length xs * 8
unfolding bytes_bits
length-bytes_bits [] = refl
length-bytes_bits (x ∷ xs) =
    omega
      (arith, length-append (byte_bits x) (bytes_bits xs), length-byte_bits x, length-bytes_bits xs)

-- The 256 bits of a value, first the highest bit of the first byte, give the value back.
pub from_bits_msb-to_bits_msb : (v : Value32) → IsValue v → from_bits_msb (to_bits_msb v) ≡ ok v
unfolding from_bits_msb to_bits_msb
from_bits_msb-to_bits_msb v (n, h) =
    rw (length-bytes_bits v.bytes, n)
      (ap (λ (xs : List ℕ). ok (record { bytes = xs }))
        (ap (λ (k : ℕ). bits_bytes k (bytes_bits v.bytes)) (sym n)
          ∙ bits_bytes-bytes_bits v.bytes h))
