-- ===== src/Types/IndexText.antt =====
-- The hexadecimal text of an index: reading undoes writing, and the other way round.
use native.Mathlib.Nat.{pow-suc, pow-le-pow_right, one-le-pow}
use mathlib.Core.List.{append_assoc, append-nil}
use shachain2pc.Base.{
  ℕ, zero, suc, ◌+◌, ◌-◌, ◌*◌, ◌/◌, ◌%◌, ◌^◌, ◌≤◌, ◌<◌, ◌≡◌, refl, ap, ◌∙◌, true, false, not, ◌||◌,
  List, [], ◌∷◌, ◌++◌, map, ltb, ◌==◌, bit_or, length, length-append, replicate, All, All-append,
  ok, ◌>>=◌, >>=-eq-ok, Bool-cases, Result-cases, inl, inr, arith,
}
use shachain2pc.Base.Bits.{◌<<<◌, bit_or_fields, all_below, all_below_sound}
use shachain2pc.Types.Hex.{
  hex_nibble, nibble_hex, to_lower, hex_nibble-nibble_hex, nibble_hex-hex_nibble,
}
use shachain2pc.Types.Index.{
  Index48, IsIndex, max_index, new_index, strip_hex_prefix, read_hex, write_hex, index_from_hex,
  to_hex12,
}

read_hex-append :
    (acc : ℕ) (xs ys : List ℕ) → read_hex acc (xs ++ ys) ≡ (read_hex acc xs >>= λ m. read_hex m ys)
unfolding read_hex
read_hex-append acc [] ys = refl
read_hex-append acc (x ∷ xs) ys = elim (Result-cases (hex_nibble x)) [
  | inl (n, e) ↦ rw e (read_hex-append (bit_or ((acc <<< 4) % 2 ^ 64) n) xs ys)
  | inr (e, h) ↦ rw h refl
]

shift_in : (m d : ℕ) → m * 16 + d < 2 ^ 64 → d < 16 → bit_or ((m <<< 4) % 2 ^ 64) d ≡ m * 16 + d
shift_in m d h k =
    let fits : (m <<< 4) % 2 ^ 64 ≡ m <<< 4 = omega arith in rw fits (bit_or_fields 4 m d k)

read_hex-write_hex :
    (n acc v : ℕ)
    → v < 16 ^ n
    → acc * 16 ^ n + v < 2 ^ 64
    → read_hex acc (write_hex n v) ≡ ok (acc * 16 ^ n + v)
unfolding read_hex write_hex
read_hex-write_hex zero acc v p q = ap ok (omega arith)
read_hex-write_hex (suc n) acc v p q =
    let split : acc * 16 ^ suc n ≡ acc * 16 ^ n * 16 =
      omega (arith, ap (λ (t : ℕ). acc * t) (pow-suc 16 n)) in
    let front : read_hex acc (write_hex n (v / 16)) ≡ ok (acc * 16 ^ n + v / 16) =
      read_hex-write_hex n acc (v / 16) (omega (arith, pow-suc 16 n)) (omega arith) in
    rw
      (
        read_hex-append acc (write_hex n (v / 16)) (nibble_hex (v % 16) ∷ []),
        front,
        hex_nibble-nibble_hex (v % 16) (omega arith),
      )
      (ap ok (shift_in (acc * 16 ^ n + v / 16) (v % 16) (omega arith) (omega arith) ∙ omega arith))

abbrev IsNoX : ℕ → Type 0
IsNoX c = (c == b'x' || c == b'X') ≡ false

no_x_table : all_below 16 (λ n. not (nibble_hex n == b'x' || nibble_hex n == b'X')) ≡ true
unfolding all_below nibble_hex
no_x_table = refl

nibble_hex-IsNoX : (n : ℕ) → n < 16 → IsNoX (nibble_hex n)
nibble_hex-IsNoX n h =
    let t =
      all_below_sound 16 (λ n. not (nibble_hex n == b'x' || nibble_hex n == b'X')) n no_x_table h in
    ground arith

write_hex-IsNoX : (n v : ℕ) → All IsNoX (write_hex n v)
unfolding write_hex
write_hex-IsNoX zero v = tt
write_hex-IsNoX (suc n) v =
    All-append IsNoX (write_hex n (v / 16)) (nibble_hex (v % 16) ∷ []) (write_hex-IsNoX n (v / 16))
      (nibble_hex-IsNoX (v % 16) (omega arith), tt)

strip_hex_prefix_none : (xs : List ℕ) → All IsNoX xs → strip_hex_prefix xs ≡ xs
unfolding strip_hex_prefix
strip_hex_prefix_none [] h = refl
strip_hex_prefix_none (c ∷ []) h = refl
strip_hex_prefix_none (c ∷ d ∷ rest) h =
    let e : (d == b'x' || d == b'X') ≡ false = h.1.0 in ground arith

pub length-write_hex : (n v : ℕ) → length (write_hex n v) ≡ n
unfolding write_hex
length-write_hex zero v = refl
length-write_hex (suc n) v = omega (
  arith,
  length-append (write_hex n (v / 16)) (nibble_hex (v % 16) ∷ []),
  length-write_hex n (v / 16),
)

-- Every index reads back from the twelve digits that `to_hex12` writes.
pub index_from_hex-to_hex12 : (i : Index48) → IsIndex i → index_from_hex (to_hex12 i) ≡ ok i
unfolding index_from_hex to_hex12 new_index
index_from_hex-to_hex12 i h =
    rw
      (
        strip_hex_prefix_none (write_hex 12 i.value) (write_hex-IsNoX 12 i.value),
        length-write_hex 12 i.value,
        read_hex-write_hex 12 0 i.value (omega arith) (omega arith),
      )
      (ground arith)

shift_in_digits :
    (m acc n c : ℕ)
    → n < 16
    → nibble_hex n ≡ to_lower c
    → write_hex (suc m) (acc * 16 + n) ≡ write_hex m acc ++ to_lower c ∷ []
unfolding write_hex
shift_in_digits m acc n c h e =
    let q : (acc * 16 + n) / 16 ≡ acc = omega arith in
    let r : (acc * 16 + n) % 16 ≡ n = omega arith in rw (q, r, e)

-- What reading took in, after `m` digits of `acc`, is written as the same digits in lower case.
write_hex-read_hex :
    (xs : List ℕ) (m acc : ℕ) {r : ℕ}
    → acc < 16 ^ m
    → m + length xs ≤ 16
    → read_hex acc xs ≡ ok r
    → (write_hex (length xs + m) r ≡ write_hex m acc ++ map to_lower xs)
      × (r < 16 ^ (length xs + m))
unfolding read_hex
write_hex-read_hex [] m acc {r} p q e =
    let same : acc ≡ r = cc in
    let z : 0 + m ≡ m = omega arith in
    rw (z, append-nil (write_hex m acc), same) (refl, rw same at p)
write_hex-read_hex (x ∷ xs) m acc {r} p q e =
    let (n, en, er) =
      >>=-eq-ok (hex_nibble x) (λ n. read_hex (bit_or ((acc <<< 4) % 2 ^ 64) n) xs) e in
    let (small, lower) = nibble_hex-hex_nibble x en in
    let bound : acc * 16 + n < 16 ^ suc m = omega (arith, pow-suc 16 m) in
    let top : 16 ^ suc m ≤ 16 ^ 16 = pow-le-pow_right (omega arith) {j = 16} (omega arith) in
    let acc' : bit_or ((acc <<< 4) % 2 ^ 64) n ≡ acc * 16 + n =
      shift_in acc n (omega arith) small in
    let (text, fits) =
      write_hex-read_hex xs (suc m) (acc * 16 + n) bound (omega arith) (rw acc' at er) in
    let move : suc (length xs) + m ≡ length xs + suc m = omega arith in
    rw (move, text, shift_in_digits m acc n x small lower)
      (append_assoc (write_hex m acc) (to_lower x ∷ []) (map to_lower xs), fits)

replicate-snoc : (n a : ℕ) → replicate n a ++ a ∷ [] ≡ a ∷ replicate n a
replicate-snoc zero a = refl
replicate-snoc (suc n) a = ap (◌∷◌ a) (replicate-snoc n a)

write_hex-zero : (n : ℕ) → write_hex n 0 ≡ replicate n b'0'
unfolding write_hex nibble_hex
write_hex-zero zero = refl
write_hex-zero (suc n) = rw (write_hex-zero n) (replicate-snoc n b'0')

new_index-eq-ok : (v : ℕ) {i : Index48} → new_index v ≡ ok i → (i.value ≡ v) × (v ≤ max_index)
unfolding new_index
new_index-eq-ok v e = ground arith

in_length : (n : ℕ) → (n == 0 || ltb 12 n) ≡ false → (1 ≤ n) × (n ≤ 12)
in_length n h = ground arith

-- A text that reads as an index, less its prefix, has 1 to 12 digits, and `to_hex12` writes the
-- same digits in lower case behind zeros.
pub to_hex12-index_from_hex :
    (input : List ℕ) {i : Index48}
    → index_from_hex input ≡ ok i
    → let hex = strip_hex_prefix input in
      IsIndex i
      × (1 ≤ length hex)
      × (length hex ≤ 12)
      × (to_hex12 i ≡ replicate (12 - length hex) b'0' ++ map to_lower hex)
unfolding index_from_hex to_hex12
to_hex12-index_from_hex input {i} e =
    let hex = strip_hex_prefix input in
    elim (Bool-cases (length hex == 0 || ltb 12 (length hex))) [
      | inl bad ↦ absurd (ground arith)
      | inr good ↦
          let (low, high) = in_length (length hex) good in
          let (v, er, en) = >>=-eq-ok (read_hex 0 hex) new_index (rw good at e) in
          let (same, small) = new_index-eq-ok v en in
          let (text, fits) =
            write_hex-read_hex hex (12 - length hex) 0
              (one-le-pow (12 - length hex) 16 (omega arith)) (omega arith) er in
          let twelve : length hex + (12 - length hex) ≡ 12 = omega arith in
          (
            rw same small,
            low,
            high,
            rw same (rw (twelve, write_hex-zero (12 - length hex)) at text),
          )
    ]
