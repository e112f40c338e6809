-- ===== src/Circuit/Builder/Digest.antt =====
-- The derivation circuit computes generate_from_seed of the xor of the shares.
use shachain2pc.Base.{
  ℕ, zero, suc, ◌+◌, ◌-◌, ◌*◌, ◌/◌, ◌%◌, ◌^◌, ◌<◌, ◌≡◌, refl, sym, ap, ◌∙◌, List, [], ◌∷◌, ◌++◌,
  length, length-set, get_or, set, All, bit_and, bit_xor, ok, ltb, ltb→lt, true, arith,
}
use shachain2pc.Base.Bits.{
  ◌<<<◌, ◌>>>◌, bit_at, bit_at-lt, bit_at-bit_xor, bit_and-one, bit_xor-zero, all_below,
  all_below_sound,
}
use shachain2pc.Base.Reads.{All-set, All-get_or}
use shachain2pc.Types.Value.{
  Value32, IsValue, IsByte, xor_bytes, byte_bits, bytes_bits, to_bits_msb,
}
use shachain2pc.Types.ValueText.{length-bytes_bits}
use shachain2pc.Shachain.{flip_bit, derive_bit, derive_bits}
use shachain2pc.Circuit.Bristol.{Circuit, eval_bristol}
use shachain2pc.Circuit.Builder.{flip_bit_index, msb_bit_index, padding_bits}
use shachain2pc.Circuit.Builder.Ready.{Below}
use shachain2pc.Circuit.Builder.Chain.{IsCompression, flip_at, hash_bit, hash_bits}
use shachain2pc.Circuit.Builder.Finish.{IsBit}
use shachain2pc.Circuit.Builder.Derivation.{IsRow}

xor_of_bits : (u v : ℕ) → u < 2 → v < 2 → (u + v) % 2 ≡ bit_xor u v
xor_of_bits zero zero p q = refl
xor_of_bits zero (suc zero) p q = refl
xor_of_bits (suc zero) zero p q = refl
xor_of_bits (suc zero) (suc zero) p q = refl
xor_of_bits zero (suc (suc v)) p q = absurd (omega arith)
xor_of_bits (suc zero) (suc (suc v)) p q = absurd (omega arith)
xor_of_bits (suc (suc u)) v p q = absurd (omega arith)

-- A bit of an xor.
xor_digit :
    (x y k : ℕ)
    → bit_and (bit_xor x y >>> k) 1 ≡ bit_xor (bit_and (x >>> k) 1) (bit_and (y >>> k) 1)
unfolding bit_at
xor_digit x y k =
    rw (bit_and-one (bit_xor x y >>> k), bit_and-one (x >>> k), bit_and-one (y >>> k))
      (bit_at-bit_xor k x y ∙ xor_of_bits (bit_at x k) (bit_at y k) (bit_at-lt x k) (bit_at-lt y k))

xor_byte :
    (x y : ℕ) (xs ys : List ℕ)
    → byte_bits (bit_xor x y) ++ xor_bytes xs ys ≡ xor_bytes (byte_bits x ++ xs) (byte_bits y ++ ys)
unfolding byte_bits xor_bytes
xor_byte x y xs ys = simp (xor_digit) refl

pub bytes_bits-xor_bytes :
    (xs ys : List ℕ)
    → length xs ≡ length ys
    → bytes_bits (xor_bytes xs ys) ≡ xor_bytes (bytes_bits xs) (bytes_bits ys)
unfolding bytes_bits xor_bytes
bytes_bits-xor_bytes [] [] e = refl
bytes_bits-xor_bytes [] (y ∷ ys) e = absurd (omega arith)
bytes_bits-xor_bytes (x ∷ xs) [] e = absurd (omega arith)
bytes_bits-xor_bytes (x ∷ xs) (y ∷ ys) e =
    ap (λ (l : List ℕ). byte_bits (bit_xor x y) ++ l) (bytes_bits-xor_bytes xs ys (omega arith))
    ∙ xor_byte x y (bytes_bits xs) (bytes_bits ys)

-- `1u8 << k`.
abbrev one_at : ℕ → ℕ
one_at k = (1 <<< k) % 2 ^ 8

flip_in_byte :
    (k x : ℕ) (rest : List ℕ)
    → k < 8
    → byte_bits (bit_xor x (one_at k)) ++ rest ≡ flip_at (7 - k) (byte_bits x ++ rest)
unfolding byte_bits
flip_in_byte zero x rest h = simp (xor_digit, bit_xor-zero) refl
flip_in_byte (suc zero) x rest h = simp (xor_digit, bit_xor-zero) refl
flip_in_byte (suc (suc zero)) x rest h = simp (xor_digit, bit_xor-zero) refl
flip_in_byte (suc (suc (suc zero))) x rest h = simp (xor_digit, bit_xor-zero) refl
flip_in_byte (suc (suc (suc (suc zero)))) x rest h = simp (xor_digit, bit_xor-zero) refl
flip_in_byte (suc (suc (suc (suc (suc zero))))) x rest h = simp (xor_digit, bit_xor-zero) refl
flip_in_byte (suc (suc (suc (suc (suc (suc zero)))))) x rest h = simp (xor_digit, bit_xor-zero) refl
flip_in_byte (suc (suc (suc (suc (suc (suc (suc zero))))))) x rest h =
    simp (xor_digit, bit_xor-zero) refl
flip_in_byte (suc (suc (suc (suc (suc (suc (suc (suc k)))))))) x rest h = absurd (omega arith)

flip_later_byte :
    (i x : ℕ) (rest : List ℕ)
    → flip_at (8 + i) (byte_bits x ++ rest) ≡ byte_bits x ++ flip_at i rest
unfolding byte_bits
flip_later_byte i x rest =
    let eight : 8 + i ≡ suc (suc (suc (suc (suc (suc (suc (suc i))))))) = omega arith in
    rw eight refl

flip_in_bytes :
    (xs : List ℕ) (j k : ℕ)
    → k < 8
    → j < length xs
    → bytes_bits (set xs j (bit_xor (get_or xs j 0) (one_at k)))
      ≡ flip_at (8 * j + (7 - k)) (bytes_bits xs)
unfolding bytes_bits
flip_in_bytes [] j k h l = absurd (omega arith)
flip_in_bytes (x ∷ xs) zero k h l =
    flip_in_byte k x (bytes_bits xs) h
    ∙ ap (λ (i : ℕ). flip_at i (byte_bits x ++ bytes_bits xs)) (omega arith)
flip_in_bytes (x ∷ xs) (suc j) k h l =
    ap (λ (r : List ℕ). byte_bits x ++ r) (flip_in_bytes xs j k h (omega arith))
    ∙ sym (flip_later_byte (8 * j + (7 - k)) x (bytes_bits xs))
    ∙ ap (λ (i : ℕ). flip_at i (byte_bits x ++ bytes_bits xs)) (omega arith)

bytes_bits-flip_bit :
    (bit : ℕ) (p : List ℕ)
    → bit < 8 * length p
    → bytes_bits (flip_bit bit p) ≡ flip_at (flip_bit_index bit) (bytes_bits p)
unfolding flip_bit flip_bit_index msb_bit_index
bytes_bits-flip_bit bit p h = flip_in_bytes p (bit / 8) (bit % 8) (omega arith) (omega arith)

xor_table : all_below 8 (λ k. all_below 256 (λ x. ltb (bit_xor x (one_at k)) 256)) ≡ true
unfolding all_below
xor_table = refl

xor_one_at-IsByte : (k x : ℕ) → k < 8 → IsByte x → IsByte (bit_xor x (one_at k))
xor_one_at-IsByte k x h l = ltb→lt _ _ (
    all_below_sound 256 (λ y. ltb (bit_xor y (one_at k)) 256) x
      (all_below_sound 8 (λ j. all_below 256 (λ y. ltb (bit_xor y (one_at j)) 256)) k xor_table h)
      l)

abbrev pub value_of : List ℕ → Value32
value_of xs = record { bytes = xs }

flip_bit-IsValue :
    (bit : ℕ) (p : List ℕ) → bit < 256 → IsValue (value_of p) → IsValue (value_of (flip_bit bit p))
unfolding flip_bit
flip_bit-IsValue bit p h (len, small) = (
  length-set p (bit / 8) _ ∙ len,
  All-set IsByte p (bit / 8) _ small (
      xor_one_at-IsByte (bit % 8) (get_or p (bit / 8) 0) (omega arith)
        (All-get_or IsByte p (bit / 8) 0 small (omega (arith, len)))),
)

bytes_bits-IsBit : (xs : List ℕ) → All IsBit (bytes_bits xs)
unfolding bytes_bits byte_bits
bytes_bits-IsBit [] = tt
bytes_bits-IsBit (x ∷ xs) =
    (bit 7, (bit 6, (bit 5, (bit 4, (bit 3, (bit 2, (bit 1, (bit 0, bytes_bits-IsBit xs))))))))
  where
    bit : (k : ℕ) → bit_and (x >>> k) 1 < 2
    bit k = omega (arith, bit_and-one (x >>> k))

pub to_bits_msb-IsRow : (v : Value32) → IsValue v → IsRow (to_bits_msb v)
unfolding to_bits_msb
to_bits_msb-IsRow v h = (omega (arith, length-bytes_bits v.bytes, h.0), bytes_bits-IsBit v.bytes)

-- The gadget computes the digest of 32 bytes: its inputs are their bits and those of the padding.
pub record Computes (sha : Circuit) (digest : List ℕ → List ℕ) : Type 0 where
  pub compression : IsCompression sha
  pub digest_value : (v : Value32) → IsValue v → IsValue (record { bytes = digest v.bytes })
  pub evaluates :
      (v : Value32)
      → IsValue v
      → eval_bristol sha (to_bits_msb v ++ padding_bits) ≡ ok (bytes_bits (digest v.bytes))

module _ (sha : Circuit) (digest : List ℕ → List ℕ) (g : Computes sha digest) where
  pub hash_bits-derive_bits :
      (bits p : List ℕ)
      → All (Below 48) bits
      → IsValue (value_of p)
      → hash_bits sha bits (bytes_bits p) ≡ ok (bytes_bits (derive_bits digest bits p))
  unfolding hash_bits hash_bit derive_bits derive_bit to_bits_msb
  hash_bits-derive_bits [] p h v = refl
  hash_bits-derive_bits (bit ∷ bits) p h v =
      let flipped = flip_bit-IsValue bit p (omega (arith, h.0)) v in
      let same = bytes_bits-flip_bit bit p (omega (arith, h.0, v.0)) in
      rw (sym same, g.evaluates (value_of (flip_bit bit p)) flipped)
        (hash_bits-derive_bits bits (digest (flip_bit bit p)) h.1
          (g.digest_value (value_of (flip_bit bit p)) flipped))
