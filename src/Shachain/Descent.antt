-- ===== src/Shachain/Descent.antt =====
-- The set bits of a word in descending order, and what the bits of the words in
-- derive_from_known are.
use native.Mathlib.Nat.{pow-suc, div-div-eq-div-mul, div-eq_of_lt, pow-le-pow_right}
use native.Mathlib.Decide.{dec_lt}
use shachain2pc.Base.{
  ℕ, zero, suc, ◌+◌, ◌-◌, ◌*◌, ◌/◌, ◌%◌, ◌^◌, ◌≤◌, ◌<◌, ◌≡◌, ◌≢◌, refl, sym, ap, ◌∙◌, [], ◌++◌,
  true, ltb, ◌==◌, ==_iff, if◌then◌else◌, bit_and, Bool-cases, inl, inr, arith,
}
use shachain2pc.Base.Bits.{
  ◌>>>◌, bit_at, bit_at-zero, bit_at-suc, bit_at-lt, bit_at-bit_and, bit_at-bit_xor, bit_and-one,
  all_below, all_below_sound,
}
use shachain2pc.Shachain.{bits_below, trailing_zeros, not_u64}

-- The test of the loops reads bit `b`.
pub bit_and-shift : (v b : ℕ) → bit_and (v >>> b) 1 ≡ bit_at v b
unfolding bit_at
bit_and-shift v b = bit_and-one (v / 2 ^ b)

bits_below-ext :
    (n v w : ℕ) → ((b : ℕ) → b < n → bit_at v b ≡ bit_at w b) → bits_below n v ≡ bits_below n w
unfolding bits_below
bits_below-ext zero v w h = refl
bits_below-ext (suc n) v w h =
    rw
      (
        bit_and-shift v n,
        bit_and-shift w n,
        h n (omega arith),
        bits_below-ext n v w (λ b l. h b (omega arith)),
      )
      refl

pub bits_below-zeros : (n v : ℕ) → ((b : ℕ) → b < n → bit_at v b ≡ 0) → bits_below n v ≡ []
unfolding bits_below
bits_below-zeros zero v h = refl
bits_below-zeros (suc n) v h =
    rw (bit_and-shift v n, h n (omega arith)) (bits_below-zeros n v (λ b l. h b (omega arith)))

-- A word cut at bit `k`: `low` holds the bits below, `high` those from `k` on.
pub record IsCut (n k v high low : ℕ) : Type 0 where
  pub above : (b : ℕ) → b < n → k ≤ b → (bit_at high b ≡ bit_at v b) × (bit_at low b ≡ 0)
  pub below : (b : ℕ) → b < n → b < k → (bit_at high b ≡ 0) × (bit_at low b ≡ bit_at v b)

pub IsCut-shrink : {n k v high low : ℕ} → IsCut (suc n) k v high low → IsCut n k v high low
IsCut-shrink c = record {
  above = λ b l. c.above b (omega arith);
  below = λ b l. c.below b (omega arith);
}

-- The bits of the high part come before those of the low part.
pub bits_below-IsCut :
    (n k v high low : ℕ)
    → IsCut n k v high low
    → bits_below n v ≡ bits_below n high ++ bits_below n low
unfolding bits_below
bits_below-IsCut zero k v high low c = refl
bits_below-IsCut (suc n) k v high low c = elim (dec_lt n k) [
  | yes l ↦
      let none_high : bits_below (suc n) high ≡ [] =
        bits_below-zeros (suc n) high (λ b h. (c.below b h (omega arith)).0) in
      let same : bits_below (suc n) low ≡ bits_below (suc n) v =
        bits_below-ext (suc n) low v (λ b h. (c.below b h (omega arith)).1) in
      rw none_high (sym same)
  | no g ↦
      let (e, z) = c.above n (omega arith) (omega arith) in
      rw
        (
          bit_and-shift v n,
          bit_and-shift high n,
          bit_and-shift low n,
          e,
          z,
          bits_below-IsCut n k v high low (IsCut-shrink c),
        )
        (elim (Bool-cases (bit_at v n == 0)) [ inl t ↦ rw t refl | inr t ↦ rw t refl ])
]

ones_table : all_below 64 (λ b. bit_at (2 ^ 64 - 1) b == 1) ≡ true
unfolding all_below bit_at
ones_table = refl

bit_at-not_u64 : (v b : ℕ) → b < 64 → bit_at (not_u64 v) b ≡ (bit_at v b + 1) % 2
unfolding not_u64
bit_at-not_u64 v b h =
    let one : bit_at (2 ^ 64 - 1) b ≡ 1 =
      (==_iff _ _).0 (all_below_sound 64 (λ b. bit_at (2 ^ 64 - 1) b == 1) b ones_table h) in
    bit_at-bit_xor b v (2 ^ 64 - 1) ∙ ap (λ (t : ℕ). (bit_at v b + t) % 2) one

-- `a & !b`.
pub bit_at-and_not :
    (a b k : ℕ) → k < 64 → bit_at (bit_and a (not_u64 b)) k ≡ bit_at a k - bit_at b k
bit_at-and_not a b k h =
    omega
      (arith, bit_at-bit_and k a (not_u64 b), bit_at-not_u64 b k h, bit_at-lt a k, bit_at-lt b k)

pub zero-bit_at : (b : ℕ) → bit_at 0 b ≡ 0
zero-bit_at zero = bit_at-zero 0
zero-bit_at (suc b) = bit_at-suc 0 b ∙ zero-bit_at b

pub shift-shift : (v k : ℕ) → v / 2 ^ suc k ≡ v / 2 / 2 ^ k
shift-shift v k =
    ap (λ (t : ℕ). v / t) (omega (arith, pow-suc 2 k)) ∙ sym (div-div-eq-div-mul v 2 (2 ^ k))

pub bit_at-shift : (k v j : ℕ) → bit_at (v / 2 ^ k) j ≡ bit_at v (k + j)
bit_at-shift zero v j = ap (λ (t : ℕ). bit_at t j) (omega arith) ∙ ap (bit_at v) (omega arith)
bit_at-shift (suc k) v j =
    let e : suc k + j ≡ suc (k + j) = omega arith in
    rw (e, bit_at-suc v (k + j), shift-shift v k) (bit_at-shift k (v / 2) j)

trailing_zeros-suc :
    (w v : ℕ) → v % 2 ≡ 0 → trailing_zeros (suc w) v ≡ suc (trailing_zeros w (v / 2))
unfolding trailing_zeros
trailing_zeros-suc w v h = rw h refl

trailing_zeros-odd : (w v : ℕ) → v % 2 ≡ 1 → trailing_zeros (suc w) v ≡ 0
unfolding trailing_zeros
trailing_zeros-odd w v h = rw h refl

pub trailing_zeros-below : (w v b : ℕ) → b < trailing_zeros w v → bit_at v b ≡ 0
trailing_zeros-below zero v b h = absurd (unfold trailing_zeros in omega arith)
trailing_zeros-below (suc w) v zero h = elim (dec_lt (v % 2) 1) [
  | yes even ↦ rw (bit_at-zero v) (omega arith)
  | no odd ↦ absurd (omega (arith, trailing_zeros-odd w v (omega arith)))
]
trailing_zeros-below (suc w) v (suc b) h = elim (dec_lt (v % 2) 1) [
  | yes even ↦
      rw (bit_at-suc v b)
        (trailing_zeros-below w (v / 2) b (omega (arith, trailing_zeros-suc w v (omega arith))))
  | no odd ↦ absurd (omega (arith, trailing_zeros-odd w v (omega arith)))
]

pub trailing_zeros-top : (w v : ℕ) → v ≢ 0 → v < 2 ^ w → bit_at v (trailing_zeros w v) ≡ 1
trailing_zeros-top zero v n h = absurd (n (omega arith))
trailing_zeros-top (suc w) v n h = elim (dec_lt (v % 2) 1) [
  | yes even ↦
      rw (trailing_zeros-suc w v (omega arith), bit_at-suc v (trailing_zeros w (v / 2)))
        (trailing_zeros-top w (v / 2) (λ z. n (omega arith)) (omega (arith, pow-suc 2 w)))
  | no odd ↦ rw (trailing_zeros-odd w v (omega arith), bit_at-zero v) (omega arith)
]

pub bit_at_high : (n v k : ℕ) → v < 2 ^ n → n ≤ k → bit_at v k ≡ 0
unfolding bit_at
bit_at_high n v k h l =
    let z : v / 2 ^ k ≡ 0 =
      div-eq_of_lt (omega (arith, pow-le-pow_right {n = 2} (omega arith) {i = n} {j = k} l)) in
    rw z refl

pub zero_of_bits : (n v : ℕ) → v ≤ n → ((k : ℕ) → bit_at v k ≡ 0) → v ≡ 0
zero_of_bits n zero l h = refl
zero_of_bits zero (suc v) l h = absurd (omega arith)
zero_of_bits (suc n) (suc v) l h = omega (
  arith,
  h 0,
  bit_at-zero (suc v),
  zero_of_bits n (suc v / 2) (omega arith) (λ k. sym (bit_at-suc (suc v) k) ∙ h (suc k)),
)

-- `v` with the bits below `k` cleared.
unfoldable pub clear_below : ℕ → ℕ → ℕ
clear_below k v = v / 2 ^ k * 2 ^ k

clear_below-suc : (k v : ℕ) → clear_below (suc k) v ≡ clear_below k (v / 2) * 2
unfolding clear_below
clear_below-suc k v = omega (
  arith,
  ap (λ (t : ℕ). t * 2 ^ suc k) (shift-shift v k),
  ap (λ (t : ℕ). v / 2 / 2 ^ k * t) (pow-suc 2 k),
)

pub bit_at-clear_below :
    (k v b : ℕ) → bit_at (clear_below k v) b ≡ (if ltb b k then 0 else bit_at v b)
bit_at-clear_below zero v b =
    let whole : clear_below 0 v ≡ v = unfold clear_below in omega arith in rw whole (ground arith)
bit_at-clear_below (suc k) v zero =
    rw (clear_below-suc k v, bit_at-zero (clear_below k (v / 2) * 2)) (ground arith)
bit_at-clear_below (suc k) v (suc b) =
    let half : clear_below k (v / 2) * 2 / 2 ≡ clear_below k (v / 2) = omega arith in
    rw
      (
        clear_below-suc k v,
        bit_at-suc (clear_below k (v / 2) * 2) b,
        half,
        bit_at-suc v b,
        bit_at-clear_below k (v / 2) b,
      )
      (ground arith)
