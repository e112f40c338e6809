-- ===== src/Base/Bits.antt =====
-- Bit operations at variables: one equation for the lowest digit, and what each bit of a result is.
use Prim.Native.Nat.{
  ℕ, zero, suc, ◌+◌, ◌-◌, ◌*◌, ◌/◌, ◌%◌, ◌^◌, ◌≤◌, ◌<◌, min, max, bit_and, bit_or, bit_xor, digits,
  bitwise, bit_and-bitwise, bit_or-bitwise, bit_xor-bitwise, differ,
}
use mathlib.Core.Path.{◌≡◌, refl, ap, ◌∙◌, sym}
use mathlib.Core.Bool.{Bool, true, ◌&&◌}
use native.Mathlib.Nat.{le_refl, pow-suc, div-div-eq-div-mul}
use native.Mathlib.Omega.{arith}

-- Over a small range, check every value by evaluation.
unfoldable pub all_below : ℕ → (ℕ → Bool) → Bool
all_below zero test = true
all_below (suc n) test = test n && all_below n test

pub all_below_sound :
    (bound : ℕ) (test : ℕ → Bool) (v : ℕ) → all_below bound test ≡ true → v < bound → test v ≡ true
unfolding all_below
all_below_sound zero test v passed small = absurd (omega arith)
all_below_sound (suc bound) test v passed small =
    let below = all_below_sound bound test v in ground arith

-- `digits` is the loop behind the native operations: more rounds than the first number needs
-- change nothing.
module _ (base : ℕ → ℕ) (op : ℕ → ℕ → ℕ) where
  spare_round :
      (rounds x y : ℕ) → x ≤ rounds → digits base op (suc rounds) x y ≡ digits base op rounds x y
  spare_round zero zero y enough = refl
  spare_round (suc rounds) zero y enough = refl
  spare_round zero (suc x) y enough = absurd (omega arith)
  spare_round (suc rounds) (suc x) y enough =
      let later = spare_round rounds (suc x / 2) (y / 2) (omega arith) in
      ap (λ (high : ℕ). high * 2 + op (suc x % 2) (y % 2)) later

  exact_rounds : (spare x y : ℕ) → digits base op (spare + x) x y ≡ digits base op x x y
  exact_rounds zero x y = ap (λ (n : ℕ). digits base op n x y) (omega arith)
  exact_rounds (suc spare) x y =
      let sum : suc spare + x ≡ suc (spare + x) = omega arith in
      ap (λ (n : ℕ). digits base op n x y) sum
      ∙ spare_round (spare + x) x y (omega arith)
      ∙ exact_rounds spare x y

  bitwise-halves :
      (x y : ℕ)
      → bitwise base op (suc x) y ≡ bitwise base op (suc x / 2) (y / 2) * 2 + op (suc x % 2) (y % 2)
  bitwise-halves x y =
      let half = suc x / 2 in
      let rounds : x - half + half ≡ x = omega arith in
      ap (λ (n : ℕ). digits base op n half (y / 2) * 2 + op (suc x % 2) (y % 2)) (sym rounds)
      ∙ ap (λ (high : ℕ). high * 2 + op (suc x % 2) (y % 2)) (exact_rounds (x - half) half (y / 2))

pub bit_or_step : (x y : ℕ) → bit_or x y ≡ bit_or (x / 2) (y / 2) * 2 + max (x % 2) (y % 2)
bit_or_step zero y = simp bit_or-bitwise (omega arith)
bit_or_step (suc x) y = simp bit_or-bitwise (bitwise-halves (λ low. low) max x y)

pub bit_and_step : (x y : ℕ) → bit_and x y ≡ bit_and (x / 2) (y / 2) * 2 + min (x % 2) (y % 2)
bit_and_step zero y = simp bit_and-bitwise (omega arith)
bit_and_step (suc x) y = simp bit_and-bitwise (bitwise-halves (λ low. 0) min x y)

differ-eq-add_mod : (x y : ℕ) → x < 2 → y < 2 → differ x y ≡ (x + y) % 2
differ-eq-add_mod zero y p q = omega arith
differ-eq-add_mod (suc zero) zero p q = refl
differ-eq-add_mod (suc zero) (suc zero) p q = refl
differ-eq-add_mod (suc zero) (suc (suc y)) p q = absurd (omega arith)
differ-eq-add_mod (suc (suc x)) y p q = absurd (omega arith)

pub bit_xor_step : (a b : ℕ) → bit_xor a b ≡ bit_xor (a / 2) (b / 2) * 2 + (a % 2 + b % 2) % 2
bit_xor_step zero b = simp bit_xor-bitwise (omega arith)
bit_xor_step (suc a) b = simp bit_xor-bitwise (
    omega (
      arith,
      bitwise-halves (λ low. low) differ a b,
      differ-eq-add_mod (suc a % 2) (b % 2) (omega arith) (omega arith),
    ))

infixl 75 ◌<<<◌ ◌>>>◌
abbrev pub ◌<<<◌ : ℕ → ℕ → ℕ
x <<< k = x * 2 ^ k

abbrev pub ◌>>>◌ : ℕ → ℕ → ℕ
x >>> k = x / 2 ^ k

-- Bit `k` of `v`: `(v >> k) & 1`.
unfoldable pub bit_at : ℕ → ℕ → ℕ
bit_at v k = v / 2 ^ k % 2

pub bit_at-zero : (v : ℕ) → bit_at v 0 ≡ v % 2
unfolding bit_at
bit_at-zero v = omega arith

pub bit_at-suc : (v k : ℕ) → bit_at v (suc k) ≡ bit_at (v / 2) k
unfolding bit_at
bit_at-suc v k =
    rw (div-div-eq-div-mul v 2 (2 ^ k)) (ap (λ (t : ℕ). v / t % 2) (omega (arith, pow-suc 2 k)))

pub bit_at-lt : (v k : ℕ) → bit_at v k < 2
unfolding bit_at
bit_at-lt v k = omega arith

half_and : (a b : ℕ) → bit_and a b / 2 ≡ bit_and (a / 2) (b / 2)
half_and a b = omega (arith, bit_and_step a b)

half_xor : (a b : ℕ) → bit_xor a b / 2 ≡ bit_xor (a / 2) (b / 2)
half_xor a b = omega (arith, bit_xor_step a b)

pub bit_at-bit_and : (k a b : ℕ) → bit_at (bit_and a b) k ≡ min (bit_at a k) (bit_at b k)
bit_at-bit_and zero a b =
    rw (bit_at-zero (bit_and a b), bit_at-zero a, bit_at-zero b) (omega (arith, bit_and_step a b))
bit_at-bit_and (suc k) a b =
    rw (bit_at-suc (bit_and a b) k, bit_at-suc a k, bit_at-suc b k, half_and a b)
      (bit_at-bit_and k (a / 2) (b / 2))

pub bit_at-bit_xor : (k a b : ℕ) → bit_at (bit_xor a b) k ≡ (bit_at a k + bit_at b k) % 2
bit_at-bit_xor zero a b =
    rw (bit_at-zero (bit_xor a b), bit_at-zero a, bit_at-zero b) (omega (arith, bit_xor_step a b))
bit_at-bit_xor (suc k) a b =
    rw (bit_at-suc (bit_xor a b) k, bit_at-suc a k, bit_at-suc b k, half_xor a b)
      (bit_at-bit_xor k (a / 2) (b / 2))

-- A number below `2 ^ n` is given by its lowest `n` bits.
pub bits_ext :
    (n v w : ℕ) → v < 2 ^ n → w < 2 ^ n → ((k : ℕ) → k < n → bit_at v k ≡ bit_at w k) → v ≡ w
bits_ext zero v w p q h = omega arith
bits_ext (suc n) v w p q h = omega (
  arith,
  pow-suc 2 n,
  h 0 (omega arith),
  bit_at-zero v,
  bit_at-zero w,
  bits_ext n (v / 2) (w / 2) (omega (arith, pow-suc 2 n)) (omega (arith, pow-suc 2 n))
      (λ k l. sym (bit_at-suc v k) ∙ h (suc k) (omega arith) ∙ bit_at-suc w k),
)

-- With 0: by the halves of the other number, of which there are not more than `n`.
and_below : (n v : ℕ) → v ≤ n → bit_and v 0 ≡ 0
and_below n zero small = refl
and_below zero (suc v) small = absurd (omega arith)
and_below (suc n) (suc v) small =
    omega (arith, and_below n (suc v / 2) (omega arith), bit_and_step (suc v) 0)

or_below : (n v : ℕ) → v ≤ n → bit_or v 0 ≡ v
or_below n zero small = refl
or_below zero (suc v) small = absurd (omega arith)
or_below (suc n) (suc v) small =
    omega (arith, or_below n (suc v / 2) (omega arith), bit_or_step (suc v) 0)

xor_below : (n v : ℕ) → v ≤ n → bit_xor v 0 ≡ v
xor_below n zero small = refl
xor_below zero (suc v) small = absurd (omega arith)
xor_below (suc n) (suc v) small =
    omega (arith, xor_below n (suc v / 2) (omega arith), bit_xor_step (suc v) 0)

pub bit_and-zero : (v : ℕ) → bit_and v 0 ≡ 0
bit_and-zero v = and_below v v (le_refl v)

pub bit_or-zero : (v : ℕ) → bit_or v 0 ≡ v
bit_or-zero v = or_below v v (le_refl v)

pub bit_xor-zero : (v : ℕ) → bit_xor v 0 ≡ v
bit_xor-zero v = xor_below v v (le_refl v)

pub bit_xor-lt : (n a b : ℕ) → a < 2 ^ n → b < 2 ^ n → bit_xor a b < 2 ^ n
bit_xor-lt zero zero zero p q = omega arith
bit_xor-lt zero (suc a) b p q = absurd (omega arith)
bit_xor-lt zero a (suc b) p q = absurd (omega arith)
bit_xor-lt (suc n) a b p q =
    let twice : 2 ^ suc n ≡ 2 ^ n * 2 = pow-suc 2 n in
    omega (arith, bit_xor_step a b, bit_xor-lt n (a / 2) (b / 2) (omega arith) (omega arith))

pub bit_and-one : (v : ℕ) → bit_and v 1 ≡ v % 2
bit_and-one v = let rest = bit_and-zero (v / 2) in omega (arith, bit_and_step v 1)

-- `x ^ y ^ y` is `x`, at every width.
pub bit_xor-bit_xor : (n a b : ℕ) → b ≤ n → bit_xor (bit_xor a b) b ≡ a
bit_xor-bit_xor n a zero h = rw (bit_xor-zero a, bit_xor-zero a)
bit_xor-bit_xor zero a (suc b) h = absurd (omega arith)
bit_xor-bit_xor (suc n) a (suc b) h = omega (
  arith,
  bit_xor_step (bit_xor a (suc b)) (suc b),
  bit_xor_step a (suc b),
  ap (λ (t : ℕ). bit_xor t (suc b / 2)) (half_xor a (suc b)),
  bit_xor-bit_xor n (a / 2) (suc b / 2) (omega arith),
)

-- `(q << k) | r` is a sum when `r` fits `k` bits.
pub bit_or_fields : (k q r : ℕ) → r < 2 ^ k → bit_or (q <<< k) r ≡ q * 2 ^ k + r
bit_or_fields zero high low small =
    let same = bit_or-zero high in let none_low : low ≡ 0 = omega arith in ground arith
bit_or_fields (suc k) high low small =
    let twice : 2 ^ suc k ≡ 2 ^ k * 2 = pow-suc 2 k in
    let shifted : high * 2 ^ suc k ≡ 2 * (high * 2 ^ k) =
      ap (λ (p : ℕ). high * p) twice ∙ grind arith in
    let rest = bit_or_fields k high (low / 2) (omega arith) in
    let lowest = bit_or_step (high * 2 ^ suc k) low in ground arith
