-- ===== src/Flow/Words.antt =====
-- Words as little-endian bytes: what `from_le_bytes` reads of `to_le_bytes`.
use native.Mathlib.Nat.{pow-suc}
use shachain2pc.Base.{
  ℕ, zero, suc, ◌+◌, ◌*◌, ◌/◌, ◌^◌, ◌<◌, ◌≡◌, refl, sym, ap, ◌∙◌, List, [], ◌∷◌, length, arith,
}
use shachain2pc.Flow.Handshake.{le_bytes}

-- `u32::from_le_bytes`.
unfoldable pub le_value : List ℕ → ℕ
le_value [] = 0
le_value (b ∷ bs) = b + le_value bs * 256

pub length-le_bytes : (n v : ℕ) → length (le_bytes n v) ≡ n
unfolding le_bytes
length-le_bytes zero v = refl
length-le_bytes (suc n) v = ap suc (length-le_bytes n (v / 256))

pub le_value-le_bytes : (n v : ℕ) → v < 256 ^ n → le_value (le_bytes n v) ≡ v
unfolding le_value le_bytes
le_value-le_bytes zero v h = omega arith
le_value-le_bytes (suc n) v h =
    let more : 256 ^ suc n ≡ 256 ^ n * 256 = pow-suc 256 n in
    omega (arith, le_value-le_bytes n (v / 256) (omega arith))

pub le_bytes_injective :
    (n v w : ℕ) → v < 256 ^ n → w < 256 ^ n → le_bytes n v ≡ le_bytes n w → v ≡ w
le_bytes_injective n v w p q e =
    sym (le_value-le_bytes n v p) ∙ ap le_value e ∙ le_value-le_bytes n w q
