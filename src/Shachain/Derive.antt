-- ===== src/Shachain/Derive.antt =====
-- derive_from_known against generate_from_seed: when a known secret gives another one, and which.
use native.Mathlib.Nat.{le_refl, div-mul-le_self}
use native.Mathlib.Decide.{dec_lt, ℕ_discrete}
use shachain2pc.Base.{
  ℕ, zero, suc, ◌+◌, ◌-◌, ◌^◌, ◌≤◌, ◌<◌, ◌≡◌, ◌↔◌, refl, sym, ap, ◌∙◌, ◌⊎◌, List, [], ◌∷◌, ◌++◌,
  ltb, ◌==◌, if◌then◌else◌, bit_and, max, Bool-cases, inl, inr, some, arith,
}
use shachain2pc.Base.Bits.{◌>>>◌, bit_at, bit_at-bit_and, bits_ext}
use shachain2pc.Types.Index.{Index48, IsIndex}
use shachain2pc.Types.Value.{Value32}
use shachain2pc.Shachain.{
  bits_below, set_bits_desc, trailing_zeros, not_u64, derive_bit, generate_below,
  generate_from_seed, derive_bits, derive_from_known,
}
use shachain2pc.Shachain.Descent.{
  IsCut, bits_below-IsCut, bit_at-and_not, bit_at-shift, zero-bit_at, trailing_zeros-below,
  trailing_zeros-top, bit_at_high, zero_of_bits, clear_below, bit_at-clear_below,
}

abbrev missing_of : ℕ → ℕ → ℕ
missing_of from to = bit_and to (not_u64 from)

-- What the two tests of `derive_from_known` say of the bits: `from` is `to` with the bits below
-- some `k` cleared.
abbrev IsPrefix : ℕ → ℕ → ℕ → Type 0
IsPrefix k from to = (b : ℕ) → b < 48 → bit_at from b ≡ (if ltb b k then 0 else bit_at to b)

-- `from_index` has no bit that `to_index` lacks.
subset_bits : (from to b : ℕ) → b < 64 → bit_and from (not_u64 to) ≡ 0 → bit_at from b ≤ bit_at to b
subset_bits from to b h e =
    omega (arith, bit_at-and_not from to b h, ap (λ (t : ℕ). bit_at t b) e, zero-bit_at b)

missing_bits_high :
    (from to t b : ℕ) → missing_of from to >>> t ≡ 0 → t ≤ b → bit_at (missing_of from to) b ≡ 0
missing_bits_high from to t b e h =
    let split : t + (b - t) ≡ b = omega arith in
    sym (ap (bit_at (missing_of from to)) split)
    ∙ sym (bit_at-shift t (missing_of from to) (b - t))
    ∙ ap (λ (m : ℕ). bit_at m (b - t)) e
    ∙ zero-bit_at (b - t)

-- A cut at `k` of `to_index` into `from_index` and the missing bits.
IsPrefix-IsCut : (k from to : ℕ) → IsPrefix k from to → IsCut 48 k to from (missing_of from to)
IsPrefix-IsCut k from to p = record {
  above = λ b l h.
      (ground (arith, p b l), ground (arith, p b l, bit_at-and_not to from b (omega arith)));
  below = λ b l h.
      (ground (arith, p b l), ground (arith, p b l, bit_at-and_not to from b (omega arith)));
}

module _ (digest : List ℕ → List ℕ) where
  derive_bits-append :
      (xs ys : List ℕ) (p : List ℕ)
      → derive_bits digest (xs ++ ys) p ≡ derive_bits digest ys (derive_bits digest xs p)
  unfolding derive_bits
  derive_bits-append [] ys p = refl
  derive_bits-append (x ∷ xs) ys p = derive_bits-append xs ys (derive_bit digest x p)

  -- `generate_from_seed` derives by the set bits of the index, the highest first.
  pub generate_below-eq-derive_bits :
      (n index : ℕ) (p : List ℕ)
      → generate_below digest n index p ≡ derive_bits digest (bits_below n index) p
  unfolding generate_below bits_below derive_bits
  generate_below-eq-derive_bits zero index p = refl
  generate_below-eq-derive_bits (suc n) index p = elim (Bool-cases (bit_and (index >>> n) 1 == 0)) [
    | inl t ↦ rw t (generate_below-eq-derive_bits n index p)
    | inr t ↦ rw t (generate_below-eq-derive_bits n index (derive_bit digest n p))
  ]

  generate_IsPrefix :
      (k from to : ℕ) (p : List ℕ)
      → IsPrefix k from to
      → derive_bits digest (bits_below 48 (missing_of from to)) (generate_below digest 48 from p)
        ≡ generate_below digest 48 to p
  generate_IsPrefix k from to p h =
      rw
        (
          generate_below-eq-derive_bits 48 from p,
          generate_below-eq-derive_bits 48 to p,
          bits_below-IsCut 48 k to from (missing_of from to) (IsPrefix-IsCut k from to h),
        )
        (sym (derive_bits-append (bits_below 48 from) (bits_below 48 (missing_of from to)) p))

-- The value that a successful call returns, and what the tests established.
derive_from_known-inv :
    (digest : List ℕ → List ℕ) (from : ℕ) (secret : Value32) (to : ℕ) {x : Value32}
    → derive_from_known digest from secret to ≡ some x
    → (bit_and from (not_u64 to) ≡ 0)
      × ((from ≡ 0) ⊎ (missing_of from to >>> trailing_zeros 64 from ≡ 0))
      × (x.bytes ≡ derive_bits digest (set_bits_desc (missing_of from to)) secret.bytes)
unfolding derive_from_known
derive_from_known-inv digest from secret to e = ground arith

derive_from_known_lem :
    (digest : List ℕ → List ℕ) (from : ℕ) (secret : Value32) (to : ℕ)
    → bit_and from (not_u64 to) ≡ 0
    → (from ≡ 0) ⊎ (missing_of from to >>> trailing_zeros 64 from ≡ 0)
    → derive_from_known digest from secret to
      ≡ some
          (record { bytes = derive_bits digest (bits_below 48 (missing_of from to)) secret.bytes })
unfolding derive_from_known set_bits_desc
derive_from_known_lem digest from secret to sub (inl z) = rw (sub, z) refl
derive_from_known_lem digest from secret to sub (inr gone) =
    rw (sub, gone) (elim (Bool-cases (from == 0)) [ inl t ↦ rw t refl | inr t ↦ rw t refl ])

IsPrefix-of_tests :
    (from to : ℕ)
    → bit_and from (not_u64 to) ≡ 0
    → (from ≡ 0) ⊎ (missing_of from to >>> trailing_zeros 64 from ≡ 0)
    → (k : ℕ) × IsPrefix k from to
IsPrefix-of_tests from to sub (inl z) =
    (48, λ b l. ground (arith, ap (λ (t : ℕ). bit_at t b) z, zero-bit_at b))
IsPrefix-of_tests from to sub (inr gone) =
    let t = trailing_zeros 64 from in
    (
      t,
      λ b l. ground (
        arith,
        trailing_zeros-below 64 from b,
        missing_bits_high from to t b gone,
        subset_bits from to b (omega arith) sub,
        bit_at-and_not to from b (omega arith),
      ),
    )

and_not-high : (a b k : ℕ) → a < 2 ^ 48 → 48 ≤ k → bit_at (bit_and a (not_u64 b)) k ≡ 0
and_not-high a b k h l = omega (arith, bit_at-bit_and k a (not_u64 b), bit_at_high 48 a k h l)

tests_of_IsPrefix :
    (k from to : ℕ)
    → from < 2 ^ 48
    → to < 2 ^ 48
    → IsPrefix k from to
    → (bit_and from (not_u64 to) ≡ 0)
      × ((from ≡ 0) ⊎ (missing_of from to >>> trailing_zeros 64 from ≡ 0))
tests_of_IsPrefix k from to hf ht p = (
  zero_of_bits _ _ (le_refl _) (λ b. elim (dec_lt b 48) [
    | yes l ↦ ground (arith, p b l, bit_at-and_not from to b (omega arith))
    | no g ↦ and_not-high from to b hf (omega arith)
  ]),
  elim (ℕ_discrete from 0) [
    | yes z ↦ inl z
    | no nz ↦
        let t = trailing_zeros 64 from in
        let one : bit_at from t ≡ 1 = trailing_zeros-top 64 from nz (omega arith) in
        inr (
          zero_of_bits _ _ (le_refl _) (λ j.
            bit_at-shift t (missing_of from to) j ∙ elim (dec_lt (t + j) 48) [
              | yes l ↦ ground (arith, p t, p (t + j), bit_at-and_not to from (t + j) (omega arith))
              | no g ↦ and_not-high to from (t + j) ht (omega arith)
            ]))
  ],
)

IsPrefix-trans : (k₁ k₂ a b c : ℕ) → IsPrefix k₁ a b → IsPrefix k₂ b c → IsPrefix (max k₁ k₂) a c
IsPrefix-trans k₁ k₂ a b c p q n l = elim (dec_lt k₁ k₂) [
  | yes h ↦ let m : max k₁ k₂ ≡ k₂ = omega arith in rw m (ground (arith, p n l, q n l))
  | no h ↦ let m : max k₁ k₂ ≡ k₁ = omega arith in rw m (ground (arith, p n l, q n l))
]

missing-IsCut :
    (k₁ k₂ a b c : ℕ)
    → IsPrefix k₁ a b
    → IsPrefix k₂ b c
    → IsCut 48 k₂ (missing_of a c) (missing_of a b) (missing_of b c)
missing-IsCut k₁ k₂ a b c p q = record {
  above = λ n l h. (
    ground (
      arith,
      p n l,
      q n l,
      bit_at-and_not b a n (omega arith),
      bit_at-and_not c a n (omega arith),
    ),
    ground (arith, q n l, bit_at-and_not c b n (omega arith)),
  );
  below = λ n l h. (
    ground (arith, p n l, q n l, bit_at-and_not b a n (omega arith)),
    ground (
      arith,
      p n l,
      q n l,
      bit_at-and_not c b n (omega arith),
      bit_at-and_not c a n (omega arith),
    ),
  );
}

clear_below-lt : (k v : ℕ) → v < 2 ^ 48 → clear_below k v < 2 ^ 48
unfolding clear_below
clear_below-lt k v h = omega (arith, div-mul-le_self v (2 ^ k))

-- A secret that a known one gives is the one that the seed gives: from the secret of index `i`,
-- `derive_from_known` returns nothing or the secret of the requested index `j`.
pub derive_from_known-generate_from_seed :
    (digest : List ℕ → List ℕ) (seed : Value32) (i j : Index48) {x : Value32}
    → derive_from_known digest i.value (generate_from_seed digest seed i) j.value ≡ some x
    → x ≡ generate_from_seed digest seed j
unfolding generate_from_seed set_bits_desc
derive_from_known-generate_from_seed digest seed i j e =
    let (sub, low, bytes) = derive_from_known-inv digest i.value _ j.value e in
    let (k, p) = IsPrefix-of_tests i.value j.value sub low in
    ap (λ (xs : List ℕ). record { bytes = xs })
      (bytes ∙ generate_IsPrefix digest k i.value j.value seed.bytes p)

-- A secret gives exactly the indices that continue its own: those whose bits agree with its index
-- but for some number `k` of lowest bits, which its index has clear.
pub derive_from_known_iff :
    (digest : List ℕ → List ℕ) (i j : Index48) (secret : Value32)
    → IsIndex i
    → IsIndex j
    → ((x : Value32) × (derive_from_known digest i.value secret j.value ≡ some x))
      ↔ ((k : ℕ) × (i.value ≡ clear_below k j.value))
derive_from_known_iff digest i j secret hi hj = (
  (λ (x, e).
      let (sub, low, bytes) = derive_from_known-inv digest i.value secret j.value e in
      let (k, p) = IsPrefix-of_tests i.value j.value sub low in
      (
        k,
        bits_ext 48 i.value (clear_below k j.value) (omega arith)
            (clear_below-lt k j.value (omega arith))
            (λ b l. p b l ∙ sym (bit_at-clear_below k j.value b)),
      )),
  (λ (k, e).
      let (sub, low) =
        tests_of_IsPrefix k i.value j.value (omega arith) (omega arith)
          (λ b l. ap (λ (t : ℕ). bit_at t b) e ∙ bit_at-clear_below k j.value b) in
      (_, derive_from_known_lem digest i.value secret j.value sub low)),
)

-- Deriving in two steps is deriving in one.
pub derive_from_known_trans :
    (digest : List ℕ → List ℕ) (a b c : Index48) (s t : Value32) {u : Value32}
    → IsIndex a
    → IsIndex c
    → derive_from_known digest a.value s b.value ≡ some t
    → derive_from_known digest b.value t c.value ≡ some u
    → derive_from_known digest a.value s c.value ≡ some u
unfolding set_bits_desc
derive_from_known_trans digest a b c s t {u} ha hc e f =
    let (sub₁, low₁, bytes₁) = derive_from_known-inv digest a.value s b.value e in
    let (sub₂, low₂, bytes₂) = derive_from_known-inv digest b.value t c.value f in
    let (k₁, p₁) = IsPrefix-of_tests a.value b.value sub₁ low₁ in
    let (k₂, p₂) = IsPrefix-of_tests b.value c.value sub₂ low₂ in
    let p = IsPrefix-trans k₁ k₂ a.value b.value c.value p₁ p₂ in
    let (sub, low) = tests_of_IsPrefix (max k₁ k₂) a.value c.value (omega arith) (omega arith) p in
    let cut : IsCut 48 k₂ (missing_of a.value c.value) (missing_of a.value b.value)
        (missing_of b.value c.value) =
      missing-IsCut k₁ k₂ a.value b.value c.value p₁ p₂ in
    derive_from_known_lem digest a.value s c.value sub low
    ∙ ap (λ (xs : List ℕ). some (record { bytes = xs }))
        (ap (λ (bs : List ℕ). derive_bits digest bs s.bytes) (bits_below-IsCut 48 k₂ _ _ _ cut)
          ∙ derive_bits-append digest (bits_below 48 (missing_of a.value b.value))
              (bits_below 48 (missing_of b.value c.value)) s.bytes
          ∙ ap (derive_bits digest (bits_below 48 (missing_of b.value c.value))) (sym bytes₁)
          ∙ sym bytes₂)
