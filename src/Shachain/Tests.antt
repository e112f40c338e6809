-- ===== src/Shachain/Tests.antt =====
-- The derivation with a digest that is 7 at every byte.
use shachain2pc.Base.{ℕ, ◌≡◌, refl, List, replicate, some, ◌↔◌, arith}
use shachain2pc.Types.Index.{Index48}
use shachain2pc.Types.Value.{Value32, zero_value}
use shachain2pc.Types.Tests.{sevens}
use shachain2pc.Shachain.{
  derive_from_known, generate_from_seed, generate_below, derive_bit, derive_bits, set_bits_desc,
  bits_below, not_u64, trailing_zeros,
}
use shachain2pc.Shachain.Descent.{clear_below}
use shachain2pc.Shachain.Derive.{
  derive_from_known-generate_from_seed, derive_from_known_iff, derive_from_known_trans,
}

abbrev pub all_seven : List ℕ → List ℕ
all_seven xs = replicate 32 7

abbrev pub index_4 : Index48
index_4 = record { value = 4 }

abbrev pub index_5 : Index48
index_5 = record { value = 5 }

abbrev pub index_6 : Index48
index_6 = record { value = 6 }

pub seed_4 : generate_from_seed all_seven zero_value index_4 ≡ sevens
unfolding generate_from_seed generate_below derive_bit
seed_4 = refl

pub seed_6 : generate_from_seed all_seven zero_value index_6 ≡ sevens
unfolding generate_from_seed generate_below derive_bit
seed_6 = refl

pub derive_4_5 :
    derive_from_known all_seven index_4.value
      (generate_from_seed all_seven zero_value index_4)
      index_5.value
    ≡ some sevens
unfolding derive_from_known derive_bits derive_bit set_bits_desc bits_below not_u64 trailing_zeros
derive_4_5 = refl

sevens_4_6 : derive_from_known all_seven index_4.value sevens index_6.value ≡ some sevens
unfolding derive_from_known derive_bits derive_bit set_bits_desc bits_below not_u64 trailing_zeros
sevens_4_6 = refl

sevens_6_7 : derive_from_known all_seven index_6.value sevens 7 ≡ some sevens
unfolding derive_from_known derive_bits derive_bit set_bits_desc bits_below not_u64 trailing_zeros
sevens_6_7 = refl

derive_from_known-generate_from_seed_example :
    sevens ≡ generate_from_seed all_seven zero_value index_5
derive_from_known-generate_from_seed_example =
    derive_from_known-generate_from_seed all_seven zero_value index_4 index_5 derive_4_5

derive_from_known_iff_example :
    ((x : Value32) × (derive_from_known all_seven index_4.value sevens index_5.value ≡ some x))
    ↔ ((k : ℕ) × (index_4.value ≡ clear_below k index_5.value))
derive_from_known_iff_example =
    derive_from_known_iff all_seven index_4 index_5 sevens (omega arith) (omega arith)

derive_from_known_trans_example : derive_from_known all_seven index_4.value sevens 7 ≡ some sevens
derive_from_known_trans_example =
    derive_from_known_trans all_seven index_4 index_6 (record { value = 7 }) sevens sevens
      (omega arith) (omega arith) sevens_4_6 sevens_6_7
