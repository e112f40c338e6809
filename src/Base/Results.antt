-- ===== src/Base/Results.antt =====
-- `Result<T, E>` of the source: a value, or the error that an early return carries.
use mathlib.Core.Path.{◌≡◌, refl}
use mathlib.Core.Logic.{◌⊎◌, inl, inr}
use mathlib.Core.Bool.{Bool, true, false}

pub data Result {ℓ} (E : Type 0) (A : Type ℓ) : Type ℓ where
  ok : A → Result E A
  err : E → Result E A

infixl 5 ◌>>=◌ ◌>>◌
abbrev pub ◌>>=◌ {ℓ κ} :
    {E : Type 0} {A : Type ℓ} {B : Type κ} → Result E A → (A → Result E B) → Result E B
ok a >>= f = f a
err e >>= f = err e

abbrev pub ◌>>◌ {ℓ} : {E : Type 0} {B : Type ℓ} → Result E (Unit {0}) → Result E B → Result E B
m >> k = m >>= λ _. k

-- `if !test { return Err(e) }`.
abbrev pub guard : {E : Type 0} → Bool → E → Result E (Unit {0})
guard true e = ok tt
guard false e = err e

-- `if a != b { return Err(e) }` and `if a == b { return Err(e) }`, over a decision.
abbrev pub ensure {ℓ} : {E : Type 0} {P : Type ℓ} → Dec P → E → Result E (Unit {0})
ensure (yes p) e = ok tt
ensure (no n) e = err e

abbrev pub refuse {ℓ} : {E : Type 0} {P : Type ℓ} → Dec P → E → Result E (Unit {0})
refuse (yes p) e = err e
refuse (no n) e = ok tt

abbrev pub map_err {ℓ} : {E F : Type 0} {A : Type ℓ} → (E → F) → Result E A → Result F A
map_err f (ok a) = ok a
map_err f (err e) = err (f e)

pub Result-cases {ℓ} :
    {E : Type 0} {A : Type ℓ} (r : Result E A) → ((a : A) × (r ≡ ok a)) ⊎ ((e : E) × (r ≡ err e))
Result-cases (ok a) = inl (a, refl)
Result-cases (err e) = inr (e, refl)

-- A chain that ends well has a first step that ends well.
pub >>=-eq-ok {ℓ κ} :
    {E : Type 0} {A : Type ℓ} {B : Type κ} (first : Result E A) (next : A → Result E B) {out : B}
    → (first >>= next) ≡ ok out
    → (value : A) × (first ≡ ok value) × (next value ≡ ok out)
>>=-eq-ok (err reason) next same = cc
>>=-eq-ok (ok value) next same = (value, refl, same)

pub ok_injective : {E A : Type 0} {x y : A} → ◌≡◌ {A = Result E A} (ok x) (ok y) → x ≡ y
ok_injective same = cc

pub ensure-yes {ℓ} : {E : Type 0} {P : Type ℓ} (d : Dec P) (e : E) → P → ensure d e ≡ ok tt
ensure-yes (yes p) e h = refl
ensure-yes (no n) e h = absurd (n h)

pub ensure-no {ℓ} : {E : Type 0} {P : Type ℓ} (d : Dec P) (e : E) → ¬ P → ensure d e ≡ err e
ensure-no (yes p) e h = absurd (h p)
ensure-no (no n) e h = refl
