-- ===== src/Base/Reads.antt =====
-- Lists read with a default: what a read gives after a write, and lists equal at every index.
use Prim.Native.Nat.{ℕ, zero, suc, ◌+◌, ◌-◌, ◌≤◌, ◌<◌}
use mathlib.Core.Path.{◌≡◌, refl, sym, ap, ap₂, ◌∙◌}
use mathlib.Core.Logic.{◌≢◌}
use mathlib.Core.List.{List, [], ◌∷◌, ◌++◌, map}
use native.Mathlib.Omega.{arith}
use shachain2pc.Base.Lists.{length, get_or, set, take, drop, All}

-- `start..start + count`.
abbrev pub range : ℕ → ℕ → List ℕ
range start zero = []
range start (suc count) = start ∷ range (suc start) count

pub length-range : (start count : ℕ) → length (range start count) ≡ count
length-range start zero = refl
length-range start (suc count) = ap suc (length-range (suc start) count)

pub get_or-range : (start count i d : ℕ) → i < count → get_or (range start count) i d ≡ start + i
get_or-range start zero i d h = absurd (omega arith)
get_or-range start (suc count) zero d h = omega arith
get_or-range start (suc count) (suc i) d h =
    omega (arith, get_or-range (suc start) count i d (omega arith))

module _ {ℓ} {A : Type ℓ} where
  pub get_or-set_self :
      (xs : List A) (i : ℕ) (v d : A) → i < length xs → get_or (set xs i v) i d ≡ v
  get_or-set_self [] i v d h = absurd (omega arith)
  get_or-set_self (x ∷ xs) zero v d h = refl
  get_or-set_self (x ∷ xs) (suc i) v d h = get_or-set_self xs i v d (omega arith)

  pub get_or-set_ne :
      (xs : List A) (i j : ℕ) (v d : A) → i ≢ j → get_or (set xs i v) j d ≡ get_or xs j d
  get_or-set_ne [] i j v d h = refl
  get_or-set_ne (x ∷ xs) zero zero v d h = absurd (h refl)
  get_or-set_ne (x ∷ xs) zero (suc j) v d h = refl
  get_or-set_ne (x ∷ xs) (suc i) zero v d h = refl
  get_or-set_ne (x ∷ xs) (suc i) (suc j) v d h = get_or-set_ne xs i j v d (λ e. h (ap suc e))

  pub get_or-left :
      (xs ys : List A) (i : ℕ) (d : A) → i < length xs → get_or (xs ++ ys) i d ≡ get_or xs i d
  get_or-left [] ys i d h = absurd (omega arith)
  get_or-left (x ∷ xs) ys zero d h = refl
  get_or-left (x ∷ xs) ys (suc i) d h = get_or-left xs ys i d (omega arith)

  pub get_or-right :
      (xs ys : List A) (i : ℕ) (d : A)
      → length xs ≤ i
      → get_or (xs ++ ys) i d ≡ get_or ys (i - length xs) d
  get_or-right [] ys i d h = ap (λ (j : ℕ). get_or ys j d) (omega arith)
  get_or-right (x ∷ xs) ys zero d h = absurd (omega arith)
  get_or-right (x ∷ xs) ys (suc i) d h =
      get_or-right xs ys i d (omega arith) ∙ ap (λ (j : ℕ). get_or ys j d) (omega arith)

  pub get_or-end : (xs : List A) (i : ℕ) (d : A) → length xs ≤ i → get_or xs i d ≡ d
  get_or-end [] i d h = refl
  get_or-end (x ∷ xs) zero d h = absurd (omega arith)
  get_or-end (x ∷ xs) (suc i) d h = get_or-end xs i d (omega arith)

  pub list_ext :
      (xs ys : List A) (d : A)
      → length xs ≡ length ys
      → ((i : ℕ) → i < length xs → get_or xs i d ≡ get_or ys i d)
      → xs ≡ ys
  list_ext [] [] d e h = refl
  list_ext [] (y ∷ ys) d e h = absurd (omega arith)
  list_ext (x ∷ xs) [] d e h = absurd (omega arith)
  list_ext (x ∷ xs) (y ∷ ys) d e h =
      ap₂ ◌∷◌ (h 0 (omega arith)) (list_ext xs ys d (omega arith) (λ i l. h (suc i) (omega arith)))

  pub All-set : (P : A → Type ℓ) (xs : List A) (i : ℕ) (v : A) → All P xs → P v → All P (set xs i v)
  All-set P [] i v h p = tt
  All-set P (x ∷ xs) zero v h p = (p, h.1)
  All-set P (x ∷ xs) (suc i) v h p = (h.0, All-set P xs i v h.1 p)

  pub All-get_or :
      (P : A → Type ℓ) (xs : List A) (i : ℕ) (d : A) → All P xs → i < length xs → P (get_or xs i d)
  All-get_or P [] i d h l = absurd (omega arith)
  All-get_or P (x ∷ xs) zero d h l = h.0
  All-get_or P (x ∷ xs) (suc i) d h l = All-get_or P xs i d h.1 (omega arith)

  pub All-take : (P : A → Type ℓ) (n : ℕ) (xs : List A) → All P xs → All P (take n xs)
  All-take P zero xs h = tt
  All-take P (suc n) [] h = tt
  All-take P (suc n) (x ∷ xs) h = (h.0, All-take P n xs h.1)

  pub All-drop : (P : A → Type ℓ) (n : ℕ) (xs : List A) → All P xs → All P (drop n xs)
  All-drop P zero xs h = h
  All-drop P (suc n) [] h = tt
  All-drop P (suc n) (x ∷ xs) h = All-drop P n xs h.1

  module _ {κ} {B : Type κ} (f : A → B) where
    pub map-take : (n : ℕ) (xs : List A) → map f (take n xs) ≡ take n (map f xs)
    map-take zero xs = refl
    map-take (suc n) [] = refl
    map-take (suc n) (x ∷ xs) = ap (λ l. f x ∷ l) (map-take n xs)

    pub map-drop : (n : ℕ) (xs : List A) → map f (drop n xs) ≡ drop n (map f xs)
    map-drop zero xs = refl
    map-drop (suc n) [] = refl
    map-drop (suc n) (x ∷ xs) = map-drop n xs

    pub map-set : (xs : List A) (i : ℕ) (v : A) → map f (set xs i v) ≡ set (map f xs) i (f v)
    map-set [] i v = refl
    map-set (x ∷ xs) zero v = refl
    map-set (x ∷ xs) (suc i) v = ap (λ l. f x ∷ l) (map-set xs i v)

    pub get_or-map :
        (xs : List A) (i : ℕ) (d : A) (c : B)
        → i < length xs
        → get_or (map f xs) i c ≡ f (get_or xs i d)
    get_or-map [] i d c h = absurd (omega arith)
    get_or-map (x ∷ xs) zero d c h = refl
    get_or-map (x ∷ xs) (suc i) d c h = get_or-map xs i d c (omega arith)

    pub map-append : (xs ys : List A) → map f (xs ++ ys) ≡ map f xs ++ map f ys
    map-append [] ys = refl
    map-append (x ∷ xs) ys = ap (λ l. f x ∷ l) (map-append xs ys)

    -- Functions that agree at the elements of a list.
    pub map-agree :
        (P : A → Type ℓ) (g : A → B) (xs : List A)
        → All P xs
        → ((x : A) → P x → f x ≡ g x)
        → map f xs ≡ map g xs
    map-agree P g [] h e = refl
    map-agree P g (x ∷ xs) h e = ap₂ ◌∷◌ (e x h.0) (map-agree P g xs h.1 e)

pub range_below :
    (start count top : ℕ) → start + count ≤ top → All (λ i. i < top) (range start count)
range_below start zero top h = tt
range_below start (suc count) top h = (omega arith, range_below (suc start) count top (omega arith))

module _ {ℓ} {A : Type ℓ} where
  pub take-append : (xs ys : List A) (n : ℕ) → length xs ≡ n → take n (xs ++ ys) ≡ xs
  take-append [] ys zero e = refl
  take-append [] ys (suc n) e = absurd (omega arith)
  take-append (x ∷ xs) ys zero e = absurd (omega arith)
  take-append (x ∷ xs) ys (suc n) e = ap (λ l. x ∷ l) (take-append xs ys n (omega arith))

  pub drop-append : (xs ys : List A) (n : ℕ) → length xs ≡ n → drop n (xs ++ ys) ≡ ys
  drop-append [] ys zero e = refl
  drop-append [] ys (suc n) e = absurd (omega arith)
  drop-append (x ∷ xs) ys zero e = absurd (omega arith)
  drop-append (x ∷ xs) ys (suc n) e = drop-append xs ys n (omega arith)

  -- Equal lists have equal parts at a length.
  pub front_equal :
      (n : ℕ) (xs ys us vs : List A)
      → length xs ≡ n
      → length ys ≡ n
      → xs ++ us ≡ ys ++ vs
      → (xs ≡ ys) × (us ≡ vs)
  front_equal n xs ys us vs h k e = (
    sym (take-append xs us n h) ∙ ap (take n) e ∙ take-append ys vs n k,
    sym (drop-append xs us n h) ∙ ap (drop n) e ∙ drop-append ys vs n k,
  )
