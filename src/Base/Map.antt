-- ===== src/Base/Map.antt =====
-- Maps as association lists without repeated keys, for the `BTreeMap`s of the source.
use mathlib.Core.Logic.{ite}
use mathlib.Core.Path.{◌≡◌, refl}
use mathlib.Core.Logic.{◌≢◌}
use mathlib.Core.Option.{Option, none, some}
use mathlib.Core.List.{List, [], ◌∷◌}
use native.Mathlib.Omega.{arith}

module _ {ℓ} {K V : Type ℓ} (dec : Discrete K) where
  unfoldable pub get : K → List (K × V) → Option V
  get k [] = none
  get k ((j, v) ∷ m) = ite (dec j k) (some v) (get k m)

  -- A key that is there keeps its place.
  unfoldable pub put : K → V → List (K × V) → List (K × V)
  put k v [] = (k, v) ∷ []
  put k v ((j, w) ∷ m) = ite (dec j k) ((k, v) ∷ m) ((j, w) ∷ put k v m)

  unfoldable pub remove : K → List (K × V) → List (K × V)
  remove k [] = []
  remove k ((j, v) ∷ m) = let rest = remove k m in ite (dec j k) rest ((j, v) ∷ rest)

  pub get-put_self : (k : K) (v : V) (m : List (K × V)) → get k (put k v m) ≡ some v
  unfolding get put
  get-put_self k v [] = ground arith
  get-put_self k v ((j, w) ∷ m) = ground (arith, get-put_self k v m)

  pub get-put_ne : (k j : K) (v : V) (m : List (K × V)) → k ≢ j → get j (put k v m) ≡ get j m
  unfolding get put
  get-put_ne k j v [] n = ground arith
  get-put_ne k j v ((i, w) ∷ m) n = ground (arith, get-put_ne k j v m n)

  pub get-remove_self : (k : K) (m : List (K × V)) → get k (remove k m) ≡ none
  unfolding get remove
  get-remove_self k [] = refl
  get-remove_self k ((j, v) ∷ m) = ground (arith, get-remove_self k m)

  pub get-remove_ne : (k j : K) (m : List (K × V)) → k ≢ j → get j (remove k m) ≡ get j m
  unfolding get remove
  get-remove_ne k j [] n = refl
  get-remove_ne k j ((i, v) ∷ m) n = ground (arith, get-remove_ne k j m n)

  pub put-cons_self :
      (k j : K) (v w : V) (m : List (K × V)) → k ≡ j → put k v ((j, w) ∷ m) ≡ (k, v) ∷ m
  unfolding put
  put-cons_self k j v w m e = ground (arith, e)

  pub put-cons_ne :
      (k j : K) (v w : V) (m : List (K × V)) → k ≢ j → put k v ((j, w) ∷ m) ≡ (j, w) ∷ put k v m
  unfolding put
  put-cons_ne k j v w m n = ground (arith, n)

  pub remove-cons_self :
      (k j : K) (w : V) (m : List (K × V)) → k ≡ j → remove k ((j, w) ∷ m) ≡ remove k m
  unfolding remove
  remove-cons_self k j w m e = ground (arith, e)

  pub remove-cons_ne :
      (k j : K) (w : V) (m : List (K × V)) → k ≢ j → remove k ((j, w) ∷ m) ≡ (j, w) ∷ remove k m
  unfolding remove
  remove-cons_ne k j w m n = ground (arith, n)

  pub get-cons_self : (k j : K) (w : V) (m : List (K × V)) → k ≡ j → get k ((j, w) ∷ m) ≡ some w
  unfolding get
  get-cons_self k j w m e = ground (arith, e)

  pub get-cons_ne : (k j : K) (w : V) (m : List (K × V)) → k ≢ j → get k ((j, w) ∷ m) ≡ get k m
  unfolding get
  get-cons_ne k j w m n = ground (arith, n)
