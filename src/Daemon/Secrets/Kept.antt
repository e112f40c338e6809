-- ===== src/Daemon/Secrets/Kept.antt =====
-- What derive_known finds among the secrets of a channel, where every secret is
-- the one that the seed gives at its index.
use mathlib.Core.Logic.{ite}
use native.Mathlib.Decide.{ℕ_discrete}
use shachain2pc.Base.{
  ℕ, ◌≡◌, refl, sym, ap, ◌∙◌, subst, ◌⊎◌, inl, inr, Option-cases, List, [], ◌∷◌, some, ok, All,
  arith,
}
use shachain2pc.Base.Map.{put, remove}
use shachain2pc.Types.Index.{IsIndex}
use shachain2pc.Types.Value.{Value32, value_from_hex}
use shachain2pc.Shachain.{derive_from_known, generate_from_seed}
use shachain2pc.Shachain.Derive.{derive_from_known-generate_from_seed, derive_from_known_trans}
use shachain2pc.Daemon.Secrets.{find_derived, remove_all, first_derived}

module _ (digest : List ℕ → List ℕ) (seed : Value32) where
  abbrev pub secret_at : ℕ → Value32
  secret_at i = generate_from_seed digest seed (record { value = i })

  -- An entry that holds the seed's secret at its index.
  abbrev pub IsSecret : ℕ × List ℕ → Type 0
  IsSecret (i, hex) = IsIndex (record { value = i }) × (value_from_hex hex ≡ ok (secret_at i))

  abbrev pub AreSecrets : List (ℕ × List ℕ) → Type 0
  AreSecrets m = All IsSecret m

  -- The secret at `i` gives the one at `j`.
  abbrev pub Gives : ℕ → ℕ → Type 0
  Gives i j = (x : Value32) × (derive_from_known digest i (secret_at i) j ≡ some x)

  abbrev pub AnyGives : ℕ → List (ℕ × List ℕ) → Type 0
  AnyGives j [] = ⊥
  AnyGives j ((i, hex) ∷ m) = Gives i j ⊎ AnyGives j m

  find_derived-first :
      (j i : ℕ) (hex : List ℕ) (m : List (ℕ × List ℕ))
      → IsSecret (i, hex)
      → find_derived digest j ((i, hex) ∷ m)
        ≡ first_derived digest
            (derive_from_known digest i (secret_at i) j)
            (find_derived digest j m)
  unfolding find_derived
  find_derived-first j i hex m (hi, hv) = rw hv refl

  pub Gives_secret :
      (i j : ℕ) {x : Value32}
      → derive_from_known digest i (secret_at i) j ≡ some x
      → x ≡ secret_at j
  Gives_secret i j e =
      derive_from_known-generate_from_seed digest seed (record { value = i }) (record { value = j })
        e

  -- Only secrets of the seed come out.
  pub find_derived-AreSecrets :
      (j : ℕ) (m : List (ℕ × List ℕ)) {x : Value32}
      → AreSecrets m
      → find_derived digest j m ≡ ok (some x)
      → (x ≡ secret_at j) × AnyGives j m
  unfolding find_derived
  find_derived-AreSecrets j [] h e = absurd (ground arith)
  find_derived-AreSecrets j ((i, hex) ∷ m) {x} (h, hm) e =
      let first = find_derived-first j i hex m h in
      elim (Option-cases (derive_from_known digest i (secret_at i) j)) [
        | inl n ↦ let (a, b) = find_derived-AreSecrets j m hm (ground arith) in (a, inr b)
        | inr (u, eu) ↦
            let same : u ≡ x = ground arith in (sym same ∙ Gives_secret i j eu, inl (u, eu))
      ]

  -- A secret that some entry gives is found.
  pub find_derived-AnyGives :
      (j : ℕ) (m : List (ℕ × List ℕ))
      → AreSecrets m
      → AnyGives j m
      → find_derived digest j m ≡ ok (some (secret_at j))
  unfolding find_derived
  find_derived-AnyGives j [] h a = elim a [ ]
  find_derived-AnyGives j ((i, hex) ∷ m) (h, hm) a =
      let first = find_derived-first j i hex m h in
      elim (Option-cases (derive_from_known digest i (secret_at i) j)) [
        | inl n ↦ elim a [
          | inl (u, eu) ↦ absurd (ground arith)
          | inr b ↦ let rest = find_derived-AnyGives j m hm b in ground arith
        ]
        | inr (u, eu) ↦ let same = Gives_secret i j eu in ground arith
      ]

  pub Gives-trans :
      (i k j : ℕ)
      → IsIndex (record { value = i })
      → IsIndex (record { value = j })
      → Gives i k
      → Gives k j
      → Gives i j
  Gives-trans i k j hi hj (x, ex) (y, ey) =
      let same = Gives_secret i k ex in
      (
        y,
        derive_from_known_trans digest (record { value = i }) (record { value = k })
            (record { value = j }) (secret_at i) (secret_at k) hi hj (ex ∙ ap some same) ey,
      )

  pub AnyGives-trans :
      (k j : ℕ) (m : List (ℕ × List ℕ))
      → AreSecrets m
      → IsIndex (record { value = j })
      → AnyGives k m
      → Gives k j
      → AnyGives j m
  AnyGives-trans k j [] h hj a g = a
  AnyGives-trans k j ((i, hex) ∷ m) ((hi, hv), hm) hj (inl a) g = inl (Gives-trans i k j hi hj a g)
  AnyGives-trans k j ((i, hex) ∷ m) (h, hm) hj (inr a) g = inr (AnyGives-trans k j m hm hj a g)

  pub AnyGives-put :
      (j k : ℕ) (v : List ℕ) (m : List (ℕ × List ℕ))
      → AnyGives j m ⊎ Gives k j
      → AnyGives j (put ℕ_discrete k v m)
  unfolding put
  AnyGives-put j k v [] (inl a) = elim a [ ]
  AnyGives-put j k v [] (inr g) = inl g
  AnyGives-put j k v ((i, w) ∷ m) (inl (inl c)) =
      elim (ℕ_discrete i k)
        as (λ d. AnyGives j (ite d ((k, v) ∷ m) ((i, w) ∷ put ℕ_discrete k v m))) [
          | yes e ↦ inl (subst (λ n. Gives n j) e c)
          | no n ↦ inl c
        ]
  AnyGives-put j k v ((i, w) ∷ m) (inl (inr c)) =
      let rest = AnyGives-put j k v m (inl c) in
      elim (ℕ_discrete i k)
        as (λ d. AnyGives j (ite d ((k, v) ∷ m) ((i, w) ∷ put ℕ_discrete k v m))) [
          | yes e ↦ inr c
          | no n ↦ inr rest
        ]
  AnyGives-put j k v ((i, w) ∷ m) (inr g) =
      let rest = AnyGives-put j k v m (inr g) in
      elim (ℕ_discrete i k)
        as (λ d. AnyGives j (ite d ((k, v) ∷ m) ((i, w) ∷ put ℕ_discrete k v m))) [
          | yes e ↦ inl g
          | no n ↦ inr rest
        ]

  AnyGives-remove :
      (j k : ℕ) (m : List (ℕ × List ℕ))
      → AnyGives j m
      → AnyGives j (remove ℕ_discrete k m) ⊎ Gives k j
  unfolding remove
  AnyGives-remove j k [] a = inl a
  AnyGives-remove j k ((i, w) ∷ m) (inl g) =
      let rest = remove ℕ_discrete k m in
      elim (ℕ_discrete i k) as (λ d. AnyGives j (ite d rest ((i, w) ∷ rest)) ⊎ Gives k j) [
        | yes e ↦ inr (subst (λ n. Gives n j) e g)
        | no n ↦ inl (inl g)
      ]
  AnyGives-remove j k ((i, w) ∷ m) (inr a) =
      let rest = remove ℕ_discrete k m in
      elim (AnyGives-remove j k m a) [
        | inl b ↦
            elim (ℕ_discrete i k) as (λ d. AnyGives j (ite d rest ((i, w) ∷ rest)) ⊎ Gives k j) [
              | yes e ↦ inl b
              | no n ↦ inl (inr b)
            ]
        | inr g ↦ inr g
      ]

  pub AreSecrets-put :
      (k : ℕ) (v : List ℕ) (m : List (ℕ × List ℕ))
      → IsSecret (k, v)
      → AreSecrets m
      → AreSecrets (put ℕ_discrete k v m)
  unfolding put
  AreSecrets-put k v [] s h = (s, tt)
  AreSecrets-put k v ((i, w) ∷ m) s (h, hm) =
      let rest = AreSecrets-put k v m s hm in
      elim (ℕ_discrete i k)
        as (λ d. AreSecrets (ite d ((k, v) ∷ m) ((i, w) ∷ put ℕ_discrete k v m))) [
          | yes e ↦ (s, hm)
          | no n ↦ (h, rest)
        ]

  AreSecrets-remove :
      (k : ℕ) (m : List (ℕ × List ℕ)) → AreSecrets m → AreSecrets (remove ℕ_discrete k m)
  unfolding remove
  AreSecrets-remove k [] h = tt
  AreSecrets-remove k ((i, w) ∷ m) (h, hm) =
      let rest = AreSecrets-remove k m hm in
      elim (ℕ_discrete i k)
        as (λ d. AreSecrets (ite d (remove ℕ_discrete k m) ((i, w) ∷ remove ℕ_discrete k m))) [
          | yes e ↦ rest
          | no n ↦ (h, rest)
        ]

  pub AreSecrets-remove_all :
      (ks : List ℕ) (m : List (ℕ × List ℕ)) → AreSecrets m → AreSecrets (remove_all ks m)
  unfolding remove_all
  AreSecrets-remove_all [] m h = h
  AreSecrets-remove_all (k ∷ ks) m h = AreSecrets-remove_all ks _ (AreSecrets-remove k m h)

  -- Dropped keys lose nothing that `k` gives.
  pub AnyGives-remove_all :
      (k j : ℕ) (ks : List ℕ) (m : List (ℕ × List ℕ))
      → IsIndex (record { value = k })
      → IsIndex (record { value = j })
      → All (Gives k) ks
      → AnyGives j m
      → AnyGives j (remove_all ks m) ⊎ Gives k j
  unfolding remove_all
  AnyGives-remove_all k j [] m hk hj g a = inl a
  AnyGives-remove_all k j (i ∷ ks) m hk hj (g, gs) a = elim (AnyGives-remove j i m a) [
    | inl b ↦ AnyGives-remove_all k j ks _ hk hj gs b
    | inr c ↦ inr (Gives-trans k i j hk hj g c)
  ]
