-- ===== src/Daemon/Secrets/Scan.antt =====
-- What the loop of store_known_secret finds, and the secrets that the call leaves.
use shachain2pc.Base.{
  ℕ, ◌≡◌, refl, ◌⊎◌, inl, inr, Bool, true, false, Bool-cases, List, [], ◌∷◌, ◌++◌, Option, none,
  some, ok, All, All-append, arith,
}
use shachain2pc.Types.Index.{IsIndex}
use shachain2pc.Types.Value.{Value32, IsValue}
use shachain2pc.Types.ValueText.{value_from_hex-to_hex}
use shachain2pc.Shachain.{derive_from_known}
use shachain2pc.Daemon.Secrets.{scan_secrets, is_secret, new_secrets, Value32-discrete}
use shachain2pc.Daemon.Secrets.Kept.{
  secret_at, AreSecrets, Gives, AnyGives, AnyGives-trans, AnyGives-put, AnyGives-remove_all,
  AreSecrets-put, AreSecrets-remove_all,
}

module _ (digest : List ℕ → List ℕ) (seed : Value32) where
  -- What a scan promises: a redundant secret is given by an entry, and the new one gives the
  -- entries to drop.
  abbrev pub ScanGives : ℕ → List (ℕ × List ℕ) → Bool × List ℕ → Type 0
  ScanGives k m (true, drops) = AnyGives digest seed k m
  ScanGives k m (false, drops) = All (Gives digest seed k) drops

  ScanGives-cons :
      (k : ℕ) (e : ℕ × List ℕ) (m : List (ℕ × List ℕ)) (scan : Bool × List ℕ)
      → ScanGives k m scan
      → ScanGives k (e ∷ m) scan
  ScanGives-cons k (i, hex) m (true, drops) g = inr g
  ScanGives-cons k (i, hex) m (false, drops) g = g

  is_secret-true : (o : Option Value32) (v : Value32) → is_secret o v ≡ true → o ≡ some v
  unfolding Value32-discrete
  is_secret-true none v e = absurd (ground arith)
  is_secret-true (some u) v e = ground arith

  pub scan_secrets-ScanGives :
      (k : ℕ) (m : List (ℕ × List ℕ)) (drops : List ℕ)
      → AreSecrets digest seed m
      → All (Gives digest seed k) drops
      → (scan : Bool × List ℕ) × (scan_secrets digest k (secret_at digest seed k) m drops ≡ ok scan)
        × ScanGives k m scan
  unfolding scan_secrets
  scan_secrets-ScanGives k [] drops h g = ((false, drops), refl, g)
  scan_secrets-ScanGives k ((i, hex) ∷ m) drops ((hi, hv), hm) g =
      elim (Bool-cases (
        is_secret (derive_from_known digest i (secret_at digest seed i) k)
          (secret_at digest seed k))) [
            | inl e ↦ (
              (true, drops),
              rw (hv, e) refl,
              inl (secret_at digest seed k, is_secret-true _ _ e),
            )
            | inr e ↦
                elim (Bool-cases (
                  is_secret (derive_from_known digest k (secret_at digest seed k) i)
                    (secret_at digest seed i))) [
                      | inl f ↦
                          let g' =
                            All-append (Gives digest seed k) drops (i ∷ []) g
                              ((secret_at digest seed i, is_secret-true _ _ f), tt) in
                          let (scan, es, gs) = scan_secrets-ScanGives k m (drops ++ i ∷ []) hm g' in
                          (scan, rw (hv, e, f) es, ScanGives-cons k (i, hex) m scan gs)
                      | inr f ↦
                          let (scan, es, gs) = scan_secrets-ScanGives k m drops hm g in
                          (scan, rw (hv, e, f) es, ScanGives-cons k (i, hex) m scan gs)
                    ]
          ]

  pub new_secrets-AreSecrets :
      (k : ℕ) (scan : Bool × List ℕ) (m : List (ℕ × List ℕ))
      → IsIndex (record { value = k })
      → IsValue (secret_at digest seed k)
      → AreSecrets digest seed m
      → AreSecrets digest seed (new_secrets k (secret_at digest seed k) scan m)
  unfolding new_secrets
  new_secrets-AreSecrets k (true, drops) m hk hs h = h
  new_secrets-AreSecrets k (false, drops) m hk hs h =
      AreSecrets-put digest seed k _ _ (hk, value_from_hex-to_hex (secret_at digest seed k) hs)
        (AreSecrets-remove_all digest seed drops m h)

  pub new_secrets-AnyGives :
      (k j : ℕ) (scan : Bool × List ℕ) (m : List (ℕ × List ℕ))
      → IsIndex (record { value = k })
      → IsIndex (record { value = j })
      → AreSecrets digest seed m
      → ScanGives k m scan
      → AnyGives digest seed j m ⊎ Gives digest seed k j
      → AnyGives digest seed j (new_secrets k (secret_at digest seed k) scan m)
  unfolding new_secrets
  new_secrets-AnyGives k j (true, drops) m hk hj h s (inl a) = a
  new_secrets-AnyGives k j (true, drops) m hk hj h s (inr g) =
      AnyGives-trans digest seed k j m h hj s g
  new_secrets-AnyGives k j (false, drops) m hk hj h s (inl a) =
      AnyGives-put digest seed j k _ _ (AnyGives-remove_all digest seed k j drops m hk hj s a)
  new_secrets-AnyGives k j (false, drops) m hk hj h s (inr g) =
      AnyGives-put digest seed j k _ _ (inr g)
