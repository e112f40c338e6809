-- ===== src/Circuit/Builder/Ready.antt =====
-- The builder's invariant: what the gates so far compute, and what later gates leave alone.
use shachain2pc.Base.{
  ℕ, suc, ◌≤◌, ◌<◌, ◌≡◌, refl, ap, ◌∙◌, List, [], ◌∷◌, map, All, All-append, arith,
}
use shachain2pc.Base.Reads.{map-agree}
use shachain2pc.Circuit.Bristol.{Gate, and_gate, xor_gate, inv_gate}
use shachain2pc.Circuit.Bristol.Store.{
  gate_out, gate_value, InputsBelow, IsWithin, step, run, run-append, gate_value-lt,
}
use shachain2pc.Circuit.Builder.{Builder, push, xor_w, inv_w}

abbrev pub Below : ℕ → ℕ → Type 0
Below n i = i < n

pub All-mono : (m n : ℕ) (xs : List ℕ) → m ≤ n → All (Below m) xs → All (Below n) xs
All-mono m n [] l h = tt
All-mono m n (x ∷ xs) l h = (omega (arith, h.0), All-mono m n xs l h.1)

IsWithin-mono : (m n : ℕ) (g : Gate) → m ≤ n → IsWithin m g → IsWithin n g
IsWithin-mono m n (and_gate a b o) l h = ((omega arith, omega arith), omega arith)
IsWithin-mono m n (xor_gate a b o) l h = ((omega arith, omega arith), omega arith)
IsWithin-mono m n (inv_gate a o) l h = (omega arith, omega arith)

pub All-IsWithin_mono :
    (m n : ℕ) (gs : List Gate) → m ≤ n → All (IsWithin m) gs → All (IsWithin n) gs
All-IsWithin_mono m n [] l h = tt
All-IsWithin_mono m n (g ∷ gs) l h = (IsWithin-mono m n g l h.0, All-IsWithin_mono m n gs l h.1)

module _ (f₀ : ℕ → ℕ) where
  -- What each wire carries after the gates so far.
  abbrev pub wire_value : Builder → ℕ → ℕ
  wire_value b = run f₀ b.gates

  -- The gates use wires that exist, wires carry bits, and those to come carry 0.
  pub record Ready (b : Builder) : Type 0 where
    pub within : All (IsWithin b.next) b.gates
    pub bits : (i : ℕ) → wire_value b i < 2
    pub fresh : (i : ℕ) → b.next ≤ i → wire_value b i ≡ 0

  -- `b` with more wires and gates: the wires of `b` carry what they carried.
  pub record Later (b c : Builder) : Type 0 where
    pub grows : b.next ≤ c.next
    pub keeps : (i : ℕ) → i < b.next → wire_value c i ≡ wire_value b i

  pub Later-refl : (b : Builder) → Later b b
  Later-refl b = record { grows = omega arith; keeps = λ i h. refl }

  pub Later-trans : {b c d : Builder} → Later b c → Later c d → Later b d
  Later-trans l k = record {
    grows = omega (arith, l.grows, k.grows);
    keeps = λ i h. k.keeps i (omega (arith, l.grows)) ∙ l.keeps i h;
  }

  -- A row of wires carries the same bits later.
  pub Later-map :
      {b c : Builder} (p : List ℕ)
      → Later b c
      → All (Below b.next) p
      → map (wire_value c) p ≡ map (wire_value b) p
  Later-map {b} {c} p l h = map-agree (wire_value c) (Below b.next) (wire_value b) p h l.keeps

  pub wire_value-push : (g : Gate) (b : Builder) → wire_value (push g b) ≡ step (wire_value b) g
  unfolding push run
  wire_value-push g b = run-append f₀ b.gates (g ∷ [])

  abbrev pub AddsGate : Builder → Gate → Builder → Type 0
  AddsGate b g c =
      Ready c
      × Later b c
      × (wire_value c b.next ≡ gate_value (wire_value b) g)
      × (c.next ≡ suc b.next)

  new_gate :
      (b : Builder) (g : Gate)
      → Ready b
      → InputsBelow b.next g
      → gate_out g ≡ b.next
      → AddsGate b g (push g (record b { next = suc b.next }))
  unfolding push
  new_gate b g r h e =
      let pushed = wire_value-push g (record b { next = suc b.next }) in
      let at = λ (i : ℕ). ap (λ (f : ℕ → ℕ). f i) pushed in
      (
        record {
          within =
              All-append (IsWithin (suc b.next)) b.gates (g ∷ [])
                (All-IsWithin_mono b.next (suc b.next) b.gates (omega arith) r.within)
                ((inputs_suc b.next g h, omega (arith, e)), tt);
          bits = λ i. bit_of i (at i);
          fresh = λ i l. at i ∙ ground (arith, r.fresh i (omega arith), e);
        },
        record { grows = omega arith; keeps = λ i l. at i ∙ ground (arith, e) },
        at b.next ∙ ground (arith, e),
        refl,
      )
    where
      inputs_suc : (n : ℕ) (k : Gate) → InputsBelow n k → InputsBelow (suc n) k
      inputs_suc n (and_gate x y o) p = (omega arith, omega arith)
      inputs_suc n (xor_gate x y o) p = (omega arith, omega arith)
      inputs_suc n (inv_gate x o) p = omega arith

      bit_of :
          (i : ℕ)
          → wire_value (push g (record b { next = suc b.next })) i ≡ step (wire_value b) g i
          → wire_value (push g (record b { next = suc b.next })) i < 2
      bit_of i q = ground (arith, r.bits i, gate_value-lt (wire_value b) g r.bits)

  pub xor_w_lem :
      (x y : ℕ) (b : Builder)
      → Ready b
      → x < b.next
      → y < b.next
      → AddsGate b (xor_gate x y b.next) (xor_w x y b).1
  unfolding xor_w
  xor_w_lem x y b r p q = new_gate b (xor_gate x y b.next) r (p, q) refl

  pub inv_w_lem :
      (x : ℕ) (b : Builder) → Ready b → x < b.next → AddsGate b (inv_gate x b.next) (inv_w x b).1
  unfolding inv_w
  inv_w_lem x b r p = new_gate b (inv_gate x b.next) r p refl
