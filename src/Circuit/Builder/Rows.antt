-- ===== src/Circuit/Builder/Rows.antt =====
-- xor_rows computes the xor of two rows of wires on new wires.
use shachain2pc.Base.{
  ℕ, suc, ◌+◌, ◌≤◌, ◌<◌, ◌≡◌, refl, ap, ap₂, ◌∙◌, List, [], ◌∷◌, map, length, All, arith,
}
use shachain2pc.Base.Reads.{range}
use shachain2pc.Types.Value.{xor_bytes}
use shachain2pc.Circuit.Builder.{Builder, xor_w, xor_rows}
use shachain2pc.Circuit.Builder.Ready.{
  Below, All-mono, wire_value, Ready, Later, Later-refl, Later-trans, Later-map, xor_w_lem,
}

pub xor_rows-range :
    (xs ys : List ℕ) (b : Builder)
    → length xs ≡ length ys
    → ((xor_rows xs ys b).0 ≡ range b.next (length xs))
      × ((xor_rows xs ys b).1.next ≡ b.next + length xs)
unfolding xor_rows
xor_rows-range [] [] b e = (refl, omega arith)
xor_rows-range [] (y ∷ ys) b e = absurd (omega arith)
xor_rows-range (x ∷ xs) [] b e = absurd (omega arith)
xor_rows-range (x ∷ xs) (y ∷ ys) b e =
    let (rows, next) = xor_rows-range xs ys (xor_w x y b).1 (omega arith) in
    (
      ap₂ ◌∷◌ (new_wire x y b) (rows ∙ ap (λ (n : ℕ). range n (length xs)) (next_wire x y b)),
      next ∙ omega (arith, next_wire x y b),
    )
  where
    new_wire : (x y : ℕ) (b : Builder) → (xor_w x y b).0 ≡ b.next
    new_wire x y b = refl

    next_wire : (x y : ℕ) (b : Builder) → (xor_w x y b).1.next ≡ suc b.next
    next_wire x y b = refl

module _ (f₀ : ℕ → ℕ) where
  pub xor_rows_lem :
      (xs ys : List ℕ) (b : Builder)
      → Ready f₀ b
      → All (Below b.next) xs
      → All (Below b.next) ys
      → Ready f₀ (xor_rows xs ys b).1
        × Later f₀ b (xor_rows xs ys b).1
        × All (Below (xor_rows xs ys b).1.next) (xor_rows xs ys b).0
        × (map (wire_value f₀ (xor_rows xs ys b).1) (xor_rows xs ys b).0
            ≡ xor_bytes (map (wire_value f₀ b) xs) (map (wire_value f₀ b) ys))
  unfolding xor_rows xor_bytes
  xor_rows_lem [] ys b r hx hy = (r, Later-refl f₀ b, tt, refl)
  xor_rows_lem (x ∷ xs) [] b r hx hy = (r, Later-refl f₀ b, tt, refl)
  xor_rows_lem (x ∷ xs) (y ∷ ys) b r hx hy =
      let (ready, later, carries, next) = xor_w_lem f₀ x y b r hx.0 hy.0 in
      let up : b.next ≤ (xor_w x y b).1.next = later.grows in
      let (ready', later', below, row) =
        xor_rows_lem xs ys (xor_w x y b).1 ready (All-mono _ _ xs up hx.1)
          (All-mono _ _ ys up hy.1) in
      let new : b.next < (xor_w x y b).1.next = omega (arith, next) in
      (
        ready',
        Later-trans f₀ later later',
        (omega (arith, new, later'.grows), below),
        ap₂ ◌∷◌ (later'.keeps b.next new ∙ carries)
            (row ∙ ap₂ xor_bytes (Later-map f₀ xs later hx.1) (Later-map f₀ ys later hy.1)),
      )
