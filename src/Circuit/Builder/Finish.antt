-- ===== src/Circuit/Builder/Finish.antt =====
-- The two ends of a circuit: its inputs and constants, and the copy of the result to its last wires.
use mathlib.Core.Path.{fun_ext}
use shachain2pc.Base.{
  ℕ, zero, suc, ◌+◌, ◌-◌, ◌%◌, ◌^◌, ◌≤◌, ◌<◌, ◌≡◌, refl, sym, ap, ap₂, ◌∙◌, List, [], ◌∷◌, ◌++◌,
  map, length, length-map, length-drop, length-replicate, take, drop, replicate, All, bit_xor, ok,
  arith,
}
use shachain2pc.Base.Bits.{bit_xor-zero}
use shachain2pc.Base.Reads.{
  range, length-range, get_or-range, get_or-map, get_or-end, get_or-left, get_or-right, list_ext,
  All-get_or,
}
use shachain2pc.Types.Value.{value_bits, xor_bytes}
use shachain2pc.Circuit.Bristol.{Circuit, input_width, input_wires, eval_bristol, parse_bristol}
use shachain2pc.Circuit.Bristol.Parse.{parse_bristol-IsWithin}
use shachain2pc.Circuit.Builder.Gadget.{run_bits}
use shachain2pc.Circuit.Bristol.Store.{
  IsWithin, OutBelow, run, reads, wires_after, length-wires_after, reads-wires_after,
}
use shachain2pc.Circuit.Builder.{Builder, new_builder, xor_w, xor_rows, copy_out, constants, finish}
use shachain2pc.Circuit.Builder.Ready.{
  Below, wire_value, Ready, Later, Later-trans, xor_w_lem, inv_w_lem,
}
use shachain2pc.Circuit.Builder.Rows.{xor_rows-range, xor_rows_lem}
use shachain2pc.Circuit.Builder.Apply.{length-input_wires, reads-input_wires, eval_bristol-eq-ok}
use shachain2pc.Circuit.Builder.Chain.{Constants}

abbrev pub IsBit : ℕ → Type 0
IsBit x = x < 2

-- The lowest bits of the inputs, and 0 on every other wire.
abbrev pub inputs_of : List ℕ → ℕ → ℕ
inputs_of xs i = reads xs i % 2

outs_within : (n : ℕ) (c : Circuit) → All (IsWithin n) c.gates → All (OutBelow n) c.gates
outs_within n c h = go c.gates h
  where
    go : (gs : List shachain2pc.Circuit.Bristol.Gate) → All (IsWithin n) gs → All (OutBelow n) gs
    go [] p = tt
    go (g ∷ gs) p = (p.0.1, go gs p.1)

-- A slice of a list by its reads.
slice :
    (xs : List ℕ) (f : ℕ → ℕ) (n : ℕ)
    → n ≤ length xs
    → ((i : ℕ) → reads xs i ≡ f i)
    → take n (drop (length xs - n) xs) ≡ map f (range (length xs - n) n)
slice xs f n l e = go (length xs - n) n xs f (omega arith) e
  where
    taken :
        (k : ℕ) (ys : List ℕ) (h : ℕ → ℕ) (s : ℕ)
        → k ≤ length ys
        → ((i : ℕ) → reads ys i ≡ h (s + i))
        → take k ys ≡ map h (range s k)
    taken zero ys h s p q = refl
    taken (suc k) [] h s p q = absurd (omega arith)
    taken (suc k) (y ∷ ys) h s p q =
        ap₂ ◌∷◌ (q 0 ∙ ap h (omega arith))
          (taken k ys h (suc s) (omega arith) (λ i. q (suc i) ∙ ap h (omega arith)))

    drops :
        (s : ℕ) (ys : List ℕ) (h : ℕ → ℕ) (i : ℕ)
        → ((j : ℕ) → reads ys j ≡ h j)
        → reads (drop s ys) i ≡ h (s + i)
    drops zero ys h i q = q i ∙ ap h (omega arith)
    drops (suc s) [] h i q = q (suc (s + i)) ∙ ap h (omega arith)
    drops (suc s) (y ∷ ys) h i q =
        drops s ys (λ j. h (suc j)) i (λ j. q (suc j)) ∙ ap h (omega arith)

    go :
        (s k : ℕ) (ys : List ℕ) (h : ℕ → ℕ)
        → k + s ≤ length ys
        → ((i : ℕ) → reads ys i ≡ h i)
        → take k (drop s ys) ≡ map h (range s k)
    go s k ys h p q =
        taken k (drop s ys) h s (omega (arith, length-drop s ys)) (λ i. drops s ys h i q)

-- The outputs of a circuit are what its last wires carry.
pub eval_bristol-wires :
    (c : Circuit) (xs : List ℕ)
    → length xs ≡ input_width c
    → length xs ≤ c.num_wire
    → c.n3 ≤ c.num_wire
    → All (IsWithin c.num_wire) c.gates
    → eval_bristol c xs ≡ ok (map (run (inputs_of xs) c.gates) (range (c.num_wire - c.n3) c.n3))
eval_bristol-wires c xs w l o h =
    let final : List ℕ = wires_after (input_wires c xs) c.gates in
    let len : length final ≡ c.num_wire =
      length-wires_after (input_wires c xs) c.gates ∙ length-input_wires c xs l in
    eval_bristol-eq-ok c xs w l o h
    ∙ ap ok (
        ap (λ (n : ℕ). take c.n3 (drop (n - c.n3) final)) (sym len)
        ∙ slice final (run (inputs_of xs) c.gates) c.n3 (omega (arith, len, o)) (λ i.
          ap (λ (f : ℕ → ℕ). f i)
            (reads-wires_after (input_wires c xs) c.gates c.num_wire (length-input_wires c xs l)
                (outs_within c.num_wire c h)
              ∙ ap (λ (f : ℕ → ℕ). run f c.gates) (fun_ext (reads-input_wires c xs))))
        ∙ ap (λ (n : ℕ). map (run (inputs_of xs) c.gates) (range (n - c.n3) c.n3)) len)

xor_zeros : (xs : List ℕ) → xor_bytes xs (replicate (length xs) 0) ≡ xs
unfolding xor_bytes
xor_zeros [] = refl
xor_zeros (x ∷ xs) = ap₂ ◌∷◌ (bit_xor-zero x) (xor_zeros xs)

take_all : (xs : List ℕ) (n : ℕ) → length xs ≡ n → take n xs ≡ xs
take_all [] zero e = refl
take_all [] (suc n) e = refl
take_all (x ∷ xs) zero e = absurd (omega arith)
take_all (x ∷ xs) (suc n) e = ap (λ l. x ∷ l) (take_all xs n (omega arith))

zero_row : (f : ℕ → ℕ) (c0 n : ℕ) → f c0 ≡ 0 → map f (replicate n c0) ≡ replicate n 0
zero_row f c0 zero e = refl
zero_row f c0 (suc n) e = ap₂ ◌∷◌ e (zero_row f c0 n e)

row-Below : (c0 top n : ℕ) → c0 < top → All (Below top) (replicate n c0)
row-Below c0 top zero h = tt
row-Below c0 top (suc n) h = (h, row-Below c0 top n h)

module _ (xs : List ℕ) where
  abbrev first_wires : ℕ → ℕ
  first_wires = inputs_of xs

  -- The finished circuit gives what the row `q` carries.
  pub finish-eval :
      (c0 c1 n1 n2 : ℕ) (q : List ℕ) (b : Builder)
      → Ready (inputs_of xs) b
      → Constants (inputs_of xs) c0 c1 b
      → All (Below b.next) q
      → length q ≡ value_bits
      → length xs ≤ b.next
      → length xs ≡ input_width (finish n1 n2 value_bits (copy_out c0 q b))
      → (eval_bristol (finish n1 n2 value_bits (copy_out c0 q b)) xs
          ≡ ok (map (wire_value (inputs_of xs) b) q))
        × All (IsWithin (copy_out c0 q b).next) (copy_out c0 q b).gates
        × ((copy_out c0 q b).next ≡ b.next + value_bits)
  unfolding finish copy_out
  finish-eval c0 c1 n1 n2 q b r k below len small width =
      let row : List ℕ = replicate value_bits c0 in
      let taken = take_all q value_bits len in
      let below' : All (Below b.next) (take value_bits q) = rw taken below in
      let (ready, later, _, carries) =
        xor_rows_lem (inputs_of xs) (take value_bits q) row b r below'
          (row-Below c0 b.next value_bits k.zero_below) in
      let (wires, next) =
        xor_rows-range (take value_bits q) row b
          (ap length taken ∙ len ∙ sym (length-replicate value_bits c0)) in
      let top : (xor_rows (take value_bits q) row b).1.next ≡ b.next + value_bits =
        next ∙ omega (arith, ap length taken, len) in
      (
        eval_bristol-wires (finish n1 n2 value_bits (copy_out c0 q b)) xs width
              (omega (arith, small, top)) (omega (arith, top)) ready.within
            ∙ ap ok (
                ap (map (wire_value (inputs_of xs) (xor_rows (take value_bits q) row b).1)) (
                  ap (λ (n : ℕ). range n value_bits) (omega (arith, top))
                  ∙ ap (range b.next) (sym (ap length taken ∙ len))
                  ∙ sym wires)
                ∙ carries
                ∙ ap₂ xor_bytes (ap (map (wire_value (inputs_of xs) b)) taken) (
                    zero_row (wire_value (inputs_of xs) b) c0 value_bits k.zero_value
                    ∙ ap (λ (n : ℕ). replicate n 0)
                        (sym (length-map q (wire_value (inputs_of xs) b) ∙ len)))
                ∙ xor_zeros (map (wire_value (inputs_of xs) b) q)),
        ready.within,
        top,
      )

  xor_self : (x : ℕ) → x < 2 → bit_xor x x ≡ 0
  xor_self zero h = refl
  xor_self (suc zero) h = refl
  xor_self (suc (suc x)) h = absurd (omega arith)

  new_builder-Ready : (m : ℕ) → length xs ≡ m → Ready (inputs_of xs) (new_builder m)
  unfolding new_builder run
  new_builder-Ready m e = record {
    within = tt;
    bits = λ i. omega arith;
    fresh = λ i l. omega (arith, get_or-end xs i 0 (omega arith));
  }

  -- The builder with the constants.
  pub constants_lem :
      (m : ℕ)
      → length xs ≡ m
      → 0 < m
      → Ready (inputs_of xs) (constants m).2
        × Later (inputs_of xs) (new_builder m) (constants m).2
        × Constants (inputs_of xs) (constants m).0 (constants m).1 (constants m).2
        × ((constants m).2.next ≡ m + 2)
  unfolding constants new_builder run
  constants_lem m e p =
      let start = new_builder-Ready m e in
      let (r₁, l₁, v₁, n₁) = xor_w_lem (inputs_of xs) 0 0 (new_builder m) start p p in
      let zero_bit : bit_xor (inputs_of xs 0) (inputs_of xs 0) ≡ 0 =
        xor_self (inputs_of xs 0) (omega arith) in
      let b₁ : Builder = (xor_w 0 0 (new_builder m)).1 in
      let (r₂, l₂, v₂, n₂) = inv_w_lem (inputs_of xs) m b₁ r₁ (omega (arith, n₁)) in
      let carries_zero : wire_value (inputs_of xs) b₁ m ≡ 0 = v₁ ∙ zero_bit in
      (
        r₂,
        Later-trans (inputs_of xs) l₁ l₂,
        record {
          zero_below = omega (arith, n₁, n₂);
          one_below = omega (arith, n₁, n₂);
          zero_value = l₂.keeps m (omega (arith, n₁)) ∙ carries_zero;
          one_value = v₂ ∙ ap (λ (x : ℕ). bit_xor x 1) carries_zero;
        },
        omega (arith, n₁, n₂),
      )

-- The input wires from `start` on carry the inputs there.
pub inputs_at :
    (front xs back : List ℕ)
    → All IsBit xs
    → map (inputs_of (front ++ (xs ++ back))) (range (length front) (length xs)) ≡ xs
inputs_at front xs back h =
    let wires : List ℕ = range (length front) (length xs) in
    let wires_length = length-range (length front) (length xs) in
    list_ext (map (inputs_of (front ++ (xs ++ back))) wires) xs 0
      (length-map wires (inputs_of (front ++ (xs ++ back))) ∙ wires_length)
      (λ i l.
        let inside : i < length xs =
          omega (arith, length-map wires (inputs_of (front ++ (xs ++ back))), wires_length) in
        get_or-map (inputs_of (front ++ (xs ++ back))) wires i 0 0 (omega (arith, wires_length))
        ∙ omega (
          arith,
          ap (reads (front ++ (xs ++ back))) (get_or-range (length front) (length xs) i 0 inside),
          get_or-right front (xs ++ back) (length front + i) 0 (omega arith),
          ap (reads (xs ++ back)) (shift i),
          get_or-left xs back i 0 inside,
          All-get_or IsBit xs i 0 h inside,
        ))
  where
    shift : (i : ℕ) → length front + i - length front ≡ i
    shift i = omega arith

-- Every circuit that parse_bristol returns, with fewer than 2 ^ 31 inputs, evaluates on inputs of its
-- width to as many bits as it has outputs.
pub parse_bristol-eval_bristol :
    (text : List ℕ) (in_bits : List ℕ) {c : Circuit}
    → parse_bristol text ≡ ok c
    → c.n1 + c.n2 < 2 ^ 31
    → length in_bits ≡ c.n1 + c.n2
    → (out : List ℕ) × (eval_bristol c in_bits ≡ ok out) × (length out ≡ c.n3) × All IsBit out
unfolding input_width
parse_bristol-eval_bristol text in_bits {c} e small width =
    let (within, (some_wire, outputs, inputs)) = parse_bristol-IsWithin text e in
    let row : List ℕ = range (c.num_wire - c.n3) c.n3 in
    (
      map (run (inputs_of in_bits) c.gates) row,
      eval_bristol-wires c in_bits (ground (arith, width, small))
          (ground (arith, inputs, small, width)) outputs within,
      length-map row (run (inputs_of in_bits) c.gates) ∙ length-range (c.num_wire - c.n3) c.n3,
      bits_of row,
    )
  where
    bits_of : (xs : List ℕ) → All IsBit (map (run (inputs_of in_bits) c.gates) xs)
    bits_of [] = tt
    bits_of (x ∷ xs) = (run_bits (inputs_of in_bits) c.gates (λ i. omega arith) x, bits_of xs)
