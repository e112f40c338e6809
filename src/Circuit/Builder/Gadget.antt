-- ===== src/Circuit/Builder/Gadget.antt =====
-- apply_gadget: the gates that it adds compute what eval_bristol computes of the gadget.
use native.Mathlib.Decide.{ℕ_discrete, dec_lt}
use shachain2pc.Base.{
  ℕ, ◌+◌, ◌-◌, ◌≤◌, ◌<◌, ◌≡◌, ◌≢◌, refl, sym, ap, ◌∙◌, List, [], ◌∷◌, ◌++◌, map, All, arith,
}
use shachain2pc.Circuit.Bristol.{Gate, and_gate, xor_gate, inv_gate, Circuit, input_width}
use shachain2pc.Circuit.Bristol.Store.{
  gate_out, gate_value, InputsBelow, IsWithin, step, run, reads, gate_value-agree, gate_value-lt,
}
use shachain2pc.Circuit.Builder.{Builder, push, relabel, push_gates}

-- A gate of a gadget uses wires that exist, and writes none of the input wires.
abbrev pub WritesNew : ℕ → ℕ → Gate → Type 0
WritesNew inputs wires g = IsWithin wires g × (inputs ≤ gate_out g)

-- What a gadget's circuit file promises.
pub record IsGadget (c : Circuit) : Type 0 where
  pub inputs_fit : input_width c ≤ c.num_wire
  pub outputs_fit : c.n3 ≤ c.num_wire
  pub gates_fit : All (WritesNew (input_width c) c.num_wire) c.gates

relabel-gate_out : (m : List ℕ) (g : Gate) → gate_out (relabel m g) ≡ reads m (gate_out g)
unfolding relabel
relabel-gate_out m (and_gate a b o) = refl
relabel-gate_out m (xor_gate a b o) = refl
relabel-gate_out m (inv_gate a o) = refl

relabel-gate_value :
    (m : List ℕ) (f : ℕ → ℕ) (g : Gate)
    → gate_value f (relabel m g) ≡ gate_value (λ i. f (reads m i)) g
unfolding relabel
relabel-gate_value m f (and_gate a b o) = refl
relabel-gate_value m f (xor_gate a b o) = refl
relabel-gate_value m f (inv_gate a o) = refl

relabel-InputsBelow :
    (m : List ℕ) (n k : ℕ) (g : Gate)
    → InputsBelow n g
    → ((i : ℕ) → i < n → reads m i < k)
    → InputsBelow k (relabel m g)
unfolding relabel
relabel-InputsBelow m n k (and_gate a b o) h f = (f a h.0, f b h.1)
relabel-InputsBelow m n k (xor_gate a b o) h f = (f a h.0, f b h.1)
relabel-InputsBelow m n k (inv_gate a o) h f = f a h

-- The wires that stand for the gadget's: those for its inputs are old, the others are all new.
module _ (m : List ℕ) (inputs wires base : ℕ) (old : (i : ℕ) → i < inputs → reads m i < base)
    (new : (i : ℕ) → inputs ≤ i → i < wires → reads m i ≡ base + (i - inputs)) where
  distinct : (i o : ℕ) → i < wires → inputs ≤ o → o < wires → i ≢ o → reads m i ≢ reads m o
  distinct i o l h k n e = elim (dec_lt i inputs) [
    | yes p ↦ absurd (omega (arith, old i p, new o h k, e))
    | no p ↦ n (omega (arith, new i (omega arith) l, new o h k, e))
  ]

  -- Both runs keep the same bits on wires that stand for each other.
  pub run_agrees :
      (f g : ℕ → ℕ) (gs : List Gate)
      → All (WritesNew inputs wires) gs
      → ((i : ℕ) → i < wires → f (reads m i) ≡ g i)
      → (i : ℕ) → i < wires
      → run f (map (relabel m) gs) (reads m i) ≡ run g gs i
  unfolding run
  run_agrees f g [] h e i l = e i l
  run_agrees f g (k ∷ gs) h e i l =
      run_agrees (step f (relabel m k)) (step g k) gs h.1
        (λ j p. elim (ℕ_discrete j (gate_out k)) [
          | yes q ↦ ground (
            arith,
            q,
            ap (reads m) q,
            relabel-gate_out m k,
            relabel-gate_value m f k,
            gate_value-agree (λ x. f (reads m x)) g wires k h.0.0.0 e,
          )
          | no q ↦
              ground (arith, relabel-gate_out m k, distinct j (gate_out k) p h.0.1 h.0.0.1 q, e j p)
        ])
        i l

  -- Other wires are not written.
  pub run_keeps :
      (f : ℕ → ℕ) (gs : List Gate) (j : ℕ)
      → All (WritesNew inputs wires) gs
      → ((o : ℕ) → inputs ≤ o → o < wires → j ≢ reads m o)
      → run f (map (relabel m) gs) j ≡ f j
  unfolding run
  run_keeps f [] j h n = refl
  run_keeps f (k ∷ gs) j h n =
      run_keeps (step f (relabel m k)) gs j h.1 n
      ∙ ground (arith, relabel-gate_out m k, n (gate_out k) h.0.1 h.0.0.1)

  pub relabelled-IsWithin :
      (top : ℕ) (gs : List Gate)
      → All (WritesNew inputs wires) gs
      → ((i : ℕ) → i < wires → reads m i < top)
      → All (IsWithin top) (map (relabel m) gs)
  relabelled-IsWithin top [] h f = tt
  relabelled-IsWithin top (k ∷ gs) h f = (
    (
      relabel-InputsBelow m wires top k h.0.0.0 f,
      omega (arith, relabel-gate_out m k, f (gate_out k) h.0.0.1),
    ),
    relabelled-IsWithin top gs h.1 f,
  )

pub run_bits : (f : ℕ → ℕ) (gs : List Gate) → ((i : ℕ) → f i < 2) → (i : ℕ) → run f gs i < 2
unfolding run
run_bits f [] h i = h i
run_bits f (g ∷ gs) h i = run_bits (step f g) gs (λ j. ground (arith, h j, gate_value-lt f g h)) i

append_assoc : (xs ys zs : List Gate) → (xs ++ ys) ++ zs ≡ xs ++ (ys ++ zs)
append_assoc [] ys zs = refl
append_assoc (x ∷ xs) ys zs = ap (λ l. x ∷ l) (append_assoc xs ys zs)

append_nil : (xs : List Gate) → xs ++ [] ≡ xs
append_nil [] = refl
append_nil (x ∷ xs) = ap (λ l. x ∷ l) (append_nil xs)

pub push_gates_lem :
    (m : List ℕ) (gs : List Gate) (b : Builder)
    → ((push_gates m gs b).next ≡ b.next)
      × ((push_gates m gs b).gates ≡ b.gates ++ map (relabel m) gs)
unfolding push_gates push
push_gates_lem m [] b = (refl, sym (append_nil b.gates))
push_gates_lem m (g ∷ gs) b =
    let (next, gates) = push_gates_lem m gs (push (relabel m g) b) in
    (next, gates ∙ append_assoc b.gates (relabel m g ∷ []) (map (relabel m) gs))
