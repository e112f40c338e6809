-- ===== src/Circuit/Bristol/Store.antt =====
-- Circuits run on a function from wires to bits, which agrees with eval_bristol.
use mathlib.Core.Path.{fun_ext}
use native.Mathlib.Decide.{ℕ_discrete}
use shachain2pc.Base.{
  ℕ, zero, suc, ◌<◌, ◌≡◌, refl, sym, ap, ap₂, ◌∙◌, ◌==◌, if◌then◌else◌, List, [], ◌∷◌, ◌++◌, length,
  get_or, set, length-set, All, bit_and, bit_xor, arith, true, ok,
}
use shachain2pc.Base.Reads.{get_or-set_self, get_or-set_ne}
use shachain2pc.Circuit.Bristol.{
  Gate, and_gate, xor_gate, inv_gate, eval_gate, eval_gates, wires_exist,
}

abbrev pub gate_out : Gate → ℕ
gate_out (and_gate a b o) = o
gate_out (xor_gate a b o) = o
gate_out (inv_gate a o) = o

abbrev pub gate_value : (ℕ → ℕ) → Gate → ℕ
gate_value f (and_gate a b o) = bit_and (f a) (f b)
gate_value f (xor_gate a b o) = bit_xor (f a) (f b)
gate_value f (inv_gate a o) = bit_xor (f a) 1

-- The inputs of a gate are wires below a bound.
abbrev pub InputsBelow : ℕ → Gate → Type 0
InputsBelow n (and_gate a b o) = (a < n) × (b < n)
InputsBelow n (xor_gate a b o) = (a < n) × (b < n)
InputsBelow n (inv_gate a o) = a < n

abbrev pub IsWithin : ℕ → Gate → Type 0
IsWithin n g = InputsBelow n g × (gate_out g < n)

abbrev pub step : (ℕ → ℕ) → Gate → ℕ → ℕ
step f g i = if i == gate_out g then gate_value f g else f i

unfoldable pub run : (ℕ → ℕ) → List Gate → ℕ → ℕ
run f [] = f
run f (g ∷ gs) = run (step f g) gs

abbrev pub reads : List ℕ → ℕ → ℕ
reads w i = get_or w i 0

pub run-append : (f : ℕ → ℕ) (gs hs : List Gate) → run f (gs ++ hs) ≡ run (run f gs) hs
unfolding run
run-append f [] hs = refl
run-append f (g ∷ gs) hs = run-append (step f g) gs hs

eval_gate-eq-set :
    (w : List ℕ) (g : Gate) → eval_gate w g ≡ set w (gate_out g) (gate_value (reads w) g)
unfolding eval_gate
eval_gate-eq-set w (and_gate a b o) = refl
eval_gate-eq-set w (xor_gate a b o) = refl
eval_gate-eq-set w (inv_gate a o) = refl

reads-set :
    (w : List ℕ) (o v i : ℕ)
    → o < length w
    → reads (set w o v) i ≡ (if i == o then v else reads w i)
reads-set w o v i h = elim (ℕ_discrete i o) [
  | yes e ↦ ground (arith, ap (λ (j : ℕ). reads (set w o v) j) e, get_or-set_self w o v 0 h)
  | no n ↦ ground (arith, get_or-set_ne w o i v 0 (λ e. n (sym e)))
]

-- The wires after gates that all exist.
unfoldable pub wires_after : List ℕ → List Gate → List ℕ
unfolding eval_gate
wires_after w [] = w
wires_after w (g ∷ gs) = wires_after (eval_gate w g) gs

pub length-wires_after : (w : List ℕ) (gs : List Gate) → length (wires_after w gs) ≡ length w
unfolding wires_after
length-wires_after w [] = refl
length-wires_after w (g ∷ gs) =
    length-wires_after (eval_gate w g) gs
    ∙ ap (λ (l : List ℕ). length l) (eval_gate-eq-set w g)
    ∙ length-set w (gate_out g) (gate_value (reads w) g)

-- The output of every gate is a wire of the store.
abbrev pub OutBelow : ℕ → Gate → Type 0
OutBelow n g = gate_out g < n

-- Gates on wires that exist do not panic.
pub wires_exist-IsWithin : (n : ℕ) (g : Gate) → IsWithin n g → wires_exist n g ≡ true
unfolding wires_exist
wires_exist-IsWithin n (and_gate a b o) h = ground (arith, h.0.0, h.0.1, h.1)
wires_exist-IsWithin n (xor_gate a b o) h = ground (arith, h.0.0, h.0.1, h.1)
wires_exist-IsWithin n (inv_gate a o) h = ground (arith, h.0, h.1)

pub eval_gates-eq-ok :
    (w : List ℕ) (gs : List Gate) (n : ℕ)
    → length w ≡ n
    → All (IsWithin n) gs
    → eval_gates w gs ≡ ok (wires_after w gs)
unfolding eval_gates wires_after
eval_gates-eq-ok w [] n e h = refl
eval_gates-eq-ok w (g ∷ gs) n e h =
    let exists : wires_exist (length w) g ≡ true =
      ap (λ (k : ℕ). wires_exist k g) e ∙ wires_exist-IsWithin n g h.0 in
    rw exists (
      eval_gates-eq-ok (eval_gate w g) gs n
        (ap (λ (l : List ℕ). length l) (eval_gate-eq-set w g)
          ∙ length-set w (gate_out g) (gate_value (reads w) g)
          ∙ e)
        h.1)

pub reads-wires_after :
    (w : List ℕ) (gs : List Gate) (n : ℕ)
    → length w ≡ n
    → All (OutBelow n) gs
    → reads (wires_after w gs) ≡ run (reads w) gs
unfolding wires_after run
reads-wires_after w [] n e h = refl
reads-wires_after w (g ∷ gs) n e h =
    reads-wires_after (eval_gate w g) gs n
      (ap (λ (l : List ℕ). length l) (eval_gate-eq-set w g)
        ∙ length-set w (gate_out g) (gate_value (reads w) g)
        ∙ e)
      h.1
    ∙ ap (λ (f : ℕ → ℕ). run f gs)
        (fun_ext (λ i.
          ap (λ (l : List ℕ). reads l i) (eval_gate-eq-set w g)
          ∙ reads-set w (gate_out g) (gate_value (reads w) g) i (omega (arith, h.0, e))))

-- The value of a gate is decided by its inputs.
pub gate_value-agree :
    (f h : ℕ → ℕ) (n : ℕ) (g : Gate)
    → InputsBelow n g
    → ((i : ℕ) → i < n → f i ≡ h i)
    → gate_value f g ≡ gate_value h g
gate_value-agree f h n (and_gate a b o) l e = ap₂ bit_and (e a l.0) (e b l.1)
gate_value-agree f h n (xor_gate a b o) l e = ap₂ bit_xor (e a l.0) (e b l.1)
gate_value-agree f h n (inv_gate a o) l e = ap (λ (x : ℕ). bit_xor x 1) (e a l)

and_bit : (x y : ℕ) → x < 2 → y < 2 → bit_and x y < 2
and_bit zero zero p q = omega arith
and_bit zero (suc zero) p q = omega arith
and_bit zero (suc (suc y)) p q = absurd (omega arith)
and_bit (suc zero) zero p q = omega arith
and_bit (suc zero) (suc zero) p q = omega arith
and_bit (suc zero) (suc (suc y)) p q = absurd (omega arith)
and_bit (suc (suc x)) y p q = absurd (omega arith)

xor_bit : (x y : ℕ) → x < 2 → y < 2 → bit_xor x y < 2
xor_bit zero zero p q = omega arith
xor_bit zero (suc zero) p q = omega arith
xor_bit (suc zero) zero p q = omega arith
xor_bit (suc zero) (suc zero) p q = omega arith
xor_bit zero (suc (suc y)) p q = absurd (omega arith)
xor_bit (suc zero) (suc (suc y)) p q = absurd (omega arith)
xor_bit (suc (suc x)) y p q = absurd (omega arith)

-- Gates on bits give bits.
pub gate_value-lt : (f : ℕ → ℕ) (g : Gate) → ((i : ℕ) → f i < 2) → gate_value f g < 2
gate_value-lt f (and_gate a b o) h = and_bit (f a) (f b) (h a) (h b)
gate_value-lt f (xor_gate a b o) h = xor_bit (f a) (f b) (h a) (h b)
gate_value-lt f (inv_gate a o) h = xor_bit (f a) 1 (h a) (omega arith)
