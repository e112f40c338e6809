-- ===== src/Circuit/Builder/Apply.antt =====
-- apply_gadget: the wires that it returns carry what eval_bristol gives of the gadget.
use native.Mathlib.Decide.{dec_lt}
use shachain2pc.Base.{
  ℕ, zero, suc, ◌+◌, ◌-◌, ◌%◌, ◌≤◌, ◌<◌, ◌≡◌, refl, sym, ap, ◌∙◌, ◌==◌, leb, true, List, [], ◌∷◌,
  ◌++◌, map, length, length-append, length-map, length-replicate, length-take, length-drop, get_or,
  replicate, take, drop, All, All-append, bit_and, ok, arith,
}
use shachain2pc.Base.Bits.{bit_and-one}
use shachain2pc.Base.Reads.{
  range, length-range, get_or-range, get_or-left, get_or-right, get_or-end, get_or-map, list_ext,
  map-take, map-drop, All-take, All-drop, All-get_or,
}
use shachain2pc.Circuit.Bristol.{Gate, Circuit, input_width, input_wires, eval_bristol}
use shachain2pc.Circuit.Bristol.Store.{
  IsWithin, OutBelow, run, run-append, reads, wires_after, length-wires_after, reads-wires_after,
  eval_gates-eq-ok, wires_exist-IsWithin,
}
use shachain2pc.Circuit.Builder.{
  Builder, relabel, push_gates, alloc, wire_map, gates_exist, apply_gadget,
}
use shachain2pc.Circuit.Builder.Ready.{Below, All-mono, All-IsWithin_mono, wire_value, Ready, Later}
use shachain2pc.Circuit.Builder.Gadget.{
  WritesNew, IsGadget, run_agrees, run_keeps, relabelled-IsWithin, run_bits, push_gates_lem,
}

get_or-zeros : (n i : ℕ) → ◌≡◌ {A = ℕ} (get_or (replicate n 0) i 0) 0
get_or-zeros zero i = refl
get_or-zeros (suc n) zero = refl
get_or-zeros (suc n) (suc i) = get_or-zeros n i

range_above : (start count : ℕ) → All (Below (start + count)) (range start count)
range_above start zero = tt
range_above start (suc count) =
    (omega arith, All-mono _ _ _ (omega arith) (range_above (suc start) count))

pub outs_below : (inputs n : ℕ) (gs : List Gate) → All (WritesNew inputs n) gs → All (OutBelow n) gs
outs_below inputs n [] h = tt
outs_below inputs n (g ∷ gs) h = (h.0.0.1, outs_below inputs n gs h.1)

pub length-input_wires :
    (c : Circuit) (xs : List ℕ) → length xs ≤ c.num_wire → length (input_wires c xs) ≡ c.num_wire
unfolding input_wires
length-input_wires c xs h = omega (
  arith,
  length-append (map (λ x. bit_and x 1) xs) (replicate (c.num_wire - length xs) 0),
  length-map xs (λ (x : ℕ). bit_and x 1),
  length-replicate {A = ℕ} (c.num_wire - length xs) 0,
)

-- A circuit whose gates use its own wires evaluates, on inputs of its width that fit.
pub eval_bristol-eq-ok :
    (c : Circuit) (xs : List ℕ)
    → length xs ≡ input_width c
    → length xs ≤ c.num_wire
    → c.n3 ≤ c.num_wire
    → All (IsWithin c.num_wire) c.gates
    → eval_bristol c xs
      ≡ ok (take c.n3 (drop (c.num_wire - c.n3) (wires_after (input_wires c xs) c.gates)))
unfolding eval_bristol
eval_bristol-eq-ok c xs w l o h =
    let same : (length xs == input_width c) ≡ true = ground (arith, w) in
    let fits : leb (length xs) c.num_wire ≡ true = ground (arith, l) in
    let outs : leb c.n3 c.num_wire ≡ true = ground (arith, o) in
    let gates =
      eval_gates-eq-ok (input_wires c xs) c.gates c.num_wire (length-input_wires c xs l) h in
    rw (same, fits, gates, outs) refl

pub gates-IsWithin :
    (inputs n : ℕ) (gs : List Gate) → All (WritesNew inputs n) gs → All (IsWithin n) gs
gates-IsWithin inputs n [] h = tt
gates-IsWithin inputs n (g ∷ gs) h = (h.0.0, gates-IsWithin inputs n gs h.1)

gates_exist-IsWithin : (n : ℕ) (gs : List Gate) → All (IsWithin n) gs → gates_exist n gs ≡ true
unfolding gates_exist
gates_exist-IsWithin n [] h = refl
gates_exist-IsWithin n (g ∷ gs) h =
    rw (wires_exist-IsWithin n g h.0) (gates_exist-IsWithin n gs h.1)

-- The wires start with the inputs' lowest bits, and 0 behind them.
pub reads-input_wires :
    (c : Circuit) (xs : List ℕ) (i : ℕ) → reads (input_wires c xs) i ≡ reads xs i % 2
unfolding input_wires
reads-input_wires c xs i = elim (dec_lt i (length xs)) [
  | yes l ↦
      get_or-left (map (λ x. bit_and x 1) xs) _ i 0
        (omega (arith, length-map xs (λ (x : ℕ). bit_and x 1)))
      ∙ get_or-map (λ x. bit_and x 1) xs i 0 0 l
      ∙ bit_and-one (reads xs i)
  | no n ↦
      get_or-right (map (λ x. bit_and x 1) xs) _ i 0
        (omega (arith, length-map xs (λ (x : ℕ). bit_and x 1)))
      ∙ get_or-zeros (c.num_wire - length xs) _
      ∙ omega (arith, get_or-end xs i 0 (omega arith))
]

module _ (f₀ : ℕ → ℕ) (c : Circuit) (g : IsGadget c) (inputs : List ℕ) (b : Builder)
    (r : Ready f₀ b) (below : All (Below b.next) inputs)
    (fits : length inputs ≡ input_width c) where
  abbrev spread : List ℕ
  spread = inputs ++ range b.next (c.num_wire - input_width c)

  abbrev added : ℕ
  added = c.num_wire - input_width c

  old_wire : (i : ℕ) → i < input_width c → reads spread i < b.next
  old_wire i l =
      rw (get_or-left inputs (range b.next added) i 0 (omega arith))
        (All-get_or (Below b.next) inputs i 0 below (omega arith))

  new_wire :
      (i : ℕ) → input_width c ≤ i → i < c.num_wire → reads spread i ≡ b.next + (i - input_width c)
  new_wire i l h =
      get_or-right inputs (range b.next added) i 0 (omega arith)
      ∙ get_or-range b.next added (i - length inputs) 0 (omega (arith, fits))
      ∙ omega (arith, fits)

  wire_below : (i : ℕ) → i < c.num_wire → reads spread i < b.next + added
  wire_below i l = elim (dec_lt i (input_width c)) [
    | yes h ↦ omega (arith, old_wire i h)
    | no h ↦ omega (arith, new_wire i (omega arith) l)
  ]

  abbrev start : List ℕ
  start = input_wires c (map (wire_value f₀ b) inputs)

  starts_equal : (i : ℕ) → i < c.num_wire → wire_value f₀ b (reads spread i) ≡ reads start i
  starts_equal i l = elim (dec_lt i (input_width c)) [
    | yes h ↦
        ap (wire_value f₀ b) (get_or-left inputs (range b.next added) i 0 (omega arith))
        ∙ omega (
          arith,
          r.bits (reads inputs i),
          reads-input_wires c (map (wire_value f₀ b) inputs) i,
          get_or-map (wire_value f₀ b) inputs i 0 0 (omega arith),
        )
    | no h ↦
        r.fresh (reads spread i) (omega (arith, new_wire i (omega arith) l))
        ∙ omega (
          arith,
          reads-input_wires c (map (wire_value f₀ b) inputs) i,
          get_or-end (map (wire_value f₀ b) inputs) i 0
              (omega (arith, length-map inputs (wire_value f₀ b))),
        )
  ]

  abbrev after : Builder
  after = push_gates spread c.gates (record b { next = b.next + added })

  after_value : wire_value f₀ after ≡ run (wire_value f₀ b) (map (relabel spread) c.gates)
  after_value =
      ap (run f₀) (push_gates_lem spread c.gates (record b { next = b.next + added })).1
      ∙ run-append f₀ b.gates (map (relabel spread) c.gates)

  after_next : after.next ≡ b.next + added
  after_next = (push_gates_lem spread c.gates (record b { next = b.next + added })).0

  start-length : length start ≡ c.num_wire
  start-length =
      length-input_wires c (map (wire_value f₀ b) inputs)
        (omega (arith, length-map inputs (wire_value f₀ b), g.inputs_fit))

  final : List ℕ
  final = wires_after start c.gates

  carried : map (wire_value f₀ after) spread ≡ wires_after start c.gates
  carried =
      let all_wires : length spread ≡ c.num_wire = omega (
        arith,
        length-append inputs (range b.next added),
        length-range b.next added,
        g.inputs_fit,
      ) in
      list_ext (map (wire_value f₀ after) spread) (wires_after start c.gates) 0
        (length-map spread (wire_value f₀ after)
          ∙ all_wires
          ∙ sym (length-wires_after start c.gates ∙ start-length))
        (λ i l.
          let inside : i < c.num_wire =
            omega (arith, length-map spread (wire_value f₀ after), all_wires) in
          get_or-map (wire_value f₀ after) spread i 0 0 (omega (arith, all_wires))
          ∙ ap (λ (h : ℕ → ℕ). h (reads spread i)) after_value
          ∙ run_agrees spread (input_width c) c.num_wire b.next old_wire new_wire (wire_value f₀ b)
              (reads start) c.gates g.gates_fit starts_equal i inside
          ∙ sym (
              ap (λ (h : ℕ → ℕ). h i)
                (reads-wires_after start c.gates c.num_wire start-length
                  (outs_below (input_width c) c.num_wire c.gates g.gates_fit))))

  after-Ready : Ready f₀ after
  after-Ready = record {
    within = rw (push_gates_lem spread c.gates (record b { next = b.next + added })).1 (
        All-append (IsWithin after.next) b.gates (map (relabel spread) c.gates)
          (All-IsWithin_mono b.next after.next b.gates (omega (arith, after_next)) r.within)
          (relabelled-IsWithin spread (input_width c) c.num_wire b.next old_wire new_wire after.next
            c.gates g.gates_fit (λ i l. omega (arith, wire_below i l, after_next))));
    bits = λ i. rw after_value (run_bits (wire_value f₀ b) _ r.bits i);
    fresh = λ i l.
        ap (λ (h : ℕ → ℕ). h i) after_value
        ∙ run_keeps spread (input_width c) c.num_wire b.next old_wire new_wire (wire_value f₀ b)
            c.gates i g.gates_fit (λ o p q e. omega (arith, wire_below o q, after_next))
        ∙ r.fresh i (omega (arith, after_next));
  }

  after-Later : Later f₀ b after
  after-Later = record {
    grows = omega (arith, after_next);
    keeps = λ i l.
        ap (λ (h : ℕ → ℕ). h i) after_value
        ∙ run_keeps spread (input_width c) c.num_wire b.next old_wire new_wire (wire_value f₀ b)
            c.gates i g.gates_fit (λ o p q e. omega (arith, new_wire o p q));
  }

  -- What a call leaves: the builder with the gadget's gates, and the wires of the gadget's outputs.
  abbrev pub Applied : List ℕ × Builder → Type 0
  Applied (out, after) =
      (apply_gadget c inputs b ≡ ok (out, after))
      × Ready f₀ after
      × Later f₀ b after
      × All (Below after.next) out
      × (eval_bristol c (map (wire_value f₀ b) inputs) ≡ ok (map (wire_value f₀ after) out))
      × (after.next ≡ b.next + (c.num_wire - input_width c))
      × (length out ≡ c.n3)

  spread-Below : All (Below after.next) spread
  spread-Below =
      All-append (Below after.next) inputs (range b.next added)
        (All-mono _ _ inputs (omega (arith, after_next)) below)
        (All-mono _ _ _ (omega (arith, after_next)) (range_above b.next added))

  pub apply_gadget-Applied : (r : List ℕ × Builder) × Applied r
  unfolding apply_gadget wire_map alloc
  apply_gadget-Applied =
      let out : List ℕ = take c.n3 (drop (c.num_wire - c.n3) spread) in
      let within = gates-IsWithin (input_width c) c.num_wire c.gates g.gates_fit in
      let width = length-map inputs (wire_value f₀ b) ∙ fits in
      (
        (out, after),
        (
          rw
              (
                ==_eq fits,
                leb_le g.inputs_fit,
                gates_exist-IsWithin c.num_wire c.gates within,
                leb_le g.outputs_fit,
              )
              refl,
          after-Ready,
          after-Later,
          All-take (Below after.next) c.n3 _
              (All-drop (Below after.next) (c.num_wire - c.n3) spread spread-Below),
          eval_bristol-eq-ok c (map (wire_value f₀ b) inputs) width
                (omega (arith, width, g.inputs_fit)) g.outputs_fit within
              ∙ ap ok (
                  sym (
                    map-take (wire_value f₀ after) c.n3 (drop (c.num_wire - c.n3) spread)
                    ∙ ap (take c.n3) (
                        map-drop (wire_value f₀ after) (c.num_wire - c.n3) spread
                        ∙ ap (drop (c.num_wire - c.n3)) carried))),
          after_next,
          omega (
            arith,
            length-take c.n3 (drop (c.num_wire - c.n3) spread),
            length-drop (c.num_wire - c.n3) spread,
            length-append inputs (range b.next added),
            length-range b.next added,
            g.inputs_fit,
            g.outputs_fit,
          ),
        ),
      )
    where
      ==_eq : {x y : ℕ} → x ≡ y → (x == y) ≡ true
      ==_eq {x} {y} e = ground arith

      leb_le : {x y : ℕ} → x ≤ y → leb x y ≡ true
      leb_le {x} {y} h = ground arith
