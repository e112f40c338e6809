-- ===== src/Circuit/Bristol/Parse.antt =====
-- What parse_bristol accepts, and what eval_bristol gives of it.
use shachain2pc.Base.{
  ℕ, zero, suc, ◌+◌, ◌^◌, ◌≤◌, ◌<◌, ◌≡◌, refl, sym, ap, subst, ◌∙◌, Bool, ◌⊎◌, inl, inr, ◌==◌, true,
  false, Bool-cases, if◌then◌else◌, ◌||◌, List, length, All, ok, guard, >>=-eq-ok, ok_injective,
  arith,
}
use shachain2pc.Circuit.{unknown_op, bad_arity}
use shachain2pc.Circuit.Bristol.{
  Gate, and_gate, xor_gate, Circuit, ℤ, pos, negsuc, next_token, next_parse, wire_in_range,
  starts_with, parse_binary, parse_inverter, parse_inputs, is_one, parse_gate, parse_gates,
  check_header, split_whitespace, parse_header, parse_bristol,
}
use shachain2pc.Circuit.Bristol.Store.{IsWithin}

wire_in_range-lt : (n : ℕ) (z : ℤ) {w : ℕ} → wire_in_range n z ≡ ok w → w < n
unfolding wire_in_range
wire_in_range-lt n (pos w) e = ground arith
wire_in_range-lt n (negsuc w) e = absurd (ground arith)

module _ (n : ℕ) where
  either :
      (test : Bool) {a b o : ℕ}
      → a < n
      → b < n
      → o < n
      → IsWithin n (if test then and_gate a b o else xor_gate a b o)
  either true p q r = ((p, q), r)
  either false p q r = ((p, q), r)

  parse_binary-IsWithin :
      (ts : List (List ℕ)) {g : Gate} {rest : List (List ℕ)}
      → parse_binary n ts ≡ ok (g, rest)
      → IsWithin n g
  unfolding parse_binary
  parse_binary-IsWithin ts e =
      let ((in0, ts₁), _, e₁) = >>=-eq-ok (next_parse ts) _ e in
      let ((in1, ts₂), _, e₂) = >>=-eq-ok (next_parse ts₁) _ e₁ in
      let ((out, ts₃), _, e₃) = >>=-eq-ok (next_parse ts₂) _ e₂ in
      let ((op, ts₄), _, e₄) = >>=-eq-ok (next_token ts₃) _ e₃ in
      let (_, _, e₅) =
        >>=-eq-ok (guard (starts_with b'A' op || starts_with b'X' op) unknown_op) _ e₄ in
      let (a, at_a, e₆) = >>=-eq-ok (wire_in_range n in0) _ e₅ in
      let (o, at_o, e₇) = >>=-eq-ok (wire_in_range n out) _ e₆ in
      let (b, at_b, e₈) = >>=-eq-ok (wire_in_range n in1) _ e₇ in
      subst (IsWithin n) (ap (λ r. r.0) (ok_injective e₈)) (
        either (starts_with b'A' op) (wire_in_range-lt n in0 at_a) (wire_in_range-lt n in1 at_b)
          (wire_in_range-lt n out at_o))

  parse_inverter-IsWithin :
      (ts : List (List ℕ)) {g : Gate} {rest : List (List ℕ)}
      → parse_inverter n ts ≡ ok (g, rest)
      → IsWithin n g
  unfolding parse_inverter
  parse_inverter-IsWithin ts e =
      let ((in0, ts₁), _, e₁) = >>=-eq-ok (next_parse ts) _ e in
      let ((out, ts₂), _, e₂) = >>=-eq-ok (next_parse ts₁) _ e₁ in
      let ((op, ts₃), _, e₃) = >>=-eq-ok (next_token ts₂) _ e₂ in
      let (a, at_a, e₄) = >>=-eq-ok (wire_in_range n in0) _ e₃ in
      let (o, at_o, e₅) = >>=-eq-ok (wire_in_range n out) _ e₄ in
      subst (IsWithin n) (ap (λ r. r.0) (ok_injective e₅))
        (wire_in_range-lt n in0 at_a, wire_in_range-lt n out at_o)

  parse_inputs-IsWithin :
      (z : ℤ) (ts : List (List ℕ)) {g : Gate} {rest : List (List ℕ)}
      → parse_inputs n z ts ≡ ok (g, rest)
      → IsWithin n g
  unfolding parse_inputs
  parse_inputs-IsWithin (negsuc k) ts e = absurd (ground arith)
  parse_inputs-IsWithin (pos k) ts e = elim (Bool-cases (k == 2)) [
    | inl t ↦ parse_binary-IsWithin ts (sym (rw t refl) ∙ e)
    | inr t ↦ elim (Bool-cases (k == 1)) [
      | inl u ↦ parse_inverter-IsWithin ts (sym (rw (t, u) refl) ∙ e)
      | inr u ↦ absurd (ground arith)
    ]
  ]

  parse_gate-IsWithin :
      (ts : List (List ℕ)) {g : Gate} {rest : List (List ℕ)}
      → parse_gate n ts ≡ ok (g, rest)
      → IsWithin n g
  unfolding parse_gate
  parse_gate-IsWithin ts e =
      let ((n_in, ts₁), _, e₁) = >>=-eq-ok (next_parse ts) _ e in
      let ((n_out, ts₂), _, e₂) = >>=-eq-ok (next_parse ts₁) _ e₁ in
      let (_, _, e₃) = >>=-eq-ok (guard (is_one n_out) bad_arity) _ e₂ in
      parse_inputs-IsWithin n_in ts₂ e₃

  parse_gates-IsWithin :
      (count : ℕ) (ts : List (List ℕ)) {gs : List Gate} {rest : List (List ℕ)}
      → parse_gates count n ts ≡ ok (gs, rest)
      → All (IsWithin n) gs × (length gs ≡ count)
  unfolding parse_gates
  parse_gates-IsWithin zero ts {gs} e =
      subst (λ l. All (IsWithin n) l × (length l ≡ 0)) (ap (λ r. r.0) (ok_injective e)) (tt, refl)
  parse_gates-IsWithin (suc count) ts {gs} e =
      let ((g, ts₁), at_g, e₁) = >>=-eq-ok (parse_gate n ts) _ e in
      let ((hs, ts₂), at_hs, e₂) = >>=-eq-ok (parse_gates count n ts₁) _ e₁ in
      let (all, len) = parse_gates-IsWithin count ts₁ at_hs in
      subst (λ l. All (IsWithin n) l × (length l ≡ suc count)) (ap (λ r. r.0) (ok_injective e₂))
        ((parse_gate-IsWithin ts at_g, all), ap suc len)

-- A header is accepted when it has a wire, its outputs fit and its inputs fit, or number 2 ^ 31 or
-- more.
abbrev pub HasHeader : Circuit → Type 0
HasHeader c =
    (0 < c.num_wire) × (c.n3 ≤ c.num_wire) × ((c.n1 + c.n2 ≤ c.num_wire) ⊎ (2 ^ 31 ≤ c.n1 + c.n2))

check_header-eq-ok :
    (z w x y v : ℤ) {count : ℕ} {c : Circuit} → check_header z w x y v ≡ ok (count, c) → HasHeader c
unfolding check_header
check_header-eq-ok (pos m) (pos w) (pos x) (pos y) (pos v) e = ground arith
check_header-eq-ok (negsuc m) w x y v e = absurd (ground arith)
check_header-eq-ok (pos m) (negsuc w) x y v e = absurd (ground arith)
check_header-eq-ok (pos m) (pos w) (negsuc x) y v e = absurd (ground arith)
check_header-eq-ok (pos m) (pos w) (pos x) (negsuc y) v e = absurd (ground arith)
check_header-eq-ok (pos m) (pos w) (pos x) (pos y) (negsuc v) e = absurd (ground arith)

parse_header-eq-ok :
    (ts : List (List ℕ)) {count : ℕ} {c : Circuit} {rest : List (List ℕ)}
    → parse_header ts ≡ ok ((count, c), rest)
    → HasHeader c
unfolding parse_header
parse_header-eq-ok ts {count} {c} e =
    let ((z, ts₁), _, e₁) = >>=-eq-ok (next_parse ts) _ e in
    let ((w, ts₂), _, e₂) = >>=-eq-ok (next_parse ts₁) _ e₁ in
    let ((x, ts₃), _, e₃) = >>=-eq-ok (next_parse ts₂) _ e₂ in
    let ((y, ts₄), _, e₄) = >>=-eq-ok (next_parse ts₃) _ e₃ in
    let ((v, ts₅), _, e₅) = >>=-eq-ok (next_parse ts₄) _ e₄ in
    let (h, header, e₆) = >>=-eq-ok (check_header z w x y v) _ e₅ in
    check_header-eq-ok z w x y v (header ∙ ap (λ r. ok r.0) (ok_injective e₆))

-- A parsed circuit has a wire; its outputs fit its wires, every gate's wires are among them, and
-- its inputs fit them too, but for a header whose two input counts sum to 2 ^ 31 or more.
pub parse_bristol-IsWithin :
    (text : List ℕ) {c : Circuit}
    → parse_bristol text ≡ ok c
    → All (IsWithin c.num_wire) c.gates × HasHeader c
unfolding parse_bristol
parse_bristol-IsWithin text {c} e =
    let (((count, h), ts), header, e₁) = >>=-eq-ok (parse_header (split_whitespace text)) _ e in
    let ((gs, rest), at_gs, e₂) = >>=-eq-ok (parse_gates count h.num_wire ts) _ e₁ in
    let within = (parse_gates-IsWithin h.num_wire count ts at_gs).0 in
    subst (λ d. All (IsWithin d.num_wire) d.gates × HasHeader d) (ok_injective e₂)
      (within, parse_header-eq-ok (split_whitespace text) header)
