-- ===== src/Circuit/Bristol.antt =====
-- Bristol circuits of rust/crates/shachain2pc-circuit/src/lib.rs: the gates, parse_bristol and
-- eval_bristol. An `i32` that a check has shown not to be negative is a natural number.
pub mod Store
pub mod Parse
pub mod Tests
use shachain2pc.Base.{
  ℕ, zero, suc, ◌+◌, ◌-◌, ◌*◌, ◌^◌, Bool, true, false, not, ◌&&◌, ◌||◌, ◌==◌, ltb, leb,
  if◌then◌else◌, List, [], ◌∷◌, ◌++◌, map, length, replicate, take, drop, get_or, set, bit_and,
  bit_xor, Option, none, some, Result, ok, err, ◌>>=◌, ◌>>◌, guard,
}
use shachain2pc.Circuit.{
  CircuitError, missing_token, bad_number, inconsistent_header, bad_arity, unknown_op, bad_fan_in,
  wire_out_of_range, wrong_input_width, panicked,
}

-- A gate with its input wires and its output wire. An inverter has one input: the source's `in1` of
-- it is -1 and not read.
pub data Gate : Type 0 where
  and_gate xor_gate : ℕ → ℕ → ℕ → Gate
  inv_gate : ℕ → ℕ → Gate

pub record Circuit : Type 0 where
  pub num_wire : ℕ
  pub n1 : ℕ
  pub n2 : ℕ
  pub n3 : ℕ
  pub gates : List Gate

abbrev pub num_gate : Circuit → ℕ
num_gate c = length c.gates

-- `(c.n1 + c.n2) as usize`: the sum wraps at 32 bits and its sign is extended.
unfoldable pub input_width : Circuit → ℕ
input_width c = if ltb (c.n1 + c.n2) (2 ^ 31) then c.n1 + c.n2 else c.n1 + c.n2 + (2 ^ 64 - 2 ^ 32)

-- One gate, on wires that are there.
unfoldable pub eval_gate : List ℕ → Gate → List ℕ
eval_gate w (and_gate a b o) = set w o (bit_and (get_or w a 0) (get_or w b 0))
eval_gate w (xor_gate a b o) = set w o (bit_xor (get_or w a 0) (get_or w b 0))
eval_gate w (inv_gate a o) = set w o (bit_xor (get_or w a 0) 1)

-- Whether the three indices of a gate are among `n` wires.
unfoldable pub wires_exist : ℕ → Gate → Bool
wires_exist n (and_gate a b o) = ltb a n && ltb b n && ltb o n
wires_exist n (xor_gate a b o) = ltb a n && ltb b n && ltb o n
wires_exist n (inv_gate a o) = ltb a n && ltb o n

unfoldable pub eval_gates : List ℕ → List Gate → Result CircuitError (List ℕ)
unfolding eval_gate wires_exist
eval_gates w [] = ok w
eval_gates w (g ∷ gs) = guard (wires_exist (length w) g) panicked >> eval_gates (eval_gate w g) gs

-- `vec![0u8; num_wire]` with the input bits in front.
unfoldable pub input_wires : Circuit → List ℕ → List ℕ
input_wires c in_bits = map (λ b. bit_and b 1) in_bits ++ replicate (c.num_wire - length in_bits) 0

unfoldable pub eval_bristol : Circuit → List ℕ → Result CircuitError (List ℕ)
unfolding input_width input_wires eval_gates
eval_bristol c in_bits = do
  guard (length in_bits == input_width c) wrong_input_width
  guard (leb (length in_bits) c.num_wire) panicked
  w ← eval_gates (input_wires c in_bits) c.gates
  guard (leb c.n3 c.num_wire) panicked
  ok (take c.n3 (drop (c.num_wire - c.n3) w))

-- An `i32`: a number, or `-1 - n`.
pub data ℤ : Type 0 where
  pos negsuc : ℕ → ℤ

-- `char::is_whitespace`.
abbrev pub is_whitespace : ℕ → Bool
is_whitespace c =
    leb 9 c && leb c 13
    || c == 32
    || c == 0x85
    || c == 0xa0
    || c == 0x1680
    || leb 0x2000 c && leb c 0x200a
    || c == 0x2028
    || c == 0x2029
    || c == 0x202f
    || c == 0x205f
    || c == 0x3000

-- A token that is not empty joins the tokens behind it.
abbrev pub add_token : List ℕ → List (List ℕ) → List (List ℕ)
add_token [] rest = rest
add_token (c ∷ cs) rest = (c ∷ cs) ∷ rest

-- `str::split_whitespace`: the token at the front, and those behind it.
unfoldable pub split_words : List ℕ → List ℕ × List (List ℕ)
split_words [] = ([], [])
split_words (c ∷ cs) =
    let rest = split_words cs in
    if is_whitespace c then ([], add_token rest.0 rest.1) else (c ∷ rest.0, rest.1)

unfoldable pub split_whitespace : List ℕ → List (List ℕ)
unfolding split_words
split_whitespace text = add_token (split_words text).0 (split_words text).1

-- `i32::from_str`.
unfoldable pub decimal : ℕ → List ℕ → Option ℕ
decimal value [] = some value
decimal value (c ∷ cs) =
    let rest = decimal (value * 10 + (c - 48)) cs in if leb 48 c && leb c 57 then rest else none

abbrev pub digits_value : List ℕ → Option ℕ
unfolding decimal
digits_value [] = none
digits_value (c ∷ cs) = decimal 0 (c ∷ cs)

abbrev pub nonnegative : Option ℕ → Option ℤ
nonnegative none = none
nonnegative (some n) = if ltb n (2 ^ 31) then some (pos n) else none

abbrev pub negated : Option ℕ → Option ℤ
negated none = none
negated (some zero) = some (pos 0)
negated (some (suc n)) = if ltb n (2 ^ 31) then some (negsuc n) else none

unfoldable pub parse_i32 : List ℕ → Option ℤ
unfolding decimal
parse_i32 [] = none
parse_i32 (c ∷ cs) =
    if c == b'-'
    then negated (digits_value cs)
    else nonnegative (if c == b'+' then digits_value cs else digits_value (c ∷ cs))

unfoldable pub next_token : List (List ℕ) → Result CircuitError (List ℕ × List (List ℕ))
next_token [] = err missing_token
next_token (t ∷ ts) = ok (t, ts)

abbrev pub number_or_error : Option ℤ → List (List ℕ) → Result CircuitError (ℤ × List (List ℕ))
number_or_error none ts = err bad_number
number_or_error (some n) ts = ok (n, ts)

unfoldable pub next_parse : List (List ℕ) → Result CircuitError (ℤ × List (List ℕ))
unfolding next_token parse_i32
next_parse ts = next_token ts >>= λ (t, rest). number_or_error (parse_i32 t) rest

-- `in_range`, with the wire as a natural number.
unfoldable pub wire_in_range : ℕ → ℤ → Result CircuitError ℕ
wire_in_range num_wire (pos w) = if ltb w num_wire then ok w else err wire_out_of_range
wire_in_range num_wire (negsuc w) = err wire_out_of_range

-- `op.as_bytes().first() == Some(b)`.
abbrev pub starts_with : ℕ → List ℕ → Bool
starts_with b [] = false
starts_with b (c ∷ cs) = c == b

unfoldable pub parse_binary : ℕ → List (List ℕ) → Result CircuitError (Gate × List (List ℕ))
parse_binary num_wire ts = do
  (in0, ts₁) ← next_parse ts
  (in1, ts₂) ← next_parse ts₁
  (out, ts₃) ← next_parse ts₂
  (op, ts₄) ← next_token ts₃
  guard (starts_with b'A' op || starts_with b'X' op) unknown_op
  a ← wire_in_range num_wire in0
  o ← wire_in_range num_wire out
  b ← wire_in_range num_wire in1
  ok (if starts_with b'A' op then and_gate a b o else xor_gate a b o, ts₄)

unfoldable pub parse_inverter : ℕ → List (List ℕ) → Result CircuitError (Gate × List (List ℕ))
parse_inverter num_wire ts = do
  (in0, ts₁) ← next_parse ts
  (out, ts₂) ← next_parse ts₁
  (op, ts₃) ← next_token ts₂
  a ← wire_in_range num_wire in0
  o ← wire_in_range num_wire out
  ok (inv_gate a o, ts₃)

-- `match n_in`.
unfoldable pub parse_inputs : ℕ → ℤ → List (List ℕ) → Result CircuitError (Gate × List (List ℕ))
unfolding parse_binary parse_inverter
parse_inputs num_wire (pos n) ts =
    if n == 2
    then parse_binary num_wire ts
    else if n == 1
    then parse_inverter num_wire ts
    else err bad_fan_in
parse_inputs num_wire (negsuc n) ts = err bad_fan_in

abbrev pub is_one : ℤ → Bool
is_one (pos n) = n == 1
is_one (negsuc n) = false

unfoldable pub parse_gate : ℕ → List (List ℕ) → Result CircuitError (Gate × List (List ℕ))
unfolding parse_inputs
parse_gate num_wire ts = do
  (n_in, ts₁) ← next_parse ts
  (n_out, ts₂) ← next_parse ts₁
  guard (is_one n_out) bad_arity
  parse_inputs num_wire n_in ts₂

-- `for _ in 0..num_gate`.
unfoldable pub parse_gates : ℕ → ℕ → List (List ℕ) → Result CircuitError (List Gate × List (List ℕ))
unfolding parse_gate
parse_gates zero num_wire ts = ok ([], ts)
parse_gates (suc n) num_wire ts = do
  (g, ts₁) ← parse_gate num_wire ts
  (gs, ts₂) ← parse_gates n num_wire ts₁
  ok (g ∷ gs, ts₂)

-- The header's check: a sum of two `i32` from 2 ^ 31 on has wrapped to a negative number.
abbrev pub consistent : ℕ → ℕ → ℕ → ℕ → Bool
consistent num_wire n1 n2 n3 =
    ltb 0 num_wire && (leb (n1 + n2) num_wire || leb (2 ^ 31) (n1 + n2)) && leb n3 num_wire

unfoldable pub check_header : ℤ → ℤ → ℤ → ℤ → ℤ → Result CircuitError (ℕ × Circuit)
check_header (pos num_gate) (pos num_wire) (pos n1) (pos n2) (pos n3) =
    if consistent num_wire n1 n2 n3
    then ok (num_gate, record { num_wire = num_wire; n1 = n1; n2 = n2; n3 = n3; gates = [] })
    else err inconsistent_header
check_header _ _ _ _ _ = err inconsistent_header

-- The five numbers of the header: the gate count, and the circuit without its gates.
unfoldable pub parse_header : List (List ℕ) → Result CircuitError ((ℕ × Circuit) × List (List ℕ))
unfolding check_header
parse_header ts = do
  (num_gate, ts₁) ← next_parse ts
  (num_wire, ts₂) ← next_parse ts₁
  (n1, ts₃) ← next_parse ts₂
  (n2, ts₄) ← next_parse ts₃
  (n3, ts₅) ← next_parse ts₄
  header ← check_header num_gate num_wire n1 n2 n3
  ok (header, ts₅)

unfoldable pub parse_bristol : List ℕ → Result CircuitError Circuit
unfolding parse_header parse_gates split_whitespace
parse_bristol text = do
  ((count, c), ts) ← parse_header (split_whitespace text)
  (gs, rest) ← parse_gates count c.num_wire ts
  ok (record c { gates = gs })

-- The gate list of `to_emp_gate_array`: four numbers for each gate.
unfoldable pub to_emp_gate_array : List Gate → List ℕ
to_emp_gate_array [] = []
to_emp_gate_array (and_gate a b o ∷ gs) = a ∷ b ∷ o ∷ 0 ∷ to_emp_gate_array gs
to_emp_gate_array (xor_gate a b o ∷ gs) = a ∷ b ∷ o ∷ 1 ∷ to_emp_gate_array gs
to_emp_gate_array (inv_gate a o ∷ gs) = a ∷ 0 ∷ o ∷ 2 ∷ to_emp_gate_array gs
