-- ===== src/Circuit/Bristol/Tests.antt =====
-- The text of a circuit with one AND gate.
use shachain2pc.Base.{ℕ, ◌≡◌, refl, List, [], ◌∷◌, All, ok}
use shachain2pc.Circuit.Bristol.{
  Circuit, and_gate, eval_bristol, eval_gates, eval_gate, input_wires, input_width, parse_bristol,
  parse_header, check_header, parse_gates, parse_gate, parse_inputs, parse_binary, wire_in_range,
  next_parse, next_token, parse_i32, decimal, split_whitespace, split_words,
}
use shachain2pc.Circuit.Bristol.Store.{IsWithin}
use shachain2pc.Circuit.Bristol.Parse.{HasHeader, parse_bristol-IsWithin}

abbrev pub and_text : List ℕ
and_text =
    49 ∷ 32 ∷ 51 ∷ 10 ∷ 50 ∷ 32 ∷ 48 ∷ 32 ∷ 49 ∷ 10 ∷ 50 ∷ 32 ∷ 49 ∷ 32 ∷ 48 ∷ 32 ∷ 49 ∷ 32 ∷ 50
    ∷ 32 ∷ 65 ∷ 78 ∷ 68 ∷ 10 ∷ []

abbrev pub and_circuit : Circuit
and_circuit = record { num_wire = 3; n1 = 2; n2 = 0; n3 = 1; gates = and_gate 0 1 2 ∷ [] }

pub parse_and : parse_bristol and_text ≡ ok and_circuit
unfolding parse_bristol parse_header check_header parse_gates parse_gate parse_inputs parse_binary
    wire_in_range next_parse next_token parse_i32 decimal split_whitespace split_words
parse_and = refl

eval_and : eval_bristol and_circuit (1 ∷ 1 ∷ []) ≡ ok (1 ∷ [])
unfolding eval_bristol eval_gates eval_gate input_wires input_width
eval_and = refl

parse_bristol-IsWithin_example :
    All (IsWithin and_circuit.num_wire) and_circuit.gates × HasHeader and_circuit
parse_bristol-IsWithin_example = parse_bristol-IsWithin and_text parse_and
