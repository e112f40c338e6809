-- ===== src/Circuit/Digests/Tests.antt =====
-- The digest of a chunk of the circuit with one AND gate, with hashes that are short.
use shachain2pc.Base.{ℕ, ◌+◌, ◌%◌, ◌≡◌, ◌⊎◌, refl, List, [], ◌∷◌, arith}
use shachain2pc.Circuit.Bristol.{to_emp_gate_array}
use shachain2pc.Circuit.Bristol.Tests.{and_circuit}
use shachain2pc.Circuit.Digests.{
  chunk_spec_digest, chunk_spec_text, circuit_text, circuit_digest, words_bytes,
}
use shachain2pc.Circuit.Digests.Binding.{HasI32, Collide, gadget_text, chunk_spec_digest_binding}
use shachain2pc.Flow.Handshake.{le_bytes}

-- A hash of one byte, the sum of all.
abbrev sum : List ℕ → ℕ
sum [] = 0
sum (x ∷ xs) = (x + sum xs) % 256

abbrev check_sum : List ℕ → List ℕ
check_sum xs = sum xs ∷ []

and_circuit-HasI32 : HasI32 and_circuit
unfolding to_emp_gate_array
and_circuit-HasI32 = (omega arith, omega arith)

-- Index 5 in chunks of 3 and index 3 in chunks of 5 have one sum.
same_sum : chunk_spec_digest check_sum 5 3 and_circuit ≡ chunk_spec_digest check_sum 3 5 and_circuit
unfolding chunk_spec_digest chunk_spec_text circuit_digest circuit_text words_bytes le_bytes
    to_emp_gate_array
same_sum = refl

chunk_spec_digest_binding_example :
    ((◌≡◌ {A = ℕ} 5 3) × (◌≡◌ {A = ℕ} 3 5) × (and_circuit ≡ and_circuit))
    ⊎ Collide check_sum
        (chunk_spec_text check_sum 5 3 and_circuit)
        (chunk_spec_text check_sum 3 5 and_circuit)
    ⊎ Collide check_sum (gadget_text and_circuit) (gadget_text and_circuit)
chunk_spec_digest_binding_example =
    chunk_spec_digest_binding check_sum 5 3 3 5 and_circuit and_circuit (omega arith) (omega arith)
      (omega arith) (omega arith) and_circuit-HasI32 and_circuit-HasI32 same_sum
