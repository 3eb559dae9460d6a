-- ===== src/Gateway/Batch/Examples.antt =====
-- gateway/batch.go: a batch of four operations, each a text that is its own type.
use pmi.Base.{
  ℕ, suc, ◌++◌, ◌≤◌, String, ◌≡◌, ◌≢◌, refl, Option, none, some, List, [], ◌∷◌, arith, ite,
  text_discrete, length, get_elem?,
}
use pmi.Base.Result.{ok}
use pmi.Gateway.Batch.{BatchHandler, BatchProcessor, BatchResponse, process}
use pmi.Gateway.Batch.Aligned.{NeverSilent, process_aligned}

abbrev type_of : String → Option String
type_of op = ite (text_discrete op "") none (some op)

abbrev error_object : String → String
error_object e = e

-- A handler that answers the operation and counts it.
abbrev echo : BatchHandler ℕ String
echo ops count = (suc count, ok ops)

-- One handler for the type "ping".
abbrev processor : BatchProcessor ℕ String
processor = record {
  handlers = λ op_type. ite (text_discrete op_type "ping") (some echo) none;
  max_batch_size = 4;
  timeout = 5;
}

abbrev never : ℕ → Option String
never i = none

processor-NeverSilent : NeverSilent type_of error_object processor
processor-NeverSilent op_type handler op w found = λ silent. ground arith

abbrev one : List String
one = "ping" ∷ []

process_aligned_example :
    (w₁ w₂ w₃ : ℕ) × (r₁ r₂ r₃ : BatchResponse String) × (v : String) × (process type_of
        error_object processor never one 0
      ≡ (w₁, ok r₁))
    × (process type_of error_object processor never ("pong" ∷ []) w₁ ≡ (w₂, ok r₂))
    × (r₂.results ≡ v ∷ [])
    × (process type_of error_object processor never (one ++ ("pong" ∷ "" ∷ [])) 0 ≡ (w₃, ok r₃))
    × (length r₃.results ≡ length (one ++ ("pong" ∷ "" ∷ [])))
    × (get_elem? r₃.results (length one) ≡ some v)
process_aligned_example =
    process_aligned type_of error_object processor never processor-NeverSilent (λ i. refl) one
      "pong" ("" ∷ []) 0 (omega arith)

three_answers : process type_of error_object processor never ("ping" ∷ "pong" ∷ "" ∷ []) 0 ≡ (
  1,
  ok (record {
    results = "ping" ∷ "unknown type" ∷ "type required" ∷ [];
    errors = "unknown operation: pong" ∷ "operation type missing" ∷ [];
  }),
)
unfolding process pmi.Base.text_discrete
three_answers = refl
