-- ===== src/Gateway/Batch.antt =====
-- gateway/batch.go: BatchProcessor. The operations and results are JSON objects, a type with the
-- field "type" of an operation, where it is a text, and the object that reports an error. What
-- `ctx.Err()` is before each operation, after the time limit or a cancellation, is an argument. A
-- handler may read and change a world, which nothing else changes while a batch runs.
mod Aligned
mod Examples
use pmi.Base.{
  text_append, ℕ, zero, suc, String, Option, none, some, List, [], ◌∷◌, ◌++◌, ltb, if◌then◌else◌,
  length, StringMap, empty, insert,
}
use pmi.Base.Result.{Result, ok, err}

abbrev pub BatchHandler {ℓ} : Type ℓ → Type ℓ → Type ℓ
BatchHandler W V = List V → W → W × Result (List V)

pub record BatchProcessor {ℓ} (W : Type ℓ) (V : Type ℓ) : Type ℓ where
  pub handlers : StringMap (BatchHandler W V)
  pub max_batch_size : ℕ
  pub timeout : ℕ

pub record BatchResponse {ℓ} (V : Type ℓ) : Type ℓ where
  pub results : List V
  pub errors : List String

abbrev pub no_response {ℓ} : {V : Type ℓ} → BatchResponse V
no_response = record { results = []; errors = [] }

new_batch_processor {ℓ} : {W V : Type ℓ} → ℕ → ℕ → BatchProcessor W V
new_batch_processor max_batch_size timeout = record {
  handlers = empty;
  max_batch_size = max_batch_size;
  timeout = timeout;
}

register_handler {ℓ} :
    {W V : Type ℓ} → String → BatchHandler W V → BatchProcessor W V → BatchProcessor W V
register_handler operation handler bp = record bp {
  handlers = insert operation handler bp.handlers;
}

-- What the handler of a request answers.
pub data BatchReply {ℓ} (V : Type ℓ) : Type ℓ where
  bad_request : BatchReply V
  server_error : String → BatchReply V
  answered : BatchResponse V → BatchReply V

module _ {ℓ} {V : Type ℓ} (error_object : String → V) where
  failed : String → String → BatchResponse V → BatchResponse V
  failed error shown r = record {
    results = r.results ++ (error_object shown ∷ []);
    errors = r.errors ++ (error ∷ []);
  }

  handled : Result (List V) → BatchResponse V → BatchResponse V
  unfolding failed
  handled (err e) r = failed e e r
  handled (ok []) r = r
  handled (ok (first ∷ others)) r = record r { results = r.results ++ (first ∷ []) }

module _ {ℓ} {W V : Type ℓ} (type_of : V → Option String) (error_object : String → V) where
  by_handler : String → Option (BatchHandler W V) → V → BatchResponse V → W → W × BatchResponse V
  unfolding failed handled
  by_handler op_type none op r w =
      (w, failed error_object (text_append "unknown operation: " op_type) "unknown type" r)
  by_handler op_type (some handler) op r w =
      let (w', answer) = handler (op ∷ []) w in (w', handled error_object answer r)

  -- One round of the loop.
  process_one : BatchProcessor W V → V → BatchResponse V → W → W × BatchResponse V
  unfolding failed by_handler
  process_one bp op r w = elim (type_of op) [
    | none ↦ (w, failed error_object "operation type missing" "type required" r)
    | some op_type ↦ by_handler op_type (bp.handlers op_type) op r w
  ]

  -- The loop, from operation `i` on.
  process_from :
      BatchProcessor W V
      → (ℕ → Option String)
      → ℕ
      → List V
      → BatchResponse V
      → W
      → W × Result (BatchResponse V)
  unfolding process_one
  process_from bp ctx_err i [] r w = (w, ok r)
  process_from bp ctx_err i (op ∷ ops) r w =
      let (w', r') = process_one bp op r w in
      let rest = process_from bp ctx_err (suc i) ops r' w' in
      elim (ctx_err i) [ some e ↦ (w, err e) | none ↦ rest ]

  pub process : BatchProcessor W V → (ℕ → Option String) → List V → W → W × Result (BatchResponse V)
  unfolding process_from
  process bp ctx_err ops w =
      if ltb bp.max_batch_size (length ops)
      then (w, err "batch size exceeds maximum")
      else process_from bp ctx_err 0 ops no_response w

  -- `body` is what the request's body binds to, if it does.
  batch_handler : BatchProcessor W V → (ℕ → Option String) → Option (List V) → W → W × BatchReply V
  unfolding process
  batch_handler bp ctx_err none w = (w, bad_request)
  batch_handler bp ctx_err (some ops) w =
      let (w', answer) = process bp ctx_err ops w in
      (w', elim answer [ err e ↦ server_error e | ok r ↦ answered r ])
