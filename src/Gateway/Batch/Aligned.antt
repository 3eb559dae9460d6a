-- ===== src/Gateway/Batch/Aligned.antt =====
-- gateway/batch.go: which result of a batch belongs to which operation.
use pmi.Base.{
  ℕ, suc, ◌≤◌, String, ◌≡◌, ◌≢◌, refl, ap, ◌∙◌, Option, none, some, false, List, [], ◌∷◌, ◌++◌,
  arith, ltb, length, get_elem?, Option-cases, inl, inr, text_append, ◌+◌,
}
use pmi.Base.Result.{Result, ok, err}
use mathlib.Core.List.{append_assoc, append-nil}
use pmi.Gateway.Batch.{
  BatchHandler, BatchProcessor, BatchResponse, no_response, failed, handled, by_handler,
  process_one, process_from, process,
}

module _ {ℓ} {V : Type ℓ} (error_object : String → V) where
  handled_adds :
      (answer : Result (List V))
      → answer ≢ ok []
      → (v : V) × (es : List String) × ((r : BatchResponse V)
          → handled error_object answer r
            ≡ record { results = r.results ++ (v ∷ []); errors = r.errors ++ es })
  unfolding handled failed
  handled_adds (err e) h = (error_object e, e ∷ [], λ r. refl)
  handled_adds (ok []) h = absurd (h refl)
  handled_adds (ok (first ∷ others)) h = (first, [], λ r. rw (append-nil r.errors) refl)

module _ {ℓ} {W V : Type ℓ} (type_of : V → Option String) (error_object : String → V) where
  -- No handler succeeds with an empty list on one operation.
  abbrev pub NeverSilent : BatchProcessor W V → Type ℓ
  NeverSilent bp =
      (op_type : String) (handler : BatchHandler W V) (op : V) (w : W)
      → bp.handlers op_type ≡ some handler
      → (handler (op ∷ []) w).1 ≢ ok []

  -- What one operation does to the world and adds to the response.
  abbrev Adds : BatchProcessor W V → V → W → W → V → List String → Type ℓ
  Adds bp op w w' v es =
      (r : BatchResponse V)
      → process_one type_of error_object bp op r w
        ≡ (w', record { results = r.results ++ (v ∷ []); errors = r.errors ++ es })

  process_one-Adds :
      (bp : BatchProcessor W V) (op : V) (w : W)
      → NeverSilent bp
      → (w' : W) × (v : V) × (es : List String) × Adds bp op w w' v es
  unfolding process_one failed by_handler
  process_one-Adds bp op w loud = elim (Option-cases (type_of op)) [
    | inl e ↦ (
      w,
      error_object "type required",
      "operation type missing" ∷ [],
      λ r. rw (e, process_one) refl,
    )
    | inr (t, e) ↦ elim (Option-cases (bp.handlers t)) [
      | inl no_handler ↦ (
        w,
        error_object "unknown type",
        text_append "unknown operation: " t ∷ [],
        λ r. rw (e, process_one, no_handler, by_handler) refl,
      )
      | inr (h, found) ↦
          let (v, es, adds) = handled_adds error_object (h (op ∷ []) w).1 (loud t h op w found) in
          (
            (h (op ∷ []) w).0,
            v,
            es,
            λ r. rw (e, process_one, found, by_handler) (ap (λ x. ((h (op ∷ []) w).0, x)) (adds r)),
          )
    ]
  ]

  module _ (bp : BatchProcessor W V) (ctx_err : ℕ → Option String) (loud : NeverSilent bp)
      (in_time : (i : ℕ) → ctx_err i ≡ none) where
    world_after : List V → W → W
    world_after [] w = w
    world_after (op ∷ ops) w = world_after ops (process_one-Adds bp op w loud).0

    results_of : List V → W → List V
    results_of [] w = []
    results_of (op ∷ ops) w =
        let (w', v, es, adds) = process_one-Adds bp op w loud in v ∷ results_of ops w'

    errors_of : List V → W → List String
    errors_of [] w = []
    errors_of (op ∷ ops) w =
        let (w', v, es, adds) = process_one-Adds bp op w loud in es ++ errors_of ops w'

    process_from_lem :
        (i : ℕ) (ops : List V) (r : BatchResponse V) (w : W)
        → process_from type_of error_object bp ctx_err i ops r w ≡ (
          world_after ops w,
          ok (record {
            results = r.results ++ results_of ops w;
            errors = r.errors ++ errors_of ops w;
          }),
        )
    unfolding process_from world_after results_of errors_of
    process_from_lem i [] r w = rw (append-nil r.results, append-nil r.errors) refl
    process_from_lem i (op ∷ ops) r w =
        let (w', v, es, adds) = process_one-Adds bp op w loud in
        rw (process_from, in_time i)
          (ap (λ p. process_from type_of error_object bp ctx_err (suc i) ops p.1 p.0) (adds r)
            ∙ process_from_lem (suc i) ops _ w'
            ∙ rw
                (
                  append_assoc r.results (v ∷ []) (results_of ops w'),
                  append_assoc r.errors es (errors_of ops w'),
                )
                refl)

    result_at :
        (before : List V) (op : V) (after : List V) (w : W)
        → get_elem? (results_of (before ++ (op ∷ after)) w) (length before)
          ≡ some (process_one-Adds bp op (world_after before w) loud).1
    unfolding results_of world_after
    result_at [] op after w = refl
    result_at (x ∷ xs) op after w = result_at xs op after (process_one-Adds bp x w loud).0

    length-results_of : (ops : List V) (w : W) → length (results_of ops w) ≡ length ops
    unfolding results_of
    length-results_of [] w = refl
    length-results_of (op ∷ ops) w =
        ap suc (length-results_of ops (process_one-Adds bp op w loud).0)

    process_within :
        (ops : List V) (w : W)
        → length ops ≤ bp.max_batch_size
        → process type_of error_object bp ctx_err ops w ≡ (
          world_after ops w,
          ok (record { results = results_of ops w; errors = errors_of ops w }),
        )
    unfolding process
    process_within ops w small =
        let within : ltb bp.max_batch_size (length ops) ≡ false = ground arith in
        rw within (process_from_lem 0 ops no_response w)

    length-append_op :
        (before : List V) (op : V) (after : List V)
        → length (before ++ (op ∷ after)) ≡ length before + suc (length after)
    length-append_op [] op after = omega arith
    length-append_op (x ∷ xs) op after = omega (arith, length-append_op xs op after)

    -- Where no handler succeeds with nothing and the time does not run out, a batch within the
    -- limit succeeds with as many results as it has operations. The result at the place of an
    -- operation is the one it gets when it is sent alone, in the world that the operations before
    -- it leave when they are sent as a batch.
    pub process_aligned :
        (before : List V) (op : V) (after : List V) (w : W)
        → length (before ++ (op ∷ after)) ≤ bp.max_batch_size
        → (w₁ w₂ w₃ : W) × (r₁ r₂ r₃ : BatchResponse V) × (v : V) × (process type_of error_object bp
              ctx_err before w
            ≡ (w₁, ok r₁))
          × (process type_of error_object bp ctx_err (op ∷ []) w₁ ≡ (w₂, ok r₂))
          × (r₂.results ≡ v ∷ [])
          × (process type_of error_object bp ctx_err (before ++ (op ∷ after)) w ≡ (w₃, ok r₃))
          × (length r₃.results ≡ length (before ++ (op ∷ after)))
          × (get_elem? r₃.results (length before) ≡ some v)
    unfolding results_of
    process_aligned before op after w small =
        let ops = before ++ (op ∷ after) in
        let w₁ = world_after before w in
        let long : length ops ≡ length before + suc (length after) =
          length-append_op before op after in
        (
          w₁,
          world_after (op ∷ []) w₁,
          world_after ops w,
          record { results = results_of before w; errors = errors_of before w },
          record { results = results_of (op ∷ []) w₁; errors = errors_of (op ∷ []) w₁ },
          record { results = results_of ops w; errors = errors_of ops w },
          (process_one-Adds bp op w₁ loud).1,
          process_within before w (omega (arith, long, small)),
          process_within (op ∷ []) w₁ (omega (arith, long, small)),
          refl,
          process_within ops w small,
          length-results_of ops w,
          result_at before op after w,
        )
