-- ===== src/Matchmaker/Breaker/History.antt =====
-- matchmaker/service.go: the breakers against the history of what was reported.
use pmi.Base.{
  ℕ, ◌+◌, String, ◌≡◌, refl, ap, ◌∙◌, ite, ◌||◌, none, some, List, [], ◌∷◌, arith, ltb, ◌==◌,
  if◌then◌else◌, text_discrete,
}
use pmi.Matchmaker.Breaker.{
  closed, open_state, Breakers, new_breakers, is_node_healthy, record_failure, record_success,
  reset_circuit_breaker,
}

pub data Event : Type 0 where
  failure : String → Event
  success : String → Event
  reset : String → Event

pub step : Event → Breakers → Breakers
unfolding record_failure record_success reset_circuit_breaker
step (failure id) m = record_failure id m
step (success id) m = record_success id m
step (reset id) m = reset_circuit_breaker id m

pub run : List Event → Breakers → Breakers
run [] m = m
run (e ∷ es) m = run es (step e m)

-- The failures of a node since it was last reported well or reset, oldest event first.
unfoldable pub streak : String → ℕ → List Event → ℕ
streak id n [] = n
streak id n (failure j ∷ es) = streak id (ite (text_discrete j id) (n + 1) n) es
streak id n (success j ∷ es) = streak id (ite (text_discrete j id) 0 n) es
streak id n (reset j ∷ es) = streak id (ite (text_discrete j id) 0 n) es

-- The breaker of a node after `n` failures in a row.
abbrev Agrees : String → ℕ → Breakers → Type 0
Agrees id n m = elim (m.circuit_breakers id) [
  | none ↦ n ≡ 0
  | some cb ↦
      (cb.failure_count ≡ n)
      × (cb.threshold ≡ m.threshold)
      × (cb.state ≡ (if n == 0 || ltb n m.threshold then closed else open_state))
]

step-threshold : (e : Event) (m : Breakers) → (step e m).threshold ≡ m.threshold
unfolding step
step-threshold (failure j) m = refl
step-threshold (success j) m = ground arith
step-threshold (reset j) m = ground arith

failure-Agrees :
    (id j : String) (n : ℕ) (m : Breakers)
    → Agrees id n m
    → Agrees id (ite (text_discrete j id) (n + 1) n) (step (failure j) m)
unfolding step
failure-Agrees id j n m h = ground arith

success-Agrees :
    (id j : String) (n : ℕ) (m : Breakers)
    → Agrees id n m
    → Agrees id (ite (text_discrete j id) 0 n) (step (success j) m)
unfolding step
success-Agrees id j n m h = ground arith

reset-Agrees :
    (id j : String) (n : ℕ) (m : Breakers)
    → Agrees id n m
    → Agrees id (ite (text_discrete j id) 0 n) (step (reset j) m)
unfolding step
reset-Agrees id j n m h = ground arith

run-Agrees :
    (id : String) (es : List Event) (n : ℕ) (m : Breakers)
    → Agrees id n m
    → Agrees id (streak id n es) (run es m)
unfolding run streak
run-Agrees id [] n m h = h
run-Agrees id (failure j ∷ es) n m h =
    run-Agrees id es _ (step (failure j) m) (failure-Agrees id j n m h)
run-Agrees id (success j ∷ es) n m h =
    run-Agrees id es _ (step (success j) m) (success-Agrees id j n m h)
run-Agrees id (reset j ∷ es) n m h = run-Agrees id es _ (step (reset j) m) (reset-Agrees id j n m h)

run-threshold : (es : List Event) (m : Breakers) → (run es m).threshold ≡ m.threshold
unfolding run
run-threshold [] m = refl
run-threshold (e ∷ es) m = run-threshold es (step e m) ∙ step-threshold e m

agreed_health :
    (id : String) (n : ℕ) (m : Breakers)
    → Agrees id n m
    → is_node_healthy id m ≡ (n == 0 || ltb n m.threshold)
unfolding is_node_healthy
agreed_health id n m h = ground arith

-- After any reports about any nodes, a node counts as healthy exactly if it has not failed since it
-- was last reported well or reset, or has failed less often since than the threshold.
pub healthy-streak :
    (threshold : ℕ) (id : String) (es : List Event)
    → is_node_healthy id (run es (new_breakers threshold))
      ≡ (streak id 0 es == 0 || ltb (streak id 0 es) threshold)
unfolding new_breakers
healthy-streak threshold id es =
    agreed_health id _ (run es (new_breakers threshold))
      (run-Agrees id es 0 (new_breakers threshold) refl)
    ∙ ap (λ t. streak id 0 es == 0 || ltb (streak id 0 es) t)
        (run-threshold es (new_breakers threshold))
