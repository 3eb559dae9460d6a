-- ===== src/Matchmaker/RequestQueue/Examples.antt =====
-- matchmaker/latency.go: a queue for one request.
use pmi.Base.{ℕ, String, ◌≡◌, refl, true, false, none, some, List, [], ◌∷◌}
use pmi.Matchmaker.RequestQueue.{new_request_queue, channel_size}
use pmi.Matchmaker.RequestQueue.Fifo.{
  Call, enqueue_call, dequeue_call, remove_call, size_call, sent, received, size, done, run,
  spec_run, run_refines,
}

abbrev calls : List (Call ℕ)
calls =
    enqueue_call "a" 7
    ∷ enqueue_call "a" 8
    ∷ size_call "a"
    ∷ dequeue_call "a"
    ∷ dequeue_call "a"
    ∷ remove_call "a"
    ∷ enqueue_call "a" 9
    ∷ []

run_refines_example : run calls (new_request_queue 1) ≡ spec_run (channel_size 1) calls (λ _. [])
run_refines_example = run_refines 1 calls

second_is_refused :
    spec_run 1 calls (λ _. [])
    ≡ sent true ∷ sent false ∷ size 1 ∷ received (some 7) ∷ received none ∷ done ∷ sent true ∷ []
unfolding spec_run pmi.Base.text_discrete
second_is_refused = refl
