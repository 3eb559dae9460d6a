-- ===== src/Gateway/RequestDedup/Examples.antt =====
-- gateway/request_dedup.go: runs with requests in flight.
use pmi.Base.{◌≡◌, refl, true, none, some, List, [], ◌∷◌, text_discrete}
use pmi.Gateway.RequestDedup.{RequestDeduplicator, new_request_deduplicator, begin_request, cleanup}
use pmi.Gateway.RequestDedup.Invariant.{Call, begin, complete, tick, run, run_total}

abbrev joined : List Call
joined = begin "k" ∷ begin "k" ∷ begin "j" ∷ tick ∷ []

abbrev finished : List Call
finished = begin "k" ∷ complete "k" "node" none ∷ complete "k" "node" none ∷ tick ∷ []

run_total_example : (rd : RequestDeduplicator) × (run finished new_request_deduplicator ≡ some rd)
run_total_example = run_total finished

abbrev after_joined : RequestDeduplicator
after_joined =
    cleanup
      (begin_request "j" (begin_request "k" (begin_request "k" new_request_deduplicator).0).0).0

duplicate_is_seen : (begin_request "k" after_joined).1.is_duplicate ≡ true
unfolding begin_request new_request_deduplicator cleanup text_discrete
duplicate_is_seen = refl
