-- ===== src/Matchmaker/Breaker/Examples.antt =====
-- matchmaker/service.go: reports about a node.
use pmi.Base.{◌≡◌, false, List, [], ◌∷◌, text_discrete}
use pmi.Matchmaker.Breaker.{new_breakers, is_node_healthy}
use pmi.Matchmaker.Breaker.History.{Event, failure, success, run, streak, healthy-streak}

abbrev reports : List Event
reports = failure "n" ∷ success "n" ∷ failure "n" ∷ failure "m" ∷ failure "n" ∷ []

healthy-streak_example : is_node_healthy "n" (run reports (new_breakers 2)) ≡ false
unfolding streak text_discrete
healthy-streak_example = healthy-streak 2 "n" reports
