-- ===== src/Gateway/AdminSessions/Examples.antt =====
-- gateway/schema_session.go: an administrator's session over an hour and a day.
use pmi.Base.{
  ℕ, ◌+◌, ◌*◌, String, ◌≡◌, ◌≢◌, refl, ap, none, some, List, [], ◌∷◌, All, arith, ltb,
  if◌then◌else◌, ite, text_discrete,
}
use pmi.Base.Http.{next, abort}
use pmi.Gateway.AdminSessions.{
  AdminSessionManager, new_admin_session_manager, create_session, middleware, Event, created, asked,
  deleted, cleaned, run,
}
use pmi.Gateway.AdminSessions.Life.{Spares, session_exact}

abbrev manager : AdminSessionManager
manager = new_admin_session_manager 3600

abbrev events : List Event
events =
    asked 200 "admin-1"
    ∷ created 250 "admin-2" "bo" "10.0.0.2" "curl"
    ∷ cleaned 300
    ∷ deleted "admin-2"
    ∷ []

two_sessions : ◌≢◌ {A = String} "admin-2" "admin-1"
unfolding pmi.Base.text_discrete
two_sessions e =
    let bad : ◌≡◌ {A = ℕ} 0 1 = ap (λ s. ite (text_discrete s "admin-1") 1 0) e in omega arith

named : ◌≢◌ {A = String} "admin-1" ""
unfolding pmi.Base.text_discrete
named e = let bad : ◌≡◌ {A = ℕ} 0 1 = ap (λ s. ite (text_discrete s "") 1 0) e in omega arith

events-Spares : All (Spares 400 "admin-1") events
events-Spares = (omega arith, (two_sessions, (omega arith, (two_sessions, tt))))

session_exact_example :
    ((middleware 400 "admin-1"
        (run events (create_session 100 "admin-1" "ann" "10.0.0.1" "curl" manager))).1
      ≡ (if ltb (100 + manager.timeout) 400 then none else some "ann"))
    × ((middleware 400 "admin-1"
          (run events (create_session 100 "admin-1" "ann" "10.0.0.1" "curl" manager))).2
        ≡ (if ltb (100 + manager.timeout) 400 then abort 401 else next))
session_exact_example =
    session_exact 100 400 "admin-1" "ann" "10.0.0.1" "curl" events manager named events-Spares

passes :
    ((middleware 400 "admin-1"
        (run events (create_session 100 "admin-1" "ann" "10.0.0.1" "curl" manager))).1
      ≡ some "ann")
unfolding pmi.Gateway.AdminSessions.run pmi.Gateway.AdminSessions.new_admin_session_manager
    pmi.Base.text_discrete
passes = refl
