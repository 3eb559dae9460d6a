-- ===== src/Gateway/AdminSessions/Life.antt =====
-- gateway/schema_session.go: how long a session lives.
use pmi.Base.{
  ℕ, ◌+◌, ◌<◌, ◌≤◌, String, ◌≡◌, ◌≢◌, Option, none, some, List, [], ◌∷◌, All, arith, ltb,
  if◌then◌else◌,
}
use pmi.Base.Http.{next, abort}
use pmi.Gateway.AdminSessions.{
  AdminSession, AdminSessionManager, create_session, get_session, admit, delete_session, cleanup,
  middleware, Event, created, asked, deleted, cleaned, step, run,
}

-- The event is not after `now`, and neither makes the session anew nor deletes it.
abbrev pub Spares : ℕ → String → Event → Type 0
Spares now id (created t other username ip user_agent) = other ≢ id
Spares now id (asked t other) = t ≤ now
Spares now id (deleted other) = other ≢ id
Spares now id (cleaned t) = t ≤ now

-- The entry is that of the user's session, or that is over at `now`.
Holds : ℕ → String → ℕ → Option AdminSession → Type 0
Holds now username ends none = ends < now
Holds now username ends (some session) = (session.username ≡ username) × (session.expires_at ≡ ends)

step-Holds :
    (now ends : ℕ) (id username : String) (e : Event) (asm : AdminSessionManager)
    → Spares now id e
    → Holds now username ends (asm.sessions id)
    → Holds now username ends ((step e asm).sessions id)
unfolding step create_session middleware admit get_session delete_session cleanup Holds
step-Holds now ends id username (created t other user ip agent) asm ne h = ground arith
step-Holds now ends id username (asked t other) asm le h = ground arith
step-Holds now ends id username (deleted other) asm ne h = ground arith
step-Holds now ends id username (cleaned t) asm le h = ground arith

run-Holds :
    (now ends : ℕ) (id username : String) (es : List Event) (asm : AdminSessionManager)
    → All (Spares now id) es
    → Holds now username ends (asm.sessions id)
    → Holds now username ends ((run es asm).sessions id)
unfolding run
run-Holds now ends id username [] asm all h = h
run-Holds now ends id username (e ∷ es) asm all h =
    run-Holds now ends id username es (step e asm) all.1
      (step-Holds now ends id username e asm all.0 h)

create_session-Holds :
    (t now : ℕ) (id username ip agent : String) (asm : AdminSessionManager)
    → Holds now username (t + asm.timeout) ((create_session t id username ip agent asm).sessions id)
unfolding create_session Holds
create_session-Holds t now id username ip agent asm = ground arith

middleware-Holds :
    (now ends : ℕ) (id username : String) (asm : AdminSessionManager)
    → id ≢ ""
    → Holds now username ends (asm.sessions id)
    → ((middleware now id asm).1 ≡ (if ltb ends now then none else some username))
      × ((middleware now id asm).2 ≡ (if ltb ends now then abort 401 else next))
unfolding middleware admit get_session Holds
middleware-Holds now ends id username asm ne h = ground arith

-- After a session was created, whatever follows that neither makes it anew nor deletes it, rounds
-- of the cleanup included, a request with its identifier passes as its user until the timeout is
-- over and is refused after that.
pub session_exact :
    (t now : ℕ) (id username ip agent : String) (es : List Event) (asm : AdminSessionManager)
    → id ≢ ""
    → All (Spares now id) es
    → let reply = middleware now id (run es (create_session t id username ip agent asm)) in
      let over = ltb (t + asm.timeout) now in
      (reply.1 ≡ (if over then none else some username))
      × (reply.2 ≡ (if over then abort 401 else next))
session_exact t now id username ip agent es asm ne all =
    let asm' = create_session t id username ip agent asm in
    middleware-Holds now (t + asm.timeout) id username (run es asm') ne (
      run-Holds now (t + asm.timeout) id username es asm' all
        (create_session-Holds t now id username ip agent asm))
