-- ===== src/Gateway/AdminSessions.antt =====
-- gateway/schema_session.go: AdminSessionManager. The identifier that CreateSession makes of the
-- clock is an argument. Times and the timeout are in nanoseconds.
mod Life
mod Examples
use pmi.Base.{
  ℕ, ◌+◌, ◌*◌, ◌==◌, String, Option, none, some, List, [], ◌∷◌, ltb, if◌then◌else◌, ite,
  text_discrete, StringMap, empty, insert, delete,
}
use pmi.Base.Http.{Reply, next, abort}

pub record AdminSession : Type 0 where
  pub id : String
  pub username : String
  pub ip : String
  pub user_agent : String
  pub created_at : ℕ
  pub expires_at : ℕ
  pub last_active : ℕ

pub record AdminSessionManager : Type 0 where
  pub sessions : StringMap AdminSession
  pub timeout : ℕ

abbrev default_timeout : ℕ
default_timeout = 24 * 3600 * 1000000000

pub new_admin_session_manager : ℕ → AdminSessionManager
new_admin_session_manager timeout = record {
  sessions = empty;
  timeout = if timeout == 0 then default_timeout else timeout;
}

pub create_session :
    ℕ → String → String → String → String → AdminSessionManager → AdminSessionManager
create_session now session_id username ip user_agent asm = record asm {
  sessions =
      insert session_id
        (record {
          id = session_id;
          username = username;
          ip = ip;
          user_agent = user_agent;
          created_at = now;
          expires_at = now + asm.timeout;
          last_active = now;
        })
        asm.sessions;
}

pub get_session : ℕ → String → AdminSessionManager → AdminSessionManager × Option AdminSession
get_session now session_id asm = elim (asm.sessions session_id) [
  | none ↦ (asm, none)
  | some session ↦
      let active = record session { last_active = now } in
      if ltb session.expires_at now
      then (asm, none)
      else (record asm { sessions = insert session_id active asm.sessions }, some active)
]

pub delete_session : String → AdminSessionManager → AdminSessionManager
delete_session session_id asm = record asm { sessions = delete session_id asm.sessions }

-- One round of `cleanupLoop`.
pub cleanup : ℕ → AdminSessionManager → AdminSessionManager
cleanup now asm = record asm {
  sessions = λ key. elim (asm.sessions key) [
    | none ↦ none
    | some session ↦ if ltb session.expires_at now then none else some session
  ];
}

-- The reply, and the user that is set; `session_id` is the header "X-Admin-Session".
pub admit : AdminSessionManager × Option AdminSession → AdminSessionManager × Option String × Reply
admit (asm, none) = (asm, none, abort 401)
admit (asm, some session) = (asm, some session.username, next)

pub middleware : ℕ → String → AdminSessionManager → AdminSessionManager × Option String × Reply
unfolding get_session admit
middleware now session_id asm =
    ite (text_discrete session_id "") (asm, none, next) (admit (get_session now session_id asm))

-- What happens to the manager, each at its time.
pub data Event : Type 0 where
  created : ℕ → String → String → String → String → Event
  asked : ℕ → String → Event
  deleted : String → Event
  cleaned : ℕ → Event

pub step : Event → AdminSessionManager → AdminSessionManager
unfolding create_session middleware delete_session cleanup
step (created now session_id username ip user_agent) asm =
    create_session now session_id username ip user_agent asm
step (asked now session_id) asm = (middleware now session_id asm).0
step (deleted session_id) asm = delete_session session_id asm
step (cleaned now) asm = cleanup now asm

pub run : List Event → AdminSessionManager → AdminSessionManager
unfolding step
run [] asm = asm
run (e ∷ es) asm = run es (step e asm)
