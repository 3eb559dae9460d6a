-- ===== src/Matchmaker/Sessions.antt =====
-- matchmaker/session_persist.go: which node a session is bound to. `Metadata`, which nothing
-- writes, is left out; `show` stands for the text of the session that is stored in Redis.
mod Failing
mod Examples
use pmi.Base.{
  [], text_append, ℕ, zero, suc, ◌+◌, String, ite, Bool, true, false, ◌&&◌, Option, none, some,
  List, ◌∷◌, ltb, if◌then◌else◌, text_discrete, StringMap, insert, delete,
}
use pmi.Base.Redis
use pmi.Base.Redis.{Outbox, send}

pub record SessionInfo : Type 0 where
  pub session_id : String
  pub node_id : String
  pub user_id : String
  pub created_at : ℕ
  pub last_used_at : ℕ
  pub expires_at : ℕ
  pub failover_node : String

-- `readers` is the number of read locks that are held on the mutex.
pub record SessionPersistence : Type 0 where
  pub redis : Outbox
  pub sessions : StringMap SessionInfo
  pub default_ttl : ℕ
  pub readers : ℕ

session_key : String → String
session_key id = text_append "session_persist:" id

pub create_session :
    (SessionInfo → String)
    → ℕ
    → String
    → String
    → String
    → String
    → SessionPersistence
    → SessionPersistence
create_session show now id node_id user_id failover_node sp =
    let session : SessionInfo = record {
      session_id = id;
      node_id = node_id;
      user_id = user_id;
      created_at = now;
      last_used_at = now;
      expires_at = now + sp.default_ttl;
      failover_node = failover_node;
    } in
    record sp {
      redis =
          send (Redis.set (session_key id) (Redis.text (show session)) sp.default_ttl ∷ [])
            sp.redis;
      sessions = insert id session sp.sessions;
    }

r_lock : SessionPersistence → SessionPersistence
r_lock sp = record sp { readers = sp.readers + 1 }

-- none: the mutex is not locked for reading, which ends the program.
r_unlock : SessionPersistence → Option SessionPersistence
r_unlock sp = elim sp.readers [ zero ↦ none | suc n ↦ some (record sp { readers = n }) ]

-- `defer sp.mu.RUnlock()`, with what the function returns
leave : String × Bool → SessionPersistence → Option (SessionPersistence × (String × Bool))
unfolding r_unlock
leave answer sp = elim (r_unlock sp) [ none ↦ none | some sp' ↦ some (sp', answer) ]

-- The inner part, which runs when Redis knows the key, under a second read lock.
look_again : ℕ → String → SessionPersistence → Option (SessionPersistence × (String × Bool))
unfolding r_lock r_unlock leave
look_again later id sp = elim (r_unlock (r_lock sp)) [
  | none ↦ none
  | some sp' ↦ elim (sp'.sessions id) [
    | none ↦ leave ("", false) sp'
    | some session ↦
        if ltb later session.expires_at
        then leave (session.node_id, true) sp'
        else elim (r_unlock sp') [ none ↦ none | some sp'' ↦ leave ("", false) sp'' ]
  ]
]

not_found : Bool → ℕ → String → SessionPersistence → Option (SessionPersistence × (String × Bool))
unfolding leave look_again
not_found in_redis later id sp =
    if sp.redis.connected && in_redis then look_again later id sp else leave ("", false) sp

-- `now` and `later` are two readings of the clock, and `in_redis` says whether `Get` finds the key.
pub get_node_for_session :
    Bool → ℕ → ℕ → String → SessionPersistence → Option (SessionPersistence × (String × Bool))
unfolding r_lock leave not_found
get_node_for_session in_redis now later id sp₀ =
    let sp = r_lock sp₀ in
    elim (sp.sessions id) [
      | none ↦ not_found in_redis later id sp
      | some session ↦
          if ltb now session.expires_at
          then leave (session.node_id, true)
              (record sp {
                sessions = insert id (record session { last_used_at = now }) sp.sessions;
              })
          else not_found in_redis later id sp
    ]

get_failover_node : String → SessionPersistence → String
get_failover_node id sp = elim (sp.sessions id) [ none ↦ "" | some session ↦ session.failover_node ]

pub failover : String → SessionPersistence → SessionPersistence × Bool
failover id sp = elim (sp.sessions id) [
  | none ↦ (sp, false)
  | some session ↦
      ite (text_discrete session.failover_node "") (sp, false)
        (
          record sp {
            sessions =
                insert id (record session { node_id = session.failover_node; failover_node = "" })
                  sp.sessions;
          },
          true,
        )
]

delete_session : String → SessionPersistence → SessionPersistence
delete_session id sp = record sp {
  sessions = delete id sp.sessions;
  redis = send (Redis.del (session_key id) ∷ []) sp.redis;
}

expired : ℕ → Option SessionInfo → Bool
expired now none = false
expired now (some session) = ltb session.expires_at now

-- One round of `cleanupLoop`; `ids` are the keys of the map, in the order in which Go yields them.
pub cleanup : ℕ → List String → SessionPersistence → SessionPersistence
unfolding expired
cleanup now [] sp = sp
cleanup now (id ∷ ids) sp =
    cleanup now ids (if expired now (sp.sessions id) then delete_session id sp else sp)
