-- ===== src/Matchmaker/Sessions/Failing.antt =====
-- matchmaker/session_persist.go: a session's node over its life, and the lock of the reads.
use pmi.Base.{
  ℕ, zero, suc, ◌+◌, ◌≤◌, ◌<◌, String, ◌≡◌, refl, ◌≢◌, ◌⊎◌, inl, inr, Bool, true, false, ◌&&◌,
  Option, none, some, arith, ltb, if◌then◌else◌, Bool-cases, Option-cases, insert,
}
use pmi.Matchmaker.Sessions.{
  SessionInfo, SessionPersistence, create_session, r_lock, r_unlock, leave, look_again, not_found,
  get_node_for_session, failover,
}

-- What a read answers and whose lock it leaves, as `GetNodeForSession` means it.
abbrev pub answer_at : ℕ → Option SessionInfo → String × Bool
answer_at now none = ("", false)
answer_at now (some session) =
    if ltb now session.expires_at then (session.node_id, true) else ("", false)

-- A read of a session that is absent or not expired, or that Redis does not know, answers the node
-- until the session expires and nothing from then on, and gives back the one lock that it took.
get_node_for_session_balanced :
    (in_redis : Bool) (now later : ℕ) (id : String) (sp : SessionPersistence)
    → (sp.sessions id ≡ none)
      ⊎ ((sp.redis.connected && in_redis) ≡ false)
      ⊎ ((s : SessionInfo) × (sp.sessions id ≡ some s) × (now < s.expires_at))
    → (sp' : SessionPersistence) × (get_node_for_session in_redis now later id sp
        ≡ some (sp', answer_at now (sp.sessions id)))
      × (sp'.readers ≡ sp.readers)
unfolding get_node_for_session not_found look_again leave r_lock r_unlock
get_node_for_session_balanced in_redis now later id sp h = elim (Option-cases (sp.sessions id)) [
  | inl e ↦ (sp, ground arith, refl)
  | inr (session, e) ↦ elim (Bool-cases (ltb now session.expires_at)) [
    | inl live ↦ (
      record sp { sessions = insert id (record session { last_used_at = now }) sp.sessions },
      ground arith,
      refl,
    )
    | inr old ↦ (sp, ground arith, refl)
  ]
]

-- A read of an expired session whose key Redis still holds unlocks twice what it locked once: it
-- ends the program if no other reader holds the lock, and takes another reader's lock away if one
-- does.
pub expired_read_unlocks_twice :
    (now later : ℕ) (id : String) (sp : SessionPersistence) (session : SessionInfo)
    → sp.redis.connected ≡ true
    → sp.sessions id ≡ some session
    → session.expires_at ≤ now
    → now ≤ later
    → get_node_for_session true now later id sp ≡ elim sp.readers [
      | zero ↦ none
      | suc others ↦ some (record sp { readers = others }, ("", false))
    ]
unfolding get_node_for_session not_found look_again leave r_lock r_unlock
expired_read_unlocks_twice now later id sp session on e old order = ground arith

-- What a call returns, without the state that it leaves.
abbrev pub answer {ℓ κ} : {S : Type ℓ} {A : Type κ} → Option (S × A) → Option A
answer none = none
answer (some r) = some r.1

-- A new session with a failover node answers its node until it fails over, and the failover node
-- afterwards, as long as it has not expired; it fails over once.
failover_once :
    (show : SessionInfo → String) (in_redis : Bool) (start now later : ℕ)
    (id node_id user_id other : String) (sp : SessionPersistence)
    → other ≢ ""
    → now < start + sp.default_ttl
    → let made = create_session show start id node_id user_id other sp in
      let (moved, first) = failover id made in
      let (again, second) = failover id moved in
      (first ≡ true)
      × (second ≡ false)
      × (answer (get_node_for_session in_redis now later id made) ≡ some (node_id, true))
      × (answer (get_node_for_session in_redis now later id again) ≡ some (other, true))
unfolding create_session failover get_node_for_session leave r_lock r_unlock
failover_once show in_redis start now later id node_id user_id other sp named live =
    (ground arith, ground arith, ground arith, ground arith)
