-- ===== src/Gateway/DedupTiers.antt =====
-- gateway/dedup_tiers.go: requests seen within the last `ttl`.
mod Once
mod Examples
use pmi.Base.{
  ℕ, ◌-◌, ◌*◌, String, Bool, true, false, none, some, ltb, leb, if◌then◌else◌, StringMap, empty,
  insert,
}
use pmi.Gateway.RateLimit.{second}

pub record DedupRequest : Type 0 where
  pub hash : String
  pub created_at : ℕ
  pub node_id : String

pub record RequestDedup : Type 0 where
  pub requests : StringMap DedupRequest
  pub ttl : ℕ

-- A ttl that is not positive becomes thirty seconds.
pub new_request_dedup : ℕ → RequestDedup
new_request_dedup ttl = record { requests = empty; ttl = if leb ttl 0 then 30 * second else ttl }

mark : ℕ → String → String → RequestDedup → RequestDedup × (Bool × String)
mark now hash node_id rd = (
  record rd {
    requests =
        insert hash (record { hash = hash; created_at = now; node_id = node_id }) rd.requests;
  },
  (true, ""),
)

-- true: the request is new; false: it repeats one, whose node is returned
pub check_and_mark : ℕ → String → String → RequestDedup → RequestDedup × (Bool × String)
unfolding mark
check_and_mark now hash node_id rd = elim (rd.requests hash) [
  | none ↦ mark now hash node_id rd
  | some existing ↦
      if ltb (now - existing.created_at) rd.ttl
      then (rd, (false, existing.node_id))
      else mark now hash node_id rd
]

-- one round of `cleanupLoop`
pub cleanup : ℕ → RequestDedup → RequestDedup
cleanup now rd = record rd {
  requests = λ hash. elim (rd.requests hash) [
    | none ↦ none
    | some req ↦ if ltb rd.ttl (now - req.created_at) then none else some req
  ];
}
