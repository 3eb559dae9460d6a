-- ===== src/Gateway/DedupTiers/Once.antt =====
-- gateway/dedup_tiers.go: a request is new once in each `ttl`.
use pmi.Base.{
  insert_self, ℕ, ◌-◌, ◌≤◌, ◌<◌, String, ◌≡◌, refl, ap, Bool, true, false, none, some, List, [],
  ◌∷◌, arith, length, replicate, All, insert,
}
use pmi.Gateway.DedupTiers.{DedupRequest, RequestDedup, check_and_mark, cleanup}

-- The answers to requests of one hash, each a time and a node.
pub answers : String → List (ℕ × String) → RequestDedup → List (Bool × String)
answers hash [] rd = []
answers hash ((now, node_id) ∷ rs) rd =
    let (rd', answer) = check_and_mark now hash node_id rd in answer ∷ answers hash rs rd'

repeats :
    (hash : String) (rs : List (ℕ × String)) (rd : RequestDedup) (first : DedupRequest)
    → rd.requests hash ≡ some first
    → All (λ r. r.0 - first.created_at < rd.ttl) rs
    → answers hash rs rd ≡ replicate (length rs) (false, first.node_id)
unfolding answers check_and_mark
repeats hash [] rd first e h = refl
repeats hash (r ∷ rs) rd first e h = ground (arith, repeats hash rs rd first)

-- Of requests with one hash that arrive within the ttl of the first, no entry being there before,
-- the first alone is new, and each other is answered with the first one's node.
first_alone_is_new :
    (hash node_id : String) (now : ℕ) (rs : List (ℕ × String)) (rd : RequestDedup)
    → rd.requests hash ≡ none
    → All (λ r. r.0 - now < rd.ttl) rs
    → answers hash ((now, node_id) ∷ rs) rd ≡ (true, "") ∷ replicate (length rs) (false, node_id)
unfolding answers check_and_mark
first_alone_is_new hash node_id now rs rd e h =
    let first : DedupRequest = record { hash = hash; created_at = now; node_id = node_id } in
    rw (e, check_and_mark)
      (ap (◌∷◌ (true, "")) (
        repeats hash rs (record rd { requests = insert hash first rd.requests }) first
          (insert_self hash first rd.requests) h))

-- A round of `cleanupLoop` changes no later answer.
check_and_mark-cleanup :
    (t now : ℕ) (hash node_id : String) (rd : RequestDedup)
    → t ≤ now
    → (check_and_mark now hash node_id (cleanup t rd)).1 ≡ (check_and_mark now hash node_id rd).1
unfolding check_and_mark cleanup
check_and_mark-cleanup t now hash node_id rd h = ground arith
