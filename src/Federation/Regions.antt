-- ===== src/Federation/Regions.antt =====
-- federation/service.go: when a region counts as healthy, and which node is selected.
use pmi.Base.{
  insert_self, ℕ, ◌-◌, ◌*◌, String, ◌≡◌, ap, ◌∙◌, inl, inr, ite, Bool, true, false, ◌&&◌, Option,
  none, some, List, [], ◌∷◌, arith, ltb, if◌then◌else◌, Bool-cases, text_discrete,
}
use text.Mathlib.TextEquality.{eq_iff}
use pmi.Base.Result.{Result, ok}
use pmi.Gateway.RateLimit.{second}
use pmi.Federation.{
  PeerGateway, FederationService, checked, check_peer_health, handle_heartbeat, peer_or_new,
  handle_message, handle_node_sync, any_node, first_or, get_nodes_for_region, select_node_by_region,
}

-- Rounds of `checkPeerHealth` at the times of a list.
checks : List ℕ → FederationService → FederationService
checks [] f = f
checks (now ∷ ts) f = checks ts (check_peer_health now f)

-- Every round is at most three heartbeat intervals after a time.
pub in_time : ℕ → ℕ → List ℕ → Bool
in_time seen interval [] = true
in_time seen interval (now ∷ ts) =
    let rest = in_time seen interval ts in
    if ltb (interval * 3 * second) (now - seen) then false else rest

abbrev pub health : String → FederationService → Option Bool
health region f = elim (f.peers region) [ none ↦ none | some peer ↦ some peer.healthy ]

checks_lem :
    (ts : List ℕ) (region : String) (f : FederationService) (peer : PeerGateway)
    → f.peers region ≡ some peer
    → (checks ts f).peers region
      ≡ some
          (record peer { healthy = peer.healthy && in_time peer.last_seen f.heartbeat_interval ts })
unfolding checks in_time check_peer_health checked
checks_lem [] region f peer e = ground arith
checks_lem (now ∷ ts) region f peer e =
    elim (Bool-cases (ltb (f.heartbeat_interval * 3 * second) (now - peer.last_seen))) [
      | inl late ↦
          checks_lem ts region (check_peer_health now f) (record peer { healthy = false })
            (ground arith)
          ∙ (ground arith)
      | inr fine ↦
          checks_lem ts region (check_peer_health now f) peer (ground arith) ∙ (ground arith)
    ]

-- After a heartbeat from a region and any rounds of checks, the region is healthy exactly if each
-- round was within three heartbeat intervals of the heartbeat; another heartbeat makes it healthy.
healthy-heartbeat :
    (now again : ℕ) (ts : List ℕ) (region : String) (f : FederationService)
    → let f' = checks ts (handle_heartbeat now region f) in
      (health region f' ≡ some (in_time now f.heartbeat_interval ts))
      × (health region (handle_heartbeat again region f') ≡ some true)
unfolding handle_heartbeat peer_or_new
healthy-heartbeat now again ts region f =
    let seen : PeerGateway = record (peer_or_new region (f.peers region)) {
      last_seen = now;
      healthy = true;
    } in
    let known =
      checks_lem ts region (handle_heartbeat now region f) seen (insert_self region seen f.peers) in
    (
      ap (λ p. elim p as (λ x. Option Bool) [ none ↦ none | some peer ↦ some peer.healthy ]) known,
      ground arith,
    )

-- After the nodes of a region came in a message, a request for the region is given the first of
-- them; with no nodes in the message, or for no region, it is given the first of all nodes, and
-- fails only if there are none.
select_node_by_region-handle_message :
    (now : ℕ) (all : Result (List String)) (region : String) (nodes : List String)
    (f : FederationService)
    → let f' = (handle_message now "node_sync" region nodes f).0 in
      select_node_by_region all region f'
      ≡ ite
          (text_discrete region "")
          (any_node all)
          (elim nodes [ [] ↦ any_node all | id ∷ ids ↦ ok id ])
unfolding handle_message handle_node_sync select_node_by_region get_nodes_for_region first_or
select_node_by_region-handle_message now all region nodes f =
    ground (arith, eq_iff "node_sync" "heartbeat")
