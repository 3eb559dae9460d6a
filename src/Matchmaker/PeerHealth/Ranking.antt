-- ===== src/Matchmaker/PeerHealth/Ranking.antt =====
-- matchmaker/peer_health.go: the order of `GetTopPeers`.
use pmi.Base.{ℕ, min, String, ◌≡◌, sym, ap, ◌∙◌, subst, false, List, ◌++◌, length, drop}
use mathlib.Core.List.{Perm}
use pmi.Base.Sort.{Sorted, exchange_sort, exchange_sort-Perm, exchange_sort-Sorted}
use pmi.Base.Window.{cut_at, take-append-drop, length-take}
use pmi.Base.Floats.{FloatOps, IsOrder}
use pmi.Matchmaker.PeerHealth.{PeerHealth, PeerHealthScore, all_peers, get_top_peers, higher}

module _ {ℓ} {F : Type ℓ} (ops : FloatOps F) where
  -- The first peer's score is not less than the second's.
  abbrev pub NotLower : PeerHealth F → PeerHealth F → Type 0
  NotLower p q = ops.less p.overall_score q.overall_score ≡ false

  by_score :
      IsOrder ops → (ps : List (PeerHealth F)) → Sorted NotLower (exchange_sort (higher ops) ps)
  unfolding higher
  by_score laws ps =
      exchange_sort-Sorted (higher ops) {R = NotLower} (λ p. laws.irreflexive p.overall_score)
        (λ p q e. e) (λ p q e. laws.asymmetric p.overall_score q.overall_score e)
        (λ p q r. laws.negative_trans p.overall_score q.overall_score r.overall_score) ps

  -- Where `<` orders the scores, the peers returned are the first of all peers in descending order
  -- of their overall scores, as many as asked for or as there are: none of them has a lower score
  -- than one behind it or one left out.
  top_peers_highest :
      (order : List String) (count : ℕ) (phs : PeerHealthScore F)
      → IsOrder ops
      → (rest : List (PeerHealth F)) × Perm
          (all_peers order phs)
          (get_top_peers ops order count phs ++ rest)
        × Sorted NotLower (get_top_peers ops order count phs ++ rest)
        × (length (get_top_peers ops order count phs)
            ≡ min count (length (get_top_peers ops order count phs ++ rest)))
  unfolding get_top_peers
  top_peers_highest order count phs laws =
      let peers = all_peers order phs in
      let sorted = exchange_sort (higher ops) peers in
      let split : get_top_peers ops order count phs ++ drop count sorted ≡ sorted =
        ap (λ l. l ++ drop count sorted) (cut_at count sorted) ∙ take-append-drop count sorted in
      (
        drop count sorted,
        subst (Perm peers) (sym split) (exchange_sort-Perm (higher ops) peers),
        subst (Sorted NotLower) (sym split) (by_score laws peers),
        ap length (cut_at count sorted)
            ∙ length-take count sorted
            ∙ ap (λ l. min count (length l)) (sym split),
      )
