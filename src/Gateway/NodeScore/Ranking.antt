-- ===== src/Gateway/NodeScore/Ranking.antt =====
-- gateway/batch.go: the order of `GetTopNodes`.
use pmi.Base.{
  ℕ, min, String, ◌≡◌, refl, sym, ap, ◌∙◌, subst, false, List, ◌++◌, length, take, drop, map,
}
use mathlib.Core.List.{Perm}
use pmi.Base.Sort.{Sorted, exchange_sort, exchange_sort-Perm, exchange_sort-Sorted}
use pmi.Base.Window.{take-append-drop, length-take}
use pmi.Base.Floats.{FloatOps, IsOrder}
use pmi.Gateway.NodeScore.{HealthScore, NodeHealthScore, get_all_scores, get_top_nodes, higher}

module _ {ℓ} {F : Type ℓ} (ops : FloatOps F) where
  -- The first total is not less than the second.
  abbrev pub NotLower : HealthScore F → HealthScore F → Type 0
  NotLower p q = ops.less p.total_score q.total_score ≡ false

  by_total :
      IsOrder ops → (ps : List (HealthScore F)) → Sorted NotLower (exchange_sort (higher ops) ps)
  unfolding higher
  by_total laws ps =
      exchange_sort-Sorted (higher ops) {R = NotLower} (λ p. laws.irreflexive p.total_score)
        (λ p q e. e) (λ p q e. laws.asymmetric p.total_score q.total_score e)
        (λ p q r. laws.negative_trans p.total_score q.total_score r.total_score) ps

  -- Where `<` orders the scores, the nodes returned are those of the first of all scores in
  -- descending order of their totals, as many as asked for or as there are.
  top_nodes_highest :
      (order : List String) (count : ℕ) (nhs : NodeHealthScore F)
      → IsOrder ops
      → (top : List (HealthScore F)) × (rest : List (HealthScore F)) × (get_top_nodes ops order
            count nhs
          ≡ map (λ (s : HealthScore F). s.node_id) top)
        × Perm (get_all_scores order nhs) (top ++ rest)
        × Sorted NotLower (top ++ rest)
        × (length top ≡ min count (length (top ++ rest)))
  unfolding get_top_nodes
  top_nodes_highest order count nhs laws =
      let scores = get_all_scores order nhs in
      let sorted = exchange_sort (higher ops) scores in
      let split = take-append-drop count sorted in
      (
        take count sorted,
        drop count sorted,
        refl,
        subst (Perm scores) (sym split) (exchange_sort-Perm (higher ops) scores),
        subst (Sorted NotLower) (sym split) (by_total laws scores),
        length-take count sorted ∙ ap (λ l. min count (length l)) (sym split),
      )
