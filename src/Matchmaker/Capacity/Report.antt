-- ===== src/Matchmaker/Capacity/Report.antt =====
-- matchmaker/capacity.go: what the counts of a report count, and what follows from a critical node.
use pmi.Base.{
  ℕ, ◌+◌, ◌<◌, ◌≡◌, refl, ◌↔◌, String, List, [], ◌∷◌, ◌++◌, arith, length, length-append, some,
  get_elem?,
}
use pmi.Base.Floats.{FloatOps}
use pmi.Base.Result.{Result, ok, err}
use pmi.Matchmaker.Capacity.{
  Status, healthy, warning, critical, NodeCapacity, NodeReads, CapacityReport, ScalingReport,
  scale_up, high, count_status, add_node, analyze_node, collect, report_of, generate_report,
  get_scaling_recommendations, scaling_of, recommend, when, or_none,
}

abbrev is_status : Status → Status → ℕ
is_status healthy healthy = 1
is_status warning warning = 1
is_status critical critical = 1
is_status s t = 0

module _ {ℓ} {F : Type ℓ} (ops : FloatOps F) where
  -- How many nodes have the status.
  abbrev pub with_status : Status → List (NodeCapacity F) → ℕ
  with_status s [] = 0
  with_status s (node ∷ nodes) = is_status s node.status + with_status s nodes

  with_status-append :
      (s : Status) (xs ys : List (NodeCapacity F))
      → with_status s (xs ++ ys) ≡ with_status s xs + with_status s ys
  with_status-append s [] ys = omega arith
  with_status-append s (x ∷ xs) ys = omega (arith, with_status-append s xs ys)

  -- The counts are those of the nodes.
  abbrev Counted : List (NodeCapacity F) × (ℕ × ℕ × ℕ) → Type 0
  Counted (nodes, (h, w, c)) =
      (h ≡ with_status healthy nodes)
      × (w ≡ with_status warning nodes)
      × (c ≡ with_status critical nodes)
      × (h + w + c ≡ length nodes)

  count_more :
      (node : NodeCapacity F) (nodes : List (NodeCapacity F)) (counts : ℕ × ℕ × ℕ)
      → Counted (nodes, counts)
      → Counted (nodes ++ (node ∷ []), count_status node.status counts)
  unfolding count_status
  count_more node nodes (h, w, c) k = ground (
    arith,
    with_status-append healthy nodes (node ∷ []),
    with_status-append warning nodes (node ∷ []),
    with_status-append critical nodes (node ∷ []),
    length-append nodes (node ∷ []),
  )

  add_node-Counted :
      (r : Result (NodeCapacity F)) (found : List (NodeCapacity F) × (ℕ × ℕ × ℕ))
      → Counted found
      → Counted (add_node ops r found)
  unfolding add_node
  add_node-Counted (err e) found k = k
  add_node-Counted (ok capacity) (nodes, counts) k = count_more capacity nodes counts k

  collect-Counted :
      (date_after : F → String) (reads : String → NodeReads F) (ids : List String)
      (found : List (NodeCapacity F) × (ℕ × ℕ × ℕ))
      → Counted found
      → Counted (collect ops date_after reads ids found)
  unfolding collect
  collect-Counted date_after reads [] found k = k
  collect-Counted date_after reads (id ∷ ids) found k =
      collect-Counted date_after reads ids
        (add_node ops (analyze_node ops date_after id (reads id)) found)
        (add_node-Counted (analyze_node ops date_after id (reads id)) found k)

  urgent_iff :
      (report : CapacityReport F) (avg : F) (n : ℕ)
      → report.critical_nodes ≡ n
      → (get_elem? (recommend ops report avg) 0
          ≡ some (record { action = scale_up; nodes_needed = n; urgency = high }))
        ↔ (0 < n)
  unfolding recommend when or_none
  urgent_iff report avg n e = ground arith

  -- A report has as many healthy, warning and critical nodes as it lists with that status, which
  -- are all that it lists, and the first recommendation drawn from it is to scale up at once by
  -- the number of critical nodes exactly if there is a critical one.
  pub report_counts :
      (date_after : F → String) (reads : String → NodeReads F) (ids : List String)
      → (report : CapacityReport F) × (scaling : ScalingReport F) × (generate_report ops date_after
            reads
            (ok ids)
          ≡ ok report)
        × (get_scaling_recommendations ops (ok report) ≡ ok scaling)
        × (report.healthy_nodes ≡ with_status healthy report.nodes)
        × (report.warning_nodes ≡ with_status warning report.nodes)
        × (report.critical_nodes ≡ with_status critical report.nodes)
        × (report.healthy_nodes + report.warning_nodes + report.critical_nodes ≡ report.total_nodes)
        × ((get_elem? scaling.recommendations 0
              ≡ some (record {
                action = scale_up;
                nodes_needed = with_status critical report.nodes;
                urgency = high;
              }))
            ↔ (0 < with_status critical report.nodes))
  unfolding generate_report report_of get_scaling_recommendations scaling_of
  report_counts date_after reads ids =
      let found = collect ops date_after reads ids ([], (0, 0, 0)) in
      let report = report_of ops found in
      let counted = collect-Counted date_after reads ids ([], (0, 0, 0)) (omega arith) in
      (
        report,
        scaling_of ops report,
        refl,
        refl,
        counted.0,
        counted.1,
        counted.2,
        counted.3,
        urgent_iff report _ _ counted.2,
      )
