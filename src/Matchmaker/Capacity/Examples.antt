-- ===== src/Matchmaker/Capacity/Examples.antt =====
-- matchmaker/capacity.go: two nodes, with natural numbers for the floats.
use pmi.Base.{
  ℕ, ◌+◌, ◌*◌, ◌<◌, String, ◌≡◌, ◌↔◌, some, List, [], ◌∷◌, ite, text_discrete, get_elem?,
}
use pmi.Base.Floats.{nat_ops}
use pmi.Base.Result.{ok, err}
use pmi.Matchmaker.Capacity.{
  NodeReads, CapacityReport, ScalingReport, healthy, warning, critical, scale_up, high,
  generate_report, get_scaling_recommendations,
}
use pmi.Matchmaker.Capacity.Report.{with_status, report_counts}

abbrev gigabyte : ℕ
gigabyte = 1073741824

abbrev reads : String → NodeReads ℕ
reads node_id = record {
  bandwidth =
      ite (text_discrete node_id "busy")
        (ok (record {
          bytes_sent = 90 * gigabyte;
          bytes_received = gigabyte;
          duration_seconds = 90000;
        }))
        (err "no such node");
  load = 3;
  snapshots = ok [];
}

abbrev date_after : ℕ → String
date_after days = "2026-01-01"

abbrev ids : List String
ids = "busy" ∷ "gone" ∷ []

report_counts_example :
    (report : CapacityReport ℕ) × (scaling : ScalingReport ℕ) × (generate_report nat_ops date_after
        reads
        (ok ids)
      ≡ ok report)
    × (get_scaling_recommendations nat_ops (ok report) ≡ ok scaling)
    × (report.healthy_nodes ≡ with_status nat_ops healthy report.nodes)
    × (report.warning_nodes ≡ with_status nat_ops warning report.nodes)
    × (report.critical_nodes ≡ with_status nat_ops critical report.nodes)
    × (report.healthy_nodes + report.warning_nodes + report.critical_nodes ≡ report.total_nodes)
    × ((get_elem? scaling.recommendations 0
          ≡ some (record {
            action = scale_up;
            nodes_needed = with_status nat_ops critical report.nodes;
            urgency = high;
          }))
        ↔ (0 < with_status nat_ops critical report.nodes))
report_counts_example = report_counts nat_ops date_after reads ids
