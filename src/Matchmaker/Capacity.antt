-- ===== src/Matchmaker/Capacity.antt =====
-- matchmaker/capacity.go: how full each node is, the report on all of them, and what the report
-- recommends. The floats are a type with the operations that the code uses; what Redis answers
-- and the text of a date are arguments. No load is negative.
mod Report
mod Examples
use pmi.Base.{
  ℕ, ◌+◌, ◌*◌, ◌/◌, ◌==◌, String, Bool, true, false, ◌&&◌, Option, none, some, List, [], ◌∷◌, ◌++◌,
  ltb, if◌then◌else◌, length,
}
use pmi.Base.Floats.{FloatOps}
use pmi.Base.Result.{Result, ok, err}

pub record BandwidthData : Type 0 where
  pub bytes_sent : ℕ
  pub bytes_received : ℕ
  pub duration_seconds : ℕ

pub record BandwidthSnapshot {ℓ} (F : Type ℓ) : Type ℓ where
  pub timestamp : ℕ
  pub total_gb : F

-- The texts "healthy", "warning" and "critical".
pub data Status : Type 0 where
  healthy : Status
  warning : Status
  critical : Status

pub record NodeCapacity {ℓ} (F : Type ℓ) : Type ℓ where
  pub node_id : String
  pub bandwidth_gb_day : F
  pub bandwidth_gb_week : F
  pub growth_rate : F
  pub current_load : ℕ
  pub utilization_pct : F
  pub predicted_full : String
  pub status : Status

pub record CapacityReport {ℓ} (F : Type ℓ) : Type ℓ where
  pub nodes : List (NodeCapacity F)
  pub total_nodes : ℕ
  pub healthy_nodes : ℕ
  pub warning_nodes : ℕ
  pub critical_nodes : ℕ

-- What Redis knows of a node; a load that cannot be read is 0.
pub record NodeReads {ℓ} (F : Type ℓ) : Type ℓ where
  pub bandwidth : Result BandwidthData
  pub load : ℕ
  pub snapshots : Result (List (BandwidthSnapshot F))

pub data Action : Type 0 where
  scale_up : Action
  scale_down : Action
  prepare_scale : Action
  no_action : Action

pub data Urgency : Type 0 where
  high : Urgency
  medium : Urgency
  low : Urgency
  no_urgency : Urgency

pub record ScalingRecommendation : Type 0 where
  pub action : Action
  pub nodes_needed : ℕ
  pub urgency : Urgency

pub record ScalingReport {ℓ} (F : Type ℓ) : Type ℓ where
  pub recommendations : List ScalingRecommendation
  pub total_load : ℕ
  pub avg_utilization : F

-- The three counters of the loop.
count_status : Status → ℕ × ℕ × ℕ → ℕ × ℕ × ℕ
count_status healthy (h, w, c) = (h + 1, w, c)
count_status warning (h, w, c) = (h, w + 1, c)
count_status critical (h, w, c) = (h, w, c + 1)

last_of {ℓ} : {A : Type ℓ} → A → List A → A
last_of a [] = a
last_of a (b ∷ rest) = last_of b rest

module _ {ℓ} {F : Type ℓ} (ops : FloatOps F) where
  gigabytes : ℕ → F
  gigabytes bytes = ops.div (ops.of_nat bytes) (ops.of_nat 1073741824)

  growth_between : BandwidthSnapshot F → BandwidthSnapshot F → F
  growth_between first last =
      if ops.same first.total_gb (ops.of_nat 0)
      then ops.of_nat 0
      else if first.timestamp == last.timestamp
      then ops.of_nat 0
      else ops.mul (ops.div (ops.sub last.total_gb first.total_gb) first.total_gb) (ops.of_nat 100)

  calculate_growth_rate : Result (List (BandwidthSnapshot F)) → F
  unfolding growth_between last_of
  calculate_growth_rate (err e) = ops.of_nat 0
  calculate_growth_rate (ok []) = ops.of_nat 0
  calculate_growth_rate (ok (first ∷ [])) = ops.of_nat 0
  calculate_growth_rate (ok (first ∷ second ∷ rest)) = growth_between first (last_of second rest)

  daily_rate : F → ℕ → F
  daily_rate total_gb duration =
      let hours = ops.div (ops.of_nat duration) (ops.of_nat 3600) in
      if ltb 0 duration && (ops.less (ops.of_nat 0) hours && ops.less hours (ops.of_nat 24))
      then ops.mul (ops.div total_gb hours) (ops.of_nat 24)
      else total_gb

  utilization_of : F → F
  utilization_of daily =
      let utilization = ops.mul (ops.div daily (ops.of_nat 100)) (ops.of_nat 100) in
      if ops.less (ops.of_nat 100) utilization then ops.of_nat 100 else utilization

  status_of : F → Status
  status_of utilization =
      if ops.less (ops.of_nat 80) utilization
      then critical
      else if ops.less (ops.of_nat 50) utilization
      then warning
      else healthy

  -- `date_after` is the text of the date so many days ahead.
  predict : (F → String) → F → F → F → String
  predict date_after utilization daily growth =
      let days =
        ops.div (ops.sub (ops.of_nat 100) daily)
          (ops.div (ops.mul daily growth) (ops.of_nat 100)) in
      if ops.less (ops.of_nat 80) utilization
        && (ops.less (ops.of_nat 0) growth
            && (ops.less (ops.of_nat 0) days && ops.less days (ops.of_nat 365)))
      then date_after days
      else ""

  analyzed : (F → String) → String → NodeReads F → BandwidthData → NodeCapacity F
  unfolding gigabytes calculate_growth_rate daily_rate utilization_of status_of predict
  analyzed date_after node_id reads bandwidth =
      let total = ops.add (gigabytes bandwidth.bytes_sent) (gigabytes bandwidth.bytes_received) in
      let daily = daily_rate total bandwidth.duration_seconds in
      let utilization = utilization_of daily in
      let growth = calculate_growth_rate reads.snapshots in
      record {
        node_id = node_id;
        bandwidth_gb_day = daily;
        bandwidth_gb_week = ops.mul daily (ops.of_nat 7);
        growth_rate = growth;
        current_load = reads.load;
        utilization_pct = utilization;
        predicted_full = predict date_after utilization daily growth;
        status = status_of utilization;
      }

  pub analyze_node : (F → String) → String → NodeReads F → Result (NodeCapacity F)
  unfolding analyzed
  analyze_node date_after node_id reads = elim reads.bandwidth [
    | err e ↦ err "failed to get bandwidth"
    | ok bandwidth ↦ ok (analyzed date_after node_id reads bandwidth)
  ]

  add_node :
      Result (NodeCapacity F)
      → List (NodeCapacity F) × (ℕ × ℕ × ℕ)
      → List (NodeCapacity F) × (ℕ × ℕ × ℕ)
  unfolding count_status
  add_node (err e) found = found
  add_node (ok capacity) (nodes, counts) =
      (nodes ++ (capacity ∷ []), count_status capacity.status counts)

  -- The loop of `GenerateReport`, over the nodes and what Redis knows of them.
  collect :
      (F → String)
      → (String → NodeReads F)
      → List String
      → List (NodeCapacity F) × (ℕ × ℕ × ℕ)
      → List (NodeCapacity F) × (ℕ × ℕ × ℕ)
  unfolding analyze_node add_node
  collect date_after reads [] found = found
  collect date_after reads (node_id ∷ later) found =
      collect date_after reads later
        (add_node (analyze_node date_after node_id (reads node_id)) found)

  report_of : List (NodeCapacity F) × (ℕ × ℕ × ℕ) → CapacityReport F
  report_of (nodes, (h, w, c)) = record {
    nodes = nodes;
    total_nodes = length nodes;
    healthy_nodes = h;
    warning_nodes = w;
    critical_nodes = c;
  }

  pub generate_report :
      (F → String) → (String → NodeReads F) → Result (List String) → Result (CapacityReport F)
  unfolding collect report_of
  generate_report date_after reads (err e) = err "failed to get nodes"
  generate_report date_after reads (ok node_ids) =
      ok (report_of (collect date_after reads node_ids ([], (0, 0, 0))))

  overloaded : F → List (NodeCapacity F) → List (NodeCapacity F)
  overloaded threshold [] = []
  overloaded threshold (node ∷ nodes) =
      let rest = overloaded threshold nodes in
      if ops.at_most threshold node.utilization_pct then node ∷ rest else rest

  get_overloaded_nodes : F → Result (CapacityReport F) → Result (List (NodeCapacity F))
  unfolding overloaded
  get_overloaded_nodes threshold (err e) = err e
  get_overloaded_nodes threshold (ok report) = ok (overloaded threshold report.nodes)

  totals : List (NodeCapacity F) → ℕ × F → ℕ × F
  totals [] sums = sums
  totals (node ∷ nodes) (load, utilization) =
      totals nodes (load + node.current_load, ops.add utilization node.utilization_pct)

  average : F → ℕ → F
  average total n = if ltb 0 n then ops.div total (ops.of_nat n) else ops.of_nat 0

  when : Bool → Action → ℕ → Urgency → List ScalingRecommendation
  when true act nodes_needed urge =
      record { action = act; nodes_needed = nodes_needed; urgency = urge } ∷ []
  when false act nodes_needed urge = []

  or_none : List ScalingRecommendation → List ScalingRecommendation
  or_none [] = record { action = no_action; nodes_needed = 0; urgency = no_urgency } ∷ []
  or_none (r ∷ rs) = r ∷ rs

  recommend : CapacityReport F → F → List ScalingRecommendation
  unfolding when or_none
  recommend report avg_util = or_none (
      when (ltb 0 report.critical_nodes) scale_up report.critical_nodes high
      ++ (when (ltb report.healthy_nodes report.warning_nodes && ltb 0 (length report.nodes))
            scale_up (report.warning_nodes / 2) medium
          ++ (when (ops.less avg_util (ops.of_nat 20) && ltb 3 (length report.nodes)) scale_down 0
                low
              ++ when (ops.less (ops.of_nat 60) avg_util && report.critical_nodes == 0)
                  prepare_scale 1 low)))

  scaling_of : CapacityReport F → ScalingReport F
  unfolding totals average recommend
  scaling_of report =
      let (load, utilization) = totals report.nodes (0, ops.of_nat 0) in
      let avg_util = average utilization (length report.nodes) in
      record {
        recommendations = recommend report avg_util;
        total_load = load;
        avg_utilization = avg_util;
      }

  pub get_scaling_recommendations : Result (CapacityReport F) → Result (ScalingReport F)
  unfolding scaling_of
  get_scaling_recommendations (err e) = err e
  get_scaling_recommendations (ok report) = ok (scaling_of report)
