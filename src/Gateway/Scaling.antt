-- ===== src/Gateway/Scaling.antt =====
-- gateway/scaling_policy.go: policies on the matchmaker's capacity report, each with a cooldown.
-- The order in which a `range` over the map meets its keys and the id that `generatePolicyID`
-- makes are arguments. Times are in nanoseconds; none is Go's zero time, which is longer ago than
-- any cooldown.
mod Cooldown
mod Examples
use pmi.Base.{
  ℕ, ◌-◌, ◌*◌, ◌++◌, String, Bool, true, false, not, ◌&&◌, Option, none, some, List, [], ◌∷◌, ltb,
  if◌then◌else◌, ite, text_discrete, length, StringMap, empty, insert,
}
use pmi.Base.Floats.{FloatOps}
use pmi.Base.Result.{Result, ok, err}
use pmi.Matchmaker.Capacity.{CapacityReport, NodeCapacity}

pub record ScalingPolicy {ℓ} (F : Type ℓ) : Type ℓ where
  pub id : String
  pub name : String
  pub enabled : Bool
  pub metric : String
  pub threshold : F
  pub comparison : String
  pub action : String
  pub cooldown : ℕ
  pub last_triggered : Option ℕ

pub record ScalingPolicyManager {ℓ} (F : Type ℓ) : Type ℓ where
  pub policies : StringMap (ScalingPolicy F)

pub record ScalingEvaluation {ℓ} (F : Type ℓ) : Type ℓ where
  pub policy_id : String
  pub policy_name : String
  pub triggered : Bool
  pub action : String
  pub current_value : F
  pub threshold : F

add_policy {ℓ} :
    {F : Type ℓ} → String → ScalingPolicy F → ScalingPolicyManager F → ScalingPolicyManager F
add_policy generated policy spm =
    let id = ite (text_discrete policy.id "") generated policy.id in
    record spm { policies = insert id (record policy { id = id }) spm.policies }

get_policy {ℓ} : {F : Type ℓ} → String → ScalingPolicyManager F → Option (ScalingPolicy F)
get_policy id spm = spm.policies id

abbrev minute : ℕ
minute = 60000000000

module _ {ℓ} {F : Type ℓ} (ops : FloatOps F) where
  new_scaling_policy_manager : String → String → ScalingPolicyManager F
  unfolding add_policy
  new_scaling_policy_manager first_id second_id =
      add_policy second_id
        (record {
          id = "";
          name = "High Average Utilization";
          enabled = true;
          metric = "avg_utilization";
          threshold = ops.of_nat 80;
          comparison = ">";
          action = "scale_up";
          cooldown = 10 * minute;
          last_triggered = none;
        })
        (add_policy first_id
          (record {
            id = "";
            name = "Critical Nodes Alert";
            enabled = true;
            metric = "critical_nodes";
            threshold = ops.of_nat 0;
            comparison = ">";
            action = "scale_up";
            cooldown = 5 * minute;
            last_triggered = none;
          })
          (record { policies = empty }))

  not_triggered : ScalingPolicy F → ScalingEvaluation F
  not_triggered policy = record {
    policy_id = policy.id;
    policy_name = policy.name;
    triggered = false;
    action = "";
    current_value = ops.of_nat 0;
    threshold = ops.of_nat 0;
  }

  -- The comparison of a value with the policy's threshold.
  compared : F → ScalingPolicy F → ScalingEvaluation F
  unfolding not_triggered
  compared value policy =
      let above =
        ite (text_discrete policy.comparison ">") (ops.less policy.threshold value) false in
      record (not_triggered policy) {
        triggered = above;
        action = if above then policy.action else "";
        current_value = value;
        threshold = policy.threshold;
      }

  total_utilization : List (NodeCapacity F) → F → F
  total_utilization [] total = total
  total_utilization (node ∷ nodes) total =
      total_utilization nodes (ops.add total node.utilization_pct)

  by_report : CapacityReport F → ScalingPolicy F → ScalingEvaluation F
  unfolding compared total_utilization not_triggered
  by_report report policy =
      let n = length report.nodes in
      ite (text_discrete policy.metric "critical_nodes")
        (compared (ops.of_nat report.critical_nodes) policy)
        (ite (text_discrete policy.metric "avg_utilization")
          (if ltb 0 n
            then compared (ops.div (total_utilization report.nodes (ops.of_nat 0)) (ops.of_nat n))
                policy
            else not_triggered policy)
          (not_triggered policy))

  evaluate_policy : Result (CapacityReport F) → ScalingPolicy F → ScalingEvaluation F
  unfolding by_report not_triggered
  evaluate_policy (err e) policy = not_triggered policy
  evaluate_policy (ok report) policy = by_report report policy

  -- `time.Since(policy.LastTriggered) < policy.Cooldown`
  cooling : ℕ → ScalingPolicy F → Bool
  cooling now policy = elim policy.last_triggered [
    | none ↦ false
    | some t ↦ ltb (now - t) policy.cooldown
  ]

  is_due : ℕ → ScalingPolicy F → Bool
  unfolding cooling
  is_due now policy = policy.enabled && not (cooling now policy)

  -- What the round for a policy that is due leaves of it.
  evaluated : ℕ → Result (CapacityReport F) → ScalingPolicy F → ScalingPolicy F
  unfolding evaluate_policy
  evaluated now report policy =
      if (evaluate_policy report policy).triggered
      then record policy { last_triggered = some now }
      else policy

  -- One round of the loop, for the policy under a key of the map.
  evaluate_one :
      ℕ
      → Result (CapacityReport F)
      → String
      → Option (ScalingPolicy F)
      → ScalingPolicyManager F
      → ScalingPolicyManager F × List (ScalingEvaluation F)
  unfolding is_due evaluated evaluate_policy
  evaluate_one now report id none spm = (spm, [])
  evaluate_one now report id (some policy) spm =
      if is_due now policy
      then (
        record spm { policies = insert id (evaluated now report policy) spm.policies },
        evaluate_policy report policy ∷ [],
      )
      else (spm, [])

  pub evaluate :
      ℕ
      → Result (CapacityReport F)
      → List String
      → ScalingPolicyManager F
      → ScalingPolicyManager F × List (ScalingEvaluation F)
  unfolding evaluate_one
  evaluate now report [] spm = (spm, [])
  evaluate now report (id ∷ ids) spm =
      let (spm', first) = evaluate_one now report id (spm.policies id) spm in
      let (spm'', rest) = evaluate now report ids spm' in (spm'', first ++ rest)
