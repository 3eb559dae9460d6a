-- ===== src/Gateway/Scaling/Examples.antt =====
-- gateway/scaling_policy.go: a policy that triggers at 100 and rests for 50.
use pmi.Base.{
  ℕ, ◌+◌, ◌≤◌, ◌<◌, String, ◌≡◌, refl, true, some, none, List, [], ◌∷◌, All, arith, empty, insert,
  ite, if_pos, if_neg, text_discrete, sym, ap, ◌∙◌, inl,
}
use mathlib.Core.Option.{some-injective}
use pmi.Base.Floats.{nat_ops}
use pmi.Base.Result.{Result, ok}
use pmi.Matchmaker.Capacity.{CapacityReport}
use pmi.Gateway.Scaling.{ScalingPolicy, ScalingPolicyManager, evaluate}
use pmi.Gateway.Scaling.Cooldown.{Keyed, Round, rounds, Without, cooldown_holds}

abbrev policy : ScalingPolicy ℕ
policy = record {
  id = "p";
  name = "Critical Nodes Alert";
  enabled = true;
  metric = "critical_nodes";
  threshold = 0;
  comparison = ">";
  action = "scale_up";
  cooldown = 50;
  last_triggered = none;
}

abbrev manager : ScalingPolicyManager ℕ
manager = record { policies = insert "p" policy empty }

abbrev report : Result (CapacityReport ℕ)
report = ok (record {
  nodes = [];
  total_nodes = 4;
  healthy_nodes = 2;
  warning_nodes = 0;
  critical_nodes = 2;
})

manager-Keyed : Keyed nat_ops manager
manager-Keyed k p found = elim (text_discrete "p" k) [
  | yes here ↦
      let is_p : policy ≡ p =
        some-injective _ _ (sym (if_pos (text_discrete "p" k) here _ _) ∙ found) in
      ap (λ (x : ScalingPolicy ℕ). x.id) (sym is_p) ∙ here
  | no there ↦ ground (arith, if_neg (text_discrete "p" k) there (some policy) none)
]

abbrev two_rounds : List (Round nat_ops)
two_rounds =
    record { at = 110; report = report; order = "p" ∷ [] }
    ∷ record { at = 149; report = report; order = "p" ∷ [] }
    ∷ []

cooldown_holds_example :
    Without nat_ops "p"
      (rounds nat_ops two_rounds (evaluate nat_ops 100 report ("p" ∷ []) manager).0).1
unfolding evaluate pmi.Base.text_discrete
cooldown_holds_example =
    cooldown_holds nat_ops 100 "p" report ("p" ∷ []) two_rounds manager policy manager-Keyed refl
      (inl (refl, refl)) (omega arith)
