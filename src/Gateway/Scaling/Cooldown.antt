-- ===== src/Gateway/Scaling/Cooldown.antt =====
-- gateway/scaling_policy.go: a policy that triggered rests for its cooldown.
use pmi.Base.{
  ℕ, ◌+◌, ◌≤◌, ◌<◌, String, ◌≡◌, ◌≢◌, refl, sym, subst, ap, ◌∙◌, true, false, Option, none, some,
  List, [], ◌∷◌, ◌++◌, arith, All, Bool-cases, inl, inr, ◌⊎◌, insert, text_discrete, if_pos, if_neg,
}
use mathlib.Core.Option.{some-injective}
use pmi.Base.Floats.{FloatOps}
use pmi.Base.Result.{Result, ok, err}
use pmi.Matchmaker.Capacity.{CapacityReport}
use pmi.Gateway.Scaling.{
  ScalingPolicy, ScalingPolicyManager, ScalingEvaluation, not_triggered, compared, by_report,
  cooling, is_due, evaluated, evaluate_policy, evaluate_one, evaluate,
}

module _ {ℓ} {F : Type ℓ} (ops : FloatOps F) where
  -- Every policy stands under its own id, as `AddPolicy` puts it, and the one under `id`
  -- triggered at `t` and rests so long.
  pub record Resting (t cooldown : ℕ) (id : String) (spm : ScalingPolicyManager F) : Type ℓ where
    pub policy : ScalingPolicy F
    pub stands : spm.policies id ≡ some policy
    pub triggered_at : policy.last_triggered ≡ some t
    pub rests : policy.cooldown ≡ cooldown
    pub keyed : (k : String) (p : ScalingPolicy F) → spm.policies k ≡ some p → p.id ≡ k

  -- None of the evaluations is of the policy.
  abbrev pub Without : String → List (ScalingEvaluation F) → Type 0
  Without id evaluations = All (λ (e : ScalingEvaluation F). e.policy_id ≢ id) evaluations

  Without-append :
      (id : String) (xs ys : List (ScalingEvaluation F))
      → Without id xs
      → Without id ys
      → Without id (xs ++ ys)
  Without-append id [] ys all all' = all'
  Without-append id (x ∷ xs) ys (p, all) all' = (p, Without-append id xs ys all all')

  resting_not_due :
      (t now : ℕ) (p : ScalingPolicy F)
      → p.last_triggered ≡ some t
      → t ≤ now
      → now < t + p.cooldown
      → is_due ops now p ≡ false
  unfolding is_due cooling
  resting_not_due t now p e le lt = ground arith

  evaluate_policy-id :
      (report : Result (CapacityReport F)) (p : ScalingPolicy F)
      → (evaluate_policy ops report p).policy_id ≡ p.id
  unfolding evaluate_policy by_report compared not_triggered
  evaluate_policy-id (err e) p = refl
  evaluate_policy-id (ok report) p = ground arith

  evaluated-id :
      (now : ℕ) (report : Result (CapacityReport F)) (p : ScalingPolicy F)
      → (evaluated ops now report p).id ≡ p.id
  unfolding evaluated
  evaluated-id now report p = ground arith

  module _ (t cooldown now : ℕ) (id : String) (report : Result (CapacityReport F)) (le : t ≤ now)
      (lt : now < t + cooldown) where
    due_is_other :
        (other : String) (p : ScalingPolicy F) (spm : ScalingPolicyManager F)
        → Resting t cooldown id spm
        → spm.policies other ≡ some p
        → is_due ops now p ≡ true
        → other ≢ id
    due_is_other other p spm r e due same =
        let is_policy : p ≡ r.policy =
          some-injective _ _ (sym e ∙ ap spm.policies same ∙ r.stands) in
        let resting =
          resting_not_due t now r.policy r.triggered_at le
            (subst (λ c. now < t + c) (sym r.rests) lt) in
        cc (sym due ∙ ap (is_due ops now) is_policy ∙ resting)

    replaced-Resting :
        (other : String) (p q : ScalingPolicy F) (spm : ScalingPolicyManager F)
        → Resting t cooldown id spm
        → spm.policies other ≡ some p
        → other ≢ id
        → q.id ≡ p.id
        → Resting t cooldown id (record spm { policies = insert other q spm.policies })
    replaced-Resting other p q spm r e ne same_id = record {
      policy = r.policy;
      stands = if_neg (text_discrete other id) ne _ _ ∙ r.stands;
      triggered_at = r.triggered_at;
      rests = r.rests;
      keyed = λ k p' found. elim (text_discrete other k) [
        | yes here ↦
            let is_q : q ≡ p' =
              some-injective _ _ (sym (if_pos (text_discrete other k) here _ _) ∙ found) in
            ap (λ (x : ScalingPolicy F). x.id) (sym is_q) ∙ same_id ∙ r.keyed other p e ∙ here
        | no there ↦ r.keyed k p' (sym (if_neg (text_discrete other k) there _ _) ∙ found)
      ];
    }

    evaluate_one-Resting :
        (other : String) (o : Option (ScalingPolicy F)) (spm : ScalingPolicyManager F)
        → Resting t cooldown id spm
        → spm.policies other ≡ o
        → Resting t cooldown id (evaluate_one ops now report other o spm).0
          × Without id (evaluate_one ops now report other o spm).1
    unfolding evaluate_one
    evaluate_one-Resting other none spm r e = (r, tt)
    evaluate_one-Resting other (some p) spm r e = elim (Bool-cases (is_due ops now p)) [
      | inr not_due ↦ rw not_due (r, tt)
      | inl due ↦
          let ne = due_is_other other p spm r e due in
          let own_id = evaluate_policy-id report p ∙ r.keyed other p e in
          rw due (
            replaced-Resting other p (evaluated ops now report p) spm r e ne
                (evaluated-id now report p),
            (λ same. ne (sym own_id ∙ same), tt),
          )
    ]

    evaluate-Resting :
        (ids : List String) (spm : ScalingPolicyManager F)
        → Resting t cooldown id spm
        → Resting t cooldown id (evaluate ops now report ids spm).0
          × Without id (evaluate ops now report ids spm).1
    unfolding evaluate
    evaluate-Resting [] spm r = (r, tt)
    evaluate-Resting (other ∷ ids) spm r =
        let (after, first) = evaluate_one-Resting other (spm.policies other) spm r refl in
        let (last, rest) =
          evaluate-Resting ids (evaluate_one ops now report other (spm.policies other) spm).0
            after in
        (last, Without-append id _ _ first rest)

  -- One round of evaluations: when, with which report and in what order of the policies.
  pub record Round : Type ℓ where
    pub at : ℕ
    pub report : Result (CapacityReport F)
    pub order : List String

  abbrev pub rounds :
      List Round → ScalingPolicyManager F → ScalingPolicyManager F × List (ScalingEvaluation F)
  rounds [] spm = (spm, [])
  rounds (r ∷ rs) spm =
      let (spm', first) = evaluate ops r.at r.report r.order spm in
      let (spm'', rest) = rounds rs spm' in (spm'', first ++ rest)

  rounds-Resting :
      (t cooldown : ℕ) (id : String) (rs : List Round) (spm : ScalingPolicyManager F)
      → Resting t cooldown id spm
      → All (λ (r : Round). (t ≤ r.at) × (r.at < t + cooldown)) rs
      → Without id (rounds rs spm).1
  rounds-Resting t cooldown id [] spm r all = tt
  rounds-Resting t cooldown id (x ∷ rs) spm r (within, all) =
      let (after, first) =
        evaluate-Resting t cooldown x.at id x.report within.0 within.1 x.order spm r in
      Without-append id _ _ first
        (rounds-Resting t cooldown id rs (evaluate ops x.at x.report x.order spm).0 after all)

  -- Every policy stands under its own id, as `AddPolicy` puts it.
  abbrev pub Keyed : ScalingPolicyManager F → Type ℓ
  Keyed spm = (k : String) (p : ScalingPolicy F) → spm.policies k ≡ some p → p.id ≡ k

  -- One of the evaluations is of the policy, and triggered.
  abbrev pub Triggers : String → List (ScalingEvaluation F) → Type 0
  Triggers id [] = ⊥
  Triggers id (e ∷ es) = ((e.policy_id ≡ id) × (e.triggered ≡ true)) ⊎ Triggers id es

  replaced-Keyed :
      (k : String) (p q : ScalingPolicy F) (spm : ScalingPolicyManager F)
      → Keyed spm
      → spm.policies k ≡ some p
      → q.id ≡ p.id
      → Keyed (record spm { policies = insert k q spm.policies })
  replaced-Keyed k p q spm keyed e same_id j p' found = elim (text_discrete k j) [
    | yes here ↦
        let is_q : q ≡ p' =
          some-injective _ _ (sym (if_pos (text_discrete k j) here _ _) ∙ found) in
        ap (λ (x : ScalingPolicy F). x.id) (sym is_q) ∙ same_id ∙ keyed k p e ∙ here
    | no there ↦ keyed j p' (sym (if_neg (text_discrete k j) there _ _) ∙ found)
  ]

  evaluated_cooldown :
      (now : ℕ) (report : Result (CapacityReport F)) (p : ScalingPolicy F)
      → (evaluated ops now report p).cooldown ≡ p.cooldown
  unfolding evaluated
  evaluated_cooldown now report p = ground arith

  -- Whether the policy is replaced or another, one with that cooldown stands under its id.
  still_stands :
      (other id : String) (p q : ScalingPolicy F) (t : ℕ) (report : Result (CapacityReport F))
      (spm : ScalingPolicyManager F)
      → spm.policies id ≡ some p
      → spm.policies other ≡ some q
      → (p' : ScalingPolicy F) × (insert other (evaluated ops t report q) spm.policies id ≡ some p')
        × (p'.cooldown ≡ p.cooldown)
  still_stands other id p q t report spm stands found = elim (text_discrete other id) [
    | yes same ↦
        let is_q : p ≡ q = some-injective _ _ (sym stands ∙ ap spm.policies (sym same) ∙ found) in
        (
          evaluated ops t report q,
          if_pos (text_discrete other id) same _ _,
          evaluated_cooldown t report q ∙ ap (λ (x : ScalingPolicy F). x.cooldown) (sym is_q),
        )
    | no ne ↦ (p, if_neg (text_discrete other id) ne _ _ ∙ stands, refl)
  ]

  module _ (t : ℕ) (id : String) (report : Result (CapacityReport F)) where
    just_triggered :
        (other : String) (p q : ScalingPolicy F) (spm : ScalingPolicyManager F)
        → Keyed spm
        → spm.policies id ≡ some p
        → spm.policies other ≡ some q
        → other ≡ id
        → (evaluate_policy ops report q).triggered ≡ true
        → Resting t p.cooldown id
            (record spm { policies = insert other (evaluated ops t report q) spm.policies })
    unfolding evaluated
    just_triggered other p q spm keyed stands found same on =
        let is_q : p ≡ q = some-injective _ _ (sym stands ∙ ap spm.policies (sym same) ∙ found) in
        record {
          policy = evaluated ops t report q;
          stands = if_pos (text_discrete other id) same _ _;
          triggered_at = rw on refl;
          rests =
              evaluated_cooldown t report q ∙ ap (λ (x : ScalingPolicy F). x.cooldown) (sym is_q);
          keyed =
              replaced-Keyed other q (evaluated ops t report q) spm keyed found
                (evaluated-id t report q);
        }

    -- The rest of the round keeps the policy resting once it has triggered.
    Rests : List String → Type ℓ
    Rests ids =
        (spm : ScalingPolicyManager F) (p : ScalingPolicy F)
        → Keyed spm
        → spm.policies id ≡ some p
        → 0 < p.cooldown
        → Triggers id (evaluate ops t report ids spm).1
        → Resting t p.cooldown id (evaluate ops t report ids spm).0

    evaluated_one :
        (other : String) (ids : List String) (spm : ScalingPolicyManager F) (p q : ScalingPolicy F)
        → Rests ids
        → Keyed spm
        → spm.policies id ≡ some p
        → 0 < p.cooldown
        → spm.policies other ≡ some q
        → let spm' : ScalingPolicyManager F = record spm {
          policies = insert other (evaluated ops t report q) spm.policies;
        } in
          Triggers id (evaluate_policy ops report q ∷ (evaluate ops t report ids spm').1)
          → Resting t p.cooldown id (evaluate ops t report ids spm').0
    unfolding Rests
    evaluated_one other ids spm p q rest keyed stands pos found (inl (own, on)) =
        let same : other ≡ id =
          sym (keyed other q found) ∙ sym (evaluate_policy-id report q) ∙ own in
        (evaluate-Resting t p.cooldown t id report (omega arith) (omega (arith, pos)) ids _
          (just_triggered other p q spm keyed stands found same on)).0
    evaluated_one other ids spm p q rest keyed stands pos found (inr later) =
        let (p', stands', same) = still_stands other id p q t report spm stands found in
        subst
          (λ c.
            Resting t c id
              (evaluate ops t report ids
                (record spm { policies = insert other (evaluated ops t report q) spm.policies })).0)
          same
          (rest _ p'
            (replaced-Keyed other q (evaluated ops t report q) spm keyed found
              (evaluated-id t report q))
            stands' (subst (λ c. 0 < c) (sym same) pos) later)

    one-Rests :
        (other : String) (ids : List String) (o : Option (ScalingPolicy F))
        (spm : ScalingPolicyManager F) (p : ScalingPolicy F)
        → Rests ids
        → Keyed spm
        → spm.policies id ≡ some p
        → 0 < p.cooldown
        → spm.policies other ≡ o
        → let r = evaluate_one ops t report other o spm in
          Triggers id (r.1 ++ (evaluate ops t report ids r.0).1)
          → Resting t p.cooldown id (evaluate ops t report ids r.0).0
    unfolding Rests evaluate_one
    one-Rests other ids none spm p rest keyed stands pos found = rest spm p keyed stands pos
    one-Rests other ids (some q) spm p rest keyed stands pos found =
        elim (Bool-cases (is_due ops t q)) [
          | inl due ↦ rw due (evaluated_one other ids spm p q rest keyed stands pos found)
          | inr not_due ↦ rw not_due (rest spm p keyed stands pos)
        ]

    round-Rests : (ids : List String) → Rests ids
    unfolding Rests evaluate
    round-Rests [] spm p keyed stands pos h = elim h [ ]
    round-Rests (other ∷ ids) spm p keyed stands pos h =
        one-Rests other ids (spm.policies other) spm p (round-Rests ids) keyed stands pos refl h

  -- A policy that triggers in a round is not evaluated, and so does not trigger, in any later round
  -- within its cooldown from then, whatever the reports say and in whatever order the policies are
  -- met, where every policy stands under its own id.
  pub cooldown_holds :
      (t : ℕ) (id : String) (report : Result (CapacityReport F)) (order : List String)
      (rs : List Round) (spm : ScalingPolicyManager F) (p : ScalingPolicy F)
      → Keyed spm
      → spm.policies id ≡ some p
      → Triggers id (evaluate ops t report order spm).1
      → All (λ (r : Round). (t ≤ r.at) × (r.at < t + p.cooldown)) rs
      → Without id (rounds rs (evaluate ops t report order spm).0).1
  unfolding Rests
  cooldown_holds t id report order [] spm p keyed stands on all = tt
  cooldown_holds t id report order (x ∷ rs) spm p keyed stands on all =
      rounds-Resting t p.cooldown id (x ∷ rs) (evaluate ops t report order spm).0
        (round-Rests t id report order spm p keyed stands (omega (arith, all.0.0, all.0.1)) on) all
