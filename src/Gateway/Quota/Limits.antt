-- ===== src/Gateway/Quota/Limits.antt =====
-- gateway/keyquota.go: what CheckQuota answers after any calls. The calls are taken in the order
-- in which they get the lock, each caller's own check and record wherever they fall.
use pmi.Base.{
  ℕ, ◌+◌, ◌≤◌, String, Bool, ◌&&◌, ◌≡◌, ap, ◌∙◌, some, List, [], ◌∷◌, arith, ltb, ite,
  if◌then◌else◌, text_discrete,
}
use pmi.Gateway.Quota.{
  QuotaInfo, BandwidthQuota, allowed, exceeded, roll_over, set_quota, check_quota, record_usage,
}

pub data Call : Type 0 where
  check : ℕ → String → ℕ → Call
  use_up : ℕ → String → ℕ → Call

-- Every call is made at the time `end` or before.
unfoldable pub Until : ℕ → List Call → Type 0
Until end [] = Unit
Until end (check at id gb ∷ calls) = (at ≤ end) × Until end calls
Until end (use_up at id gb ∷ calls) = (at ≤ end) × Until end calls

-- What the calls record for a node.
unfoldable pub recorded : String → List Call → ℕ
recorded node_id [] = 0
recorded node_id (check at id gb ∷ calls) = recorded node_id calls
recorded node_id (use_up at id gb ∷ calls) =
    ite (text_discrete node_id id) gb 0 + recorded node_id calls

module _ (next_reset : ℕ → ℕ) where
  unfoldable pub step : Call → BandwidthQuota → BandwidthQuota
  step (check at id gb) bq = (check_quota next_reset at id gb bq).0
  step (use_up at id gb) bq = record_usage next_reset at id gb bq

  unfoldable pub calls_made : List Call → BandwidthQuota → BandwidthQuota
  calls_made [] bq = bq
  calls_made (c ∷ cs) bq = calls_made cs (step c bq)

  -- A node's quota and the usage that is recorded of it.
  record Has (id : String) (q : QuotaInfo) (used : ℕ) (bq : BandwidthQuota) : Type 0 where
    held : bq.quotas id ≡ some (record q { used_gb = used })

  check-Has :
      (id : String) (q : QuotaInfo) (used : ℕ) (bq : BandwidthQuota)
      → Has id q used bq
      → (at gb : ℕ) (other : String) → at ≤ q.reset_at
      → Has id q used (check_quota next_reset at other gb bq).0
  unfolding check_quota roll_over
  check-Has id q used bq v at gb other h = record { held = ground (arith, v.held) }

  record-Has :
      (id : String) (q : QuotaInfo) (used : ℕ) (bq : BandwidthQuota)
      → Has id q used bq
      → (at gb : ℕ) (other : String) → at ≤ q.reset_at
      → Has id q (used + ite (text_discrete id other) gb 0) (record_usage next_reset at other gb bq)
  unfolding record_usage roll_over
  record-Has id q used bq v at gb other h = record { held = ground (arith, v.held) }

  calls-Has :
      (calls : List Call) (id : String) (q : QuotaInfo) (used : ℕ) (bq : BandwidthQuota)
      → Has id q used bq
      → Until q.reset_at calls
      → Has id q (used + recorded id calls) (calls_made calls bq)
  unfolding calls_made step recorded Until
  calls-Has [] id q used bq v h = record {
    held = v.held ∙ ap (λ u. some (record q { used_gb = u })) (omega arith);
  }
  calls-Has (check at other gb ∷ calls) id q used bq v (h, hs) =
      calls-Has calls id q used (check_quota next_reset at other gb bq).0
        (check-Has id q used bq v at gb other h) hs
  calls-Has (use_up at other gb ∷ calls) id q used bq v (h, hs) =
      let rest =
        calls-Has calls id q (used + ite (text_discrete id other) gb 0)
          (record_usage next_reset at other gb bq) (record-Has id q used bq v at gb other h) hs in
      record { held = rest.held ∙ ap (λ u. some (record q { used_gb = u })) (omega arith) }

  -- After SetQuota and any calls of CheckQuota and RecordUsage, for any nodes and in any order, at
  -- times up to the quota's reset, CheckQuota answers "exceeded" exactly if the limit is hard and
  -- the amount asked for and all that was recorded for the node exceed the month's allowance; after
  -- the reset only the amount asked for counts. So what was allowed and is not yet recorded does
  -- not count.
  pub check_counts_recorded :
      (now monthly_gb : ℕ) (hard : Bool) (id : String) (bq : BandwidthQuota) (calls : List Call)
      → Until (next_reset now) calls
      → (later gb : ℕ)
      → (check_quota next_reset later id gb
          (calls_made calls (set_quota next_reset now id monthly_gb hard bq))).1
        ≡ (if hard
              && ltb monthly_gb ((if ltb (next_reset now) later then 0 else recorded id calls) + gb)
            then exceeded
            else allowed)
  unfolding set_quota check_quota roll_over
  check_counts_recorded now monthly_gb hard id bq calls h later gb =
      let q : QuotaInfo = record {
        node_id = id;
        monthly_gb = monthly_gb;
        used_gb = 0;
        reset_at = next_reset now;
        hard_limit = hard;
      } in
      let start : Has id q 0 (set_quota next_reset now id monthly_gb hard bq) = record {
        held = ground arith;
      } in
      let v = calls-Has calls id q 0 _ start h in ground (arith, v.held)
