-- ===== src/Payout/Examples.antt =====
-- payout/service.go: two nodes, one with traffic to pay for, with natural numbers for the floats.
use pmi.Base.{ℕ, ◌*◌, String, ◌≡◌, refl, List, [], ◌∷◌, ◌++◌, All, ite, text_discrete}
use pmi.Base.Floats.{nat_ops}
use pmi.Base.Result.{Result, ok, err}
use pmi.Matchmaker.Capacity.{BandwidthData}
use pmi.Payout.{Payout, PayoutService, find_tier, calculate_all_payouts}
use pmi.Payout.Recorded.{commands, Paid, due, payouts_recorded}

abbrev gigabyte : ℕ
gigabyte = 1073741824

abbrev service : PayoutService ℕ
service = record {
  rates = record { rate_per_gb_sent = 5; rate_per_gb_received = 3; min_payout_amount = 10 };
  tiers =
      record {
        name = "Premium";
        min_gb_monthly = 10;
        max_gb_monthly = 100;
        rate_per_gb_sent = 5;
        rate_per_gb_recv = 3;
      }
      ∷ [];
}

abbrev bandwidth : String → Result BandwidthData
bandwidth node_id =
    ite (text_discrete node_id "busy")
      (ok (record { bytes_sent = 20 * gigabyte; bytes_received = 0; duration_seconds = 60 }))
      (err "no such node")

abbrev json : Payout ℕ → String
json payout = payout.tier

busy : Payout ℕ
busy = record {
  node_id = "busy";
  period = "2026-01";
  bytes_sent = 20 * gigabyte;
  bytes_received = 0;
  gb_sent = 20;
  gb_received = 0;
  amount = 100;
  tier = "Premium";
  calculated_at = 9;
}

payouts_recorded_example :
    (calculate_all_payouts nat_ops json 9 "2026-01" bandwidth (ok ("busy" ∷ "gone" ∷ [])) service []
      ≡ (
        []
            ++ commands nat_ops json
                (due nat_ops json refl 9 "2026-01" service bandwidth ("busy" ∷ "gone" ∷ [])),
        ok (due nat_ops json refl 9 "2026-01" service bandwidth ("busy" ∷ "gone" ∷ [])),
      ))
    × All
        (Paid nat_ops json service)
        (due nat_ops json refl 9 "2026-01" service bandwidth ("busy" ∷ "gone" ∷ []))
payouts_recorded_example =
    payouts_recorded nat_ops json refl 9 "2026-01" service bandwidth ("busy" ∷ "gone" ∷ []) []

one_due : due nat_ops json refl 9 "2026-01" service bandwidth ("busy" ∷ "gone" ∷ []) ≡ busy ∷ []
unfolding busy pmi.Payout.payout_of pmi.Base.text_discrete
one_due = refl

tiers_of_amounts :
    (find_tier nat_ops 20 service ≡ "Premium") × (find_tier nat_ops 100 service ≡ "Basic")
unfolding find_tier
tiers_of_amounts = (refl, refl)
