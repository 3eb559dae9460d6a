-- ===== src/Payout.antt =====
-- payout/service.go: what a node is paid for a month's traffic. The floats are a type with the
-- operations that the code uses; what Redis answers and the JSON text of a payout are arguments,
-- and the payouts are kept as they are sent.
mod Tiers
mod Recorded
mod Examples
use pmi.Base.{
  text_append, ℕ, String, Bool, true, false, ◌&&◌, not, List, [], ◌∷◌, ◌++◌, if◌then◌else◌, ite,
  text_discrete,
}
use pmi.Base.Floats.{FloatOps}
use pmi.Base.Redis.{Command, rpush, ltrim}
use pmi.Base.Result.{Result, ok, err}
use pmi.Matchmaker.Capacity.{BandwidthData}

-- config.PricingTier
pub record PricingTier {ℓ} (F : Type ℓ) : Type ℓ where
  pub name : String
  pub min_gb_monthly : ℕ
  pub max_gb_monthly : ℕ
  pub rate_per_gb_sent : F
  pub rate_per_gb_recv : F

pub record PayoutRates {ℓ} (F : Type ℓ) : Type ℓ where
  pub rate_per_gb_sent : F
  pub rate_per_gb_received : F
  pub min_payout_amount : F

pub record Payout {ℓ} (F : Type ℓ) : Type ℓ where
  pub node_id : String
  pub period : String
  pub bytes_sent : ℕ
  pub bytes_received : ℕ
  pub gb_sent : F
  pub gb_received : F
  pub amount : F
  pub tier : String
  pub calculated_at : ℕ

pub record PayoutService {ℓ} (F : Type ℓ) : Type ℓ where
  pub rates : PayoutRates F
  pub tiers : List (PricingTier F)

set_tiers {ℓ} : {F : Type ℓ} → List (PricingTier F) → PayoutService F → PayoutService F
set_tiers tiers p = record p { tiers = tiers }

set_rates {ℓ} : {F : Type ℓ} → PayoutRates F → PayoutService F → PayoutService F
set_rates rates p = record p { rates = rates }

module _ {ℓ} {F : Type ℓ} (ops : FloatOps F) where
  -- A rate with two decimals.
  cents : ℕ → F
  cents n = ops.div (ops.of_nat n) (ops.of_nat 100)

  default_tier : String → ℕ → ℕ → ℕ → ℕ → PricingTier F
  unfolding cents
  default_tier name least most sent recv = record {
    name = name;
    min_gb_monthly = least;
    max_gb_monthly = most;
    rate_per_gb_sent = cents sent;
    rate_per_gb_recv = cents recv;
  }

  new_payout_service : PayoutService F
  unfolding default_tier cents
  new_payout_service = record {
    rates = record {
      rate_per_gb_sent = cents 50;
      rate_per_gb_received = cents 30;
      min_payout_amount = ops.of_nat 10;
    };
    tiers =
        default_tier "Basic" 0 10 30 15
        ∷ default_tier "Premium" 10 100 50 30
        ∷ default_tier "Enterprise" 100 10000 80 50
        ∷ [];
  }

  -- `totalGB >= min && totalGB < max`
  pub in_tier : F → PricingTier F → Bool
  in_tier total tier =
      ops.at_most (ops.of_nat tier.min_gb_monthly) total
      && ops.less total (ops.of_nat tier.max_gb_monthly)

  tier_from : F → List (PricingTier F) → String
  unfolding in_tier
  tier_from total [] = "Basic"
  tier_from total (tier ∷ tiers) = if in_tier total tier then tier.name else tier_from total tiers

  pub find_tier : F → PayoutService F → String
  unfolding tier_from
  find_tier total p = tier_from total p.tiers

  rates_from : String → PayoutRates F → List (PricingTier F) → F × F
  rates_from name rates [] = (rates.rate_per_gb_sent, rates.rate_per_gb_received)
  rates_from name rates (tier ∷ tiers) =
      ite (text_discrete tier.name name) (tier.rate_per_gb_sent, tier.rate_per_gb_recv)
        (rates_from name rates tiers)

  get_tier_rates : String → PayoutService F → F × F
  unfolding rates_from
  get_tier_rates name p = rates_from name p.rates p.tiers

  gigabytes : ℕ → F
  gigabytes bytes = ops.div (ops.of_nat bytes) (ops.of_nat 1073741824)

  -- `if amount < p.rates.MinPayoutAmount { amount = 0 }`
  paid : F → PayoutService F → F
  paid amount p = if ops.less amount p.rates.min_payout_amount then ops.of_nat 0 else amount

  pub payout_of : ℕ → String → String → BandwidthData → PayoutService F → Payout F
  unfolding find_tier get_tier_rates gigabytes paid
  payout_of now period node_id bandwidth p =
      let sent = gigabytes bandwidth.bytes_sent in
      let received = gigabytes bandwidth.bytes_received in
      let tier = find_tier (ops.add sent received) p in
      let (rate_sent, rate_recv) = get_tier_rates tier p in
      record {
        node_id = node_id;
        period = period;
        bytes_sent = bandwidth.bytes_sent;
        bytes_received = bandwidth.bytes_received;
        gb_sent = sent;
        gb_received = received;
        amount = paid (ops.add (ops.mul sent rate_sent) (ops.mul received rate_recv)) p;
        tier = tier;
        calculated_at = now;
      }

  pub calculate_payout_internal :
      ℕ → String → String → Result BandwidthData → PayoutService F → Result (Payout F)
  unfolding payout_of
  calculate_payout_internal now period node_id (err e) p = err "failed to get bandwidth"
  calculate_payout_internal now period node_id (ok bandwidth) p =
      ok (payout_of now period node_id bandwidth p)

  -- `payout.Amount > 0`
  pub is_paid : Payout F → Bool
  is_paid payout = ops.less (ops.of_nat 0) payout.amount

  module _ (json : Payout F → String) where
    record_payout : String → Payout F → List Command → List Command
    record_payout node_id payout sent =
        let key = text_append "payout:" node_id in
        sent ++ (rpush key (json payout) ∷ ltrim key 48 ∷ [])

    recorded : String → Result (Payout F) → List Command → List Command
    unfolding is_paid record_payout
    recorded node_id (err e) sent = sent
    recorded node_id (ok payout) sent =
        if is_paid payout then record_payout node_id payout sent else sent

    pub calculate_payout :
        ℕ
        → String
        → String
        → Result BandwidthData
        → PayoutService F
        → List Command
        → List Command × Result (Payout F)
    unfolding calculate_payout_internal recorded
    calculate_payout now period node_id bandwidth p sent =
        let payout = calculate_payout_internal now period node_id bandwidth p in
        (recorded node_id payout sent, payout)

    -- What the loop appends to the payouts.
    kept : Result (Payout F) → List (Payout F)
    unfolding is_paid
    kept (err e) = []
    kept (ok payout) = if is_paid payout then payout ∷ [] else []

    -- The loop of `CalculateAllPayouts`.
    payouts_from :
        ℕ
        → String
        → (String → Result BandwidthData)
        → PayoutService F
        → List String
        → List Command
        → List (Payout F)
        → List Command × List (Payout F)
    unfolding calculate_payout kept
    payouts_from now period bandwidth p [] sent payouts = (sent, payouts)
    payouts_from now period bandwidth p (node_id ∷ nodes) sent payouts =
        let (sent', payout) = calculate_payout now period node_id (bandwidth node_id) p sent in
        payouts_from now period bandwidth p nodes sent' (payouts ++ kept payout)

    pub calculate_all_payouts :
        ℕ
        → String
        → (String → Result BandwidthData)
        → Result (List String)
        → PayoutService F
        → List Command
        → List Command × Result (List (Payout F))
    unfolding payouts_from
    calculate_all_payouts now period bandwidth (err e) p sent = (sent, err "failed to get nodes")
    calculate_all_payouts now period bandwidth (ok nodes) p sent =
        let (sent', payouts) = payouts_from now period bandwidth p nodes sent [] in
        (sent', ok payouts)
