-- ===== src/Payout/Recorded.antt =====
-- payout/service.go: which payouts are returned and which are recorded.
use pmi.Base.{
  ℕ, String, text_append, ◌≡◌, refl, sym, ap, ◌∙◌, subst, if◌then◌else◌, true, false, List, [], ◌∷◌,
  ◌++◌, arith, All, Bool-cases, inl, inr,
}
use mathlib.Core.List.{append_assoc, append-nil}
use pmi.Base.Floats.{FloatOps}
use pmi.Base.Redis.{Command, rpush, ltrim}
use pmi.Base.Result.{Result, ok, err}
use pmi.Matchmaker.Capacity.{BandwidthData}
use pmi.Payout.{
  Payout, PayoutService, is_paid, paid, payout_of, calculate_payout_internal, record_payout,
  recorded, calculate_payout, kept, payouts_from, calculate_all_payouts,
}

module _ {ℓ} {F : Type ℓ} (ops : FloatOps F) (json : Payout F → String) where
  -- The commands that record the payouts, in order.
  abbrev pub commands : List (Payout F) → List Command
  commands [] = []
  commands (payout ∷ payouts) =
      let key = text_append "payout:" payout.node_id in
      rpush key (json payout) ∷ ltrim key 48 ∷ commands payouts

  -- The payout is positive and not below the least amount.
  abbrev pub Paid : PayoutService F → Payout F → Type 0
  Paid p payout =
      (ops.less (ops.of_nat 0) payout.amount ≡ true)
      × (ops.less payout.amount p.rates.min_payout_amount ≡ false)

  commands-append : (xs ys : List (Payout F)) → commands (xs ++ ys) ≡ commands xs ++ commands ys
  commands-append [] ys = refl
  commands-append (x ∷ xs) ys = rw (commands-append xs ys) refl

  joined :
      (sent sent' : List Command) (payouts first new : List (Payout F))
      → sent' ≡ sent ++ commands first
      → ◌≡◌ {A = List Command × List (Payout F)}
          (sent' ++ commands new, (payouts ++ first) ++ new)
          (sent ++ commands (first ++ new), payouts ++ (first ++ new))
  joined sent sent' payouts first new e =
      rw
        (
          e,
          commands-append first new,
          append_assoc sent (commands first) (commands new),
          append_assoc payouts first new,
        )
        refl

  Paid-append :
      (p : PayoutService F) (xs ys : List (Payout F))
      → All (Paid p) xs
      → All (Paid p) ys
      → All (Paid p) (xs ++ ys)
  Paid-append p [] ys all all' = all'
  Paid-append p (x ∷ xs) ys (paid_x, all) all' = (paid_x, Paid-append p xs ys all all')

  module _ (zero_not_less : ops.less (ops.of_nat 0) (ops.of_nat 0) ≡ false) (now : ℕ)
      (period : String) (p : PayoutService F) where
    payout_of-Paid :
        (node_id : String) (bandwidth : BandwidthData)
        → is_paid ops (payout_of ops now period node_id bandwidth p) ≡ true
        → Paid p (payout_of ops now period node_id bandwidth p)
    unfolding is_paid payout_of paid
    payout_of-Paid node_id bandwidth h = ground arith

    kept-Paid :
        (node_id : String) (bandwidth : Result BandwidthData)
        → All
            (Paid p)
            (kept ops json (calculate_payout_internal ops now period node_id bandwidth p))
    unfolding kept calculate_payout_internal
    kept-Paid node_id (err e) = tt
    kept-Paid node_id (ok b) =
        elim (Bool-cases (is_paid ops (payout_of ops now period node_id b p))) [
          | inl e ↦ rw e (payout_of-Paid node_id b e, tt)
          | inr e ↦ rw e tt
        ]

    recorded_kept :
        (node_id : String) (bandwidth : Result BandwidthData) (sent : List Command)
        → let r = calculate_payout_internal ops now period node_id bandwidth p in
          recorded ops json node_id r sent ≡ sent ++ commands (kept ops json r)
    unfolding recorded kept calculate_payout_internal record_payout
    recorded_kept node_id (err e) sent = sym (append-nil sent)
    recorded_kept node_id (ok b) sent =
        elim (Bool-cases (is_paid ops (payout_of ops now period node_id b p))) [
          | inl e ↦ rw e refl
          | inr e ↦ rw e (sym (append-nil sent))
        ]

    -- The payouts that are due: for each node in turn whose traffic can be read, the payout for
    -- that traffic, where its amount is positive.
    abbrev pub due : (String → Result BandwidthData) → List String → List (Payout F)
    due bandwidth [] = []
    due bandwidth (node_id ∷ nodes) =
        let others = due bandwidth nodes in
        elim (bandwidth node_id) [
          | err e ↦ others
          | ok b ↦
              let payout = payout_of ops now period node_id b p in
              if ops.less (ops.of_nat 0) payout.amount then payout ∷ others else others
        ]

    kept_due :
        (bandwidth : Result BandwidthData) (node_id : String) (others : List (Payout F))
        → kept ops json (calculate_payout_internal ops now period node_id bandwidth p) ++ others
          ≡ elim bandwidth [
            | err e ↦ others
            | ok b ↦
                let payout = payout_of ops now period node_id b p in
                if ops.less (ops.of_nat 0) payout.amount then payout ∷ others else others
          ]
    unfolding kept calculate_payout_internal is_paid
    kept_due (err e) node_id others = refl
    kept_due (ok b) node_id others =
        elim (Bool-cases (ops.less (ops.of_nat 0) (payout_of ops now period node_id b p).amount)) [
          | inl e ↦ rw e refl
          | inr e ↦ rw e refl
        ]

    payouts_from_lem :
        (bandwidth : String → Result BandwidthData) (nodes : List String) (sent : List Command)
        (payouts : List (Payout F))
        → (payouts_from ops json now period bandwidth p nodes sent payouts
            ≡ (sent ++ commands (due bandwidth nodes), payouts ++ due bandwidth nodes))
          × All (Paid p) (due bandwidth nodes)
    unfolding payouts_from calculate_payout
    payouts_from_lem bandwidth [] sent payouts = (rw (append-nil sent, append-nil payouts) refl, tt)
    payouts_from_lem bandwidth (node_id ∷ nodes) sent payouts =
        let r = calculate_payout_internal ops now period node_id (bandwidth node_id) p in
        let first = kept ops json r in
        let new = due bandwidth nodes in
        let (same, all) =
          payouts_from_lem bandwidth nodes (recorded ops json node_id r sent) (payouts ++ first) in
        let split = kept_due (bandwidth node_id) node_id new in
        (
          same
              ∙ joined sent (recorded ops json node_id r sent) payouts first new
                  (recorded_kept node_id (bandwidth node_id) sent)
              ∙ ap
                  (λ (l : List (Payout F)).
                    let r : List Command × List (Payout F) = (sent ++ commands l, payouts ++ l) in
                    r)
                  split,
          subst (All (Paid p)) split
              (Paid-append p first new (kept-Paid node_id (bandwidth node_id)) all),
        )

    -- Where 0 is not less than itself, the payouts returned for the nodes listed, and those
    -- recorded, are just the ones due: in the order of the nodes, for each whose traffic can be
    -- read the payout for that traffic, where its amount is positive. Each is recorded under its
    -- node, and none is below the least amount.
    pub payouts_recorded :
        (bandwidth : String → Result BandwidthData) (nodes : List String) (sent : List Command)
        → (calculate_all_payouts ops json now period bandwidth (ok nodes) p sent
            ≡ (sent ++ commands (due bandwidth nodes), ok (due bandwidth nodes)))
          × All (Paid p) (due bandwidth nodes)
    unfolding calculate_all_payouts
    payouts_recorded bandwidth nodes sent =
        let (same, all) = payouts_from_lem bandwidth nodes sent [] in
        (ap (λ (r : List Command × List (Payout F)). (r.0, ok r.1)) same, all)
