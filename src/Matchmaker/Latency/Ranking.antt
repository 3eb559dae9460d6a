-- ===== src/Matchmaker/Latency/Ranking.antt =====
-- matchmaker/latency.go: the order of `GetTopNodes`, and the bounds of `GetLatencyStats`.
use pmi.Base.{
  ℕ, ◌-◌, ◌*◌, ◌/◌, ◌≤◌, ◌<◌, min, String, ◌≡◌, refl, sym, ap, ◌∙◌, subst, Option, none, some, List,
  [], ◌∷◌, ◌++◌, map, All, arith, ltb, if◌then◌else◌, length, take, drop,
}
use mathlib.Core.Path.{ap₂}
use mathlib.Core.List.{Perm}
use native.Mathlib.Nat.{le-div_iff_mul-le, div-le_of_le-mul}
use pmi.Base.Sort.{Sorted, exchange_sort, exchange_sort-Perm, exchange_sort-Sorted}
use pmi.Base.Window.{newest, newest_nil, take-append-drop, length-take, length-drop}
use pmi.Base.Redis.{Outbox}
use pmi.Matchmaker.Latency.{
  LatencyTracker, NodeLatency, LatencyPair, latency_pairs, faster, get_top_nodes, get_latency_stats,
  widen, stats_of, stats_or_zero, new_latency_tracker, top_locally,
}
use pmi.Matchmaker.Latency.Samples.{Call, record_all, recorded, total, samples_exact, IsSummary}

abbrev pub NotSlower : LatencyPair → LatencyPair → Type 0
NotSlower p q = p.latency ≤ q.latency

by_latency : (ps : List LatencyPair) → Sorted NotSlower (exchange_sort faster ps)
unfolding faster
by_latency ps =
    exchange_sort-Sorted faster {R = NotSlower} (λ p. omega arith) (λ p q e. ground arith)
      (λ p q e. ground arith) (λ p q r h k. omega arith) ps

local_only :
    (order : List String) (count : ℕ) (lt : LatencyTracker)
    → get_top_nodes none order count lt ≡ top_locally order count lt
unfolding get_top_nodes
local_only order count lt = ground arith

-- When Redis is not asked or fails, the nodes returned are the names of the first of all tracked
-- pairs, in ascending order of average latency, as many as asked for or as there are: each of them
-- is at most as slow as all behind it and as every node left out.
pub top_nodes_fastest :
    (order : List String) (count : ℕ) (lt : LatencyTracker)
    → (best : List LatencyPair) × (rest : List LatencyPair) × (get_top_nodes none order count lt
        ≡ map (λ p. p.node_id) best)
      × Perm (latency_pairs order lt) (best ++ rest)
      × Sorted NotSlower (best ++ rest)
      × (length best ≡ min count (length (best ++ rest)))
unfolding top_locally
top_nodes_fastest order count lt =
    let pairs = latency_pairs order lt in
    let sorted = exchange_sort faster pairs in
    let split = take-append-drop count sorted in
    (
      take count sorted,
      drop count sorted,
      local_only order count lt,
      subst (Perm pairs) (sym split) (exchange_sort-Perm faster pairs),
      subst (Sorted NotSlower) (sym split) (by_latency pairs),
      rw split (length-take count sorted),
    )

lesser_le : (s l : ℕ) → ((if ltb s l then s else l) ≤ s) × ((if ltb s l then s else l) ≤ l)
lesser_le s l = ground arith

greater_le : (s g : ℕ) → (s ≤ (if ltb g s then s else g)) × (g ≤ (if ltb g s then s else g))
greater_le s g = ground arith

abbrev pub IsWithin : ℕ → ℕ → ℕ → Type 0
IsWithin least greatest s = (least ≤ s) × (s ≤ greatest)

widen-All :
    (least greatest : ℕ) (s : List ℕ)
    → ((widen least greatest s).0 ≤ least)
      × (greatest ≤ (widen least greatest s).1)
      × All (IsWithin (widen least greatest s).0 (widen least greatest s).1) s
unfolding widen
widen-All least greatest [] = (omega arith, omega arith, tt)
widen-All least greatest (s ∷ later) =
    let (a, b) = lesser_le s least in
    let (c, d) = greater_le s greatest in
    let (e, f, g) =
      widen-All (if ltb s least then s else least) (if ltb greatest s then s else greatest) later in
    (omega (arith, e, b), omega (arith, d, f), ((omega (arith, e, a), omega (arith, c, f)), g))

total_bounds :
    (least greatest : ℕ) (s : List ℕ)
    → All (IsWithin least greatest) s
    → (least * length s ≤ total s) × (total s ≤ greatest * length s)
total_bounds least greatest [] h = (omega arith, omega arith)
total_bounds least greatest (s ∷ later) ((f, g), h) =
    let (k, l) = total_bounds least greatest later h in (omega arith, omega arith)

average-IsWithin :
    (least greatest : ℕ) (s : List ℕ)
    → 0 < length s
    → All (IsWithin least greatest) s
    → IsWithin least greatest (total s / length s)
average-IsWithin least greatest s h k =
    let (f, g) = total_bounds least greatest s k in
    ((le-div_iff_mul-le h).1 f, div-le_of_le-mul (length s) (omega (arith, g)))

-- An average between a least and a greatest sample, which bound all samples.
abbrev pub IsStats : List ℕ → Option (ℕ × ℕ × ℕ) → Type 0
IsStats samples stats =
    (avg : ℕ) × (least : ℕ) × (greatest : ℕ) × (stats ≡ some (avg, least, greatest))
    × IsWithin least greatest avg
    × All (IsWithin least greatest) samples

stats_of_lem :
    (latency : NodeLatency) (s : List ℕ)
    → latency.samples ≡ s
    → 0 < length s
    → latency.avg_latency ≡ total s / length s
    → IsStats s (stats_of latency)
unfolding stats_of
stats_of_lem latency [] e h f = absurd (omega (arith, h))
stats_of_lem latency (s ∷ later) e h f =
    let (least, greatest) = widen s s (s ∷ later) in
    let all = (widen-All s s (s ∷ later)).2 in
    (
      latency.avg_latency,
      least,
      greatest,
      rw e refl,
      rw f (average-IsWithin least greatest (s ∷ later) h all),
      all,
    )

stats_lem :
    (limit : ℕ) (hist : List ℕ) (entry : Option NodeLatency)
    → 0 < limit
    → IsSummary limit hist entry
    → IsStats (newest limit hist) (stats_or_zero entry)
unfolding stats_or_zero IsSummary
stats_lem limit [] entry h e =
    rw (e, newest_nil limit) (0, 0, 0, refl, (omega arith, omega arith), tt)
stats_lem limit (s ∷ later) entry h (latency, e, f, g, k) = rw e (
    stats_of_lem latency (newest limit (s ∷ later)) f
      (omega (arith, length-drop (length (s ∷ later) - limit) (s ∷ later)))
      (k ∙ ap₂ ◌/◌ (g ∙ ap total f) (ap length f)))

-- After any calls of `RecordLatency` on a new tracker whose limit is positive, `GetLatencyStats`
-- never panics, for no node: the average lies between the least and the greatest value that it
-- returns, and so does every latency still kept.
get_latency_stats-IsStats :
    (calls : List Call) (redis : Outbox) (window_size max_samples : ℕ) (node_id : String)
    → 0 < max_samples
    → (lt : LatencyTracker) × (record_all calls (new_latency_tracker redis window_size max_samples)
        ≡ some lt)
      × IsStats (newest max_samples (recorded node_id calls)) (get_latency_stats node_id lt)
unfolding get_latency_stats
get_latency_stats-IsStats calls redis window_size max_samples node_id h =
    let (lt, e, f) = samples_exact calls redis window_size max_samples h in
    (lt, e, stats_lem max_samples (recorded node_id calls) (lt.latencies node_id) h (f node_id))
