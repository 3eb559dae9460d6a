-- ===== src/Matchmaker/Latency/Samples.antt =====
-- matchmaker/latency.go: what a node's samples are after any calls of `RecordLatency`.
use pmi.Base.{
  ℕ, ◌+◌, ◌-◌, ◌/◌, ◌<◌, String, ◌≡◌, refl, sym, ap, ◌∙◌, subst, Option, none, some, List, [], ◌∷◌,
  ◌++◌, arith, ltb, length, drop, Bool-cases, text_discrete, length-append, inl, inr, ite,
}
use mathlib.Core.Option as Option
use mathlib.Core.List.{append-nil, append_assoc}
use pmi.Base.Redis.{Outbox}
use pmi.Base.Window.{append_bounded, newest, append_bounded-newest, length-drop, newest_nil}
use pmi.Matchmaker.Latency.{
  LatencyTracker, NodeLatency, new_latency_tracker, record_latency, drop_oldest, add_sample,
  recompute, latency_or_new, store,
}

abbrev pub total : List ℕ → ℕ
total [] = 0
total (s ∷ later) = s + total later

-- A call `RecordLatency(node_id, latency_ms)` at a time.
pub record Call : Type 0 where
  pub now : ℕ
  pub node_id : String
  pub latency_ms : ℕ

-- The calls, one after another.
pub record_all : List Call → LatencyTracker → Option LatencyTracker
record_all [] lt = some lt
record_all (c ∷ later) lt = elim (record_latency c.now c.node_id c.latency_ms lt) [
  | none ↦ none
  | some lt' ↦ record_all later lt'
]

-- The latencies of a node among the calls.
pub recorded : String → List Call → List ℕ
recorded node_id [] = []
recorded node_id (c ∷ later) = elim (text_discrete c.node_id node_id) [
  | yes _ ↦ c.latency_ms ∷ recorded node_id later
  | no _ ↦ recorded node_id later
]

-- What the tracker keeps of a node for which these latencies were recorded.
unfoldable pub IsSummary : ℕ → List ℕ → Option NodeLatency → Type 0
IsSummary limit [] entry = entry ≡ none
IsSummary limit (s ∷ later) entry =
    (latency : NodeLatency) × (entry ≡ some latency)
    × (latency.samples ≡ newest limit (s ∷ later))
    × (latency.sum ≡ total latency.samples)
    × (latency.avg_latency ≡ latency.sum / length latency.samples)

total-append : (xs ys : List ℕ) → total (xs ++ ys) ≡ total xs + total ys
total-append [] ys = omega arith
total-append (x ∷ xs) ys = omega (arith, total-append xs ys)

drop_oldest_lem :
    (latency : NodeLatency) (s : List ℕ)
    → latency.samples ≡ s
    → latency.sum ≡ total s
    → ((drop_oldest latency).samples ≡ drop 1 s) × ((drop_oldest latency).sum ≡ total (drop 1 s))
unfolding drop_oldest
drop_oldest_lem latency [] e h = rw e (refl, h)
drop_oldest_lem latency (s ∷ later) e h = rw e (refl, omega (arith, h))

add_sample_lem :
    (limit ms : ℕ) (latency : NodeLatency)
    → latency.sum ≡ total latency.samples
    → ((add_sample limit ms latency).samples ≡ append_bounded limit ms latency.samples)
      × ((add_sample limit ms latency).sum ≡ total (append_bounded limit ms latency.samples))
unfolding add_sample append_bounded
add_sample_lem limit ms latency e =
    let grown = latency.samples ++ (ms ∷ []) in
    let summed : latency.sum + ms ≡ total grown =
      omega (arith, total-append latency.samples (ms ∷ [])) in
    elim (Bool-cases (ltb limit (length grown))) [
      | inl f ↦ rw f (
          drop_oldest_lem (record latency { samples = grown; sum = latency.sum + ms }) grown refl
            summed)
      | inr f ↦ rw f (refl, summed)
    ]

recompute_lem :
    (now : ℕ) (latency : NodeLatency) (s : List ℕ)
    → latency.samples ≡ s
    → 0 < length s
    → recompute now latency
      ≡ some (record latency { avg_latency = latency.sum / length s; last_update = now })
unfolding recompute
recompute_lem now latency [] e h = absurd (omega (arith, h))
recompute_lem now latency (s ∷ later) e h = rw e refl

IsSummary-append :
    (limit ms : ℕ) (hist : List ℕ) (latency : NodeLatency)
    → latency.samples ≡ newest limit (hist ++ (ms ∷ []))
    → latency.sum ≡ total latency.samples
    → latency.avg_latency ≡ latency.sum / length latency.samples
    → IsSummary limit (hist ++ (ms ∷ [])) (some latency)
unfolding IsSummary
IsSummary-append limit ms [] latency e f g = (latency, refl, e, f, g)
IsSummary-append limit ms (s ∷ later) latency e f g = (latency, refl, e, f, g)

-- What `RecordLatency` starts from.
summary_start :
    (limit now : ℕ) (hist : List ℕ) (entry : Option NodeLatency)
    → IsSummary limit hist entry
    → ((latency_or_new now entry).samples ≡ newest limit hist)
      × ((latency_or_new now entry).sum ≡ total (latency_or_new now entry).samples)
unfolding IsSummary latency_or_new
summary_start limit now [] entry e = rw e (sym (newest_nil limit), refl)
summary_start limit now (s ∷ later) entry (latency, e, f, g, k) = rw e (f, g)

-- One more latency recorded for a node.
record_entry :
    (limit now ms : ℕ) (entry : Option NodeLatency) (hist : List ℕ)
    → 0 < limit
    → IsSummary limit hist entry
    → (latency : NodeLatency) × (recompute now (add_sample limit ms (latency_or_new now entry))
        ≡ some latency)
      × IsSummary limit (hist ++ (ms ∷ [])) (some latency)
record_entry limit now ms entry hist h e =
    let (f, g) = summary_start limit now hist entry e in
    let start = latency_or_new now entry in
    let added = add_sample limit ms start in
    let (samples, sum) = add_sample_lem limit ms start g in
    let kept : added.samples ≡ newest limit (hist ++ (ms ∷ [])) =
      samples ∙ ap (append_bounded limit ms) f ∙ append_bounded-newest limit ms hist in
    let some_left : 0 < length added.samples = rw kept (
      omega (
        arith,
        length-drop (length (hist ++ (ms ∷ [])) - limit) (hist ++ (ms ∷ [])),
        length-append hist (ms ∷ []),
      )) in
    let summed : added.sum ≡ total added.samples = sum ∙ ap total (sym samples) in
    (
      record added { avg_latency = added.sum / length added.samples; last_update = now },
      recompute_lem now added added.samples refl some_left,
      IsSummary-append limit ms hist
          (record added { avg_latency = added.sum / length added.samples; last_update = now }) kept
          summed refl,
    )

-- What the tracker stands for: the latencies recorded for each node so far.
abbrev pub IsTracking : (String → List ℕ) → LatencyTracker → Type 0
IsTracking hist lt =
    (node_id : String) → IsSummary lt.max_samples (hist node_id) (lt.latencies node_id)

abbrev add_call : Call → (String → List ℕ) → String → List ℕ
add_call c hist node_id = elim (text_discrete c.node_id node_id) [
  | yes _ ↦ hist node_id ++ (c.latency_ms ∷ [])
  | no _ ↦ hist node_id
]

store-IsTracking :
    (c : Call) (hist : String → List ℕ) (lt : LatencyTracker) (latency : NodeLatency)
    → IsTracking hist lt
    → IsSummary lt.max_samples (hist c.node_id ++ (c.latency_ms ∷ [])) (some latency)
    → IsTracking (add_call c hist) (store c.node_id lt latency)
unfolding store
store-IsTracking c hist lt latency h k node_id =
    elim (text_discrete c.node_id node_id)
      as (λ d.
        IsSummary lt.max_samples
          (elim d [ yes _ ↦ hist node_id ++ (c.latency_ms ∷ []) | no _ ↦ hist node_id ])
          (ite d (some latency) (lt.latencies node_id))) [
            | yes e ↦
                subst (λ i. IsSummary lt.max_samples (hist i ++ (c.latency_ms ∷ [])) (some latency))
                  e k
            | no _ ↦ h node_id
          ]

record_one :
    (c : Call) (hist : String → List ℕ) (lt : LatencyTracker)
    → 0 < lt.max_samples
    → IsTracking hist lt
    → (latency : NodeLatency) × (record_latency c.now c.node_id c.latency_ms lt
        ≡ some (store c.node_id lt latency))
      × IsTracking (add_call c hist) (store c.node_id lt latency)
unfolding record_latency
record_one c hist lt h f =
    let (latency, g, k) =
      record_entry lt.max_samples c.now c.latency_ms (lt.latencies c.node_id) (hist c.node_id) h
        (f c.node_id) in
    (latency, ap (Option.map (store c.node_id lt)) g, store-IsTracking c hist lt latency f k)

add_call-recorded :
    (c : Call) (later : List Call) (hist : String → List ℕ) (node_id : String)
    → add_call c hist node_id ++ recorded node_id later
      ≡ hist node_id ++ recorded node_id (c ∷ later)
unfolding recorded
add_call-recorded c later hist node_id =
    elim (text_discrete c.node_id node_id)
      as (λ d.
        elim d [ yes _ ↦ hist node_id ++ (c.latency_ms ∷ []) | no _ ↦ hist node_id ]
          ++ recorded node_id later
        ≡ hist node_id ++ elim d [
          | yes _ ↦ c.latency_ms ∷ recorded node_id later
          | no _ ↦ recorded node_id later
        ]) [
          | yes _ ↦ append_assoc (hist node_id) (c.latency_ms ∷ []) (recorded node_id later)
          | no _ ↦ refl
        ]

record_all_step :
    (c : Call) (later : List Call) (lt lt' : LatencyTracker)
    → record_latency c.now c.node_id c.latency_ms lt ≡ some lt'
    → record_all (c ∷ later) lt ≡ record_all later lt'
unfolding record_all
record_all_step c later lt lt' e =
    ap (λ (o : Option LatencyTracker). elim o [ none ↦ none | some next ↦ record_all later next ]) e

record_all-IsTracking :
    (calls : List Call) (hist : String → List ℕ) (lt : LatencyTracker)
    → 0 < lt.max_samples
    → IsTracking hist lt
    → (lt' : LatencyTracker) × (record_all calls lt ≡ some lt')
      × (lt'.max_samples ≡ lt.max_samples)
      × IsTracking (λ node_id. hist node_id ++ recorded node_id calls) lt'
unfolding record_all recorded store
record_all-IsTracking [] hist lt h f =
    let IsKept = λ (i : String) (l : List ℕ). IsSummary lt.max_samples l (lt.latencies i) in
    (lt, refl, refl, λ i. subst (IsKept i) (sym (append-nil (hist i))) (f i))
record_all-IsTracking (c ∷ later) hist lt h f =
    let (latency, e, k) = record_one c hist lt h f in
    let (lt', e', m, k') =
      record_all-IsTracking later (add_call c hist) (store c.node_id lt latency) h k in
    let IsKept = λ (i : String) (l : List ℕ). IsSummary lt'.max_samples l (lt'.latencies i) in
    (
      lt',
      record_all_step c later lt (store c.node_id lt latency) e ∙ e',
      m,
      λ i. subst (IsKept i) (add_call-recorded c later hist i) (k' i),
    )

-- From a new tracker whose limit is positive, no sequence of calls of `RecordLatency` panics, and
-- after it every node has exactly its newest latencies, as many as the limit allows, with their sum
-- and with the average of that sum; a node with no latency recorded has no entry.
pub samples_exact :
    (calls : List Call) (redis : Outbox) (window_size max_samples : ℕ)
    → 0 < max_samples
    → (lt : LatencyTracker) × (record_all calls (new_latency_tracker redis window_size max_samples)
        ≡ some lt)
      × ((node_id : String) → IsSummary max_samples (recorded node_id calls) (lt.latencies node_id))
unfolding new_latency_tracker IsSummary
samples_exact calls redis window_size max_samples h =
    let (lt, e, m, k) =
      record_all-IsTracking calls (λ _. []) (new_latency_tracker redis window_size max_samples) h
        (λ _. refl) in
    (lt, e, λ i. subst (λ l. IsSummary l (recorded i calls) (lt.latencies i)) m (k i))
