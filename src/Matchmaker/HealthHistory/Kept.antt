-- ===== src/Matchmaker/HealthHistory/Kept.antt =====
-- matchmaker/health_history.go: what is kept of each node, and what `GetHistory` returns of it.
use pmi.Base.{
  ℕ, String, ◌≡◌, refl, sym, ap, ◌∙◌, false, ◌||◌, Option, List, [], ◌∷◌, ◌++◌, ltb, leb, arith,
  if◌then◌else◌, length, take, ite, text_discrete,
}
use mathlib.Core.Path.{ap₂}
use mathlib.Core.List.{append-nil, append_assoc}
use pmi.Base.Redis.{Outbox, Command, send}
use pmi.Base.Window.{append_bounded, newest, append_bounded-newest, cut_at, newest_nil}
use pmi.Matchmaker.HealthHistory.{
  HealthStatus, HealthHistory, new_health_history, record_health, get_history, history_limit,
  kept_or, from_redis,
}

module _ (encode : HealthStatus → String) where
  -- The entries, recorded one after another.
  unfoldable pub record_all : List HealthStatus → HealthHistory → HealthHistory
  record_all [] hh = hh
  record_all (entry ∷ later) hh = record_all later (record_health encode entry hh)

-- The entries of a node.
unfoldable pub of_node : String → List HealthStatus → List HealthStatus
of_node node_id [] = []
of_node node_id (entry ∷ later) =
    ite (text_discrete entry.node_id node_id) (entry ∷ of_node node_id later)
      (of_node node_id later)

of_node_step :
    (node_id : String) (entry : HealthStatus) (later : List HealthStatus)
    → of_node node_id (entry ∷ []) ++ of_node node_id later ≡ of_node node_id (entry ∷ later)
unfolding of_node
of_node_step node_id entry later =
    elim (text_discrete entry.node_id node_id)
      as (λ d.
        ite d (entry ∷ []) [] ++ of_node node_id later
        ≡ ite d (entry ∷ of_node node_id later) (of_node node_id later)) [
          | yes _ ↦ refl
          | no _ ↦ refl
        ]

sent_connected : (cs : List Command) (o : Outbox) → (send cs o).connected ≡ o.connected
sent_connected cs o = ground arith

module _ (encode : HealthStatus → String) where
  record_at :
      (entry : HealthStatus) (before : List HealthStatus) (hh : HealthHistory) (node_id : String)
      → hh.history node_id ≡ newest hh.max_entries before
      → (record_health encode entry hh).history node_id
        ≡ newest hh.max_entries (before ++ of_node node_id (entry ∷ []))
  unfolding of_node record_health
  record_at entry before hh node_id e =
      elim (text_discrete entry.node_id node_id)
        as (λ d.
          ite d (append_bounded hh.max_entries entry (hh.history entry.node_id))
            (hh.history node_id)
          ≡ newest hh.max_entries (before ++ ite d (entry ∷ []) [])) [
            | yes f ↦
                ap (append_bounded hh.max_entries entry) (ap hh.history f ∙ e)
                ∙ append_bounded-newest hh.max_entries entry before
            | no _ ↦ e ∙ ap (newest hh.max_entries) (sym (append-nil before))
          ]

  kept_from :
      (entries before : List HealthStatus) (hh : HealthHistory) (node_id : String)
      → hh.history node_id ≡ newest hh.max_entries before
      → (record_all encode entries hh).history node_id
        ≡ newest hh.max_entries (before ++ of_node node_id entries)
  unfolding record_all of_node record_health
  kept_from [] before hh node_id e = e ∙ ap (newest hh.max_entries) (sym (append-nil before))
  kept_from (entry ∷ later) before hh node_id e =
      kept_from later (before ++ of_node node_id (entry ∷ [])) (record_health encode entry hh)
        node_id (record_at entry before hh node_id e)
      ∙ ap (newest hh.max_entries) (
          append_assoc before (of_node node_id (entry ∷ [])) (of_node node_id later)
          ∙ ap (λ l. before ++ l) (of_node_step node_id entry later))

  fixed :
      (entries : List HealthStatus) (hh : HealthHistory)
      → ((record_all encode entries hh).max_entries ≡ hh.max_entries)
        × ((record_all encode entries hh).redis.connected ≡ hh.redis.connected)
  unfolding record_all record_health
  fixed [] hh = (refl, refl)
  fixed (entry ∷ later) hh =
      let (e, f) = fixed later (record_health encode entry hh) in (e, f ∙ sent_connected _ hh.redis)

kept_or_nothing : (l : List HealthStatus) → kept_or [] l ≡ l
unfolding kept_or
kept_or_nothing [] = refl
kept_or_nothing (x ∷ xs) = refl

module _ (decode : String → String → HealthStatus) where
  nothing_stored :
      (l_range : Option (List String)) (node_id : String) (hh : HealthHistory)
      → hh.redis.connected ≡ false
      → from_redis decode l_range node_id hh ≡ []
  unfolding from_redis
  nothing_stored l_range node_id hh e = rw e refl

  get_history_local :
      (l_range : Option (List String)) (node_id : String) (limit : ℕ) (hh : HealthHistory)
      → hh.redis.connected ≡ false
      → get_history decode l_range node_id limit hh
        ≡ take (history_limit limit hh) (hh.history node_id)
  unfolding get_history
  get_history_local l_range node_id limit hh e =
      ap
        (λ l.
          let h = kept_or l (hh.history node_id) in
          if ltb (history_limit limit hh) (length h) then take (history_limit limit hh) h else h)
        (nothing_stored l_range node_id hh e)
      ∙ ap
          (λ h.
            if ltb (history_limit limit hh) (length h) then take (history_limit limit hh) h else h)
          (kept_or_nothing (hh.history node_id))
      ∙ cut_at (history_limit limit hh) (hh.history node_id)

  -- Without Redis, after any entries were recorded on a new history, `GetHistory` returns of a node
  -- the oldest, as many as its limit allows, of the newest entries that the history keeps.
  history_exact :
      (encode : HealthStatus → String) (entries : List HealthStatus) (redis : Outbox)
      (max_entries : ℕ) (l_range : Option (List String)) (node_id : String) (limit : ℕ)
      → redis.connected ≡ false
      → get_history decode l_range node_id limit
          (record_all encode entries (new_health_history redis max_entries))
        ≡ take
            (history_limit limit (new_health_history redis max_entries))
            (newest (new_health_history redis max_entries).max_entries (of_node node_id entries))
  unfolding new_health_history history_limit
  history_exact encode entries redis max_entries l_range node_id limit e =
      let start = new_health_history redis max_entries in
      let hh = record_all encode entries start in
      let (m, c) = fixed encode entries start in
      get_history_local l_range node_id limit hh (c ∙ e)
      ∙ ap₂ (λ n l. take (if leb limit 0 || ltb n limit then n else limit) l) m
          (kept_from encode entries [] start node_id (sym (newest_nil start.max_entries)))
