-- ===== src/Gateway/Activity.antt =====
-- gateway/timeout_webhook.go, `ActivityDashboard`: the last activities of the administrators. A
-- limit that is not positive is 0 here, and `act_id` is the `Sprintf` of an id.
mod Kept
mod Examples
use pmi.Base.{
  ℕ, ◌+◌, ◌-◌, String, Bool, true, false, ◌||◌, List, [], ◌∷◌, ◌++◌, ltb, leb, if◌then◌else◌,
  length, take, drop, ite, text_discrete, text_append,
}
use pmi.Base.Window.{append_bounded}

pub record Activity : Type 0 where
  pub id : String
  pub kind : String
  pub user : String
  pub action : String
  pub details : String
  pub timestamp : ℕ
  pub ip : String

pub record ActivityDashboard : Type 0 where
  pub activities : List Activity
  pub max_entries : ℕ

pub new_activity_dashboard : ℕ → ActivityDashboard
new_activity_dashboard max_entries = record {
  activities = [];
  max_entries = if leb max_entries 0 then 500 else max_entries;
}

-- `copy(result, activities[len(activities)-limit:])`, with the limit that is applied.
pub get_activities : ℕ → ActivityDashboard → List Activity
get_activities limit ad =
    let all = length ad.activities in
    let limit' = if leb limit 0 || ltb all limit then all else limit in
    drop (all - limit') ad.activities

-- The loop of `GetByUser`, which has found so many.
collect : String → ℕ → ℕ → List Activity → List Activity
collect username limit found [] = []
collect username limit found (a ∷ later) =
    let rest = collect username limit (found + 1) later in
    ite (text_discrete a.user username) (a ∷ (if leb limit (found + 1) then [] else rest))
      (collect username limit found later)

pub get_by_user : String → ℕ → ActivityDashboard → List Activity
unfolding collect
get_by_user username limit ad = collect username limit 0 ad.activities

module _ (act_id : ℕ → String) where
  -- `Record`, at a time.
  pub record_activity : ℕ → Activity → ActivityDashboard → ActivityDashboard
  record_activity now activity ad =
      let stamped : Activity = record activity { id = act_id now; timestamp = now } in
      record ad { activities = append_bounded ad.max_entries stamped ad.activities }

  -- What `Middleware` does after the handler: `failed` is the text of a status that is an error.
  pub middleware :
      (failed : ℕ → String)
      → ℕ
      → String
      → String
      → String
      → String
      → ℕ
      → ActivityDashboard
      → ActivityDashboard
  unfolding record_activity
  middleware failed now method path user ip status ad = ite (text_discrete method "GET") ad (
      ite (text_discrete path "/health") ad (
        record_activity now
          (record {
            id = "";
            kind = "api_request";
            user = ite (text_discrete user "") "anonymous" user;
            action = text_append method (text_append " " path);
            details = if leb 400 status then failed status else "";
            timestamp = 0;
            ip = ip;
          })
          ad))
