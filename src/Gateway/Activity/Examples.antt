-- ===== src/Gateway/Activity/Examples.antt =====
-- gateway/timeout_webhook.go: a dashboard of two activities.
use pmi.Base.{ℕ, String, ◌≡◌, refl, max, List, [], ◌∷◌, take}
use pmi.Base.Window.{newest}
use pmi.Gateway.Activity.{Activity, new_activity_dashboard, get_activities, get_by_user}
use pmi.Gateway.Activity.Kept.{record_all}

abbrev act_id : ℕ → String
act_id now = "act"

abbrev activity : String → String → Activity
activity user action = record {
  id = "";
  kind = "api_request";
  user = user;
  action = action;
  details = "";
  timestamp = 0;
  ip = "10.0.0.1";
}

abbrev recorded : List (ℕ × Activity)
recorded =
    (1, activity "ann" "POST /a")
    ∷ (2, activity "ann" "POST /b")
    ∷ (3, activity "ann" "POST /c")
    ∷ []

-- With the same limit the one shows the last activity, and the other the one before it.
shown_differ :
    (get_activities 1 (record_all act_id recorded (new_activity_dashboard 2))
      ≡ record (activity "ann" "POST /c") { id = "act"; timestamp = 3 } ∷ [])
    × (get_by_user "ann" 1 (record_all act_id recorded (new_activity_dashboard 2))
        ≡ record (activity "ann" "POST /b") { id = "act"; timestamp = 2 } ∷ [])
unfolding get_activities get_by_user record_all new_activity_dashboard pmi.Gateway.Activity.collect
    pmi.Gateway.Activity.record_activity pmi.Base.Window.append_bounded pmi.Base.text_discrete
shown_differ = (refl, refl)
