-- ===== src/Gateway/Activity/Kept.antt =====
-- gateway/timeout_webhook.go: which activities the dashboard shows.
use pmi.Base.{
  ℕ, zero, suc, ◌+◌, ◌-◌, ◌≤◌, ◌<◌, min, max, String, ◌≡◌, refl, sym, ap, ◌∙◌, ◌||◌, List, [], ◌∷◌,
  ◌++◌, ltb, leb, arith, if◌then◌else◌, length, take, drop, ite, text_discrete, inl, inr,
  Bool-cases,
}
use mathlib.Core.List.{append-nil, append_assoc}
use pmi.Base.Window.{
  append_bounded, newest, append_bounded-newest, newest-newest, newest_nil, length-drop,
}
use pmi.Gateway.Activity.{
  Activity, ActivityDashboard, new_activity_dashboard, get_activities, get_by_user, collect,
  record_activity,
}

module _ (act_id : ℕ → String) where
  abbrev stamp : ℕ × Activity → Activity
  stamp (now, activity) = record activity { id = act_id now; timestamp = now }

  -- The activities as they are kept, each with its id and time.
  pub stamped : List (ℕ × Activity) → List Activity
  stamped [] = []
  stamped (a ∷ later) = stamp a ∷ stamped later

  unfoldable pub record_all : List (ℕ × Activity) → ActivityDashboard → ActivityDashboard
  record_all [] ad = ad
  record_all ((now, activity) ∷ later) ad =
      record_all later (record_activity act_id now activity ad)

  kept_from :
      (recorded : List (ℕ × Activity)) (before : List Activity) (ad : ActivityDashboard)
      → ad.activities ≡ newest ad.max_entries before
      → (record_all recorded ad).activities ≡ newest ad.max_entries (before ++ stamped recorded)
  unfolding record_all stamped record_activity
  kept_from [] before ad e = e ∙ ap (newest ad.max_entries) (sym (append-nil before))
  kept_from ((now, activity) ∷ later) before ad e =
      let a = stamp (now, activity) in
      kept_from later (before ++ (a ∷ [])) (record_activity act_id now activity ad)
        (ap (append_bounded ad.max_entries a) e ∙ append_bounded-newest ad.max_entries a before)
      ∙ ap (newest ad.max_entries) (append_assoc before (a ∷ []) (stamped later))

-- The limit that is in force.
abbrev pub shown : ℕ → ℕ → ℕ
shown limit max_entries = if leb limit 0 then max_entries else min limit max_entries

limit_lem :
    (limit m all : ℕ)
    → all ≤ m
    → all - (if leb limit 0 || ltb all limit then all else limit)
      ≡ all - (if leb limit 0 then m else limit)
limit_lem limit m all h = ground arith

shown_lem : (limit m : ℕ) → min (if leb limit 0 then m else limit) m ≡ shown limit m
shown_lem limit m = ground arith

get_activities_lem :
    (limit m : ℕ) (xs : List Activity) (ad : ActivityDashboard)
    → ad.activities ≡ newest m xs
    → get_activities limit ad ≡ newest (shown limit m) xs
unfolding get_activities
get_activities_lem limit m xs ad e =
    let all = length ad.activities in
    let bounded : all ≤ m = rw e (omega (arith, length-drop (length xs - m) xs)) in
    let n = if leb limit 0 then m else limit in
    ap (λ k. drop k ad.activities) (limit_lem limit m all bounded)
    ∙ ap (newest n) e
    ∙ newest-newest n m xs
    ∙ ap (λ k. newest k xs) (shown_lem limit m)

take_nil : (n : ℕ) → take {A = Activity} n [] ≡ []
take_nil zero = refl
take_nil (suc n) = refl

-- The activities of a user.
of_user : String → List Activity → List Activity
of_user username [] = []
of_user username (a ∷ later) =
    ite (text_discrete a.user username) (a ∷ of_user username later) (of_user username later)

take_step :
    (limit found : ℕ) (a : Activity) (rest mine : List Activity)
    → found < max 1 limit
    → (found + 1 < max 1 limit → rest ≡ take (max 1 limit - (found + 1)) mine)
    → a ∷ (if leb limit (found + 1) then [] else rest) ≡ take (max 1 limit - found) (a ∷ mine)
take_step limit found a rest mine h ih =
    let one : max 1 limit - found ≡ suc (max 1 limit - (found + 1)) = omega arith in
    rw one (
      ap (◌∷◌ a) (elim (Bool-cases (leb limit (found + 1))) [
        | inl e ↦
            let zero_left : max 1 limit - (found + 1) ≡ 0 = ground arith in rw (e, zero_left) refl
        | inr e ↦ rw e (ih (ground arith))
      ]))

collect_lem :
    (username : String) (limit found : ℕ) (l : List Activity)
    → found < max 1 limit
    → collect username limit found l ≡ take (max 1 limit - found) (of_user username l)
unfolding collect of_user
collect_lem username limit found [] h = sym (take_nil (max 1 limit - found))
collect_lem username limit found (a ∷ later) h =
    elim (text_discrete a.user username)
      as (λ d.
        ite d (a ∷ (if leb limit (found + 1) then [] else collect username limit (found + 1) later))
          (collect username limit found later)
        ≡ take (max 1 limit - found)
            (ite d (a ∷ of_user username later) (of_user username later))) [
              | yes _ ↦
                  take_step limit found a (collect username limit (found + 1) later)
                    (of_user username later) h
                    (λ more. collect_lem username limit (found + 1) later more)
              | no _ ↦ collect_lem username limit found later h
            ]

module _ (act_id : ℕ → String) where
  -- After any activities were recorded on a new dashboard, `GetActivities` returns the newest of
  -- all recorded, as many as its limit and the dashboard's allow, and `GetByUser` the oldest of
  -- those that are kept of the user, as many as its limit says but at least one where there is one.
  activities_exact :
      (recorded : List (ℕ × Activity)) (max_entries limit : ℕ) (username : String)
      → (get_activities limit (record_all act_id recorded (new_activity_dashboard max_entries))
          ≡ newest
              (shown limit (new_activity_dashboard max_entries).max_entries)
              (stamped act_id recorded))
        × (get_by_user username limit
              (record_all act_id recorded (new_activity_dashboard max_entries))
            ≡ take (max 1 limit) (
                of_user username (
                  newest
                    (new_activity_dashboard max_entries).max_entries
                    (stamped act_id recorded))))
  unfolding get_by_user new_activity_dashboard
  activities_exact recorded max_entries limit username =
      let start = new_activity_dashboard max_entries in
      let ad = record_all act_id recorded start in
      let m = start.max_entries in
      let whole : max 1 limit - 0 ≡ max 1 limit = omega arith in
      let kept = kept_from act_id recorded [] start (sym (newest_nil m)) in
      (
        get_activities_lem limit m (stamped act_id recorded) ad kept,
        collect_lem username limit 0 ad.activities (omega arith)
            ∙ ap (λ n. take n (of_user username ad.activities)) whole
            ∙ ap (λ l. take (max 1 limit) (of_user username l)) kept,
      )
