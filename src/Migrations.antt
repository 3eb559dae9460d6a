-- ===== src/Migrations.antt =====
-- internal/migrations/migrator.go: migrations applied in order, each recorded once it has run. The
-- data that migrations change is a parameter, and `after a b` is Go's `a > b` on ids.
mod Laws
mod Undo
mod Examples
use pmi.Base.{
  [], String, ite, Bool, true, false, ◌&&◌, Option, none, some, List, ◌∷◌, if◌then◌else◌,
  text_discrete,
}

module _ (Data : Type 0) where
  -- `Up` and `Down` return the data that they leave, and whether they succeeded.
  pub record Migration : Type 0 where
    pub id : String
    pub up : Data → Data × Bool
    pub down : Option (Data → Data × Bool)

  -- `applied` is the set in Redis under "migrations:applied".
  pub record Store : Type 0 where
    pub contents : Data
    pub applied : String → Bool

  pub mark : String → Store → Store
  mark id s = record s { applied = λ j. ite (text_discrete id j) true (s.applied j) }

  unmark : String → Store → Store
  unmark id s = record s { applied = λ j. ite (text_discrete id j) false (s.applied j) }

  -- `refuses id` says whether Redis fails to record an id. An error is the id that it names, or a
  -- text where the applied ones cannot be read.
  run_one : (String → Bool) → Migration → Store → Store × Option String
  run_one refuses m s =
      let (contents', succeeded) = m.up s.contents in
      let s' : Store = record s { contents = contents' } in
      if succeeded
      then (if refuses m.id then (s', some m.id) else (mark m.id s', none))
      else (s', some m.id)

  run_all : (String → Bool) → (String → Bool) → List Migration → Store → Store × Option String
  run_all refuses applied_set [] s = (s, none)
  run_all refuses applied_set (m ∷ ms) s =
      if applied_set m.id
      then run_all refuses applied_set ms s
      else (let (s', failed) = run_one refuses m s in
          elim failed [ none ↦ run_all refuses applied_set ms s' | some id ↦ (s', some id) ])

  -- The set is read once, before the loop; `unread` says whether that read fails.
  pub run : Bool → (String → Bool) → List Migration → Store → Store × Option String
  run unread refuses ms s =
      if unread
      then (s, some "failed to get applied migrations")
      else run_all refuses s.applied ms s

  pending : List Migration → Store → List String
  pending [] s = []
  pending (m ∷ ms) s = let rest = pending ms s in if s.applied m.id then rest else m.id ∷ rest

  select_rollback : (String → String → Bool) → String → List Migration → Store → List Migration
  select_rollback after target [] s = []
  select_rollback after target (m ∷ ms) s =
      let rest = select_rollback after target ms s in
      if s.applied m.id && after m.id target then m ∷ rest else rest

  undo : Option (Data → Data × Bool) → Data → Data × Bool
  undo none contents = (contents, true)
  undo (some down) contents = down contents

  roll_back_one : (String → Bool) → Migration → Store → Store × Option String
  roll_back_one refuses m s =
      let (contents', succeeded) = undo m.down s.contents in
      let s' : Store = record s { contents = contents' } in
      if succeeded
      then (if refuses m.id then (s', some m.id) else (unmark m.id s', none))
      else (s', some m.id)

  -- From the last of the list to the first.
  roll_back_all : (String → Bool) → List Migration → Store → Store × Option String
  roll_back_all refuses [] s = (s, none)
  roll_back_all refuses (m ∷ ms) s =
      let (s', failed) = roll_back_all refuses ms s in
      elim failed [ none ↦ roll_back_one refuses m s' | some id ↦ (s', some id) ]

  pub rollback :
      Bool
      → (String → String → Bool)
      → (String → Bool)
      → List Migration
      → String
      → Store
      → Store × Option String
  rollback unread after refuses ms target s =
      if unread
      then (s, some "redis")
      else roll_back_all refuses (select_rollback after target ms s) s
