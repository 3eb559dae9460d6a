-- ===== src/Migrations/Undo.antt =====
-- internal/migrations/migrator.go: what a rollback undoes.
use pmi.Base.{
  String, ◌≡◌, refl, ite, Bool, true, false, not, ◌&&◌, none, List, [], ◌∷◌, arith, if◌then◌else◌,
  text_discrete,
}
use pmi.Migrations.{
  Migration, Store, unmark, select_rollback, roll_back_one, roll_back_all, rollback,
}

module _ (Data : Type 0) where
  -- Whether a migration of the list has an id.
  unfoldable pub listed : String → List (Migration Data) → Bool
  listed j [] = false
  listed j (m ∷ ms) = ite (text_discrete m.id j) true (listed j ms)

  roll_back_one-applied :
      (refuses : String → Bool) (m : Migration Data) (s : Store Data) (j : String)
      → (roll_back_one Data refuses m s).1 ≡ none
      → (roll_back_one Data refuses m s).0.applied j
        ≡ ite (text_discrete m.id j) false (s.applied j)
  unfolding roll_back_one unmark
  roll_back_one-applied refuses m s j h = ground arith

  roll_back_all-applied :
      (refuses : String → Bool) (ms : List (Migration Data)) (s : Store Data) (j : String)
      → (roll_back_all Data refuses ms s).1 ≡ none
      → (roll_back_all Data refuses ms s).0.applied j ≡ (if listed j ms then false else s.applied j)
  unfolding roll_back_all listed
  roll_back_all-applied refuses [] s j h = refl
  roll_back_all-applied refuses (m ∷ ms) s j h =
      let s' = (roll_back_all Data refuses ms s).0 in
      ground (arith, roll_back_all-applied refuses ms s j, roll_back_one-applied refuses m s' j)

  listed-select_rollback :
      (after : String → String → Bool) (target j : String) (ms : List (Migration Data))
      (s : Store Data)
      → listed j (select_rollback Data after target ms s)
        ≡ (listed j ms && (s.applied j && after j target))
  unfolding listed select_rollback
  listed-select_rollback after target j [] s = refl
  listed-select_rollback after target j (m ∷ ms) s =
      ground (arith, listed-select_rollback after target j ms s)

  -- A rollback that reports no error leaves as applied exactly the migrations that were applied,
  -- but for those of the list whose ids come after the target.
  rollback_lem :
      (unread : Bool) (after : String → String → Bool) (refuses : String → Bool)
      (ms : List (Migration Data)) (target : String) (s : Store Data)
      → (rollback Data unread after refuses ms target s).1 ≡ none
      → (j : String)
      → (rollback Data unread after refuses ms target s).0.applied j
        ≡ (s.applied j && not (listed j ms && after j target))
  unfolding rollback
  rollback_lem true after refuses ms target s h j = absurd (ground arith)
  rollback_lem false after refuses ms target s h j = ground (
    arith,
    roll_back_all-applied refuses (select_rollback Data after target ms s) s j h,
    listed-select_rollback after target j ms s,
  )
