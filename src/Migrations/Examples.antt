-- ===== src/Migrations/Examples.antt =====
-- internal/migrations/migrator.go: two migrations.
use pmi.Base.{
  ℕ, ◌+◌, ◌-◌, ◌*◌, String, ◌≡◌, refl, Bool, true, false, none, some, [], ◌∷◌, text_discrete, All,
  ite,
}
use pmi.Migrations.{rollback, Migration, Store, run}
use pmi.Migrations.Laws.{run_idempotent}

abbrev add_one : Migration ℕ
add_one = record { id = "1"; up = λ d. (d + 1, true); down = some (λ d. (d - 1, true)) }

abbrev twice : Migration ℕ
twice = record { id = "2"; up = λ d. (d * 2, true); down = none }

abbrev fresh : Store ℕ
fresh = record { contents = 3; applied = λ j. false }

abbrev answers : String → Bool
answers id = false

abbrev refuses_all : String → Bool
refuses_all id = true

runs_clean : (run ℕ false answers (add_one ∷ twice ∷ []) fresh).1 ≡ none
unfolding run text_discrete pmi.Migrations.run_all pmi.Migrations.run_one
runs_clean = refl

run_idempotent_example :
    All
      (λ m. (run ℕ false answers (add_one ∷ twice ∷ []) fresh).0.applied m.id ≡ true)
      (add_one ∷ twice ∷ [])
    × (run ℕ false refuses_all
          (add_one ∷ twice ∷ [])
          (run ℕ false answers (add_one ∷ twice ∷ []) fresh).0
        ≡ ((run ℕ false answers (add_one ∷ twice ∷ []) fresh).0, none))
run_idempotent_example =
    run_idempotent ℕ false false answers refuses_all (add_one ∷ twice ∷ []) fresh runs_clean

abbrev both : Store ℕ
both = record { contents = 8; applied = λ j. true }

abbrev is_two : String → String → Bool
is_two a b = ite (text_discrete a "2") true false

rolled_back : (rollback ℕ false is_two answers (add_one ∷ twice ∷ []) "1" both).1 ≡ none
unfolding rollback pmi.Migrations.select_rollback pmi.Migrations.roll_back_all
    pmi.Migrations.roll_back_one pmi.Migrations.undo text_discrete
rolled_back = refl
