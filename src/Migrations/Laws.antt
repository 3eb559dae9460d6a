-- ===== src/Migrations/Laws.antt =====
-- internal/migrations/migrator.go: what a run and a rollback leave.
use mathlib.Core.List.{Memᴰ}
use mathlib.Core.List.Memᴰ
use pmi.Base.{
  All-Mem, String, ◌≡◌, refl, sym, subst, inl, inr, Bool, true, false, none, some, if◌then◌else◌,
  List, [], ◌∷◌, arith, Bool-cases, Option-cases, All,
}
use pmi.Migrations.{Migration, Store, mark, run_one, run_all, run}

module _ (Data : Type 0) where
  -- Recording one more id forgets none.
  run_one-keeps :
      (refuses : String → Bool) (m : Migration Data) (s : Store Data) (j : String)
      → s.applied j ≡ true
      → (run_one Data refuses m s).0.applied j ≡ true
  unfolding run_one mark
  run_one-keeps refuses m s j h = ground arith

  run_one-records :
      (refuses : String → Bool) (m : Migration Data) (s : Store Data)
      → (run_one Data refuses m s).1 ≡ none
      → (run_one Data refuses m s).0.applied m.id ≡ true
  unfolding run_one mark
  run_one-records refuses m s h = ground arith

  run_all-keeps :
      (refuses applied_set : String → Bool) (ms : List (Migration Data)) (s : Store Data)
      (j : String)
      → s.applied j ≡ true
      → (run_all Data refuses applied_set ms s).0.applied j ≡ true
  unfolding run_all
  run_all-keeps refuses applied_set [] s j h = h
  run_all-keeps refuses applied_set (m ∷ ms) s j h = ground (
    arith,
    run_all-keeps refuses applied_set ms s j h,
    run_one-keeps refuses m s j h,
    run_all-keeps refuses applied_set ms (run_one Data refuses m s).0 j,
  )

  all_applied :
      (refuses applied_set : String → Bool) (ms : List (Migration Data)) (s : Store Data)
      (m : Migration Data)
      → ((j : String) → applied_set j ≡ true → s.applied j ≡ true)
      → (run_all Data refuses applied_set ms s).1 ≡ none
      → Memᴰ m ms
      → (run_all Data refuses applied_set ms s).0.applied m.id ≡ true
  unfolding run_all
  all_applied refuses applied_set [] s m sub h mem = elim mem [ ]
  all_applied refuses applied_set (x ∷ ms) s m sub h mem = elim (Bool-cases (applied_set x.id)) [
    | inl e ↦ rw e (elim (Memᴰ.cases_cons mem) [
      | inl p ↦
          run_all-keeps refuses applied_set ms s m.id
            (subst (λ y. s.applied (y.id) ≡ true) (sym p) (sub x.id e))
      | inr t ↦ all_applied refuses applied_set ms s m sub (rw e at h) t
    ])
    | inr e ↦ elim (Option-cases (run_one Data refuses x s).1) [
      | inl o ↦
          let s' = (run_one Data refuses x s).0 in
          rw (e, o)
            (elim (Memᴰ.cases_cons mem) [
              | inl p ↦
                  run_all-keeps refuses applied_set ms s' m.id
                    (subst (λ y. s'.applied (y.id) ≡ true) (sym p) (run_one-records refuses x s o))
              | inr t ↦
                  all_applied refuses applied_set ms s' m
                    (λ j q. run_one-keeps refuses x s j (sub j q)) (rw (e, o) at h) t
            ])
      | inr (id, o) ↦ absurd (ground arith)
    ]
  ]

  skips_all :
      (refuses applied_set : String → Bool) (ms : List (Migration Data)) (s : Store Data)
      → ((m : Migration Data) → Memᴰ m ms → applied_set m.id ≡ true)
      → run_all Data refuses applied_set ms s ≡ (s, none)
  unfolding run_all
  skips_all refuses applied_set [] s h = refl
  skips_all refuses applied_set (m ∷ ms) s h =
      rw (h m (Memᴰ.head refl)) (skips_all refuses applied_set ms s (λ x t. h x (Memᴰ.tail t)))

  -- A run that reports no error has recorded every migration of the list, and a second run, even
  -- with a Redis that would refuse to record, runs none of them and changes nothing; it reports no
  -- error, unless it cannot read which are applied.
  pub run_idempotent :
      (unread unread' : Bool) (refuses refuses' : String → Bool) (ms : List (Migration Data))
      (s : Store Data)
      → (run Data unread refuses ms s).1 ≡ none
      → (All (λ m. (run Data unread refuses ms s).0.applied m.id ≡ true) ms)
        × (run Data unread' refuses' ms (run Data unread refuses ms s).0 ≡ (
          (run Data unread refuses ms s).0,
          if unread' then some "failed to get applied migrations" else none,
        ))
  unfolding run
  run_idempotent true unread' refuses refuses' ms s h = absurd (ground arith)
  run_idempotent false unread' refuses refuses' ms s h =
      let each = λ (m : Migration Data) (t : Memᴰ m ms).
        all_applied refuses s.applied ms s m (λ j q. q) h t in
      let s' = (run_all Data refuses s.applied ms s).0 in
      (
        All-Mem ms each,
        elim unread'
            as (λ b.
              (if b
                then (s', some "failed to get applied migrations")
                else run_all Data refuses' s'.applied ms s')
              ≡ (s', if b then some "failed to get applied migrations" else none)) [
                | true ↦ refl
                | false ↦ skips_all refuses' s'.applied ms s' each
              ],
      )
