-- ===== src/Matchmaker/Selection/Best.antt =====
-- matchmaker/service.go, `selectByLoad`: no candidate weighs more than the one selected.
use mathlib.Core.List.{Memᴰ}
use mathlib.Core.List.Memᴰ
use pmi.Base.{
  All-Mem, ℕ, String, ◌≡◌, sym, ◌∙◌, subst, ◌≢◌, inl, inr, if_neg, Bool, true, false, Option, List,
  [], ◌∷◌, Bool-cases, text_discrete, All,
}
use pmi.Base.Result.{ok}
use pmi.Matchmaker.Selection.Sound.{best-Mem}
use pmi.Matchmaker.Selection.{Floats, Reads, weight, best, select_by_load}

-- `gt` is the strict part of a total order, as on floats that are not NaN.
pub record IsTotal {ℓ} {W : Type ℓ} (gt : W → W → Bool) : Type ℓ where
  pub asym : (a b : W) → gt a b ≡ true → gt b a ≡ false
  pub trans : (a b c : W) → gt a b ≡ false → gt b c ≡ false → gt a c ≡ false

module _ (floats : Floats) (total : IsTotal floats.gt) where
  open floats use {Float, gt}

  gt_irrefl : (a : Float) → gt a a ≡ false
  gt_irrefl a = elim (Bool-cases (gt a a)) [ inl e ↦ total.asym a a e | inr e ↦ e ]

  best_top :
      (weigh : String → Float) (ids : List String) (selected : String)
      → gt (weigh selected) (weigh (best floats weigh ids (weigh selected) selected)) ≡ false
  unfolding best
  best_top weigh [] selected = gt_irrefl (weigh selected)
  best_top weigh (id ∷ ids) selected = elim (Bool-cases (gt (weigh id) (weigh selected))) [
    | inl e ↦ rw e (total.trans _ _ _ (total.asym _ _ e) (best_top weigh ids id))
    | inr e ↦ rw e (best_top weigh ids selected)
  ]

  best_each :
      (weigh : String → Float) (ids : List String) (selected x : String)
      → Memᴰ x ids
      → gt (weigh x) (weigh (best floats weigh ids (weigh selected) selected)) ≡ false
  unfolding best
  best_each weigh [] selected x h = elim h [ ]
  best_each weigh (id ∷ ids) selected x h = elim (Bool-cases (gt (weigh id) (weigh selected))) [
    | inl e ↦ elim (Memᴰ.cases_cons h) [
      | inl p ↦ rw (e, p) (best_top weigh ids id)
      | inr t ↦ rw e (best_each weigh ids id x t)
    ]
    | inr e ↦ elim (Memᴰ.cases_cons h) [
      | inl p ↦ rw (e, p) (total.trans _ _ _ e (best_top weigh ids selected))
      | inr t ↦ rw e (best_each weigh ids selected x t)
    ]
  ]

  best_named :
      (weigh : String → Float) (ids : List String) (first : String)
      → (¬ Memᴰ "" (first ∷ ids))
      → best floats weigh ids (weigh first) first ≢ ""
  best_named weigh ids first named e = elim (best-Mem floats weigh ids (weigh first) first) [
    | inl p ↦ named (Memᴰ.head (sym e ∙ p))
    | inr m ↦ named (subst (λ z. Memᴰ z (first ∷ ids)) e (Memᴰ.tail m))
  ]

  -- Where `>` on the weights is the strict part of a total order, the first candidate weighs more
  -- than -1 and none has the empty id, the selection by load does not fail, and no candidate weighs
  -- more than the one selected.
  pub select_by_load_best :
      (pick : ℕ → Option ℕ) (reads : Reads floats) (now : ℕ) (first : String) (ids : List String)
      → gt (weight floats reads now first) (floats.neg (floats.literal 1)) ≡ true
      → (¬ Memᴰ "" (first ∷ ids))
      → (id : String) × (select_by_load floats pick reads now (first ∷ ids) ≡ ok id)
        × All
            (λ x. gt (weight floats reads now x) (weight floats reads now id) ≡ false)
            (first ∷ ids)
  unfolding select_by_load best
  select_by_load_best pick reads now first ids h named =
      let weigh = weight floats reads now in
      let id = best floats weigh ids (weigh first) first in
      (
        id,
        rw h (if_neg (text_discrete id "") (best_named weigh ids first named) _ _),
        (best_top weigh ids first, All-Mem ids (λ x m. best_each weigh ids first x m)),
      )
