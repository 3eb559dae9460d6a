-- ===== src/Base/Sort.antt =====
-- The loops `for i … for j := i + 1 … if before(x[j], x[i]) { swap }`, by which several parts sort.
use pmi.Base.Tests.{if◌then◌else◌, Bool-cases}
use pmi.Base.Lists.{length, All}
use Prim.Native.Nat.{ℕ, zero, suc, ◌-◌, ◌≤◌}
use mathlib.Core.Path.{◌≡◌, refl, sym, subst}
use mathlib.Core.Logic.{inl, inr}
use mathlib.Core.Bool.{Bool, true, false}
use mathlib.Core.List.{List, [], ◌∷◌, Perm}
use mathlib.Core.List.Perm
use native.Mathlib.Omega.{arith}

-- Each element stands in relation to all behind it.
abbrev pub Sorted {ℓ κ} : {A : Type ℓ} → (A → A → Type κ) → List A → Type κ
Sorted R [] = Unit
Sorted R (x ∷ xs) = All (R x) xs × Sorted R xs

module _ {ℓ} {A : Type ℓ} (before : A → A → Bool) where
  -- The loop over `j`: what stands at `i` after it, and what stands behind.
  unfoldable pass : A → List A → A × List A
  pass x [] = (x, [])
  pass x (y ∷ ys) =
      let swaps = before y x in
      let (m, rest) = pass (if swaps then y else x) ys in (m, (if swaps then x else y) ∷ rest)

  -- The loop over `i`, of which so many rounds are left.
  unfoldable rounds : ℕ → List A → List A
  rounds zero xs = xs
  rounds (suc n) [] = []
  rounds (suc n) (x ∷ xs) = let (m, rest) = pass x xs in m ∷ rounds n rest

  unfoldable pub exchange_sort : List A → List A
  unfolding rounds pass
  exchange_sort xs = rounds (length xs - 1) xs

  pass_swaps :
      (x y : A) (ys : List A)
      → before y x ≡ true
      → pass x (y ∷ ys) ≡ ((pass y ys).0, x ∷ (pass y ys).1)
  unfolding pass
  pass_swaps x y ys e = rw e refl

  pass_keeps :
      (x y : A) (ys : List A)
      → before y x ≡ false
      → pass x (y ∷ ys) ≡ ((pass x ys).0, y ∷ (pass x ys).1)
  unfolding pass
  pass_keeps x y ys e = rw e refl

  length-pass : (x : A) (xs : List A) → length (pass x xs).1 ≡ length xs
  unfolding pass
  length-pass x [] = refl
  length-pass x (y ∷ ys) = omega (arith, length-pass (if before y x then y else x) ys)

  swap_perm :
      (b : Bool) (x y : A) (ys : List A)
      → Perm (x ∷ y ∷ ys) ((if b then x else y) ∷ (if b then y else x) ∷ ys)
  swap_perm true x y ys = Perm.rfl
  swap_perm false x y ys = Perm.swap y x ys

  pass_perm : (x : A) (xs : List A) → Perm (x ∷ xs) ((pass x xs).0 ∷ (pass x xs).1)
  unfolding pass
  pass_perm x [] = Perm.rfl
  pass_perm x (y ∷ ys) =
      let b = before y x in
      Perm.trans (swap_perm b x y ys) (
        Perm.trans (Perm.cons (if b then x else y) (pass_perm (if b then y else x) ys))
          (Perm.swap _ _ _))

  rounds_perm : (n : ℕ) (xs : List A) → Perm xs (rounds n xs)
  unfolding rounds
  rounds_perm zero xs = Perm.rfl
  rounds_perm (suc n) [] = Perm.rfl
  rounds_perm (suc n) (x ∷ xs) =
      Perm.trans (pass_perm x xs) (Perm.cons (pass x xs).0 (rounds_perm n (pass x xs).1))

  pub exchange_sort-Perm : (xs : List A) → Perm xs (exchange_sort xs)
  unfolding exchange_sort
  exchange_sort-Perm xs = rounds_perm (length xs - 1) xs

  pass-All {κ} :
      (P : A → Type κ) (x : A) (xs : List A)
      → P x
      → All P xs
      → P (pass x xs).0 × All P (pass x xs).1
  unfolding pass
  pass-All P x [] p ps = (p, tt)
  pass-All P x (y ∷ ys) p (q, qs) =
      elim (before y x)
        as (λ b.
          P (pass (if b then y else x) ys).0
          × (P (if b then x else y) × All P (pass (if b then y else x) ys).1)) [
            | true ↦ let (m, rest) = pass-All P y ys q qs in (m, (p, rest))
            | false ↦ let (m, rest) = pass-All P x ys p qs in (m, (q, rest))
          ]

  rounds-All {κ} : (P : A → Type κ) (n : ℕ) (xs : List A) → All P xs → All P (rounds n xs)
  unfolding rounds
  rounds-All P zero xs ps = ps
  rounds-All P (suc n) [] ps = tt
  rounds-All P (suc n) (x ∷ xs) (p, ps) =
      let (m, rest) = pass-All P x xs p ps in (m, rounds-All P n (pass x xs).1 rest)

  module _ {κ} {R : A → A → Type κ} (reflexive : (x : A) → R x x)
      (keeps : (x y : A) → before y x ≡ false → R x y)
      (swaps : (x y : A) → before y x ≡ true → R y x)
      (trans : (x y z : A) → R x y → R y z → R x z) where
    -- What stands at `i` after the loop over `j` is in relation to what was there, and to the rest.
    pass_least : (x : A) (xs : List A) → R (pass x xs).0 x × All (R (pass x xs).0) (pass x xs).1
    unfolding pass
    pass_least x [] = (reflexive x, tt)
    pass_least x (y ∷ ys) = elim (Bool-cases (before y x)) [
      | inl e ↦
          let (le, all) = pass_least y ys in
          let m≤x = trans _ y x le (swaps x y e) in
          subst (λ p. R p.0 x × All (R p.0) p.1) (sym (pass_swaps x y ys e)) (m≤x, (m≤x, all))
      | inr e ↦
          let (le, all) = pass_least x ys in
          subst (λ p. R p.0 x × All (R p.0) p.1) (sym (pass_keeps x y ys e))
            (le, (trans _ x y le (keeps x y e), all))
    ]

    rounds_Sorted : (n : ℕ) (xs : List A) → length xs ≤ suc n → Sorted R (rounds n xs)
    unfolding rounds
    rounds_Sorted zero [] h = tt
    rounds_Sorted zero (x ∷ []) h = (tt, tt)
    rounds_Sorted zero (x ∷ y ∷ ys) h = absurd (omega arith)
    rounds_Sorted (suc n) [] h = tt
    rounds_Sorted (suc n) (x ∷ xs) h =
        let (m, rest) = pass x xs in
        (
          rounds-All (R m) n rest (pass_least x xs).1,
          rounds_Sorted n rest (omega (arith, length-pass x xs)),
        )

    pub exchange_sort-Sorted : (xs : List A) → Sorted R (exchange_sort xs)
    unfolding exchange_sort
    exchange_sort-Sorted xs = rounds_Sorted (length xs - 1) xs (omega arith)
