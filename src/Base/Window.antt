-- ===== src/Base/Window.antt =====
-- A slice to which values are appended and whose oldest is dropped when it is longer than a limit.
use pmi.Base.Tests.{ltb, lt→ltb, ltb→lt, if◌then◌else◌, Bool-cases}
use pmi.Base.Lists.{length, take, drop, length-append}
use Prim.Native.Nat.{ℕ, zero, suc, ◌+◌, ◌-◌, ◌≤◌, ◌<◌, min}
use mathlib.Core.Path.{◌≡◌, refl, sym, ap, ◌∙◌}
use mathlib.Core.Logic.{inl, inr}
use mathlib.Core.List.{List, [], ◌∷◌, ◌++◌}
use native.Mathlib.Omega.{arith}
use native.Mathlib.Decide.{dec_le}

module _ {ℓ} {A : Type ℓ} where
  -- `s = append(s, x); if len(s) > limit { s = s[1:] }`
  unfoldable pub append_bounded : ℕ → A → List A → List A
  append_bounded limit x s =
      let grown = s ++ (x ∷ []) in if ltb limit (length grown) then drop 1 grown else grown

  -- the last so many
  abbrev pub newest : ℕ → List A → List A
  newest n xs = drop (length xs - n) xs

  drop_nil : (n : ℕ) → drop {A = A} n [] ≡ []
  drop_nil zero = refl
  drop_nil (suc n) = refl

  pub newest_nil : (n : ℕ) → newest n [] ≡ []
  newest_nil n = drop_nil (0 - n)

  take_all : (n : ℕ) (xs : List A) → length xs ≤ n → take n xs ≡ xs
  take_all zero [] h = refl
  take_all zero (x ∷ xs) h = absurd (omega arith)
  take_all (suc n) [] h = refl
  take_all (suc n) (x ∷ xs) h = ap (◌∷◌ x) (take_all n xs (omega arith))

  -- `if n < len(xs) { return xs[:n] }; return xs`
  pub cut_at : (n : ℕ) (xs : List A) → (if ltb n (length xs) then take n xs else xs) ≡ take n xs
  cut_at n xs = elim (Bool-cases (ltb n (length xs))) [
    | inl e ↦ rw e refl
    | inr e ↦ rw e (sym (take_all n xs (ground arith)))
  ]

  pub length-drop : (n : ℕ) (xs : List A) → length (drop n xs) ≡ length xs - n
  length-drop zero xs = omega arith
  length-drop (suc n) [] = omega arith
  length-drop (suc n) (x ∷ xs) = omega (arith, length-drop n xs)

  pub take-append-drop : (n : ℕ) (xs : List A) → take n xs ++ drop n xs ≡ xs
  take-append-drop zero xs = refl
  take-append-drop (suc n) [] = refl
  take-append-drop (suc n) (x ∷ xs) = ap (◌∷◌ x) (take-append-drop n xs)

  pub length-take : (n : ℕ) (xs : List A) → length (take n xs) ≡ min n (length xs)
  length-take zero xs = omega arith
  length-take (suc n) [] = omega arith
  length-take (suc n) (x ∷ xs) = omega (arith, length-take n xs)

  drop-append : (n : ℕ) (xs ys : List A) → n ≤ length xs → drop n (xs ++ ys) ≡ drop n xs ++ ys
  drop-append zero xs ys h = refl
  drop-append (suc n) [] ys h = absurd (omega arith)
  drop-append (suc n) (x ∷ xs) ys h = drop-append n xs ys (omega arith)

  drop-drop_one : (n : ℕ) (xs : List A) → drop 1 (drop n xs) ≡ drop (suc n) xs
  drop-drop_one zero xs = refl
  drop-drop_one (suc n) [] = refl
  drop-drop_one (suc n) (x ∷ xs) = drop-drop_one n xs

  drop-drop : (a b : ℕ) (xs : List A) → drop a (drop b xs) ≡ drop (b + a) xs
  drop-drop a zero xs = ap (λ n. drop n xs) (omega arith)
  drop-drop a (suc b) [] = drop_nil a ∙ sym (drop_nil (suc b + a))
  drop-drop a (suc b) (x ∷ xs) =
      let e : suc (b + a) ≡ suc b + a = omega arith in
      drop-drop a b xs ∙ ap (λ n. drop n (x ∷ xs)) e

  pub newest-newest : (a b : ℕ) (xs : List A) → newest a (newest b xs) ≡ newest (min a b) xs
  newest-newest a b xs =
      drop-drop (length (newest b xs) - a) (length xs - b) xs
      ∙ ap (λ n. drop n xs) (omega (arith, length-drop (length xs - b) xs))

  append_bounded_full :
      (limit : ℕ) (x : A) (s : List A)
      → limit ≤ length s
      → append_bounded limit x s ≡ drop 1 (s ++ (x ∷ []))
  unfolding append_bounded
  append_bounded_full limit x s h =
      rw (lt→ltb limit (length (s ++ (x ∷ []))) (omega (arith, length-append s (x ∷ [])))) refl

  append_bounded_room :
      (limit : ℕ) (x : A) (s : List A) → length s < limit → append_bounded limit x s ≡ s ++ (x ∷ [])
  unfolding append_bounded
  append_bounded_room limit x s h =
      let grown = s ++ (x ∷ []) in
      elim (Bool-cases (ltb limit (length grown))) [
        | inl e ↦ absurd (omega (arith, ltb→lt limit (length grown) e, length-append s (x ∷ [])))
        | inr e ↦ rw e refl
      ]

  -- What a bounded slice holds after any appends.
  pub append_bounded-newest :
      (limit : ℕ) (x : A) (xs : List A)
      → append_bounded limit x (newest limit xs) ≡ newest limit (xs ++ (x ∷ []))
  append_bounded-newest limit x xs = elim (dec_le limit (length xs)) [
    | yes full ↦
        let k = length xs - limit in
        let shifted : suc k ≡ length (xs ++ (x ∷ [])) - limit =
          omega (arith, length-append xs (x ∷ [])) in
        append_bounded_full limit x (drop k xs) (omega (arith, length-drop k xs))
        ∙ ap (drop 1) (sym (drop-append k xs (x ∷ []) (omega arith)))
        ∙ drop-drop_one k (xs ++ (x ∷ []))
        ∙ ap (λ n. drop n (xs ++ (x ∷ []))) shifted
    | no room ↦
        let l = length-append xs (x ∷ []) in
        let before : length xs - limit ≡ 0 = omega arith in
        let after : length (xs ++ (x ∷ [])) - limit ≡ 0 = omega (arith, l) in
        rw (before, after) (append_bounded_room limit x xs (omega arith))
  ]

  length-append_bounded :
      (limit : ℕ) (x : A) (s : List A)
      → length s ≤ limit
      → length (append_bounded limit x s) ≡ min limit (suc (length s))
  length-append_bounded limit x s h = elim (dec_le limit (length s)) [
    | yes full ↦
        rw (append_bounded_full limit x s full)
          (omega (arith, length-drop 1 (s ++ (x ∷ [])), length-append s (x ∷ [])))
    | no room ↦
        rw (append_bounded_room limit x s (omega arith)) (omega (arith, length-append s (x ∷ [])))
  ]
