-- ===== src/Gateway/Retry/Contains/Factors.antt =====
-- gateway/retry.go: `containsString` finds every occurrence, and nothing else.
use pmi.Base.{
  ℕ, zero, suc, ◌+◌, ◌-◌, ◌≤◌, ◌≡◌, refl, sym, ap, ◌∙◌, ◌↔◌, true, [], ◌∷◌, ◌++◌, arith, length,
  take, drop, length-append, Bool-cases, inl, inr, subst,
}
use mathlib.Core.List.{append-nil}
use pmi.Base.Window.{take-append-drop}
use pmi.Gateway.Retry.Contains.{Bytes, same, matches_at, any_from, contains_any, contains_string}

same_iff : (xs ys : Bytes) → (same xs ys ≡ true) ↔ (xs ≡ ys)
unfolding same
same_iff [] [] = (λ h. refl, λ h. refl)
same_iff [] (y ∷ ys) = (λ h. cc, λ h. cc)
same_iff (x ∷ xs) [] = (λ h. cc, λ h. cc)
same_iff (x ∷ xs) (y ∷ ys) =
    (λ h. ground (arith, same_iff xs ys), λ h. ground (arith, same_iff xs ys))

-- The text stands in the other one.
abbrev pub Occurs : Bytes → Bytes → Type 0
Occurs substr s = (before : Bytes) × (after : Bytes) × (s ≡ before ++ (substr ++ after))

-- What is found is there.
matches_at-Occurs : (s substr : Bytes) (i : ℕ) → matches_at s substr i ≡ true → Occurs substr s
unfolding matches_at
matches_at-Occurs s substr i h =
    let found = (same_iff (take (length substr) (drop i s)) substr).0 h in
    let rest = drop (length substr) (drop i s) in
    (
      take i s,
      rest,
      sym (take-append-drop i s)
          ∙ ap (λ t. take i s ++ t)
              (sym (take-append-drop (length substr) (drop i s)) ∙ ap (λ t. t ++ rest) found),
    )

any_from-Occurs :
    (s substr : Bytes) (rounds i : ℕ) → any_from s substr rounds i ≡ true → Occurs substr s
unfolding any_from
any_from-Occurs s substr zero i h = matches_at-Occurs s substr i h
any_from-Occurs s substr (suc rounds) i h = elim (Bool-cases (matches_at s substr i)) [
  | inl here ↦ matches_at-Occurs s substr i here
  | inr not_here ↦ any_from-Occurs s substr rounds (suc i) (rw not_here at h)
]

drop_before : (before rest : Bytes) → drop (length before) (before ++ rest) ≡ rest
drop_before [] rest = refl
drop_before (x ∷ before) rest = drop_before before rest

take_substr : (substr after : Bytes) → take (length substr) (substr ++ after) ≡ substr
take_substr [] after = refl
take_substr (x ∷ substr) after = ap (◌∷◌ x) (take_substr substr after)

-- An occurrence is found at its place.
matches_at_before :
    (before substr after : Bytes)
    → matches_at (before ++ (substr ++ after)) substr (length before) ≡ true
unfolding matches_at
matches_at_before before substr after =
    rw (drop_before before (substr ++ after), take_substr substr after)
      ((same_iff substr substr).1 refl)

any_from_later :
    (s substr : Bytes) (rounds i k : ℕ)
    → k ≤ rounds
    → matches_at s substr (i + k) ≡ true
    → any_from s substr rounds i ≡ true
unfolding any_from
any_from_later s substr zero i k le h =
    let e : i + k ≡ i = omega arith in subst (λ n. matches_at s substr n ≡ true) e h
any_from_later s substr (suc rounds) i zero le h =
    let e : i + zero ≡ i = omega arith in
    let here = subst (λ n. matches_at s substr n ≡ true) e h in rw here refl
any_from_later s substr (suc rounds) i (suc k) le h =
    let e : i + suc k ≡ suc i + k = omega arith in
    let there = subst (λ n. matches_at s substr n ≡ true) e h in
    let later = any_from_later s substr rounds (suc i) k (omega arith) there in ground arith

suffix-Occurs :
    (s substr : Bytes) → same (drop (length s - length substr) s) substr ≡ true → Occurs substr s
suffix-Occurs s substr h =
    let k = length s - length substr in
    let found = (same_iff (drop k s) substr).0 h in
    (
      take k s,
      [],
      sym (take-append-drop k s) ∙ ap (λ t. take k s ++ t) (found ∙ sym (append-nil substr)),
    )

prefix-Occurs : (s substr : Bytes) → same (take (length substr) s) substr ≡ true → Occurs substr s
prefix-Occurs s substr h = matches_at-Occurs s substr 0 (unfold matches_at in h)

whole-Occurs : (s substr : Bytes) → same s substr ≡ true → Occurs substr s
whole-Occurs s substr h = ([], [], (same_iff s substr).0 h ∙ sym (append-nil substr))

contains_any-Occurs : (s substr : Bytes) → contains_any s substr ≡ true → Occurs substr s
unfolding contains_any
contains_any-Occurs s substr h = any_from-Occurs s substr (length s - length substr) 0 h

length_occurs :
    (b substr a : Bytes) → length (b ++ (substr ++ a)) ≡ length b + (length substr + length a)
length_occurs b substr a = omega (arith, length-append b (substr ++ a), length-append substr a)

contains_any_complete : (b substr a : Bytes) → contains_any (b ++ (substr ++ a)) substr ≡ true
unfolding contains_any
contains_any_complete b substr a =
    any_from_later (b ++ (substr ++ a)) substr (length (b ++ (substr ++ a)) - length substr) 0
      (length b) (omega (arith, length_occurs b substr a))
      (subst (λ n. matches_at (b ++ (substr ++ a)) substr n ≡ true) (omega arith)
        (matches_at_before b substr a))

sound : (s substr : Bytes) → contains_string s substr ≡ true → Occurs substr s
unfolding contains_string
sound s substr h = elim (Bool-cases (same s substr)) [
  | inl e ↦ whole-Occurs s substr e
  | inr e ↦ elim (Bool-cases (same (take (length substr) s) substr)) [
    | inl e' ↦ prefix-Occurs s substr e'
    | inr e' ↦ elim (Bool-cases (same (drop (length s - length substr) s) substr)) [
      | inl e'' ↦ suffix-Occurs s substr e''
      | inr e'' ↦ contains_any-Occurs s substr (ground arith)
    ]
  ]
]

complete_longer :
    (b substr a : Bytes)
    → 1 ≤ length b + length a
    → contains_string (b ++ (substr ++ a)) substr ≡ true
unfolding contains_string
complete_longer b substr a h =
    ground (arith, contains_any_complete b substr a, length_occurs b substr a)

complete : (b substr a : Bytes) → contains_string (b ++ (substr ++ a)) substr ≡ true
unfolding contains_string
complete [] substr [] = rw (append-nil substr) (ground (arith, (same_iff substr substr).1 refl))
complete [] substr (x ∷ a) = complete_longer [] substr (x ∷ a) (omega arith)
complete (x ∷ b) substr a = complete_longer (x ∷ b) substr a (omega arith)

-- `containsString` answers true exactly if the text occurs in the other one.
pub contains_string_iff : (s substr : Bytes) → (contains_string s substr ≡ true) ↔ Occurs substr s
contains_string_iff s substr = (
  sound s substr,
  λ (b, a, e). subst (λ t. contains_string t substr ≡ true) (sym e) (complete b substr a),
)
