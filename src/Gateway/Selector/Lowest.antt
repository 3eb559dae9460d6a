-- ===== src/Gateway/Selector/Lowest.antt =====
-- gateway/validation.go: which node the strategy by latency selects.
use pmi.Base.{
  ℕ, ◌≤◌, ◌<◌, String, ◌≡◌, refl, sym, subst, Bool, true, false, ◌||◌, some, List, [], ◌∷◌, arith,
  All, ltb, ◌==◌, Bool-cases, inl, inr,
}
use mathlib.Core.List.{Memᴰ}
use pmi.Gateway.Selector.{
  NodeSelector, lowest_latency, lowest_from, select, select_by, select_lowest_latency,
}

module _ (latency_of : String → ℕ) where
  abbrev pub IsNotSlower : String → String → Type 0
  IsNotSlower a b = latency_of a ≤ latency_of b

  -- A node of the list that no node of the list is faster than.
  abbrev pub IsLowest : List String → String → Type 0
  IsLowest nodes r = Memᴰ r nodes × All (IsNotSlower r) nodes

  abbrev takes : String → String → Bool
  takes best node = ltb (latency_of node) (latency_of best) || latency_of best == 0

  step_takes :
      (best node : String) (later : List String)
      → takes best node ≡ true
      → lowest_from latency_of best (latency_of best) (node ∷ later)
        ≡ lowest_from latency_of node (latency_of node) later
  unfolding lowest_from
  step_takes best node later e = rw e refl

  step_keeps :
      (best node : String) (later : List String)
      → takes best node ≡ false
      → lowest_from latency_of best (latency_of best) (node ∷ later)
        ≡ lowest_from latency_of best (latency_of best) later
  unfolding lowest_from
  step_keeps best node later e = rw e refl

  faster_one : (a b : ℕ) → 0 < b → (ltb a b || b == 0) ≡ true → a ≤ b
  faster_one a b h e = ground arith

  slower_one : (a b : ℕ) → (ltb a b || b == 0) ≡ false → b ≤ a
  slower_one a b e = ground arith

  Memᴰ-skip :
      {r best node : String} {later : List String}
      → Memᴰ r (best ∷ later)
      → Memᴰ r (best ∷ node ∷ later)
  Memᴰ-skip (Memᴰ.head e) = Memᴰ.head e
  Memᴰ-skip (Memᴰ.tail m) = Memᴰ.tail (Memᴰ.tail m)

  lowest_lem :
      (best : String) (later : List String)
      → 0 < latency_of best
      → All (λ node. 0 < latency_of node) later
      → IsLowest (best ∷ later) (lowest_from latency_of best (latency_of best) later)
  unfolding lowest_from
  lowest_lem best [] h hs = (Memᴰ.head refl, (omega arith, tt))
  lowest_lem best (node ∷ later) h (k, hs) = elim (Bool-cases (takes best node)) [
    | inl e ↦
        let (m, (r≤node, all)) = lowest_lem node later k hs in
        let less = faster_one (latency_of node) (latency_of best) h e in
        subst (IsLowest (best ∷ node ∷ later)) (sym (step_takes best node later e))
          (Memᴰ.tail m, (omega (arith, r≤node, less), (r≤node, all)))
    | inr e ↦
        let (m, (r≤best, all)) = lowest_lem best later h hs in
        let more = slower_one (latency_of node) (latency_of best) e in
        subst (IsLowest (best ∷ node ∷ later)) (sym (step_keeps best node later e))
          (Memᴰ-skip m, (r≤best, (omega (arith, r≤best, more), all)))
  ]

-- Where the latency of every node in the list is known, and so not 0, the strategy by latency
-- selects a node of the list that none of the list is faster than.
select-IsLowest :
    (now : ℕ) (latency_of : String → ℕ) (first : String) (later : List String) (ns : NodeSelector)
    → ns.strategy ≡ lowest_latency
    → ns.latency_tracker ≡ some latency_of
    → 0 < latency_of first
    → All (λ node. 0 < latency_of node) later
    → (r : String) × (select now (first ∷ later) ns ≡ (ns, some r))
      × IsLowest latency_of (first ∷ later) r
unfolding select select_by select_lowest_latency
select-IsLowest now latency_of first later ns e f h hs = (
  lowest_from latency_of first (latency_of first) later,
  rw (e, f) refl,
  lowest_lem latency_of first later h hs,
)
