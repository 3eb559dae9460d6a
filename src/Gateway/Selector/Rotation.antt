-- ===== src/Gateway/Selector/Rotation.antt =====
-- gateway/validation.go: in what order the round-robin strategy serves the nodes.
use pmi.Base.{
  ℕ, zero, suc, ◌+◌, ◌-◌, ◌%◌, ◌<◌, String, ◌≡◌, refl, sym, ap, ◌∙◌, subst, List, [], ◌∷◌, arith,
  length, get_elem?, dec_le,
}
use native.Mathlib.Nat.{mod-lt, mod-eq_of_lt, mod-add-mod, add-mod_right}
use pmi.Gateway.Selector.{NodeSelector, round_robin, select, select_round_robin, select_by}

-- The selector after so many calls of `Select` for the same nodes, at the times of a clock.
unfoldable pub after : (ℕ → ℕ) → List String → ℕ → NodeSelector → NodeSelector
after clock nodes zero ns = ns
after clock nodes (suc k) ns = after clock nodes k (select (clock k) nodes ns).0

select_rotates :
    (now : ℕ) (nodes : List String) (ns : NodeSelector)
    → 0 < length nodes
    → ns.strategy ≡ round_robin
    → select now nodes ns ≡ select_round_robin nodes ns
unfolding select select_by
select_rotates now [] ns h e = absurd (omega arith)
select_rotates now (first ∷ later) ns h e = rw e refl

after_lem :
    (clock : ℕ → ℕ) (nodes : List String) (k : ℕ) (ns : NodeSelector)
    → 0 < length nodes
    → ns.strategy ≡ round_robin
    → ((after clock nodes k ns).rr_counter ≡ ns.rr_counter + k)
      × ((after clock nodes k ns).strategy ≡ round_robin)
unfolding after select_round_robin
after_lem clock nodes zero ns h e = (omega arith, e)
after_lem clock nodes (suc k) ns h e =
    let step : (select (clock k) nodes ns).0 ≡ record ns { rr_counter = ns.rr_counter + 1 } =
      ap (λ r. r.0) (select_rotates (clock k) nodes ns h e) in
    let (f, g) = after_lem clock nodes k (record ns { rr_counter = ns.rr_counter + 1 }) h e in
    subst
      (λ ns'.
        ((after clock nodes k ns').rr_counter ≡ ns.rr_counter + suc k)
        × ((after clock nodes k ns').strategy ≡ round_robin))
      (sym step) (omega (arith, f), g)

-- How many calls after a counter's value the turn of an index comes.
turn_of : (counter n i : ℕ) → i < n → (j : ℕ) × (j < n) × ((counter + j) % n ≡ i)
turn_of counter n i h =
    let r = counter % n in
    let r<n : r < n = mod-lt counter (omega arith) in
    elim (dec_le r i) [
      | yes le ↦
          let here : r + (i - r) ≡ i = omega arith in
          (
            i - r,
            omega arith,
            sym (mod-add-mod counter n (i - r)) ∙ ap (λ m. m % n) here ∙ mod-eq_of_lt h,
          )
      | no gt ↦
          let wraps : r + (i + n - r) ≡ i + n = omega arith in
          (
            i + n - r,
            omega arith,
            sym (mod-add-mod counter n (i + n - r))
                ∙ ap (λ m. m % n) wraps
                ∙ add-mod_right i n
                ∙ mod-eq_of_lt h,
          )
    ]

-- With the round-robin strategy and the same nodes in every call, each node has its turn within as
-- many calls of `Select` as there are nodes, from any counter and at any times.
pub every_node_has_its_turn :
    (clock : ℕ → ℕ) (now : ℕ) (nodes : List String) (ns : NodeSelector) (i : ℕ)
    → ns.strategy ≡ round_robin
    → i < length nodes
    → (j : ℕ) × (j < length nodes)
      × ((select now nodes (after clock nodes j ns)).1 ≡ get_elem? nodes i)
unfolding select_round_robin
every_node_has_its_turn clock now nodes ns i e h =
    let (j, j<n, turn) = turn_of ns.rr_counter (length nodes) i h in
    let later = after clock nodes j ns in
    let (f, g) = after_lem clock nodes j ns (omega arith) e in
    (
      j,
      j<n,
      ap (λ r. r.1) (select_rotates now nodes later (omega arith) g)
          ∙ ap (λ c. get_elem? nodes (c % length nodes)) f
          ∙ ap (get_elem? nodes) turn,
    )
