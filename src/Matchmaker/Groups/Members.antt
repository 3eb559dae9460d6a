-- ===== src/Matchmaker/Groups/Members.antt =====
-- matchmaker/node_groups.go: what the groups hold after any calls, and what is selected from one.
use pmi.Base.{
  ℕ, zero, suc, ◌+◌, ◌-◌, ◌%◌, ◌≤◌, ◌<◌, String, ◌≡◌, refl, sym, ap, ◌∙◌, inl, inr, ite, Bool,
  false, some, List, [], ◌∷◌, ◌++◌, arith, ltb, if◌then◌else◌, Bool-cases, Option-cases,
  text_discrete, length, get_elem?, take, drop, StringMap,
}
use native.Mathlib.Nat
use pmi.Base.Result.{ok, err}
use pmi.Matchmaker.Groups.{
  NodeGroup, NodeGroups, new_node_groups, create_group, has_node, add_node_to_group, without,
  remove_node_from_group, get_group_nodes, pick, returned, select_from, select_by_group,
}

-- How often a node stands in a list.
pub times : String → List String → ℕ
times x [] = 0
times x (y ∷ ys) = ite (text_discrete y x) (times x ys + 1) (times x ys)

times-append :
    (x y : String) (l : List String) → times x (l ++ y ∷ []) ≡ times x l + times x (y ∷ [])
unfolding times
times-append x y [] = ground arith
times-append x y (z ∷ zs) = ground (arith, times-append x y zs)

times_absent : (x : String) (l : List String) → has_node x l ≡ false → times x l ≡ 0
unfolding has_node times
times_absent x [] h = refl
times_absent x (y ∷ ys) h = ground (arith, times_absent x ys)

times-without : (x y : String) (l : List String) → times x (without y l) ≤ times x l
unfolding times without
times-without x y [] = omega arith
times-without x y (z ∷ zs) = ground (arith, times-without x y zs)

times-without_self : (x : String) (l : List String) → times x (without x l) ≡ times x l - 1
unfolding times without
times-without_self x [] = refl
times-without_self x (z ∷ zs) = ground (arith, times-without_self x zs)

-- No group holds a node twice.
pub record Inv (ng : NodeGroups) : Type 0 where
  pub once :
      (name : String) (group : NodeGroup) (x : String)
      → ng.groups name ≡ some group
      → times x group.nodes ≤ 1

pub data Call : Type 0 where
  create_call : ℕ → String → String → StringMap String → Call
  add_call : String → String → Call
  remove_call : String → String → Call

unfoldable pub step : Call → NodeGroups → NodeGroups
step (create_call now name description tags) ng = (create_group now name description tags ng).0
step (add_call name node_id) ng = (add_node_to_group name node_id ng).0
step (remove_call name node_id) ng = (remove_node_from_group name node_id ng).0

unfoldable pub run : List Call → NodeGroups → NodeGroups
run [] ng = ng
run (c ∷ cs) ng = run cs (step c ng)

added_once :
    (x node_id : String) (l : List String)
    → has_node node_id l ≡ false
    → times x l ≤ 1
    → times x (l ++ node_id ∷ []) ≤ 1
unfolding times
added_once x node_id l h o = ground (arith, times-append x node_id l, times_absent node_id l h)

step-Inv : (c : Call) (ng : NodeGroups) → Inv ng → Inv (step c ng)
unfolding step create_group add_node_to_group remove_node_from_group times
step-Inv (create_call now name description tags) ng v = record {
  once = λ j group x e. ground (arith, v.once j group x);
}
step-Inv (add_call name node_id) ng v = record {
  once = λ j group x e. elim (Option-cases (ng.groups name)) [
    | inl q ↦ ground (arith, v.once j group x)
    | inr (old, q) ↦ elim (Bool-cases (has_node node_id old.nodes)) [
      | inl b ↦ ground (arith, v.once j group x)
      | inr b ↦
          ground (arith, v.once j group x, added_once x node_id old.nodes b (v.once name old x q))
    ]
  ];
}
step-Inv (remove_call name node_id) ng v = record {
  once = λ j group x e. elim (Option-cases (ng.groups name)) [
    | inl q ↦ ground (arith, v.once j group x)
    | inr (old, q) ↦
        ground (arith, v.once j group x, v.once name old x q, times-without x node_id old.nodes)
  ];
}

run-Inv : (cs : List Call) (ng : NodeGroups) → Inv ng → Inv (run cs ng)
unfolding run
run-Inv [] ng v = v
run-Inv (c ∷ cs) ng v = run-Inv cs (step c ng) (step-Inv c ng v)

removed_in :
    (name node_id : String) (ng : NodeGroups)
    → Inv ng
    → (times node_id (get_group_nodes name ng) ≤ 1)
      × (times node_id (get_group_nodes name (remove_node_from_group name node_id ng).0) ≡ 0)
unfolding get_group_nodes remove_node_from_group times
removed_in name node_id ng v = elim (Option-cases (ng.groups name)) [
  | inl e ↦ (ground arith, ground arith)
  | inr (group, e) ↦
      let some_once = v.once name group node_id e in
      (ground arith, ground (arith, times-without_self node_id group.nodes))
]

-- After any calls no group holds a node twice; so removing a node from a group takes it out
-- altogether, though the loop stops at its first occurrence.
pub removed_altogether :
    (connected : Bool) (cs : List Call) (name node_id : String)
    → let ng = run cs (new_node_groups connected) in
      (times node_id (get_group_nodes name ng) ≤ 1)
      × (times node_id (get_group_nodes name (remove_node_from_group name node_id ng).0) ≡ 0)
unfolding new_node_groups
removed_altogether connected cs name node_id =
    removed_in name node_id (run cs (new_node_groups connected))
      (run-Inv cs (new_node_groups connected) (record { once = λ j group x e. absurd (cc) }))

get_elem?-drop :
    {A : Type 0} (l : List A) (i : ℕ)
    → i < length l
    → (x : A) × (get_elem? l i ≡ some x) × (drop i l ≡ x ∷ drop (suc i) l)
get_elem?-drop [] i h = absurd (omega arith)
get_elem?-drop (x ∷ xs) zero h = (x, refl, refl)
get_elem?-drop (x ∷ xs) (suc i) h = let (y, e, d) = get_elem?-drop xs i (omega arith) in (y, e, d)

picked :
    (nodes : List String) (i n : ℕ)
    → i + n ≤ length nodes
    → pick nodes i n ≡ some (take n (drop i nodes))
unfolding pick
picked nodes i zero h = refl
picked nodes i (suc n) h =
    let (x, e, d) = get_elem?-drop nodes i (omega arith) in
    let at : i % length nodes ≡ i = Nat.mod-eq_of_lt (omega arith) in
    rw (pick, at, e, picked nodes (suc i) n (omega arith), d) refl

take_all : {A : Type 0} (l : List A) (n : ℕ) → length l ≤ n → take n l ≡ l
take_all [] zero h = refl
take_all [] (suc n) h = refl
take_all (x ∷ xs) zero h = absurd (omega arith)
take_all (x ∷ xs) (suc n) h = ap (◌∷◌ x) (take_all xs n (omega arith))

group_pick :
    (first : String) (others : List String) (count : ℕ)
    → let nodes = first ∷ others in
      pick nodes 0 (if ltb (length nodes) count then length nodes else count)
      ≡ some (take count nodes)
group_pick first others count = elim (Bool-cases (ltb (length (first ∷ others)) count)) [
  | inl more ↦ rw more (
      picked (first ∷ others) 0 (length (first ∷ others)) (omega arith)
      ∙ ap some (
          take_all (first ∷ others) (length (first ∷ others)) (omega arith)
          ∙ sym (take_all (first ∷ others) count (ground arith))))
  | inr fits ↦ rw fits (picked (first ∷ others) 0 count (ground arith))
]

select_from_lem :
    (nodes : List String) (count : ℕ)
    → select_from nodes count
      ≡ some (elim nodes [
        | [] ↦ err "no nodes in group"
        | first ∷ others ↦ ok (take count (first ∷ others))
      ])
unfolding select_from returned
select_from_lem [] count = refl
select_from_lem (first ∷ others) count = ap returned (group_pick first others count)

-- `SelectByGroup` fails exactly on a group without nodes, and otherwise returns the first nodes of
-- the group, `count` of them or all if there are fewer: its indices, taken modulo the length, never
-- wrap around.
select_by_group-take :
    (name : String) (count : ℕ) (ng : NodeGroups)
    → select_by_group name count ng
      ≡ some (elim (get_group_nodes name ng) [
        | [] ↦ err "no nodes in group"
        | first ∷ others ↦ ok (take count (first ∷ others))
      ])
unfolding select_by_group
select_by_group-take name count ng = select_from_lem (get_group_nodes name ng) count
