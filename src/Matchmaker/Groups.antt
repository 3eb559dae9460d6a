-- ===== src/Matchmaker/Groups.antt =====
-- matchmaker/node_groups.go: named groups of nodes. Indexing out of range, a panic, is none.
mod Members
mod Examples
use pmi.Base.{
  [], text_append, ℕ, zero, suc, ◌%◌, String, ite, Bool, true, false, not, Option, none, some, List,
  ◌∷◌, ◌++◌, ltb, if◌then◌else◌, text_discrete, length, get_elem?, StringMap, empty, insert,
}
use pmi.Base.Redis
use pmi.Base.Redis.{Outbox, send}
use pmi.Base.Result.{Result, ok, err}

pub record NodeGroup : Type 0 where
  pub name : String
  pub description : String
  pub tags : StringMap String
  pub nodes : List String
  pub created_at : ℕ

pub record NodeGroups : Type 0 where
  pub groups : StringMap NodeGroup
  pub redis : Outbox

pub new_node_groups : Bool → NodeGroups
new_node_groups connected = record {
  groups = empty;
  redis = record { connected = connected; sent = [] };
}

nodes_key : String → String
nodes_key name = text_append "group:" (text_append name ":nodes")

pub create_group :
    ℕ → String → String → StringMap String → NodeGroups → NodeGroups × Result (Unit {0})
create_group now name description tags ng = elim (ng.groups name) [
  | some group ↦ (ng, err "group already exists")
  | none ↦
      let key = text_append "node_group:" name in
      let group : NodeGroup = record {
        name = name;
        description = description;
        tags = tags;
        nodes = [];
        created_at = now;
      } in
      (
        record ng {
          groups = insert name group ng.groups;
          redis =
              send (Redis.hset key "description" (Redis.text description) ∷ Redis.expire key 0 ∷ [])
                ng.redis;
        },
        ok tt,
      )
]

-- The loop that looks for a node.
pub has_node : String → List String → Bool
has_node node_id [] = false
has_node node_id (n ∷ nodes) = ite (text_discrete n node_id) true (has_node node_id nodes)

pub add_node_to_group : String → String → NodeGroups → NodeGroups × Result (Unit {0})
unfolding has_node
add_node_to_group name node_id ng = elim (ng.groups name) [
  | none ↦ (ng, err "group not found")
  | some group ↦ if has_node node_id group.nodes then (ng, ok tt) else (
    record ng {
      groups = insert name (record group { nodes = group.nodes ++ node_id ∷ [] }) ng.groups;
      redis = send (Redis.sadd (nodes_key name) node_id ∷ []) ng.redis;
    },
    ok tt,
  )
]

-- The loop that removes the first occurrence and stops.
pub without : String → List String → List String
without node_id [] = []
without node_id (n ∷ nodes) = ite (text_discrete n node_id) nodes (n ∷ without node_id nodes)

pub remove_node_from_group : String → String → NodeGroups → NodeGroups × Result (Unit {0})
unfolding without
remove_node_from_group name node_id ng = elim (ng.groups name) [
  | none ↦ (ng, err "group not found")
  | some group ↦ (
    record ng {
      groups = insert name (record group { nodes = without node_id group.nodes }) ng.groups;
      redis = send (Redis.srem (nodes_key name) node_id ∷ []) ng.redis;
    },
    ok tt,
  )
]

pub get_group_nodes : String → NodeGroups → List String
get_group_nodes name ng = elim (ng.groups name) [ none ↦ [] | some group ↦ group.nodes ]

-- `GetGroupsForNode`; `names` are the keys of the map, in the order in which Go yields them.
get_groups_for_node : String → List String → NodeGroups → List String
get_groups_for_node node_id [] ng = []
get_groups_for_node node_id (name ∷ names) ng =
    let rest = get_groups_for_node node_id names ng in
    elim (ng.groups name) [
      | none ↦ rest
      | some group ↦ if has_node node_id group.nodes then name ∷ rest else rest
    ]

-- The loop of `SelectByGroup` from index `i`, `n` more times.
pick : List String → ℕ → ℕ → Option (List String)
pick nodes i zero = some []
pick nodes i (suc n) =
    let rest = pick nodes (suc i) n in
    elim (get_elem? nodes (i % length nodes)) [
      | none ↦ none
      | some x ↦ elim rest [ none ↦ none | some xs ↦ some (x ∷ xs) ]
    ]

returned : Option (List String) → Option (Result (List String))
returned none = none
returned (some picked) = some (ok picked)

select_from : List String → ℕ → Option (Result (List String))
select_from [] count = some (err "no nodes in group")
select_from (first ∷ others) count =
    let nodes = first ∷ others in
    returned (pick nodes 0 (if ltb (length nodes) count then length nodes else count))

pub select_by_group : String → ℕ → NodeGroups → Option (Result (List String))
unfolding get_group_nodes select_from returned
select_by_group name count ng = select_from (get_group_nodes name ng) count
