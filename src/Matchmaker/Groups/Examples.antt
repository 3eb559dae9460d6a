-- ===== src/Matchmaker/Groups/Examples.antt =====
-- matchmaker/node_groups.go: a group of three nodes.
use pmi.Base.{◌≤◌, ◌≡◌, refl, false, List, [], ◌∷◌, text_discrete, empty}
use pmi.Matchmaker.Groups.{
  NodeGroups, new_node_groups, create_group, add_node_to_group, remove_node_from_group,
  get_group_nodes,
}
use pmi.Matchmaker.Groups.Members.{
  Call, create_call, add_call, step, run, times, removed_altogether,
}

abbrev calls : List Call
calls =
    create_call 5 "g" "group" empty
    ∷ add_call "g" "a"
    ∷ add_call "g" "b"
    ∷ add_call "g" "a"
    ∷ add_call "g" "c"
    ∷ []

abbrev three : NodeGroups
three = run calls (new_node_groups false)

three_members : get_group_nodes "g" three ≡ "a" ∷ "b" ∷ "c" ∷ []
unfolding run step create_group add_node_to_group get_group_nodes new_node_groups text_discrete
three_members = refl

removed_altogether_example :
    (times "a" (get_group_nodes "g" three) ≤ 1)
    × (times "a" (get_group_nodes "g" (remove_node_from_group "g" "a" three).0) ≡ 0)
removed_altogether_example = removed_altogether false calls "g" "a"
