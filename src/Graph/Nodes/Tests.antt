-- ===== src/Graph/Nodes/Tests.antt =====
-- Laws of the node table on a node that two translation units contribute.
use giga_drill_breaker.Common.{
  ℕ, ◌≡◌, refl, String, true, false, Option, none, some, [], ◌∷◌, if◌then◌else◌, nat_eq,
}
use giga_drill_breaker.Common.Map
use giga_drill_breaker.Graph.Types.{Node}
use giga_drill_breaker.Graph.Nodes.{NodeTable, empty, add_node, remove_units}
use giga_drill_breaker.Graph.Nodes.Naming.{IsNamed, empty-IsNamed, add_node-IsNamed}
use giga_drill_breaker.Graph.Nodes.Removal.{
  IsAttributed, empty-IsAttributed, add_node-IsAttributed, minus, lost, remove_units_lem,
}

-- A method whose usr is string 0 and whose display name is string 1.
abbrev method : Node
method = record {
  qualified_name = "A::run";
  file = "a.cpp";
  line = 7;
  is_entry_point = false;
  is_virtual = true;
  enclosing_class = "A";
  usr = "c:@A@run";
}

abbrev display_ids : String → Option ℕ
display_ids s = some 1

abbrev once : NodeTable
once = add_node 0 1 method (some 5) empty

abbrev twice : NodeTable
twice = add_node 0 1 method (some 6) once

once-IsAttributed : IsAttributed once
once-IsAttributed = add_node-IsAttributed 0 1 method (some 5) empty empty-IsAttributed

twice-IsAttributed : IsAttributed twice
twice-IsAttributed = add_node-IsAttributed 0 1 method (some 6) once once-IsAttributed

once-IsNamed : IsNamed display_ids once
once-IsNamed =
    add_node-IsNamed display_ids 0 1 method (some 5) empty refl (empty-IsNamed display_ids)

twice-IsNamed : IsNamed display_ids twice
twice-IsNamed = add_node-IsNamed display_ids 0 1 method (some 6) once refl once-IsNamed

remove_units_lem_example :
    IsAttributed (remove_units display_ids (5 ∷ []) twice)
    × (Map.get_list 0 (remove_units display_ids (5 ∷ []) twice).node_contributors
        ≡ minus (5 ∷ []) (Map.get_list 0 twice.node_contributors))
    × (Map.find 0 (remove_units display_ids (5 ∷ []) twice).nodes ≡ (
        if lost
          (Map.get_list 0 twice.node_contributors)
          (minus (5 ∷ []) (Map.get_list 0 twice.node_contributors))
        then none
        else Map.find 0 twice.nodes))
remove_units_lem_example = remove_units_lem display_ids (5 ∷ []) 0 twice twice-IsAttributed
