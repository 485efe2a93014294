-- ===== src/Graph/Nodes.antt =====
-- The node table of src/callgraph/CallGraph.cpp: `addNode` after its strings are interned, and the
-- node pass of `removeTUs`. Nodes are keyed by the id of their usr; `by_name` lists, for the id of a
-- display name, the nodes that carry it.
pub mod Naming
pub mod Unnaming
pub mod Contributors
pub mod Removal
mod Tests
use giga_drill_breaker.Common.{
  ℕ, String, Bool, true, false, not, ◌||◌, Option, none, some, List, [], ◌∷◌, ite, contains,
  insert_new, set_insert, keep, if◌then◌else◌, ◌==◌, string_eq, nat_eq,
}
use giga_drill_breaker.Common.Map
use giga_drill_breaker.Common.Map.{Map}
use giga_drill_breaker.Graph.Types.{Node}

pub record NodeTable : Type 0 where
  pub nodes : Map ℕ Node
  pub by_name : Map ℕ (List ℕ)
  pub node_contributors : Map ℕ (List ℕ)
  pub tu_nodes : Map ℕ (List ℕ)

unfoldable pub empty : NodeTable
empty = record { nodes = []; by_name = []; node_contributors = []; tu_nodes = [] }

-- The backfill of a node that is known: what the new one leaves open stays.
pub merge_node : Node → Node → Node
merge_node old new = record {
  qualified_name = old.qualified_name;
  file = if new.file == "" then old.file else new.file;
  line = if new.line == 0 then old.line else new.line;
  is_entry_point = new.is_entry_point || old.is_entry_point;
  is_virtual = new.is_virtual || old.is_virtual;
  enclosing_class = if new.enclosing_class == "" then old.enclosing_class else new.enclosing_class;
  usr = old.usr;
}

unfoldable pub put_node : ℕ → ℕ → Node → NodeTable → NodeTable
put_node name_id display_id node t = elim (Map.find name_id t.nodes) [
  | none ↦ record t {
    by_name =
        Map.insert display_id (insert_new name_id (Map.get_list display_id t.by_name)) t.by_name;
    nodes = Map.insert name_id node t.nodes;
  }
  | some old ↦ record t { nodes = Map.insert name_id (merge_node old node) t.nodes }
]

-- Provenance: the unit is listed once for the node, and the node once for the unit.
unfoldable pub contribute : ℕ → Option ℕ → NodeTable → NodeTable
contribute name_id none t = t
contribute name_id (some tu) t =
    let known = Map.get_list name_id t.node_contributors in
    record t {
      node_contributors = Map.insert name_id (set_insert tu known) t.node_contributors;
      tu_nodes = if contains known tu then t.tu_nodes else Map.push tu name_id t.tu_nodes;
    }

unfoldable pub add_node : ℕ → ℕ → Node → Option ℕ → NodeTable → NodeTable
add_node name_id display_id node tu t = contribute name_id tu (put_node name_id display_id node t)

-- `vec.erase(remove(vec, id))`, and the entry with it where nothing is left.
pub unname : ℕ → ℕ → Map ℕ (List ℕ) → Map ℕ (List ℕ)
unname display_id id m = elim (Map.find display_id m) [
  | none ↦ m
  | some ids ↦ elim (keep (λ j. not (j == id)) ids) [
    | [] ↦ Map.erase display_id m
    | j ∷ js ↦ Map.insert display_id (j ∷ js) m
  ]
]

module _ (display_of : String → Option ℕ) where
  -- The node goes with its disambiguation entry.
  pub drop_node : ℕ → NodeTable → NodeTable
  drop_node id t = elim (Map.find id t.nodes) [
    | none ↦ t
    | some node ↦ record t {
      nodes = Map.erase id t.nodes;
      by_name = elim (display_of node.qualified_name) [
        | none ↦ t.by_name
        | some display_id ↦ unname display_id id t.by_name
      ];
    }
  ]

  -- The body of the loop over the nodes that one unit contributed.
  pub release_node : ℕ → ℕ → NodeTable → NodeTable
  release_node tu id t = elim (Map.find id t.node_contributors) [
    | none ↦ t
    | some tus ↦ elim (keep (λ j. not (j == tu)) tus) [
      | [] ↦ record (drop_node id t) { node_contributors = Map.erase id t.node_contributors }
      | j ∷ js ↦ record t { node_contributors = Map.insert id (j ∷ js) t.node_contributors }
    ]
  ]

  pub release_nodes : ℕ → List ℕ → NodeTable → NodeTable
  release_nodes tu [] t = t
  release_nodes tu (id ∷ ids) t = release_nodes tu ids (release_node tu id t)

  pub release_unit : ℕ → NodeTable → NodeTable
  release_unit tu t =
      let t' = release_nodes tu (Map.get_list tu t.tu_nodes) t in
      record t' { tu_nodes = Map.erase tu t'.tu_nodes }

  pub remove_units : List ℕ → NodeTable → NodeTable
  remove_units [] t = t
  remove_units (tu ∷ tus) t = remove_units tus (release_unit tu t)
