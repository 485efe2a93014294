-- ===== src/Graph/Nodes/Unnaming.antt =====
-- The disambiguation index while nodes are removed.
use giga_drill_breaker.Common.{
  ℕ, ◌≡◌, inl, inr, String, not, Option, some, List, [], ◌∷◌, arith, keep, ◌==◌, nat_eq,
  Option-cases, List-cases,
}
use giga_drill_breaker.Common.Map
use giga_drill_breaker.Graph.Types.{Node}
use giga_drill_breaker.Graph.Nodes.{
  NodeTable, unname, drop_node, release_node, release_nodes, release_unit, remove_units,
}
use giga_drill_breaker.Graph.Nodes.Naming.{IsNamed, contains-unname}

module _ (display_of : String → Option ℕ) where
  by_name-drop_node :
      (id d : ℕ) (node : Node) (t : NodeTable)
      → Map.find id t.nodes ≡ some node
      → display_of node.qualified_name ≡ some d
      → (drop_node display_of id t).by_name ≡ unname d id t.by_name
  unfolding drop_node
  by_name-drop_node id d node t at display = ground arith

  drop_node-IsNamed :
      (id : ℕ) (t : NodeTable)
      → IsNamed display_of t
      → IsNamed display_of (drop_node display_of id t)
  unfolding drop_node
  drop_node-IsNamed id t ok = elim (Option-cases (Map.find id t.nodes)) [
    | inl absent ↦ rw (absent, drop_node) ok
    | inr (node, there) ↦
        let (d, display, listed) = ok.named id node there in
        rw (there, display, drop_node)
          (record {
            named = λ j n at.
                let (e, display', listed') =
                  ok.named j n (ground (arith, Map.find-erase id j t.nodes)) in
                (
                  e,
                  display',
                  ground (arith, contains-unname d id e j t.by_name, Map.find-erase id j t.nodes),
                );
            registered = λ j e listed'.
                let (n, at, display') =
                  ok.registered j e (ground (arith, contains-unname d id e j t.by_name)) in
                (
                  n,
                  ground (arith, contains-unname d id e j t.by_name, Map.find-erase id j t.nodes),
                  display',
                );
          })
  ]

  release_node-IsNamed :
      (tu id : ℕ) (t : NodeTable)
      → IsNamed display_of t
      → IsNamed display_of (release_node display_of tu id t)
  unfolding release_node
  release_node-IsNamed tu id t ok = elim (Option-cases (Map.find id t.node_contributors)) [
    | inl absent ↦ rw (absent, release_node) ok
    | inr (tus, there) ↦ elim (List-cases (keep (λ j. not (j == tu)) tus)) [
      | inl last ↦
          let ok' = drop_node-IsNamed id t ok in
          rw (there, last, release_node) (record { named = ok'.named; registered = ok'.registered })
      | inr (j, js, left) ↦
          rw (there, left, release_node) (record { named = ok.named; registered = ok.registered })
    ]
  ]

  release_nodes-IsNamed :
      (tu : ℕ) (ids : List ℕ) (t : NodeTable)
      → IsNamed display_of t
      → IsNamed display_of (release_nodes display_of tu ids t)
  unfolding release_nodes
  release_nodes-IsNamed tu [] t ok = ok
  release_nodes-IsNamed tu (id ∷ ids) t ok =
      release_nodes-IsNamed tu ids (release_node display_of tu id t)
        (release_node-IsNamed tu id t ok)

  -- The node pass of `removeTUs` keeps the disambiguation index right: it lists a node under its
  -- display name, and nothing else.
  pub remove_units-IsNamed :
      (tus : List ℕ) (t : NodeTable)
      → IsNamed display_of t
      → IsNamed display_of (remove_units display_of tus t)
  unfolding remove_units release_unit
  remove_units-IsNamed [] t ok = ok
  remove_units-IsNamed (tu ∷ tus) t ok =
      let ok' = release_nodes-IsNamed tu (Map.get_list tu t.tu_nodes) t ok in
      remove_units-IsNamed tus (release_unit display_of tu t)
        (record { named = ok'.named; registered = ok'.registered })
