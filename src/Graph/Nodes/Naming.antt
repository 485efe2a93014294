-- ===== src/Graph/Nodes/Naming.antt =====
-- The disambiguation index `byName_`.
use giga_drill_breaker.Common.{
  ℕ, ◌≡◌, refl, inl, inr, String, true, false, not, Option, none, some, List, ◌∷◌, arith, ite,
  contains, keep, ◌==◌, nat_eq, Option-cases, List-cases, ℕ_discrete, contains-keep, insert_new,
  contains-insert_new,
}
use giga_drill_breaker.Common.Map
use giga_drill_breaker.Common.Map.{Map}
use giga_drill_breaker.Graph.Types.{Node}
use giga_drill_breaker.Graph.Nodes.{
  NodeTable, empty, merge_node, put_node, contribute, add_node, unname,
}

pub record IsNamed (display_of : String → Option ℕ) (t : NodeTable) : Type 0 where
  pub named :
      (id : ℕ) (n : Node)
      → Map.find id t.nodes ≡ some n
      → (d : ℕ) × (display_of n.qualified_name ≡ some d)
        × (contains (Map.get_list d t.by_name) id ≡ true)
  pub registered :
      (id d : ℕ)
      → contains (Map.get_list d t.by_name) id ≡ true
      → (n : Node) × (Map.find id t.nodes ≡ some n) × (display_of n.qualified_name ≡ some d)

pub empty-IsNamed : (display_of : String → Option ℕ) → IsNamed display_of empty
unfolding empty Map.get_list Map.find
empty-IsNamed display_of = record {
  named = λ id n at. absurd (ground arith);
  registered = λ id d listed. absurd (ground arith);
}

-- Interning more strings keeps the index right.
pub IsNamed-grow :
    (f g : String → Option ℕ) (t : NodeTable)
    → ((s : String) (d : ℕ) → f s ≡ some d → g s ≡ some d)
    → IsNamed f t
    → IsNamed g t
IsNamed-grow f g t grow ok = record {
  named = λ id n at.
      let (d, display, listed) = ok.named id n at in (d, grow n.qualified_name d display, listed);
  registered = λ id d listed.
      let (n, at, display) = ok.registered id d listed in (n, at, grow n.qualified_name d display);
}

pub contains-unname :
    (d id e j : ℕ) (m : Map ℕ (List ℕ))
    → contains (Map.get_list e (unname d id m)) j
      ≡ ite
          (ℕ_discrete d e)
          (ite (ℕ_discrete id j) false (contains (Map.get_list e m) j))
          (contains (Map.get_list e m) j)
unfolding unname
contains-unname d id e j m = elim (Option-cases (Map.find d m)) [
  | inl absent ↦ ground (arith, Map.get_list_lem d m)
  | inr (ids, there) ↦ elim (List-cases (keep (λ i. not (i == id)) ids)) [
    | inl none_left ↦ ground (
      arith,
      Map.get_list_lem d m,
      Map.get_list-erase d e m,
      contains-keep j (λ i. not (i == id)) ids,
    )
    | inr (i, is, left) ↦ ground (
      arith,
      Map.get_list_lem d m,
      Map.get_list-insert d e (i ∷ is) m,
      contains-keep j (λ i. not (i == id)) ids,
    )
  ]
]

merge_node-name : (old new : Node) → (merge_node old new).qualified_name ≡ old.qualified_name
unfolding merge_node
merge_node-name old new = refl

module _ (display_of : String → Option ℕ) where
  put_fresh-IsNamed :
      (name_id display_id : ℕ) (node : Node) (t : NodeTable)
      → Map.find name_id t.nodes ≡ none
      → display_of node.qualified_name ≡ some display_id
      → IsNamed display_of t
      → IsNamed display_of (put_node name_id display_id node t)
  unfolding put_node
  put_fresh-IsNamed name_id display_id node t fresh h ok =
      rw (fresh, put_node)
        (record {
          named = λ id n at.
              let by =
                Map.get_list-insert display_id display_id
                  (insert_new name_id (Map.get_list display_id t.by_name)) t.by_name in
              elim (ℕ_discrete name_id id) [
                | yes e ↦ (
                  display_id,
                  ground (arith, Map.find-insert name_id id node t.nodes),
                  ground (
                    arith,
                    by,
                    contains-insert_new name_id id (Map.get_list display_id t.by_name),
                  ),
                )
                | no ne ↦
                    let (d, display, listed) =
                      ok.named id n (ground (arith, Map.find-insert name_id id node t.nodes)) in
                    (
                      d,
                      display,
                      ground (
                        arith,
                        contains-insert_new name_id id (Map.get_list display_id t.by_name),
                        Map.get_list-insert display_id d
                            (insert_new name_id (Map.get_list display_id t.by_name)) t.by_name,
                      ),
                    )
              ];
          registered = λ id d listed.
              let fresh_entry =
                contains-insert_new name_id id (Map.get_list display_id t.by_name) in
              let by =
                Map.get_list-insert display_id d
                  (insert_new name_id (Map.get_list display_id t.by_name)) t.by_name in
              elim (ℕ_discrete name_id id) [
                | yes e ↦ elim (ℕ_discrete display_id d) [
                  | yes e' ↦
                      (node, ground (arith, Map.find-insert name_id id node t.nodes), ground arith)
                  | no ne' ↦
                      let (n, at, display) = ok.registered id d (ground (arith, by)) in
                      absurd (ground arith)
                ]
                | no ne ↦
                    let (n, at, display) = ok.registered id d (ground (arith, by, fresh_entry)) in
                    (n, ground (arith, Map.find-insert name_id id node t.nodes), display)
              ];
        })

  -- A known node keeps its display name.
  pub put_known-IsNamed :
      (name_id display_id : ℕ) (node old : Node) (t : NodeTable)
      → Map.find name_id t.nodes ≡ some old
      → IsNamed display_of t
      → IsNamed display_of (put_node name_id display_id node t)
  unfolding put_node
  put_known-IsNamed name_id display_id node old t there ok =
      rw (there, put_node)
        (record {
          named = λ id n at. elim (ℕ_discrete name_id id) [
            | yes e ↦
                let (d, display, listed) = ok.named id old (ground arith) in
                (
                  d,
                  ground (
                    arith,
                    merge_node-name old node,
                    Map.find-insert name_id id (merge_node old node) t.nodes,
                  ),
                  listed,
                )
            | no ne ↦
                ok.named id n
                  (ground (arith, Map.find-insert name_id id (merge_node old node) t.nodes))
          ];
          registered = λ id d listed.
              let (n, at, display) = ok.registered id d listed in
              elim (ℕ_discrete name_id id) [
                | yes e ↦ (
                  merge_node old node,
                  ground (arith, Map.find-insert name_id id (merge_node old node) t.nodes),
                  ground (arith, merge_node-name old node),
                )
                | no ne ↦ (
                  n,
                  ground (arith, Map.find-insert name_id id (merge_node old node) t.nodes),
                  display,
                )
              ];
        })

  pub put_node-IsNamed :
      (name_id display_id : ℕ) (node : Node) (t : NodeTable)
      → display_of node.qualified_name ≡ some display_id
      → IsNamed display_of t
      → IsNamed display_of (put_node name_id display_id node t)
  put_node-IsNamed name_id display_id node t h ok = elim (Option-cases (Map.find name_id t.nodes)) [
    | inl fresh ↦ put_fresh-IsNamed name_id display_id node t fresh h ok
    | inr (old, there) ↦ put_known-IsNamed name_id display_id node old t there ok
  ]

  pub contribute-IsNamed :
      (name_id : ℕ) (tu : Option ℕ) (t : NodeTable)
      → IsNamed display_of t
      → IsNamed display_of (contribute name_id tu t)
  unfolding contribute
  contribute-IsNamed name_id none t ok = ok
  contribute-IsNamed name_id (some tu) t ok = record {
    named = ok.named;
    registered = ok.registered;
  }

  -- `addNode` keeps the disambiguation index right, for a node whose display name has the given
  -- id.
  pub add_node-IsNamed :
      (name_id display_id : ℕ) (node : Node) (tu : Option ℕ) (t : NodeTable)
      → display_of node.qualified_name ≡ some display_id
      → IsNamed display_of t
      → IsNamed display_of (add_node name_id display_id node tu t)
  unfolding add_node
  add_node-IsNamed name_id display_id node tu t h ok =
      contribute-IsNamed name_id tu _ (put_node-IsNamed name_id display_id node t h ok)
