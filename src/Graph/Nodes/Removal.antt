-- ===== src/Graph/Nodes/Removal.antt =====
-- The node pass of `removeTUs` as a whole.
use giga_drill_breaker.Common.{
  ℕ, ◌≡◌, refl, ◌∙◌, inl, inr, String, Bool, true, false, not, Option, none, some, List, [], ◌∷◌,
  arith, ite, contains, keep, if◌then◌else◌, ◌==◌, nat_eq, Option-cases, ℕ_discrete,
  contains-set_insert, contains-append, set_insert,
}
use giga_drill_breaker.Common.Map
use giga_drill_breaker.Graph.Types.{Node}
use giga_drill_breaker.Graph.Nodes.{
  NodeTable, empty, drop_node, release_node, release_nodes, release_unit, remove_units, put_node,
  contribute, add_node,
}
use giga_drill_breaker.Graph.Nodes.Contributors.{contributors-release_nodes, nodes-release_nodes}

-- The two directions of the provenance agree.
pub record IsAttributed (t : NodeTable) : Type 0 where
  pub agree :
      (tu id : ℕ)
      → contains (Map.get_list tu t.tu_nodes) id ≡ contains (Map.get_list id t.node_contributors) tu

abbrev pub minus_one : ℕ → List ℕ → List ℕ
minus_one tu = keep (λ j. not (j == tu))

abbrev pub minus : List ℕ → List ℕ → List ℕ
minus [] c = c
minus (tu ∷ tus) c = minus tus (minus_one tu c)

-- There was a contributor, and there is none.
abbrev pub lost : List ℕ → List ℕ → Bool
lost [] after = false
lost (_ ∷ _) [] = true
lost (_ ∷ _) (_ ∷ _) = false

pub empty-IsAttributed : IsAttributed empty
unfolding empty Map.get_list Map.find
empty-IsAttributed = record { agree = λ tu id. refl }

contains-minus_one :
    (tu x : ℕ) (c : List ℕ)
    → contains (minus_one tu c) x ≡ ite (ℕ_discrete tu x) false (contains c x)
contains-minus_one tu x [] = ground arith
contains-minus_one tu x (j ∷ c) = ground (arith, contains-minus_one tu x c)

minus_one_absent : (tu : ℕ) (c : List ℕ) → contains c tu ≡ false → minus_one tu c ≡ c
minus_one_absent tu [] h = refl
minus_one_absent tu (j ∷ c) h = ground (arith, minus_one_absent tu c)

minus_nil : (tus : List ℕ) → minus tus [] ≡ []
minus_nil [] = refl
minus_nil (tu ∷ tus) = minus_nil tus

pub put_node-IsAttributed :
    (name_id display_id : ℕ) (node : Node) (t : NodeTable)
    → IsAttributed t
    → IsAttributed (put_node name_id display_id node t)
unfolding put_node
put_node-IsAttributed name_id display_id node t ok = record {
  agree = λ tu id. ground (arith, ok.agree tu id);
}

pub contribute-IsAttributed :
    (name_id : ℕ) (tu : Option ℕ) (t : NodeTable)
    → IsAttributed t
    → IsAttributed (contribute name_id tu t)
unfolding contribute
contribute-IsAttributed name_id none t ok = ok
contribute-IsAttributed name_id (some u) t ok = record {
  agree = λ tu id.
      let known = Map.get_list name_id t.node_contributors in
      ground (
        arith,
        ok.agree tu id,
        ok.agree u name_id,
        Map.get_list-insert name_id id (set_insert u known) t.node_contributors,
        contains-set_insert u tu known,
        Map.get_list-push u tu name_id t.tu_nodes,
        contains-append id (Map.get_list u t.tu_nodes) (name_id ∷ []),
      );
}

-- `addNode` keeps both directions of the provenance of nodes in agreement.
pub add_node-IsAttributed :
    (name_id display_id : ℕ) (node : Node) (tu : Option ℕ) (t : NodeTable)
    → IsAttributed t
    → IsAttributed (add_node name_id display_id node tu t)
unfolding add_node
add_node-IsAttributed name_id display_id node tu t ok =
    contribute-IsAttributed name_id tu _ (put_node-IsAttributed name_id display_id node t ok)

module _ (display_of : String → Option ℕ) where
  contributors-release_unit :
      (tu id : ℕ) (t : NodeTable)
      → IsAttributed t
      → Map.get_list id (release_unit display_of tu t).node_contributors
        ≡ minus_one tu (Map.get_list id t.node_contributors)
  unfolding release_unit
  contributors-release_unit tu id t ok =
      let ids = Map.get_list tu t.tu_nodes in
      let t' = release_nodes display_of tu ids t in
      elim (Option-cases (Map.find id t.node_contributors)) [
        | inl absent ↦ ground (
          arith,
          ok.agree tu id,
          contributors-release_nodes display_of tu ids id t,
          Map.get_list_lem id t.node_contributors,
          Map.get_list_lem id t'.node_contributors,
        )
        | inr (tus, there) ↦ ground (
          arith,
          ok.agree tu id,
          contributors-release_nodes display_of tu ids id t,
          Map.get_list_lem id t.node_contributors,
          Map.get_list_lem id t'.node_contributors,
          minus_one_absent tu tus,
        )
      ]

  nodes-release_unit :
      (tu id : ℕ) (t : NodeTable)
      → IsAttributed t
      → Map.find id (release_unit display_of tu t).nodes ≡ (
          if lost
            (Map.get_list id t.node_contributors)
            (minus_one tu (Map.get_list id t.node_contributors))
          then none
          else Map.find id t.nodes)
  unfolding release_unit
  nodes-release_unit tu id t ok =
      let ids = Map.get_list tu t.tu_nodes in
      elim (Option-cases (Map.find id t.node_contributors)) [
        | inl absent ↦ ground (
          arith,
          ok.agree tu id,
          nodes-release_nodes display_of tu ids id t,
          Map.get_list_lem id t.node_contributors,
        )
        | inr (tus, there) ↦ ground (
          arith,
          ok.agree tu id,
          nodes-release_nodes display_of tu ids id t,
          Map.get_list_lem id t.node_contributors,
          minus_one_absent tu tus,
        )
      ]

  tu_nodes-release_nodes :
      (tu : ℕ) (ids : List ℕ) (t : NodeTable)
      → (release_nodes display_of tu ids t).tu_nodes ≡ t.tu_nodes
  unfolding release_nodes release_node drop_node
  tu_nodes-release_nodes tu [] t = refl
  tu_nodes-release_nodes tu (id ∷ ids) t =
      tu_nodes-release_nodes tu ids (release_node display_of tu id t) ∙ ground arith

  release_unit-IsAttributed :
      (tu : ℕ) (t : NodeTable) → IsAttributed t → IsAttributed (release_unit display_of tu t)
  unfolding release_unit
  release_unit-IsAttributed tu t ok = record {
    agree = λ u id.
        let ids = Map.get_list tu t.tu_nodes in
        ground (
          arith,
          ok.agree u id,
          contributors-release_unit tu id t ok,
          tu_nodes-release_nodes tu ids t,
          Map.get_list-erase tu u t.tu_nodes,
          contains-minus_one tu u (Map.get_list id t.node_contributors),
        );
  }

  -- In a table whose provenance agrees in both directions, the node pass of `removeTUs` keeps it
  -- so, takes exactly the removed units off the contributors of a node, and drops the node exactly
  -- if it had contributors and loses the last of them.
  pub remove_units_lem :
      (tus : List ℕ) (id : ℕ) (t : NodeTable)
      → IsAttributed t
      → IsAttributed (remove_units display_of tus t)
        × (Map.get_list id (remove_units display_of tus t).node_contributors
            ≡ minus tus (Map.get_list id t.node_contributors))
        × (Map.find id (remove_units display_of tus t).nodes ≡ (
            if lost
              (Map.get_list id t.node_contributors)
              (minus tus (Map.get_list id t.node_contributors))
            then none
            else Map.find id t.nodes))
  unfolding remove_units
  remove_units_lem [] id t ok = (ok, refl, ground arith)
  remove_units_lem (tu ∷ tus) id t ok =
      let t' = release_unit display_of tu t in
      let (ok', contributors, nodes) =
        remove_units_lem tus id t' (release_unit-IsAttributed tu t ok) in
      (
        ok',
        ground (arith, contributors-release_unit tu id t ok),
        ground (
          arith,
          contributors-release_unit tu id t ok,
          nodes-release_unit tu id t ok,
          minus_nil tus,
        ),
      )
