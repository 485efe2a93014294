-- ===== src/Graph/Nodes/Contributors.antt =====
-- The contributors of a node while `removeTUs` takes one unit off.
use giga_drill_breaker.Common.{
  ℕ, ◌≡◌, refl, inl, inr, String, Bool, true, false, not, ◌&&◌, Option, none, some, List, [], ◌∷◌,
  arith, ite, contains, keep, if◌then◌else◌, ◌==◌, nat_eq, Option-cases, List-cases, ℕ_discrete,
}
use giga_drill_breaker.Common.Map
use giga_drill_breaker.Common.Map.{Map}
use giga_drill_breaker.Graph.Nodes.{NodeTable, drop_node, release_node, release_nodes}

-- The contributors without one unit; no entry stands for no contributor.
abbrev pub without : ℕ → Option (List ℕ) → Option (List ℕ)
without tu none = none
without tu (some tus) = elim (keep (λ j. not (j == tu)) tus) [ [] ↦ none | j ∷ js ↦ some (j ∷ js) ]

-- The unit is the only one left.
abbrev pub is_sole : ℕ → Option (List ℕ) → Bool
is_sole tu none = false
is_sole tu (some tus) = elim (keep (λ j. not (j == tu)) tus) [ [] ↦ true | _ ∷ _ ↦ false ]

keep_idem :
    (tu : ℕ) (tus : List ℕ)
    → keep (λ j. not (j == tu)) (keep (λ j. not (j == tu)) tus) ≡ keep (λ j. not (j == tu)) tus
keep_idem tu [] = refl
keep_idem tu (j ∷ tus) = ground (arith, keep_idem tu tus)

without_idem : (tu : ℕ) (o : Option (List ℕ)) → without tu (without tu o) ≡ without tu o
without_idem tu none = refl
without_idem tu (some tus) = ground (arith, keep_idem tu tus)

not-sole-without : (tu : ℕ) (o : Option (List ℕ)) → is_sole tu (without tu o) ≡ false
not-sole-without tu none = refl
not-sole-without tu (some tus) = ground (arith, keep_idem tu tus)

pub nodes-drop_node :
    (display_of : String → Option ℕ) (id j : ℕ) (t : NodeTable)
    → Map.find j (drop_node display_of id t).nodes ≡ ite (ℕ_discrete id j) none (Map.find j t.nodes)
unfolding drop_node
nodes-drop_node display_of id j t = elim (Option-cases (Map.find id t.nodes)) [
  | inl absent ↦ ground arith
  | inr (node, there) ↦ ground (arith, Map.find-erase id j t.nodes)
]

module _ (display_of : String → Option ℕ) (tu : ℕ) where
  contributors-release_node :
      (id j : ℕ) (t : NodeTable)
      → Map.find j (release_node display_of tu id t).node_contributors
        ≡ ite
            (ℕ_discrete id j)
            (without tu (Map.find j t.node_contributors))
            (Map.find j t.node_contributors)
  unfolding release_node
  contributors-release_node id j t = elim (Option-cases (Map.find id t.node_contributors)) [
    | inl absent ↦ ground arith
    | inr (tus, there) ↦ elim (List-cases (keep (λ i. not (i == tu)) tus)) [
      | inl last ↦ ground (arith, Map.find-erase id j t.node_contributors)
      | inr (i, is, left) ↦ ground (arith, Map.find-insert id j (i ∷ is) t.node_contributors)
    ]
  ]

  pub contributors-release_nodes :
      (ids : List ℕ) (j : ℕ) (t : NodeTable)
      → Map.find j (release_nodes display_of tu ids t).node_contributors ≡ (
          if contains ids j
          then without tu (Map.find j t.node_contributors)
          else Map.find j t.node_contributors)
  unfolding release_nodes
  contributors-release_nodes [] j t = refl
  contributors-release_nodes (id ∷ ids) j t = ground (
    arith,
    contributors-release_nodes ids j (release_node display_of tu id t),
    contributors-release_node id j t,
    without_idem tu (Map.find j t.node_contributors),
  )

  nodes-release_node :
      (id j : ℕ) (t : NodeTable)
      → Map.find j (release_node display_of tu id t).nodes
        ≡ ite
            (ℕ_discrete id j)
            (if is_sole tu (Map.find j t.node_contributors) then none else Map.find j t.nodes)
            (Map.find j t.nodes)
  unfolding release_node
  nodes-release_node id j t = elim (Option-cases (Map.find id t.node_contributors)) [
    | inl absent ↦ ground arith
    | inr (tus, there) ↦ elim (List-cases (keep (λ i. not (i == tu)) tus)) [
      | inl last ↦ ground (arith, nodes-drop_node display_of id j t)
      | inr (i, is, left) ↦ ground arith
    ]
  ]

  pub nodes-release_nodes :
      (ids : List ℕ) (j : ℕ) (t : NodeTable)
      → Map.find j (release_nodes display_of tu ids t).nodes ≡ (
          if contains ids j && is_sole tu (Map.find j t.node_contributors)
          then none
          else Map.find j t.nodes)
  unfolding release_nodes
  nodes-release_nodes [] j t = refl
  nodes-release_nodes (id ∷ ids) j t = ground (
    arith,
    nodes-release_nodes ids j (release_node display_of tu id t),
    contributors-release_node id j t,
    nodes-release_node id j t,
    not-sole-without tu (Map.find j t.node_contributors),
  )
