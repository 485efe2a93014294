-- ===== src/Graph/Lookup/Resolution.antt =====
-- How a name resolves in a well-formed graph.
use giga_drill_breaker.Common.{
  ℕ, ◌≡◌, ◌↔◌, ◌⊎◌, inl, inr, String, some, arith, contains, List-cases, true, false, string_eq,
  nat_eq,
}
use giga_drill_breaker.Common.Map
use giga_drill_breaker.Interner
use giga_drill_breaker.Interner.Laws.{intern_injective}
use giga_drill_breaker.Graph.Types.{Node}
use giga_drill_breaker.Graph.State.{CallGraph}
use giga_drill_breaker.Graph.State.WellFormed.{IsWellFormed}
use giga_drill_breaker.Graph.Lookup.{resolve_usr_ids, is_registered}

-- A node with this id carries the name as its display name.
abbrev pub Carries : CallGraph → String → ℕ → Type 0
Carries g name id = (m : Node) × (Map.find id g.nodes.nodes ≡ some m) × (m.qualified_name ≡ name)

module _ (g : CallGraph) (name : String) (n : ℕ) (ok : IsWellFormed g)
    (known : Interner.find name g.interner ≡ some n) where
  Carries-listed :
      (id : ℕ) → Carries g name id → contains (Map.get_list n g.nodes.by_name) id ≡ true
  Carries-listed id (m, at, same) =
      let (d, display, listed) = ok.named.named id m at in
      let here : d ≡ n = ground arith in ground arith

  listed-Carries :
      (id : ℕ) → contains (Map.get_list n g.nodes.by_name) id ≡ true → Carries g name id
  listed-Carries id listed =
      let (m, at, display) = ok.named.registered id n listed in
      (m, at, intern_injective g.interner m.qualified_name name n ok.dense display known)

  -- In a well-formed graph, a known name that is no usr of a node resolves to exactly the nodes
  -- that carry it as their display name and, if there is none, to its own id alone.
  pub resolve_display :
      is_registered n g ≡ false
      → (id : ℕ)
      → (contains (resolve_usr_ids name g) id ≡ true)
        ↔ (Carries g name id ⊎ ((id ≡ n) × ((j : ℕ) → ¬ (Carries g name j))))
  unfolding resolve_usr_ids
  resolve_display unregistered id = elim (List-cases (Map.get_list n g.nodes.by_name)) [
    | inl nothing ↦ (
      λ h. inr (ground arith, λ j c. absurd (ground (arith, Carries-listed j c))),
      λ c. elim c [
        | inl carries ↦ absurd (ground (arith, Carries-listed id carries))
        | inr (same, _) ↦ ground arith
      ],
    )
    | inr (c, cs, e) ↦ (
      λ h. inl (listed-Carries id (ground arith)),
      λ d. elim d [
        | inl carries ↦ ground (arith, Carries-listed id carries)
        | inr (same, nobody) ↦ absurd (nobody c (listed-Carries c (ground arith)))
      ],
    )
  ]
