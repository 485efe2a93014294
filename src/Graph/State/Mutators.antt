-- ===== src/Graph/State/Mutators.antt =====
-- The mutators and the invariant of the call graph.
use giga_drill_breaker.Common.{
  ℕ, ◌<◌, ◌≡◌, ◌∙◌, refl, String, arith, ◌==◌, string_eq, Bool-cases, inl, inr, List,
}
use giga_drill_breaker.Interner
use giga_drill_breaker.Interner.{Interner, id_limit}
use giga_drill_breaker.Interner.Laws.{IsDense, empty-IsDense}
use giga_drill_breaker.Interner.Growth.{
  Grows, Grows-refl, Grows-weaken, Grows-trans, intern-Grows, find-intern_self,
}
use giga_drill_breaker.Interner.Table.{moved_keeps}
use giga_drill_breaker.Graph.Types.{EdgeKey, Node, CallGraphEdge}
use giga_drill_breaker.Graph.Edges.Consistent.{empty-IsConsistent, refs_of, refs_of-empty}
use giga_drill_breaker.Graph.Edges.Reindex.{HasRoom}
use giga_drill_breaker.Graph.Edges.Registration.{add_edge-IsConsistent}
use giga_drill_breaker.Graph.Edges.Removal.{remove_tus-IsConsistent}
use giga_drill_breaker.Graph.Edges.Compacted.{compact-IsConsistent}
use giga_drill_breaker.Graph.Nodes.Naming.{empty-IsNamed, IsNamed-grow, add_node-IsNamed}
use giga_drill_breaker.Graph.Nodes.Unnaming.{remove_units-IsNamed}
use giga_drill_breaker.Graph.Nodes.Removal.{
  empty-IsAttributed, add_node-IsAttributed, remove_units_lem,
}
use giga_drill_breaker.Graph.Relations.{
  Relations, IsMirrored, empty-IsMirrored, add_plain-IsMirrored, add_pairs-IsMirrored,
}
use giga_drill_breaker.Graph.State.{
  CallGraph, empty, intern_unit, with_usr, add_node, add_edge, unit_ids, remove_tus, compact,
  relate, move, add_derived_class, add_method_override, add_effective_impl, add_function_return,
}
use giga_drill_breaker.Graph.State.WellFormed.{IsWellFormed, HasIds}

intern_unit-Grows :
    (path : String) (i : Interner)
    → IsDense i
    → Interner.size i < id_limit
    → Grows 1 i (intern_unit path i).1
unfolding intern_unit
intern_unit-Grows path i dense room = elim (Bool-cases (path == "")) [
  | inl blank ↦ rw (blank, intern_unit) (Grows-weaken 1 (omega arith) (Grows-refl i dense))
  | inr there ↦ rw (there, intern_unit) (intern-Grows path i dense room)
]

module _ (g : CallGraph) (ok : IsWellFormed g) where
  pub add_node-IsWellFormed :
      (n : Node) (tu_path : String) → HasIds 3 g → IsWellFormed (add_node n tu_path g)
  unfolding add_node
  add_node-IsWellFormed n tu_path room =
      let m = with_usr n in
      let i0 = g.interner in
      let i1 = (Interner.intern m.usr i0).1 in
      let i2 = (Interner.intern m.qualified_name i1).1 in
      let g1 = intern-Grows m.usr i0 ok.dense (omega arith) in
      let g2 = intern-Grows m.qualified_name i1 g1.dense (omega (arith, g1.bounded)) in
      let g3 = intern_unit-Grows tu_path i2 g2.dense (omega (arith, g1.bounded, g2.bounded)) in
      let all = Grows-trans g1 (Grows-trans g2 g3) in
      record {
        dense = g3.dense;
        consistent = ok.consistent;
        named =
            add_node-IsNamed (λ s. Interner.find s (intern_unit tu_path i2).1) _ _ m _ g.nodes
              (g3.stable m.qualified_name _ (find-intern_self m.qualified_name i1))
              (IsNamed-grow _ _ g.nodes all.stable ok.named);
        attributed = add_node-IsAttributed _ _ m _ g.nodes ok.attributed;
        mirrored = ok.mirrored;
      }

  pub add_edge-IsWellFormed :
      (e : CallGraphEdge) (tu_path : String)
      → HasIds 4 g
      → HasRoom 1 g.edges
      → IsWellFormed (add_edge e tu_path g)
  unfolding add_edge
  add_edge-IsWellFormed e tu_path room refs_room =
      let i0 = g.interner in
      let i1 = (Interner.intern e.caller_name i0).1 in
      let i2 = (Interner.intern e.callee_name i1).1 in
      let i3 = (Interner.intern e.call_site i2).1 in
      let g1 = intern-Grows e.caller_name i0 ok.dense (omega arith) in
      let g2 = intern-Grows e.callee_name i1 g1.dense (omega (arith, g1.bounded)) in
      let g3 = intern-Grows e.call_site i2 g2.dense (omega (arith, g1.bounded, g2.bounded)) in
      let g4 =
        intern_unit-Grows tu_path i3 g3.dense (omega (arith, g1.bounded, g2.bounded, g3.bounded)) in
      let all = Grows-trans g1 (Grows-trans g2 (Grows-trans g3 g4)) in
      record {
        dense = g4.dense;
        consistent = add_edge-IsConsistent g.edges _ _ ok.consistent (refs_room _);
        named = IsNamed-grow _ _ g.nodes all.stable ok.named;
        attributed = ok.attributed;
        mirrored = ok.mirrored;
      }

  pub remove_tus-IsWellFormed : (paths : List String) → IsWellFormed (remove_tus paths g).1
  unfolding remove_tus
  remove_tus-IsWellFormed paths =
      let tus = unit_ids paths g.interner in
      let display_of = λ (s : String). Interner.find s g.interner in
      record {
        dense = ok.dense;
        consistent = remove_tus-IsConsistent tus g.edges ok.consistent;
        named = remove_units-IsNamed display_of tus g.nodes ok.named;
        attributed = (remove_units_lem display_of tus 0 g.nodes ok.attributed).0;
        mirrored = ok.mirrored;
      }

  pub compact-IsWellFormed : IsWellFormed (compact g)
  unfolding compact
  compact-IsWellFormed = record {
    dense = ok.dense;
    consistent = compact-IsConsistent g.edges ok.consistent;
    named = ok.named;
    attributed = ok.attributed;
    mirrored = ok.mirrored;
  }

  -- Moving a graph keeps it well formed, while its strings fit the ids.
  pub move-IsWellFormed : HasIds 0 g → IsWellFormed (move g)
  unfolding move
  move-IsWellFormed room =
      let same = λ (s : String) (id : ℕ). moved_keeps g.interner s id ok.dense (omega arith) in
      record {
        dense = (same "" 0).0;
        consistent = ok.consistent;
        named = IsNamed-grow _ _ g.nodes (λ s d h. (same s d).1 ∙ h) ok.named;
        attributed = ok.attributed;
        mirrored = ok.mirrored;
      }

  relate-IsWellFormed :
      (add : ℕ → ℕ → Relations → Relations) (a b : String)
      → ((x y : ℕ) → IsMirrored (add x y g.relations))
      → HasIds 2 g
      → IsWellFormed (relate add a b g)
  unfolding relate
  relate-IsWellFormed add a b keeps room =
      let i0 = g.interner in
      let i1 = (Interner.intern a i0).1 in
      let g1 = intern-Grows a i0 ok.dense (omega arith) in
      let g2 = intern-Grows b i1 g1.dense (omega (arith, g1.bounded)) in
      record {
        dense = g2.dense;
        consistent = ok.consistent;
        named = IsNamed-grow _ _ g.nodes (Grows-trans g1 g2).stable ok.named;
        attributed = ok.attributed;
        mirrored = keeps _ _;
      }

  -- The four mutators of relations keep the graph well formed, while two ids are left.
  pub relations-IsWellFormed :
      (a b : String)
      → HasIds 2 g
      → IsWellFormed (add_derived_class a b g)
        × IsWellFormed (add_method_override a b g)
        × IsWellFormed (add_effective_impl a b g)
        × IsWellFormed (add_function_return a b g)
  unfolding add_derived_class add_method_override add_effective_impl add_function_return
  relations-IsWellFormed a b room = (
    relate-IsWellFormed _ a b (λ x y. (add_plain-IsMirrored x y g.relations ok.mirrored).0) room,
    relate-IsWellFormed _ a b (λ x y. (add_pairs-IsMirrored x y g.relations ok.mirrored).0) room,
    relate-IsWellFormed _ b a (λ x y. (add_plain-IsMirrored y x g.relations ok.mirrored).1) room,
    relate-IsWellFormed _ a b (λ x y. (add_pairs-IsMirrored x y g.relations ok.mirrored).1) room,
  )

pub empty-IsWellFormed : IsWellFormed empty
unfolding empty
empty-IsWellFormed = record {
  dense = empty-IsDense;
  consistent = empty-IsConsistent;
  named = empty-IsNamed _;
  attributed = empty-IsAttributed;
  mirrored = empty-IsMirrored;
}

pub refs_of_start : (k : EdgeKey) → refs_of k empty.edges ≡ 0
unfolding empty
refs_of_start k = refs_of-empty k

pub size_of_start : Interner.size empty.interner ≡ 0
unfolding empty Interner.empty Interner.size
size_of_start = refl
