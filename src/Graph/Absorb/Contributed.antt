-- ===== src/Graph/Absorb/Contributed.antt =====
-- The node part of `absorb`: names and provenance of the merged table.
use giga_drill_breaker.Common.{
  ℕ, zero, get_elem?, suc, ◌+◌, ◌<◌, ◌≤◌, ◌≡◌, inl, inr, String, some, List, [], ◌∷◌, arith, length,
  Option-cases, nat_eq,
}
use giga_drill_breaker.Common.Map
use giga_drill_breaker.Common.Map.{Map}
use giga_drill_breaker.Interner
use giga_drill_breaker.Interner.{Interner, id_limit}
use giga_drill_breaker.Interner.Laws.{IsDense}
use giga_drill_breaker.Interner.Growth.{
  Grows, Grows-refl, Grows-weaken, Grows-trans, intern-Grows, find-intern_self,
}
use giga_drill_breaker.Graph.Types.{Node}
use giga_drill_breaker.Graph.Nodes.{NodeTable}
use giga_drill_breaker.Graph.Nodes.Naming.{
  IsNamed, IsNamed-grow, put_node-IsNamed, put_known-IsNamed, contribute-IsNamed,
}
use giga_drill_breaker.Graph.Nodes.Removal.{
  IsAttributed, put_node-IsAttributed, contribute-IsAttributed,
}
use giga_drill_breaker.Graph.Absorb.{
  intern_strings, remapped, contribute_all, absorb_node, absorb_nodes,
}

pub intern_strings-Grows :
    (ss : List String) (i : Interner)
    → IsDense i
    → Interner.size i + length ss ≤ id_limit
    → Grows (length ss) i (intern_strings ss i).1
unfolding intern_strings
intern_strings-Grows [] i dense room = Grows-refl i dense
intern_strings-Grows (s ∷ ss) i dense room =
    let g = intern-Grows s i dense (omega arith) in
    Grows-weaken (suc (length ss)) (omega arith) (
      Grows-trans g
        (intern_strings-Grows ss (Interner.intern s i).1 g.dense (omega (arith, g.bounded))))

-- The node table is right for its interner.
pub record IsRight (i : Interner) (t : NodeTable) : Type 0 where
  pub named : IsNamed (λ s. Interner.find s i) t
  pub attributed : IsAttributed t

contribute_all-IsRight :
    (i : Interner) (remap : List ℕ) (name_id : ℕ) (tus : List ℕ) (t : NodeTable)
    → IsRight i t
    → IsRight i (contribute_all remap name_id tus t)
unfolding contribute_all
contribute_all-IsRight i remap name_id [] t ok = ok
contribute_all-IsRight i remap name_id (tu ∷ tus) t ok =
    contribute_all-IsRight i remap name_id tus _ (record {
      named = contribute-IsNamed _ name_id (some (remapped remap tu)) t ok.named;
      attributed = contribute-IsAttributed name_id (some (remapped remap tu)) t ok.attributed;
    })

module _ (remap : List ℕ) where
  absorb_node-IsRight :
      (tus : List ℕ) (id : ℕ) (node : Node) (i : Interner) (t : NodeTable)
      → IsDense i
      → Interner.size i < id_limit
      → IsRight i t
      → Grows 1 i (absorb_node remap tus id node (i, t)).0
        × IsRight (absorb_node remap tus id node (i, t)).0 (absorb_node remap tus id node (i, t)).1
  unfolding absorb_node
  absorb_node-IsRight tus id node i t dense room ok =
      let name_id = remapped remap id in
      let display_id = (Interner.intern node.qualified_name i).0 in
      let i' = (Interner.intern node.qualified_name i).1 in
      let g = intern-Grows node.qualified_name i dense room in
      elim (Option-cases (Map.find name_id t.nodes)) [
        | inl fresh ↦
            rw (fresh, absorb_node)
              (
                g,
                contribute_all-IsRight i' remap name_id tus _ (record {
                  named =
                      put_node-IsNamed _ name_id display_id node t
                        (find-intern_self node.qualified_name i)
                        (IsNamed-grow _ _ t g.stable ok.named);
                  attributed = put_node-IsAttributed name_id display_id node t ok.attributed;
                }),
              )
        | inr (old, there) ↦
            rw (there, absorb_node)
              (
                Grows-weaken 1 (omega arith) (Grows-refl i dense),
                contribute_all-IsRight i remap name_id tus _ (record {
                  named = put_known-IsNamed _ name_id display_id node old t there ok.named;
                  attributed = put_node-IsAttributed name_id display_id node t ok.attributed;
                }),
              )
      ]

  pub absorb_nodes-IsRight :
      (contributors : Map ℕ (List ℕ)) (nodes : Map ℕ Node) (i : Interner) (t : NodeTable)
      → IsDense i
      → Interner.size i + length nodes ≤ id_limit
      → IsRight i t
      → Grows (length nodes) i (absorb_nodes remap contributors nodes (i, t)).0
        × IsRight
            (absorb_nodes remap contributors nodes (i, t)).0
            (absorb_nodes remap contributors nodes (i, t)).1
  unfolding absorb_nodes
  absorb_nodes-IsRight contributors [] i t dense room ok = (Grows-refl i dense, ok)
  absorb_nodes-IsRight contributors ((id, node) ∷ nodes) i t dense room ok =
      let s = absorb_node remap (Map.get_list id contributors) id node (i, t) in
      let (g, ok') =
        absorb_node-IsRight (Map.get_list id contributors) id node i t dense (omega arith) ok in
      let (g', ok'') =
        absorb_nodes-IsRight contributors nodes s.0 s.1 g.dense (omega (arith, g.bounded)) ok' in
      (Grows-weaken (suc (length nodes)) (omega arith) (Grows-trans g g'), ok'')

-- In an interner whose index agrees with its table and that has ids left for the strings of the
-- shard, `absorb` maps the id of each of these strings to the id that the master then has for the
-- same string.
pub find-remapped :
    (ss : List String) (i : Interner) (k : ℕ) (s : String)
    → IsDense i
    → Interner.size i + length ss ≤ id_limit
    → get_elem? ss k ≡ some s
    → Interner.find s (intern_strings ss i).1 ≡ some (remapped (intern_strings ss i).0 k)
unfolding intern_strings remapped
find-remapped [] i k s dense room at = absurd (ground arith)
find-remapped (t ∷ ss) i zero s dense room at =
    let g = intern-Grows t i dense (omega arith) in
    let rest = intern_strings-Grows ss (Interner.intern t i).1 g.dense (omega (arith, g.bounded)) in
    ground (arith, rest.stable s (Interner.intern t i).0, find-intern_self t i)
find-remapped (t ∷ ss) i (suc k) s dense room at =
    let g = intern-Grows t i dense (omega arith) in
    find-remapped ss (Interner.intern t i).1 k s g.dense (omega (arith, g.bounded)) at
