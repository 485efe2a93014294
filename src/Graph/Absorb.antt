-- ===== src/Graph/Absorb.antt =====
-- `CallGraph::absorb` of src/callgraph/CallGraph.cpp: the merge of a worker's graph, the shard, into
-- the master. The shard is another graph; absorbing itself returns at once and is left out.
pub mod Registered
pub mod Contributed
pub mod Mirrored
pub mod Preserved
pub mod Named
mod Tests
use giga_drill_breaker.Common.{
  ℕ, suc, String, Option, none, some, List, [], ◌∷◌, ◌++◌, get_elem?, not, ltb, if◌then◌else◌,
  nat_eq,
}
use giga_drill_breaker.Common.Map
use giga_drill_breaker.Common.Map.{Map}
use giga_drill_breaker.Interner
use giga_drill_breaker.Interner.{Interner}
use giga_drill_breaker.Graph.Types.{Node, StoredEdge}
use giga_drill_breaker.Graph.Edges.{EdgeTable, register}
use giga_drill_breaker.Graph.Nodes.{NodeTable, put_node, contribute}
use giga_drill_breaker.Graph.Closure.{Relation}
use giga_drill_breaker.Graph.Relations.{
  Relations, add_derived_class, add_method_override, add_effective_impl, add_function_return,
}
use giga_drill_breaker.Graph.State.{CallGraph}

-- The master's id of each of the shard's strings, by position.
unfoldable pub intern_strings : List String → Interner → List ℕ × Interner
intern_strings [] i = ([], i)
intern_strings (s ∷ rest) i =
    let (id, i1) = Interner.intern s i in let (ids, i2) = intern_strings rest i1 in (id ∷ ids, i2)

-- `remap[id]`; every id of the shard is in range.
unfoldable pub remapped : List ℕ → ℕ → ℕ
remapped remap id = elim (get_elem? remap id) [ none ↦ 0 | some id' ↦ id' ]

pub contribute_all : List ℕ → ℕ → List ℕ → NodeTable → NodeTable
contribute_all remap name_id [] t = t
contribute_all remap name_id (tu ∷ tus) t =
    contribute_all remap name_id tus (contribute name_id (some (remapped remap tu)) t)

-- A node that is new has its display name interned, which `remap` has done already.
pub absorb_node : List ℕ → List ℕ → ℕ → Node → Interner × NodeTable → Interner × NodeTable
absorb_node remap contributors shard_id node (i, t) =
    let name_id = remapped remap shard_id in
    let (display_id, i') = Interner.intern node.qualified_name i in
    elim (Map.find name_id t.nodes) [
      | none ↦ (i', contribute_all remap name_id contributors (put_node name_id display_id node t))
      | some _ ↦ (i, contribute_all remap name_id contributors (put_node name_id display_id node t))
    ]

pub absorb_nodes :
    List ℕ → Map ℕ (List ℕ) → Map ℕ Node → Interner × NodeTable → Interner × NodeTable
absorb_nodes remap contributors [] s = s
absorb_nodes remap contributors ((id, node) ∷ rest) s =
    absorb_nodes remap contributors rest
      (absorb_node remap (Map.get_list id contributors) id node s)

pub remapped_edge : List ℕ → StoredEdge → StoredEdge
remapped_edge remap e = record e {
  caller = remapped remap e.caller;
  callee = remapped remap e.callee;
  call_site = remapped remap e.call_site;
}

-- The loop over the shard's edges, with the map from its indices to the master's; a tombstone has no
-- entry there.
pub absorb_edges : List ℕ → ℕ → List StoredEdge → Map ℕ ℕ × EdgeTable → Map ℕ ℕ × EdgeTable
absorb_edges remap i [] s = s
absorb_edges remap i (e ∷ es) (m, t) =
    let (idx, t') = register (remapped_edge remap e) t in
    absorb_edges remap (suc i) es (if not (ltb 0 e.refs) then (m, t) else (Map.insert i idx m, t'))

pub moved_indices : Map ℕ ℕ → List ℕ → List ℕ
moved_indices m [] = []
moved_indices m (i ∷ is) = elim (Map.find i m) [
  | none ↦ moved_indices m is
  | some idx ↦ idx ∷ moved_indices m is
]

-- The provenance of the edges.
pub absorb_tu_edges : List ℕ → Map ℕ ℕ → Map ℕ (List ℕ) → EdgeTable → EdgeTable
absorb_tu_edges remap m [] t = t
absorb_tu_edges remap m ((shard_tu, idxs) ∷ rest) t =
    let tu = remapped remap shard_tu in
    absorb_tu_edges remap m rest (record t {
      tu_edges = Map.insert tu (Map.get_list tu t.tu_edges ++ moved_indices m idxs) t.tu_edges;
    })

-- The loops over the pairs of one relation.
pub absorb_pairs : (ℕ → ℕ → Relations → Relations) → List ℕ → ℕ → List ℕ → Relations → Relations
absorb_pairs add remap a [] r = r
absorb_pairs add remap a (b ∷ bs) r =
    absorb_pairs add remap a bs (add (remapped remap a) (remapped remap b) r)

pub absorb_relation : (ℕ → ℕ → Relations → Relations) → List ℕ → Relation → Relations → Relations
absorb_relation add remap [] r = r
absorb_relation add remap ((a, bs) ∷ rest) r =
    absorb_relation add remap rest (absorb_pairs add remap a bs r)

pub absorb_relations : List ℕ → Relations → Relations → Relations
absorb_relations remap shard r =
    let r1 = absorb_relation add_derived_class remap shard.derived_classes r in
    let r2 = absorb_relation add_method_override remap shard.method_overrides r1 in
    let r3 =
      absorb_relation (λ impl class_id. add_effective_impl class_id impl) remap
        shard.effective_impl_classes r2 in
    absorb_relation add_function_return remap shard.function_returns r3

pub absorb : CallGraph → CallGraph → CallGraph
absorb shard g =
    let (remap, i1) = intern_strings shard.interner.strings g.interner in
    let (i2, nodes) =
      absorb_nodes remap shard.nodes.node_contributors shard.nodes.nodes (i1, g.nodes) in
    let (m, edges) = absorb_edges remap 0 shard.edges.edges ([], g.edges) in
    record g {
      interner = i2;
      nodes = nodes;
      edges = absorb_tu_edges remap m shard.edges.tu_edges edges;
      relations = absorb_relations remap shard.relations g.relations;
    }
