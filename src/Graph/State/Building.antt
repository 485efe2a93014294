-- ===== src/Graph/State/Building.antt =====
-- Every way to build a call graph.
use giga_drill_breaker.Common.{List, String}
use giga_drill_breaker.Graph.Types.{Node, CallGraphEdge}
use giga_drill_breaker.Graph.Edges.Reindex.{HasRoom}
use giga_drill_breaker.Graph.State.{
  CallGraph, empty, add_node, add_edge, remove_tus, compact, move, add_derived_class,
  add_method_override, add_effective_impl, add_function_return,
}
use giga_drill_breaker.Graph.State.WellFormed.{IsWellFormed, HasIds}
use giga_drill_breaker.Graph.State.Mutators.{
  empty-IsWellFormed, add_node-IsWellFormed, add_edge-IsWellFormed, remove_tus-IsWellFormed,
  compact-IsWellFormed, move-IsWellFormed, relations-IsWellFormed,
}
use giga_drill_breaker.Graph.Absorb.{absorb}
use giga_drill_breaker.Graph.Absorb.Registered.{CanAbsorb}
use giga_drill_breaker.Graph.Absorb.Preserved.{remap_of, strings_of, absorb-IsWellFormed}

-- What a caller may do with a graph; `addNode` and the others need ids that are left.
pub data Step (g : CallGraph) : CallGraph → Type 0 where
  node : (n : Node) (tu_path : String) → HasIds 3 g → Step g (add_node n tu_path g)
  edge :
      (e : CallGraphEdge) (tu_path : String)
      → HasIds 4 g
      → HasRoom 1 g.edges
      → Step g (add_edge e tu_path g)
  derived : (a b : String) → HasIds 2 g → Step g (add_derived_class a b g)
  overriding : (a b : String) → HasIds 2 g → Step g (add_method_override a b g)
  impl : (a b : String) → HasIds 2 g → Step g (add_effective_impl a b g)
  returning : (a b : String) → HasIds 2 g → Step g (add_function_return a b g)
  removal : (paths : List String) → Step g (remove_tus paths g).1
  compaction : Step g (compact g)
  moving : HasIds 0 g → Step g (move g)
  merge :
      (shard : CallGraph)
      → HasIds (strings_of shard) g
      → CanAbsorb (remap_of shard g) shard.edges.edges g.edges
      → Step g (absorb shard g)

pub data Built : CallGraph → Type 0 where
  begin : Built empty
  next : {g h : CallGraph} → Built g → Step g h → Built h

Step-IsWellFormed : {g h : CallGraph} → Step g h → IsWellFormed g → IsWellFormed h
Step-IsWellFormed {g} (node n p r) ok = add_node-IsWellFormed g ok n p r
Step-IsWellFormed {g} (edge e p r q) ok = add_edge-IsWellFormed g ok e p r q
Step-IsWellFormed {g} (derived a b r) ok = (relations-IsWellFormed g ok a b r).0
Step-IsWellFormed {g} (overriding a b r) ok = (relations-IsWellFormed g ok a b r).1
Step-IsWellFormed {g} (impl a b r) ok = (relations-IsWellFormed g ok a b r).2
Step-IsWellFormed {g} (returning a b r) ok = (relations-IsWellFormed g ok a b r).3
Step-IsWellFormed {g} (removal ps) ok = remove_tus-IsWellFormed g ok ps
Step-IsWellFormed {g} compaction ok = compact-IsWellFormed g ok
Step-IsWellFormed {g} (moving ids) ok = move-IsWellFormed g ok ids
Step-IsWellFormed {g} (merge shard ids room) ok = absorb-IsWellFormed shard g ok room ids

-- Whatever sequence of mutators, merges of other graphs and moves included, built a graph from the
-- empty one, each called while ids and counts of registrations are left, the graph is well formed:
-- ids name distinct strings, the deduplication index, the adjacency vectors and the edge counter
-- agree with the stored edges, display names lead to exactly their nodes, and the provenance of
-- nodes and the relations agree in both directions.
pub Built-IsWellFormed : {g : CallGraph} → Built g → IsWellFormed g
Built-IsWellFormed begin = empty-IsWellFormed
Built-IsWellFormed (next b s) = Step-IsWellFormed s (Built-IsWellFormed b)
