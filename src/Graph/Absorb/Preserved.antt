-- ===== src/Graph/Absorb/Preserved.antt =====
-- The merged graph as a whole.
use giga_drill_breaker.Common.{ℕ, ◌+◌, ◌≡◌, arith, List, [], length, ◌∙◌}
use giga_drill_breaker.Interner.Growth.{Grows}
use giga_drill_breaker.Graph.Types.{EdgeKey}
use giga_drill_breaker.Graph.Edges.Consistent.{refs_of}
use giga_drill_breaker.Graph.Nodes.Naming.{IsNamed-grow}
use giga_drill_breaker.Graph.State.{CallGraph}
use giga_drill_breaker.Graph.State.WellFormed.{IsWellFormed, HasIds}
use giga_drill_breaker.Graph.Absorb.{intern_strings, absorb}
use giga_drill_breaker.Graph.Absorb.Registered.{
  brought, CanAbsorb, absorb_edges-IsConsistent, absorb_tu_edges-IsConsistent,
}
use giga_drill_breaker.Graph.Absorb.Contributed.{
  IsRight, intern_strings-Grows, absorb_nodes-IsRight,
}
use giga_drill_breaker.Graph.Absorb.Mirrored.{absorb_relations-IsMirrored}

-- The ids that the strings of the shard get in the master.
abbrev pub remap_of : CallGraph → CallGraph → List ℕ
remap_of shard g = (intern_strings shard.interner.strings g.interner).0

-- The strings that a merge may intern.
abbrev pub strings_of : CallGraph → ℕ
strings_of shard = length shard.interner.strings + length shard.nodes.nodes

-- What the nodes of the shard do to the interner, into which its strings have come.
pub absorb-Grows :
    (shard g : CallGraph)
    → IsWellFormed g
    → HasIds (strings_of shard) g
    → Grows
        (length shard.nodes.nodes)
        (intern_strings shard.interner.strings g.interner).1
        (absorb shard g).interner
      × IsRight (absorb shard g).interner (absorb shard g).nodes
unfolding absorb
absorb-Grows shard g ok ids =
    let remap = remap_of shard g in
    let i1 = (intern_strings shard.interner.strings g.interner).1 in
    let g1 = intern_strings-Grows shard.interner.strings g.interner ok.dense (omega arith) in
    absorb_nodes-IsRight remap shard.nodes.node_contributors shard.nodes.nodes i1 g.nodes g1.dense
      (omega (arith, g1.bounded))
      (record { named = IsNamed-grow _ _ g.nodes g1.stable ok.named; attributed = ok.attributed })

module _ (shard g : CallGraph) (ok : IsWellFormed g)
    (room : CanAbsorb (remap_of shard g) shard.edges.edges g.edges) where
  -- `absorb` keeps a graph well formed, whatever the shard, while ids and counts of registrations
  -- are left.
  pub absorb-IsWellFormed : HasIds (strings_of shard) g → IsWellFormed (absorb shard g)
  unfolding absorb
  absorb-IsWellFormed ids =
      let remap = remap_of shard g in
      let (g2, right) = absorb-Grows shard g ok ids in
      let edges =
        absorb_edges-IsConsistent remap 0 shard.edges.edges [] g.edges ok.consistent room in
      record {
        dense = g2.dense;
        consistent = (absorb_tu_edges-IsConsistent remap _ shard.edges.tu_edges _ edges.0).0;
        named = right.named;
        attributed = right.attributed;
        mirrored = absorb_relations-IsMirrored remap shard.relations g.relations ok.mirrored;
      }

  -- The registrations under the ids of the master.
  pub refs_brought :
      (k : EdgeKey)
      → refs_of k (absorb shard g).edges
        ≡ refs_of k g.edges + brought (remap_of shard g) k shard.edges.edges
  unfolding absorb
  refs_brought k =
      let remap = remap_of shard g in
      let edges =
        absorb_edges-IsConsistent remap 0 shard.edges.edges [] g.edges ok.consistent room in
      (absorb_tu_edges-IsConsistent remap _ shard.edges.tu_edges _ edges.0).1 k ∙ edges.1 k
