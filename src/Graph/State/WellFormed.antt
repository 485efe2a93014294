-- ===== src/Graph/State/WellFormed.antt =====
-- The invariant of the call graph.
use giga_drill_breaker.Common.{ℕ, ◌≤◌, ◌+◌}
use giga_drill_breaker.Interner
use giga_drill_breaker.Interner.{id_limit}
use giga_drill_breaker.Interner.Laws.{IsDense}
use giga_drill_breaker.Graph.Edges.Consistent.{IsConsistent}
use giga_drill_breaker.Graph.Nodes.Naming.{IsNamed}
use giga_drill_breaker.Graph.Nodes.Removal.{IsAttributed}
use giga_drill_breaker.Graph.Relations.{IsMirrored}
use giga_drill_breaker.Graph.State.{CallGraph}

-- Ids name strings, the edge table is consistent, the display names lead to their nodes, and both
-- directions of the provenance and of the relations agree.
pub record IsWellFormed (g : CallGraph) : Type 0 where
  pub dense : IsDense g.interner
  pub consistent : IsConsistent g.edges
  pub named : IsNamed (λ s. Interner.find s g.interner) g.nodes
  pub attributed : IsAttributed g.nodes
  pub mirrored : IsMirrored g.relations

-- The interner can take `n` more strings.
abbrev pub HasIds : ℕ → CallGraph → Type 0
HasIds n g = Interner.size g.interner + n ≤ id_limit
