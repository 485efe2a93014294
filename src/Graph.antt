-- ===== src/Graph.antt =====
-- include/vycor/callgraph/CallGraph.h: the data of the call graph. The state is three tables over
-- one interner: edges with their deduplication index, nodes with their names, and relations.
pub mod Types
pub mod Edges
pub mod Nodes
pub mod Closure
pub mod Hierarchy
pub mod Relations
pub mod Queries
pub mod State
pub mod Absorb
pub mod Lookup
pub use Types.*
