-- ===== src/ControlFlow.antt =====
-- src/callgraph/ControlFlowIndex.cpp and its header: the index of call-site contexts, which keeps each
-- string, each set of scopes, guards and locals once.
pub mod Types
pub mod Sets
pub mod State
pub mod Queries
pub mod Removal
pub mod Absorb
pub mod Positions
pub mod Indexed
pub mod Views
pub mod Represents
pub mod Answers
pub mod Named
pub mod Later
pub mod Adding
pub mod Compacting
pub mod Removing
pub mod Merging
pub mod Built
mod Tests
