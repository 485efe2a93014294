-- ===== src/Lib.antt =====
-- Verification library of vycor-cpp: the call graph that its tools build, merge, query and refresh,
-- and of anneal the dead-code analysis and the selection of checks.
--
-- The program parses translation units with Clang. Visitors report functions and calls to a
-- `CallGraph`, which interns every name once, stores each distinct edge once with the number of its
-- registrations, and remembers which translation unit contributed what, so that a unit can be taken
-- out and indexed again. Queries expand virtual dispatch and returned function pointers when they are
-- asked, from relations that are stored in both directions.
--
--   Interner   include/vycor/callgraph/StringInterner.h: `intern`, `find`, `resolve`, `installStrings`,
--              the move constructor; Interner/Laws has the interleaving of `intern` with other threads.
--   Graph      include/vycor/callgraph/CallGraph.h and src/callgraph/CallGraph.cpp, in layers over ids:
--     Types      the enums and records, `keyOf`
--     Edges      the edge storage: `addEdge`, the edge passes of `removeTUs`, `compact`
--     Nodes      the node table: `addNode`, the node pass of `removeTUs`, the index of display names
--     Relations  hierarchy, overrides, effective implementations, function returns
--     Closure    `transitiveClosure`
--     Queries    `calleeRefsOf`, `callerRefsOf`
--     State      the whole graph with its interner, and its public mutators
--     Lookup     the queries by name
--     Absorb     `absorb`, the merge of a worker's graph
--     Hierarchy  `getAllDerivedClasses`
--   Collapse   src/callgraph/CollapseFilter.cpp: paths whose inner edges are left out
--   Contexts   src/callgraph/ControlFlowIndex.cpp: the keys of sets of scopes and guards, as bytes with the
--              lowest first, the order of the machines that the program runs on
--   ControlFlow  src/callgraph/ControlFlowIndex.cpp and its header, the index of call-site contexts:
--     Sets       the tables that keep each set once
--     State      the contexts with their index maps; `addCallSiteContext`
--     Queries    `materialize` and the queries
--     Removal    `removeTUs` and `compact`
--     Absorb     the merge of a worker's index
--     Represents the list of contexts that an index stands for; Adding, Removing, Compacting and Merging
--                have what each operation does to it, Answers and Named what the queries say of it, and
--                Built the indexes that the operations build
--   Oracle     src/callgraph/ControlFlowOracle.cpp, over the queries of both:
--     Subtype    which handler catches which exception
--     Paths      the search for the paths from the entry points
--     Protection whether an exception is caught on all of them, on some or on none
--     Nearest    the nearest try blocks up the calls
--   Snapshot   src/callgraph/Snapshot.cpp, the file that keeps an index, as a list of bytes below 256:
--     Meta       what the index was baked from; Laws and Decoding read it back, Prefix and Truncated have
--                what happens to a part of it; Dirty says which translation units are parsed again
--     File       the header with the table of sections; Saved and Sections say what `load` finds in it
--   Liveness   src/anneal/DeadCodeAnalyzer.cpp: the walk `bfs` and `getResults`; Liveness/Lives says what
--              is alive without a walk
--   Checks     src/anneal/CheckSet.cpp: the table of checks, `resolveCheckSpec`
--
-- State is passed explicitly. A hash table is an association list whose order stands for the order of
-- iteration; a set is a list without repetitions; `operator[]` makes an empty entry where the code
-- does. A mutator holds the mutex of the graph throughout and is one step. The abstract view of the
-- edge table is a multiset: `refs_of k t` counts the registrations of the content `k`. The invariant of
-- the graph is `Graph.State.WellFormed.IsWellFormed`, and `Graph.State.Building.Step` is the relation of
-- its mutators.
--
-- Bounds: ids and counts of registrations are 32-bit, written as remainders by 2 ^ 32; a theorem that
-- needs room says so. The walk of `transitiveClosure` runs on fuel, one more than the number of pairs
-- of the relation, as each round takes one id off the stack and an id is pushed once; the walk of
-- `getAllDerivedClasses` has the same, as a class is expanded once. The dead-code walk gets as much as
-- the lists of names that bound the answers of the graph; so do the path search and the walk to the
-- nearest catches, whose paths and rounds are no more than the names. The climb up the table of standard
-- exceptions has one round more than the table has pairs.
--
-- Not modelled: Clang and the visitors over its syntax trees, files, processes and JSON; of snapshots the
-- sections of the graph, the control flow and the channels; the other analyzers of anneal; the query
-- tools; the object that a move leaves behind; the assertion on read-only graphs, which a release build
-- leaves out; the capacity of containers.
pub mod Checks
pub mod Collapse
pub mod Common
pub mod Contexts
pub mod ControlFlow
pub mod Graph
pub mod Interner
pub mod Liveness
pub mod Oracle
pub mod Snapshot
