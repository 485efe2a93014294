-- ===== src/Graph/Queries/Tests.antt =====
-- The two queries on a virtual call whose static target is overridden.
use giga_drill_breaker.Common.{◌≡◌, ◌↔◌, true, nat_eq}
use giga_drill_breaker.Graph.Edges.Tests.{two_edges, two_edges-IsConsistent}
use giga_drill_breaker.Graph.Relations
use giga_drill_breaker.Graph.Relations.{
  Relations, IsMirrored, empty-IsMirrored, add_pairs-IsMirrored, add_method_override,
  add_function_return,
}
use giga_drill_breaker.Graph.Queries.{outgoing, incoming, callee_refs_of, caller_refs_of}
use giga_drill_breaker.Graph.Queries.Emission.{shows}
use giga_drill_breaker.Graph.Queries.Links.{Linked}
use giga_drill_breaker.Graph.Queries.Callees.{callee_refs_of_iff}
use giga_drill_breaker.Graph.Queries.Callers.{caller_refs_of_iff, queries_dual}

-- Function 6 overrides 5, which overrides 3.
abbrev overrides : Relations
overrides = add_method_override 5 6 (add_method_override 3 5 Relations.empty)

overrides-IsMirrored : IsMirrored overrides
overrides-IsMirrored =
    (add_pairs-IsMirrored 5 6 _ (add_pairs-IsMirrored 3 5 _ empty-IsMirrored).0).0

callee_refs_of_iff_example :
    (shows outgoing 6 4 (callee_refs_of two_edges overrides 0) ≡ true)
    ↔ Linked two_edges overrides 0 6 4
callee_refs_of_iff_example = callee_refs_of_iff two_edges overrides two_edges-IsConsistent 0 6 4

caller_refs_of_iff_example :
    (shows incoming 0 4 (caller_refs_of two_edges overrides 6) ≡ true)
    ↔ Linked two_edges overrides 0 6 4
caller_refs_of_iff_example =
    caller_refs_of_iff two_edges overrides two_edges-IsConsistent overrides-IsMirrored 0 6 4

queries_dual_example :
    shows outgoing 6 4 (callee_refs_of two_edges overrides 0)
    ≡ shows incoming 0 4 (caller_refs_of two_edges overrides 6)
queries_dual_example =
    queries_dual two_edges overrides two_edges-IsConsistent overrides-IsMirrored 0 6 4
