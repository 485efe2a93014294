-- ===== src/Graph/State/Tests.antt =====
-- A small program of one translation unit: a function that calls another one.
use giga_drill_breaker.Common.{
  ◌≡◌, refl, String, false, none, some, [], ◌∷◌, arith, string_eq, ℕ_discrete, nat_eq,
}
use giga_drill_breaker.Common.Map
use giga_drill_breaker.Interner
use giga_drill_breaker.Interner.{Interner, id_limit}
use giga_drill_breaker.Graph.Types.{Node, CallGraphEdge, direct_call, proven, synchronous}
use giga_drill_breaker.Graph.Edges.Consistent.{refs_of-empty}
use giga_drill_breaker.Graph.Edges.Reindex.{HasRoom}
use giga_drill_breaker.Graph.Nodes
use giga_drill_breaker.Graph.State.{
  CallGraph, empty, intern_unit, with_usr, add_node, add_edge, remove_tus, compact,
}
use giga_drill_breaker.Graph.State.WellFormed.{IsWellFormed, HasIds}
use giga_drill_breaker.Graph.State.Building.{
  Built, begin, next, node, edge, removal, compaction, Built-IsWellFormed,
}

abbrev function : String → Node
function name = record {
  qualified_name = name;
  file = "a.cpp";
  line = 1;
  is_entry_point = false;
  is_virtual = false;
  enclosing_class = "";
  usr = "";
}

abbrev call : CallGraphEdge
call = record {
  caller_name = "main";
  callee_name = "run";
  kind = direct_call;
  confidence = proven;
  call_site = "a.cpp:3:1";
  indirection_depth = 0;
  exec_context = synchronous;
  caller_usr = "";
  callee_usr = "";
}

abbrev pub one_call : CallGraph
one_call = add_edge call "a.cpp" empty

abbrev pub with_main : CallGraph
with_main = add_node (function "main") "a.cpp" one_call

empty-HasIds : HasIds 4 empty
unfolding empty Interner.empty Interner.size
empty-HasIds = ground arith

empty-HasRoom : HasRoom 1 empty.edges
unfolding empty
empty-HasRoom k = ground (arith, refs_of-empty k)

one_call-HasIds : HasIds 3 one_call
unfolding add_edge empty Interner.empty Interner.size intern_unit Interner.intern
    Interner.intern_locked Interner.find Map.find Map.insert string_eq ℕ_discrete
one_call-HasIds = ground arith

pub with_main-Built : Built with_main
with_main-Built =
    next (next begin (edge call "a.cpp" empty-HasIds empty-HasRoom))
      (node (function "main") "a.cpp" one_call-HasIds)

-- An overload, which only its usr tells apart.
abbrev pub with_overload : CallGraph
with_overload = add_node (record (function "run") { usr = "c:@F@run#I#" }) "a.cpp" one_call

pub with_overload-Built : Built with_overload
with_overload-Built =
    next (next begin (edge call "a.cpp" empty-HasIds empty-HasRoom))
      (node (record (function "run") { usr = "c:@F@run#I#" }) "a.cpp" one_call-HasIds)

pub run_known : Interner.find "run" with_overload.interner ≡ some 1
unfolding add_node with_usr add_edge empty Interner.empty intern_unit Interner.intern
    Interner.intern_locked Interner.find Map.find Map.insert string_eq ℕ_discrete
run_known = refl

pub run_unregistered : Map.find 1 with_overload.nodes.nodes ≡ none
unfolding add_node with_usr add_edge empty Interner.empty intern_unit Interner.intern
    Interner.intern_locked Interner.find Map.find Map.insert string_eq ℕ_discrete Nodes.empty
    Nodes.add_node Nodes.put_node Nodes.contribute Map.get_list Map.push
run_unregistered = refl

abbrev pub compacted : CallGraph
compacted = compact (remove_tus ("a.cpp" ∷ []) with_main).1

compacted-Built : Built compacted
compacted-Built = next (next with_main-Built (removal ("a.cpp" ∷ []))) compaction

Built-IsWellFormed_example : IsWellFormed compacted
Built-IsWellFormed_example = Built-IsWellFormed compacted-Built
