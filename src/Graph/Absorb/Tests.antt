-- ===== src/Graph/Absorb/Tests.antt =====
-- A worker's graph with one call, merged into a master that has other ids for its names.
use giga_drill_breaker.Common.{
  zero, suc, ◌+◌, ◌<◌, ◌≡◌, refl, arith, String, false, some, List, [], ◌∷◌, string_eq, nat_eq,
  ℕ_discrete,
}
use giga_drill_breaker.Common.Map
use giga_drill_breaker.Interner
use giga_drill_breaker.Interner.{Interner, id_limit}
use giga_drill_breaker.Interner.Laws.{empty-IsDense}
use giga_drill_breaker.Graph.Types.{
  CallGraphEdge, StoredEdge, EdgeKey, edge_key_eq, key_of, kind_code, confidence_code, context_code,
  direct_call, proven, synchronous,
}
use giga_drill_breaker.Graph.Edges
use giga_drill_breaker.Graph.Edges.{refs_limit}
use giga_drill_breaker.Graph.Edges.Consistent.{refs_of, refs_of-empty, empty-IsConsistent}
use giga_drill_breaker.Graph.Edges.Registration.{refs_of-add_edge}
use giga_drill_breaker.Graph.Nodes
use giga_drill_breaker.Graph.Relations
use giga_drill_breaker.Graph.State.{CallGraph, empty, intern_unit, stored_edge, add_edge}
use giga_drill_breaker.Graph.State.WellFormed.{IsWellFormed, HasIds}
use giga_drill_breaker.Graph.State.Mutators.{
  empty-IsWellFormed, add_edge-IsWellFormed, refs_of_start,
}
use giga_drill_breaker.Graph.Absorb.{intern_strings, remapped, absorb_nodes, absorb}
use giga_drill_breaker.Graph.Absorb.Contributed.{find-remapped}
use giga_drill_breaker.Graph.Absorb.Preserved.{strings_of}
use giga_drill_breaker.Graph.Absorb.Named.{held, total_refs, NamesStrings, refs_of-absorb}

abbrev call : StoredEdge
call = record {
  caller = 0;
  callee = 1;
  call_site = 2;
  kind = direct_call;
  confidence = proven;
  exec_context = synchronous;
  indirection_depth = 0;
  refs = 3;
}

abbrev names : List String
names = "main" ∷ "run" ∷ "a.cpp:3:1" ∷ []

abbrev worker : CallGraph
worker = record {
  interner = record { strings = names; index = ("main", 0) ∷ ("run", 1) ∷ ("a.cpp:3:1", 2) ∷ [] };
  nodes = Nodes.empty;
  edges = record {
    edges = call ∷ [];
    edge_index = (key_of call, 0) ∷ [];
    out_edges = (0, 0 ∷ []) ∷ [];
    in_edges = (1, 0 ∷ []) ∷ [];
    tu_edges = [];
    live_edge_count = 1;
  };
  relations = Relations.empty;
  read_only = false;
}

-- A master that knows two of the names under other ids, from a call the other way round.
abbrev back : CallGraphEdge
back = record {
  caller_name = "run";
  callee_name = "main";
  kind = direct_call;
  confidence = proven;
  call_site = "b.cpp:1:1";
  indirection_depth = 0;
  exec_context = synchronous;
  caller_usr = "";
  callee_usr = "";
}

abbrev master : CallGraph
master = add_edge back "b.cpp" empty

no_ids : HasIds 4 empty
unfolding empty Interner.empty Interner.size
no_ids = ground arith

master-IsWellFormed : IsWellFormed master
master-IsWellFormed =
    add_edge-IsWellFormed empty empty-IsWellFormed back "b.cpp" no_ids
      (λ k. ground (arith, refs_of_start k))

-- What the master stores of it.
abbrev back_edge : StoredEdge
back_edge = stored_edge back 0 1 2

master_edges : master.edges ≡ Edges.add_edge back_edge (some 3) Edges.empty
unfolding add_edge stored_edge empty Interner.empty intern_unit Interner.intern
    Interner.intern_locked Interner.find Map.find Map.insert string_eq ℕ_discrete
master_edges = refl

room : (k : EdgeKey) → refs_of k master.edges + total_refs worker.edges.edges < refs_limit
room k = ground (
  arith,
  master_edges,
  refs_of-empty k,
  refs_of-add_edge Edges.empty back_edge (some 3) empty-IsConsistent
      (ground (arith, refs_of-empty (key_of back_edge))) k,
)

ids : HasIds (strings_of worker) master
unfolding add_edge empty Interner.empty Interner.size Nodes.empty intern_unit Interner.intern
    Interner.intern_locked Interner.find Map.find Map.insert string_eq ℕ_discrete
ids = ground arith

inside : NamesStrings worker
inside zero e h = (ground arith, ground arith, ground arith)
inside (suc i) e h = absurd (ground arith)

main_merged : Interner.find "main" (absorb worker master).interner ≡ some 1
unfolding absorb intern_strings absorb_nodes add_edge empty Interner.empty Nodes.empty intern_unit
    Interner.intern Interner.intern_locked Interner.find Map.find Map.insert string_eq ℕ_discrete
main_merged = refl

run_merged : Interner.find "run" (absorb worker master).interner ≡ some 0
unfolding absorb intern_strings absorb_nodes add_edge empty Interner.empty Nodes.empty intern_unit
    Interner.intern Interner.intern_locked Interner.find Map.find Map.insert string_eq ℕ_discrete
run_merged = refl

site_merged : Interner.find "a.cpp:3:1" (absorb worker master).interner ≡ some 4
unfolding absorb intern_strings absorb_nodes add_edge empty Interner.empty Nodes.empty intern_unit
    Interner.intern Interner.intern_locked Interner.find Map.find Map.insert string_eq ℕ_discrete
site_merged = refl

-- The call under the ids of the merged graph.
abbrev merged_call : EdgeKey
merged_call = record {
  caller = 1;
  callee = 0;
  call_site = 4;
  kind = 0;
  confidence = 0;
  exec_context = 0;
  indirection_depth = 0;
}

-- The shard holds three registrations of it.
held_run : held names "main" "run" "a.cpp:3:1" merged_call (call ∷ []) ≡ 3
unfolding key_of kind_code confidence_code context_code string_eq ℕ_discrete
held_run = refl

refs_of-absorb_example :
    refs_of merged_call (absorb worker master).edges
    ≡ refs_of merged_call master.edges + held names "main" "run" "a.cpp:3:1" merged_call (call ∷ [])
refs_of-absorb_example =
    refs_of-absorb worker master master-IsWellFormed ids "main" "run" "a.cpp:3:1" merged_call inside
      room main_merged run_merged site_merged

find-remapped_example :
    Interner.find "run" (intern_strings names Interner.empty).1
    ≡ some (remapped (intern_strings names Interner.empty).0 1)
unfolding Interner.empty Interner.size
find-remapped_example = find-remapped names Interner.empty 1 "run" empty-IsDense (ground arith) refl
