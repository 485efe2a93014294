-- ===== src/Graph/State.antt =====
-- The whole call graph of src/callgraph/CallGraph.cpp: one interner over the node table, the edge
-- table and the relations. Each mutator interns its strings in the order of the source; the mutex
-- makes each a single step. `assert(!readOnly_)` is a precondition that a release build leaves out.
pub mod WellFormed
pub mod Mutators
pub mod Building
pub mod Tests
use giga_drill_breaker.Common.{
  ℕ, String, Bool, false, Option, none, some, List, [], ◌∷◌, if◌then◌else◌, ◌==◌, string_eq,
}
use giga_drill_breaker.Interner
use giga_drill_breaker.Interner.{Interner}
use giga_drill_breaker.Graph.Types.{Node, CallGraphEdge, StoredEdge}
use giga_drill_breaker.Graph.Edges
use giga_drill_breaker.Graph.Edges.{EdgeTable}
use giga_drill_breaker.Graph.Nodes
use giga_drill_breaker.Graph.Nodes.{NodeTable}
use giga_drill_breaker.Graph.Relations
use giga_drill_breaker.Graph.Relations.{Relations}

pub record CallGraph : Type 0 where
  pub interner : Interner
  pub nodes : NodeTable
  pub edges : EdgeTable
  pub relations : Relations
  pub read_only : Bool

unfoldable pub empty : CallGraph
empty = record {
  interner = Interner.empty;
  nodes = Nodes.empty;
  edges = Edges.empty;
  relations = Relations.empty;
  read_only = false;
}

-- An empty path stands for no translation unit.
unfoldable pub intern_unit : String → Interner → Option ℕ × Interner
intern_unit path i =
    let (id, i') = Interner.intern path i in if path == "" then (none, i) else (some id, i')

-- A node without a usr is keyed by its display name.
pub with_usr : Node → Node
with_usr n = record n { usr = if n.usr == "" then n.qualified_name else n.usr }

pub add_node : Node → String → CallGraph → CallGraph
add_node node tu_path g =
    let n = with_usr node in
    let (name_id, i1) = Interner.intern n.usr g.interner in
    let (display_id, i2) = Interner.intern n.qualified_name i1 in
    let (tu, i3) = intern_unit tu_path i2 in
    record g { interner = i3; nodes = Nodes.add_node name_id display_id n tu g.nodes }

-- The record that `addEdge` fills before the probe.
unfoldable pub stored_edge : CallGraphEdge → ℕ → ℕ → ℕ → StoredEdge
stored_edge e caller callee call_site = record {
  caller = caller;
  callee = callee;
  call_site = call_site;
  kind = e.kind;
  confidence = e.confidence;
  exec_context = e.exec_context;
  indirection_depth = e.indirection_depth;
  refs = 1;
}

unfoldable pub add_edge : CallGraphEdge → String → CallGraph → CallGraph
add_edge e tu_path g =
    let (caller, i1) = Interner.intern e.caller_name g.interner in
    let (callee, i2) = Interner.intern e.callee_name i1 in
    let (call_site, i3) = Interner.intern e.call_site i2 in
    let (tu, i4) = intern_unit tu_path i3 in
    record g {
      interner = i4;
      edges = Edges.add_edge (stored_edge e caller callee call_site) tu g.edges;
    }

-- The ids of the paths that are known.
pub unit_ids : List String → Interner → List ℕ
unit_ids [] i = []
unit_ids (path ∷ paths) i = elim (Interner.find path i) [
  | none ↦ unit_ids paths i
  | some id ↦ id ∷ unit_ids paths i
]

pub remove_tus : List String → CallGraph → ℕ × CallGraph
remove_tus paths g =
    let tus = unit_ids paths g.interner in
    let (removed, edges) = Edges.remove_tus tus g.edges in
    (
      removed,
      record g {
        edges = edges;
        nodes = Nodes.remove_units (λ s. Interner.find s g.interner) tus g.nodes;
      },
    )

pub remove_tu : String → CallGraph → ℕ × CallGraph
remove_tu path g = remove_tus (path ∷ []) g

pub compact : CallGraph → CallGraph
compact g = record g { edges = Edges.compact g.edges }

-- The relation mutators intern two names; `addEffectiveImpl` the method first.
pub relate : (ℕ → ℕ → Relations → Relations) → String → String → CallGraph → CallGraph
relate add a b g =
    let (a_id, i1) = Interner.intern a g.interner in
    let (b_id, i2) = Interner.intern b i1 in
    record g { interner = i2; relations = add a_id b_id g.relations }

pub add_derived_class : String → String → CallGraph → CallGraph
add_derived_class base derived g = relate Relations.add_derived_class base derived g

pub add_method_override : String → String → CallGraph → CallGraph
add_method_override base overriding g = relate Relations.add_method_override base overriding g

pub add_effective_impl : String → String → CallGraph → CallGraph
add_effective_impl concrete impl g =
    relate (λ impl_id class_id. Relations.add_effective_impl class_id impl_id) impl concrete g

pub add_function_return : String → String → CallGraph → CallGraph
add_function_return func ret g = relate Relations.add_function_return func ret g

-- The move constructor and assignment: the interner is indexed anew, the tables are taken over.
pub move : CallGraph → CallGraph
move g = record g { interner = Interner.moved g.interner }
