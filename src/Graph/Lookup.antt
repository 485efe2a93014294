-- ===== src/Graph/Lookup.antt =====
-- The queries of src/callgraph/CallGraph.cpp that take and return names.
pub mod Resolution
mod Tests
use Prim.Native.String.{compare}
use Prim.Native.Nat.{Ordering}
use giga_drill_breaker.Common.{
  ℕ, ◌+◌, String, Bool, true, false, Option, none, some, List, [], ◌∷◌, ◌++◌, map, length, contains,
  get_elem?, insert_new, ltb, if◌then◌else◌, string_eq, nat_eq,
}
use giga_drill_breaker.Common.Map
use giga_drill_breaker.Interner
use giga_drill_breaker.Graph.Types.{Node, CallGraphEdge, StoredEdge, EdgeRef}
use giga_drill_breaker.Graph.Closure.{Relation, transitive_closure}
use giga_drill_breaker.Graph.Queries.{callee_refs_of, caller_refs_of}
use giga_drill_breaker.Graph.State.{CallGraph}

-- `interner_.resolve`; every id that the tables hold is in range.
pub text_of : ℕ → CallGraph → String
text_of id g = elim (Interner.resolve id g.interner) [ none ↦ "" | some s ↦ s ]

pub is_registered : ℕ → CallGraph → Bool
is_registered id g = elim (Map.find id g.nodes.nodes) [ none ↦ false | some _ ↦ true ]

-- An exact usr first, then the candidates of a display name, then the name itself as an endpoint.
pub resolve_usr_ids : String → CallGraph → List ℕ
resolve_usr_ids name g = elim (Interner.find name g.interner) [
  | none ↦ []
  | some id ↦
      if is_registered id g
      then id ∷ []
      else elim (Map.get_list id g.nodes.by_name) [ [] ↦ id ∷ [] | c ∷ cs ↦ c ∷ cs ]
]

pub usrs_for_name : String → CallGraph → List String
usrs_for_name name g = map (λ id. text_of id g) (resolve_usr_ids name g)

pub display_for : ℕ → CallGraph → String
display_for id g = elim (Map.find id g.nodes.nodes) [
  | none ↦ text_of id g
  | some n ↦ n.qualified_name
]

pub materialize : CallGraph → EdgeRef → CallGraphEdge
materialize g r = record {
  caller_name = display_for r.caller g;
  callee_name = display_for r.callee g;
  kind = r.kind;
  confidence = r.confidence;
  call_site = text_of r.call_site g;
  indirection_depth = r.indirection_depth;
  exec_context = r.exec_context;
  caller_usr = text_of r.caller g;
  callee_usr = text_of r.callee g;
}

-- `for (SId id : ids) for (const auto &x : f(id)) result.push_back(x)`
abbrev pub gather {ℓ} : {A : Type ℓ} → (ℕ → List A) → List ℕ → List A
gather f [] = []
gather f (id ∷ ids) = f id ++ gather f ids

pub callees_of : String → CallGraph → List CallGraphEdge
callees_of name g =
    gather (λ id. map (materialize g) (callee_refs_of g.edges g.relations id))
      (resolve_usr_ids name g)

pub callers_of : String → CallGraph → List CallGraphEdge
callers_of name g =
    gather (λ id. map (materialize g) (caller_refs_of g.edges g.relations id))
      (resolve_usr_ids name g)

live_of : List StoredEdge → List ℕ → ℕ
live_of edges [] = 0
live_of edges (i ∷ is) =
    (elim (get_elem? edges i) [ none ↦ 0 | some e ↦ if ltb 0 e.refs then 1 else 0 ])
    + live_of edges is

pub in_degree : ℕ → CallGraph → ℕ
in_degree id g = live_of g.edges.edges (Map.get_list id g.edges.in_edges)

pub stored_in_degree : String → CallGraph → ℕ
stored_in_degree name g = total (resolve_usr_ids name g)
  where
    total : List ℕ → ℕ
    total [] = 0
    total (id ∷ ids) = in_degree id g + total ids

pub node_count : CallGraph → ℕ
node_count g = length g.nodes.nodes

pub edge_count : CallGraph → ℕ
edge_count g = g.edges.live_edge_count

-- The candidate with the smallest usr.
better : Option Node → Node → Option Node
better none n = some n
better (some best) n = elim (compare n.usr best.usr) [ Ordering.lt ↦ some n | _ ↦ some best ]

best_of : CallGraph → Option Node → List ℕ → Option Node
best_of g best [] = best
best_of g best (id ∷ ids) =
    best_of g (elim (Map.find id g.nodes.nodes) [ none ↦ best | some n ↦ better best n ]) ids

pub find_node : String → CallGraph → Option Node
find_node name g = best_of g none (resolve_usr_ids name g)

pub get_derived_classes : String → CallGraph → List String
get_derived_classes base g = elim (Interner.find base g.interner) [
  | none ↦ []
  | some id ↦ map (λ d. text_of d g) (Map.get_list id g.relations.derived_classes)
]

-- `if (seen.insert(sid).second) result.push_back(...)` over the candidates.
pub distinct : List ℕ → List ℕ → List ℕ
distinct seen [] = []
distinct seen (x ∷ xs) = elim (contains seen x) [
  | true ↦ distinct seen xs
  | false ↦ x ∷ distinct (x ∷ seen) xs
]

pub get_overrides : String → CallGraph → List String
get_overrides method g =
    map (λ id. display_for id g)
      (distinct []
        (gather (λ id. Map.get_list id g.relations.method_overrides) (resolve_usr_ids method g)))

pub get_transitive_overrides : String → CallGraph → List String
get_transitive_overrides method g =
    map (λ id. display_for id g)
      (distinct [] (
        gather (λ id. transitive_closure id g.relations.method_overrides)
          (resolve_usr_ids method g)))

pub get_overridden_bases : String → CallGraph → List String
get_overridden_bases method g =
    map (λ id. display_for id g)
      (distinct [] (
        gather (λ id. transitive_closure id g.relations.override_bases) (resolve_usr_ids method g)))

pub get_classes_for_impl : String → CallGraph → List String
get_classes_for_impl method g =
    map (λ id. text_of id g)
      (distinct [] (
        gather (λ id. Map.get_list id g.relations.effective_impl_classes)
          (resolve_usr_ids method g)))

-- `std::set<std::string>::insert`
text_insert : String → List String → List String
text_insert s [] = s ∷ []
text_insert s (t ∷ ts) = elim (compare s t) [
  | Ordering.lt ↦ s ∷ t ∷ ts
  | Ordering.eq ↦ t ∷ ts
  | Ordering.gt ↦ t ∷ text_insert s ts
]

text_set : List String → List String
text_set [] = []
text_set (s ∷ ss) = text_insert s (text_set ss)

pub get_function_returns : String → CallGraph → List String
get_function_returns func g = text_set (
    map (λ id. display_for id g)
      (gather (λ id. Map.get_list id g.relations.function_returns) (resolve_usr_ids func g)))
