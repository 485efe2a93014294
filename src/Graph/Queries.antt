-- ===== src/Graph/Queries.antt =====
-- `calleeRefsOf` and `callerRefsOf` of src/callgraph/CallGraph.cpp: the stored edges of a function,
-- virtual dispatch expanded through the override relation, and edges through a returned function
-- pointer joined with the functions that are returned.
pub mod Emission
pub mod Bodies
pub mod Links
pub mod Shown
pub mod Callees
pub mod Callers
mod Tests
use giga_drill_breaker.Common.{
  ℕ, List, [], ◌∷◌, ◌++◌, Bool, true, false, not, ◌&&◌, ◌||◌, none, some, get_elem?, ltb, map,
  if◌then◌else◌, ite, ℕ_discrete, nat_eq,
}
use giga_drill_breaker.Common.Map
use giga_drill_breaker.Graph.Types.{
  StoredEdge, EdgeRef, EdgeKind, virtual_dispatch, function_pointer, function_pointer_return,
  thread_entry, Confidence, plausible, synchronous, Kind-discrete, Confidence-discrete,
  Context-discrete,
}
use giga_drill_breaker.Graph.Edges.{EdgeTable}
use giga_drill_breaker.Graph.Relations.{Relations}
use giga_drill_breaker.Graph.Closure.{transitive_closure}

-- Which end of the edges a query fixes; the set of seen pairs holds the other end and the call site.
pub data Side : Type 0 where
  outgoing incoming : Side

pub record Gather : Type 0 where
  pub seen : List (ℕ × ℕ)
  pub result : List EdgeRef

abbrev pub has_pair : ℕ → ℕ → List (ℕ × ℕ) → Bool
has_pair a s [] = false
has_pair a s ((b, u) ∷ seen) =
    (ite (ℕ_discrete b a) (ite (ℕ_discrete u s) true false) false) || has_pair a s seen

abbrev pub far_end : Side → EdgeRef → ℕ
far_end outgoing r = r.callee
far_end incoming r = r.caller

abbrev pub is_live : StoredEdge → Bool
is_live se = ltb 0 se.refs

abbrev pub is_kind : EdgeKind → StoredEdge → Bool
is_kind k se = ite (Kind-discrete se.kind k) true false

abbrev pub is_expandable : StoredEdge → Bool
is_expandable se =
    is_live se
    && is_kind virtual_dispatch se
    && ite (Confidence-discrete se.confidence plausible) true false

abbrev pub is_deferred : StoredEdge → Bool
is_deferred se = is_live se && is_kind function_pointer_return se

-- A deferred edge shows as an entry of a thread if the pointer is run by a concurrency primitive.
pub joined_kind : StoredEdge → EdgeKind
joined_kind se = ite (Context-discrete se.exec_context synchronous) function_pointer thread_entry

pub ref_of : StoredEdge → ℕ → EdgeKind → EdgeRef
ref_of se callee kind = record {
  caller = se.caller;
  callee = callee;
  call_site = se.call_site;
  kind = kind;
  confidence = se.confidence;
  exec_context = se.exec_context;
  indirection_depth = se.indirection_depth;
}

-- `if (!seen.insert({end, site}).second) continue; result.push_back(...)`
pub emit : Side → EdgeRef → Gather → Gather
emit side r g =
    if has_pair (far_end side r) r.call_site g.seen
    then g
    else record { seen = (far_end side r, r.call_site) ∷ g.seen; result = g.result ++ r ∷ [] }

pub emit_all : Side → List EdgeRef → Gather → Gather
emit_all side [] g = g
emit_all side (r ∷ rs) g = emit_all side rs (emit side r g)

-- `seen.insert({end, site})`, the outcome ignored, then `result.push_back(...)`.
pub put : Side → Bool → EdgeRef → Gather → Gather
put side marks r g = record {
  seen = if marks then (far_end side r, r.call_site) ∷ g.seen else g.seen;
  result = g.result ++ r ∷ [];
}

-- A loop over the indices of an adjacency vector.
pub for_edges : (StoredEdge → Gather → Gather) → List StoredEdge → List ℕ → Gather → Gather
for_edges body edges [] g = g
for_edges body edges (i ∷ is) g =
    for_edges body edges is (elim (get_elem? edges i) [ none ↦ g | some se ↦ body se g ])

-- The first loops: stored edges, without tombstones and deferred ones. Of a function's own edges
-- only virtual dispatch is marked as seen, of the edges into it all are.
pub stored_out : StoredEdge → Gather → Gather
stored_out se g =
    if is_live se && not (is_kind function_pointer_return se)
    then put outgoing (is_kind virtual_dispatch se) (ref_of se se.callee se.kind) g
    else g

pub stored_in : StoredEdge → Gather → Gather
stored_in se g =
    if is_live se && not (is_kind function_pointer_return se)
    then put incoming true (ref_of se se.callee se.kind) g
    else g

-- Dispatch to each transitive override of the static target.
pub dispatch_out : Relations → StoredEdge → Gather → Gather
dispatch_out r se g =
    if is_expandable se
    then emit_all outgoing
        (map (λ ov. ref_of se ov se.kind) (transitive_closure se.callee r.method_overrides)) g
    else g

pub deferred_out : Relations → StoredEdge → Gather → Gather
deferred_out r se g =
    if is_deferred se
    then emit_all outgoing
        (map (λ ret. ref_of se ret (joined_kind se)) (Map.get_list se.callee r.function_returns)) g
    else g

pub dispatch_in : ℕ → StoredEdge → Gather → Gather
dispatch_in callee se g = if is_expandable se then emit incoming (ref_of se callee se.kind) g else g

pub deferred_in : ℕ → StoredEdge → Gather → Gather
deferred_in callee se g =
    if is_deferred se then emit incoming (ref_of se callee (joined_kind se)) g else g

-- The loop over the edges into each of several functions.
pub for_callees : (StoredEdge → Gather → Gather) → EdgeTable → List ℕ → Gather → Gather
for_callees body t [] g = g
for_callees body t (f ∷ fs) g =
    for_callees body t fs (for_edges body t.edges (Map.get_list f t.in_edges) g)

pub nothing_yet : Gather
nothing_yet = record { seen = []; result = [] }

pub callee_refs_of : EdgeTable → Relations → ℕ → List EdgeRef
callee_refs_of t r caller =
    let out = Map.get_list caller t.out_edges in
    let g = for_edges stored_out t.edges out nothing_yet in
    let g' = for_edges (dispatch_out r) t.edges out g in
    (for_edges (deferred_out r) t.edges out g').result

pub caller_refs_of : EdgeTable → Relations → ℕ → List EdgeRef
caller_refs_of t r callee =
    let g = for_edges stored_in t.edges (Map.get_list callee t.in_edges) nothing_yet in
    let g' = for_callees (dispatch_in callee) t (transitive_closure callee r.override_bases) g in
    (for_callees (deferred_in callee) t (Map.get_list callee r.returned_by) g').result
