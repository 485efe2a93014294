-- ===== src/Graph/Queries/Shown.antt =====
-- What each query shows, as a test on the stored edges that its loops pass over.
use giga_drill_breaker.Common.{ℕ, ◌≡◌, Bool, ◌&&◌, ◌||◌, arith, contains, nat_eq}
use giga_drill_breaker.Common.Map
use giga_drill_breaker.Graph.Types.{StoredEdge}
use giga_drill_breaker.Graph.Edges.{EdgeTable}
use giga_drill_breaker.Graph.Relations.{Relations}
use giga_drill_breaker.Graph.Closure.{transitive_closure}
use giga_drill_breaker.Graph.Queries.{
  Side, outgoing, incoming, nothing_yet, is_expandable, is_deferred, for_edges, for_callees,
  stored_out, stored_in, dispatch_out, dispatch_in, deferred_out, deferred_in, callee_refs_of,
  caller_refs_of,
}
use giga_drill_breaker.Graph.Queries.Emission.{
  shows, IsFaithful, any_edge, any_callee, for_edges-IsFaithful, shows-for_edges,
  for_callees-IsFaithful, shows-for_callees,
}
use giga_drill_breaker.Graph.Queries.Bodies.{
  is_stored, same, stored_out-IsBody, stored_in-IsBody, dispatch_out-IsBody, dispatch_in-IsBody,
  deferred_out-IsBody, deferred_in-IsBody,
}

nothing-IsFaithful : (side : Side) → IsFaithful side nothing_yet
unfolding nothing_yet
nothing-IsFaithful side a s h = absurd (ground arith)

module _ (t : EdgeTable) (r : Relations) (c x s : ℕ) where
  abbrev pub stored_test : StoredEdge → Bool
  stored_test se = is_stored se && (same se.callee x && same se.call_site s)

  abbrev pub dispatch_test : StoredEdge → Bool
  dispatch_test se =
      is_expandable se
      && (contains (transitive_closure se.callee r.method_overrides) x && same se.call_site s)

  abbrev pub deferred_test : StoredEdge → Bool
  deferred_test se =
      is_deferred se
      && (contains (Map.get_list se.callee r.function_returns) x && same se.call_site s)

  pub shows-callee_refs_of : shows outgoing x s (callee_refs_of t r c) ≡ (
      (any_edge stored_test t.edges (Map.get_list c t.out_edges)
        || any_edge dispatch_test t.edges (Map.get_list c t.out_edges))
      || any_edge deferred_test t.edges (Map.get_list c t.out_edges))
  unfolding callee_refs_of nothing_yet
  shows-callee_refs_of =
      let out = Map.get_list c t.out_edges in
      let ok = nothing-IsFaithful outgoing in
      let g = for_edges stored_out t.edges out nothing_yet in
      let ok1 =
        for_edges-IsFaithful outgoing stored_out _ stored_out-IsBody t.edges out nothing_yet ok in
      let g' = for_edges (dispatch_out r) t.edges out g in
      let ok2 =
        for_edges-IsFaithful outgoing (dispatch_out r) _ (dispatch_out-IsBody r) t.edges out g
          ok1 in
      rw (
        shows-for_edges outgoing (deferred_out r) _ (deferred_out-IsBody r) t.edges out g' x s ok2,
        shows-for_edges outgoing (dispatch_out r) _ (dispatch_out-IsBody r) t.edges out g x s ok1,
        shows-for_edges outgoing stored_out _ stored_out-IsBody t.edges out nothing_yet x s ok,
      )

  abbrev pub caller_test : (StoredEdge → Bool) → StoredEdge → Bool
  caller_test p se = p se && (same se.caller c && same se.call_site s)

  pub shows-caller_refs_of : shows incoming c s (caller_refs_of t r x) ≡ (
      (any_edge (caller_test is_stored) t.edges (Map.get_list x t.in_edges)
        || any_callee (caller_test is_expandable) t (transitive_closure x r.override_bases))
      || any_callee (caller_test is_deferred) t (Map.get_list x r.returned_by))
  unfolding caller_refs_of nothing_yet
  shows-caller_refs_of =
      let into = Map.get_list x t.in_edges in
      let bases = transitive_closure x r.override_bases in
      let ok = nothing-IsFaithful incoming in
      let g = for_edges stored_in t.edges into nothing_yet in
      let ok1 =
        for_edges-IsFaithful incoming stored_in _ stored_in-IsBody t.edges into nothing_yet ok in
      let g' = for_callees (dispatch_in x) t bases g in
      let ok2 =
        for_callees-IsFaithful incoming (dispatch_in x) _ (dispatch_in-IsBody x) t bases g ok1 in
      rw (
        shows-for_callees incoming (deferred_in x) _ (deferred_in-IsBody x) t
            (Map.get_list x r.returned_by) g' c s ok2,
        shows-for_callees incoming (dispatch_in x) _ (dispatch_in-IsBody x) t bases g c s ok1,
        shows-for_edges incoming stored_in _ stored_in-IsBody t.edges into nothing_yet c s ok,
      )
