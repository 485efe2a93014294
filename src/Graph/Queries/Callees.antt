-- ===== src/Graph/Queries/Callees.antt =====
-- `calleeRefsOf` against the links out of a function.
use giga_drill_breaker.Common.{ℕ, ◌≡◌, ◌↔◌, inl, inr, true, arith, contains, nat_eq, Bool-cases}
use giga_drill_breaker.Common.Map
use giga_drill_breaker.Graph.Edges.{EdgeTable}
use giga_drill_breaker.Graph.Edges.Consistent.{IsConsistent}
use giga_drill_breaker.Graph.Relations.{Relations}
use giga_drill_breaker.Graph.Closure.Reachable.{contains-transitive_closure}
use giga_drill_breaker.Graph.Queries.{outgoing, callee_refs_of}
use giga_drill_breaker.Graph.Queries.Emission.{shows, any_edge}
use giga_drill_breaker.Graph.Queries.Links.{
  Linked, any_edge_sound, any_edge_complete, out_sound, out_complete,
}
use giga_drill_breaker.Graph.Queries.Shown.{
  stored_test, dispatch_test, deferred_test, shows-callee_refs_of,
}

module _ (t : EdgeTable) (r : Relations) (ok : IsConsistent t) (c x s : ℕ) where
  pub callee_sound : shows outgoing x s (callee_refs_of t r c) ≡ true → Linked t r c x s
  callee_sound h =
      let out = Map.get_list c t.out_edges in
      elim (Bool-cases (any_edge (stored_test t r c x s) t.edges out)) [
        | inl stored ↦
            let (i, se, m, at, test) = any_edge_sound (stored_test t r c x s) t.edges out stored in
            let (live, caller) = out_sound t ok c i se m at in
            (i, se, at, live, caller, ground arith, inl (ground arith, ground arith))
        | inr not_stored ↦ elim (Bool-cases (any_edge (dispatch_test t r c x s) t.edges out)) [
          | inl dispatch ↦
              let (i, se, m, at, test) =
                any_edge_sound (dispatch_test t r c x s) t.edges out dispatch in
              let (live, caller) = out_sound t ok c i se m at in
              let (reach, ne) =
                (contains-transitive_closure se.callee r.method_overrides x).0 (ground arith) in
              (
                i,
                se,
                at,
                live,
                caller,
                ground arith,
                inr (inl (ground arith, ground arith, reach, ne)),
              )
          | inr not_dispatch ↦
              let deferred : any_edge (deferred_test t r c x s) t.edges out ≡ true =
                ground (arith, shows-callee_refs_of t r c x s) in
              let (i, se, m, at, test) =
                any_edge_sound (deferred_test t r c x s) t.edges out deferred in
              let (live, caller) = out_sound t ok c i se m at in
              (i, se, at, live, caller, ground arith, inr (inr (ground arith, ground arith)))
        ]
      ]

  pub callee_complete : Linked t r c x s → shows outgoing x s (callee_refs_of t r c) ≡ true
  callee_complete (i, se, at, live, caller, site, leads) =
      let out = Map.get_list c t.out_edges in
      let m : contains out i ≡ true = ground (arith, out_complete t ok i se at live) in
      elim leads [
        | inl (kind, callee) ↦ ground (
          arith,
          shows-callee_refs_of t r c x s,
          any_edge_complete (stored_test t r c x s) t.edges out i se m at,
        )
        | inr (inl (kind, conf, reach, ne)) ↦ ground (
          arith,
          shows-callee_refs_of t r c x s,
          (contains-transitive_closure se.callee r.method_overrides x).1 (reach, ne),
          any_edge_complete (dispatch_test t r c x s) t.edges out i se m at,
        )
        | inr (inr (kind, ret)) ↦ ground (
          arith,
          shows-callee_refs_of t r c x s,
          any_edge_complete (deferred_test t r c x s) t.edges out i se m at,
        )
      ]

  -- In a consistent table, `calleeRefsOf` shows an edge to `x` at call site `s` exactly when a
  -- live edge of the function at `s` names `x`, or is a plausible virtual dispatch on a method
  -- that `x` transitively overrides, or runs a pointer returned by a function that may return `x`.
  pub callee_refs_of_iff : (shows outgoing x s (callee_refs_of t r c) ≡ true) ↔ Linked t r c x s
  callee_refs_of_iff = (callee_sound, callee_complete)
