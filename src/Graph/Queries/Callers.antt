-- ===== src/Graph/Queries/Callers.antt =====
-- `callerRefsOf` against the links into a function, and both queries together.
use giga_drill_breaker.Common.{
  ℕ, ◌≡◌, refl, sym, ◌∙◌, ◌↔◌, inl, inr, Bool, true, false, arith, contains, nat_eq, Bool-cases,
}
use giga_drill_breaker.Common.Map
use giga_drill_breaker.Graph.Edges.{EdgeTable}
use giga_drill_breaker.Graph.Edges.Consistent.{IsConsistent}
use giga_drill_breaker.Graph.Relations.{Relations, IsMirrored}
use giga_drill_breaker.Graph.Closure.{Relation, transitive_closure}
use giga_drill_breaker.Graph.Closure.Reachable.{
  Related, Reach, one, more, contains-transitive_closure,
}
use giga_drill_breaker.Graph.Queries.{
  outgoing, incoming, is_expandable, is_deferred, callee_refs_of, caller_refs_of,
}
use giga_drill_breaker.Graph.Queries.Emission.{shows, any_edge, any_callee}
use giga_drill_breaker.Graph.Queries.Bodies.{is_stored}
use giga_drill_breaker.Graph.Queries.Links.{
  Linked, any_edge_sound, any_edge_complete, any_callee_sound, any_callee_complete, in_sound,
  in_complete,
}
use giga_drill_breaker.Graph.Queries.Shown.{caller_test, shows-caller_refs_of}
use giga_drill_breaker.Graph.Queries.Callees.{callee_refs_of_iff}

Reach-prepend : {m : Relation} {a b c : ℕ} → Related m a b → Reach m b c → Reach m a c
Reach-prepend r (one q) = more (one r) q
Reach-prepend r (more p q) = more (Reach-prepend r p) q

-- The mirrored relation leads back.
Reach-mirror :
    (m back : Relation)
    → ((a b : ℕ) → contains (Map.get_list a m) b ≡ contains (Map.get_list b back) a)
    → {a b : ℕ} → Reach m a b
    → Reach back b a
Reach-mirror m back mirror {a} (one {b} r) = one (sym (mirror a b) ∙ r)
Reach-mirror m back mirror (more {b} {c} p r) =
    Reach-prepend (sym (mirror b c) ∙ r) (Reach-mirror m back mirror p)

Bool-eq : (a b : Bool) → (a ≡ true → b ≡ true) → (b ≡ true → a ≡ true) → a ≡ b
Bool-eq true b f g = sym (f refl)
Bool-eq false true f g = g refl
Bool-eq false false f g = refl

module _ (t : EdgeTable) (r : Relations) (ok : IsConsistent t) (mirrored : IsMirrored r)
    (c x s : ℕ) where
  caller_sound : shows incoming c s (caller_refs_of t r x) ≡ true → Linked t r c x s
  caller_sound h =
      let into = Map.get_list x t.in_edges in
      let bases = transitive_closure x r.override_bases in
      elim (Bool-cases (any_edge (caller_test t r c x s is_stored) t.edges into)) [
        | inl stored ↦
            let (i, se, m, at, test) =
              any_edge_sound (caller_test t r c x s is_stored) t.edges into stored in
            let (live, callee) = in_sound t ok x i se m at in
            (i, se, at, live, ground arith, ground arith, inl (ground arith, callee))
        | inr not_stored ↦
            elim (Bool-cases (any_callee (caller_test t r c x s is_expandable) t bases)) [
              | inl dispatch ↦
                  let (f, base, some_edge) =
                    any_callee_sound (caller_test t r c x s is_expandable) t bases dispatch in
                  let (i, se, m, at, test) =
                    any_edge_sound (caller_test t r c x s is_expandable) t.edges
                      (Map.get_list f t.in_edges) some_edge in
                  let (live, callee) = in_sound t ok f i se m at in
                  let (back, ne) = (contains-transitive_closure x r.override_bases f).0 base in
                  let reach : Reach r.method_overrides se.callee x = rw callee (
                    Reach-mirror r.override_bases r.method_overrides
                      (λ a b. sym (mirrored.overrides b a)) back) in
                  (
                    i,
                    se,
                    at,
                    live,
                    ground arith,
                    ground arith,
                    inr (inl (ground arith, ground arith, reach, λ e. ne (sym callee ∙ sym e))),
                  )
              | inr not_dispatch ↦
                  let deferred : any_callee (caller_test t r c x s is_deferred) t
                        (Map.get_list x r.returned_by)
                      ≡ true =
                    ground (arith, shows-caller_refs_of t r c x s) in
                  let (f, returner, some_edge) =
                    any_callee_sound (caller_test t r c x s is_deferred) t
                      (Map.get_list x r.returned_by) deferred in
                  let (i, se, m, at, test) =
                    any_edge_sound (caller_test t r c x s is_deferred) t.edges
                      (Map.get_list f t.in_edges) some_edge in
                  let (live, callee) = in_sound t ok f i se m at in
                  (
                    i,
                    se,
                    at,
                    live,
                    ground arith,
                    ground arith,
                    inr (inr (ground arith, rw callee (mirrored.returns f x ∙ returner))),
                  )
            ]
      ]

  caller_complete : Linked t r c x s → shows incoming c s (caller_refs_of t r x) ≡ true
  caller_complete (i, se, at, live, caller, site, leads) =
      let m = in_complete t ok i se at live in
      let into = Map.get_list se.callee t.in_edges in
      elim leads [
        | inl (kind, callee) ↦ ground (
          arith,
          shows-caller_refs_of t r c x s,
          any_edge_complete (caller_test t r c x s is_stored) t.edges into i se m at,
        )
        | inr (inl (kind, conf, reach, ne)) ↦
            let back = Reach-mirror r.method_overrides r.override_bases mirrored.overrides reach in
            let base =
              (contains-transitive_closure x r.override_bases se.callee).1
                (back, λ e. ne (sym e)) in
            let here =
              any_edge_complete (caller_test t r c x s is_expandable) t.edges into i se m at
                (ground arith) in
            ground (
              arith,
              shows-caller_refs_of t r c x s,
              any_callee_complete (caller_test t r c x s is_expandable) t
                  (transitive_closure x r.override_bases) se.callee base here,
            )
        | inr (inr (kind, ret)) ↦
            let returner = sym (mirrored.returns se.callee x) ∙ ret in
            let here =
              any_edge_complete (caller_test t r c x s is_deferred) t.edges into i se m at
                (ground arith) in
            ground (
              arith,
              shows-caller_refs_of t r c x s,
              any_callee_complete (caller_test t r c x s is_deferred) t
                  (Map.get_list x r.returned_by) se.callee returner here,
            )
      ]

  -- In a consistent table with mirrored relations, `callerRefsOf` shows an edge from `c` at call
  -- site `s` exactly when `c` may call the function there, by the same description as for
  -- `calleeRefsOf`.
  pub caller_refs_of_iff : (shows incoming c s (caller_refs_of t r x) ≡ true) ↔ Linked t r c x s
  caller_refs_of_iff = (caller_sound, caller_complete)

  -- In a consistent table with mirrored relations, the callees of `c` show `x` at a call site
  -- exactly when the callers of `x` show `c` at that site.
  pub queries_dual :
      shows outgoing x s (callee_refs_of t r c) ≡ shows incoming c s (caller_refs_of t r x)
  queries_dual =
      let down = callee_refs_of_iff t r ok c x s in
      Bool-eq _ _ (λ h. caller_complete (down.0 h)) (λ h. down.1 (caller_sound h))
