-- ===== src/Graph/Queries/Emission.antt =====
-- What the loops of the two queries add to the result.
use giga_drill_breaker.Common.{
  ℕ, ◌≡◌, inl, inr, List, [], ◌∷◌, ◌++◌, Bool, true, false, ◌||◌, none, some, arith, get_elem?, ite,
  ℕ_discrete, nat_eq, Option-cases,
}
use giga_drill_breaker.Common.Map
use giga_drill_breaker.Graph.Types.{StoredEdge, EdgeRef}
use giga_drill_breaker.Graph.Edges.{EdgeTable}
use giga_drill_breaker.Graph.Queries.{
  Side, Gather, has_pair, far_end, emit, emit_all, put, for_edges, for_callees,
}

-- Whether a reference has this far end and call site, and whether one of a list has.
abbrev pub fits : Side → ℕ → ℕ → EdgeRef → Bool
fits side a s r =
    ite (ℕ_discrete (far_end side r) a) (ite (ℕ_discrete r.call_site s) true false) false

abbrev pub shows : Side → ℕ → ℕ → List EdgeRef → Bool
shows side a s [] = false
shows side a s (r ∷ rs) = fits side a s r || shows side a s rs

-- What is marked as seen is in the result.
abbrev pub IsFaithful : Side → Gather → Type 0
IsFaithful side g = (a s : ℕ) → has_pair a s g.seen ≡ true → shows side a s g.result ≡ true

shows-concat :
    (side : Side) (a s : ℕ) (rs : List EdgeRef) (r : EdgeRef)
    → shows side a s (rs ++ r ∷ []) ≡ (shows side a s rs || fits side a s r)
shows-concat side a s [] r = ground arith
shows-concat side a s (q ∷ rs) r = ground (arith, shows-concat side a s rs r)

module _ (side : Side) (r : EdgeRef) (g : Gather) (ok : IsFaithful side g) where
  pub shows-emit :
      (a s : ℕ)
      → shows side a s (emit side r g).result ≡ (shows side a s g.result || fits side a s r)
  unfolding emit
  shows-emit a s =
      ground (arith, ok (far_end side r) r.call_site, ok a s, shows-concat side a s g.result r)

  pub emit-IsFaithful : IsFaithful side (emit side r g)
  unfolding emit
  emit-IsFaithful a s h = ground (arith, ok a s, shows-concat side a s g.result r)

  pub shows-put :
      (marks : Bool) (a s : ℕ)
      → shows side a s (put side marks r g).result ≡ (shows side a s g.result || fits side a s r)
  unfolding put
  shows-put marks a s = shows-concat side a s g.result r

  pub put-IsFaithful : (marks : Bool) → IsFaithful side (put side marks r g)
  unfolding put
  put-IsFaithful marks a s h = ground (arith, ok a s, shows-concat side a s g.result r)

pub emit_all-IsFaithful :
    (side : Side) (rs : List EdgeRef) (g : Gather)
    → IsFaithful side g
    → IsFaithful side (emit_all side rs g)
unfolding emit_all
emit_all-IsFaithful side [] g ok = ok
emit_all-IsFaithful side (r ∷ rs) g ok =
    emit_all-IsFaithful side rs (emit side r g) (emit-IsFaithful side r g ok)

pub shows-emit_all :
    (side : Side) (rs : List EdgeRef) (g : Gather) (a s : ℕ)
    → IsFaithful side g
    → shows side a s (emit_all side rs g).result ≡ (shows side a s g.result || shows side a s rs)
unfolding emit_all
shows-emit_all side [] g a s ok = ground arith
shows-emit_all side (r ∷ rs) g a s ok = ground (
  arith,
  shows-emit_all side rs (emit side r g) a s (emit-IsFaithful side r g ok),
  shows-emit side r g ok a s,
)

-- Some edge that the indices name passes the test.
abbrev pub any_edge : (StoredEdge → Bool) → List StoredEdge → List ℕ → Bool
any_edge p edges [] = false
any_edge p edges (i ∷ is) =
    (elim (get_elem? edges i) [ none ↦ false | some se ↦ p se ]) || any_edge p edges is

abbrev pub any_callee : (StoredEdge → Bool) → EdgeTable → List ℕ → Bool
any_callee p t [] = false
any_callee p t (f ∷ fs) = any_edge p t.edges (Map.get_list f t.in_edges) || any_callee p t fs

-- A body adds the references that `adds` says, and keeps the seen pairs faithful.
pub record IsBody (side : Side) (body : StoredEdge → Gather → Gather)
    (adds : ℕ → ℕ → StoredEdge → Bool) : Type 0 where
  pub keeps : (se : StoredEdge) (g : Gather) → IsFaithful side g → IsFaithful side (body se g)
  pub shown :
      (se : StoredEdge) (g : Gather) (a s : ℕ)
      → IsFaithful side g
      → shows side a s (body se g).result ≡ (shows side a s g.result || adds a s se)

module _ (side : Side) (body : StoredEdge → Gather → Gather) (adds : ℕ → ℕ → StoredEdge → Bool)
    (ok : IsBody side body adds) where
  pub for_edges-IsFaithful :
      (edges : List StoredEdge) (is : List ℕ) (g : Gather)
      → IsFaithful side g
      → IsFaithful side (for_edges body edges is g)
  unfolding for_edges
  for_edges-IsFaithful edges [] g h = h
  for_edges-IsFaithful edges (i ∷ is) g h = elim (Option-cases (get_elem? edges i)) [
    | inl none_there ↦ rw (none_there, for_edges) (for_edges-IsFaithful edges is g h)
    | inr (se, at) ↦
        rw (at, for_edges) (for_edges-IsFaithful edges is (body se g) (ok.keeps se g h))
  ]

  pub shows-for_edges :
      (edges : List StoredEdge) (is : List ℕ) (g : Gather) (a s : ℕ)
      → IsFaithful side g
      → shows side a s (for_edges body edges is g).result
        ≡ (shows side a s g.result || any_edge (adds a s) edges is)
  unfolding for_edges
  shows-for_edges edges [] g a s h = ground arith
  shows-for_edges edges (i ∷ is) g a s h = elim (Option-cases (get_elem? edges i)) [
    | inl none_there ↦ rw (none_there, for_edges, any_edge) (shows-for_edges edges is g a s h)
    | inr (se, at) ↦
        rw (at, for_edges, any_edge)
          (ground (
            arith,
            shows-for_edges edges is (body se g) a s (ok.keeps se g h),
            ok.shown se g a s h,
          ))
  ]

  pub for_callees-IsFaithful :
      (t : EdgeTable) (fs : List ℕ) (g : Gather)
      → IsFaithful side g
      → IsFaithful side (for_callees body t fs g)
  unfolding for_callees
  for_callees-IsFaithful t [] g h = h
  for_callees-IsFaithful t (f ∷ fs) g h =
      for_callees-IsFaithful t fs _ (for_edges-IsFaithful t.edges (Map.get_list f t.in_edges) g h)

  pub shows-for_callees :
      (t : EdgeTable) (fs : List ℕ) (g : Gather) (a s : ℕ)
      → IsFaithful side g
      → shows side a s (for_callees body t fs g).result
        ≡ (shows side a s g.result || any_callee (adds a s) t fs)
  unfolding for_callees
  shows-for_callees t [] g a s h = ground arith
  shows-for_callees t (f ∷ fs) g a s h =
      let is = Map.get_list f t.in_edges in
      ground (
        arith,
        shows-for_callees t fs (for_edges body t.edges is g) a s
            (for_edges-IsFaithful t.edges is g h),
        shows-for_edges t.edges is g a s h,
      )
