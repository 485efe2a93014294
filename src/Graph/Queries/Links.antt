-- ===== src/Graph/Queries/Links.antt =====
-- One description of the links between functions, for both queries, and what the adjacency vectors
-- hold of it.
use giga_drill_breaker.Common.{
  ℕ, ◌<◌, ◌≡◌, ◌≢◌, ◌⊎◌, inl, inr, List, [], ◌∷◌, Bool, true, some, arith, contains,
  contains_iff_count, get_elem?, nat_eq, Option-cases, Bool-cases,
}
use giga_drill_breaker.Common.Map
use giga_drill_breaker.Graph.Types.{
  StoredEdge, function_pointer_return, virtual_dispatch, plausible,
}
use giga_drill_breaker.Graph.Edges.{EdgeTable}
use giga_drill_breaker.Graph.Edges.Consistent.{IsConsistent}
use giga_drill_breaker.Graph.Relations.{Relations}
use giga_drill_breaker.Graph.Closure.Reachable.{Related, Reach}
use giga_drill_breaker.Graph.Queries.Emission.{any_edge, any_callee}

-- A stored edge leads to `x`: it names `x`; or it is a dispatch that may land in `x`, which
-- overrides its static target; or it runs a pointer that its callee returns, and that may be `x`.
abbrev pub Leads : Relations → StoredEdge → ℕ → Type 0
Leads r se x =
    (se.kind ≢ function_pointer_return) × (se.callee ≡ x)
    ⊎ (se.kind ≡ virtual_dispatch)
      × (se.confidence ≡ plausible)
      × Reach r.method_overrides se.callee x
      × (x ≢ se.callee)
    ⊎ (se.kind ≡ function_pointer_return) × Related r.function_returns se.callee x

-- At call site `s` the function `c` may call `x`.
abbrev pub Linked : EdgeTable → Relations → ℕ → ℕ → ℕ → Type 0
Linked t r c x s =
    (i : ℕ) × (se : StoredEdge) × (get_elem? t.edges i ≡ some se)
    × (0 < se.refs)
    × (se.caller ≡ c)
    × (se.call_site ≡ s)
    × Leads r se x

pub any_edge_sound :
    (p : StoredEdge → Bool) (edges : List StoredEdge) (is : List ℕ)
    → any_edge p edges is ≡ true
    → (i : ℕ) × (se : StoredEdge) × (contains is i ≡ true)
      × (get_elem? edges i ≡ some se)
      × (p se ≡ true)
any_edge_sound p edges [] h = absurd (ground arith)
any_edge_sound p edges (i ∷ is) h = elim (Bool-cases (any_edge p edges is)) [
  | inl later ↦
      let (j, se, m, at, ok) = any_edge_sound p edges is later in (j, se, ground arith, at, ok)
  | inr not_later ↦ elim (Option-cases (get_elem? edges i)) [
    | inl gone ↦ absurd (ground arith)
    | inr (se, at) ↦ (i, se, ground arith, at, ground arith)
  ]
]

pub any_edge_complete :
    (p : StoredEdge → Bool) (edges : List StoredEdge) (is : List ℕ) (i : ℕ) (se : StoredEdge)
    → contains is i ≡ true
    → get_elem? edges i ≡ some se
    → p se ≡ true
    → any_edge p edges is ≡ true
any_edge_complete p edges [] i se m at ok = absurd (ground arith)
any_edge_complete p edges (j ∷ is) i se m at ok = ground (arith, any_edge_complete p edges is i se)

pub any_callee_sound :
    (p : StoredEdge → Bool) (t : EdgeTable) (fs : List ℕ)
    → any_callee p t fs ≡ true
    → (f : ℕ) × (contains fs f ≡ true) × (any_edge p t.edges (Map.get_list f t.in_edges) ≡ true)
any_callee_sound p t [] h = absurd (ground arith)
any_callee_sound p t (f ∷ fs) h = elim (Bool-cases (any_callee p t fs)) [
  | inl later ↦ let (g, m, ok) = any_callee_sound p t fs later in (g, ground arith, ok)
  | inr not_later ↦ (f, ground arith, ground arith)
]

pub any_callee_complete :
    (p : StoredEdge → Bool) (t : EdgeTable) (fs : List ℕ) (f : ℕ)
    → contains fs f ≡ true
    → any_edge p t.edges (Map.get_list f t.in_edges) ≡ true
    → any_callee p t fs ≡ true
any_callee_complete p t [] f m ok = absurd (ground arith)
any_callee_complete p t (g ∷ fs) f m ok = ground (arith, any_callee_complete p t fs f)

module _ (t : EdgeTable) (ok : IsConsistent t) where
  pub out_sound :
      (c i : ℕ) (se : StoredEdge)
      → contains (Map.get_list c t.out_edges) i ≡ true
      → get_elem? t.edges i ≡ some se
      → (0 < se.refs) × (se.caller ≡ c)
  out_sound c i se m at =
      ground (arith, ok.outs c i, contains_iff_count i (Map.get_list c t.out_edges))

  pub out_complete :
      (i : ℕ) (se : StoredEdge)
      → get_elem? t.edges i ≡ some se
      → 0 < se.refs
      → contains (Map.get_list se.caller t.out_edges) i ≡ true
  out_complete i se at live =
      ground (arith, ok.outs se.caller i, contains_iff_count i (Map.get_list se.caller t.out_edges))

  pub in_sound :
      (c i : ℕ) (se : StoredEdge)
      → contains (Map.get_list c t.in_edges) i ≡ true
      → get_elem? t.edges i ≡ some se
      → (0 < se.refs) × (se.callee ≡ c)
  in_sound c i se m at =
      ground (arith, ok.ins c i, contains_iff_count i (Map.get_list c t.in_edges))

  pub in_complete :
      (i : ℕ) (se : StoredEdge)
      → get_elem? t.edges i ≡ some se
      → 0 < se.refs
      → contains (Map.get_list se.callee t.in_edges) i ≡ true
  in_complete i se at live =
      ground (arith, ok.ins se.callee i, contains_iff_count i (Map.get_list se.callee t.in_edges))
