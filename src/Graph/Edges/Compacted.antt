-- ===== src/Graph/Edges/Compacted.antt =====
-- What `compact` leaves.
use giga_drill_breaker.Common.{
  ℕ, suc, ◌+◌, ◌<◌, ◌≡◌, refl, ◌∙◌, inl, inr, some, List, [], ◌∷◌, arith, length, get_elem?, ltb,
  Bool-cases, get_elem?-concat,
}
use giga_drill_breaker.Graph.Types.{StoredEdge, EdgeKey}
use giga_drill_breaker.Graph.Edges.{EdgeTable, Compaction, empty, compact_edges, compact}
use giga_drill_breaker.Graph.Edges.Consistent.{
  IsConsistent, live_edges, live_edges-append, refs_of, refs_of-empty,
}
use giga_drill_breaker.Graph.Edges.Compacting.{
  move, compact_edges_dead, compact_edges_live, compact_edges-IsMoving, refs_of-compact_edges,
  weight-refs_of, start-IsMoving,
}

-- Every edge of the list is live.
abbrev pub AllLive : List StoredEdge → Type 0
AllLive es = (i : ℕ) (e : StoredEdge) → get_elem? es i ≡ some e → 0 < e.refs

AllLive-move :
    (old : ℕ) (e : StoredEdge) (c : Compaction)
    → 0 < e.refs
    → AllLive c.table.edges
    → AllLive (move old e c).table.edges
AllLive-move old e c live all i e' at = ground (arith, get_elem?-concat c.table.edges e i, all i e')

compact_edges-AllLive :
    (old : ℕ) (es : List StoredEdge) (c : Compaction)
    → AllLive c.table.edges
    → AllLive (compact_edges old es c).table.edges
unfolding compact_edges
compact_edges-AllLive old [] c all = all
compact_edges-AllLive old (e ∷ es) c all = elim (Bool-cases (ltb 0 e.refs)) [
  | inr dead ↦ rw (compact_edges_dead old e es c dead) (compact_edges-AllLive (suc old) es c all)
  | inl live ↦
      rw (compact_edges_live old e es c live) (
        compact_edges-AllLive (suc old) es (move old e c) (AllLive-move old e c (ground arith) all))
]

live_edges-compact_edges :
    (old : ℕ) (es : List StoredEdge) (c : Compaction)
    → live_edges (compact_edges old es c).table.edges ≡ live_edges c.table.edges + live_edges es
unfolding compact_edges
live_edges-compact_edges old [] c = omega arith
live_edges-compact_edges old (e ∷ es) c = elim (Bool-cases (ltb 0 e.refs)) [
  | inr dead ↦
      ground (arith, compact_edges_dead old e es c dead, live_edges-compact_edges (suc old) es c)
  | inl live ↦ ground (
    arith,
    compact_edges_live old e es c live,
    live_edges-append c.table.edges e,
    live_edges-compact_edges (suc old) es (move old e c),
  )
]

length_of_AllLive : (es : List StoredEdge) → AllLive es → length es ≡ live_edges es
length_of_AllLive [] all = refl
length_of_AllLive (e ∷ es) all =
    ground (arith, all 0 e refl, length_of_AllLive es (λ i. all (suc i)))

nothing_plus : (k : EdgeKey) {n : ℕ} → refs_of k empty + n ≡ n
nothing_plus k = omega (arith, refs_of-empty k)

module _ (t : EdgeTable) (ok : IsConsistent t) where
  -- `compact` leaves a consistent table consistent.
  pub compact-IsConsistent : IsConsistent (compact t)
  unfolding compact
  compact-IsConsistent =
      let start : Compaction = record { table = empty; remap = [] } in
      let done = (compact_edges-IsMoving 0 t.edges start (start-IsMoving t ok)).ok in
      record {
        index_sound = done.index_sound;
        index_full = done.index_full;
        outs = done.outs;
        ins = done.ins;
        counted =
            unfold empty in omega (arith, ok.counted, live_edges-compact_edges 0 t.edges start);
      }

  -- `compact` keeps the registrations of every content of a consistent table.
  pub refs_of-compact : (k : EdgeKey) → refs_of k (compact t) ≡ refs_of k t
  unfolding compact empty
  refs_of-compact k =
      refs_of-compact_edges 0 t.edges (record { table = empty; remap = [] }) k (start-IsMoving t ok)
      ∙ nothing_plus k
      ∙ weight-refs_of t ok k

  -- After `compact` of a consistent table every stored edge is live, and there are as many as the
  -- edge counter says.
  pub compact_no_tombstones :
      AllLive (compact t).edges × (length (compact t).edges ≡ t.live_edge_count)
  unfolding compact empty
  compact_no_tombstones =
      let start : Compaction = record { table = empty; remap = [] } in
      let all = compact_edges-AllLive 0 t.edges start (λ i e at. absurd (ground arith)) in
      (
        all,
        omega
            (arith, length_of_AllLive _ all, ok.counted, live_edges-compact_edges 0 t.edges start),
      )
