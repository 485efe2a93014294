-- ===== src/Graph/Edges/Compacting.antt =====
-- The loop of `compact` over the old edges.
use giga_drill_breaker.Common.{
  ℕ, zero, suc, ◌+◌, ◌<◌, ◌≡◌, ◌≢◌, refl, sym, ◌∙◌, ite, true, false, inl, inr, subst, none, some,
  List, [], ◌∷◌, ◌++◌, arith, length, get_elem?, ltb, if◌then◌else◌, Option-cases, Bool-cases,
  nat_eq,
}
use giga_drill_breaker.Common.Map
use giga_drill_breaker.Graph.Types.{StoredEdge, EdgeKey, key_of, edge_key_eq}
use giga_drill_breaker.Graph.Edges.{EdgeTable, Compaction, empty, register, compact_edges}
use giga_drill_breaker.Graph.Edges.Consistent.{
  IsConsistent, live_edges, live_edges-append, refs_of, register_miss, empty-IsConsistent,
}
use giga_drill_breaker.Graph.Edges.Registration.{refs_of-register_miss}

-- The new table with its live edges counted.
abbrev pub recounted : EdgeTable → EdgeTable
recounted t = record t { live_edge_count = live_edges t.edges }

-- One live edge moves over.
abbrev pub move : ℕ → StoredEdge → Compaction → Compaction
move old e c = record {
  table = record c.table {
    edges = c.table.edges ++ e ∷ [];
    edge_index = Map.insert (key_of e) (length c.table.edges) c.table.edge_index;
    out_edges = Map.push e.caller (length c.table.edges) c.table.out_edges;
    in_edges = Map.push e.callee (length c.table.edges) c.table.in_edges;
  };
  remap = Map.insert old (length c.table.edges) c.remap;
}

recounted-move :
    (old : ℕ) (e : StoredEdge) (c : Compaction)
    → 0 < e.refs
    → Map.find (key_of e) c.table.edge_index ≡ none
    → (register e (recounted c.table)).1 ≡ recounted (move old e c).table
unfolding register
recounted-move old e c live miss = ground (arith, live_edges-append c.table.edges e)

-- No content stands at two live edges of the list.
abbrev pub IsDistinct : List StoredEdge → Type 0
IsDistinct es =
    (i j : ℕ) (e e' : StoredEdge)
    → get_elem? es i ≡ some e
    → get_elem? es j ≡ some e'
    → 0 < e.refs
    → 0 < e'.refs
    → key_of e ≡ key_of e'
    → i ≡ j

-- The registrations of a content in a list of edges.
abbrev pub weight : EdgeKey → List StoredEdge → ℕ
weight k [] = 0
weight k (e ∷ es) =
    (if ltb 0 e.refs then ite (edge_key_eq.dec (key_of e) k) e.refs 0 else 0) + weight k es

-- The edges still to be moved are new to the table.
pub record IsMoving (es : List StoredEdge) (c : Compaction) : Type 0 where
  pub ok : IsConsistent (recounted c.table)
  pub fresh :
      (j : ℕ) (e : StoredEdge)
      → get_elem? es j ≡ some e
      → 0 < e.refs
      → Map.find (key_of e) c.table.edge_index ≡ none
  pub distinct : IsDistinct es

IsMoving-move :
    (old : ℕ) (e : StoredEdge) (es : List StoredEdge) (c : Compaction)
    → 0 < e.refs
    → IsMoving (e ∷ es) c
    → IsMoving es (move old e c)
IsMoving-move old e es c live m = record {
  ok =
      subst IsConsistent (recounted-move old e c live (m.fresh 0 e refl live))
        (register_miss (recounted c.table) e m.ok live (m.fresh 0 e refl live));
  fresh = λ j e' at live'. ground (
    arith,
    m.fresh (suc j) e' at live',
    m.distinct 0 (suc j) e e' refl at live live',
    Map.find-insert (key_of e) (key_of e') (length c.table.edges) c.table.edge_index,
  );
  distinct = λ i j e' e'' p q l l' k. omega (arith, m.distinct (suc i) (suc j) e' e'' p q l l' k);
}

IsMoving-skip :
    (e : StoredEdge) (es : List StoredEdge) (c : Compaction) → IsMoving (e ∷ es) c → IsMoving es c
IsMoving-skip e es c m = record {
  ok = m.ok;
  fresh = λ j. m.fresh (suc j);
  distinct = λ i j e' e'' p q l l' k. omega (arith, m.distinct (suc i) (suc j) e' e'' p q l l' k);
}

refs_of-move :
    (old : ℕ) (e : StoredEdge) (c : Compaction) (k : EdgeKey)
    → IsConsistent (recounted c.table)
    → 0 < e.refs
    → Map.find (key_of e) c.table.edge_index ≡ none
    → refs_of k (move old e c).table
      ≡ refs_of k c.table + ite (edge_key_eq.dec (key_of e) k) e.refs 0
refs_of-move old e c k ok live miss =
    subst (λ t. refs_of k t ≡ refs_of k c.table + ite (edge_key_eq.dec (key_of e) k) e.refs 0)
      (recounted-move old e c live miss) (refs_of-register_miss (recounted c.table) e ok miss k)

module _ (old : ℕ) (e : StoredEdge) (es : List StoredEdge) (c : Compaction) where
  pub compact_edges_dead :
      ltb 0 e.refs ≡ false → compact_edges old (e ∷ es) c ≡ compact_edges (suc old) es c
  unfolding compact_edges
  compact_edges_dead dead = ground arith

  pub compact_edges_live :
      ltb 0 e.refs ≡ true → compact_edges old (e ∷ es) c ≡ compact_edges (suc old) es (move old e c)
  unfolding compact_edges
  compact_edges_live live = ground arith

pub compact_edges-IsMoving :
    (old : ℕ) (es : List StoredEdge) (c : Compaction)
    → IsMoving es c
    → IsMoving [] (compact_edges old es c)
unfolding compact_edges
compact_edges-IsMoving old [] c m = m
compact_edges-IsMoving old (e ∷ es) c m = elim (Bool-cases (ltb 0 e.refs)) [
  | inr dead ↦
      subst (IsMoving []) (sym (compact_edges_dead old e es c dead))
        (compact_edges-IsMoving (suc old) es c (IsMoving-skip e es c m))
  | inl live ↦ subst (IsMoving []) (sym (compact_edges_live old e es c live)) (
      compact_edges-IsMoving (suc old) es (move old e c)
        (IsMoving-move old e es c (ground arith) m))
]

pub refs_of-compact_edges :
    (old : ℕ) (es : List StoredEdge) (c : Compaction) (k : EdgeKey)
    → IsMoving es c
    → refs_of k (compact_edges old es c).table ≡ refs_of k c.table + weight k es
unfolding compact_edges
refs_of-compact_edges old [] c k m = omega arith
refs_of-compact_edges old (e ∷ es) c k m = elim (Bool-cases (ltb 0 e.refs)) [
  | inr dead ↦ ground (
    arith,
    compact_edges_dead old e es c dead,
    refs_of-compact_edges (suc old) es c k (IsMoving-skip e es c m),
  )
  | inl live ↦ ground (
    arith,
    compact_edges_live old e es c live,
    refs_of-compact_edges (suc old) es (move old e c) k (IsMoving-move old e es c (ground arith) m),
    refs_of-move old e c k m.ok (ground arith) (m.fresh 0 e refl (ground arith)),
  )
]

weight_absent :
    (k : EdgeKey) (es : List StoredEdge)
    → ((i : ℕ) (e : StoredEdge) → get_elem? es i ≡ some e → 0 < e.refs → key_of e ≢ k)
    → weight k es ≡ 0
weight_absent k [] h = refl
weight_absent k (e ∷ es) h = ground (arith, h 0 e refl, weight_absent k es (λ i. h (suc i)))

weight_present :
    (k : EdgeKey) (es : List StoredEdge) (i : ℕ) (e : StoredEdge)
    → IsDistinct es
    → get_elem? es i ≡ some e
    → 0 < e.refs
    → key_of e ≡ k
    → weight k es ≡ e.refs
weight_present k [] i e d at live key = cc
weight_present k (e' ∷ es) zero e d at live key = ground (
  arith,
  weight_absent k es (λ i e'' at' live' key'.
      absurd (omega (arith, d 0 (suc i) e e'' at at' live live' (key ∙ sym key')))),
)
weight_present k (e' ∷ es) (suc i) e d at live key = ground (
  arith,
  d 0 (suc i) e' e refl at,
  weight_present k es i e (λ a b x y p q l l' s. omega (arith, d (suc a) (suc b) x y p q l l' s)) at
      live key,
)

module _ (t : EdgeTable) (ok : IsConsistent t) where
  edges-IsDistinct : IsDistinct t.edges
  edges-IsDistinct i j e e' p q l l' key =
      ground (arith, ok.index_full i e p l, ok.index_full j e' q l')

  pub weight-refs_of : (k : EdgeKey) → weight k t.edges ≡ refs_of k t
  weight-refs_of k = elim (Option-cases (Map.find k t.edge_index)) [
    | inl absent ↦ ground (
      arith,
      weight_absent k t.edges (λ i e at live key. ground (arith, ok.index_full i e at live)),
    )
    | inr (i, there) ↦
        let (e, at, key, live) = ok.index_sound k i there in
        ground (arith, weight_present k t.edges i e edges-IsDistinct at live key)
  ]

  pub start-IsMoving : IsMoving t.edges (record { table = empty; remap = [] })
  unfolding empty Map.find
  start-IsMoving = record {
    ok = unfold Map.get_list empty in empty-IsConsistent;
    fresh = λ j e at live. refl;
    distinct = edges-IsDistinct;
  }
