-- ===== src/Graph/Edges/Registration.antt =====
-- `addEdge` as a multiset insertion: what it does to the invariant and to the abstract view.
use giga_drill_breaker.Common.{
  ℕ, ◌+◌, ◌<◌, ◌≡◌, refl, ◌∙◌, ite, inl, inr, Option, none, some, arith, length, get_elem?-modify,
  get_elem?-concat, lt-length_of_get_elem?, Option-cases, nat_eq,
}
use giga_drill_breaker.Common.Map
use giga_drill_breaker.Graph.Types.{StoredEdge, EdgeKey, key_of, edge_key_eq}
use giga_drill_breaker.Graph.Edges.{EdgeTable, refs_limit, add_refs, register, attribute, add_edge}
use giga_drill_breaker.Graph.Edges.Consistent.{IsConsistent, refs_of, register_hit, register_miss}

module _ (t : EdgeTable) (se : StoredEdge) (ok : IsConsistent t) where
  -- An edge whose content is new brings its registrations.
  pub refs_of-register_miss :
      Map.find (key_of se) t.edge_index ≡ none
      → (k : EdgeKey)
      → refs_of k (register se t).1 ≡ refs_of k t + ite (edge_key_eq.dec (key_of se) k) se.refs 0
  unfolding register
  refs_of-register_miss miss k = elim (edge_key_eq.dec (key_of se) k) [
    | yes p ↦ ground (
      arith,
      Map.find-insert (key_of se) k (length t.edges) t.edge_index,
      get_elem?-concat t.edges se (length t.edges),
    )
    | no ne ↦ elim (Option-cases (Map.find k t.edge_index)) [
      | inl absent ↦ ground (arith, Map.find-insert (key_of se) k (length t.edges) t.edge_index)
      | inr (i, there) ↦
          let (e, at, key, live) = ok.index_sound k i there in
          ground (
            arith,
            Map.find-insert (key_of se) k (length t.edges) t.edge_index,
            get_elem?-concat t.edges se i,
            lt-length_of_get_elem? t.edges i at,
          )
    ]
  ]

  module _ (pos : 0 < se.refs) (room : refs_of (key_of se) t + se.refs < refs_limit) where
    pub register-IsConsistent : IsConsistent (register se t).1
    register-IsConsistent = elim (Option-cases (Map.find (key_of se) t.edge_index)) [
      | inl miss ↦ register_miss t se ok pos miss
      | inr (idx, hit) ↦
          let (e, at, key, live) = ok.index_sound (key_of se) idx hit in
          register_hit t se ok pos idx e hit at live (ground arith)
    ]

    -- One more registration of this content for each in `se`, and nothing else changes.
    pub refs_of-register :
        (k : EdgeKey)
        → refs_of k (register se t).1 ≡ refs_of k t + ite (edge_key_eq.dec (key_of se) k) se.refs 0
    unfolding register
    refs_of-register k = elim (Option-cases (Map.find (key_of se) t.edge_index)) [
      | inl miss ↦ refs_of-register_miss miss k
      | inr (idx, hit) ↦
          let (e, at, key, live) = ok.index_sound (key_of se) idx hit in
          elim (Option-cases (Map.find k t.edge_index)) [
            | inl absent ↦ ground arith
            | inr (i, there) ↦
                let (e', at', key', live') = ok.index_sound k i there in
                ground (arith, get_elem?-modify idx i (add_refs se.refs) t.edges)
          ]
    ]

refs_of-attribute :
    (tu : Option ℕ) (idx : ℕ) (t : EdgeTable) (k : EdgeKey)
    → refs_of k (attribute tu idx t) ≡ refs_of k t
unfolding attribute
refs_of-attribute none idx t k = refl
refs_of-attribute (some tu) idx t k = refl

attribute-IsConsistent :
    (tu : Option ℕ) (idx : ℕ) (t : EdgeTable) → IsConsistent t → IsConsistent (attribute tu idx t)
unfolding attribute
attribute-IsConsistent none idx t ok = ok
attribute-IsConsistent (some tu) idx t ok = record {
  index_sound = ok.index_sound;
  index_full = ok.index_full;
  outs = ok.outs;
  ins = ok.ins;
  counted = ok.counted;
}

module _ (t : EdgeTable) (se : StoredEdge) (tu : Option ℕ) (ok : IsConsistent t)
    (room : refs_of (key_of se) t + 1 < refs_limit) where
  -- `addEdge` keeps a consistent table consistent, whether the edge is new or known, as long as
  -- the count of its registrations stays below the limit of its type.
  pub add_edge-IsConsistent : IsConsistent (add_edge se tu t)
  unfolding add_edge key_of
  add_edge-IsConsistent =
      attribute-IsConsistent tu _ _ (register-IsConsistent t _ ok (omega arith) room)

  -- It registers the content of the edge once more and changes no other registration.
  pub refs_of-add_edge :
      (k : EdgeKey)
      → refs_of k (add_edge se tu t) ≡ refs_of k t + ite (edge_key_eq.dec (key_of se) k) 1 0
  unfolding add_edge key_of
  refs_of-add_edge k = refs_of-attribute tu _ _ k ∙ refs_of-register t _ ok (omega arith) room k
