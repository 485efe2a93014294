-- ===== src/Graph/Edges/Reindex.antt =====
-- A translation unit that is indexed and removed again.
use giga_drill_breaker.Common.{
  ℕ, suc, ◌+◌, ◌<◌, ◌≡◌, ite, inl, inr, Option, none, some, List, [], ◌∷◌, arith, length, count,
  Option-cases, nat_eq, count-append, length-append, length-modify, lt-length_of_get_elem?,
}
use giga_drill_breaker.Common.Map
use giga_drill_breaker.Graph.Types.{StoredEdge, EdgeKey, key_of, edge_key_eq}
use giga_drill_breaker.Graph.Edges.{
  EdgeTable, remove_tus, register, attribute, add_edge, refs_limit, add_refs,
}
use giga_drill_breaker.Graph.Edges.Consistent.{IsConsistent, refs_of}
use giga_drill_breaker.Graph.Edges.Registration.{add_edge-IsConsistent, refs_of-add_edge}
use giga_drill_breaker.Graph.Edges.Removal.{refs_of-remove_tus}

-- The edges that the walk over one translation unit reports, in order.
pub add_edges : List StoredEdge → Option ℕ → EdgeTable → EdgeTable
add_edges [] tu t = t
add_edges (se ∷ ses) tu t = add_edges ses tu (add_edge se tu t)

module _ (tu : ℕ) where
  -- The registrations of a content that the unit holds.
  abbrev claimed : EdgeKey → EdgeTable → ℕ
  claimed k t = elim (Map.find k t.edge_index) [
    | none ↦ 0
    | some i ↦ count i (Map.get_list tu t.tu_edges)
  ]

  -- The unit's entries are indices of edges.
  abbrev InRange : EdgeTable → Type 0
  InRange t = (i : ℕ) → 0 < count i (Map.get_list tu t.tu_edges) → i < length t.edges

  add_edge-InRange :
      (se : StoredEdge) (t : EdgeTable)
      → IsConsistent t
      → InRange t
      → InRange (add_edge se (some tu) t)
  unfolding add_edge attribute register key_of
  add_edge-InRange se t ok fits i h = elim (Option-cases (Map.find (key_of se) t.edge_index)) [
    | inl miss ↦ ground (
      arith,
      fits i,
      Map.get_list-push tu tu (length t.edges) t.tu_edges,
      count-append i (Map.get_list tu t.tu_edges) (length t.edges ∷ []),
      length-append t.edges (record se { refs = 1 } ∷ []),
    )
    | inr (idx, hit) ↦
        let (e, at, key, live) = ok.index_sound (key_of se) idx hit in
        ground (
          arith,
          fits i,
          Map.get_list-push tu tu idx t.tu_edges,
          count-append i (Map.get_list tu t.tu_edges) (idx ∷ []),
          length-modify idx (add_refs 1) t.edges,
          lt-length_of_get_elem? t.edges idx at,
        )
  ]

  claimed-add_edge :
      (se : StoredEdge) (t : EdgeTable) (k : EdgeKey)
      → IsConsistent t
      → InRange t
      → claimed k (add_edge se (some tu) t) ≡ claimed k t + ite (edge_key_eq.dec (key_of se) k) 1 0
  unfolding add_edge attribute register key_of
  claimed-add_edge se t k ok fits = elim (Option-cases (Map.find (key_of se) t.edge_index)) [
    | inl miss ↦ elim (Option-cases (Map.find k t.edge_index)) [
      | inl absent ↦ ground (
        arith,
        fits (length t.edges),
        Map.get_list-push tu tu (length t.edges) t.tu_edges,
        count-append (length t.edges) (Map.get_list tu t.tu_edges) (length t.edges ∷ []),
        Map.find-insert (key_of se) k (length t.edges) t.edge_index,
      )
      | inr (i, there) ↦
          let (e, at, key, live) = ok.index_sound k i there in
          ground (
            arith,
            Map.get_list-push tu tu (length t.edges) t.tu_edges,
            count-append i (Map.get_list tu t.tu_edges) (length t.edges ∷ []),
            Map.find-insert (key_of se) k (length t.edges) t.edge_index,
            lt-length_of_get_elem? t.edges i at,
          )
    ]
    | inr (idx, hit) ↦ elim (Option-cases (Map.find k t.edge_index)) [
      | inl absent ↦ ground arith
      | inr (i, there) ↦
          let (e, at, key, live) = ok.index_sound k i there in
          let (e', at', key', live') = ok.index_sound (key_of se) idx hit in
          ground (
            arith,
            Map.get_list-push tu tu idx t.tu_edges,
            count-append i (Map.get_list tu t.tu_edges) (idx ∷ []),
          )
    ]
  ]

-- How often a content is reported.
abbrev pub occurrences : EdgeKey → List StoredEdge → ℕ
occurrences k [] = 0
occurrences k (se ∷ ses) = ite (edge_key_eq.dec (key_of se) k) 1 0 + occurrences k ses

-- No count of registrations reaches the limit of its type while `n` more are added.
abbrev pub HasRoom : ℕ → EdgeTable → Type 0
HasRoom n t = (k : EdgeKey) → refs_of k t + n < refs_limit

HasRoom-add_edge :
    (n : ℕ) (se : StoredEdge) (tu : Option ℕ) (t : EdgeTable)
    → IsConsistent t
    → HasRoom (suc n) t
    → HasRoom n (add_edge se tu t)
HasRoom-add_edge n se tu t ok room k = ground (
  arith,
  room k,
  room (key_of se),
  refs_of-add_edge t se tu ok (ground (arith, room (key_of se))) k,
)

pub add_edges-IsConsistent :
    (ses : List StoredEdge) (tu : Option ℕ) (t : EdgeTable)
    → IsConsistent t
    → HasRoom (length ses) t
    → IsConsistent (add_edges ses tu t)
unfolding add_edges
add_edges-IsConsistent [] tu t ok room = ok
add_edges-IsConsistent (se ∷ ses) tu t ok room =
    add_edges-IsConsistent ses tu (add_edge se tu t)
      (add_edge-IsConsistent t se tu ok (omega (arith, room (key_of se))))
      (HasRoom-add_edge (length ses) se tu t ok room)

-- Adding a list of edges to a consistent table whose counts leave room for them adds to the
-- registrations of each content as often as the list holds it.
pub refs_of-add_edges :
    (ses : List StoredEdge) (tu : Option ℕ) (t : EdgeTable) (k : EdgeKey)
    → IsConsistent t
    → HasRoom (length ses) t
    → refs_of k (add_edges ses tu t) ≡ refs_of k t + occurrences k ses
unfolding add_edges
refs_of-add_edges [] tu t k ok room = omega arith
refs_of-add_edges (se ∷ ses) tu t k ok room =
    let here = refs_of-add_edge t se tu ok (omega (arith, room (key_of se))) k in
    let ok' = add_edge-IsConsistent t se tu ok (omega (arith, room (key_of se))) in
    omega (
      arith,
      refs_of-add_edges ses tu (add_edge se tu t) k ok'
          (HasRoom-add_edge (length ses) se tu t ok room),
      here,
    )

claimed-add_edges :
    (tu : ℕ) (ses : List StoredEdge) (t : EdgeTable) (k : EdgeKey)
    → IsConsistent t
    → InRange tu t
    → HasRoom (length ses) t
    → claimed tu k (add_edges ses (some tu) t) ≡ claimed tu k t + occurrences k ses
unfolding add_edges
claimed-add_edges tu [] t k ok fits room = omega arith
claimed-add_edges tu (se ∷ ses) t k ok fits room =
    let ok' = add_edge-IsConsistent t se (some tu) ok (omega (arith, room (key_of se))) in
    omega (
      arith,
      claimed-add_edges tu ses (add_edge se (some tu) t) k ok' (add_edge-InRange tu se t ok fits)
          (HasRoom-add_edge (length ses) se (some tu) t ok room),
      claimed-add_edge tu se t k ok fits,
    )

-- Edges reported by a translation unit that was not indexed before, and then the unit removed:
-- every content has the registrations that it had, in a consistent table whose counts leave room
-- for the edges.
pub remove_tus-add_edges :
    (tu : ℕ) (ses : List StoredEdge) (t : EdgeTable) (k : EdgeKey)
    → IsConsistent t
    → Map.get_list tu t.tu_edges ≡ []
    → HasRoom (length ses) t
    → refs_of k (remove_tus (tu ∷ []) (add_edges ses (some tu) t)).1 ≡ refs_of k t
remove_tus-add_edges tu ses t k ok fresh room =
    let t' = add_edges ses (some tu) t in
    let ok' = add_edges-IsConsistent ses (some tu) t ok room in
    ground (
      arith,
      (refs_of-remove_tus (tu ∷ []) t' k ok').0,
      refs_of-add_edges ses (some tu) t k ok room,
      claimed-add_edges tu ses t k ok (λ i h. absurd (ground arith)) room,
    )
