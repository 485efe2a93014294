-- ===== src/Graph/Absorb/Registered.antt =====
-- The edge part of `absorb`.
use giga_drill_breaker.Common.{
  ℕ, suc, ◌+◌, ◌<◌, ◌≡◌, refl, ◌∙◌, inl, inr, List, [], ◌∷◌, arith, ite, ltb, Bool-cases, nat_eq,
}
use giga_drill_breaker.Common.Map
use giga_drill_breaker.Common.Map.{Map}
use giga_drill_breaker.Graph.Types.{StoredEdge, EdgeKey, key_of, edge_key_eq}
use giga_drill_breaker.Graph.Edges.{EdgeTable, register, refs_limit}
use giga_drill_breaker.Graph.Edges.Consistent.{IsConsistent, refs_of}
use giga_drill_breaker.Graph.Edges.Registration.{register-IsConsistent, refs_of-register}
use giga_drill_breaker.Graph.Absorb.{remapped_edge, absorb_edges, absorb_tu_edges}

-- The registrations that the shard holds of a content, once its ids are the master's.
abbrev pub brought : List ℕ → EdgeKey → List StoredEdge → ℕ
brought remap k [] = 0
brought remap k (e ∷ es) =
    ite (edge_key_eq.dec (key_of (remapped_edge remap e)) k) e.refs 0 + brought remap k es

-- No count of registrations reaches the limit of its type when those of the shard come in.
abbrev pub CanAbsorb : List ℕ → List StoredEdge → EdgeTable → Type 0
CanAbsorb remap es t = (k : EdgeKey) → refs_of k t + brought remap k es < refs_limit

remapped_edge-refs : (remap : List ℕ) (e : StoredEdge) → (remapped_edge remap e).refs ≡ e.refs
unfolding remapped_edge
remapped_edge-refs remap e = refl

module _ (remap : List ℕ) (e : StoredEdge) (es : List StoredEdge) (t : EdgeTable)
    (ok : IsConsistent t) (live : 0 < e.refs) (room : CanAbsorb remap (e ∷ es) t) where
  here-room : refs_of (key_of (remapped_edge remap e)) t + (remapped_edge remap e).refs < refs_limit
  here-room = ground (arith, room (key_of (remapped_edge remap e)), remapped_edge-refs remap e)

  here-IsConsistent : IsConsistent (register (remapped_edge remap e) t).1
  here-IsConsistent =
      register-IsConsistent t (remapped_edge remap e) ok
        (ground (arith, remapped_edge-refs remap e)) here-room

  refs_of-here :
      (k : EdgeKey)
      → refs_of k (register (remapped_edge remap e) t).1 + brought remap k es
        ≡ refs_of k t + brought remap k (e ∷ es)
  refs_of-here k = ground (
    arith,
    remapped_edge-refs remap e,
    refs_of-register t (remapped_edge remap e) ok (ground (arith, remapped_edge-refs remap e))
        here-room k,
  )

pub absorb_edges-IsConsistent :
    (remap : List ℕ) (i : ℕ) (es : List StoredEdge) (m : Map ℕ ℕ) (t : EdgeTable)
    → IsConsistent t
    → CanAbsorb remap es t
    → IsConsistent (absorb_edges remap i es (m, t)).1
      × ((k : EdgeKey)
          → refs_of k (absorb_edges remap i es (m, t)).1 ≡ refs_of k t + brought remap k es)
unfolding absorb_edges
absorb_edges-IsConsistent remap i [] m t ok room = (ok, λ k. omega arith)
absorb_edges-IsConsistent remap i (e ∷ es) m t ok room = elim (Bool-cases (ltb 0 e.refs)) [
  | inr dead ↦
      let rest = absorb_edges-IsConsistent remap (suc i) es m t ok (λ k. ground (arith, room k)) in
      rw (dead, absorb_edges) (rest.0, λ k. ground (arith, rest.1 k))
  | inl live ↦
      let t' = (register (remapped_edge remap e) t).1 in
      let pos : 0 < e.refs = ground arith in
      let step = refs_of-here remap e es t ok pos room in
      let rest =
        absorb_edges-IsConsistent remap (suc i) es
          (Map.insert i (register (remapped_edge remap e) t).0 m) t'
          (here-IsConsistent remap e es t ok pos room) (λ k. omega (arith, room k, step k)) in
      rw (live, absorb_edges) (rest.0, λ k. rest.1 k ∙ step k)
]

-- The provenance is no part of the table's consistency.
pub absorb_tu_edges-IsConsistent :
    (remap : List ℕ) (m : Map ℕ ℕ) (shard : Map ℕ (List ℕ)) (t : EdgeTable)
    → IsConsistent t
    → IsConsistent (absorb_tu_edges remap m shard t)
      × ((k : EdgeKey) → refs_of k (absorb_tu_edges remap m shard t) ≡ refs_of k t)
unfolding absorb_tu_edges
absorb_tu_edges-IsConsistent remap m [] t ok = (ok, λ k. refl)
absorb_tu_edges-IsConsistent remap m ((tu, idxs) ∷ rest) t ok =
    absorb_tu_edges-IsConsistent remap m rest _ (record {
      index_sound = ok.index_sound;
      index_full = ok.index_full;
      outs = ok.outs;
      ins = ok.ins;
      counted = ok.counted;
    })
