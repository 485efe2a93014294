-- ===== src/Graph/Edges/Consistent.antt =====
-- The invariant of the edge table, and `addEdge`.
use giga_drill_breaker.Common.{
  ℕ, zero, suc, ◌+◌, ◌<◌, ◌%◌, ◌≡◌, refl, ite, ℕ_discrete, Option, none, some, List, [], ◌∷◌, ◌++◌,
  arith, length, get_elem?, modify, count, ltb, if◌then◌else◌, get_elem?-modify, get_elem?-concat,
  get_elem?_at_length, count-append, nat_eq, lt-length_of_get_elem?,
}
use giga_drill_breaker.Common.Map
use giga_drill_breaker.Graph.Types.{StoredEdge, EdgeKey, key_of, edge_key_eq}
use giga_drill_breaker.Graph.Edges.{EdgeTable, empty, refs_limit, add_refs, register}

-- One if the edge is live and lies under `c`.
abbrev pub caller_share : ℕ → Option StoredEdge → ℕ
caller_share c none = 0
caller_share c (some e) = if ltb 0 e.refs then ite (ℕ_discrete e.caller c) 1 0 else 0

abbrev pub callee_share : ℕ → Option StoredEdge → ℕ
callee_share c none = 0
callee_share c (some e) = if ltb 0 e.refs then ite (ℕ_discrete e.callee c) 1 0 else 0

abbrev pub live_edges : List StoredEdge → ℕ
live_edges [] = 0
live_edges (e ∷ es) = (if ltb 0 e.refs then 1 else 0) + live_edges es

-- The deduplication index holds exactly the live edges, by their keys; the adjacency vector of a
-- function holds each live edge of it once, and no other; the counter counts the live edges.
pub record IsConsistent (t : EdgeTable) : Type 0 where
  pub index_sound :
      (k : EdgeKey) (i : ℕ)
      → Map.find k t.edge_index ≡ some i
      → (e : StoredEdge) × (get_elem? t.edges i ≡ some e) × (key_of e ≡ k) × (0 < e.refs)
  pub index_full :
      (i : ℕ) (e : StoredEdge)
      → get_elem? t.edges i ≡ some e
      → 0 < e.refs
      → Map.find (key_of e) t.edge_index ≡ some i
  pub outs : (c i : ℕ) → count i (Map.get_list c t.out_edges) ≡ caller_share c (get_elem? t.edges i)
  pub ins : (c i : ℕ) → count i (Map.get_list c t.in_edges) ≡ callee_share c (get_elem? t.edges i)
  pub counted : t.live_edge_count ≡ live_edges t.edges

-- The abstract view: the registrations of each edge content, 0 for what is not in the table.
abbrev pub refs_at : ℕ → List StoredEdge → ℕ
refs_at i es = elim (get_elem? es i) [ none ↦ 0 | some e ↦ e.refs ]

abbrev pub refs_of : EdgeKey → EdgeTable → ℕ
refs_of k t = elim (Map.find k t.edge_index) [ none ↦ 0 | some i ↦ refs_at i t.edges ]

pub empty-IsConsistent : IsConsistent empty
unfolding empty Map.find Map.get_list
empty-IsConsistent = record {
  index_sound = λ k i h. cc;
  index_full = λ i e h live. cc;
  outs = λ c i. refl;
  ins = λ c i. refl;
  counted = refl;
}

pub refs_of-empty : (k : EdgeKey) → refs_of k empty ≡ 0
unfolding empty Map.find
refs_of-empty k = refl

pub live_edges-append :
    (xs : List StoredEdge) (e : StoredEdge)
    → live_edges (xs ++ e ∷ []) ≡ live_edges xs + (if ltb 0 e.refs then 1 else 0)
live_edges-append [] e = omega arith
live_edges-append (x ∷ xs) e = omega (arith, live_edges-append xs e)

-- How a write to one edge changes the number of live ones.
pub live_edges-modify :
    (i : ℕ) (f : StoredEdge → StoredEdge) (xs : List StoredEdge) (e : StoredEdge)
    → get_elem? xs i ≡ some e
    → live_edges (modify i f xs) + (if ltb 0 e.refs then 1 else 0)
      ≡ live_edges xs + (if ltb 0 (f e).refs then 1 else 0)
live_edges-modify i f [] e h = cc
live_edges-modify zero f (x ∷ xs) e h = ground arith
live_edges-modify (suc i) f (x ∷ xs) e h = omega (arith, live_edges-modify i f xs e h)

-- A key does not depend on the registrations.
pub key_of-refs : (e : StoredEdge) (n : ℕ) → key_of (record e { refs = n }) ≡ key_of e
unfolding key_of
key_of-refs e n = refl

module _ (t : EdgeTable) (se : StoredEdge) (ok : IsConsistent t) (pos : 0 < se.refs) where
  live_se : ◌≡◌ {A = ℕ} (if ltb 0 se.refs then 1 else 0) 1
  live_se = ground arith

  pub register_miss : Map.find (key_of se) t.edge_index ≡ none → IsConsistent (register se t).1
  unfolding register
  register_miss miss =
      rw (miss, register)
        (record {
          index_sound = λ k i h. elim (edge_key_eq.dec (key_of se) k) [
            | yes p ↦ (
              se,
              ground (
                arith,
                get_elem?-concat t.edges se i,
                Map.find-insert (key_of se) k (length t.edges) t.edge_index,
              ),
              p,
              pos,
            )
            | no ne ↦
                let (e, at, key, live) =
                  ok.index_sound k i
                    (ground (arith, Map.find-insert (key_of se) k (length t.edges) t.edge_index)) in
                (
                  e,
                  ground
                      (arith, get_elem?-concat t.edges se i, lt-length_of_get_elem? t.edges i at),
                  key,
                  live,
                )
          ];
          index_full = λ i e h live. ground (
            arith,
            get_elem?-concat t.edges se i,
            ok.index_full i e,
            Map.find-insert (key_of se) (key_of e) (length t.edges) t.edge_index,
          );
          outs = λ c i. ground (
            arith,
            Map.get_list-push se.caller c (length t.edges) t.out_edges,
            ok.outs c i,
            count-append i (Map.get_list se.caller t.out_edges) (length t.edges ∷ []),
            get_elem?-concat t.edges se i,
            get_elem?_at_length t.edges,
          );
          ins = λ c i. ground (
            arith,
            Map.get_list-push se.callee c (length t.edges) t.in_edges,
            ok.ins c i,
            count-append i (Map.get_list se.callee t.in_edges) (length t.edges ∷ []),
            get_elem?-concat t.edges se i,
            get_elem?_at_length t.edges,
          );
          counted = omega (arith, ok.counted, live_edges-append t.edges se, live_se);
        })

  pub register_hit :
      (idx : ℕ) (e : StoredEdge)
      → Map.find (key_of se) t.edge_index ≡ some idx
      → get_elem? t.edges idx ≡ some e
      → 0 < e.refs
      → e.refs + se.refs < refs_limit
      → IsConsistent (register se t).1
  unfolding register
  register_hit idx e hit at live room =
      rw (hit, register)
        (record {
          index_sound = λ k i h.
              let (e', at', key, live') = ok.index_sound k i h in
              elim (ℕ_discrete idx i) [
                | yes p ↦ (
                  add_refs se.refs e,
                  ground (arith, get_elem?-modify idx i (add_refs se.refs) t.edges),
                  ground (arith, key_of-refs e ((e.refs + se.refs) % refs_limit)),
                  ground arith,
                )
                | no ne ↦ (
                  e',
                  ground (arith, get_elem?-modify idx i (add_refs se.refs) t.edges),
                  key,
                  live',
                )
              ];
          index_full = λ i e' h live'. ground (
            arith,
            get_elem?-modify idx i (add_refs se.refs) t.edges,
            ok.index_full i e,
            ok.index_full i e',
            key_of-refs e ((e.refs + se.refs) % refs_limit),
          );
          outs =
              λ c i. ground (arith, ok.outs c i, get_elem?-modify idx i (add_refs se.refs) t.edges);
          ins =
              λ c i. ground (arith, ok.ins c i, get_elem?-modify idx i (add_refs se.refs) t.edges);
          counted =
              ground (arith, ok.counted, live_edges-modify idx (add_refs se.refs) t.edges e at);
        })
