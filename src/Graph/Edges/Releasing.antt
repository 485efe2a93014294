-- ===== src/Graph/Edges/Releasing.antt =====
-- The first pass of `removeTUs`: the table between the passes, where the adjacency vectors still
-- name the edges that died.
use giga_drill_breaker.Common.{
  ℕ, ◌+◌, ◌-◌, ◌<◌, ◌≡◌, ite, ℕ_discrete, true, inl, inr, Option, none, some, List, [], ◌∷◌, arith,
  get_elem?, modify, count, ltb, contains, if◌then◌else◌, get_elem?-modify, Option-cases,
  Bool-cases, nat_eq, contains-insert_new, insert_new,
}
use giga_drill_breaker.Common.Map
use giga_drill_breaker.Graph.Types.{StoredEdge, EdgeKey, key_of, edge_key_eq}
use giga_drill_breaker.Graph.Edges.{Release, release_one, release_all, release_tu, release_tus}
use giga_drill_breaker.Graph.Edges.Consistent.{
  caller_share, callee_share, live_edges, live_edges-modify, key_of-refs,
}

-- One if the edge, live or not, lies under `c`.
abbrev pub caller_owned : ℕ → Option StoredEdge → ℕ
caller_owned c none = 0
caller_owned c (some e) = ite (ℕ_discrete e.caller c) 1 0

abbrev pub callee_owned : ℕ → Option StoredEdge → ℕ
callee_owned c none = 0
callee_owned c (some e) = ite (ℕ_discrete e.callee c) 1 0

pub record IsReleasing (r : Release) : Type 0 where
  pub index_sound :
      (k : EdgeKey) (i : ℕ)
      → Map.find k r.table.edge_index ≡ some i
      → (e : StoredEdge) × (get_elem? r.table.edges i ≡ some e) × (key_of e ≡ k) × (0 < e.refs)
  pub index_full :
      (i : ℕ) (e : StoredEdge)
      → get_elem? r.table.edges i ≡ some e
      → 0 < e.refs
      → Map.find (key_of e) r.table.edge_index ≡ some i
  pub outs :
      (c i : ℕ)
      → count i (Map.get_list c r.table.out_edges)
        ≡ caller_share c (get_elem? r.table.edges i)
          + (if contains r.dead i then caller_owned c (get_elem? r.table.edges i) else 0)
  pub ins :
      (c i : ℕ)
      → count i (Map.get_list c r.table.in_edges)
        ≡ callee_share c (get_elem? r.table.edges i)
          + (if contains r.dead i then callee_owned c (get_elem? r.table.edges i) else 0)
  pub counted : r.table.live_edge_count ≡ live_edges r.table.edges
  pub died :
      (i : ℕ)
      → contains r.dead i ≡ true
      → (e : StoredEdge) × (get_elem? r.table.edges i ≡ some e)
        × (e.refs ≡ 0)
        × (contains r.affected_callers e.caller ≡ true)
        × (contains r.affected_callees e.callee ≡ true)

abbrev drop_ref : StoredEdge → StoredEdge
drop_ref e = record e { refs = e.refs - 1 }

-- The state in which the last contributor of an edge leaves.
abbrev bury : ℕ → StoredEdge → Release → Release
bury idx e r = record {
  table = record r.table {
    edges = modify idx drop_ref r.table.edges;
    edge_index = Map.erase (key_of e) r.table.edge_index;
    live_edge_count = r.table.live_edge_count - 1;
  };
  dead = insert_new idx r.dead;
  affected_callers = insert_new e.caller r.affected_callers;
  affected_callees = insert_new e.callee r.affected_callees;
  removed = r.removed + 1;
}

module _ (idx : ℕ) (r : Release) (ok : IsReleasing r) (e : StoredEdge)
    (at : get_elem? r.table.edges idx ≡ some e) where
  -- The branch of an edge with other contributors.
  release_shared :
      1 < e.refs
      → IsReleasing
          (record r { table = record r.table { edges = modify idx drop_ref r.table.edges } })
  release_shared more = record {
    index_sound = λ k i h.
        let (e', at', key, live) = ok.index_sound k i h in
        elim (ℕ_discrete idx i) [
          | yes p ↦ (
            drop_ref e,
            ground (arith, get_elem?-modify idx i drop_ref r.table.edges),
            ground (arith, key_of-refs e (e.refs - 1)),
            ground arith,
          )
          | no ne ↦ (e', ground (arith, get_elem?-modify idx i drop_ref r.table.edges), key, live)
        ];
    index_full = λ i e' h live. ground (
      arith,
      get_elem?-modify idx i drop_ref r.table.edges,
      ok.index_full i e,
      ok.index_full i e',
      key_of-refs e (e.refs - 1),
    );
    outs = λ c i. ground (arith, ok.outs c i, get_elem?-modify idx i drop_ref r.table.edges);
    ins = λ c i. ground (arith, ok.ins c i, get_elem?-modify idx i drop_ref r.table.edges);
    counted = ground (arith, ok.counted, live_edges-modify idx drop_ref r.table.edges e at);
    died = λ i h.
        let (e', at', gone, callers, callees) = ok.died i h in
        (e', ground (arith, get_elem?-modify idx i drop_ref r.table.edges), gone, callers, callees);
  }

  release_last : e.refs ≡ 1 → IsReleasing (bury idx e r)
  release_last last = record {
    index_sound = λ k i h.
        let (e', at', key, live) =
          ok.index_sound k i (ground (arith, Map.find-erase (key_of e) k r.table.edge_index)) in
        (
          e',
          ground (
            arith,
            Map.find-erase (key_of e) k r.table.edge_index,
            get_elem?-modify idx i drop_ref r.table.edges,
          ),
          key,
          live,
        );
    index_full = λ i e' h live. ground (
      arith,
      get_elem?-modify idx i drop_ref r.table.edges,
      ok.index_full idx e at,
      ok.index_full i e',
      Map.find-erase (key_of e) (key_of e') r.table.edge_index,
    );
    outs = λ c i. ground (
      arith,
      ok.outs c i,
      ok.died i,
      get_elem?-modify idx i drop_ref r.table.edges,
      contains-insert_new idx i r.dead,
    );
    ins = λ c i. ground (
      arith,
      ok.ins c i,
      ok.died i,
      get_elem?-modify idx i drop_ref r.table.edges,
      contains-insert_new idx i r.dead,
    );
    counted = ground (arith, ok.counted, live_edges-modify idx drop_ref r.table.edges e at);
    died = λ i h. elim (ℕ_discrete idx i) [
      | yes p ↦ (
        drop_ref e,
        ground (arith, get_elem?-modify idx i drop_ref r.table.edges),
        omega arith,
        ground (arith, contains-insert_new e.caller e.caller r.affected_callers),
        ground (arith, contains-insert_new e.callee e.callee r.affected_callees),
      )
      | no ne ↦
          let (e', at', gone, callers, callees) =
            ok.died i (ground (arith, contains-insert_new idx i r.dead)) in
          (
            e',
            ground (arith, get_elem?-modify idx i drop_ref r.table.edges),
            gone,
            ground (arith, contains-insert_new e.caller e'.caller r.affected_callers),
            ground (arith, contains-insert_new e.callee e'.callee r.affected_callees),
          )
    ];
  }

pub release_one-IsReleasing :
    (idx : ℕ) (r : Release) → IsReleasing r → IsReleasing (release_one idx r)
unfolding release_one
release_one-IsReleasing idx r ok = elim (Option-cases (get_elem? r.table.edges idx)) [
  | inl gone ↦ rw (gone, release_one) ok
  | inr (e, at) ↦ elim (Bool-cases (ltb 0 e.refs)) [
    | inl live ↦ elim (Bool-cases (ltb 0 (e.refs - 1))) [
      | inl shared ↦
          rw (at, live, shared, release_one) (release_shared idx r ok e at (ground arith))
      | inr last ↦ rw (at, live, last, release_one) (release_last idx r ok e at (ground arith))
    ]
    | inr dead ↦ rw (at, dead, release_one) ok
  ]
]

pub release_all-IsReleasing :
    (idxs : List ℕ) (r : Release) → IsReleasing r → IsReleasing (release_all idxs r)
unfolding release_all
release_all-IsReleasing [] r ok = ok
release_all-IsReleasing (idx ∷ idxs) r ok =
    release_all-IsReleasing idxs (release_one idx r) (release_one-IsReleasing idx r ok)

pub release_tus-IsReleasing :
    (tus : List ℕ) (r : Release) → IsReleasing r → IsReleasing (release_tus tus r)
unfolding release_tus release_tu
release_tus-IsReleasing [] r ok = ok
release_tus-IsReleasing (tu ∷ tus) r ok =
    let ok' = release_all-IsReleasing (Map.get_list tu r.table.tu_edges) r ok in
    release_tus-IsReleasing tus _ (record {
      index_sound = ok'.index_sound;
      index_full = ok'.index_full;
      outs = ok'.outs;
      ins = ok'.ins;
      counted = ok'.counted;
      died = ok'.died;
    })
