-- ===== src/Graph/Edges/Removal.antt =====
-- The edge passes of `removeTUs` as a multiset subtraction: the invariant, the registrations that
-- are left, and the number that is returned.
use giga_drill_breaker.Common.{
  ℕ, ◌+◌, ◌-◌, ◌<◌, ◌≡◌, refl, sym, ◌∙◌, ite, ℕ_discrete, not, inl, inr, Option, none, some, List,
  [], ◌∷◌, arith, get_elem?, count, contains, keep, if◌then◌else◌, get_elem?-modify, Option-cases,
  nat_eq, count-keep,
}
use mathlib.Core.Option
use giga_drill_breaker.Common.Map
use giga_drill_breaker.Common.Map.{Map}
use giga_drill_breaker.Graph.Types.{StoredEdge, EdgeKey, key_of, edge_key_eq}
use giga_drill_breaker.Graph.Edges.{
  EdgeTable, Release, release_one, release_all, release_tu, release_tus, start_release,
  finish_release, scrub, remove_tus,
}
use giga_drill_breaker.Graph.Edges.Consistent.{IsConsistent, key_of-refs, refs_at, refs_of}
use giga_drill_breaker.Graph.Edges.Releasing.{IsReleasing, release_tus-IsReleasing}

-- Scrubbing takes the dead edges out of the vectors that are listed.
count-scrub :
    (dead cs : List ℕ) (m : Map ℕ (List ℕ)) (c i : ℕ)
    → count i (Map.get_list c (scrub dead cs m)) ≡ (
        if contains cs c
        then if contains dead i then 0 else count i (Map.get_list c m)
        else count i (Map.get_list c m))
unfolding scrub
count-scrub dead [] m c i = refl
count-scrub dead (d ∷ cs) m c i =
    let kept = keep (λ j. not (contains dead j)) (Map.get_list d m) in
    ground (
      arith,
      count-scrub dead cs (Map.insert d kept m) c i,
      Map.get_list-insert d c kept m,
      count-keep i (λ j. not (contains dead j)) (Map.get_list d m),
    )

pub start-IsReleasing : (t : EdgeTable) → IsConsistent t → IsReleasing (start_release t)
unfolding start_release
start-IsReleasing t ok = record {
  index_sound = ok.index_sound;
  index_full = ok.index_full;
  outs = λ c i. omega (arith, ok.outs c i);
  ins = λ c i. omega (arith, ok.ins c i);
  counted = ok.counted;
  died = λ i h. cc;
}

finish-IsConsistent : (r : Release) → IsReleasing r → IsConsistent (finish_release r)
unfolding finish_release
finish-IsConsistent r ok = record {
  index_sound = ok.index_sound;
  index_full = ok.index_full;
  outs = λ c i.
      ground (
        arith,
        ok.outs c i,
        ok.died i,
        count-scrub r.dead r.affected_callers r.table.out_edges c i,
      );
  ins = λ c i.
      ground
        (arith, ok.ins c i, ok.died i, count-scrub r.dead r.affected_callees r.table.in_edges c i);
  counted = ok.counted;
}

-- `removeTUs` keeps a consistent table consistent, whatever its provenance entries say.
pub remove_tus-IsConsistent :
    (tus : List ℕ) (t : EdgeTable) → IsConsistent t → IsConsistent (remove_tus tus t).1
unfolding remove_tus
remove_tus-IsConsistent tus t ok =
    finish-IsConsistent _ (release_tus-IsReleasing tus (start_release t) (start-IsReleasing t ok))

-- The registrations of edge `i` that the translation units hold; a unit named twice counts once.
abbrev pub releases : ℕ → List ℕ → Map ℕ (List ℕ) → ℕ
releases i [] m = 0
releases i (tu ∷ tus) m = count i (Map.get_list tu m) + releases i tus (Map.erase tu m)

refs_at-release_one :
    (idx i : ℕ) (r : Release)
    → refs_at i (release_one idx r).table.edges
      ≡ refs_at i r.table.edges - ite (ℕ_discrete idx i) 1 0
unfolding release_one
refs_at-release_one idx i r = ground (
  arith,
  get_elem?-modify idx i (λ (e : StoredEdge). record e { refs = e.refs - 1 }) r.table.edges,
)

refs_at-release_all :
    (idxs : List ℕ) (i : ℕ) (r : Release)
    → refs_at i (release_all idxs r).table.edges ≡ refs_at i r.table.edges - count i idxs
unfolding release_all
refs_at-release_all [] i r = omega arith
refs_at-release_all (idx ∷ idxs) i r =
    omega (arith, refs_at-release_all idxs i (release_one idx r), refs_at-release_one idx i r)

tu_edges-release_all :
    (idxs : List ℕ) (r : Release) → (release_all idxs r).table.tu_edges ≡ r.table.tu_edges
unfolding release_all release_one
tu_edges-release_all [] r = refl
tu_edges-release_all (idx ∷ idxs) r = tu_edges-release_all idxs (release_one idx r) ∙ ground arith

refs_at-release_tus :
    (tus : List ℕ) (i : ℕ) (r : Release)
    → refs_at i (release_tus tus r).table.edges
      ≡ refs_at i r.table.edges - releases i tus r.table.tu_edges
unfolding release_tus release_tu
refs_at-release_tus [] i r = omega arith
refs_at-release_tus (tu ∷ tus) i r =
    let idxs = Map.get_list tu r.table.tu_edges in
    rw (refs_at-release_tus tus i (release_tu tu r), tu_edges-release_all idxs r)
      (omega (arith, refs_at-release_all idxs i r))

-- No step of the pass touches the content of an edge.
abbrev content : ℕ → Release → Option EdgeKey
content i r = Option.map key_of (get_elem? r.table.edges i)

content-release_one : (idx i : ℕ) (r : Release) → content i (release_one idx r) ≡ content i r
unfolding release_one
content-release_one idx i r = elim (Option-cases (get_elem? r.table.edges idx)) [
  | inl gone ↦ rw (gone, release_one)
  | inr (e, at) ↦ ground (
    arith,
    get_elem?-modify idx i (λ (e : StoredEdge). record e { refs = e.refs - 1 }) r.table.edges,
    key_of-refs e (e.refs - 1),
  )
]

content-release_all :
    (idxs : List ℕ) (i : ℕ) (r : Release) → content i (release_all idxs r) ≡ content i r
unfolding release_all
content-release_all [] i r = refl
content-release_all (idx ∷ idxs) i r =
    content-release_all idxs i (release_one idx r) ∙ content-release_one idx i r

content-release_tus :
    (tus : List ℕ) (i : ℕ) (r : Release) → content i (release_tus tus r) ≡ content i r
unfolding release_tus release_tu
content-release_tus [] i r = refl
content-release_tus (tu ∷ tus) i r =
    content-release_tus tus i (release_tu tu r)
    ∙ content-release_all (Map.get_list tu r.table.tu_edges) i r

-- In a consistent table the index agrees with any other way to find a live edge.
pub refs_of_live :
    (t : EdgeTable) (i : ℕ) (e : StoredEdge)
    → IsConsistent t
    → get_elem? t.edges i ≡ some e
    → 0 < e.refs
    → refs_of (key_of e) t ≡ e.refs
refs_of_live t i e ok at live = ground (arith, ok.index_full i e at live)

same_content :
    (a b : Option StoredEdge) (e : StoredEdge)
    → Option.map key_of a ≡ Option.map key_of b
    → a ≡ some e
    → (e' : StoredEdge) × (b ≡ some e') × (key_of e' ≡ key_of e)
same_content a (some e') e h p = (e', refl, ground arith)
same_content a none e h p = absurd (ground arith)

module _ (tus : List ℕ) (t : EdgeTable) (k : EdgeKey) (ok : IsConsistent t) where
  content-remove_tus :
      (i : ℕ)
      → Option.map key_of (get_elem? (remove_tus tus t).1.edges i)
        ≡ Option.map key_of (get_elem? t.edges i)
  unfolding remove_tus finish_release start_release
  content-remove_tus i = content-release_tus tus i (start_release t)

  refs_at-remove_tus :
      (i : ℕ) → refs_at i (remove_tus tus t).1.edges ≡ refs_at i t.edges - releases i tus t.tu_edges
  unfolding remove_tus finish_release start_release
  refs_at-remove_tus i = refs_at-release_tus tus i (start_release t)

  -- What the index holds afterwards it held before.
  find_before :
      (j : ℕ)
      → Map.find k (remove_tus tus t).1.edge_index ≡ some j
      → Map.find k t.edge_index ≡ some j
  find_before j h =
      let (e', at', key', live') = (remove_tus-IsConsistent tus t ok).index_sound k j h in
      let (e, at, key) =
        same_content (get_elem? (remove_tus tus t).1.edges j) (get_elem? t.edges j) e'
          (content-remove_tus j) at' in
      ground (arith, ok.index_full j e at, refs_at-remove_tus j)

  refs_left : refs_of k (remove_tus tus t).1 ≡ (elim (Map.find k t.edge_index) [
    | none ↦ 0
    | some i ↦ refs_at i t.edges - releases i tus t.tu_edges
  ])
  refs_left = elim (Option-cases (Map.find k (remove_tus tus t).1.edge_index)) [
    | inr (j, there) ↦ ground (arith, find_before j there, refs_at-remove_tus j)
    | inl gone ↦ elim (Option-cases (Map.find k t.edge_index)) [
      | inl absent ↦ ground arith
      | inr (i, there) ↦
          let (e, at, key, live) = ok.index_sound k i there in
          let (e', at', key') =
            same_content (get_elem? t.edges i) (get_elem? (remove_tus tus t).1.edges i) e
              (sym (content-remove_tus i)) at in
          ground
            (arith, (remove_tus-IsConsistent tus t ok).index_full i e' at', refs_at-remove_tus i)
    ]
  ]

  -- In a consistent table, `removeTUs` takes off the registrations of each content exactly the
  -- entries that the named units hold for it, and leaves the content at every index of the edge
  -- vector as it was.
  pub refs_of-remove_tus :
      (refs_of k (remove_tus tus t).1 ≡ (elim (Map.find k t.edge_index) [
        | none ↦ 0
        | some i ↦ refs_at i t.edges - releases i tus t.tu_edges
      ]))
      × ((i : ℕ)
          → Option.map key_of (get_elem? (remove_tus tus t).1.edges i)
            ≡ Option.map key_of (get_elem? t.edges i))
  refs_of-remove_tus = (refs_left, content-remove_tus)
