-- ===== src/Graph/Edges.antt =====
-- src/callgraph/CallGraph.cpp, the edge table: `addEdge` after its strings are interned, the edge
-- passes of `removeTUs`, and `compact`.
pub mod Consistent
pub mod Registration
pub mod Releasing
pub mod Removal
pub mod Removed
pub mod Reindex
pub mod Compacting
pub mod Compacted
pub mod Tests
use giga_drill_breaker.Common.{
  ℕ, suc, ◌+◌, ◌-◌, ◌%◌, ◌^◌, ite, ℕ_discrete, Bool, true, false, not, ◌&&◌, Option, none, some,
  List, [], ◌∷◌, ◌++◌, length, get_elem?, modify, keep, contains, insert_new, ltb, if◌then◌else◌,
  nat_eq,
}
use giga_drill_breaker.Common.Map
use giga_drill_breaker.Common.Map.{Map}
use giga_drill_breaker.Graph.Types.{StoredEdge, EdgeKey, key_of, edge_key_eq}

pub record EdgeTable : Type 0 where
  pub edges : List StoredEdge
  pub edge_index : Map EdgeKey ℕ
  pub out_edges : Map ℕ (List ℕ)
  pub in_edges : Map ℕ (List ℕ)
  pub tu_edges : Map ℕ (List ℕ)
  pub live_edge_count : ℕ

pub empty : EdgeTable
empty = record {
  edges = [];
  edge_index = [];
  out_edges = [];
  in_edges = [];
  tu_edges = [];
  live_edge_count = 0;
}

-- `refs` is a uint32_t.
abbrev pub refs_limit : ℕ
refs_limit = 2 ^ 32

abbrev pub add_refs : ℕ → StoredEdge → StoredEdge
add_refs n e = record e { refs = (e.refs + n) % refs_limit }

-- The dedup probe: a hit adds to the edge's registrations, a miss appends the edge.
pub register : StoredEdge → EdgeTable → ℕ × EdgeTable
register se t = elim (Map.find (key_of se) t.edge_index) [
  | some idx ↦ (idx, record t { edges = modify idx (add_refs se.refs) t.edges })
  | none ↦
      let idx = length t.edges in
      (
        idx,
        record t {
          edges = t.edges ++ se ∷ [];
          edge_index = Map.insert (key_of se) idx t.edge_index;
          out_edges = Map.push se.caller idx t.out_edges;
          in_edges = Map.push se.callee idx t.in_edges;
          live_edge_count = t.live_edge_count + 1;
        },
      )
]

-- Provenance: one entry for each registration that names a translation unit.
pub attribute : Option ℕ → ℕ → EdgeTable → EdgeTable
attribute none idx t = t
attribute (some tu) idx t = record t { tu_edges = Map.push tu idx t.tu_edges }

-- `addEdge` on interned strings.
pub add_edge : StoredEdge → Option ℕ → EdgeTable → EdgeTable
add_edge se tu t = let (idx, t') = register (record se { refs = 1 }) t in attribute tu idx t'

-- The first pass of `removeTUs`, with its local sets.
pub record Release : Type 0 where
  pub table : EdgeTable
  pub dead : List ℕ
  pub affected_callers : List ℕ
  pub affected_callees : List ℕ
  pub removed : ℕ

-- The body of the loop over one translation unit's registrations.
pub release_one : ℕ → Release → Release
release_one idx r = elim (get_elem? r.table.edges idx) [
  | none ↦ r
  | some e ↦
      let edges = modify idx (λ e. record e { refs = e.refs - 1 }) r.table.edges in
      if not (ltb 0 e.refs)
      then r
      else if ltb 0 (e.refs - 1)
      then record r { table = record r.table { edges = edges } }
      else record {
        table = record r.table {
          edges = edges;
          edge_index = Map.erase (key_of e) r.table.edge_index;
          live_edge_count = r.table.live_edge_count - 1;
        };
        dead = insert_new idx r.dead;
        affected_callers = insert_new e.caller r.affected_callers;
        affected_callees = insert_new e.callee r.affected_callees;
        removed = r.removed + 1;
      }
]

pub release_all : List ℕ → Release → Release
release_all [] r = r
release_all (idx ∷ idxs) r = release_all idxs (release_one idx r)

pub release_tu : ℕ → Release → Release
release_tu tu r =
    let r' = release_all (Map.get_list tu r.table.tu_edges) r in
    record r' { table = record r'.table { tu_edges = Map.erase tu r'.table.tu_edges } }

pub release_tus : List ℕ → Release → Release
release_tus [] r = r
release_tus (tu ∷ tus) r = release_tus tus (release_tu tu r)

-- The second pass: each affected adjacency vector is scrubbed once.
pub scrub : List ℕ → List ℕ → Map ℕ (List ℕ) → Map ℕ (List ℕ)
scrub dead [] m = m
scrub dead (c ∷ cs) m =
    scrub dead cs (Map.insert c (keep (λ i. not (contains dead i)) (Map.get_list c m)) m)

pub start_release : EdgeTable → Release
start_release t = record {
  table = t;
  dead = [];
  affected_callers = [];
  affected_callees = [];
  removed = 0;
}

pub finish_release : Release → EdgeTable
unfolding scrub
finish_release r = record r.table {
  out_edges = scrub r.dead r.affected_callers r.table.out_edges;
  in_edges = scrub r.dead r.affected_callees r.table.in_edges;
}

-- The edge passes of `removeTUs` for the ids of the translation units, with the number returned.
pub remove_tus : List ℕ → EdgeTable → ℕ × EdgeTable
remove_tus tus t = let r = release_tus tus (start_release t) in (r.removed, finish_release r)

-- `compact`: the loop over the old edges, with the map from old to new indices.
pub record Compaction : Type 0 where
  pub table : EdgeTable
  pub remap : Map ℕ ℕ

pub compact_edges : ℕ → List StoredEdge → Compaction → Compaction
compact_edges old [] c = c
compact_edges old (e ∷ es) c = compact_edges (suc old) es (if not (ltb 0 e.refs) then c else moved)
  where
    neu : ℕ
    neu = length c.table.edges

    moved : Compaction
    moved = record {
      table = record c.table {
        edges = c.table.edges ++ e ∷ [];
        edge_index = Map.insert (key_of e) neu c.table.edge_index;
        out_edges = Map.push e.caller neu c.table.out_edges;
        in_edges = Map.push e.callee neu c.table.in_edges;
      };
      remap = Map.insert old neu c.remap;
    }

pub remap_indices : Map ℕ ℕ → List ℕ → List ℕ
remap_indices m [] = []
remap_indices m (old ∷ idxs) = elim (Map.find old m) [
  | none ↦ remap_indices m idxs
  | some neu ↦ neu ∷ remap_indices m idxs
]

-- An entry whose vector comes out empty is dropped.
pub remap_tus : Map ℕ ℕ → Map ℕ (List ℕ) → Map ℕ (List ℕ)
unfolding remap_indices
remap_tus m [] = []
remap_tus m ((tu, idxs) ∷ rest) = elim (remap_indices m idxs) [
  | [] ↦ remap_tus m rest
  | i ∷ is ↦ (tu, i ∷ is) ∷ remap_tus m rest
]

pub compact : EdgeTable → EdgeTable
unfolding empty compact_edges remap_tus
compact t =
    let c = compact_edges 0 t.edges (record { table = empty; remap = [] }) in
    record c.table { tu_edges = remap_tus c.remap t.tu_edges; live_edge_count = t.live_edge_count }
