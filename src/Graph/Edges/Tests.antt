-- ===== src/Graph/Edges/Tests.antt =====
-- Runs of the edge table, and its laws on concrete tables.
use giga_drill_breaker.Common.{
  ℕ, ◌+◌, ◌-◌, ◌<◌, ◌≡◌, refl, none, some, [], ◌∷◌, arith, get_elem?, ℕ_discrete, nat_eq,
}
use mathlib.Core.Option
use giga_drill_breaker.Common.Map
use giga_drill_breaker.Graph.Types.{
  StoredEdge, key_of, edge_key_eq, EdgeKey-discrete, direct_call, virtual_dispatch, proven,
  plausible, synchronous,
}
use giga_drill_breaker.Graph.Edges.{
  EdgeTable, empty, register, attribute, add_edge, release_one, release_all, release_tu,
  release_tus, scrub, start_release, finish_release, remove_tus, compact,
}
use giga_drill_breaker.Graph.Edges.Consistent.{
  IsConsistent, empty-IsConsistent, refs_of-empty, refs_at, refs_of, live_edges,
}
use giga_drill_breaker.Graph.Edges.Registration.{add_edge-IsConsistent, refs_of-add_edge}
use giga_drill_breaker.Graph.Edges.Removal.{releases, remove_tus-IsConsistent, refs_of-remove_tus}
use giga_drill_breaker.Graph.Edges.Removed.{remove_tus-count}
use giga_drill_breaker.Graph.Edges.Reindex.{add_edges, HasRoom, remove_tus-add_edges}
use giga_drill_breaker.Graph.Edges.Compacted.{refs_of-compact}

-- Function 0 calls function 1 at site 2, and function 3 virtually at site 4.
abbrev pub direct : StoredEdge
direct = record {
  caller = 0;
  callee = 1;
  call_site = 2;
  kind = direct_call;
  confidence = proven;
  exec_context = synchronous;
  indirection_depth = 0;
  refs = 1;
}

abbrev pub virtual_call : StoredEdge
virtual_call = record {
  caller = 0;
  callee = 3;
  call_site = 4;
  kind = virtual_dispatch;
  confidence = plausible;
  exec_context = synchronous;
  indirection_depth = 0;
  refs = 1;
}

-- Unit 8 reports the direct edge; then unit 9 reports it too, with the virtual one.
abbrev one_edge : EdgeTable
one_edge = add_edge direct (some 8) empty

abbrev pub two_edges : EdgeTable
two_edges = add_edge virtual_call (some 9) one_edge

one_edge-IsConsistent : IsConsistent one_edge
one_edge-IsConsistent =
    add_edge-IsConsistent empty direct (some 8) empty-IsConsistent
      (ground (arith, refs_of-empty (key_of direct)))

one_edge-room : (n : ℕ) → n < 1000 → HasRoom n one_edge
one_edge-room n h k = ground (
  arith,
  refs_of-empty k,
  refs_of-empty (key_of direct),
  refs_of-add_edge empty direct (some 8) empty-IsConsistent
      (ground (arith, refs_of-empty (key_of direct))) k,
)

pub two_edges-IsConsistent : IsConsistent two_edges
two_edges-IsConsistent =
    add_edge-IsConsistent one_edge virtual_call (some 9) one_edge-IsConsistent
      (one_edge-room 1 (ground arith) (key_of virtual_call))

-- Unit 8 withdrawn, one edge goes and one stays.
two_edges_removal : (remove_tus (8 ∷ []) two_edges).0 ≡ 1
unfolding empty add_edge register attribute remove_tus release_tus release_tu release_all
    release_one start_release finish_release scrub Map.find Map.insert Map.push Map.get_list
    Map.erase edge_key_eq EdgeKey-discrete ℕ_discrete key_of
two_edges_removal = refl

fresh_unit : Map.get_list 9 one_edge.tu_edges ≡ []
unfolding empty add_edge register attribute Map.find Map.insert Map.push Map.get_list ℕ_discrete
fresh_unit = refl

remove_tus-add_edges_example :
    refs_of
      (key_of direct)
      (remove_tus (9 ∷ []) (add_edges (direct ∷ virtual_call ∷ []) (some 9) one_edge)).1
    ≡ refs_of (key_of direct) one_edge
remove_tus-add_edges_example =
    remove_tus-add_edges 9 (direct ∷ virtual_call ∷ []) one_edge (key_of direct)
      one_edge-IsConsistent fresh_unit (one_edge-room 2 (ground arith))

refs_of-remove_tus_example :
    (refs_of (key_of direct) (remove_tus (8 ∷ []) two_edges).1
      ≡ (elim (Map.find (key_of direct) two_edges.edge_index) [
        | none ↦ 0
        | some i ↦ refs_at i two_edges.edges - releases i (8 ∷ []) two_edges.tu_edges
      ]))
    × ((i : ℕ)
        → Option.map key_of (get_elem? (remove_tus (8 ∷ []) two_edges).1.edges i)
          ≡ Option.map key_of (get_elem? two_edges.edges i))
refs_of-remove_tus_example =
    refs_of-remove_tus (8 ∷ []) two_edges (key_of direct) two_edges-IsConsistent

remove_tus-count_example :
    ((remove_tus (8 ∷ []) two_edges).0 + live_edges (remove_tus (8 ∷ []) two_edges).1.edges
      ≡ live_edges two_edges.edges)
    × ((remove_tus (8 ∷ []) two_edges).1.live_edge_count
        ≡ live_edges (remove_tus (8 ∷ []) two_edges).1.edges)
remove_tus-count_example = remove_tus-count (8 ∷ []) two_edges two_edges-IsConsistent

abbrev with_tombstone : EdgeTable
with_tombstone = (remove_tus (8 ∷ []) two_edges).1

with_tombstone-IsConsistent : IsConsistent with_tombstone
with_tombstone-IsConsistent = remove_tus-IsConsistent (8 ∷ []) two_edges two_edges-IsConsistent

refs_of-compact_example :
    refs_of (key_of virtual_call) (compact with_tombstone)
    ≡ refs_of (key_of virtual_call) with_tombstone
refs_of-compact_example =
    refs_of-compact with_tombstone with_tombstone-IsConsistent (key_of virtual_call)
