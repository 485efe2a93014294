-- ===== src/Graph/Edges/Removed.antt =====
-- The number that `removeTUs` returns.
use giga_drill_breaker.Common.{
  ℕ, ◌+◌, ◌≡◌, refl, ◌∙◌, inl, inr, List, [], ◌∷◌, arith, get_elem?, Option-cases, nat_eq,
}
use giga_drill_breaker.Common.Map
use giga_drill_breaker.Graph.Types.{StoredEdge}
use giga_drill_breaker.Graph.Edges.{
  EdgeTable, Release, release_one, release_all, release_tu, release_tus, start_release,
  finish_release, remove_tus,
}
use giga_drill_breaker.Graph.Edges.Consistent.{IsConsistent, live_edges, live_edges-modify}
use giga_drill_breaker.Graph.Edges.Releasing.{
  IsReleasing, release_one-IsReleasing, release_tus-IsReleasing,
}
use giga_drill_breaker.Graph.Edges.Removal.{start-IsReleasing, remove_tus-IsConsistent}

abbrev total : Release → ℕ
total r = r.removed + r.table.live_edge_count

total-release_one : (idx : ℕ) (r : Release) → IsReleasing r → total (release_one idx r) ≡ total r
unfolding release_one
total-release_one idx r ok = elim (Option-cases (get_elem? r.table.edges idx)) [
  | inl gone ↦ ground arith
  | inr (e, at) ↦ ground (
    arith,
    ok.counted,
    live_edges-modify idx (λ (e : StoredEdge). record e { refs = 0 }) r.table.edges e at,
  )
]

total-release_all :
    (idxs : List ℕ) (r : Release) → IsReleasing r → total (release_all idxs r) ≡ total r
unfolding release_all
total-release_all [] r ok = refl
total-release_all (idx ∷ idxs) r ok =
    total-release_all idxs (release_one idx r) (release_one-IsReleasing idx r ok)
    ∙ total-release_one idx r ok

total-release_tus :
    (tus : List ℕ) (r : Release) → IsReleasing r → total (release_tus tus r) ≡ total r
unfolding release_tus release_tu
total-release_tus [] r ok = refl
total-release_tus (tu ∷ tus) r ok =
    total-release_tus tus (release_tu tu r) (release_tus-IsReleasing (tu ∷ []) r ok)
    ∙ total-release_all (Map.get_list tu r.table.tu_edges) r ok

total-remove_tus :
    (tus : List ℕ) (t : EdgeTable)
    → IsConsistent t
    → (remove_tus tus t).0 + (remove_tus tus t).1.live_edge_count ≡ t.live_edge_count
unfolding remove_tus finish_release start_release
total-remove_tus tus t ok =
    omega (arith, total-release_tus tus (start_release t) (start-IsReleasing t ok))

-- In a consistent table, the number that `removeTUs` returns and the live edges that it leaves add
-- up to the live edges that were there, and the counter of the table counts those that are left.
pub remove_tus-count :
    (tus : List ℕ) (t : EdgeTable)
    → IsConsistent t
    → ((remove_tus tus t).0 + live_edges (remove_tus tus t).1.edges ≡ live_edges t.edges)
      × ((remove_tus tus t).1.live_edge_count ≡ live_edges (remove_tus tus t).1.edges)
remove_tus-count tus t ok =
    let left = (remove_tus-IsConsistent tus t ok).counted in
    (omega (arith, total-remove_tus tus t ok, left, ok.counted), left)
