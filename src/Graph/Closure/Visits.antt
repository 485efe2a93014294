-- ===== src/Graph/Closure/Visits.antt =====
-- The inner loop of the walk: what it adds to the three collections.
use giga_drill_breaker.Common.{
  ℕ, ◌≡◌, not, ◌&&◌, ◌||◌, List, [], ◌∷◌, arith, contains, contains-append,
}
use giga_drill_breaker.Graph.Closure.{Walk, visit, visit_all}

pub visited-visit_all :
    (ts : List ℕ) (w : Walk) (y : ℕ)
    → contains (visit_all ts w).visited y ≡ (contains w.visited y || contains ts y)
unfolding visit_all visit
visited-visit_all [] w y = ground arith
visited-visit_all (t ∷ ts) w y =
    ground (arith, visited-visit_all ts (visit t w) y, contains-append y w.visited (t ∷ []))

pub stack-visit_all :
    (ts : List ℕ) (w : Walk) (y : ℕ)
    → contains (visit_all ts w).stack y
      ≡ (contains w.stack y || (contains ts y && not (contains w.visited y)))
unfolding visit_all visit
stack-visit_all [] w y = ground arith
stack-visit_all (t ∷ ts) w y =
    ground (arith, stack-visit_all ts (visit t w) y, contains-append y w.visited (t ∷ []))

pub result-visit_all :
    (ts : List ℕ) (w : Walk) (y : ℕ)
    → contains (visit_all ts w).result y
      ≡ (contains w.result y || (contains ts y && not (contains w.visited y)))
unfolding visit_all visit
result-visit_all [] w y = ground arith
result-visit_all (t ∷ ts) w y = ground (
  arith,
  result-visit_all ts (visit t w) y,
  contains-append y w.visited (t ∷ []),
  contains-append y w.result (t ∷ []),
)
