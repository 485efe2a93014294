-- ===== src/Graph/Closure/Tests.antt =====
-- Runs of the closure, and its theorems on a small relation.
use giga_drill_breaker.Common.{ℕ, ◌≡◌, ◌≢◌, ◌↔◌, refl, true, [], ◌∷◌, contains, nat_eq, ℕ_discrete}
use giga_drill_breaker.Common.Map
use giga_drill_breaker.Graph.Closure.{
  Relation, visit, visit_all, closure_loop, targets, start_walk, closure_walk, transitive_closure,
}
use giga_drill_breaker.Graph.Closure.Termination.{closure_walk_ends}
use giga_drill_breaker.Graph.Closure.Reachable.{Reach, contains-transitive_closure}

-- A cycle through 0, 1 and 2, with a way out to 3.
abbrev circle : Relation
circle = (0, 1 ∷ []) ∷ (1, 2 ∷ 3 ∷ []) ∷ (2, 0 ∷ []) ∷ []

closure_of_circle : transitive_closure 0 circle ≡ 1 ∷ 2 ∷ 3 ∷ []
unfolding transitive_closure closure_walk closure_loop targets start_walk visit_all visit Map.find
    Map.get_list ℕ_discrete
closure_of_circle = refl

closure_walk_ends_example : (closure_walk 0 circle).stack ≡ []
closure_walk_ends_example = closure_walk_ends 0 circle

contains-transitive_closure_example :
    (contains (transitive_closure 0 circle) 3 ≡ true) ↔ (Reach circle 0 3 × ◌≢◌ {A = ℕ} 3 0)
contains-transitive_closure_example = contains-transitive_closure 0 circle 3
