-- ===== src/Graph/Hierarchy/Tests.antt =====
-- A diamond: two classes derive from 0, and 3 derives from both.
use giga_drill_breaker.Common.{◌≡◌, ◌↔◌, refl, true, [], ◌∷◌, contains, nat_eq, ℕ_discrete}
use giga_drill_breaker.Common.Map
use giga_drill_breaker.Graph.Closure.{Relation, targets}
use giga_drill_breaker.Graph.Closure.Reachable.{Reach}
use giga_drill_breaker.Graph.Hierarchy.{push_all, expand, descend, descent}
use giga_drill_breaker.Graph.Hierarchy.Descendants.{contains-descent}

abbrev diamond : Relation
diamond = (0, 1 ∷ 2 ∷ []) ∷ (1, 3 ∷ []) ∷ (2, 3 ∷ []) ∷ []

-- The class at the bottom is listed once for each of its bases.
descent_of_diamond : (descent 0 diamond).result ≡ 1 ∷ 2 ∷ 3 ∷ 3 ∷ []
unfolding descent descend expand push_all targets Map.find Map.get_list ℕ_discrete
descent_of_diamond = refl

contains-descent_example : (contains (descent 0 diamond).result 3 ≡ true) ↔ Reach diamond 0 3
contains-descent_example = contains-descent 0 diamond 3
