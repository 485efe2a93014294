-- ===== src/Graph/Closure/Termination.antt =====
-- The fuel of the walk: the number of pairs in the relation and one more.
use giga_drill_breaker.Common.{
  ℕ, zero, suc, ◌+◌, ◌≤◌, ◌<◌, ◌≡◌, inl, inr, true, false, List, [], ◌∷◌, ◌++◌, arith, length,
  contains, if◌then◌else◌, contains-append, List-cases, nat_eq,
}
use giga_drill_breaker.Common.Map
use giga_drill_breaker.Graph.Closure.{
  Walk, Relation, visit, visit_all, closure_loop, targets, start_walk, closure_walk,
}

-- The entries of a list that are still to be visited.
abbrev pub unvisited : List ℕ → List ℕ → ℕ
unvisited v [] = 0
unvisited v (x ∷ xs) = (if contains v x then 0 else 1) + unvisited v xs

unvisited-le : (v : List ℕ) (n : ℕ) (xs : List ℕ) → unvisited (v ++ n ∷ []) xs ≤ unvisited v xs
unvisited-le v n [] = omega arith
unvisited-le v n (x ∷ xs) = ground (arith, unvisited-le v n xs, contains-append x v (n ∷ []))

unvisited-lt :
    (v : List ℕ) (n : ℕ) (xs : List ℕ)
    → contains xs n ≡ true
    → contains v n ≡ false
    → unvisited (v ++ n ∷ []) xs < unvisited v xs
unvisited-lt v n [] h new = cc
unvisited-lt v n (x ∷ xs) h new =
    ground (arith, unvisited-lt v n xs, unvisited-le v n xs, contains-append x v (n ∷ []))

module _ (all : List ℕ) where
  abbrev work : Walk → ℕ
  work w = unvisited w.visited all + length w.stack

  work-visit : (n : ℕ) (w : Walk) → contains all n ≡ true → work (visit n w) ≤ work w
  unfolding visit
  work-visit n w h = ground (arith, unvisited-lt w.visited n all)

  work-visit_all :
      (ts : List ℕ) (w : Walk)
      → ((y : ℕ) → contains ts y ≡ true → contains all y ≡ true)
      → work (visit_all ts w) ≤ work w
  unfolding visit_all
  work-visit_all [] w h = omega arith
  work-visit_all (t ∷ ts) w h = omega (
    arith,
    work-visit_all ts (visit t w) (λ y m. h y (ground arith)),
    work-visit t w (h t (ground arith)),
  )

contains-targets :
    (relation : Relation) (c y : ℕ)
    → contains (Map.get_list c relation) y ≡ true
    → contains (targets relation) y ≡ true
unfolding targets Map.get_list Map.find
contains-targets [] c y h = cc
contains-targets ((j, xs) ∷ relation) c y h =
    ground (arith, contains-targets relation c y, contains-append y xs (targets relation))

closure_loop_ends :
    (fuel : ℕ) (relation : Relation) (w : Walk)
    → work (targets relation) w ≤ fuel
    → (closure_loop fuel relation w).stack ≡ []
unfolding closure_loop
closure_loop_ends zero relation w h = ground arith
closure_loop_ends (suc fuel) relation w h = elim (List-cases w.stack) [
  | inl empty ↦ rw (empty, closure_loop) empty
  | inr (cur, rest, e) ↦
      rw (e, closure_loop)
        (closure_loop_ends fuel relation _ (
          ground (
            arith,
            work-visit_all (targets relation) (Map.get_list cur relation)
                (record w { stack = rest }) (contains-targets relation cur),
          )))
]

unvisited-le-length : (v xs : List ℕ) → unvisited v xs ≤ length xs
unvisited-le-length v [] = omega arith
unvisited-le-length v (x ∷ xs) = ground (arith, unvisited-le-length v xs)

-- The loop of `transitiveClosure` ends: within the fuel given, its stack is empty, cycles in the
-- relation included.
pub closure_walk_ends : (start : ℕ) (relation : Relation) → (closure_walk start relation).stack ≡ []
unfolding closure_walk start_walk
closure_walk_ends start relation =
    closure_loop_ends (suc (length (targets relation))) relation (start_walk start)
      (omega (arith, unvisited-le-length (start ∷ []) (targets relation)))
