-- ===== src/Graph/Closure.antt =====
-- `CallGraph::transitiveClosure` of src/callgraph/CallGraph.cpp: the depth-first walk over the
-- override relation. Ids are natural numbers; a `std::set` of them is a list without repetitions.
pub mod Visits
pub mod Termination
pub mod Reachable
mod Tests
use giga_drill_breaker.Common.{
  ℕ, zero, suc, ◌+◌, List, [], ◌∷◌, ◌++◌, none, some, length, contains, if◌then◌else◌, nat_eq,
}
use giga_drill_breaker.Common.Map
use giga_drill_breaker.Common.Map.{Map}

abbrev pub Relation : Type 0
Relation = Map ℕ (List ℕ)

-- The locals of the walk. The head of `stack` is the back of the vector.
pub record Walk : Type 0 where
  pub result : List ℕ
  pub stack : List ℕ
  pub visited : List ℕ

-- The body of the inner loop.
pub visit : ℕ → Walk → Walk
visit next w = if contains w.visited next then w else record {
  result = w.result ++ next ∷ [];
  stack = next ∷ w.stack;
  visited = w.visited ++ next ∷ [];
}

pub visit_all : List ℕ → Walk → Walk
visit_all [] w = w
visit_all (next ∷ rest) w = visit_all rest (visit next w)

pub closure_loop : ℕ → Relation → Walk → Walk
closure_loop zero relation w = w
closure_loop (suc fuel) relation w = elim w.stack [
  | [] ↦ w
  | cur ∷ rest ↦
      closure_loop fuel relation (visit_all (Map.get_list cur relation) (record w { stack = rest }))
]

-- Every value that the relation leads to, once for each way.
unfoldable pub targets : Relation → List ℕ
targets [] = []
targets ((_, xs) ∷ relation) = xs ++ targets relation

pub start_walk : ℕ → Walk
start_walk start = record { result = []; stack = start ∷ []; visited = start ∷ [] }

-- Each round takes one value off the stack, and a value is pushed once.
pub closure_walk : ℕ → Relation → Walk
closure_walk start relation =
    closure_loop (suc (length (targets relation))) relation (start_walk start)

pub transitive_closure : ℕ → Relation → List ℕ
transitive_closure start relation = elim (Map.find start relation) [
  | none ↦ []
  | some _ ↦ (closure_walk start relation).result
]
