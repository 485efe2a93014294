-- ===== src/Graph/Hierarchy.antt =====
-- `CallGraph::getAllDerivedClasses` of src/callgraph/CallGraph.cpp: the walk down the class hierarchy,
-- which marks a class as visited when it comes off the stack.
pub mod Descendants
pub mod Tests
use giga_drill_breaker.Common.{
  ℕ, zero, suc, String, List, [], ◌∷◌, ◌++◌, none, some, length, contains, if◌then◌else◌, map,
  nat_eq, string_eq,
}
use giga_drill_breaker.Common.Map
use giga_drill_breaker.Interner
use giga_drill_breaker.Graph.Closure.{Relation, targets}
use giga_drill_breaker.Graph.State.{CallGraph}
use giga_drill_breaker.Graph.Lookup.{text_of}

-- The locals of the walk. The head of `stack` is the back of the vector.
pub record Descent : Type 0 where
  pub result : List ℕ
  pub stack : List ℕ
  pub visited : List ℕ

pub push_all : List ℕ → List ℕ → List ℕ
push_all [] stack = stack
push_all (d ∷ ds) stack = push_all ds (d ∷ stack)

-- The body of the loop, after `cls` came off the stack.
pub expand : Relation → ℕ → Descent → Descent
expand relation cls d = if contains d.visited cls then d else record {
  result = d.result ++ Map.get_list cls relation;
  stack = push_all (Map.get_list cls relation) d.stack;
  visited = cls ∷ d.visited;
}

pub descend : ℕ → Relation → Descent → Descent
descend zero relation d = d
descend (suc fuel) relation d = elim d.stack [
  | [] ↦ d
  | cls ∷ rest ↦ descend fuel relation (expand relation cls (record d { stack = rest }))
]

-- A class is expanded once, and each round takes one class off the stack.
pub descent : ℕ → Relation → Descent
descent base relation =
    descend (suc (length (targets relation))) relation
      (record { result = []; stack = base ∷ []; visited = [] })

pub get_all_derived_classes : String → CallGraph → List String
get_all_derived_classes base g = elim (Interner.find base g.interner) [
  | none ↦ []
  | some id ↦ map (λ d. text_of d g) (descent id g.relations.derived_classes).result
]
