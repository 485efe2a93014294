-- ===== src/Liveness/Report.antt =====
-- The verdicts by display name.
use giga_drill_breaker.Common.{
  ◌≡◌, refl, String, Bool, false, not, ◌&&◌, ◌||◌, Option, none, some, List, [], ◌∷◌, arith, ltb,
  if◌then◌else◌, ◌==◌, string_eq, has_name,
}
use giga_drill_breaker.Common.Map
use giga_drill_breaker.Common.Map.{Map}
use giga_drill_breaker.Graph.Types.{Node}
use giga_drill_breaker.Liveness.{
  Liveness, alive, optimistically_alive, dead, rank, judge, add_result, add_results, get_results,
}

-- Some node carries the name, and its usr is in the set.
abbrev pub any_named : String → List String → List Node → Bool
any_named name set [] = false
any_named name set (n ∷ ns) =
    n.qualified_name == name && has_name set n.usr || any_named name set ns

abbrev pub is_carried : String → List Node → Bool
is_carried name [] = false
is_carried name (n ∷ ns) = n.qualified_name == name || is_carried name ns

named-carried :
    (name : String) (set : List String) (ns : List Node)
    → is_carried name ns ≡ false
    → any_named name set ns ≡ false
named-carried name set [] h = refl
named-carried name set (n ∷ ns) h = ground (arith, named-carried name set ns)

-- The verdict on all nodes of one name.
abbrev pub verdict_on : List String → List String → List Node → String → Option Liveness
verdict_on pessimistic optimistic ns name =
    if not (is_carried name ns)
    then none
    else if any_named name pessimistic ns
    then some alive
    else if any_named name optimistic ns
    then some optimistically_alive
    else some dead

abbrev best : Option Liveness → Option Liveness → Option Liveness
best none b = b
best (some a) none = some a
best (some a) (some b) = if ltb (rank a) (rank b) then some b else some a

find-add_result :
    (name other : String) (l : Liveness) (m : Map String Liveness)
    → Map.find other (add_result name l m)
      ≡ (if name == other then best (Map.find other m) (some l) else Map.find other m)
unfolding add_result
find-add_result name other l m = ground (arith, Map.find-insert name other l m)

best_assoc : (a b c : Option Liveness) → best (best a b) c ≡ best a (best b c)
unfolding rank
best_assoc none b c = refl
best_assoc (some a) none c = refl
best_assoc (some a) (some b) none = ground arith
best_assoc (some a) (some b) (some c) = ground arith

find-add_results :
    (pessimistic optimistic : List String) (ns : List Node) (m : Map String Liveness)
    (name : String)
    → Map.find name (add_results pessimistic optimistic ns m)
      ≡ best (Map.find name m) (verdict_on pessimistic optimistic ns name)
unfolding add_results rank
find-add_results pessimistic optimistic [] m name = ground arith
find-add_results pessimistic optimistic (n ∷ ns) m name =
    let l = judge pessimistic optimistic n.usr in
    ground (
      arith,
      find-add_results pessimistic optimistic ns (add_result n.qualified_name l m) name,
      find-add_result n.qualified_name name l m,
      named-carried name pessimistic ns,
      named-carried name optimistic ns,
      best_assoc (Map.find name m) (some l) (verdict_on pessimistic optimistic ns name),
    )

-- `getResults` gives each display name the best verdict among the nodes that carry it, and no
-- other name a verdict.
pub find-get_results :
    (pessimistic optimistic : List String) (nodes : List Node) (name : String)
    → Map.find name (get_results pessimistic optimistic nodes)
      ≡ verdict_on pessimistic optimistic nodes name
unfolding get_results Map.find
find-get_results pessimistic optimistic nodes name =
    find-add_results pessimistic optimistic nodes [] name
