-- ===== src/Liveness/Tests.antt =====
-- A program whose main function dispatches to `A::run` before it constructs a `B`, whose objects
-- use `B::run`.
use giga_drill_breaker.Common.{
  ℕ, zero, suc, ◌≡◌, ◌↔◌, refl, String, true, false, none, some, List, [], ◌∷◌, arith, get_elem?,
  if◌then◌else◌, ◌==◌, string_eq, has_name, ℕ_discrete,
}
use giga_drill_breaker.Graph.Types.{
  CallGraphEdge, EdgeKind, Confidence, Node, proven, plausible, virtual_dispatch, constructor_call,
  synchronous, Kind-discrete, Confidence-discrete,
}
use giga_drill_breaker.Liveness.{
  GraphView, analyze, rounds, round, drain, for_edges, recheck, start_sweep, mark_names, mark_all,
}
use giga_drill_breaker.Liveness.Lives.{Lives}
use giga_drill_breaker.Liveness.Ends.{IsBounded}
use giga_drill_breaker.Liveness.Verdict.{IsDecided, roots, analyze_lem, analyze_monotone}

abbrev edge : EdgeKind → Confidence → String → CallGraphEdge
edge kind confidence callee = record {
  caller_name = "main";
  callee_name = callee;
  kind = kind;
  confidence = confidence;
  call_site = "a.cpp:1:1";
  indirection_depth = 0;
  exec_context = synchronous;
  caller_usr = "main";
  callee_usr = callee;
}

abbrev maker : Node
maker = record {
  qualified_name = "B::B";
  file = "a.cpp";
  line = 3;
  is_entry_point = false;
  is_virtual = false;
  enclosing_class = "B";
  usr = "B::B";
}

abbrev small : GraphView
small = record {
  callees_of = λ u.
      if u == "main"
      then edge virtual_dispatch plausible "B::run" ∷ edge constructor_call proven "B::B" ∷ []
      else [];
  find_node = λ u. if u == "B::B" then some maker else none;
  get_classes_for_impl = λ u. if u == "B::run" then "B" ∷ [] else [];
  usrs_for_name = λ name. if name == "main" then "main" ∷ [] else [];
}

abbrev usrs : List String
usrs = "main" ∷ "B::run" ∷ "B::B" ∷ []

small-IsDecided : IsDecided small
small-IsDecided u zero e at = ground arith
small-IsDecided u (suc zero) e at = ground arith
small-IsDecided u (suc (suc i)) e at = ground arith

small-IsBounded : IsBounded small usrs ("B" ∷ [])
small-IsBounded = record {
  usr = usr;
  of_name = λ name u h. ground arith;
  class = λ u h. ground arith;
}
  where
    usr :
        (u : String) (i : ℕ) (e : CallGraphEdge)
        → get_elem? (small.callees_of u) i ≡ some e
        → has_name usrs e.callee_usr ≡ true
    usr u zero e at = ground arith
    usr u (suc zero) e at = ground arith
    usr u (suc (suc i)) e at = ground arith

-- The target comes alive in the second round only.
run_alive : has_name (analyze small usrs ("B" ∷ []) true ("main" ∷ []) []).alive "B::run" ≡ true
unfolding analyze rounds round drain for_edges recheck start_sweep mark_names mark_all string_eq
    ℕ_discrete Kind-discrete Confidence-discrete
run_alive = refl

run_pessimistic :
    has_name (analyze small usrs ("B" ∷ []) false ("main" ∷ []) []).alive "B::run" ≡ false
unfolding analyze rounds round drain for_edges recheck start_sweep mark_names mark_all string_eq
    ℕ_discrete Kind-discrete Confidence-discrete
run_pessimistic = refl

maker_alive : has_name (analyze small usrs ("B" ∷ []) false ("main" ∷ []) []).alive "B::B" ≡ true
unfolding analyze rounds round drain for_edges recheck start_sweep mark_names mark_all string_eq
    ℕ_discrete Kind-discrete Confidence-discrete
maker_alive = refl

analyze_lem_example :
    (has_name (analyze small usrs ("B" ∷ []) true ("main" ∷ []) []).alive "B::run" ≡ true)
    ↔ Lives small true (roots small ("main" ∷ []) []) "B::run"
analyze_lem_example =
    analyze_lem small true small-IsDecided usrs ("B" ∷ []) small-IsBounded ("main" ∷ []) [] "B::run"

analyze_monotone_example :
    has_name (analyze small usrs ("B" ∷ []) true ("main" ∷ []) []).alive "B::B" ≡ true
analyze_monotone_example =
    analyze_monotone small usrs ("B" ∷ []) ("main" ∷ []) [] "B::B" small-IsDecided small-IsBounded
      maker_alive
