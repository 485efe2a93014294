-- ===== src/Oracle/Tests.antt =====
-- Runs of the oracle on a small program: `main` calls `g` and `h`, and both call `f`; `g` does so in a
-- try block for std::exception.
use giga_drill_breaker.Common.{
  ◌<◌, ◌≤◌, ◌≡◌, ◌≢◌, ◌↔◌, refl, sym, ap, subst, String, true, false, none, List, [], ◌∷◌, arith,
  length, has_name, ℕ_discrete, if◌then◌else◌, ◌==◌, string_eq,
}
use giga_drill_breaker.Contexts.{TryCatchScope}
use giga_drill_breaker.Graph.Types.{CallGraphEdge, direct_call, proven, synchronous}
use giga_drill_breaker.ControlFlow.Types.{CallSiteContext, unspecified}
use giga_drill_breaker.ControlFlow.Sets.{bytes_eq}
use giga_drill_breaker.Oracle.{OracleView}
use giga_drill_breaker.Oracle.Subtype.{
  bytes_of, is_subtype_of, strip, trim_end, drop_const, without_prefix, base_of, climb, catches,
  is_caught_by_scope,
}
use giga_drill_breaker.Oracle.Paths.{find_paths_to_target, search, try_callers}
use giga_drill_breaker.Oracle.Paths.Found.{
  In, here, Extends, found, step, IsRoute, find_paths_iff, find_paths_lem,
}
use giga_drill_breaker.Oracle.Protection.{
  always_caught, sometimes_caught, never_caught, unknown, caller_names, path_limit, raw_paths,
  query_exception_protection, result_of, path_info, add_calls, add_call, add_scopes, add_scope,
  caught_by_of, first_context, count_caught, judge,
}
use giga_drill_breaker.Oracle.Protection.Verdict.{
  AllCaught, is_caught_on, result_of_iff, always_caught_lem,
}
use giga_drill_breaker.Oracle.Nearest.{
  query_nearest_catches, walk, start_search, visit_callers, visit_caller, go_on, NearestCatchInfo,
}
use giga_drill_breaker.Oracle.Nearest.Trails.{IsCatch, nearest_lem}

abbrev calls : String → String → CallGraphEdge
calls caller callee = record {
  caller_name = caller;
  callee_name = callee;
  kind = direct_call;
  confidence = proven;
  call_site = "";
  indirection_depth = 0;
  exec_context = synchronous;
  caller_usr = caller;
  callee_usr = callee;
}

abbrev the_scope : TryCatchScope
the_scope = record {
  try_location = b't' ∷ [];
  enclosing_function = b'g' ∷ [];
  nesting_depth = 0;
  handlers =
      record {
        caught_type = bytes_of "const std::exception &";
        is_catch_all = false;
        location = [];
        body_summary = [];
      }
      ∷ [];
}

abbrev context : String → String → List TryCatchScope → CallSiteContext
context caller callee scopes = record {
  caller_name = caller;
  callee_name = callee;
  call_site = "";
  caller_usr = caller;
  callee_usr = callee;
  tu_path = "";
  enclosing_try_catches = scopes;
  enclosing_guards = [];
  caller_noexcept = unspecified;
  inside_catch_block = false;
  live_raii_locals = [];
}

callers_in : String → List CallGraphEdge
callers_in name =
    if name == "f"
    then calls "g" "f" ∷ calls "h" "f" ∷ []
    else if name == "g"
    then calls "main" "g" ∷ []
    else if name == "h"
    then calls "main" "h" ∷ []
    else []

contexts_in : String → List CallSiteContext
contexts_in name =
    if name == "g"
    then context "g" "f" (the_scope ∷ []) ∷ []
    else if name == "h"
    then context "h" "f" [] ∷ []
    else []

abbrev program : OracleView
program = record {
  callers_of = callers_in;
  context_at_site = λ site. none;
  contexts_for_caller = contexts_in;
}

subtypes :
    (is_subtype_of (bytes_of "std::out_of_range") (bytes_of "const std::exception &") ≡ true)
    × (is_subtype_of (bytes_of "std::exception") (bytes_of "std::out_of_range") ≡ false)
unfolding is_subtype_of bytes_of strip trim_end drop_const without_prefix base_of climb bytes_eq
    ℕ_discrete
subtypes = (refl, refl)

both_paths :
    raw_paths program path_limit ("main" ∷ []) 5 "f"
    ≡ ("main" ∷ "g" ∷ "f" ∷ []) ∷ ("main" ∷ "h" ∷ "f" ∷ []) ∷ []
unfolding raw_paths find_paths_to_target search try_callers caller_names callers_in string_eq
both_paths = refl

sometimes :
    (query_exception_protection program 5 "f"
      (bytes_of "std::out_of_range")
      ("main" ∷ [])).protection
    ≡ sometimes_caught
unfolding query_exception_protection result_of path_info add_calls add_call add_scopes add_scope
    caught_by_of first_context count_caught judge raw_paths find_paths_to_target search try_callers
    caller_names callers_in contexts_in string_eq catches is_caught_by_scope is_subtype_of bytes_of
    strip trim_end drop_const without_prefix base_of climb bytes_eq ℕ_discrete
sometimes = refl

abbrev names : List String
names = "g" ∷ "h" ∷ "main" ∷ []

names_all : (n c : String) → has_name (caller_names program n) c ≡ true → has_name names c ≡ true
unfolding caller_names callers_in
names_all n c m = elim (string_eq.dec n "f") [
  | yes e ↦ ground arith
  | no nf ↦ elim (string_eq.dec n "g") [
    | yes e ↦ ground arith
    | no ng ↦ elim (string_eq.dec n "h") [ yes e ↦ ground arith | no nh ↦ absurd (ground arith) ]
  ]
]

below : length (raw_paths program path_limit ("main" ∷ []) 5 "f") < path_limit
below = omega (arith, ap (length {A = List String}) both_paths)

find_paths_iff_example :
    In
      ("main" ∷ "g" ∷ "f" ∷ [])
      (find_paths_to_target (caller_names program) ("main" ∷ []) path_limit 5 "f")
    ↔ Extends (caller_names program) ("main" ∷ []) "f" [] ("main" ∷ "g" ∷ "f" ∷ [])
unfolding raw_paths
find_paths_iff_example =
    find_paths_iff (caller_names program) ("main" ∷ []) path_limit 5 "f" names names_all
      (omega arith) below ("main" ∷ "g" ∷ "f" ∷ [])

find_paths_lem_example :
    (length (find_paths_to_target (caller_names program) ("main" ∷ []) 1 5 "f") ≤ 1)
    × ((p : List String)
        → In p (find_paths_to_target (caller_names program) ("main" ∷ []) 1 5 "f")
        → IsRoute (caller_names program) ("main" ∷ []) "f" p)
find_paths_lem_example = find_paths_lem (caller_names program) ("main" ∷ []) 1 5 "f"

abbrev protected_chains : List (List String)
protected_chains = ("g" ∷ "f" ∷ []) ∷ []

result_of_iff_example :
    ((result_of program (b'E' ∷ []) protected_chains).protection ≡ unknown
      ↔ (protected_chains ≡ []))
    × ((result_of program (b'E' ∷ []) protected_chains).protection ≡ always_caught
        ↔ ((protected_chains ≢ []) × AllCaught true program (b'E' ∷ []) protected_chains))
    × ((result_of program (b'E' ∷ []) protected_chains).protection ≡ never_caught
        ↔ ((protected_chains ≢ []) × AllCaught false program (b'E' ∷ []) protected_chains))
result_of_iff_example = result_of_iff program (b'E' ∷ []) protected_chains

-- With `g` as the entry point only the protected call is on the way.
only_g :
    (query_exception_protection program 5 "f" (bytes_of "std::out_of_range") ("g" ∷ [])).protection
    ≡ always_caught
unfolding query_exception_protection result_of path_info add_calls add_call add_scopes add_scope
    caught_by_of first_context count_caught judge raw_paths find_paths_to_target search try_callers
    caller_names callers_in contexts_in string_eq catches is_caught_by_scope is_subtype_of bytes_of
    strip trim_end drop_const without_prefix base_of climb bytes_eq ℕ_discrete
only_g = refl

one_path : raw_paths program path_limit ("g" ∷ []) 5 "f" ≡ ("g" ∷ "f" ∷ []) ∷ []
unfolding raw_paths find_paths_to_target search try_callers caller_names callers_in string_eq
one_path = refl

g_to_f : Extends (caller_names program) ("g" ∷ []) "f" [] ("g" ∷ "f" ∷ [])
unfolding caller_names callers_in string_eq
g_to_f = step "g" refl refl refl (found refl)

always_caught_lem_example :
    is_caught_on program (bytes_of "std::out_of_range") ("g" ∷ "f" ∷ []) ≡ true
always_caught_lem_example =
    always_caught_lem program 5 "f" (bytes_of "std::out_of_range") ("g" ∷ []) names names_all
      (omega arith) (omega (arith, ap (length {A = List String}) one_path)) only_g ("g" ∷ "f" ∷ [])
      g_to_f

abbrev the_catch : NearestCatchInfo
the_catch = record { path_segment = "g" ∷ "f" ∷ []; scope = the_scope; frames_from_target = 1 }

one_catch : query_nearest_catches program 4 "f" ≡ the_catch ∷ []
unfolding query_nearest_catches walk start_search visit_callers visit_caller go_on first_context
    callers_in contexts_in string_eq bytes_of
one_catch = refl

nearest_lem_example : IsCatch program "f" the_catch
nearest_lem_example =
    nearest_lem program 4 "f" the_catch (subst (In the_catch) (sym one_catch) here)
