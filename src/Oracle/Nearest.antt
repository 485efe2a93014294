-- ===== src/Oracle/Nearest.antt =====
-- `queryNearestCatches`: the walk up the calls until a try block encloses one.
pub mod Trails
use giga_drill_breaker.Common.{
  ℕ, zero, suc, ◌+◌, String, Bool, true, false, Option, none, some, List, [], ◌∷◌, ◌++◌, ltb,
  if◌then◌else◌, has_name, insert_name,
}
use giga_drill_breaker.Contexts.{TryCatchScope}
use giga_drill_breaker.Graph.Types.{CallGraphEdge}
use giga_drill_breaker.Oracle.{OracleView}
use giga_drill_breaker.Oracle.Protection.{first_context}

pub record NearestCatchInfo : Type 0 where
  pub path_segment : List String
  pub scope : TryCatchScope
  pub frames_from_target : ℕ

pub record SearchState : Type 0 where
  pub func : String
  pub path_so_far : List String
  pub depth : ℕ

-- The locals of the walk. The queue is a stack, its last entry first here.
pub record Search : Type 0 where
  pub queue : List SearchState
  pub visited : List String
  pub result : List NearestCatchInfo

abbrev pub depth_limit : ℕ
depth_limit = 20

-- Without a try block the walk goes on from the caller.
unfoldable pub go_on : SearchState → String → Search → Search
go_on st caller s = record s {
  visited = insert_name caller s.visited;
  queue =
      record { func = caller; path_so_far = caller ∷ st.path_so_far; depth = st.depth + 1 }
      ∷ s.queue;
}

unfoldable pub visit_caller : OracleView → SearchState → String → Search → Search
visit_caller v st caller s =
    if has_name s.visited caller
    then s
    else elim (first_context st.func (v.contexts_for_caller caller)) [
      | none ↦ go_on st caller s
      | some ctx ↦ elim ctx.enclosing_try_catches [
        | [] ↦ go_on st caller s
        | scope ∷ _ ↦ record s {
          result =
              s.result
              ++ record {
                path_segment = caller ∷ st.path_so_far;
                scope = scope;
                frames_from_target = st.depth + 1;
              }
                ∷ [];
        }
      ]
    ]

unfoldable pub visit_callers : OracleView → SearchState → List CallGraphEdge → Search → Search
visit_callers v st [] s = s
visit_callers v st (e ∷ es) s = visit_callers v st es (visit_caller v st e.caller_name s)

-- The loop; the fuel bounds its rounds.
unfoldable pub walk : OracleView → ℕ → Search → Search
walk v zero s = s
walk v (suc fuel) s = elim s.queue [
  | [] ↦ s
  | st ∷ rest ↦ walk v fuel (
      if ltb depth_limit st.depth
      then record s { queue = rest }
      else visit_callers v st (v.callers_of st.func) (record s { queue = rest }))
]

unfoldable pub start_search : String → Search
start_search name = record {
  queue = record { func = name; path_so_far = name ∷ []; depth = 0 } ∷ [];
  visited = name ∷ [];
  result = [];
}

unfoldable pub query_nearest_catches : OracleView → ℕ → String → List NearestCatchInfo
query_nearest_catches v fuel name = (walk v fuel (start_search name)).result
