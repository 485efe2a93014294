-- ===== src/Oracle/Protection.antt =====
-- `queryExceptionProtection`, `queryAllPathContexts` and `queryThrowPropagation`.
pub mod Verdict
use giga_drill_breaker.Common.{
  ℕ, zero, suc, ◌+◌, ◌≡◌, String, Bool, true, false, not, ◌&&◌, ◌||◌, Option, none, some, List, [],
  ◌∷◌, ◌++◌, map, if◌then◌else◌, ◌==◌, string_eq, nat_eq,
}
use giga_drill_breaker.Contexts.{Bytes, CatchHandlerInfo, ConditionalGuard, TryCatchScope}
use giga_drill_breaker.Graph.Types.{CallGraphEdge}
use giga_drill_breaker.ControlFlow.Types.{CallSiteContext}
use giga_drill_breaker.Oracle.{OracleView}
use giga_drill_breaker.Oracle.Subtype.{bytes_of, catches, is_caught_by_scope}
use giga_drill_breaker.Oracle.Paths.{find_paths_to_target}

pub data Protection : Type 0 where
  always_caught sometimes_caught never_caught noexcept_barrier unknown : Protection

pub record PathInfo : Type 0 where
  pub call_chain : List String
  pub try_catches_on_path : List TryCatchScope
  pub guards_on_path : List ConditionalGuard
  pub is_caught : Bool
  pub caught_at : Bytes
  pub caught_by : Bytes

pub record ExceptionPathResult : Type 0 where
  pub protection : Protection
  pub paths : List PathInfo

-- The names of the callers, in the order of the edges.
unfoldable pub caller_names : OracleView → String → List String
caller_names v name = map (λ e. e.caller_name) (v.callers_of name)

-- The first context of a call of `callee`; the loop looks at no other.
unfoldable pub first_context : String → List CallSiteContext → Option CallSiteContext
first_context callee [] = none
first_context callee (ctx ∷ ctxs) =
    if ctx.callee_name == callee then some ctx else first_context callee ctxs

-- What the first handler that catches is recorded as.
unfoldable pub caught_by_of : Bytes → List CatchHandlerInfo → Bytes
caught_by_of exception [] = []
caught_by_of exception (h ∷ hs) =
    if catches exception h
    then (if h.is_catch_all then bytes_of "..." else h.caught_type)
    else caught_by_of exception hs

unfoldable pub add_scope : Bytes → TryCatchScope → PathInfo → PathInfo
add_scope exception scope pi =
    let pi' = record pi { try_catches_on_path = pi.try_catches_on_path ++ scope ∷ [] } in
    if not pi.is_caught && is_caught_by_scope exception scope
    then record pi' {
      is_caught = true;
      caught_at = scope.try_location;
      caught_by = caught_by_of exception scope.handlers;
    }
    else pi'

unfoldable pub add_scopes : Bytes → List TryCatchScope → PathInfo → PathInfo
add_scopes exception [] pi = pi
add_scopes exception (scope ∷ scopes) pi =
    add_scopes exception scopes (add_scope exception scope pi)

-- One call of the chain.
unfoldable pub add_call : OracleView → Bytes → String → String → PathInfo → PathInfo
add_call v exception caller callee pi = elim (first_context callee (v.contexts_for_caller caller)) [
  | none ↦ pi
  | some ctx ↦
      let pi' = add_scopes exception ctx.enclosing_try_catches pi in
      record pi' { guards_on_path = pi'.guards_on_path ++ ctx.enclosing_guards }
]

unfoldable pub add_calls : OracleView → Bytes → List String → PathInfo → PathInfo
add_calls v exception [] pi = pi
add_calls v exception (a ∷ []) pi = pi
add_calls v exception (a ∷ b ∷ r) pi = add_calls v exception (b ∷ r) (add_call v exception a b pi)

unfoldable pub path_info : OracleView → Bytes → List String → PathInfo
path_info v exception chain = add_calls v exception chain (record {
  call_chain = chain;
  try_catches_on_path = [];
  guards_on_path = [];
  is_caught = false;
  caught_at = [];
  caught_by = [];
})

unfoldable pub count_caught : Bool → List PathInfo → ℕ
count_caught b [] = 0
count_caught b (pi ∷ pis) =
    let rest = count_caught b pis in
    elim pi.is_caught [
      | true ↦ (if b then rest + 1 else rest)
      | false ↦ (if b then rest else rest + 1)
    ]

unfoldable pub judge : ℕ → ℕ → Protection
judge caught uncaught =
    if uncaught == 0 then always_caught else if caught == 0 then never_caught else sometimes_caught

unfoldable pub result_of : OracleView → Bytes → List (List String) → ExceptionPathResult
result_of v exception [] = record { protection = unknown; paths = [] }
result_of v exception (chain ∷ chains) =
    let paths = map (path_info v exception) (chain ∷ chains) in
    record {
      protection = judge (count_caught true paths) (count_caught false paths);
      paths = paths;
    }

-- The most paths that `queryExceptionProtection` looks at.
abbrev pub path_limit : ℕ
path_limit = 100

unfoldable pub raw_paths : OracleView → ℕ → List String → ℕ → String → List (List String)
raw_paths v max entries fuel name = find_paths_to_target (caller_names v) entries max fuel name

unfoldable pub query_exception_protection :
    OracleView → ℕ → String → Bytes → List String → ExceptionPathResult
query_exception_protection v fuel name exception entries =
    result_of v exception (raw_paths v path_limit entries fuel name)

unfoldable pub query_throw_propagation :
    OracleView → ℕ → String → Bytes → List String → ExceptionPathResult
query_throw_propagation v fuel throwing thrown entries =
    query_exception_protection v fuel throwing thrown entries

-- `queryAllPathContexts` collects scopes and guards alone.
unfoldable pub collect_call : OracleView → String → String → PathInfo → PathInfo
collect_call v caller callee pi = elim (first_context callee (v.contexts_for_caller caller)) [
  | none ↦ pi
  | some ctx ↦ record pi {
    try_catches_on_path = pi.try_catches_on_path ++ ctx.enclosing_try_catches;
    guards_on_path = pi.guards_on_path ++ ctx.enclosing_guards;
  }
]

unfoldable pub collect_calls : OracleView → List String → PathInfo → PathInfo
collect_calls v [] pi = pi
collect_calls v (a ∷ []) pi = pi
collect_calls v (a ∷ b ∷ r) pi = collect_calls v (b ∷ r) (collect_call v a b pi)

unfoldable pub query_all_path_contexts : OracleView → ℕ → String → List String → ℕ → List PathInfo
query_all_path_contexts v fuel name entries max =
    map
      (λ chain. collect_calls v chain (record {
        call_chain = chain;
        try_catches_on_path = [];
        guards_on_path = [];
        is_caught = false;
        caught_at = [];
        caught_by = [];
      }))
      (raw_paths v max entries fuel name)
