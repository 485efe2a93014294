-- ===== src/Oracle.antt =====
-- src/callgraph/ControlFlowOracle.cpp: which exceptions are caught on the way from a function to the
-- entry points. `OracleView` is what the oracle asks of the call graph and of the control-flow index.
-- The summaries in words are left out.
pub mod Subtype
pub mod Paths
pub mod Protection
pub mod Nearest
mod Tests
use giga_drill_breaker.Common.{String, Bool, true, false, not, Option, none, some, List, [], ◌∷◌}
use giga_drill_breaker.Contexts.{Bytes, ConditionalGuard, TryCatchScope}
use giga_drill_breaker.Graph.Types.{CallGraphEdge}
use giga_drill_breaker.Graph.State.{CallGraph}
use giga_drill_breaker.Graph.Lookup.{callers_of}
use giga_drill_breaker.ControlFlow.Types.{
  CallSiteContext, NoexceptSpec, unspecified, noexcept, noexcept_false, throw_none, undetermined,
  is_empty,
}
use giga_drill_breaker.ControlFlow.State.{ControlFlowIndex}
use giga_drill_breaker.ControlFlow.Queries.{context_at_site, contexts_for_caller}

pub record OracleView : Type 0 where
  pub callers_of : String → List CallGraphEdge
  pub context_at_site : String → Option CallSiteContext
  pub contexts_for_caller : String → List CallSiteContext

-- The constructor, over a graph and an index. What would be undefined behaviour of the index, which a
-- well-formed one does not have, is no context here.
pub view_of : CallGraph → ControlFlowIndex → OracleView
view_of g idx = record {
  callers_of = λ name. callers_of name g;
  context_at_site = λ site. elim (context_at_site site idx) [ none ↦ none | some o ↦ o ];
  contexts_for_caller = λ name. elim (contexts_for_caller name idx) [ none ↦ [] | some cs ↦ cs ];
}

pub record CallSiteExceptionInfo : Type 0 where
  pub call_site : String
  pub caller : String
  pub callee : String
  pub is_under_try_catch : Bool
  pub enclosing_scopes : List TryCatchScope
  pub enclosing_guards : List ConditionalGuard
  pub caller_noexcept : NoexceptSpec
  pub would_terminate_if_throws : Bool

pub is_noexcept : NoexceptSpec → Bool
is_noexcept unspecified = false
is_noexcept noexcept = true
is_noexcept noexcept_false = false
is_noexcept throw_none = false
is_noexcept undetermined = false

pub query_call_site : OracleView → String → CallSiteExceptionInfo
query_call_site v site = elim (v.context_at_site site) [
  | none ↦ record {
    call_site = site;
    caller = "";
    callee = "";
    is_under_try_catch = false;
    enclosing_scopes = [];
    enclosing_guards = [];
    caller_noexcept = unspecified;
    would_terminate_if_throws = false;
  }
  | some ctx ↦ record {
    call_site = site;
    caller = ctx.caller_name;
    callee = ctx.callee_name;
    is_under_try_catch = not (is_empty ctx.enclosing_try_catches);
    enclosing_scopes = ctx.enclosing_try_catches;
    enclosing_guards = ctx.enclosing_guards;
    caller_noexcept = ctx.caller_noexcept;
    would_terminate_if_throws = is_noexcept ctx.caller_noexcept;
  }
]
