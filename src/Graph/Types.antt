-- ===== src/Graph/Types.antt =====
-- The enums and records of include/vycor/callgraph/CallGraph.h.
use giga_drill_breaker.Common.{ℕ, String, Bool, ℕ_discrete, Eq}

pub data EdgeKind : Type 0 where
  direct_call virtual_dispatch function_pointer constructor_call destructor_call : EdgeKind
  operator_call template_instantiation lambda_call thread_entry : EdgeKind
  function_pointer_return : EdgeKind

pub data Confidence : Type 0 where
  proven plausible unknown : Confidence

pub data ExecutionContext : Type 0 where
  synchronous thread_spawn async_task packaged_task invoke : ExecutionContext

pub record Node : Type 0 where
  pub qualified_name : String
  pub file : String
  pub line : ℕ
  pub is_entry_point : Bool
  pub is_virtual : Bool
  pub enclosing_class : String
  pub usr : String

pub record CallGraphEdge : Type 0 where
  pub caller_name : String
  pub callee_name : String
  pub kind : EdgeKind
  pub confidence : Confidence
  pub call_site : String
  pub indirection_depth : ℕ
  pub exec_context : ExecutionContext
  pub caller_usr : String
  pub callee_usr : String

-- Names are ids of the interner; `refs` is a uint32_t, and 0 marks a tombstone.
pub record StoredEdge : Type 0 where
  pub caller : ℕ
  pub callee : ℕ
  pub call_site : ℕ
  pub kind : EdgeKind
  pub confidence : Confidence
  pub exec_context : ExecutionContext
  pub indirection_depth : ℕ
  pub refs : ℕ

pub record EdgeKey : Type 0 where
  pub caller : ℕ
  pub callee : ℕ
  pub call_site : ℕ
  pub kind : ℕ
  pub confidence : ℕ
  pub exec_context : ℕ
  pub indirection_depth : ℕ

pub record EdgeRef : Type 0 where
  pub caller : ℕ
  pub callee : ℕ
  pub call_site : ℕ
  pub kind : EdgeKind
  pub confidence : Confidence
  pub exec_context : ExecutionContext
  pub indirection_depth : ℕ

-- The values that the enums convert to.
unfoldable pub kind_code : EdgeKind → ℕ
kind_code direct_call = 0
kind_code virtual_dispatch = 1
kind_code function_pointer = 2
kind_code constructor_call = 3
kind_code destructor_call = 4
kind_code operator_call = 5
kind_code template_instantiation = 6
kind_code lambda_call = 7
kind_code thread_entry = 8
kind_code function_pointer_return = 9

unfoldable pub confidence_code : Confidence → ℕ
confidence_code proven = 0
confidence_code plausible = 1
confidence_code unknown = 2

unfoldable pub context_code : ExecutionContext → ℕ
context_code synchronous = 0
context_code thread_spawn = 1
context_code async_task = 2
context_code packaged_task = 3
context_code invoke = 4

unfoldable pub EdgeKey-discrete : Discrete EdgeKey
EdgeKey-discrete = hlevel ℕ_discrete

instance unfoldable pub edge_key_eq : Eq EdgeKey
edge_key_eq = record { dec = EdgeKey-discrete }

unfoldable pub Kind-discrete : Discrete EdgeKind
Kind-discrete = hlevel

unfoldable pub Confidence-discrete : Discrete Confidence
Confidence-discrete = hlevel

unfoldable pub Context-discrete : Discrete ExecutionContext
Context-discrete = hlevel

-- `keyOf`: the enums are cast to uint8_t.
unfoldable pub key_of : StoredEdge → EdgeKey
key_of e = record {
  caller = e.caller;
  callee = e.callee;
  call_site = e.call_site;
  kind = kind_code e.kind;
  confidence = confidence_code e.confidence;
  exec_context = context_code e.exec_context;
  indirection_depth = e.indirection_depth;
}
