-- ===== src/ControlFlow/Queries.antt =====
-- The queries of ControlFlowIndex.cpp. An id or an index outside its table is undefined behaviour of
-- the source, and `none` here; on a well-formed index it does not happen.
use giga_drill_breaker.Common.{
  ℕ, String, Bool, true, not, ◌&&◌, ◌||◌, Option, none, some, List, [], ◌∷◌, get_elem?,
  if◌then◌else◌, ◌==◌, nat_eq, string_eq,
}
use giga_drill_breaker.Common.Map
use giga_drill_breaker.Common.Map.{Map}
use giga_drill_breaker.Interner
use giga_drill_breaker.Interner.{Interner}
use giga_drill_breaker.ControlFlow.Types.{
  RaiiLocal, CallSiteContext, no_string, StoredRaiiLocal, StoredContext,
}
use giga_drill_breaker.ControlFlow.State.{ControlFlowIndex}

infixl 5 ◌>>=◌
abbrev pub ◌>>=◌ {ℓ κ} : {A : Type ℓ} {B : Type κ} → Option A → (A → Option B) → Option B
none >>= f = none
some a >>= f = f a

unfoldable pub resolve_local : Interner → StoredRaiiLocal → Option RaiiLocal
resolve_local i l = do
  type_name ← Interner.resolve l.type_name i
  var_name ← Interner.resolve l.var_name i
  decl_location ← Interner.resolve l.decl_location i
  some (record {
    type_name = type_name;
    var_name = var_name;
    decl_location = decl_location;
    kind = l.kind;
  })

unfoldable pub resolve_locals : Interner → List StoredRaiiLocal → Option (List RaiiLocal)
resolve_locals i [] = some []
resolve_locals i (l ∷ ls) = do x ← resolve_local i l; xs ← resolve_locals i ls; some (x ∷ xs)

unfoldable pub resolve_tu : Interner → ℕ → Option String
resolve_tu i tu = if tu == no_string then some "" else Interner.resolve tu i

unfoldable pub materialize : ControlFlowIndex → StoredContext → Option CallSiteContext
materialize idx se = do
  caller_name ← Interner.resolve se.caller_display idx.interner
  callee_name ← Interner.resolve se.callee_display idx.interner
  caller_usr ← Interner.resolve se.caller idx.interner
  callee_usr ← Interner.resolve se.callee idx.interner
  call_site ← Interner.resolve se.site idx.interner
  tu_path ← resolve_tu idx.interner se.tu_path
  scopes ← get_elem? idx.scope_sets.sets se.scope_set
  guards ← get_elem? idx.guard_sets.sets se.guard_set
  stored ← get_elem? idx.raii_sets.sets se.raii_set
  locals ← resolve_locals idx.interner stored
  some (record {
    caller_name = caller_name;
    callee_name = callee_name;
    call_site = call_site;
    caller_usr = caller_usr;
    callee_usr = callee_usr;
    tu_path = tu_path;
    enclosing_try_catches = scopes;
    enclosing_guards = guards;
    caller_noexcept = se.caller_noexcept;
    inside_catch_block = se.inside_catch_block;
    live_raii_locals = locals;
  })

-- The loops over a vector of indices: the live contexts that pass a test, materialized in order.
unfoldable pub gather :
    (StoredContext → Bool) → ControlFlowIndex → List ℕ → Option (List CallSiteContext)
gather test idx [] = some []
gather test idx (i ∷ is) =
    let rest = gather test idx is in
    elim (get_elem? idx.table.contexts i) [
      | none ↦ none
      | some se ↦
          if se.live && test se
          then (materialize idx se >>= λ c. rest >>= λ cs. some (c ∷ cs))
          else rest
    ]

-- The same loop, left at the first context.
unfoldable pub first_of :
    (StoredContext → Bool) → ControlFlowIndex → List ℕ → Option (Option CallSiteContext)
first_of test idx [] = some none
first_of test idx (i ∷ is) =
    let rest = first_of test idx is in
    elim (get_elem? idx.table.contexts i) [
      | none ↦ none
      | some se ↦ if se.live && test se then (materialize idx se >>= λ c. some (some c)) else rest
    ]

-- `indicesFor`: the usr's entry wins over the display name's.
unfoldable pub indices_for : Map ℕ (List ℕ) → Map ℕ (List ℕ) → String → Interner → Option (List ℕ)
indices_for usr_map display_map name i = elim (Interner.find name i) [
  | none ↦ none
  | some id ↦ elim (Map.find id usr_map) [ some is ↦ some is | none ↦ Map.find id display_map ]
]

abbrev pub any : StoredContext → Bool
any se = true

-- The vector at a call site, if there is one.
unfoldable pub indices_at : String → ControlFlowIndex → Option (List ℕ)
indices_at call_site idx = elim (Interner.find call_site idx.interner) [
  | none ↦ none
  | some id ↦ Map.find id idx.table.by_site
]

unfoldable pub context_at_site : String → ControlFlowIndex → Option (Option CallSiteContext)
context_at_site call_site idx = elim (indices_at call_site idx) [
  | none ↦ some none
  | some is ↦ first_of any idx is
]

-- The test of the second `contextAtSite`.
unfoldable pub is_caller : ℕ → StoredContext → Bool
is_caller id se = se.caller == id || se.caller_display == id

unfoldable pub context_of_caller :
    String → String → ControlFlowIndex → Option (Option CallSiteContext)
context_of_caller call_site caller idx = elim (indices_at call_site idx) [
  | none ↦ some none
  | some is ↦ elim (Interner.find caller idx.interner) [
    | none ↦ some none
    | some id ↦ first_of (is_caller id) idx is
  ]
]

unfoldable pub contexts_at_site : String → ControlFlowIndex → Option (List CallSiteContext)
contexts_at_site call_site idx = elim (indices_at call_site idx) [
  | none ↦ some []
  | some is ↦ gather any idx is
]

unfoldable pub contexts_for_callee : String → ControlFlowIndex → Option (List CallSiteContext)
contexts_for_callee name idx =
    elim (indices_for idx.table.by_callee idx.table.by_callee_display name idx.interner) [
      | none ↦ some []
      | some is ↦ gather any idx is
    ]

unfoldable pub contexts_for_caller : String → ControlFlowIndex → Option (List CallSiteContext)
contexts_for_caller name idx =
    elim (indices_for idx.table.by_caller idx.table.by_caller_display name idx.interner) [
      | none ↦ some []
      | some is ↦ gather any idx is
    ]

-- Set 0 is the empty set, so a context with another number stands inside a try block.
unfoldable pub is_protected : StoredContext → Bool
is_protected se = not (se.scope_set == 0)

unfoldable pub protected_calls_to : String → ControlFlowIndex → Option (List CallSiteContext)
protected_calls_to name idx =
    elim (indices_for idx.table.by_callee idx.table.by_callee_display name idx.interner) [
      | none ↦ some []
      | some is ↦ gather is_protected idx is
    ]

unfoldable pub unprotected_calls_to : String → ControlFlowIndex → Option (List CallSiteContext)
unprotected_calls_to name idx =
    elim (indices_for idx.table.by_callee idx.table.by_callee_display name idx.interner) [
      | none ↦ some []
      | some is ↦ gather (λ se. not (is_protected se)) idx is
    ]

-- `forEachContext`, whose callback collects the contexts, as `allContexts` does.
unfoldable pub materialize_live :
    ControlFlowIndex → List StoredContext → Option (List CallSiteContext)
materialize_live idx [] = some []
materialize_live idx (se ∷ ses) =
    let rest = materialize_live idx ses in
    if se.live then (materialize idx se >>= λ c. rest >>= λ cs. some (c ∷ cs)) else rest

unfoldable pub all_contexts : ControlFlowIndex → Option (List CallSiteContext)
all_contexts idx = materialize_live idx idx.table.contexts
