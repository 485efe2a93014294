-- ===== src/ControlFlow/Types.antt =====
-- The enums and records of include/vycor/callgraph/ControlFlowIndex.h. A text of a scope or a guard
-- is the list of its bytes, since keys are made of it; a text that the interner holds is a `String`.
use giga_drill_breaker.Common.{ℕ, ◌^◌, ◌-◌, String, Bool, true, false, List, [], ◌∷◌}
use giga_drill_breaker.Contexts.{ConditionalGuard, TryCatchScope}

pub data RaiiKind : Type 0 where
  lock smart_ptr other : RaiiKind

pub data NoexceptSpec : Type 0 where
  unspecified noexcept noexcept_false throw_none undetermined : NoexceptSpec

pub record RaiiLocal : Type 0 where
  pub type_name : String
  pub var_name : String
  pub decl_location : String
  pub kind : RaiiKind

pub record CallSiteContext : Type 0 where
  pub caller_name : String
  pub callee_name : String
  pub call_site : String
  pub caller_usr : String
  pub callee_usr : String
  pub tu_path : String
  pub enclosing_try_catches : List TryCatchScope
  pub enclosing_guards : List ConditionalGuard
  pub caller_noexcept : NoexceptSpec
  pub inside_catch_block : Bool
  pub live_raii_locals : List RaiiLocal

-- `kNoString`
abbrev pub no_string : ℕ
no_string = 2 ^ 32 - 1

pub record StoredRaiiLocal : Type 0 where
  pub type_name : ℕ
  pub var_name : ℕ
  pub decl_location : ℕ
  pub kind : RaiiKind

pub record StoredContext : Type 0 where
  pub caller : ℕ
  pub callee : ℕ
  pub caller_display : ℕ
  pub callee_display : ℕ
  pub site : ℕ
  pub tu_path : ℕ
  pub scope_set : ℕ
  pub guard_set : ℕ
  pub raii_set : ℕ
  pub caller_noexcept : NoexceptSpec
  pub inside_catch_block : Bool
  pub live : Bool

-- `xs.empty()`
unfoldable pub is_empty {ℓ} : {A : Type ℓ} → List A → Bool
is_empty [] = true
is_empty (x ∷ xs) = false
