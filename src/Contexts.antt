-- ===== src/Contexts.antt =====
-- src/callgraph/ControlFlowIndex.cpp, the keys under which equal sets of scopes and guards are stored
-- once. A text is the list of its bytes here, and so is a key.
pub mod Codes
pub mod Keys
mod Tests
use giga_drill_breaker.Common.{
  ℕ, ◌%◌, ◌/◌, ◌^◌, Bool, true, false, List, [], ◌∷◌, ◌++◌, length, if◌then◌else◌,
}

abbrev pub Bytes : Type 0
Bytes = List ℕ

pub record ConditionalGuard : Type 0 where
  pub condition_text : Bytes
  pub location : Bytes
  pub in_true_branch : Bool
  pub is_assertion : Bool

pub record CatchHandlerInfo : Type 0 where
  pub caught_type : Bytes
  pub is_catch_all : Bool
  pub location : Bytes
  pub body_summary : Bytes

pub record TryCatchScope : Type 0 where
  pub try_location : Bytes
  pub enclosing_function : Bytes
  pub nesting_depth : ℕ
  pub handlers : List CatchHandlerInfo

-- The four bytes of a uint32_t, the lowest first.
unfoldable pub key_u32 : ℕ → Bytes
key_u32 v = v % 256 ∷ v / 256 % 256 ∷ v / 65536 % 256 ∷ v / 16777216 % 256 ∷ []

pub key_str : Bytes → Bytes
key_str s = key_u32 (length s % 2 ^ 32) ++ s

pub key_flag : Bool → Bytes
key_flag b = (if b then 1 else 0) ∷ []

pub guard_key : ConditionalGuard → Bytes
guard_key g =
    key_str g.condition_text
    ++ (key_str g.location ++ (key_flag g.in_true_branch ++ key_flag g.is_assertion))

pub guard_set_key : List ConditionalGuard → Bytes
guard_set_key [] = []
guard_set_key (g ∷ gs) = guard_key g ++ guard_set_key gs

pub handler_key : CatchHandlerInfo → Bytes
handler_key h =
    key_str h.caught_type
    ++ (key_flag h.is_catch_all ++ (key_str h.location ++ key_str h.body_summary))

pub handlers_key : List CatchHandlerInfo → Bytes
handlers_key [] = []
handlers_key (h ∷ hs) = handler_key h ++ handlers_key hs

pub scope_key : TryCatchScope → Bytes
scope_key s =
    key_str s.try_location
    ++ (key_str s.enclosing_function
        ++ (key_u32 s.nesting_depth
            ++ (key_u32 (length s.handlers % 2 ^ 32) ++ handlers_key s.handlers)))

pub scope_set_key : List TryCatchScope → Bytes
scope_set_key [] = []
scope_set_key (s ∷ ss) = scope_key s ++ scope_set_key ss
