-- ===== src/ControlFlow/Sets.antt =====
-- The set tables of ControlFlowIndex.cpp: equal sets are stored once and known by their position; the
-- empty set is number 0.
pub mod Laws
pub mod Keys
use giga_drill_breaker.Common.{
  ℕ, ◌+◌, ◌%◌, ◌^◌, ℕ_discrete, Option, none, some, List, [], ◌∷◌, ◌++◌, length, Eq,
}
use giga_drill_breaker.Common.Map
use giga_drill_breaker.Common.Map.{Map}
use giga_drill_breaker.Contexts.{Bytes, ConditionalGuard, TryCatchScope, key_u32}
use giga_drill_breaker.ControlFlow.Types.{RaiiKind, lock, smart_ptr, other, StoredRaiiLocal}

instance unfoldable pub bytes_eq : Eq Bytes
bytes_eq = record { dec = hlevel ℕ_discrete }

pub record SetTable (A : Type 0) : Type 0 where
  pub sets : List (List A)
  pub ids : Map Bytes ℕ

-- A set's number is a uint32_t.
abbrev pub set_limit : ℕ
set_limit = 2 ^ 32

unfoldable pub seeded : {A : Type 0} → SetTable A
seeded = record { sets = [] ∷ []; ids = [] }

-- What the three `intern…Set` functions have in common.
unfoldable pub intern_set : {A : Type 0} → Bytes → List A → SetTable A → ℕ × SetTable A
intern_set key [] t = (0, t)
intern_set key (x ∷ xs) t = elim (Map.find key t.ids) [
  | some id ↦ (id, t)
  | none ↦
      let id = length t.sets % set_limit in
      (id, record { sets = t.sets ++ (x ∷ xs) ∷ []; ids = Map.insert key id t.ids })
]

unfoldable pub intern_scope_set :
    Bytes → List TryCatchScope → SetTable TryCatchScope → ℕ × SetTable TryCatchScope
intern_scope_set key scopes t = intern_set key scopes t

unfoldable pub intern_guard_set :
    Bytes → List ConditionalGuard → SetTable ConditionalGuard → ℕ × SetTable ConditionalGuard
intern_guard_set key guards t = intern_set key guards t

unfoldable pub intern_raii_set :
    Bytes → List StoredRaiiLocal → SetTable StoredRaiiLocal → ℕ × SetTable StoredRaiiLocal
intern_raii_set key locals t = intern_set key locals t

-- The value that the enum is cast to, a byte.
unfoldable pub raii_code : RaiiKind → ℕ
raii_code lock = 0
raii_code smart_ptr = 1
raii_code other = 2

unfoldable pub raii_key : StoredRaiiLocal → Bytes
raii_key l =
    key_u32 l.type_name
    ++ (key_u32 l.var_name ++ (key_u32 l.decl_location ++ raii_code l.kind ∷ []))

unfoldable pub raii_set_key : List StoredRaiiLocal → Bytes
raii_set_key [] = []
raii_set_key (l ∷ ls) = raii_key l ++ raii_set_key ls
