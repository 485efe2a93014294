-- ===== src/Interner.antt =====
-- include/vycor/callgraph/StringInterner.h: each distinct string has one 32-bit id, its position in
-- the table. The locks leave one observable step inside `intern`, between the probe under the
-- shared lock and the second search under the unique one.
pub mod Laws
pub mod Table
pub mod Growth
mod Tests
use giga_drill_breaker.Common.{
  ℕ, suc, ◌+◌, ◌%◌, ◌^◌, String, Bool, true, false, Option, none, some, List, [], ◌∷◌, ◌++◌, length,
  get_elem?, string_eq,
}
use giga_drill_breaker.Common.Map
use giga_drill_breaker.Common.Map.{Map}

-- `Id` is a uint32_t.
abbrev pub id_limit : ℕ
id_limit = 2 ^ 32

pub record Interner : Type 0 where
  pub strings : List String
  pub index : Map String ℕ

unfoldable pub empty : Interner
empty = record { strings = []; index = [] }

unfoldable pub find : String → Interner → Option ℕ
find s i = Map.find s i.index

pub resolve : ℕ → Interner → Option String
resolve id i = get_elem? i.strings id

unfoldable pub size : Interner → ℕ
size i = length i.strings

-- The part of `intern` under the unique lock.
unfoldable pub intern_locked : String → Interner → ℕ × Interner
unfolding find
intern_locked s i = elim (find s i) [
  | some id ↦ (id, i)
  | none ↦
      let id = length i.strings % id_limit in
      (id, record { strings = i.strings ++ s ∷ []; index = Map.insert s id i.index })
]

unfoldable pub intern : String → Interner → ℕ × Interner
unfolding find intern_locked
intern s i = elim (find s i) [ some id ↦ (id, i) | none ↦ intern_locked s i ]

-- `emplace` keeps the first entry of a string.
emplace : String → ℕ → Map String ℕ → Map String ℕ
emplace s id m = elim (Map.find s m) [ some _ ↦ m | none ↦ Map.insert s id m ]

index_from : ℕ → List String → Map String ℕ → Map String ℕ
index_from id [] m = m
index_from id (s ∷ rest) m = index_from (suc id) rest (emplace s (id % id_limit) m)

rebuild_index : List String → Map String ℕ
unfolding index_from emplace
rebuild_index strings = index_from 0 strings []

-- The move constructor takes the strings and indexes them anew.
pub moved : Interner → Interner
unfolding rebuild_index
moved i = record { strings = i.strings; index = rebuild_index i.strings }

pub install_strings : List String → Interner → Bool × Interner
unfolding rebuild_index
install_strings strings i = elim i.strings [
  | [] ↦ (true, record { strings = strings; index = rebuild_index strings })
  | _ ∷ _ ↦ (false, i)
]
