-- ===== src/Oracle/Paths.antt =====
-- `findPathsToTarget`: the simple paths of calls from the entry points to a function.
pub mod Found
use giga_drill_breaker.Common.{
  ℕ, zero, suc, ◌+◌, ◌<◌, ◌≤◌, ◌≡◌, String, Bool, true, false, not, List, [], ◌∷◌, ◌++◌, length,
  ltb, if◌then◌else◌, has_name,
}

-- The loop over the callers of a node, where `dfs` is the search from one of them. `path` begins with
-- the node; it is the path so far and the set of the names on it.
unfoldable pub try_callers :
    (String → List (List String) → List (List String))
    → ℕ
    → List String
    → List String
    → List (List String)
    → List (List String)
try_callers dfs max path [] out = out
try_callers dfs max path (c ∷ cs) out = elim (has_name path c) [
  | true ↦ try_callers dfs max path cs out
  | false ↦ elim (ltb (length (dfs c out)) max) [
    | true ↦ try_callers dfs max path cs (dfs c out)
    | false ↦ dfs c out
  ]
]

module _ (callers : String → List String) (entries : List String) (max : ℕ) where
  -- The fuel bounds the length of a path.
  unfoldable pub search : ℕ → List String → String → List (List String) → List (List String)
  unfolding try_callers
  search zero path node out = out
  search (suc fuel) path node out =
      if not (ltb (length out) max)
      then out
      else if has_name entries node
      then out ++ (node ∷ path) ∷ []
      else try_callers (search fuel (node ∷ path)) max (node ∷ path) (callers node) out

  unfoldable pub find_paths_to_target : ℕ → String → List (List String)
  find_paths_to_target fuel target = search fuel [] target []
