-- ===== src/Collapse.antt =====
-- src/callgraph/CollapseFilter.cpp: which files lie in collapsed paths. `llvm::StringRef::find` is a
-- parameter, which tells whether a pattern stands anywhere in a path.
pub mod Slashes
pub mod Paths
pub mod Search
mod Tests
use Prim.Native.Char.{code}
use Prim.Native.String.{◌++◌ as ◌<>◌}
use giga_drill_breaker.Common.{
  String, Bool, true, false, ◌||◌, List, [], ◌∷◌, map, if◌then◌else◌, ◌==◌, nat_eq, string_eq,
}

starts_slash : String → Bool
starts_slash String.[] = false
starts_slash (String.◌∷◌ c s) = code c == b'/'

ends_slash : String → Bool
ends_slash String.[] = false
ends_slash (String.◌∷◌ c String.[]) = code c == b'/'
ends_slash (String.◌∷◌ c (String.◌∷◌ d s)) = ends_slash (String.◌∷◌ d s)

lead : String → String
unfolding starts_slash
lead p = if p == "" then p else if starts_slash p then p else "/" <> p

-- To `/pattern/`, so that a pattern matches whole components.
pub normalize : String → String
unfolding ends_slash lead
normalize p = let q = lead p in if q == "" then q else if ends_slash q then q else q <> "/"

-- The constructor of the filter.
pub collapse_filter : List String → List String
collapse_filter patterns = map normalize patterns

-- `finds path pattern` is `path.find(pattern) != npos`.
pub is_collapsed : (String → String → Bool) → List String → String → Bool
is_collapsed finds [] path = false
is_collapsed finds (pattern ∷ patterns) path =
    finds path pattern || is_collapsed finds patterns path
