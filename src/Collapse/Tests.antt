-- ===== src/Collapse/Tests.antt =====
-- Runs of the filter on paths.
use giga_drill_breaker.Common.{
  ◌≡◌, ◌↔◌, refl, String, Bool, true, false, List, [], ◌∷◌, has_name, string_eq, ℕ_discrete,
}
use giga_drill_breaker.Collapse.{
  starts_slash, ends_slash, lead, normalize, collapse_filter, is_collapsed,
}
use giga_drill_breaker.Collapse.Search.{occurs, occurs-IsSearch}
use giga_drill_breaker.Collapse.Slashes.{Slashed}
use giga_drill_breaker.Collapse.Paths.{Within, is_collapsed_iff}

abbrev search : String → String → Bool
search text pattern = occurs pattern text

abbrev math : List String
math = "Client/Math" ∷ []

math_inside : is_collapsed search (collapse_filter math) "/src/Client/Math/v.h" ≡ true
unfolding is_collapsed collapse_filter normalize lead starts_slash ends_slash occurs string_eq
    ℕ_discrete
math_inside = refl

math_extras : is_collapsed search (collapse_filter math) "/src/Client/MathExtras/v.h" ≡ false
unfolding is_collapsed collapse_filter normalize lead starts_slash ends_slash occurs string_eq
    ℕ_discrete
math_extras = refl

-- An empty pattern stays empty and collapses every file.
empty_pattern : is_collapsed search (collapse_filter ("" ∷ [])) "/src/main.cpp" ≡ true
unfolding is_collapsed collapse_filter normalize lead starts_slash ends_slash occurs string_eq
    ℕ_discrete
empty_pattern = refl

is_collapsed_iff_example :
    (is_collapsed search (collapse_filter math) "/src/Client/Math/v.h" ≡ true) ↔ (
      (p : String) × (q : String) × (has_name math p ≡ true)
      × Slashed p q
      × Within q "/src/Client/Math/v.h")
is_collapsed_iff_example = is_collapsed_iff search occurs-IsSearch math "/src/Client/Math/v.h"
