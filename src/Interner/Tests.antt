-- ===== src/Interner/Tests.antt =====
-- Runs of the interner, and its laws on concrete tables.
use giga_drill_breaker.Common.{
  zero, suc, ◌≡◌, ◌≢◌, ap, ◌==◌, refl, String, true, false, some, List, [], ◌∷◌, arith, string_eq,
}
use giga_drill_breaker.Common.Map
use giga_drill_breaker.Interner.{Interner, empty, find, resolve, size, intern, intern_locked}
use giga_drill_breaker.Interner.Laws.{
  IsDense, empty-IsDense, intern-IsDense, still, other, intern_racing, intern_racing-eq-intern,
}
use giga_drill_breaker.Interner.Table.{IsDistinct}

abbrev main_only : Interner
main_only = (intern "main" empty).1

main_only-size : size main_only ≡ 1
unfolding size empty intern intern_locked Map.find find
main_only-size = refl

main_only-IsDense : IsDense main_only
unfolding empty size
main_only-IsDense = intern-IsDense "main" empty empty-IsDense (ground arith)

intern_again : (intern "main" main_only).0 ≡ 0
unfolding empty intern intern_locked Map.find find Map.insert string_eq
intern_again = refl

intern_second : (intern "run" main_only).0 ≡ 1
unfolding empty intern intern_locked Map.find find Map.insert string_eq
intern_second = refl

resolve_main : resolve 0 main_only ≡ some "main"
unfolding empty resolve intern intern_locked Map.find find
resolve_main = refl

intern_racing-eq-intern_example : intern_racing "main" empty main_only ≡ intern "main" main_only
intern_racing-eq-intern_example = intern_racing-eq-intern "main" (other "main" still)

abbrev two_names : List String
two_names = "main" ∷ "run" ∷ []

main-not-run : ◌≢◌ {A = String} "main" "run"
unfolding string_eq
main-not-run e = let same : true ≡ false = ap (λ s. "main" == s) e in absurd (ground arith)

two_names-IsDistinct : IsDistinct two_names
two_names-IsDistinct s zero zero p q = refl
two_names-IsDistinct s zero (suc zero) p q = absurd (main-not-run (ground arith))
two_names-IsDistinct s (suc zero) zero p q = absurd (main-not-run (ground arith))
two_names-IsDistinct s (suc zero) (suc zero) p q = refl
two_names-IsDistinct s zero (suc (suc b)) p q = absurd (ground arith)
two_names-IsDistinct s (suc zero) (suc (suc b)) p q = absurd (ground arith)
two_names-IsDistinct s (suc (suc a)) b p q = absurd (ground arith)

no_strings : empty.strings ≡ []
unfolding empty
no_strings = refl
