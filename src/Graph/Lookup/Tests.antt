-- ===== src/Graph/Lookup/Tests.antt =====
-- Resolution of names in a small program.
use giga_drill_breaker.Common.{ℕ, ◌≡◌, ◌↔◌, arith, true, false, contains, nat_eq, ◌⊎◌}
use giga_drill_breaker.Graph.State.Building.{Built-IsWellFormed}
use giga_drill_breaker.Graph.State.Tests.{
  with_overload, with_overload-Built, run_known, run_unregistered,
}
use giga_drill_breaker.Graph.Lookup.{is_registered, resolve_usr_ids}
use giga_drill_breaker.Graph.Lookup.Resolution.{Carries, resolve_display}

unregistered : is_registered 1 with_overload ≡ false
unfolding is_registered
unregistered = ground (arith, run_unregistered)

resolve_display_example : (contains (resolve_usr_ids "run" with_overload) 4 ≡ true) ↔ (
    Carries with_overload "run" 4
    ⊎ (◌≡◌ {A = ℕ} 4 1 × ((j : ℕ) → ¬ (Carries with_overload "run" j))))
resolve_display_example =
    resolve_display with_overload "run" 1 (Built-IsWellFormed with_overload-Built) run_known
      unregistered 4
