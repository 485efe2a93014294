-- ===== src/Contexts/Tests.antt =====
-- Keys of two guards whose texts could run into each other.
use giga_drill_breaker.Common.{suc, zero, ◌≡◌, true, false, List, [], ◌∷◌, arith}
use giga_drill_breaker.Contexts.{ConditionalGuard, TryCatchScope, CatchHandlerInfo}
use giga_drill_breaker.Contexts.Keys.{All, IsHandler, IsGuard, IsScope}

abbrev guard : ConditionalGuard
guard = record {
  condition_text = 97 ∷ 98 ∷ [];
  location = 99 ∷ [];
  in_true_branch = true;
  is_assertion = false;
}

abbrev guards : List ConditionalGuard
guards = guard ∷ []

guards_fit : All IsGuard guards
guards_fit zero x at = (ground arith, ground arith)
guards_fit (suc i) x at = absurd (ground arith)

abbrev handler : CatchHandlerInfo
handler = record { caught_type = []; is_catch_all = true; location = 97 ∷ []; body_summary = [] }

abbrev scope : TryCatchScope
scope = record {
  try_location = 97 ∷ [];
  enclosing_function = 98 ∷ [];
  nesting_depth = 0;
  handlers = handler ∷ [];
}

scopes_fit : All IsScope (scope ∷ [])
scopes_fit zero x at = rw⁻¹ same fits
  where
    same : scope ≡ x
    same = ground arith

    fits : IsScope scope
    fits = (ground arith, ground arith, ground arith, ground arith, handlers_fit)
      where
        handlers_fit : All IsHandler (handler ∷ [])
        handlers_fit zero y p = (ground arith, ground arith, ground arith)
        handlers_fit (suc i) y p = absurd (ground arith)
scopes_fit (suc i) x at = absurd (ground arith)
