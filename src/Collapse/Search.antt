-- ===== src/Collapse/Search.antt =====
-- A search for a text, which does what `llvm::StringRef::find` documents.
use Prim.Native.String.{◌++◌ as ◌<>◌}
use text.Mathlib.Text.{starts_with}
use text.Mathlib.TextEquality.{starts_with_iff}
use text.Mathlib.TextPositions.{starts_with_of_prefix}
use text.Mathlib.TextLemmas.{tail-eq_of_cons-eq, cons≢nil, nil-append, cons-append}
use giga_drill_breaker.Common.{
  ◌≡◌, sym, ap, ◌∙◌, inl, inr, String, Bool, true, ◌||◌, arith, Bool-cases,
}
use giga_drill_breaker.Collapse.Paths.{Within, IsSearch}

unfoldable pub occurs : String → String → Bool
occurs pattern String.[] = starts_with String.[] pattern
occurs pattern (String.◌∷◌ c text) = starts_with (String.◌∷◌ c text) pattern || occurs pattern text

occurs_sound : (p t : String) → occurs p t ≡ true → Within p t
unfolding occurs
occurs_sound p String.[] h =
    let (after, e) = (starts_with_iff String.[] p).0 h in (String.[], after, nil-append _ ∙ e)
occurs_sound p (String.◌∷◌ c t) h = elim (Bool-cases (occurs p t)) [
  | inl later ↦
      let (before, after, e) = occurs_sound p t later in
      (String.◌∷◌ c before, after, cons-append c before (p <> after) ∙ ap (λ s. String.◌∷◌ c s) e)
  | inr here ↦
      let (after, e) = (starts_with_iff (String.◌∷◌ c t) p).0 (ground arith) in
      (String.[], after, nil-append _ ∙ e)
]

occurs_first : (p t after : String) → p <> after ≡ t → occurs p t ≡ true
unfolding occurs
occurs_first p String.[] after e = starts_with_of_prefix p String.[] (after, e)
occurs_first p (String.◌∷◌ c t) after e =
    let here = starts_with_of_prefix p (String.◌∷◌ c t) (after, e) in ground arith

occurs_complete : (p t before after : String) → before <> (p <> after) ≡ t → occurs p t ≡ true
unfolding occurs
occurs_complete p t String.[] after e = occurs_first p t after (sym (nil-append _) ∙ e)
occurs_complete p String.[] (String.◌∷◌ d before) after e =
    absurd (cons≢nil (sym (cons-append d before (p <> after)) ∙ e))
occurs_complete p (String.◌∷◌ c t) (String.◌∷◌ d before) after e =
    let rest = tail-eq_of_cons-eq (sym (cons-append d before (p <> after)) ∙ e) in
    let later = occurs_complete p t before after rest in ground arith

pub occurs-IsSearch : IsSearch (λ text pattern. occurs pattern text)
occurs-IsSearch text pattern =
    (occurs_sound pattern text, λ (before, after, e). occurs_complete pattern text before after e)
