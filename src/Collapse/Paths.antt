-- ===== src/Collapse/Paths.antt =====
-- What the filter answers, without a search.
use Prim.Native.String.{◌++◌ as ◌<>◌}
use giga_drill_breaker.Common.{
  ◌≡◌, ◌↔◌, inl, inr, String, Bool, true, List, [], ◌∷◌, arith, has_name, string_eq, subst,
  Bool-cases,
}
use giga_drill_breaker.Collapse.Slashes.{Slashed, Slashed-normalize, Slashed-unique}
use giga_drill_breaker.Collapse.{normalize, collapse_filter, is_collapsed}

-- The pattern stands somewhere in the text.
abbrev pub Within : String → String → Type 0
Within pattern text = (before after : String) × (before <> (pattern <> after) ≡ text)

-- What `llvm::StringRef::find` documents.
abbrev pub IsSearch : (String → String → Bool) → Type 0
IsSearch finds = (text pattern : String) → (finds text pattern ≡ true) ↔ Within pattern text

module _ (finds : String → String → Bool) (search : IsSearch finds) where
  collapsed_normalized :
      (patterns : List String) (path : String)
      → (is_collapsed finds (collapse_filter patterns) path ≡ true)
        ↔ ((p : String) × (has_name patterns p ≡ true) × Within (normalize p) path)
  unfolding is_collapsed collapse_filter
  collapsed_normalized [] path = (λ h. absurd (ground arith), λ (p, m, w). absurd (ground arith))
  collapsed_normalized (q ∷ patterns) path = (
    λ h. elim (Bool-cases (finds path (normalize q))) [
      | inl here ↦ (q, ground arith, (search path (normalize q)).0 here)
      | inr not_here ↦
          let (p, m, w) = (collapsed_normalized patterns path).0 (ground arith) in
          (p, ground arith, w)
    ],
    λ (p, m, w). elim (string_eq.dec q p) [
      | yes same ↦ let here = (search path (normalize p)).1 w in ground arith
      | no ne ↦
          let later = (collapsed_normalized patterns path).1 (p, ground arith, w) in ground arith
    ],
  )

  -- Given a search that finds a pattern exactly where it stands in the text, a file is collapsed
  -- exactly when for one of the patterns this stands in its path: the pattern with a slash put in
  -- front and a slash put behind where it has none, or nothing for an empty pattern.
  pub is_collapsed_iff :
      (patterns : List String) (path : String)
      → (is_collapsed finds (collapse_filter patterns) path ≡ true)
        ↔ ((p : String) × (q : String) × (has_name patterns p ≡ true) × Slashed p q × Within q path)
  is_collapsed_iff patterns path = (
    λ h.
        let (p, m, w) = (collapsed_normalized patterns path).0 h in
        (p, normalize p, m, Slashed-normalize p, w),
    λ (p, q, m, s, w). (collapsed_normalized patterns path).1 (
      p,
      m,
      subst (λ x. Within x path) (Slashed-unique p q (normalize p) s (Slashed-normalize p)) w,
    ),
  )
