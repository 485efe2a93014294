-- ===== src/ControlFlow/Removing/Doomed.antt =====
-- Which contexts `removeTUs` takes away.
use Prim.Native.String.{◌++◌ as ◌<>◌}
use giga_drill_breaker.Common.{
  ℕ, ◌≡◌, refl, ap, ◌∙◌, Bool, true, false, not, ◌&&◌, ◌||◌, some, List, [], ◌∷◌, arith, get_elem?,
  contains, contains-append, if◌then◌else◌, Bool-cases, Option-cases, inl, inr, ◌==◌, nat_eq,
  string_eq, String, has_name,
}
use giga_drill_breaker.Common.Map
use giga_drill_breaker.Interner
use giga_drill_breaker.Interner.{Interner}
use giga_drill_breaker.Interner.Laws.{IsDense}
use giga_drill_breaker.ControlFlow.Types.{CallSiteContext, StoredContext, no_string}
use giga_drill_breaker.ControlFlow.State.{Contexts, ControlFlowIndex}
use giga_drill_breaker.ControlFlow.Queries.{resolve_tu}
use giga_drill_breaker.ControlFlow.Removal.{
  has_prefix, has_tu_prefix, from_removed_tu, candidates, start_removal, visit_all, remove_contexts,
}
use giga_drill_breaker.ControlFlow.Positions.{positions, contains-positions}
use giga_drill_breaker.ControlFlow.Indexed.{IsIndexed, Lists, live_and, at_tu, is_untracked}
use giga_drill_breaker.ControlFlow.Views.{Shows, same_name, other_name}
use giga_drill_breaker.ControlFlow.Removing.Loop.{InLoop, start_removal-InLoop, visit_all-InLoop}
use giga_drill_breaker.ControlFlow.Removing.Maps.{tu_ids}

-- A record's translation unit is named, or it has none and its call site starts with a named path.
abbrev pub doom : List String → Interner → StoredContext → Bool
doom tus i se =
    if se.tu_path == no_string then from_removed_tu tus i se else contains (tu_ids tus i) se.tu_path

-- A call site `path:line:column` lies in one of the files.
unfoldable pub lies_in : List String → String → Bool
lies_in [] site = false
lies_in (tu ∷ tus) site = has_prefix (tu <> ":") site || lies_in tus site

has_tu_prefix_lem : (tus : List String) (site : String) → has_tu_prefix tus site ≡ lies_in tus site
unfolding lies_in has_tu_prefix
has_tu_prefix_lem [] site = refl
has_tu_prefix_lem (tu ∷ tus) site =
    ap (λ b. has_prefix (tu <> ":") site || b) (has_tu_prefix_lem tus site)

-- The same of a public context.
unfoldable pub is_from : List String → CallSiteContext → Bool
is_from tus c = if c.tu_path == "" then lies_in tus c.call_site else has_name tus c.tu_path

ids-names :
    (tus : List String) (i : Interner) (id : ℕ) (s : String)
    → IsDense i
    → Interner.resolve id i ≡ some s
    → contains (tu_ids tus i) id ≡ has_name tus s
unfolding tu_ids
ids-names [] i id s dense h = refl
ids-names (tu ∷ tus) i id s dense h = elim (Option-cases (Interner.find tu i)) [
  | inl miss ↦ ground (arith, miss, other_name i tu s id dense miss h, ids-names tus i id s dense h)
  | inr (k, hit) ↦
      ground (arith, hit, same_name i tu s k id dense hit h, ids-names tus i id s dense h)
]

pub doom-is_from :
    (tus : List String) (idx : ControlFlowIndex) (se : StoredContext) (c : CallSiteContext)
    → IsDense idx.interner
    → Shows idx se c
    → doom tus idx.interner se ≡ is_from tus c
unfolding is_from from_removed_tu resolve_tu
doom-is_from tus idx se c dense s = elim (Bool-cases (se.tu_path == no_string)) [
  | inl e ↦ ground (arith, s.tracked, s.call_site, has_tu_prefix_lem tus c.call_site)
  | inr e ↦
      let known : Interner.resolve se.tu_path idx.interner ≡ some c.tu_path =
        ground (arith, s.tu_path) in
      ground (arith, s.tracked, ids-names tus idx.interner se.tu_path c.tu_path dense known)
]

contains_at :
    (p : StoredContext → Bool) (j : ℕ) (xs : List StoredContext) {x : StoredContext}
    → get_elem? xs j ≡ some x
    → contains (positions p 0 xs) j ≡ p x
contains_at p j xs at =
    ap (contains (positions p 0 xs)) (omega arith) ∙ contains-positions p 0 j xs at

candidates_lem :
    (tus : List String) (i : Interner) (t : Contexts)
    → Lists at_tu t.by_tu t.contexts
    → (j : ℕ) (x : StoredContext) → get_elem? t.contexts j ≡ some x
    → contains (candidates tus i t.by_tu) j
      ≡ (x.live && (not (x.tu_path == no_string) && contains (tu_ids tus i) x.tu_path))
unfolding candidates tu_ids
candidates_lem [] i t lists j x at = ground arith
candidates_lem (tu ∷ tus) i t lists j x at = elim (Option-cases (Interner.find tu i)) [
  | inl miss ↦ ground (arith, miss, candidates_lem tus i t lists j x at)
  | inr (id, hit) ↦ ground (
    arith,
    hit,
    candidates_lem tus i t lists j x at,
    contains-append j (Map.get_list id t.by_tu) (candidates tus i t.by_tu),
    ap (λ l. contains l j) (lists id),
    contains_at (live_and (at_tu id)) j t.contexts at,
  )
]

-- The loop takes away exactly the live records that are doomed.
pub remove_contexts_lem :
    (tus : List String) (i : Interner) (t : Contexts)
    → IsIndexed t
    → InLoop t.contexts (remove_contexts tus i t)
      × ((j : ℕ) (x : StoredContext)
          → get_elem? t.contexts j ≡ some x
          → contains (remove_contexts tus i t).dead j ≡ (x.live && doom tus i x))
unfolding remove_contexts start_removal
remove_contexts_lem tus i t ok =
    let (ok1, k1) =
      visit_all-InLoop t.contexts (λ se. true) (candidates tus i t.by_tu) (start_removal t)
        (start_removal-InLoop t ok.counted) in
    let (ok2, k2) =
      visit_all-InLoop t.contexts (from_removed_tu tus i) t.no_provenance
        (visit_all (λ se. true) (candidates tus i t.by_tu) (start_removal t)) ok1 in
    (
      ok2,
      λ j x at. ground (
        arith,
        k1 j x at,
        k2 j x at,
        candidates_lem tus i t ok.linked.tus j x at,
        ap (λ l. contains l j) ok.linked.untracked,
        contains_at (live_and is_untracked) j t.contexts at,
      ),
    )
