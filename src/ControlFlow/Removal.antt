-- ===== src/ControlFlow/Removal.antt =====
-- `removeTUs` and `compact` of ControlFlowIndex.cpp.
use Prim.Native.Char.{code}
use Prim.Native.String.{◌++◌ as ◌<>◌}
use giga_drill_breaker.Common.{
  ℕ, ◌+◌, ◌-◌, String, Bool, true, false, not, ◌&&◌, ◌||◌, none, some, List, [], ◌∷◌, ◌++◌, length,
  get_elem?, modify, keep, contains, insert_new, if◌then◌else◌, ◌==◌, nat_eq,
}
use giga_drill_breaker.Common.Map
use giga_drill_breaker.Common.Map.{Map}
use giga_drill_breaker.Interner
use giga_drill_breaker.Interner.{Interner}
use giga_drill_breaker.ControlFlow.Types.{StoredContext}
use giga_drill_breaker.ControlFlow.State.{Contexts, ControlFlowIndex, no_contexts, link}

-- `site.compare(0, prefix.size(), prefix) == 0`
unfoldable pub has_prefix : String → String → Bool
has_prefix String.[] site = true
has_prefix (String.◌∷◌ c p) String.[] = false
has_prefix (String.◌∷◌ c p) (String.◌∷◌ d s) = code c == code d && has_prefix p s

-- The test of `fromRemovedTu` on a call site.
unfoldable pub has_tu_prefix : List String → String → Bool
has_tu_prefix [] site = false
has_tu_prefix (tu ∷ tus) site = has_prefix (tu <> ":") site || has_tu_prefix tus site

unfoldable pub from_removed_tu : List String → Interner → StoredContext → Bool
from_removed_tu tus i se = elim (Interner.resolve se.site i) [
  | none ↦ false
  | some site ↦ has_tu_prefix tus site
]

-- The contexts that the reverse index lists under the paths.
unfoldable pub candidates : List String → Interner → Map ℕ (List ℕ) → List ℕ
candidates [] i by_tu = []
candidates (tu ∷ tus) i by_tu = elim (Interner.find tu i) [
  | none ↦ candidates tus i by_tu
  | some id ↦ Map.get_list id by_tu ++ candidates tus i by_tu
]

-- What the first loop changes, with its local sets.
pub record Removal : Type 0 where
  pub contexts : List StoredContext
  pub dead : List ℕ
  pub callees : List ℕ
  pub callers : List ℕ
  pub callee_displays : List ℕ
  pub caller_displays : List ℕ
  pub sites : List ℕ
  pub live_count : ℕ
  pub removed : ℕ

unfoldable pub start_removal : Contexts → Removal
start_removal t = record {
  contexts = t.contexts;
  dead = [];
  callees = [];
  callers = [];
  callee_displays = [];
  caller_displays = [];
  sites = [];
  live_count = t.live_count;
  removed = 0;
}

unfoldable pub tombstone : StoredContext → StoredContext
tombstone se = record se { live = false }

-- The part of the loop's body after its two tests.
unfoldable pub remove_context : ℕ → StoredContext → Removal → Removal
remove_context i se r = record {
  contexts = modify i tombstone r.contexts;
  dead = insert_new i r.dead;
  callees = insert_new se.callee r.callees;
  callers = insert_new se.caller r.callers;
  callee_displays =
      if se.callee_display == se.callee
      then r.callee_displays
      else insert_new se.callee_display r.callee_displays;
  caller_displays =
      if se.caller_display == se.caller
      then r.caller_displays
      else insert_new se.caller_display r.caller_displays;
  sites = insert_new se.site r.sites;
  live_count = r.live_count - 1;
  removed = r.removed + 1;
}

unfoldable pub visit : (StoredContext → Bool) → ℕ → Removal → Removal
visit test i r = elim (get_elem? r.contexts i) [
  | none ↦ r
  | some se ↦ if se.live && test se then remove_context i se r else r
]

unfoldable pub visit_all : (StoredContext → Bool) → List ℕ → Removal → Removal
visit_all test [] r = r
visit_all test (i ∷ is) r = visit_all test is (visit test i r)

-- The loop over the candidates, and then over the contexts without provenance, which have to pass the
-- test on their call site.
unfoldable pub remove_contexts : List String → Interner → Contexts → Removal
remove_contexts tus i t =
    let r = visit_all (λ se. true) (candidates tus i t.by_tu) (start_removal t) in
    visit_all (from_removed_tu tus i) t.no_provenance r

unfoldable pub survivors : List ℕ → List ℕ → List ℕ
survivors dead is = keep (λ i. not (contains dead i)) is

unfoldable pub scrub : List ℕ → List ℕ → Map ℕ (List ℕ) → Map ℕ (List ℕ)
scrub dead [] m = m
scrub dead (k ∷ ks) m = scrub dead ks (Map.insert k (survivors dead (Map.get_list k m)) m)

-- A call site whose vector comes out empty is dropped.
unfoldable pub scrub_sites : List ℕ → List ℕ → Map ℕ (List ℕ) → Map ℕ (List ℕ)
scrub_sites dead [] m = m
scrub_sites dead (k ∷ ks) m = scrub_sites dead ks (elim (Map.find k m) [
  | none ↦ m
  | some is ↦ elim (survivors dead is) [ [] ↦ Map.erase k m | j ∷ js ↦ Map.insert k (j ∷ js) m ]
])

unfoldable pub erase_tus : List String → Interner → Map ℕ (List ℕ) → Map ℕ (List ℕ)
erase_tus [] i m = m
erase_tus (tu ∷ tus) i m =
    erase_tus tus i (elim (Interner.find tu i) [ none ↦ m | some id ↦ Map.erase id m ])

unfoldable pub finish_removal : List String → Interner → Removal → Contexts → Contexts
finish_removal tus i r t = record {
  contexts = r.contexts;
  by_callee = scrub r.dead r.callees t.by_callee;
  by_caller = scrub r.dead r.callers t.by_caller;
  by_callee_display = scrub r.dead r.callee_displays t.by_callee_display;
  by_caller_display = scrub r.dead r.caller_displays t.by_caller_display;
  by_site = scrub_sites r.dead r.sites t.by_site;
  by_tu = elim r.dead [ [] ↦ t.by_tu | _ ∷ _ ↦ erase_tus tus i t.by_tu ];
  no_provenance = elim r.dead [ [] ↦ t.no_provenance | _ ∷ _ ↦ survivors r.dead t.no_provenance ];
  live_count = r.live_count;
}

unfoldable pub remove_tus : List String → ControlFlowIndex → ℕ × ControlFlowIndex
remove_tus tus idx =
    let r = remove_contexts tus idx.interner idx.table in
    (r.removed, record idx { table = finish_removal tus idx.interner r idx.table })

-- `removeTU`
unfoldable pub remove_tu : String → ControlFlowIndex → ℕ × ControlFlowIndex
remove_tu tu idx = remove_tus (tu ∷ []) idx

-- The loop of `compact`.
unfoldable pub compact_from : List StoredContext → Contexts → Contexts
compact_from [] t = t
compact_from (se ∷ ses) t = compact_from ses (
    if se.live
    then record (link (length t.contexts) se t) { contexts = t.contexts ++ se ∷ [] }
    else t)

unfoldable pub compact : ControlFlowIndex → ControlFlowIndex
compact idx = record idx {
  table = record (compact_from idx.table.contexts no_contexts) {
    live_count = idx.table.live_count;
  };
}
