-- ===== src/ControlFlow/Removing.antt =====
-- `removeTUs` takes away what the named translation units contributed.
pub mod Loop
pub mod Maps
pub mod Doomed
use giga_drill_breaker.Common.{
  ℕ, zero, suc, ◌+◌, ◌-◌, ◌≡◌, refl, sym, ap, ◌∙◌, subst, Bool, true, false, not, ◌&&◌, ◌||◌, some,
  none, List, [], ◌∷◌, arith, length, get_elem?, keep, contains, if◌then◌else◌, Bool-cases,
  List-cases, inl, inr, ◌==◌, nat_eq, string_eq, String,
}
use giga_drill_breaker.Common.Map
use giga_drill_breaker.Common.Map.{Map}
use giga_drill_breaker.ControlFlow.Types.{CallSiteContext, StoredContext, no_string}
use giga_drill_breaker.ControlFlow.State.{Contexts, ControlFlowIndex, size}
use giga_drill_breaker.ControlFlow.Removal.{
  Removal, tombstone, survivors, erase_tus, finish_removal, remove_contexts, remove_tus,
}
use giga_drill_breaker.ControlFlow.Positions.{positions, no_positions}
use giga_drill_breaker.ControlFlow.Indexed.{
  IsIndexed, IsLinked, Lists, live_and, is_live, at_callee, at_caller, at_callee_display,
  at_caller_display, at_site, at_tu, is_untracked,
}
use giga_drill_breaker.ControlFlow.Views.{Shows, Views, nil, live, dead}
use giga_drill_breaker.ControlFlow.Later.{Views-later}
use giga_drill_breaker.ControlFlow.Sets.Laws.{SetGrows-refl}
use giga_drill_breaker.ControlFlow.Represents.{Represents}
use Loop.{InLoop}
use Maps.{
  tu_ids, get_list-scrub, get_list-scrub_sites, get_list-erase_tus, after_removal, surviving,
  untouched, scrubbed,
}
use Doomed.{doom, is_from, doom-is_from, remove_contexts_lem}

-- What is left of the contexts that a vector shows when the doomed ones are tombstoned.
Views-after :
    (idx : ControlFlowIndex) (doomed : StoredContext → Bool) (gone : CallSiteContext → Bool)
    (agree : (se : StoredContext) (c : CallSiteContext) → Shows idx se c → doomed se ≡ gone c)
    {ses : List StoredContext} {cs : List CallSiteContext} (ys : List StoredContext)
    → Views idx ses cs
    → ((i : ℕ) (x : StoredContext)
        → get_elem? ses i ≡ some x
        → get_elem? ys i ≡ some (if x.live && doomed x then tombstone x else x))
    → ((i : ℕ) → get_elem? ses i ≡ none → get_elem? ys i ≡ none)
    → Views idx ys (keep (λ c. not (gone c)) cs)
unfolding tombstone
Views-after idx doomed gone agree [] nil at beyond = nil
Views-after idx doomed gone agree (y ∷ ys) nil at beyond = absurd (ground (arith, beyond 0 refl))
Views-after idx doomed gone agree [] (live {se} {c} s l v) at beyond =
    absurd (ground (arith, at 0 se refl))
Views-after idx doomed gone agree (y ∷ ys) (live {se} {c} {ses} {cs} s l v) at beyond =
    let rest =
      Views-after idx doomed gone agree ys v (λ i x e. at (suc i) x e) (λ i e. beyond (suc i) e) in
    let here : y ≡ (if se.live && doomed se then tombstone se else se) =
      ground (arith, at 0 se refl) in
    elim (Bool-cases (gone c)) [
      | inl g ↦
          let d : y.live ≡ false = ground (arith, here, l, g, agree se c s) in
          let k : keep (λ c. not (gone c)) (c ∷ cs) ≡ keep (λ c. not (gone c)) cs =
            ground (arith, g) in
          subst (Views idx (y ∷ ys)) (sym k) (dead d rest)
      | inr g ↦
          let same : se ≡ y = ground (arith, here, g, agree se c s) in
          let k : keep (λ c. not (gone c)) (c ∷ cs) ≡ c ∷ keep (λ c. not (gone c)) cs =
            ground (arith, g) in
          subst (Views idx (y ∷ ys)) (sym k)
            (subst (λ z. Views idx (z ∷ ys) (c ∷ keep (λ c. not (gone c)) cs)) same (live s l rest))
    ]
Views-after idx doomed gone agree [] (dead {se} l v) at beyond =
    absurd (ground (arith, at 0 se refl))
Views-after idx doomed gone agree (y ∷ ys) (dead {se} {ses} {cs} l v) at beyond =
    let rest =
      Views-after idx doomed gone agree ys v (λ i x e. at (suc i) x e) (λ i e. beyond (suc i) e) in
    let d : y.live ≡ false = ground (arith, at 0 se refl, l) in dead d rest

module _ (tus : List String) (idx : ControlFlowIndex) (cs : List CallSiteContext)
    (rep : Represents idx cs) where
  abbrev loop : Removal
  loop = remove_contexts tus idx.interner idx.table

  abbrev before : List StoredContext
  before = idx.table.contexts

  abbrev doomed : StoredContext → Bool
  doomed se = doom tus idx.interner se

  in_loop : InLoop before loop
  in_loop = (remove_contexts_lem tus idx.interner idx.table rep.indexed).0

  killed :
      (j : ℕ) (x : StoredContext)
      → get_elem? before j ≡ some x
      → contains loop.dead j ≡ (x.live && doomed x)
  killed = (remove_contexts_lem tus idx.interner idx.table rep.indexed).1

  -- Where nothing died, nothing is doomed.
  none_doomed :
      loop.dead ≡ []
      → (test : StoredContext → Bool) (i : ℕ) (x : StoredContext) → get_elem? before i ≡ some x
      → (x.live && (test x && doomed x)) ≡ false
  none_doomed e test i x at = ground (arith, killed i x at, ap (λ d. contains d i) e)

  -- The positions that are left under the id of a translation unit.
  erased :
      (k : ℕ)
      → positions (λ x. x.live && (at_tu k x && not (doomed x))) 0 before
        ≡ (if contains (tu_ids tus idx.interner) k then [] else Map.get_list k idx.table.by_tu)
  erased k = elim (Bool-cases (contains (tu_ids tus idx.interner) k)) [
    | inl named ↦ rw named (
        no_positions _ 0 before (λ i x at.
          ground (arith, named, λ (s : x.tu_path ≡ k). ap (contains (tu_ids tus idx.interner)) s)))
    | inr other ↦ rw other (
        sym (
          rep.indexed.linked.tus k
          ∙ untouched before loop in_loop doomed killed (at_tu k) (λ i x at.
            ground
              (arith, other, λ (s : x.tu_path ≡ k). ap (contains (tu_ids tus idx.interner)) s))))
  ]

  tus_after :
      Lists at_tu
        (elim loop.dead [
          | [] ↦ idx.table.by_tu
          | _ ∷ _ ↦ erase_tus tus idx.interner idx.table.by_tu
        ])
        loop.contexts
  unfolding tombstone
  tus_after k = elim (List-cases loop.dead) [
    | inl e ↦ rw e (
        rep.indexed.linked.tus k
        ∙ untouched before loop in_loop doomed killed (at_tu k) (none_doomed e (at_tu k))
        ∙ sym (after_removal before loop in_loop doomed killed (at_tu k) (λ x. refl)))
    | inr (d, rest, e) ↦
        rw (e, get_list-erase_tus tus idx.interner idx.table.by_tu k)
          (sym (after_removal before loop in_loop doomed killed (at_tu k) (λ x. refl) ∙ erased k))
  ]

  untracked_after :
      (elim loop.dead [
        | [] ↦ idx.table.no_provenance
        | _ ∷ _ ↦ survivors loop.dead idx.table.no_provenance
      ])
      ≡ positions (live_and is_untracked) 0 loop.contexts
  unfolding tombstone
  untracked_after = elim (List-cases loop.dead) [
    | inl e ↦ rw e (
        rep.indexed.linked.untracked
        ∙ untouched before loop in_loop doomed killed is_untracked (none_doomed e is_untracked)
        ∙ sym (after_removal before loop in_loop doomed killed is_untracked (λ x. refl)))
    | inr (d, rest, e) ↦
        let kept : survivors loop.dead idx.table.no_provenance
            ≡ positions (live_and is_untracked) 0 loop.contexts =
          ap (survivors loop.dead) rep.indexed.linked.untracked
          ∙ surviving before loop in_loop doomed killed is_untracked
          ∙ sym (after_removal before loop in_loop doomed killed is_untracked (λ x. refl)) in
        subst
          (λ (l : List ℕ).
            (elim l [
              | [] ↦ idx.table.no_provenance
              | _ ∷ _ ↦ survivors loop.dead idx.table.no_provenance
            ])
            ≡ positions (live_and is_untracked) 0 loop.contexts)
          (sym e) kept
  ]

  keep_map :
      (test : ℕ → StoredContext → Bool) (m : Map ℕ (List ℕ)) (m' : Map ℕ (List ℕ)) (ks : List ℕ)
      → ((k : ℕ) (x : StoredContext) → test k (tombstone x) ≡ test k x)
      → ((i k : ℕ) (x : StoredContext)
          → get_elem? before i ≡ some x
          → contains loop.dead i ≡ true
          → test k x ≡ true
          → contains ks k ≡ true)
      → ((k : ℕ)
          → Map.get_list k m'
            ≡ (if contains ks k then survivors loop.dead (Map.get_list k m) else Map.get_list k m))
      → Lists test m before
      → Lists test m' loop.contexts
  keep_map test m m' ks blind covered new lists =
      scrubbed before loop in_loop doomed killed test m m' ks blind covered new lists

  finish_removal-IsIndexed : IsIndexed (finish_removal tus idx.interner loop idx.table)
  unfolding finish_removal tombstone
  finish_removal-IsIndexed = record {
    linked = record {
      callees =
          keep_map at_callee idx.table.by_callee _ loop.callees (λ k x. refl)
            (λ i k x at d t.
              let c = (in_loop.cover i x at d).callee in
              ground (arith, c, λ (s : x.callee ≡ k). ap (contains loop.callees) s))
            (get_list-scrub loop.dead loop.callees idx.table.by_callee) rep.indexed.linked.callees;
      callers =
          keep_map at_caller idx.table.by_caller _ loop.callers (λ k x. refl)
            (λ i k x at d t.
              let c = (in_loop.cover i x at d).caller in
              ground (arith, c, λ (s : x.caller ≡ k). ap (contains loop.callers) s))
            (get_list-scrub loop.dead loop.callers idx.table.by_caller) rep.indexed.linked.callers;
      callee_displays =
          keep_map at_callee_display idx.table.by_callee_display _ loop.callee_displays
            (λ k x. refl)
            (λ i k x at d t.
              let c = (in_loop.cover i x at d).callee_display (ground arith) in
              ground (arith, c, λ (s : x.callee_display ≡ k). ap (contains loop.callee_displays) s))
            (get_list-scrub loop.dead loop.callee_displays idx.table.by_callee_display)
            rep.indexed.linked.callee_displays;
      caller_displays =
          keep_map at_caller_display idx.table.by_caller_display _ loop.caller_displays
            (λ k x. refl)
            (λ i k x at d t.
              let c = (in_loop.cover i x at d).caller_display (ground arith) in
              ground (arith, c, λ (s : x.caller_display ≡ k). ap (contains loop.caller_displays) s))
            (get_list-scrub loop.dead loop.caller_displays idx.table.by_caller_display)
            rep.indexed.linked.caller_displays;
      sites =
          keep_map at_site idx.table.by_site _ loop.sites (λ k x. refl)
            (λ i k x at d t.
              let c = (in_loop.cover i x at d).site in
              ground (arith, c, λ (s : x.site ≡ k). ap (contains loop.sites) s))
            (get_list-scrub_sites loop.dead loop.sites idx.table.by_site) rep.indexed.linked.sites;
      tus = tus_after;
      untracked = untracked_after;
    };
    counted = in_loop.counted;
  }

-- The live records are as many as the contexts that they show.
length-Views :
    (idx : ControlFlowIndex) (n : ℕ) {ses : List StoredContext} {cs : List CallSiteContext}
    → Views idx ses cs
    → length (positions is_live n ses) ≡ length cs
length-Views idx n nil = refl
length-Views idx n (live s l v) = ground (arith, l, length-Views idx (suc n) v)
length-Views idx n (dead l v) = ground (arith, l, length-Views idx (suc n) v)

keep_split :
    (p : CallSiteContext → Bool) (cs : List CallSiteContext)
    → length (keep p cs) + length (keep (λ c. not (p c)) cs) ≡ length cs
keep_split p [] = omega arith
keep_split p (c ∷ cs) = ground (arith, keep_split p cs)

-- `size` is the number of contexts.
pub size-Represents :
    (idx : ControlFlowIndex) (cs : List CallSiteContext) → Represents idx cs → size idx ≡ length cs
unfolding size
size-Represents idx cs r = r.indexed.counted ∙ length-Views idx 0 r.views

-- On an index that stands for a list of contexts, `removeTUs` leaves one that stands for the same
-- list without exactly the contexts that come from the named translation units, or that name no
-- unit and whose call site starts with the path of one and a colon; it returns how many these
-- were.
pub remove_tus-Represents :
    (tus : List String) (idx : ControlFlowIndex) (cs : List CallSiteContext)
    → Represents idx cs
    → Represents (remove_tus tus idx).1 (keep (λ c. not (is_from tus c)) cs)
      × ((remove_tus tus idx).0 ≡ length (keep (is_from tus) cs))
unfolding remove_tus finish_removal
remove_tus-Represents tus idx cs r =
    let l = in_loop tus idx cs r in
    let kill = killed tus idx cs r in
    let v =
      Views-after idx (doom tus idx.interner) (is_from tus)
        (λ se c s. doom-is_from tus idx se c r.dense s)
        (remove_contexts tus idx.interner idx.table).contexts r.views
        (λ i x e. l.at i x e ∙ ap (λ b. some (if b then tombstone x else x)) (kill i x e))
        l.beyond in
    (
      record {
        dense = r.dense;
        scopes = r.scopes;
        guards = r.guards;
        locals = r.locals;
        indexed = finish_removal-IsIndexed tus idx cs r;
        views =
            Views-later idx (remove_tus tus idx).1 (λ id s h. h) (SetGrows-refl idx.scope_sets)
              (SetGrows-refl idx.guard_sets) (SetGrows-refl idx.raii_sets) v;
      },
      omega (
        arith,
        l.total,
        l.counted,
        length-Views idx 0 v,
        length-Views idx 0 r.views,
        keep_split (is_from tus) cs,
      ),
    )
