-- ===== src/ControlFlow/Removing/Loop.antt =====
-- The first loop of `removeTUs`.
use giga_drill_breaker.Common.{
  ℕ, ◌+◌, ◌≡◌, refl, sym, ap, subst, ◌∙◌, ite, ℕ_discrete, Bool, true, false, ◌&&◌, ◌||◌, some,
  none, List, [], ◌∷◌, arith, length, get_elem?, get_elem?-modify, contains, contains-insert_new,
  if◌then◌else◌, if_true, if_false, Bool-cases, Option-cases, inl, inr, ◌==◌, nat_eq,
}
use giga_drill_breaker.ControlFlow.Types.{StoredContext}
use giga_drill_breaker.ControlFlow.State.{Contexts}
use giga_drill_breaker.ControlFlow.Removal.{
  Removal, start_removal, tombstone, remove_context, visit, visit_all,
}
use giga_drill_breaker.ControlFlow.Positions.{positions, positions-tombstone}
use giga_drill_breaker.ControlFlow.Indexed.{is_live}

-- The sets of affected keys hold those of a context.
pub record Covered (se : StoredContext) (r : Removal) : Type 0 where
  pub callee : contains r.callees se.callee ≡ true
  pub caller : contains r.callers se.caller ≡ true
  pub callee_display :
      (se.callee_display == se.callee) ≡ false → contains r.callee_displays se.callee_display ≡ true
  pub caller_display :
      (se.caller_display == se.caller) ≡ false → contains r.caller_displays se.caller_display ≡ true
  pub site : contains r.sites se.site ≡ true

-- What holds in the loop, against the contexts before it.
pub record InLoop (orig : List StoredContext) (r : Removal) : Type 0 where
  pub at :
      (i : ℕ) (se : StoredContext)
      → get_elem? orig i ≡ some se
      → get_elem? r.contexts i ≡ some (if contains r.dead i then tombstone se else se)
  pub beyond : (i : ℕ) → get_elem? orig i ≡ none → get_elem? r.contexts i ≡ none
  pub was_live :
      (i : ℕ)
      → contains r.dead i ≡ true
      → (se : StoredContext) × (get_elem? orig i ≡ some se) × (se.live ≡ true)
  pub cover :
      (i : ℕ) (se : StoredContext)
      → get_elem? orig i ≡ some se
      → contains r.dead i ≡ true
      → Covered se r
  pub counted : r.live_count ≡ length (positions is_live 0 r.contexts)
  pub total : r.removed + r.live_count ≡ length (positions is_live 0 orig)

pub start_removal-InLoop :
    (t : Contexts)
    → t.live_count ≡ length (positions is_live 0 t.contexts)
    → InLoop t.contexts (start_removal t)
unfolding start_removal
start_removal-InLoop t counted = record {
  at = λ i se h. h;
  beyond = λ i h. h;
  was_live = λ i h. absurd (ground arith);
  cover = λ i se e h. absurd (ground arith);
  counted = counted;
  total = omega (arith, counted);
}

module _ (orig : List StoredContext) (i : ℕ) (se : StoredContext)
    (here : get_elem? orig i ≡ some se) (l : se.live ≡ true) (r : Removal)
    (alive : contains r.dead i ≡ false) (ok : InLoop orig r) where
  remove_context-Covered : Covered se (remove_context i se r)
  unfolding remove_context
  remove_context-Covered = record {
    callee = ground (arith, contains-insert_new se.callee se.callee r.callees);
    caller = ground (arith, contains-insert_new se.caller se.caller r.callers);
    callee_display = λ e.
        rw e (
          ground
            (arith, contains-insert_new se.callee_display se.callee_display r.callee_displays));
    caller_display = λ e.
        rw e (
          ground
            (arith, contains-insert_new se.caller_display se.caller_display r.caller_displays));
    site = ground (arith, contains-insert_new se.site se.site r.sites);
  }

  kept-Covered : (x : StoredContext) → Covered x r → Covered x (remove_context i se r)
  unfolding remove_context
  kept-Covered x c = record {
    callee = ground (arith, c.callee, contains-insert_new se.callee x.callee r.callees);
    caller = ground (arith, c.caller, contains-insert_new se.caller x.caller r.callers);
    callee_display = λ e. ground (
      arith,
      c.callee_display e,
      contains-insert_new se.callee_display x.callee_display r.callee_displays,
    );
    caller_display = λ e. ground (
      arith,
      c.caller_display e,
      contains-insert_new se.caller_display x.caller_display r.caller_displays,
    );
    site = ground (arith, c.site, contains-insert_new se.site x.site r.sites);
  }

  pub remove_context-InLoop : InLoop orig (remove_context i se r)
  unfolding remove_context
  remove_context-InLoop =
      let now : get_elem? r.contexts i ≡ some se = ground (arith, ok.at i se here) in
      let one = positions-tombstone i 0 r.contexts now l in
      record {
        at = λ j x e. ground (
          arith,
          ok.at j x e,
          here,
          alive,
          contains-insert_new i j r.dead,
          get_elem?-modify i j tombstone r.contexts,
        );
        beyond = λ j e. ground (arith, ok.beyond j e, get_elem?-modify i j tombstone r.contexts);
        was_live = λ j d. elim (ℕ_discrete i j) [
          | yes e ↦ (se, ap (get_elem? orig) (sym e) ∙ here, l)
          | no ne ↦ ok.was_live j (ground (arith, contains-insert_new i j r.dead))
        ];
        cover = λ j x e d. elim (ℕ_discrete i j) [
          | yes same ↦
              let eq : se ≡ x = ground (arith, here, e, ap (get_elem? orig) same) in
              subst (λ y. Covered y (remove_context i se r)) eq remove_context-Covered
          | no ne ↦ kept-Covered x (ok.cover j x e (ground (arith, contains-insert_new i j r.dead)))
        ];
        counted = omega (arith, one, ok.counted);
        total = omega (arith, one, ok.counted, ok.total);
      }

remove_context_dead :
    (i : ℕ) (se : StoredContext) (r : Removal) (j : ℕ)
    → contains (remove_context i se r).dead j ≡ ite (ℕ_discrete i j) true (contains r.dead j)
unfolding remove_context
remove_context_dead i se r j = contains-insert_new i j r.dead

tombstone_dead :
    (test : StoredContext → Bool) (se : StoredContext)
    → ((tombstone se).live && test (tombstone se)) ≡ false
unfolding tombstone
tombstone_dead test se = refl

-- One visit, and the indices that are dead after it.
module _ (orig : List StoredContext) (test : StoredContext → Bool) where
  visit-none : (i : ℕ) (r : Removal) → get_elem? r.contexts i ≡ none → visit test i r ≡ r
  unfolding visit
  visit-none i r h = rw (h, visit) refl

  visit_skip :
      (i : ℕ) (r : Removal) (y : StoredContext)
      → get_elem? r.contexts i ≡ some y
      → (y.live && test y) ≡ false
      → visit test i r ≡ r
  unfolding visit
  visit_skip i r y h e = rw (h, visit) (if_false (y.live && test y) _ _ e)

  visit_hit :
      (i : ℕ) (r : Removal) (y : StoredContext)
      → get_elem? r.contexts i ≡ some y
      → (y.live && test y) ≡ true
      → visit test i r ≡ remove_context i y r
  unfolding visit
  visit_hit i r y h e = rw (h, visit) (if_true (y.live && test y) _ _ e)

  -- The indices that are dead after a visit.
  abbrev Kills : ℕ → Removal → Removal → Type 0
  Kills i r r' =
      (j : ℕ) (x : StoredContext)
      → get_elem? orig j ≡ some x
      → contains r'.dead j ≡ (contains r.dead j || (i == j && (x.live && test x)))

  abbrev Visited : ℕ → Removal → Removal → Type 0
  Visited i r r' = InLoop orig r' × Kills i r r'

  visit_alive :
      (i : ℕ) (r : Removal) (se : StoredContext)
      → InLoop orig r
      → get_elem? orig i ≡ some se
      → contains r.dead i ≡ false
      → Visited i r (visit test i r)
  visit_alive i r se ok here alive =
      let now : get_elem? r.contexts i ≡ some se = ground (arith, ok.at i se here) in
      let same : (j : ℕ) (x : StoredContext) → get_elem? orig j ≡ some x → i ≡ j → se ≡ x =
        λ j x e s. ground (arith, here, e, ap (get_elem? orig) s) in
      elim (Bool-cases (se.live && test se)) [
        | inr e ↦ subst (Visited i r) (sym (visit_skip i r se now e)) (
          ok,
          λ j x at. elim (ℕ_discrete i j) [
            | yes s ↦ ground (arith, e, ap (λ y. y.live && test y) (same j x at s), alive)
            | no ne ↦ ground arith
          ],
        )
        | inl e ↦
            let l : se.live ≡ true = ground arith in
            subst (Visited i r) (sym (visit_hit i r se now e)) (
              remove_context-InLoop orig i se here l r alive ok,
              λ j x at. elim (ℕ_discrete i j) [
                | yes s ↦ ground (
                  arith,
                  e,
                  ap (λ y. y.live && test y) (same j x at s),
                  remove_context_dead i se r j,
                )
                | no ne ↦ ground (arith, remove_context_dead i se r j)
              ],
            )
      ]

  pub visit-Visited : (i : ℕ) (r : Removal) → InLoop orig r → Visited i r (visit test i r)
  visit-Visited i r ok = elim (Option-cases (get_elem? orig i)) [
    | inl out ↦
        subst (Visited i r) (sym (visit-none i r (ok.beyond i out)))
          (ok, λ j x e. ground (arith, out, e, λ (s : i ≡ j). ap (get_elem? orig) s))
    | inr (se, here) ↦ elim (Bool-cases (contains r.dead i)) [
      | inr alive ↦ visit_alive i r se ok here alive
      | inl gone ↦
          let now : get_elem? r.contexts i ≡ some (tombstone se) =
            ground (arith, ok.at i se here) in
          subst (Visited i r) (sym (visit_skip i r (tombstone se) now (tombstone_dead test se)))
            (ok, λ j x e. ground (arith, gone, λ (s : i ≡ j). ap (contains r.dead) s))
    ]
  ]

  -- All visits of a loop.
  pub visit_all-InLoop :
      (is : List ℕ) (r : Removal)
      → InLoop orig r
      → InLoop orig (visit_all test is r)
        × ((j : ℕ) (x : StoredContext)
            → get_elem? orig j ≡ some x
            → contains (visit_all test is r).dead j
              ≡ (contains r.dead j || (contains is j && (x.live && test x))))
  unfolding visit_all
  visit_all-InLoop [] r ok = (ok, λ j x e. ground arith)
  visit_all-InLoop (i ∷ is) r ok =
      let (ok1, k1) = visit-Visited i r ok in
      let (ok2, k2) = visit_all-InLoop is (visit test i r) ok1 in
      (ok2, λ j x e. ground (arith, k1 j x e, k2 j x e))
