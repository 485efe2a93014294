-- ===== src/ControlFlow/Indexed.antt =====
-- The invariant of the contexts and their index maps, which insertions and `compact` keep.
use giga_drill_breaker.Common.{
  ℕ, ◌≡◌, refl, Bool, true, false, not, ◌&&◌, List, [], ◌∷◌, ◌++◌, arith, length, length-append,
  Bool-cases, inl, inr, ◌==◌, nat_eq,
}
use giga_drill_breaker.Common.Map
use giga_drill_breaker.Common.Map.{Map}
use giga_drill_breaker.ControlFlow.Types.{StoredContext, no_string}
use giga_drill_breaker.ControlFlow.State.{Contexts, no_contexts, link, insert_stored}
use giga_drill_breaker.ControlFlow.Positions.{positions, positions-append}

-- What makes a context appear under a key of each map.
abbrev pub at_callee : ℕ → StoredContext → Bool
at_callee k se = se.callee == k

abbrev pub at_caller : ℕ → StoredContext → Bool
at_caller k se = se.caller == k

abbrev pub at_callee_display : ℕ → StoredContext → Bool
at_callee_display k se = not (se.callee_display == se.callee) && se.callee_display == k

abbrev pub at_caller_display : ℕ → StoredContext → Bool
at_caller_display k se = not (se.caller_display == se.caller) && se.caller_display == k

abbrev pub at_site : ℕ → StoredContext → Bool
at_site k se = se.site == k

abbrev pub is_untracked : StoredContext → Bool
is_untracked se = se.tu_path == no_string

abbrev pub at_tu : ℕ → StoredContext → Bool
at_tu k se = not (se.tu_path == no_string) && se.tu_path == k

abbrev pub live_and : (StoredContext → Bool) → StoredContext → Bool
live_and p se = se.live && p se

abbrev pub is_live : StoredContext → Bool
is_live se = se.live

-- Under each key the map lists the live contexts of that key, in order.
abbrev pub Lists : (ℕ → StoredContext → Bool) → Map ℕ (List ℕ) → List StoredContext → Type 0
Lists test m xs = (k : ℕ) → Map.get_list k m ≡ positions (live_and (test k)) 0 xs

pub record IsLinked (t : Contexts) : Type 0 where
  pub callees : Lists at_callee t.by_callee t.contexts
  pub callers : Lists at_caller t.by_caller t.contexts
  pub callee_displays : Lists at_callee_display t.by_callee_display t.contexts
  pub caller_displays : Lists at_caller_display t.by_caller_display t.contexts
  pub sites : Lists at_site t.by_site t.contexts
  pub tus : Lists at_tu t.by_tu t.contexts
  pub untracked : t.no_provenance ≡ positions (live_and is_untracked) 0 t.contexts

-- With the count of live contexts.
pub record IsIndexed (t : Contexts) : Type 0 where
  pub linked : IsLinked t
  pub counted : t.live_count ≡ length (positions is_live 0 t.contexts)

pub no_contexts-IsIndexed : IsIndexed no_contexts
unfolding no_contexts Map.get_list Map.find
no_contexts-IsIndexed = record {
  linked = record {
    callees = λ k. refl;
    callers = λ k. refl;
    callee_displays = λ k. refl;
    caller_displays = λ k. refl;
    sites = λ k. refl;
    tus = λ k. refl;
    untracked = refl;
  };
  counted = refl;
}

module _ (test : ℕ → StoredContext → Bool) (m : Map ℕ (List ℕ)) (xs : List StoredContext)
    (se : StoredContext) (live : se.live ≡ true) (lists : Lists test m xs) where
  push-Lists :
      (key : ℕ)
      → ((k : ℕ) → test k se ≡ (key == k))
      → Lists test (Map.push key (length xs) m) (xs ++ se ∷ [])
  push-Lists key own k = ground (
    arith,
    live,
    own k,
    Map.get_list-push key k (length xs) m,
    positions-append (live_and (test k)) 0 xs se,
    lists k,
    lists key,
  )

  skip-Lists : ((k : ℕ) → test k se ≡ false) → Lists test m (xs ++ se ∷ [])
  skip-Lists other k =
      ground (arith, other k, positions-append (live_and (test k)) 0 xs se, lists k)

-- The entries of a new context at the end.
pub link-IsLinked :
    (se : StoredContext) (t : Contexts)
    → se.live ≡ true
    → IsLinked t
    → IsLinked (record (link (length t.contexts) se t) { contexts = t.contexts ++ se ∷ [] })
unfolding link
link-IsLinked se t live ok = record {
  callees = push-Lists at_callee _ t.contexts se live ok.callees se.callee (λ k. refl);
  callers = push-Lists at_caller _ t.contexts se live ok.callers se.caller (λ k. refl);
  callee_displays = elim (Bool-cases (se.callee_display == se.callee)) [
    | inl e ↦
        rw e (skip-Lists at_callee_display _ t.contexts se live ok.callee_displays (λ k. rw e))
    | inr e ↦ rw e (
        push-Lists at_callee_display _ t.contexts se live ok.callee_displays se.callee_display
          (λ k. rw e))
  ];
  caller_displays = elim (Bool-cases (se.caller_display == se.caller)) [
    | inl e ↦
        rw e (skip-Lists at_caller_display _ t.contexts se live ok.caller_displays (λ k. rw e))
    | inr e ↦ rw e (
        push-Lists at_caller_display _ t.contexts se live ok.caller_displays se.caller_display
          (λ k. rw e))
  ];
  sites = push-Lists at_site _ t.contexts se live ok.sites se.site (λ k. refl);
  tus = elim (Bool-cases (se.tu_path == no_string)) [
    | inl e ↦ rw e (skip-Lists at_tu _ t.contexts se live ok.tus (λ k. rw e))
    | inr e ↦ rw e (push-Lists at_tu _ t.contexts se live ok.tus se.tu_path (λ k. rw e))
  ];
  untracked =
      ground (arith, live, ok.untracked, positions-append (live_and is_untracked) 0 t.contexts se);
}

pub insert_stored-IsIndexed :
    (se : StoredContext) (t : Contexts)
    → se.live ≡ true
    → IsIndexed t
    → IsIndexed (insert_stored se t)
unfolding insert_stored
insert_stored-IsIndexed se t live ok =
    let l = link-IsLinked se t live ok.linked in
    record {
      linked = record {
        callees = l.callees;
        callers = l.callers;
        callee_displays = l.callee_displays;
        caller_displays = l.caller_displays;
        sites = l.sites;
        tus = l.tus;
        untracked = l.untracked;
      };
      counted = ground (
        arith,
        live,
        ok.counted,
        positions-append is_live 0 t.contexts se,
        length-append (positions is_live 0 t.contexts) (length t.contexts ∷ []),
      );
    }
