-- ===== src/ControlFlow/Compacting.antt =====
-- `compact` drops the tombstones and keeps what the index stands for; its maps have no empty vector.
use giga_drill_breaker.Common.{
  ℕ, zero, suc, ◌≡◌, ◌≢◌, refl, sym, ap, ◌∙◌, subst, true, some, List, [], ◌∷◌, ◌++◌, arith, length,
  keep, if◌then◌else◌, Bool-cases, if_true, if_false, inl, inr, get_elem?, nat_eq,
}
use giga_drill_breaker.Common.Map
use giga_drill_breaker.Common.Map.{Map}
use giga_drill_breaker.ControlFlow.Types.{CallSiteContext, StoredContext}
use giga_drill_breaker.ControlFlow.State.{
  Contexts, ControlFlowIndex, no_contexts, link, insert_stored, add_call_site_context,
}
use giga_drill_breaker.ControlFlow.Removal.{compact_from, compact}
use giga_drill_breaker.ControlFlow.Positions.{positions}
use giga_drill_breaker.ControlFlow.Indexed.{is_live, IsLinked, no_contexts-IsIndexed, link-IsLinked}
use giga_drill_breaker.ControlFlow.Views.{Views, nil, live, dead}
use giga_drill_breaker.ControlFlow.Later.{Views-later}
use giga_drill_breaker.ControlFlow.Sets.Laws.{SetGrows-refl}
use giga_drill_breaker.ControlFlow.Named.{IsTrim}
use giga_drill_breaker.ControlFlow.Represents.{Represents}

-- The maps that are asked by usr first.
pub record AreTrim (t : Contexts) : Type 0 where
  pub callees : IsTrim t.by_callee
  pub callers : IsTrim t.by_caller

push-IsTrim : (k i : ℕ) (m : Map ℕ (List ℕ)) → IsTrim m → IsTrim (Map.push k i m)
unfolding Map.push
push-IsTrim k i m trim j e = trim j (
    ground
      (arith, Map.find-insert k j (Map.get_list k m ++ i ∷ []) m, not_nil (Map.get_list k m) i))
  where
    not_nil : (xs : List ℕ) (x : ℕ) → xs ++ x ∷ [] ≢ []
    not_nil [] x h = cc
    not_nil (y ∷ ys) x h = cc

pub link-AreTrim : (i : ℕ) (se : StoredContext) (t : Contexts) → AreTrim t → AreTrim (link i se t)
unfolding link
link-AreTrim i se t trim = record {
  callees = push-IsTrim se.callee i t.by_callee trim.callees;
  callers = push-IsTrim se.caller i t.by_caller trim.callers;
}

pub insert_stored-AreTrim :
    (se : StoredContext) (t : Contexts) → AreTrim t → AreTrim (insert_stored se t)
unfolding insert_stored
insert_stored-AreTrim se t trim =
    let l = link-AreTrim (length t.contexts) se t trim in
    record { callees = l.callees; callers = l.callers }

pub add_call_site_context-AreTrim :
    (ctx : CallSiteContext) (idx : ControlFlowIndex)
    → AreTrim idx.table
    → AreTrim (add_call_site_context ctx idx).table
unfolding add_call_site_context
add_call_site_context-AreTrim ctx idx trim = insert_stored-AreTrim _ idx.table trim

pub no_contexts-AreTrim : AreTrim no_contexts
unfolding no_contexts Map.find
no_contexts-AreTrim = record { callees = λ k h. cc; callers = λ k h. cc }

record Rebuilt (ses : List StoredContext) (t t' : Contexts) : Type 0 where
  linked : IsLinked t'
  trim : AreTrim t'
  moved : t'.contexts ≡ t.contexts ++ keep is_live ses

append_nil : (xs : List StoredContext) → xs ++ [] ≡ xs
append_nil [] = refl
append_nil (x ∷ xs) = ap (λ l. x ∷ l) (append_nil xs)

append_one :
    (xs : List StoredContext) (x : StoredContext) (ys : List StoredContext)
    → (xs ++ x ∷ []) ++ ys ≡ xs ++ (x ∷ ys)
append_one [] x ys = refl
append_one (y ∷ xs) x ys = ap (λ l. y ∷ l) (append_one xs x ys)

compact_from_lem :
    (ses : List StoredContext) (t : Contexts)
    → IsLinked t
    → AreTrim t
    → Rebuilt ses t (compact_from ses t)
unfolding compact_from
compact_from_lem [] t ok trim = record {
  linked = ok;
  trim = trim;
  moved = sym (append_nil t.contexts);
}
compact_from_lem (se ∷ ses) t ok trim = elim (Bool-cases se.live) [
  | inl l ↦
      let t' = record (link (length t.contexts) se t) { contexts = t.contexts ++ se ∷ [] } in
      let a = link-AreTrim (length t.contexts) se t trim in
      let rest =
        compact_from_lem ses t' (link-IsLinked se t l ok)
          (record { callees = a.callees; callers = a.callers }) in
      let e : (if se.live then t' else t) ≡ t' = if_true se.live _ _ l in
      record {
        linked = subst (λ u. IsLinked (compact_from ses u)) (sym e) rest.linked;
        trim = subst (λ u. AreTrim (compact_from ses u)) (sym e) rest.trim;
        moved =
            ap (λ u. (compact_from ses u).contexts) e
            ∙ rest.moved
            ∙ append_one t.contexts se (keep is_live ses)
            ∙ ap (λ k. t.contexts ++ k) (sym (if_true se.live _ _ l));
      }
  | inr d ↦
      let t' = record (link (length t.contexts) se t) { contexts = t.contexts ++ se ∷ [] } in
      let rest = compact_from_lem ses t ok trim in
      let e : (if se.live then t' else t) ≡ t = if_false se.live _ _ d in
      record {
        linked = subst (λ u. IsLinked (compact_from ses u)) (sym e) rest.linked;
        trim = subst (λ u. AreTrim (compact_from ses u)) (sym e) rest.trim;
        moved =
            ap (λ u. (compact_from ses u).contexts) e
            ∙ rest.moved
            ∙ ap (λ k. t.contexts ++ k) (sym (if_false se.live _ _ d));
      }
]

Views-keep :
    (idx : ControlFlowIndex) {ses : List StoredContext} {cs : List CallSiteContext}
    → Views idx ses cs
    → Views idx (keep is_live ses) cs
Views-keep idx nil = nil
Views-keep idx (live {se} {c} {ses} {cs} s l v) =
    subst (λ k. Views idx k (c ∷ cs)) (sym (if_true se.live _ _ l)) (live s l (Views-keep idx v))
Views-keep idx (dead {se} {ses} {cs} l v) =
    subst (λ k. Views idx k cs) (sym (if_false se.live _ _ l)) (Views-keep idx v)

length-keep :
    (n m : ℕ) (ses : List StoredContext)
    → length (positions is_live n (keep is_live ses)) ≡ length (positions is_live m ses)
length-keep n m [] = refl
length-keep n m (se ∷ ses) =
    ground (arith, length-keep (suc n) (suc m) ses, length-keep n (suc m) ses)

all_live :
    (ses : List StoredContext) (i : ℕ) (se : StoredContext)
    → get_elem? (keep is_live ses) i ≡ some se
    → se.live ≡ true
all_live [] i se h = absurd (ground arith)
all_live (x ∷ ses) zero se h = ground (arith, all_live ses zero se)
all_live (x ∷ ses) (suc i) se h = ground (arith, all_live ses (suc i) se, all_live ses i se)

-- `compact` leaves the list of contexts that an index stands for as it is, keeps no tombstone, and
-- leaves no empty vector in the maps of callees and callers.
pub compact-Represents :
    (idx : ControlFlowIndex) (cs : List CallSiteContext)
    → Represents idx cs
    → Represents (compact idx) cs
      × AreTrim (compact idx).table
      × ((i : ℕ) (se : StoredContext)
          → get_elem? (compact idx).table.contexts i ≡ some se
          → se.live ≡ true)
unfolding compact no_contexts
compact-Represents idx cs r =
    let b =
      compact_from_lem idx.table.contexts no_contexts no_contexts-IsIndexed.linked
        no_contexts-AreTrim in
    let v =
      Views-later idx (compact idx) (λ id s h. h) (SetGrows-refl idx.scope_sets)
        (SetGrows-refl idx.guard_sets) (SetGrows-refl idx.raii_sets) (Views-keep idx r.views) in
    (
      record {
        dense = r.dense;
        scopes = r.scopes;
        guards = r.guards;
        locals = r.locals;
        indexed = record {
          linked = record {
            callees = b.linked.callees;
            callers = b.linked.callers;
            callee_displays = b.linked.callee_displays;
            caller_displays = b.linked.caller_displays;
            sites = b.linked.sites;
            tus = b.linked.tus;
            untracked = b.linked.untracked;
          };
          counted =
              r.indexed.counted
              ∙ sym (length-keep 0 0 idx.table.contexts)
              ∙ ap (λ k. length (positions is_live 0 k)) (sym b.moved);
        };
        views = subst (λ k. Views (compact idx) k cs) (sym b.moved) v;
      },
      record { callees = b.trim.callees; callers = b.trim.callers },
      λ i se h. all_live idx.table.contexts i se (ap (λ k. get_elem? k i) (sym b.moved) ∙ h),
    )
