-- ===== src/ControlFlow/Adding.antt =====
-- `addCallSiteContext` appends one public context to those that the index stands for.
pub mod Names
pub mod Locals
use giga_drill_breaker.Common.{
  ℕ, zero, suc, ◌+◌, ◌*◌, ◌<◌, ◌≤◌, ◌≡◌, ◌≢◌, refl, sym, ap, ◌∙◌, true, false, some, List, [], ◌∷◌,
  ◌++◌, arith, String, length, ◌==◌, nat_eq, string_eq, Bool-cases, inl, inr,
}
use giga_drill_breaker.Interner
use giga_drill_breaker.Interner.{Interner, id_limit, size}
use giga_drill_breaker.Interner.Laws.{IsDense, resolve-lt-size}
use giga_drill_breaker.Interner.Growth.{Grows, Grows-trans}
use giga_drill_breaker.Contexts.{scope_set_key, guard_set_key}
use giga_drill_breaker.Contexts.Keys.{
  All, IsScope, IsGuard, scope_set_key_injective, guard_set_key_injective,
}
use giga_drill_breaker.ControlFlow.Types.{CallSiteContext, StoredContext, no_string}
use giga_drill_breaker.ControlFlow.Sets.{
  set_limit, raii_set_key, intern_scope_set, intern_guard_set, intern_raii_set,
}
use giga_drill_breaker.ControlFlow.Sets.Keys.{IsLocal, raii_set_key_injective}
use giga_drill_breaker.ControlFlow.Sets.Laws.{intern_set-Interned}
use giga_drill_breaker.ControlFlow.State.{
  Contexts, ControlFlowIndex, intern_names, intern_locals, insert_stored, add_call_site_context,
}
use giga_drill_breaker.ControlFlow.Queries.{resolve_tu}
use giga_drill_breaker.ControlFlow.Indexed.{insert_stored-IsIndexed}
use giga_drill_breaker.ControlFlow.Views.{Shows, Views, nil, live, dead}
use giga_drill_breaker.ControlFlow.Later.{Grows-Keeps, Views-later}
use giga_drill_breaker.ControlFlow.Represents.{Represents}
use Names.{normal, Named, Named-later, intern_names_lem}
use Locals.{intern_locals_lem}

-- The texts of the sets fit their lengths, and neither the ids nor the set numbers run out.
pub record HasRoom (ctx : CallSiteContext) (idx : ControlFlowIndex) : Type 0 where
  pub names : size idx.interner + 6 + 3 * length ctx.live_raii_locals ≤ no_string
  pub scopes_fit : All IsScope ctx.enclosing_try_catches
  pub guards_fit : All IsGuard ctx.enclosing_guards
  pub scopes : length idx.scope_sets.sets < set_limit
  pub guards : length idx.guard_sets.sets < set_limit
  pub locals : length idx.raii_sets.sets < set_limit

pub Views-append :
    (idx : ControlFlowIndex) {ses : List StoredContext} {cs : List CallSiteContext}
    (se : StoredContext) (c : CallSiteContext)
    → Views idx ses cs
    → Shows idx se c
    → se.live ≡ true
    → Views idx (ses ++ se ∷ []) (cs ++ c ∷ [])
Views-append idx se c nil s l = live s l nil
Views-append idx se c (live s' l' v) s l = live s' l' (Views-append idx se c v s l)
Views-append idx se c (dead l' v) s l = dead l' (Views-append idx se c v s l)

-- The path of the translation unit comes back, and the sentinel stands for none.
tu_shown :
    (ctx : CallSiteContext) (se : StoredContext) (j : Interner)
    → Named ctx se j
    → IsDense j
    → size j ≤ no_string
    → (resolve_tu j se.tu_path ≡ some ctx.tu_path)
      × ((ctx.tu_path == "") ≡ (se.tu_path == no_string))
unfolding resolve_tu
tu_shown ctx se j named dense fits = elim (Bool-cases (ctx.tu_path == "")) [
  | inl e ↦ let u = named.untracked e in (ground (arith, u), ground (arith, u))
  | inr e ↦
      let t = dense.of_index _ _ (named.tu_path e) in
      let b = resolve-lt-size j se.tu_path t in (ground (arith, t, b), ground (arith, b))
]

-- On an index that stands for a list of contexts and has room for ids and sets,
-- `addCallSiteContext` appends the context to that list, as it was given but for an empty usr,
-- which becomes the name; every other context is shown as before.
pub add_call_site_context-Represents :
    (ctx : CallSiteContext) (idx : ControlFlowIndex) (cs : List CallSiteContext)
    → Represents idx cs
    → HasRoom ctx idx
    → Represents (add_call_site_context ctx idx) (cs ++ normal ctx ∷ [])
unfolding add_call_site_context insert_stored normal intern_scope_set intern_guard_set
    intern_raii_set
add_call_site_context-Represents ctx idx cs r room =
    let (se, i1) = intern_names ctx idx.interner in
    let (locals, i2) = intern_locals ctx.live_raii_locals i1 in
    let (g1, named) = intern_names_lem ctx idx.interner r.dense (omega (arith, room.names)) in
    let (g2, shown, fit) =
      intern_locals_lem ctx.live_raii_locals i1 g1.dense (omega (arith, room.names, g1.bounded)) in
    let g = Grows-trans g1 g2 in
    let scopes =
      intern_set-Interned scope_set_key (All IsScope) scope_set_key_injective idx.scope_sets
        r.scopes ctx.enclosing_try_catches room.scopes_fit room.scopes in
    let guards =
      intern_set-Interned guard_set_key (All IsGuard) guard_set_key_injective idx.guard_sets
        r.guards ctx.enclosing_guards room.guards_fit room.guards in
    let raii =
      intern_set-Interned raii_set_key (All IsLocal) raii_set_key_injective idx.raii_sets r.locals
        locals fit room.locals in
    let named' = Named-later ctx se g2 named in
    let tu = tu_shown ctx se i2 named' g.dense (omega (arith, room.names, g.bounded)) in
    let idx' = add_call_site_context ctx idx in
    let later =
      Views-later idx idx' (Grows-Keeps r.dense g) scopes.grows guards.grows raii.grows r.views in
    record {
      dense = g.dense;
      scopes = scopes.valid;
      guards = guards.valid;
      locals = raii.valid;
      indexed = insert_stored-IsIndexed _ idx.table named.live r.indexed;
      views =
          Views-append idx' _ (normal ctx) later
            (record {
              caller_name = g.dense.of_index _ _ named'.caller_name;
              callee_name = g.dense.of_index _ _ named'.callee_name;
              caller_usr = g.dense.of_index _ _ named'.caller_usr;
              callee_usr = g.dense.of_index _ _ named'.callee_usr;
              call_site = g.dense.of_index _ _ named'.call_site;
              tu_path = tu.0;
              tracked = tu.1;
              scopes = scopes.stored;
              guards = guards.stored;
              stored = locals;
              locals_set = raii.stored;
              locals = shown;
              caller_noexcept = named.caller_noexcept;
              inside_catch_block = named.inside_catch_block;
            })
            named.live;
    }
