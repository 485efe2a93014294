-- ===== src/ControlFlow/State.antt =====
-- The state of ControlFlowIndex.cpp and its insertions. The mutex makes each mutator a single step;
-- what `addCallSiteContext` interns before it takes the mutex is part of the same step here, since
-- the interner only grows.
use giga_drill_breaker.Common.{
  ℕ, ◌+◌, String, true, List, [], ◌∷◌, ◌++◌, length, if◌then◌else◌, ◌==◌, nat_eq, string_eq,
}
use giga_drill_breaker.Common.Map
use giga_drill_breaker.Common.Map.{Map}
use giga_drill_breaker.Interner
use giga_drill_breaker.Interner.{Interner}
use giga_drill_breaker.Contexts.{ConditionalGuard, TryCatchScope, scope_set_key, guard_set_key}
use giga_drill_breaker.ControlFlow.Types.{
  RaiiLocal, CallSiteContext, no_string, StoredRaiiLocal, StoredContext,
}
use giga_drill_breaker.ControlFlow.Sets.{
  SetTable, seeded, intern_scope_set, intern_guard_set, intern_raii_set, raii_set_key,
}

-- The contexts with the maps that lead to them. The `*_display` maps carry only contexts whose display
-- name differs from the usr.
pub record Contexts : Type 0 where
  pub contexts : List StoredContext
  pub by_callee : Map ℕ (List ℕ)
  pub by_caller : Map ℕ (List ℕ)
  pub by_callee_display : Map ℕ (List ℕ)
  pub by_caller_display : Map ℕ (List ℕ)
  pub by_site : Map ℕ (List ℕ)
  pub by_tu : Map ℕ (List ℕ)
  pub no_provenance : List ℕ
  pub live_count : ℕ

pub record ControlFlowIndex : Type 0 where
  pub interner : Interner
  pub scope_sets : SetTable TryCatchScope
  pub guard_sets : SetTable ConditionalGuard
  pub raii_sets : SetTable StoredRaiiLocal
  pub table : Contexts

unfoldable pub no_contexts : Contexts
no_contexts = record {
  contexts = [];
  by_callee = [];
  by_caller = [];
  by_callee_display = [];
  by_caller_display = [];
  by_site = [];
  by_tu = [];
  no_provenance = [];
  live_count = 0;
}

-- The constructor.
unfoldable pub empty : ControlFlowIndex
empty = record {
  interner = Interner.empty;
  scope_sets = seeded;
  guard_sets = seeded;
  raii_sets = seeded;
  table = no_contexts;
}

-- `size`
unfoldable pub size : ControlFlowIndex → ℕ
size idx = idx.table.live_count

-- The entries that an insertion and `compact` make for a context at position `i`.
unfoldable pub link : ℕ → StoredContext → Contexts → Contexts
link i se t = record t {
  by_callee = Map.push se.callee i t.by_callee;
  by_caller = Map.push se.caller i t.by_caller;
  by_callee_display =
      if se.callee_display == se.callee
      then t.by_callee_display
      else Map.push se.callee_display i t.by_callee_display;
  by_caller_display =
      if se.caller_display == se.caller
      then t.by_caller_display
      else Map.push se.caller_display i t.by_caller_display;
  by_site = Map.push se.site i t.by_site;
  by_tu = if se.tu_path == no_string then t.by_tu else Map.push se.tu_path i t.by_tu;
  no_provenance = if se.tu_path == no_string then t.no_provenance ++ i ∷ [] else t.no_provenance;
}

-- `insertStored` with `trackTu`, for a record that is live.
unfoldable pub insert_stored : StoredContext → Contexts → Contexts
insert_stored se t =
    let t' = link (length t.contexts) se t in
    record t' { contexts = t.contexts ++ se ∷ []; live_count = t.live_count + 1 }

unfoldable pub intern_local : RaiiLocal → Interner → StoredRaiiLocal × Interner
intern_local l i =
    let (type_name, i1) = Interner.intern l.type_name i in
    let (var_name, i2) = Interner.intern l.var_name i1 in
    let (decl_location, i3) = Interner.intern l.decl_location i2 in
    (
      record {
        type_name = type_name;
        var_name = var_name;
        decl_location = decl_location;
        kind = l.kind;
      },
      i3,
    )

unfoldable pub intern_locals : List RaiiLocal → Interner → List StoredRaiiLocal × Interner
intern_locals [] i = ([], i)
intern_locals (l ∷ ls) i =
    let (s, i1) = intern_local l i in let (ss, i2) = intern_locals ls i1 in (s ∷ ss, i2)

-- A name that is left empty falls back on the id of another.
unfoldable pub intern_or : String → ℕ → Interner → ℕ × Interner
intern_or s id i = if s == "" then (id, i) else Interner.intern s i

-- What `addCallSiteContext` interns before it takes the mutex, in the record of a context whose sets
-- are not known yet.
unfoldable pub intern_names : CallSiteContext → Interner → StoredContext × Interner
intern_names ctx i =
    let (callee_display, i1) = Interner.intern ctx.callee_name i in
    let (caller_display, i2) = Interner.intern ctx.caller_name i1 in
    let (callee, i3) = intern_or ctx.callee_usr callee_display i2 in
    let (caller, i4) = intern_or ctx.caller_usr caller_display i3 in
    let (site, i5) = Interner.intern ctx.call_site i4 in
    let (tu_path, i6) = intern_or ctx.tu_path no_string i5 in
    (
      record {
        caller = caller;
        callee = callee;
        caller_display = caller_display;
        callee_display = callee_display;
        site = site;
        tu_path = tu_path;
        scope_set = 0;
        guard_set = 0;
        raii_set = 0;
        caller_noexcept = ctx.caller_noexcept;
        inside_catch_block = ctx.inside_catch_block;
        live = true;
      },
      i6,
    )

unfoldable pub add_call_site_context : CallSiteContext → ControlFlowIndex → ControlFlowIndex
add_call_site_context ctx idx =
    let (se, i1) = intern_names ctx idx.interner in
    let (locals, i2) = intern_locals ctx.live_raii_locals i1 in
    let (scope_set, scope_sets) =
      intern_scope_set (scope_set_key ctx.enclosing_try_catches) ctx.enclosing_try_catches
        idx.scope_sets in
    let (guard_set, guard_sets) =
      intern_guard_set (guard_set_key ctx.enclosing_guards) ctx.enclosing_guards idx.guard_sets in
    let (raii_set, raii_sets) = intern_raii_set (raii_set_key locals) locals idx.raii_sets in
    record {
      interner = i2;
      scope_sets = scope_sets;
      guard_sets = guard_sets;
      raii_sets = raii_sets;
      table =
          insert_stored
            (record se { scope_set = scope_set; guard_set = guard_set; raii_set = raii_set })
            idx.table;
    }
