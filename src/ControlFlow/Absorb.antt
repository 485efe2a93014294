-- ===== src/ControlFlow/Absorb.antt =====
-- `ControlFlowIndex::absorb`: the merge of a worker's index, the shard, into the master. The shard is
-- another index; absorbing itself returns at once and is left out.
use giga_drill_breaker.Common.{ℕ, List, [], ◌∷◌, map, if◌then◌else◌, ◌==◌, nat_eq}
use giga_drill_breaker.Contexts.{ConditionalGuard, TryCatchScope, scope_set_key, guard_set_key}
use giga_drill_breaker.Graph.Absorb.{intern_strings, remapped}
use giga_drill_breaker.ControlFlow.Types.{no_string, StoredRaiiLocal, StoredContext}
use giga_drill_breaker.ControlFlow.Sets.{
  SetTable, intern_scope_set, intern_guard_set, intern_raii_set, raii_set_key,
}
use giga_drill_breaker.ControlFlow.State.{Contexts, ControlFlowIndex, insert_stored}

-- The loop over one of the shard's set tables, without its entry 0.
unfoldable pub remap_sets :
    {A : Type 0}
    → (List A → SetTable A → ℕ × SetTable A)
    → List (List A)
    → SetTable A
    → List ℕ × SetTable A
remap_sets intern [] t = ([], t)
remap_sets intern (xs ∷ rest) t =
    let (id, t1) = intern xs t in let (ids, t2) = remap_sets intern rest t1 in (id ∷ ids, t2)

-- With the number 0 of the empty set in front.
unfoldable pub remap_table :
    {A : Type 0}
    → (List A → SetTable A → ℕ × SetTable A)
    → List (List A)
    → SetTable A
    → List ℕ × SetTable A
remap_table intern [] t = ([], t)
remap_table intern (_ ∷ rest) t = let (ids, t') = remap_sets intern rest t in (0 ∷ ids, t')

unfoldable pub keyed_scopes :
    List TryCatchScope → SetTable TryCatchScope → ℕ × SetTable TryCatchScope
keyed_scopes scopes t = intern_scope_set (scope_set_key scopes) scopes t

unfoldable pub keyed_guards :
    List ConditionalGuard → SetTable ConditionalGuard → ℕ × SetTable ConditionalGuard
keyed_guards guards t = intern_guard_set (guard_set_key guards) guards t

unfoldable pub remapped_local : List ℕ → StoredRaiiLocal → StoredRaiiLocal
remapped_local remap l = record l {
  type_name = remapped remap l.type_name;
  var_name = remapped remap l.var_name;
  decl_location = remapped remap l.decl_location;
}

-- The locals are in id space: their ids are moved before the key is made.
unfoldable pub keyed_locals :
    List ℕ → List StoredRaiiLocal → SetTable StoredRaiiLocal → ℕ × SetTable StoredRaiiLocal
keyed_locals remap locals t =
    let moved = map (remapped_local remap) locals in intern_raii_set (raii_set_key moved) moved t

pub record Remaps : Type 0 where
  pub strings : List ℕ
  pub scopes : List ℕ
  pub guards : List ℕ
  pub locals : List ℕ

unfoldable pub remapped_context : Remaps → StoredContext → StoredContext
remapped_context m se = record se {
  caller = remapped m.strings se.caller;
  callee = remapped m.strings se.callee;
  caller_display = remapped m.strings se.caller_display;
  callee_display = remapped m.strings se.callee_display;
  site = remapped m.strings se.site;
  tu_path = if se.tu_path == no_string then no_string else remapped m.strings se.tu_path;
  scope_set = remapped m.scopes se.scope_set;
  guard_set = remapped m.guards se.guard_set;
  raii_set = remapped m.locals se.raii_set;
}

unfoldable pub absorb_contexts : Remaps → List StoredContext → Contexts → Contexts
absorb_contexts m [] t = t
absorb_contexts m (se ∷ ses) t =
    absorb_contexts m ses (if se.live then insert_stored (remapped_context m se) t else t)

unfoldable pub absorb : ControlFlowIndex → ControlFlowIndex → ControlFlowIndex
absorb shard idx =
    let (strings, interner) = intern_strings shard.interner.strings idx.interner in
    let (scopes, scope_sets) = remap_table keyed_scopes shard.scope_sets.sets idx.scope_sets in
    let (guards, guard_sets) = remap_table keyed_guards shard.guard_sets.sets idx.guard_sets in
    let (locals, raii_sets) =
      remap_table (keyed_locals strings) shard.raii_sets.sets idx.raii_sets in
    let m : Remaps = record {
      strings = strings;
      scopes = scopes;
      guards = guards;
      locals = locals;
    } in
    record {
      interner = interner;
      scope_sets = scope_sets;
      guard_sets = guard_sets;
      raii_sets = raii_sets;
      table = absorb_contexts m shard.table.contexts idx.table;
    }
