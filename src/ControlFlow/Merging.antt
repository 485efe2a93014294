-- ===== src/ControlFlow/Merging.antt =====
-- `absorb` appends what the shard stands for.
pub mod Sets
pub mod Contexts
use giga_drill_breaker.Common.{
  ℕ, ◌+◌, ◌≤◌, ◌≡◌, refl, sym, ap, ◌∙◌, subst, true, false, some, List, [], ◌∷◌, ◌++◌, map, arith,
  length, get_elem?, if◌then◌else◌, if_true, if_false,
}
use giga_drill_breaker.Interner
use giga_drill_breaker.Interner.{size}
use giga_drill_breaker.Contexts.{scope_set_key, guard_set_key}
use giga_drill_breaker.Contexts.Keys.{
  All, IsScope, IsGuard, scope_set_key_injective, guard_set_key_injective,
}
use giga_drill_breaker.Graph.Absorb.{intern_strings, remapped}
use giga_drill_breaker.ControlFlow.Types.{
  CallSiteContext, StoredContext, StoredRaiiLocal, no_string,
}
use giga_drill_breaker.ControlFlow.Sets.{
  set_limit, raii_set_key, intern_scope_set, intern_guard_set, intern_raii_set,
}
use giga_drill_breaker.ControlFlow.Sets.Keys.{IsLocal, raii_set_key_injective}
use giga_drill_breaker.ControlFlow.State
use giga_drill_breaker.ControlFlow.State.{ControlFlowIndex, insert_stored}
use giga_drill_breaker.ControlFlow.Absorb.{
  remap_table, keyed_scopes, keyed_guards, remapped_local, keyed_locals, Remaps, remapped_context,
  absorb_contexts, absorb,
}
use giga_drill_breaker.ControlFlow.Indexed.{IsIndexed, insert_stored-IsIndexed}
use giga_drill_breaker.ControlFlow.Views.{Shows, Views, nil, live, dead}
use giga_drill_breaker.ControlFlow.Later.{Grows-Keeps, Views-later}
use giga_drill_breaker.ControlFlow.Adding.{Views-append}
use giga_drill_breaker.ControlFlow.Represents.{Represents}
use Sets.{move, Moved, remap_table-Moved}
use Contexts.{
  merged-Grows, resolve-remapped, moved_locals-IsLocal, resolve_locals-remapped, moved_tu_lem,
}

-- Neither the ids nor the set numbers of the master run out.
pub record CanMerge (shard idx : ControlFlowIndex) : Type 0 where
  pub names : size idx.interner + length shard.interner.strings ≤ no_string
  pub scopes : length idx.scope_sets.sets + length shard.scope_sets.sets ≤ set_limit
  pub guards : length idx.guard_sets.sets + length shard.guard_sets.sets ≤ set_limit
  pub locals : length idx.raii_sets.sets + length shard.raii_sets.sets ≤ set_limit

append_nil : (cs : List CallSiteContext) → cs ++ [] ≡ cs
append_nil [] = refl
append_nil (c ∷ cs) = ap (λ l. c ∷ l) (append_nil cs)

append_one :
    (cs : List CallSiteContext) (c : CallSiteContext) (ds : List CallSiteContext)
    → (cs ++ c ∷ []) ++ ds ≡ cs ++ (c ∷ ds)
append_one [] c ds = refl
append_one (b ∷ cs) c ds = ap (λ l. b ∷ l) (append_one cs c ds)

remapped_live : (m : Remaps) (se : StoredContext) → (remapped_context m se).live ≡ se.live
unfolding remapped_context
remapped_live m se = refl

-- The loop over the shard's records, for a remap under which the master shows them.
module _ (shard idx : ControlFlowIndex) (m : Remaps)
    (shows : (se : StoredContext) (c : CallSiteContext)
      → Shows shard se c
      → Shows idx (remapped_context m se) c) where
  absorb_contexts-Views :
      {ses : List StoredContext} {ds : List CallSiteContext} (t : State.Contexts)
      (cs : List CallSiteContext)
      → Views shard ses ds
      → IsIndexed t
      → Views idx t.contexts cs
      → IsIndexed (absorb_contexts m ses t)
        × Views idx (absorb_contexts m ses t).contexts (cs ++ ds)
  unfolding absorb_contexts insert_stored
  absorb_contexts-Views t cs nil ok v = (ok, subst (Views idx t.contexts) (sym (append_nil cs)) v)
  absorb_contexts-Views t cs (dead {se} {ses} {cs = ds} l w) ok v =
      let rest = absorb_contexts-Views t cs w ok v in
      subst
        (λ (u : State.Contexts).
          IsIndexed (absorb_contexts m ses u)
          × Views idx (absorb_contexts m ses u).contexts (cs ++ ds))
        (sym (if_false se.live _ _ l)) rest
  absorb_contexts-Views t cs (live {se} {c} {ses} {cs = ds} s l w) ok v =
      let se' = remapped_context m se in
      let l' = remapped_live m se ∙ l in
      let rest =
        absorb_contexts-Views (insert_stored se' t) (cs ++ c ∷ []) w
          (insert_stored-IsIndexed se' t l' ok) (Views-append idx se' c v (shows se c s) l') in
      subst
        (λ (u : State.Contexts).
          IsIndexed (absorb_contexts m ses u)
          × Views idx (absorb_contexts m ses u).contexts (cs ++ (c ∷ ds)))
        (sym (if_true se.live _ _ l)) (rest.0, subst (Views idx _) (append_one cs c ds) rest.1)

-- Where the master has room for the ids and sets of the shard, and each stands for a list of
-- contexts, `absorb` leaves a master that stands for its own contexts and then those of the shard,
-- in their orders.
pub absorb-Represents :
    (shard idx : ControlFlowIndex) (cs ds : List CallSiteContext)
    → Represents shard ds
    → Represents idx cs
    → CanMerge shard idx
    → Represents (absorb shard idx) (cs ++ ds)
unfolding absorb keyed_scopes keyed_guards keyed_locals intern_scope_set intern_guard_set
    intern_raii_set remapped_context
absorb-Represents shard idx cs ds rs r room =
    let strings = (intern_strings shard.interner.strings idx.interner).0 in
    let g = merged-Grows shard.interner idx.interner r.dense room.names in
    let names = resolve-remapped shard.interner idx.interner r.dense room.names in
    let scopes =
      remap_table-Moved scope_set_key (All IsScope) scope_set_key_injective (λ xs. xs)
        shard.scope_sets.sets idx.scope_sets refl r.scopes rs.scopes.first rs.scopes.fits
        room.scopes in
    let guards =
      remap_table-Moved guard_set_key (All IsGuard) guard_set_key_injective (λ xs. xs)
        shard.guard_sets.sets idx.guard_sets refl r.guards rs.guards.first rs.guards.fits
        room.guards in
    let locals =
      remap_table-Moved raii_set_key (All IsLocal) raii_set_key_injective
        (map (remapped_local strings)) shard.raii_sets.sets idx.raii_sets refl r.locals
        rs.locals.first
        (λ k ls h. moved_locals-IsLocal shard.interner idx.interner r.dense room.names ls)
        room.locals in
    let idx' = absorb shard idx in
    let v =
      Views-later idx idx' (Grows-Keeps r.dense g) scopes.grows guards.grows locals.grows r.views in
    let m : Remaps = record {
      strings = strings;
      scopes = (remap_table keyed_scopes shard.scope_sets.sets idx.scope_sets).0;
      guards = (remap_table keyed_guards shard.guard_sets.sets idx.guard_sets).0;
      locals = (remap_table (keyed_locals strings) shard.raii_sets.sets idx.raii_sets).0;
    } in
    let shows : (se : StoredContext) (c : CallSiteContext)
        → Shows shard se c
        → Shows idx' (remapped_context m se) c =
      λ se c s.
        let tu =
          moved_tu_lem shard.interner idx.interner r.dense room.names se.tu_path c.tu_path
            s.tu_path in
        record {
          caller_name = names _ _ s.caller_name;
          callee_name = names _ _ s.callee_name;
          caller_usr = names _ _ s.caller_usr;
          callee_usr = names _ _ s.callee_usr;
          call_site = names _ _ s.call_site;
          tu_path = tu.0;
          tracked = s.tracked ∙ sym tu.1;
          scopes = scopes.at _ _ s.scopes;
          guards = guards.at _ _ s.guards;
          stored = map (remapped_local strings) s.stored;
          locals_set = locals.at _ _ s.locals_set;
          locals =
              resolve_locals-remapped shard.interner idx.interner r.dense room.names s.stored _
                s.locals;
          caller_noexcept = s.caller_noexcept;
          inside_catch_block = s.inside_catch_block;
        } in
    let merged = absorb_contexts-Views shard idx' m shows idx.table cs rs.views r.indexed v in
    record {
      dense = g.dense;
      scopes = scopes.valid;
      guards = guards.valid;
      locals = locals.valid;
      indexed = merged.0;
      views = merged.1;
    }
