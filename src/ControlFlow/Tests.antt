-- ===== src/ControlFlow/Tests.antt =====
-- Runs of the control-flow index, and its theorems on concrete indexes.
use giga_drill_breaker.Common.{
  ℕ, zero, suc, ◌≡◌, refl, true, false, not, some, List, [], ◌∷◌, ◌++◌, arith, length, keep,
  get_elem?, ◌==◌, ◌&&◌, ◌||◌, string_eq, ℕ_discrete,
}
use giga_drill_breaker.Interner
use giga_drill_breaker.Contexts.{TryCatchScope}
use giga_drill_breaker.Contexts.Keys.{All, IsScope, IsGuard, IsHandler}
use giga_drill_breaker.ControlFlow.Types.{
  CallSiteContext, StoredContext, lock, unspecified, noexcept, is_empty,
}
use giga_drill_breaker.Common.Map
use giga_drill_breaker.ControlFlow.State.{
  ControlFlowIndex, empty, size, add_call_site_context, intern_names, intern_or, intern_locals,
  intern_local, insert_stored, link, no_contexts,
}
use giga_drill_breaker.ControlFlow.Sets.{
  intern_set, intern_scope_set, intern_guard_set, intern_raii_set, raii_set_key, raii_key,
  raii_code, seeded, bytes_eq,
}
use giga_drill_breaker.ControlFlow.Built.{Built, fresh, added, Built-Represents, Built-all_contexts}
use giga_drill_breaker.ControlFlow.Adding.Names.{normal}
use giga_drill_breaker.ControlFlow.Queries.{
  all_contexts, contexts_at_site, contexts_for_callee, protected_calls_to, unprotected_calls_to,
  context_of_caller, indices_for, gather,
}
use giga_drill_breaker.ControlFlow.Adding.{HasRoom, add_call_site_context-Represents}
use giga_drill_breaker.ControlFlow.Removal.{
  remove_tus, remove_contexts, candidates, start_removal, visit_all, visit, remove_context,
  tombstone, finish_removal, scrub, survivors, from_removed_tu, compact, has_prefix,
}
use giga_drill_breaker.ControlFlow.Absorb.{absorb}
use giga_drill_breaker.ControlFlow.Removing.{remove_tus-Represents}
use giga_drill_breaker.ControlFlow.Removing.Doomed.{is_from, lies_in}
use giga_drill_breaker.ControlFlow.Compacting.{
  AreTrim, no_contexts-AreTrim, add_call_site_context-AreTrim, compact-Represents,
}
use giga_drill_breaker.ControlFlow.Merging.{CanMerge, absorb-Represents}
use giga_drill_breaker.ControlFlow.Views.{head?}
use giga_drill_breaker.ControlFlow.Answers.{
  contexts_at_site-Represents, context_of_caller-Represents,
}
use giga_drill_breaker.ControlFlow.Named.{
  to_callee, contexts_for_callee-Represents, protected_calls_lem,
}
use giga_drill_breaker.ControlFlow.Represents.{Represents}

abbrev the_scope : TryCatchScope
the_scope = record {
  try_location = b'1' ∷ [];
  enclosing_function = b'm' ∷ [];
  nesting_depth = 0;
  handlers =
      record {
        caught_type = b'E' ∷ [];
        is_catch_all = false;
        location = b'2' ∷ [];
        body_summary = [];
      }
      ∷ [];
}

-- `main` calls `f` inside a try block, in a.cpp.
abbrev main_f : CallSiteContext
main_f = record {
  caller_name = "main";
  callee_name = "f";
  call_site = "a.cpp:1:2";
  caller_usr = "";
  callee_usr = "";
  tu_path = "a.cpp";
  enclosing_try_catches = the_scope ∷ [];
  enclosing_guards = [];
  caller_noexcept = unspecified;
  inside_catch_block = false;
  live_raii_locals =
      record { type_name = "lock_guard"; var_name = "l"; decl_location = "a.cpp:1:1"; kind = lock }
      ∷ [];
}

-- `g` calls another `f`, known by its usr, in b.cpp.
abbrev g_f : CallSiteContext
g_f = record {
  caller_name = "g";
  callee_name = "f";
  call_site = "b.cpp:3:4";
  caller_usr = "c:g";
  callee_usr = "c:f";
  tu_path = "b.cpp";
  enclosing_try_catches = [];
  enclosing_guards = [];
  caller_noexcept = noexcept;
  inside_catch_block = false;
  live_raii_locals = [];
}

abbrev one : ControlFlowIndex
one = add_call_site_context main_f empty

abbrev two : ControlFlowIndex
two = add_call_site_context g_f one

no_scopes : All IsScope []
no_scopes i x h = cc

no_guards : All IsGuard []
no_guards i x h = cc

the_scope_fits : All IsScope (the_scope ∷ [])
the_scope_fits zero x at = rw⁻¹ same fits
  where
    same : the_scope ≡ x
    same = ground arith

    fits : IsScope the_scope
    fits = (ground arith, ground arith, ground arith, ground arith, handlers_fit)
      where
        handlers_fit : All IsHandler the_scope.handlers
        handlers_fit zero y p = (ground arith, ground arith, ground arith)
        handlers_fit (suc i) y p = absurd (ground arith)
the_scope_fits (suc i) x at = absurd (ground arith)

empty-HasRoom : HasRoom main_f empty
unfolding empty Interner.size Interner.empty seeded
empty-HasRoom = record {
  names = ground arith;
  scopes_fit = the_scope_fits;
  guards_fit = no_guards;
  scopes = ground arith;
  guards = ground arith;
  locals = ground arith;
}

one_sizes :
    (Interner.size one.interner ≡ 7)
    × (length one.scope_sets.sets ≡ 2)
    × (length one.guard_sets.sets ≡ 1)
    × (length one.raii_sets.sets ≡ 2)
unfolding empty add_call_site_context intern_names intern_or intern_locals intern_local
    intern_scope_set intern_guard_set intern_raii_set intern_set raii_set_key raii_key raii_code
    insert_stored link seeded no_contexts Interner.size Interner.empty Interner.intern
    Interner.intern_locked Interner.find Map.find Map.insert Map.push Map.get_list string_eq
    bytes_eq
one_sizes = (refl, refl, refl, refl)

one-HasRoom : HasRoom g_f one
one-HasRoom = record {
  names = omega (arith, one_sizes.0);
  scopes_fit = no_scopes;
  guards_fit = no_guards;
  scopes = omega (arith, one_sizes.1);
  guards = omega (arith, one_sizes.2);
  locals = omega (arith, one_sizes.3);
}

abbrev two_contexts : List CallSiteContext
two_contexts = (normal main_f ∷ []) ++ normal g_f ∷ []

two-Built : Built two two_contexts
two-Built = added g_f one-HasRoom (added main_f empty-HasRoom fresh)

Built-all_contexts_example : (all_contexts two ≡ some two_contexts) × (size two ≡ 2)
Built-all_contexts_example = Built-all_contexts two two_contexts two-Built

add_call_site_context-Represents_example : Represents two two_contexts
add_call_site_context-Represents_example =
    add_call_site_context-Represents g_f one (normal main_f ∷ [])
      (Built-Represents (added main_f empty-HasRoom fresh)) one-HasRoom

remove_tus-Represents_example :
    Represents
      (remove_tus ("a.cpp" ∷ []) two).1
      (keep (λ c. not (is_from ("a.cpp" ∷ []) c)) two_contexts)
    × ((remove_tus ("a.cpp" ∷ []) two).0 ≡ length (keep (is_from ("a.cpp" ∷ [])) two_contexts))
remove_tus-Represents_example =
    remove_tus-Represents ("a.cpp" ∷ []) two two_contexts (Built-Represents two-Built)

-- One of the two comes from a.cpp, and none from a path that only begins the same.
one_from_a :
    (length (keep (is_from ("a.cpp" ∷ [])) two_contexts) ≡ 1)
    × (is_from ("a.cpp" ∷ []) (normal main_f) ≡ true)
    × (is_from ("a.cp" ∷ []) (normal main_f) ≡ false)
unfolding is_from lies_in normal has_prefix string_eq
one_from_a = (refl, refl, refl)

abbrev without_a : ControlFlowIndex
without_a = (remove_tus ("a.cpp" ∷ []) two).1

compact-Represents_example :
    Represents (compact without_a) (keep (λ c. not (is_from ("a.cpp" ∷ []) c)) two_contexts)
    × AreTrim (compact without_a).table
    × ((i : ℕ) (se : StoredContext)
        → get_elem? (compact without_a).table.contexts i ≡ some se
        → se.live ≡ true)
compact-Represents_example =
    compact-Represents without_a (keep (λ c. not (is_from ("a.cpp" ∷ []) c)) two_contexts)
      remove_tus-Represents_example.0

-- Another worker's index.
abbrev shard : ControlFlowIndex
shard = add_call_site_context g_f empty

shard-HasRoom : HasRoom g_f empty
unfolding empty Interner.size Interner.empty seeded
shard-HasRoom = record {
  names = ground arith;
  scopes_fit = no_scopes;
  guards_fit = no_guards;
  scopes = ground arith;
  guards = ground arith;
  locals = ground arith;
}

shard_sizes :
    (length shard.interner.strings ≡ 6)
    × (length shard.scope_sets.sets ≡ 1)
    × (length shard.guard_sets.sets ≡ 1)
    × (length shard.raii_sets.sets ≡ 1)
unfolding empty add_call_site_context intern_names intern_or intern_locals intern_scope_set
    intern_guard_set intern_raii_set intern_set insert_stored link seeded no_contexts Interner.size
    Interner.empty Interner.intern Interner.intern_locked Interner.find Map.find Map.insert Map.push
    Map.get_list string_eq
shard_sizes = (refl, refl, refl, refl)

shard-CanMerge : CanMerge shard one
shard-CanMerge = record {
  names = omega (arith, one_sizes.0, shard_sizes.0);
  scopes = omega (arith, one_sizes.1, shard_sizes.1);
  guards = omega (arith, one_sizes.2, shard_sizes.2);
  locals = omega (arith, one_sizes.3, shard_sizes.3);
}

absorb-Represents_example : Represents (absorb shard one) two_contexts
absorb-Represents_example =
    absorb-Represents shard one (normal main_f ∷ []) (normal g_f ∷ [])
      (Built-Represents (added g_f shard-HasRoom fresh))
      (Built-Represents (added main_f empty-HasRoom fresh)) shard-CanMerge

two-AreTrim : AreTrim two.table
unfolding empty
two-AreTrim =
    add_call_site_context-AreTrim g_f one
      (add_call_site_context-AreTrim main_f empty no_contexts-AreTrim)

contexts_at_site-Represents_example :
    contexts_at_site "b.cpp:3:4" two ≡ some (keep (λ c. c.call_site == "b.cpp:3:4") two_contexts)
contexts_at_site-Represents_example =
    contexts_at_site-Represents two two_contexts (Built-Represents two-Built) "b.cpp:3:4"

context_of_caller-Represents_example :
    context_of_caller "b.cpp:3:4" "g" two
    ≡ some (
        head? (
          keep
            (λ c. c.call_site == "b.cpp:3:4" && (c.caller_usr == "g" || c.caller_name == "g"))
            two_contexts))
context_of_caller-Represents_example =
    context_of_caller-Represents two two_contexts (Built-Represents two-Built) "b.cpp:3:4" "g"

contexts_for_callee-Represents_example :
    contexts_for_callee "f" two ≡ some (to_callee "f" two_contexts)
contexts_for_callee-Represents_example =
    contexts_for_callee-Represents two two_contexts (Built-Represents two-Built) "f"
      two-AreTrim.callees

protected_calls_lem_example :
    (protected_calls_to "f" two
      ≡ some (keep (λ c. not (is_empty c.enclosing_try_catches)) (to_callee "f" two_contexts)))
    × (unprotected_calls_to "f" two
        ≡ some (keep (λ c. is_empty c.enclosing_try_catches) (to_callee "f" two_contexts)))
protected_calls_lem_example =
    protected_calls_lem two two_contexts (Built-Represents two-Built) "f" two-AreTrim.callees

-- The entry that removal leaves empty hides the other `f`, which `compact` brings back.
hidden_name : contexts_for_callee "f" without_a ≡ some []
unfolding empty add_call_site_context intern_names intern_or intern_locals intern_local
    intern_scope_set intern_guard_set intern_raii_set intern_set raii_set_key raii_key raii_code
    insert_stored link seeded no_contexts Interner.size Interner.empty Interner.intern
    Interner.intern_locked Interner.find Map.find Map.insert Map.push Map.get_list Map.erase
    string_eq bytes_eq contexts_for_callee indices_for gather remove_tus remove_contexts candidates
    start_removal visit_all visit remove_context tombstone finish_removal scrub survivors
    from_removed_tu ℕ_discrete
hidden_name = refl
