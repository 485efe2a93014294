-- ===== src/ControlFlow/Later.antt =====
-- An index that has grown shows every record as before.
use giga_drill_breaker.Common.{
  ℕ, ◌≡◌, some, List, [], ◌∷◌, arith, inl, inr, Option-cases, String, ◌==◌, nat_eq, Bool-cases,
}
use giga_drill_breaker.Interner
use giga_drill_breaker.Interner.{Interner}
use giga_drill_breaker.Interner.Laws.{IsDense}
use giga_drill_breaker.Interner.Growth.{Grows}
use giga_drill_breaker.ControlFlow.Types.{
  CallSiteContext, StoredContext, StoredRaiiLocal, RaiiLocal, no_string,
}
use giga_drill_breaker.ControlFlow.State.{ControlFlowIndex}
use giga_drill_breaker.ControlFlow.Queries.{resolve_tu, resolve_local, resolve_locals}
use giga_drill_breaker.ControlFlow.Sets.Laws.{SetGrows}
use giga_drill_breaker.ControlFlow.Views.{Shows, Views, nil, live, dead}

-- Every id that resolves, resolves to the same string later.
abbrev pub Keeps : Interner → Interner → Type 0
Keeps i j = (id : ℕ) (s : String) → Interner.resolve id i ≡ some s → Interner.resolve id j ≡ some s

pub Grows-Keeps : {n : ℕ} {i j : Interner} → IsDense i → Grows n i j → Keeps i j
Grows-Keeps dense g id s h = g.dense.of_index s id (g.stable s id (dense.of_table s id h))

module _ (i j : Interner) (keeps : Keeps i j) where
  pub resolve_local-later :
      (l : StoredRaiiLocal) (x : RaiiLocal)
      → resolve_local i l ≡ some x
      → resolve_local j l ≡ some x
  unfolding resolve_local
  resolve_local-later l x h = elim (Option-cases (Interner.resolve l.type_name i)) [
    | inl a ↦ absurd (ground arith)
    | inr (t, a) ↦ elim (Option-cases (Interner.resolve l.var_name i)) [
      | inl b ↦ absurd (ground arith)
      | inr (v, b) ↦ elim (Option-cases (Interner.resolve l.decl_location i)) [
        | inl c ↦ absurd (ground arith)
        | inr (d, c) ↦
            ground (arith, keeps l.type_name t a, keeps l.var_name v b, keeps l.decl_location d c)
      ]
    ]
  ]

  pub resolve_locals-later :
      (ls : List StoredRaiiLocal) (xs : List RaiiLocal)
      → resolve_locals i ls ≡ some xs
      → resolve_locals j ls ≡ some xs
  unfolding resolve_locals
  resolve_locals-later [] xs h = h
  resolve_locals-later (l ∷ ls) xs h = elim (Option-cases (resolve_local i l)) [
    | inl a ↦ absurd (ground arith)
    | inr (x, a) ↦ elim (Option-cases (resolve_locals i ls)) [
      | inl b ↦ absurd (ground arith)
      | inr (rest, b) ↦ ground (arith, resolve_local-later l x a, resolve_locals-later ls rest b)
    ]
  ]

  pub resolve_tu-later : (tu : ℕ) (s : String) → resolve_tu i tu ≡ some s → resolve_tu j tu ≡ some s
  unfolding resolve_tu
  resolve_tu-later tu s h = elim (Bool-cases (tu == no_string)) [
    | inl e ↦ ground arith
    | inr e ↦ ground (arith, keeps tu s (ground arith))
  ]

module _ (idx idx' : ControlFlowIndex) (names : Keeps idx.interner idx'.interner) {a b d : ℕ}
    (scopes : SetGrows a idx.scope_sets idx'.scope_sets)
    (guards : SetGrows b idx.guard_sets idx'.guard_sets)
    (locals : SetGrows d idx.raii_sets idx'.raii_sets) where
  pub Shows-later : (se : StoredContext) (c : CallSiteContext) → Shows idx se c → Shows idx' se c
  Shows-later se c s = record {
    caller_name = names _ _ s.caller_name;
    callee_name = names _ _ s.callee_name;
    caller_usr = names _ _ s.caller_usr;
    callee_usr = names _ _ s.callee_usr;
    call_site = names _ _ s.call_site;
    tu_path = resolve_tu-later _ _ names _ _ s.tu_path;
    tracked = s.tracked;
    scopes = scopes.stable _ _ s.scopes;
    guards = guards.stable _ _ s.guards;
    stored = s.stored;
    locals_set = locals.stable _ _ s.locals_set;
    locals = resolve_locals-later _ _ names _ _ s.locals;
    caller_noexcept = s.caller_noexcept;
    inside_catch_block = s.inside_catch_block;
  }

  pub Views-later :
      {ses : List StoredContext} {cs : List CallSiteContext} → Views idx ses cs → Views idx' ses cs
  Views-later nil = nil
  Views-later (live {se} {c} s l v) = live (Shows-later se c s) l (Views-later v)
  Views-later (dead l v) = dead l (Views-later v)
