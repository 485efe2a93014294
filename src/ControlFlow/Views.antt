-- ===== src/ControlFlow/Views.antt =====
-- What an index stands for: the list of the public contexts that its live records show.
use giga_drill_breaker.Common.{
  ℕ, suc, ◌+◌, ◌≡◌, refl, Bool, true, false, ◌&&◌, none, some, Option, List, [], ◌∷◌, arith,
  get_elem?, keep, ◌==◌, nat_eq, string_eq, String,
}
use giga_drill_breaker.Interner
use giga_drill_breaker.Interner.{Interner}
use giga_drill_breaker.Interner.Laws.{IsDense}
use giga_drill_breaker.ControlFlow.Types.{
  CallSiteContext, StoredContext, StoredRaiiLocal, no_string,
}
use giga_drill_breaker.ControlFlow.State.{ControlFlowIndex}
use giga_drill_breaker.ControlFlow.Queries.{
  resolve_tu, resolve_locals, materialize, gather, first_of, materialize_live,
}
use giga_drill_breaker.ControlFlow.Positions.{positions}
use giga_drill_breaker.ControlFlow.Indexed.{live_and}

-- Every id and set number of a record leads to the part of the public context.
pub record Shows (idx : ControlFlowIndex) (se : StoredContext) (c : CallSiteContext) : Type 0 where
  pub caller_name : Interner.resolve se.caller_display idx.interner ≡ some c.caller_name
  pub callee_name : Interner.resolve se.callee_display idx.interner ≡ some c.callee_name
  pub caller_usr : Interner.resolve se.caller idx.interner ≡ some c.caller_usr
  pub callee_usr : Interner.resolve se.callee idx.interner ≡ some c.callee_usr
  pub call_site : Interner.resolve se.site idx.interner ≡ some c.call_site
  pub tu_path : resolve_tu idx.interner se.tu_path ≡ some c.tu_path
  pub tracked : (c.tu_path == "") ≡ (se.tu_path == no_string)
  pub scopes : get_elem? idx.scope_sets.sets se.scope_set ≡ some c.enclosing_try_catches
  pub guards : get_elem? idx.guard_sets.sets se.guard_set ≡ some c.enclosing_guards
  pub stored : List StoredRaiiLocal
  pub locals_set : get_elem? idx.raii_sets.sets se.raii_set ≡ some stored
  pub locals : resolve_locals idx.interner stored ≡ some c.live_raii_locals
  pub caller_noexcept : se.caller_noexcept ≡ c.caller_noexcept
  pub inside_catch_block : se.inside_catch_block ≡ c.inside_catch_block

pub materialize-Shows :
    (idx : ControlFlowIndex) (se : StoredContext) (c : CallSiteContext)
    → Shows idx se c
    → materialize idx se ≡ some c
unfolding materialize
materialize-Shows idx se c s = rw (
  s.caller_name, s.callee_name, s.caller_usr, s.callee_usr, s.call_site, s.tu_path, s.scopes,
  s.guards, s.locals_set, s.locals, s.caller_noexcept, s.inside_catch_block,
)

-- The contexts that the live records of a vector show, in order.
pub data Views (idx : ControlFlowIndex) : List StoredContext → List CallSiteContext → Type 0 where
  nil : Views idx [] []
  live :
      {se : StoredContext} {c : CallSiteContext} {ses : List StoredContext}
      {cs : List CallSiteContext}
      → Shows idx se c
      → se.live ≡ true
      → Views idx ses cs
      → Views idx (se ∷ ses) (c ∷ cs)
  dead :
      {se : StoredContext} {ses : List StoredContext} {cs : List CallSiteContext}
      → se.live ≡ false
      → Views idx ses cs
      → Views idx (se ∷ ses) cs

pub materialize_live-Views :
    (idx : ControlFlowIndex) {ses : List StoredContext} {cs : List CallSiteContext}
    → Views idx ses cs
    → materialize_live idx ses ≡ some cs
unfolding materialize_live
materialize_live-Views idx nil = refl
materialize_live-Views idx (live {se} {c} {ses} {cs} s l v) =
    ground (arith, l, materialize-Shows idx se c s, materialize_live-Views idx v)
materialize_live-Views idx (dead l v) = rw (l, materialize_live-Views idx v)

abbrev pub head? : {A : Type 0} → List A → Option A
head? [] = none
head? (x ∷ xs) = some x

module _ (idx : ControlFlowIndex) (p test : StoredContext → Bool) (q : CallSiteContext → Bool)
    (agree : (se : StoredContext) (c : CallSiteContext)
      → Shows idx se c
      → (test se && p se) ≡ q c) where
  -- The loop over the positions of a test gives what the public contexts say.
  pub gather-Views :
      (n : ℕ) {ses : List StoredContext} {cs : List CallSiteContext}
      → Views idx ses cs
      → ((i : ℕ) → get_elem? idx.table.contexts (n + i) ≡ get_elem? ses i)
      → gather p idx (positions (live_and test) n ses) ≡ some (keep q cs)
  unfolding gather
  gather-Views n nil at = refl
  gather-Views n (dead {se} {ses} l v) at =
      rw l (gather-Views (suc n) v (λ i. ground (arith, at (suc i))))
  gather-Views n (live {se} {c} {ses} {cs} s l v) at =
      let rest = gather-Views (suc n) v (λ i. ground (arith, at (suc i))) in
      let here : get_elem? idx.table.contexts n ≡ some se = ground (arith, at 0) in
      ground (arith, l, here, rest, agree se c s, materialize-Shows idx se c s)

  pub first_of-Views :
      (n : ℕ) {ses : List StoredContext} {cs : List CallSiteContext}
      → Views idx ses cs
      → ((i : ℕ) → get_elem? idx.table.contexts (n + i) ≡ get_elem? ses i)
      → first_of p idx (positions (live_and test) n ses) ≡ some (head? (keep q cs))
  unfolding first_of
  first_of-Views n nil at = refl
  first_of-Views n (dead {se} {ses} l v) at =
      rw l (first_of-Views (suc n) v (λ i. ground (arith, at (suc i))))
  first_of-Views n (live {se} {c} {ses} {cs} s l v) at =
      let rest = first_of-Views (suc n) v (λ i. ground (arith, at (suc i))) in
      let here : get_elem? idx.table.contexts n ≡ some se = ground (arith, at 0) in
      ground (arith, l, here, rest, agree se c s, materialize-Shows idx se c s)

-- An id is that of a name exactly when it resolves to it.
pub same_name :
    (i : Interner) (s t : String) (id j : ℕ)
    → IsDense i
    → Interner.find s i ≡ some id
    → Interner.resolve j i ≡ some t
    → (j == id) ≡ (t == s)
same_name i s t id j dense p q = ground (arith, dense.of_index s id p, dense.of_table t j q)

pub other_name :
    (i : Interner) (s t : String) (j : ℕ)
    → IsDense i
    → Interner.find s i ≡ none
    → Interner.resolve j i ≡ some t
    → (t == s) ≡ false
other_name i s t j dense p q = ground (arith, dense.of_table t j q)
