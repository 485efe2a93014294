-- ===== src/ControlFlow/Named.antt =====
-- The queries by the name of a callee or a caller, which may be a usr or a display name. The usr's
-- entry wins, so an entry that removal has left empty hides the display name's.
use giga_drill_breaker.Common.{
  ℕ, suc, ◌≡◌, refl, sym, ap, ◌∙◌, ◌≢◌, Bool, true, false, not, ◌&&◌, none, some, List, [], ◌∷◌,
  arith, keep, ◌==◌, nat_eq, string_eq, String, inl, inr, Option-cases, length, List-cases,
}
use giga_drill_breaker.Common.Map
use giga_drill_breaker.Common.Map.{Map}
use giga_drill_breaker.Interner
use giga_drill_breaker.Interner.{Interner}
use giga_drill_breaker.Interner.Laws.{IsDense}
use giga_drill_breaker.ControlFlow.Types.{CallSiteContext, StoredContext, is_empty}
use giga_drill_breaker.ControlFlow.State.{ControlFlowIndex}
use giga_drill_breaker.ControlFlow.Sets.Laws.{set_zero_iff}
use giga_drill_breaker.ControlFlow.Queries.{
  indices_for, any, contexts_for_callee, contexts_for_caller, is_protected, protected_calls_to,
  unprotected_calls_to, gather,
}
use giga_drill_breaker.ControlFlow.Positions.{positions}
use giga_drill_breaker.ControlFlow.Indexed.{
  live_and, at_callee, at_caller, at_callee_display, at_caller_display,
}
use giga_drill_breaker.ControlFlow.Views.{Shows, Views, nil, live, dead, same_name, other_name}
use giga_drill_breaker.ControlFlow.Answers.{keep_none, gather_entry, no_entry}
use giga_drill_breaker.ControlFlow.Represents.{Represents}

-- No key has an empty vector.
abbrev pub IsTrim : Map ℕ (List ℕ) → Type 0
IsTrim m = (k : ℕ) → Map.find k m ≢ some []

-- The first list, or the second where the first has nothing.
abbrev pub or_else : List CallSiteContext → List CallSiteContext → List CallSiteContext
or_else [] ys = ys
or_else (x ∷ xs) ys = x ∷ xs

length-positions :
    (idx : ControlFlowIndex) (test : StoredContext → Bool) (q : CallSiteContext → Bool)
    (agree : (se : StoredContext) (c : CallSiteContext) → Shows idx se c → test se ≡ q c) (n : ℕ)
    {ses : List StoredContext} {cs : List CallSiteContext}
    → Views idx ses cs
    → length (positions (live_and test) n ses) ≡ length (keep q cs)
length-positions idx test q agree n nil = refl
length-positions idx test q agree n (dead {se} l v) =
    rw l (length-positions idx test q agree (suc n) v)
length-positions idx test q agree n (live {se} {c} s l v) =
    ground (arith, l, agree se c s, length-positions idx test q agree (suc n) v)

keep-keep :
    (p q : CallSiteContext → Bool) (cs : List CallSiteContext)
    → keep q (keep p cs) ≡ keep (λ c. p c && q c) cs
keep-keep p q [] = refl
keep-keep p q (c ∷ cs) = ground (arith, keep-keep p q cs)

-- A pair of maps, by the usr and by the display name.
module _ (idx : ControlFlowIndex) (cs : List CallSiteContext) (r : Represents idx cs)
    (usr_map display_map : Map ℕ (List ℕ)) (t_usr t_display : ℕ → StoredContext → Bool)
    (usr_lists : (k : ℕ)
      → Map.get_list k usr_map ≡ positions (live_and (t_usr k)) 0 idx.table.contexts)
    (display_lists : (k : ℕ)
      → Map.get_list k display_map ≡ positions (live_and (t_display k)) 0 idx.table.contexts)
    (own shown : String → CallSiteContext → Bool)
    (own_agree : (n : String) (id : ℕ)
      → Interner.find n idx.interner ≡ some id
      → (se : StoredContext) (c : CallSiteContext) → Shows idx se c
      → t_usr id se ≡ own n c)
    (shown_agree : (n : String) (id : ℕ)
      → Interner.find n idx.interner ≡ some id
      → (se : StoredContext) (c : CallSiteContext) → Shows idx se c
      → t_display id se ≡ shown n c)
    (unknown : (n : String)
      → Interner.find n idx.interner ≡ none
      → (se : StoredContext) (c : CallSiteContext) → Shows idx se c
      → (own n c ≡ false) × (shown n c ≡ false))
    (trim : IsTrim usr_map) (p : StoredContext → Bool) (q : CallSiteContext → Bool)
    (pq : (se : StoredContext) (c : CallSiteContext) → Shows idx se c → p se ≡ q c) where
  -- What stands under the usr is something.
  own_some :
      (n : String) (id : ℕ) (is : List ℕ)
      → Interner.find n idx.interner ≡ some id
      → Map.find id usr_map ≡ some is
      → keep (own n) cs ≢ []
  own_some n id is hit at e =
      let len = length-positions idx (t_usr id) (own n) (own_agree n id hit) 0 r.views in
      let l : is ≡ positions (live_and (t_usr id)) 0 idx.table.contexts =
        ground (arith, Map.get_list_lem id usr_map, usr_lists id) in
      let z : length is ≡ 0 = ap length l ∙ len ∙ ap length e in
      elim (List-cases is) [
        | inl emp ↦ trim id (at ∙ ap some emp)
        | inr (x, xs, cons) ↦ absurd (ground (arith, ap (length {A = ℕ}) cons))
      ]

  pub by_name_lem :
      (n : String)
      → (elim (indices_for usr_map display_map n idx.interner) [
        | none ↦ some []
        | some is ↦ gather p idx is
      ])
        ≡ some (keep q (or_else (keep (own n) cs) (keep (shown n) cs)))
  unfolding indices_for
  by_name_lem n = elim (Option-cases (Interner.find n idx.interner)) [
    | inl miss ↦
        let a = keep_none idx (own n) (λ se c s. (unknown n miss se c s).0) r.views in
        let b = keep_none idx (shown n) (λ se c s. (unknown n miss se c s).1) r.views in
        rw (miss, a, b, indices_for) refl
    | inr (id, hit) ↦ elim (Option-cases (Map.find id usr_map)) [
      | inr (is, at) ↦
          let g =
            gather_entry idx cs r.views usr_map id p (t_usr id) (λ c. own n c && q c) (usr_lists id)
              (λ se c s. ground (arith, own_agree n id hit se c s, pq se c s)) is at in
          let ne = own_some n id is hit at in
          let k = keep-keep (own n) q cs in
          elim (List-cases (keep (own n) cs)) [
            | inl e ↦ absurd (ne e)
            | inr (c, rest, e) ↦
                let o : or_else (keep (own n) cs) (keep (shown n) cs) ≡ keep (own n) cs =
                  rw e refl in
                rw (hit, at, o, indices_for) (g ∙ ap some (sym k))
          ]
      | inl gone ↦
          let a =
            no_entry idx cs r.views usr_map id any (t_usr id) (own n) (usr_lists id)
              (λ se c s. ground (arith, own_agree n id hit se c s)) gone in
          elim (Option-cases (Map.find id display_map)) [
            | inr (is, at) ↦
                let g =
                  gather_entry idx cs r.views display_map id p (t_display id)
                    (λ c. shown n c && q c) (display_lists id)
                    (λ se c s. ground (arith, shown_agree n id hit se c s, pq se c s)) is at in
                rw (hit, gone, at, a, indices_for) (g ∙ ap some (sym (keep-keep (shown n) q cs)))
            | inl gone' ↦
                let b =
                  no_entry idx cs r.views display_map id any (t_display id) (shown n)
                    (display_lists id) (λ se c s. ground (arith, shown_agree n id hit se c s))
                    gone' in
                rw (hit, gone, gone', a, b, indices_for) refl
          ]
    ]
  ]

-- The contexts whose callee has the usr `n`; where there are none, those that show the name `n` for
-- another usr.
abbrev pub to_callee : String → List CallSiteContext → List CallSiteContext
to_callee n cs =
    or_else (keep (λ c. c.callee_usr == n) cs)
      (keep (λ c. not (c.callee_name == c.callee_usr) && c.callee_name == n) cs)

abbrev pub from_caller : String → List CallSiteContext → List CallSiteContext
from_caller n cs =
    or_else (keep (λ c. c.caller_usr == n) cs)
      (keep (λ c. not (c.caller_name == c.caller_usr) && c.caller_name == n) cs)

-- Two ids are equal exactly when their names are.
same_ids :
    (i : Interner) (s t : String) (a b : ℕ)
    → IsDense i
    → Interner.resolve a i ≡ some s
    → Interner.resolve b i ≡ some t
    → (a == b) ≡ (s == t)
same_ids i s t a b dense p q = ground (arith, dense.of_table s a p, dense.of_table t b q)

module _ (idx : ControlFlowIndex) (cs : List CallSiteContext) (r : Represents idx cs) where
  module _ (p : StoredContext → Bool) (q : CallSiteContext → Bool)
      (pq : (se : StoredContext) (c : CallSiteContext) → Shows idx se c → p se ≡ q c)
      (trim : IsTrim idx.table.by_callee) where
    callee_lem :
        (n : String)
        → (elim (indices_for idx.table.by_callee idx.table.by_callee_display n idx.interner) [
          | none ↦ some []
          | some is ↦ gather p idx is
        ])
          ≡ some (keep q (to_callee n cs))
    callee_lem =
        by_name_lem idx cs r idx.table.by_callee idx.table.by_callee_display at_callee
          at_callee_display r.indexed.linked.callees r.indexed.linked.callee_displays
          (λ n c. c.callee_usr == n)
          (λ n c. not (c.callee_name == c.callee_usr) && c.callee_name == n)
          (λ n id hit se c s.
            same_name idx.interner n c.callee_usr id se.callee r.dense hit s.callee_usr)
          (λ n id hit se c s. ground (
            arith,
            same_name idx.interner n c.callee_name id se.callee_display r.dense hit s.callee_name,
            same_ids idx.interner c.callee_name c.callee_usr se.callee_display se.callee r.dense
                s.callee_name s.callee_usr,
          ))
          (λ n miss se c s. (
            other_name idx.interner n c.callee_usr se.callee r.dense miss s.callee_usr,
            ground (
              arith,
              other_name idx.interner n c.callee_name se.callee_display r.dense miss s.callee_name,
            ),
          ))
          trim p q pq

  keep_all : (xs : List CallSiteContext) → keep (λ c. true) xs ≡ xs
  keep_all [] = refl
  keep_all (x ∷ xs) = ap (λ l. x ∷ l) (keep_all xs)

  -- On an index that stands for a list of contexts and whose map of callees has no empty vector,
  -- `contextsForCallee` gives exactly the contexts whose callee has the given usr and, if there
  -- are none, those that show the name for another usr.
  pub contexts_for_callee-Represents :
      (n : String) → IsTrim idx.table.by_callee → contexts_for_callee n idx ≡ some (to_callee n cs)
  unfolding contexts_for_callee
  contexts_for_callee-Represents n trim =
      callee_lem any (λ c. true) (λ se c s. refl) trim n ∙ ap some (keep_all (to_callee n cs))

  pub contexts_for_caller-Represents :
      (n : String)
      → IsTrim idx.table.by_caller
      → contexts_for_caller n idx ≡ some (from_caller n cs)
  unfolding contexts_for_caller
  contexts_for_caller-Represents n trim =
      by_name_lem idx cs r idx.table.by_caller idx.table.by_caller_display at_caller
        at_caller_display r.indexed.linked.callers r.indexed.linked.caller_displays
        (λ n c. c.caller_usr == n)
        (λ n c. not (c.caller_name == c.caller_usr) && c.caller_name == n)
        (λ n id hit se c s.
          same_name idx.interner n c.caller_usr id se.caller r.dense hit s.caller_usr)
        (λ n id hit se c s. ground (
          arith,
          same_name idx.interner n c.caller_name id se.caller_display r.dense hit s.caller_name,
          same_ids idx.interner c.caller_name c.caller_usr se.caller_display se.caller r.dense
              s.caller_name s.caller_usr,
        ))
        (λ n miss se c s. (
          other_name idx.interner n c.caller_usr se.caller r.dense miss s.caller_usr,
          ground (
            arith,
            other_name idx.interner n c.caller_name se.caller_display r.dense miss s.caller_name,
          ),
        ))
        trim any (λ c. true) (λ se c s. refl) n
      ∙ ap some (keep_all (from_caller n cs))

  protected_agree :
      (se : StoredContext) (c : CallSiteContext)
      → Shows idx se c
      → is_protected se ≡ not (is_empty c.enclosing_try_catches)
  unfolding is_protected
  protected_agree se c s =
      ap not (set_zero_iff idx.scope_sets r.scopes se.scope_set c.enclosing_try_catches s.scopes)

  -- On an index that stands for a list of contexts and whose map of callees has no empty vector,
  -- `protectedCallsTo` and `unprotectedCallsTo` split what `contextsForCallee` gives by whether a
  -- try scope encloses the call, each in its order.
  pub protected_calls_lem :
      (n : String)
      → IsTrim idx.table.by_callee
      → (protected_calls_to n idx
          ≡ some (keep (λ c. not (is_empty c.enclosing_try_catches)) (to_callee n cs)))
        × (unprotected_calls_to n idx
            ≡ some (keep (λ c. is_empty c.enclosing_try_catches) (to_callee n cs)))
  unfolding protected_calls_to unprotected_calls_to
  protected_calls_lem n trim = (
    callee_lem is_protected (λ c. not (is_empty c.enclosing_try_catches)) protected_agree trim n,
    callee_lem (λ se. not (is_protected se)) (λ c. is_empty c.enclosing_try_catches)
        (λ se c s. ground (arith, protected_agree se c s)) trim n,
  )
