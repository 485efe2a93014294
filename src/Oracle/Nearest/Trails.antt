-- ===== src/Oracle/Nearest/Trails.antt =====
-- The walk ends, and what it records is right.
use giga_drill_breaker.Common.{
  ℕ, zero, suc, ◌+◌, ◌<◌, ◌≤◌, ◌≡◌, refl, sym, ap, subst, String, true, false, some, List, [], ◌∷◌,
  ◌++◌, arith, length, ltb, if◌then◌else◌, if_true, if_false, has_name, insert_name,
  has_name-insert_name, fresh, fresh_less, fresh-le-length, Bool-cases, if_both, Option-cases,
  List-cases, inl, inr, map, string_eq,
}
use giga_drill_breaker.Contexts.{TryCatchScope}
use giga_drill_breaker.Graph.Types.{CallGraphEdge}
use giga_drill_breaker.ControlFlow.Types.{CallSiteContext}
use giga_drill_breaker.Oracle.{OracleView}
use giga_drill_breaker.Oracle.Paths.Found.{
  In, here, there, In-nil, In-cons, In-split, IsChain, last_of,
}
use giga_drill_breaker.Oracle.Protection.{first_context, caller_names}
use giga_drill_breaker.Oracle.Nearest.{
  NearestCatchInfo, SearchState, Search, depth_limit, go_on, visit_caller, visit_callers, walk,
  start_search, query_nearest_catches,
}

module _ (v : OracleView) where
  -- The three ways of a visit.
  visit_cases :
      (P : Search → Type 0) (st : SearchState) (c : String) (s : Search)
      → (has_name s.visited c ≡ true → P s)
      → (has_name s.visited c ≡ false → P (go_on st c s))
      → ((ctx : CallSiteContext) (scope : TryCatchScope) (scopes : List TryCatchScope)
          → has_name s.visited c ≡ false
          → first_context st.func (v.contexts_for_caller c) ≡ some ctx
          → ctx.enclosing_try_catches ≡ scope ∷ scopes
          → P (record s {
            result =
                s.result
                ++ record {
                  path_segment = c ∷ st.path_so_far;
                  scope = scope;
                  frames_from_target = st.depth + 1;
                }
                  ∷ [];
          }))
      → P (visit_caller v st c s)
  unfolding visit_caller
  visit_cases P st c s seen on caught = elim (Bool-cases (has_name s.visited c)) [
    | inl e ↦ subst P (sym (if_true (has_name s.visited c) s _ e)) (seen e)
    | inr e ↦
        subst P (sym (if_false (has_name s.visited c) s _ e))
          (elim (Option-cases (first_context st.func (v.contexts_for_caller c))) [
            | inl miss ↦ rw miss (on e)
            | inr (ctx, hit) ↦ elim (List-cases ctx.enclosing_try_catches) [
              | inl bare ↦ rw (hit, bare) (on e)
              | inr (scope, scopes, full) ↦ rw (hit, full) (caught ctx scope scopes e hit full)
            ]
          ])
  ]

  -- What the walk has left to do.
  module _ (names : List String)
      (closed : (n c : String)
        → has_name (caller_names v n) c ≡ true
        → has_name names c ≡ true) where
    abbrev left : Search → ℕ
    left s = length s.queue + fresh names s.visited

    left-visit_caller :
        (st : SearchState) (c : String) (s : Search)
        → has_name names c ≡ true
        → left (visit_caller v st c s) ≤ left s
    unfolding go_on
    left-visit_caller st c s known =
        visit_cases (λ (t : Search). left t ≤ left s) st c s (λ e. omega arith)
          (λ e. omega (
            arith,
            fresh_less names s.visited (insert_name c s.visited) c
                (λ x. has_name-insert_name x c s.visited) known e,
          ))
          (λ ctx scope scopes e hit full. omega arith)

    left-visit_callers :
        (st : SearchState) (es : List CallGraphEdge) (s : Search)
        → ((c : String) → has_name (map (λ e. e.caller_name) es) c ≡ true → has_name names c ≡ true)
        → left (visit_callers v st es s) ≤ left s
    unfolding visit_callers
    left-visit_callers st [] s k = omega arith
    left-visit_callers st (e ∷ es) s k =
        let one = left-visit_caller st e.caller_name s (k e.caller_name (ground arith)) in
        let rest =
          left-visit_callers st es (visit_caller v st e.caller_name s)
            (λ c m. k c (ground (arith, m))) in
        omega (arith, one, rest)

    walk_ends : (fuel : ℕ) (s : Search) → left s ≤ fuel → (walk v fuel s).queue ≡ []
    unfolding walk caller_names
    walk_ends zero s h = elim (List-cases s.queue) [
      | inl e ↦ e
      | inr (st, rest, e) ↦ absurd (omega (arith, ap (length {A = SearchState}) e))
    ]
    walk_ends (suc fuel) s h = elim (List-cases s.queue) [
      | inl e ↦ rw (e, walk) e
      | inr (st, rest, e) ↦
          let popped : Search = record s { queue = rest } in
          let here : left popped ≤ fuel = omega (arith, ap (length {A = SearchState}) e) in
          let all =
            left-visit_callers st (v.callers_of st.func) popped (λ c m. closed st.func c m) in
          rw (e, walk)
            (walk_ends fuel _ (
              if_both (λ (t : Search). left t ≤ fuel) (ltb depth_limit st.depth) here
                (omega (arith, all, here))))
    ]

    -- Where a list holds every caller, the walk of `queryNearestCatches` ends, with an empty
    -- queue, within one round more than the list has names.
    pub nearest_ends :
        (fuel : ℕ) (name : String)
        → length names < fuel
        → (walk v fuel (start_search name)).queue ≡ []
    unfolding start_search
    nearest_ends fuel name enough =
        walk_ends fuel (start_search name) (omega (arith, fresh-le-length names (name ∷ [])))

  -- A state's path is made of calls that lead from its function to the target.
  record IsTrail (target : String) (st : SearchState) : Type 0 where
    rest : List String
    path : st.path_so_far ≡ st.func ∷ rest
    chain : IsChain (caller_names v) (st.func ∷ rest)
    last : last_of target (st.func ∷ rest) ≡ target
    depth : length rest ≡ st.depth

  -- What a recorded catch says: calls that lead from the function that catches to the target, and the
  -- innermost scope around the first context of the first of these calls.
  pub record IsCatch (target : String) (r : NearestCatchInfo) : Type 0 where
    pub catcher : String
    pub callee : String
    pub rest : List String
    pub segment : r.path_segment ≡ catcher ∷ callee ∷ rest
    pub chain : IsChain (caller_names v) (catcher ∷ callee ∷ rest)
    pub last : last_of target (callee ∷ rest) ≡ target
    pub frames : length (callee ∷ rest) ≡ r.frames_from_target
    pub near : r.frames_from_target ≤ depth_limit + 1
    pub ctx : CallSiteContext
    pub outer : List TryCatchScope
    pub first : first_context callee (v.contexts_for_caller catcher) ≡ some ctx
    pub innermost : ctx.enclosing_try_catches ≡ r.scope ∷ outer

  module _ (target : String) where
    record IsSound (s : Search) : Type 0 where
      trails : (st : SearchState) → In st s.queue → IsTrail target st
      catches : (r : NearestCatchInfo) → In r s.result → IsCatch target r

    visit_caller-IsSound :
        (st : SearchState) (c : String) (s : Search)
        → IsTrail target st
        → st.depth ≤ depth_limit
        → has_name (caller_names v st.func) c ≡ true
        → IsSound s
        → IsSound (visit_caller v st c s)
    unfolding go_on
    visit_caller-IsSound st c s trail shallow call ok =
        visit_cases IsSound st c s (λ e. ok)
          (λ e. record {
            trails = λ t i. elim (In-cons i) [
              | inl same ↦ subst (IsTrail target) (sym same) (record {
                rest = st.func ∷ trail.rest;
                path = ap (λ l. c ∷ l) trail.path;
                chain = (call, trail.chain);
                last = trail.last;
                depth = omega (arith, trail.depth);
              })
              | inr j ↦ ok.trails t j
            ];
            catches = ok.catches;
          })
          (λ ctx scope scopes e hit full. record {
            trails = ok.trails;
            catches = λ r i. elim (In-split _ s.result i) [
              | inl j ↦ ok.catches r j
              | inr same ↦ subst (IsCatch target) (sym same) (record {
                catcher = c;
                callee = st.func;
                rest = trail.rest;
                segment = ap (λ l. c ∷ l) trail.path;
                chain = (call, trail.chain);
                last = trail.last;
                frames = omega (arith, trail.depth);
                near = omega (arith, shallow);
                ctx = ctx;
                outer = scopes;
                first = hit;
                innermost = full;
              })
            ];
          })

    visit_callers-IsSound :
        (st : SearchState) (es : List CallGraphEdge) (s : Search)
        → IsTrail target st
        → st.depth ≤ depth_limit
        → ((c : String)
            → has_name (map (λ e. e.caller_name) es) c ≡ true
            → has_name (caller_names v st.func) c ≡ true)
        → IsSound s
        → IsSound (visit_callers v st es s)
    unfolding visit_callers
    visit_callers-IsSound st [] s trail shallow call ok = ok
    visit_callers-IsSound st (e ∷ es) s trail shallow call ok =
        visit_callers-IsSound st es (visit_caller v st e.caller_name s) trail shallow
          (λ c m. call c (ground (arith, m)))
          (visit_caller-IsSound st e.caller_name s trail shallow (call e.caller_name (ground arith))
            ok)

    walk-IsSound : (fuel : ℕ) (s : Search) → IsSound s → IsSound (walk v fuel s)
    unfolding walk caller_names
    walk-IsSound zero s ok = ok
    walk-IsSound (suc fuel) s ok = elim (List-cases s.queue) [
      | inl e ↦ rw (e, walk) ok
      | inr (st, rest, e) ↦
          let popped : Search = record s { queue = rest } in
          let trail = ok.trails st (subst (In st) (sym e) here) in
          let less : IsSound popped = record {
            trails = λ t i. ok.trails t (subst (In t) (sym e) (there i));
            catches = ok.catches;
          } in
          let step : IsSound (
              if ltb depth_limit st.depth
              then popped
              else visit_callers v st (v.callers_of st.func) popped) =
            elim (Bool-cases (ltb depth_limit st.depth)) [
              | inl deep ↦ subst IsSound (sym (if_true _ _ _ deep)) less
              | inr shallow ↦ subst IsSound (sym (if_false _ _ _ shallow)) (
                  visit_callers-IsSound st (v.callers_of st.func) popped trail (ground arith)
                    (λ c m. m) less)
            ] in
          rw (e, walk) (walk-IsSound fuel _ step)
    ]

  -- Each catch that `queryNearestCatches` records is that of a caller from which a chain of calls
  -- leads to the function, at most 21 frames away; it is the innermost scope around the first
  -- context of the first call of that chain.
  pub nearest_lem :
      (fuel : ℕ) (name : String) (r : NearestCatchInfo)
      → In r (query_nearest_catches v fuel name)
      → IsCatch name r
  unfolding query_nearest_catches start_search
  nearest_lem fuel name r i =
      (walk-IsSound name fuel (start_search name) (record {
        trails = λ st j. elim (In-cons j) [
          | inl same ↦
              subst (IsTrail name) (sym same)
                (record { rest = []; path = refl; chain = tt; last = refl; depth = refl })
          | inr k ↦ absurd (In-nil k)
        ];
        catches = λ q j. absurd (In-nil j);
      })).catches
        r i
