-- ===== src/Oracle/Protection/Verdict.antt =====
-- What the verdict on an exception says of the calls.
use giga_drill_breaker.Common.{
  ℕ, ◌<◌, ◌≡◌, ◌≢◌, refl, ap, ◌↔◌, String, Bool, true, false, not, ◌||◌, none, some, List, [], ◌∷◌,
  map, arith, length, string_eq, nat_eq, has_name, Option-cases, inl, inr,
}
use giga_drill_breaker.Contexts.{Bytes, TryCatchScope}
use giga_drill_breaker.Oracle.{OracleView}
use giga_drill_breaker.Oracle.Subtype.{is_caught_by_scope}
use giga_drill_breaker.Oracle.Paths.Found.{In, here, there, In-cons, Extends, find_paths_iff}
use giga_drill_breaker.Oracle.Protection.{
  Protection, always_caught, never_caught, unknown, PathInfo, caller_names, first_context,
  add_scope, add_scopes, add_call, add_calls, path_info, count_caught, judge, result_of, path_limit,
  raw_paths, query_exception_protection,
}

abbrev pub any_scope : Bytes → List TryCatchScope → Bool
any_scope exception [] = false
any_scope exception (s ∷ ss) = is_caught_by_scope exception s || any_scope exception ss

-- A call catches if a scope around its first context does.
unfoldable pub catches_call : OracleView → Bytes → String → String → Bool
catches_call v exception caller callee =
    elim (first_context callee (v.contexts_for_caller caller)) [
      | none ↦ false
      | some ctx ↦ any_scope exception ctx.enclosing_try_catches
    ]

-- An exception is caught on a chain if one of its calls catches it.
abbrev pub is_caught_on : OracleView → Bytes → List String → Bool
is_caught_on v exception [] = false
is_caught_on v exception (a ∷ []) = false
is_caught_on v exception (a ∷ b ∷ r) =
    catches_call v exception a b || is_caught_on v exception (b ∷ r)

add_scopes_caught :
    (exception : Bytes) (scopes : List TryCatchScope) (pi : PathInfo)
    → (add_scopes exception scopes pi).is_caught ≡ (pi.is_caught || any_scope exception scopes)
unfolding add_scopes add_scope
add_scopes_caught exception [] pi = ground arith
add_scopes_caught exception (s ∷ ss) pi =
    ground (arith, add_scopes_caught exception ss (add_scope exception s pi))

add_call_caught :
    (v : OracleView) (exception : Bytes) (a b : String) (pi : PathInfo)
    → (add_call v exception a b pi).is_caught ≡ (pi.is_caught || catches_call v exception a b)
unfolding add_call catches_call
add_call_caught v exception a b pi =
    elim (Option-cases (first_context b (v.contexts_for_caller a))) [
      | inl none_there ↦ ground (arith, none_there)
      | inr (ctx, there_is) ↦
          ground (arith, there_is, add_scopes_caught exception ctx.enclosing_try_catches pi)
    ]

add_calls_caught :
    (v : OracleView) (exception : Bytes) (chain : List String) (pi : PathInfo)
    → (add_calls v exception chain pi).is_caught ≡ (pi.is_caught || is_caught_on v exception chain)
unfolding add_calls
add_calls_caught v exception [] pi = ground arith
add_calls_caught v exception (a ∷ []) pi = ground arith
add_calls_caught v exception (a ∷ b ∷ r) pi = ground (
  arith,
  add_calls_caught v exception (b ∷ r) (add_call v exception a b pi),
  add_call_caught v exception a b pi,
)

path_info_caught :
    (v : OracleView) (exception : Bytes) (chain : List String)
    → (path_info v exception chain).is_caught ≡ is_caught_on v exception chain
unfolding path_info
path_info_caught v exception chain = add_calls_caught v exception chain _

-- Every chain of a list has a given verdict.
abbrev pub AllCaught : Bool → OracleView → Bytes → List (List String) → Type 0
AllCaught b v exception chains = (p : List String) → In p chains → is_caught_on v exception p ≡ b

count_zero :
    (v : OracleView) (exception : Bytes) (b : Bool) (chains : List (List String))
    → (count_caught (not b) (map (path_info v exception) chains) ≡ 0)
      ↔ AllCaught b v exception chains
unfolding count_caught
count_zero v exception b [] = (λ h p i. elim i [ ], λ h. refl)
count_zero v exception b (c ∷ cs) =
    let rest = count_zero v exception b cs in
    let own = path_info_caught v exception c in
    (
      λ h p i. elim (In-cons i) [
        | inl same ↦ ground (arith, h, own, ap (is_caught_on v exception) same)
        | inr j ↦ rest.0 (ground (arith, h, own)) p j
      ],
      λ h. ground (arith, rest.1 (λ p i. h p (there i)), h c here, own),
    )

-- No chain, or a first one.
abbrev Judged : OracleView → Bytes → List (List String) → Protection → Type 0
Judged v exception chains verdict = (result_of v exception chains).protection ≡ verdict

judge_always : (c u : ℕ) → (judge c u ≡ always_caught) ↔ (u ≡ 0)
unfolding judge
judge_always c u = (λ h. ground arith, λ h. ground arith)

judge_never : (c u : ℕ) → (judge c u ≡ never_caught) ↔ ((c ≡ 0) × (u ≢ 0))
unfolding judge
judge_never c u = (λ h. (ground arith, λ z. ground arith), λ h. ground (arith, h.0, h.1))

judge_known : (c u : ℕ) → judge c u ≢ unknown
unfolding judge
judge_known c u h = ground arith

module _ (v : OracleView) (exception : Bytes) where
  -- For the paths that were found, the verdict is unknown exactly when there is none, always
  -- caught exactly when there is one and each has a call whose first context stands in a scope
  -- that catches the exception, and never caught exactly when there is one and none has such a
  -- call.
  pub result_of_iff :
      (chains : List (List String))
      → (Judged v exception chains unknown ↔ (chains ≡ []))
        × (Judged v exception chains always_caught
            ↔ ((chains ≢ []) × AllCaught true v exception chains))
        × (Judged v exception chains never_caught
            ↔ ((chains ≢ []) × AllCaught false v exception chains))
  unfolding result_of
  result_of_iff [] = (
    (λ h. refl, λ h. refl),
    (λ h. absurd (ground arith), λ h. absurd (h.0 refl)),
    (λ h. absurd (ground arith), λ h. absurd (h.0 refl)),
  )
  result_of_iff (c ∷ cs) =
      let paths = map (path_info v exception) (c ∷ cs) in
      let yes_ = count_zero v exception true (c ∷ cs) in
      let no_ = count_zero v exception false (c ∷ cs) in
      let caught = count_caught true paths in
      let uncaught = count_caught false paths in
      let some_ : c ∷ cs ≢ [] = λ e. cc in
      (
        (λ h. absurd (judge_known caught uncaught h), λ h. absurd (some_ h)),
        (
          λ h. (some_, yes_.0 ((judge_always caught uncaught).0 h)),
          λ h. (judge_always caught uncaught).1 (yes_.1 h.1),
        ),
        (
          λ h. (some_, no_.0 ((judge_never caught uncaught).0 h).0),
          λ h.
              (judge_never caught uncaught).1
                (no_.1 h.1, λ z. ground (arith, yes_.0 z c here, h.1 c here)),
        ),
      )

-- If the verdict is that an exception is always caught, the search stayed below its limit of paths
-- and had fuel for every name, then every path that the calls allow from an entry point has a call
-- whose first context stands in a scope that catches the exception.
pub always_caught_lem :
    (v : OracleView) (fuel : ℕ) (name : String) (exception : Bytes) (entries names : List String)
    → ((n c : String) → has_name (caller_names v n) c ≡ true → has_name names c ≡ true)
    → length names < fuel
    → length (raw_paths v path_limit entries fuel name) < path_limit
    → (query_exception_protection v fuel name exception entries).protection ≡ always_caught
    → (p : List String) → Extends (caller_names v) entries name [] p
    → is_caught_on v exception p ≡ true
unfolding query_exception_protection raw_paths
always_caught_lem v fuel name exception entries names closed enough below h p x =
    let found =
      find_paths_iff (caller_names v) entries path_limit fuel name names closed enough below p in
    ((result_of_iff v exception (raw_paths v path_limit entries fuel name)).1.0 h).1 p (found.1 x)
