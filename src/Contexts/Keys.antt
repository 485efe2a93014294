-- ===== src/Contexts/Keys.antt =====
-- Sets of guards and of scopes under their keys.
use giga_drill_breaker.Common.{
  ℕ, suc, get_elem?, some, ◌%◌, ◌^◌, ◌≡◌, refl, sym, ◌∙◌, List, [], ◌∷◌, ◌++◌, arith, length,
}
use giga_drill_breaker.Contexts.{
  Bytes, ConditionalGuard, CatchHandlerInfo, TryCatchScope, key_u32, key_str, guard_key,
  guard_set_key, handler_key, handlers_key, scope_key, scope_set_key,
}
use giga_drill_breaker.Contexts.Codes.{
  IsCode, append_assoc, IsU32, IsText, key_u32-IsCode, flag_code, key_str-IsCode,
}

-- The first part of a joined code comes off.
pub shift :
    (a b r a' b' q : Bytes) → (a ++ b) ++ r ≡ (a' ++ b') ++ q → a ++ (b ++ r) ≡ a' ++ (b' ++ q)
shift a b r a' b' q e = sym (append_assoc a b r) ∙ e ∙ append_assoc a' b' q

-- The texts of a guard fit.
abbrev pub IsGuard : ConditionalGuard → Type 0
IsGuard g = IsText g.condition_text × IsText g.location

guard_key-IsCode : IsCode guard_key IsGuard
unfolding guard_key
guard_key-IsCode g h r q p p' e =
    let (a, e1) =
      key_str-IsCode g.condition_text h.condition_text _ _ p.0 p'.0 (shift _ _ r _ _ q e) in
    let (b, e2) = key_str-IsCode g.location h.location _ _ p.1 p'.1 (shift _ _ r _ _ q e1) in
    let (c, e3) = flag_code g.in_true_branch h.in_true_branch _ _ (shift _ _ r _ _ q e2) in
    let (d, e4) = flag_code g.is_assertion h.is_assertion _ _ e3 in (ground arith, e4)

-- Each element of the list fits.
abbrev pub All {ℓ} : {A : Type ℓ} → (A → Type 0) → List A → Type ℓ
All {A} P xs = (i : ℕ) (x : A) → get_elem? xs i ≡ some x → P x

-- Two sets of guards with one key are equal, while the lengths of their texts fit a uint32_t.
pub guard_set_key_injective :
    (gs hs : List ConditionalGuard)
    → All IsGuard gs
    → All IsGuard hs
    → guard_set_key gs ≡ guard_set_key hs
    → gs ≡ hs
unfolding guard_set_key guard_key key_str key_u32
guard_set_key_injective [] [] p q e = refl
guard_set_key_injective [] (h ∷ hs) p q e = absurd (ground arith)
guard_set_key_injective (g ∷ gs) [] p q e = absurd (ground arith)
guard_set_key_injective (g ∷ gs) (h ∷ hs) p q e =
    let (a, rest) =
      guard_key-IsCode g h (guard_set_key gs) (guard_set_key hs) (p 0 g refl) (q 0 h refl) e in
    let later =
      guard_set_key_injective gs hs (λ i x at. p (suc i) x at) (λ i x at. q (suc i) x at) rest in
    ground arith

abbrev pub IsHandler : CatchHandlerInfo → Type 0
IsHandler h = IsText h.caught_type × IsText h.location × IsText h.body_summary

handler_key-IsCode : IsCode handler_key IsHandler
unfolding handler_key
handler_key-IsCode g h r q p p' e =
    let (a, e1) = key_str-IsCode g.caught_type h.caught_type _ _ p.0 p'.0 (shift _ _ r _ _ q e) in
    let (b, e2) = flag_code g.is_catch_all h.is_catch_all _ _ (shift _ _ r _ _ q e1) in
    let (c, e3) = key_str-IsCode g.location h.location _ _ p.1 p'.1 (shift _ _ r _ _ q e2) in
    let (d, e4) = key_str-IsCode g.body_summary h.body_summary _ _ p.2 p'.2 e3 in (ground arith, e4)

-- The handlers of a scope come with their number in front.
handlers_code :
    (gs hs : List CatchHandlerInfo) (r q : Bytes)
    → length gs ≡ length hs
    → All IsHandler gs
    → All IsHandler hs
    → handlers_key gs ++ r ≡ handlers_key hs ++ q
    → (gs ≡ hs) × (r ≡ q)
unfolding handlers_key
handlers_code [] [] r q n p p' e = (refl, e)
handlers_code [] (h ∷ hs) r q n p p' e = absurd (ground arith)
handlers_code (g ∷ gs) [] r q n p p' e = absurd (ground arith)
handlers_code (g ∷ gs) (h ∷ hs) r q n p p' e =
    let (a, e1) = handler_key-IsCode g h _ _ (p 0 g refl) (p' 0 h refl) (shift _ _ r _ _ q e) in
    let (b, e2) =
      handlers_code gs hs r q (omega arith) (λ i x at. p (suc i) x at) (λ i x at. p' (suc i) x at)
        e1 in
    (ground arith, e2)

-- Texts, depth and the number of handlers fit, and each handler does.
abbrev pub IsScope : TryCatchScope → Type 0
IsScope s =
    IsText s.try_location
    × IsText s.enclosing_function
    × IsU32 s.nesting_depth
    × IsU32 (length s.handlers)
    × All IsHandler s.handlers

scope_key-IsCode : IsCode scope_key IsScope
unfolding scope_key
scope_key-IsCode g h r q p p' e =
    let (a, e1) = key_str-IsCode g.try_location h.try_location _ _ p.0 p'.0 (shift _ _ r _ _ q e) in
    let (b, e2) =
      key_str-IsCode g.enclosing_function h.enclosing_function _ _ p.1 p'.1
        (shift _ _ r _ _ q e1) in
    let (c, e3) =
      key_u32-IsCode g.nesting_depth h.nesting_depth _ _ p.2 p'.2 (shift _ _ r _ _ q e2) in
    let (d, e4) =
      key_u32-IsCode (length g.handlers % 2 ^ 32) (length h.handlers % 2 ^ 32) _ _ (omega arith)
        (omega arith) (shift _ _ r _ _ q e3) in
    let n : length g.handlers ≡ length h.handlers = omega (arith, p.3, p'.3) in
    let (f, e5) = handlers_code g.handlers h.handlers r q n p.4 p'.4 e4 in (ground arith, e5)

-- Two sets of try scopes with one key are equal, while the lengths of their texts, their depths
-- and the numbers of their handlers fit a uint32_t.
pub scope_set_key_injective :
    (gs hs : List TryCatchScope)
    → All IsScope gs
    → All IsScope hs
    → scope_set_key gs ≡ scope_set_key hs
    → gs ≡ hs
unfolding scope_set_key scope_key key_str key_u32
scope_set_key_injective [] [] p q e = refl
scope_set_key_injective [] (h ∷ hs) p q e = absurd (ground arith)
scope_set_key_injective (g ∷ gs) [] p q e = absurd (ground arith)
scope_set_key_injective (g ∷ gs) (h ∷ hs) p q e =
    let (a, rest) =
      scope_key-IsCode g h (scope_set_key gs) (scope_set_key hs) (p 0 g refl) (q 0 h refl) e in
    let later =
      scope_set_key_injective gs hs (λ i x at. p (suc i) x at) (λ i x at. q (suc i) x at) rest in
    ground arith
