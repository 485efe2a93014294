-- ===== src/ControlFlow/Sets/Keys.antt =====
-- The key of a set of locals, over their ids.
use giga_drill_breaker.Common.{suc, ◌≡◌, refl, List, [], ◌∷◌, ◌++◌, arith}
use giga_drill_breaker.Contexts.{Bytes, key_u32}
use giga_drill_breaker.Contexts.Codes.{IsU32, key_u32-IsCode}
use giga_drill_breaker.Contexts.Keys.{All, shift}
use giga_drill_breaker.ControlFlow.Types.{RaiiKind, lock, smart_ptr, other, StoredRaiiLocal}
use giga_drill_breaker.ControlFlow.Sets.{raii_code, raii_key, raii_set_key}

-- The ids of a local are numbers of a uint32_t.
abbrev pub IsLocal : StoredRaiiLocal → Type 0
IsLocal l = IsU32 l.type_name × IsU32 l.var_name × IsU32 l.decl_location

raii_code_injective : (a b : RaiiKind) → raii_code a ≡ raii_code b → a ≡ b
unfolding raii_code
raii_code_injective lock lock e = refl
raii_code_injective lock smart_ptr e = absurd (ground arith)
raii_code_injective lock other e = absurd (ground arith)
raii_code_injective smart_ptr lock e = absurd (ground arith)
raii_code_injective smart_ptr smart_ptr e = refl
raii_code_injective smart_ptr other e = absurd (ground arith)
raii_code_injective other lock e = absurd (ground arith)
raii_code_injective other smart_ptr e = absurd (ground arith)
raii_code_injective other other e = refl

raii_key_code :
    (a b : StoredRaiiLocal) (r q : Bytes)
    → IsLocal a
    → IsLocal b
    → raii_key a ++ r ≡ raii_key b ++ q
    → (a ≡ b) × (r ≡ q)
unfolding raii_key
raii_key_code a b r q p p' e =
    let (x, e1) = key_u32-IsCode a.type_name b.type_name _ _ p.0 p'.0 (shift _ _ r _ _ q e) in
    let (y, e2) = key_u32-IsCode a.var_name b.var_name _ _ p.1 p'.1 (shift _ _ r _ _ q e1) in
    let (z, e3) =
      key_u32-IsCode a.decl_location b.decl_location _ _ p.2 p'.2 (shift _ _ r _ _ q e2) in
    let e4 : raii_code a.kind ∷ r ≡ raii_code b.kind ∷ q = e3 in
    let k = raii_code_injective a.kind b.kind (ground arith) in (ground arith, ground arith)

pub raii_set_key_injective :
    (ls ms : List StoredRaiiLocal)
    → All IsLocal ls
    → All IsLocal ms
    → raii_set_key ls ≡ raii_set_key ms
    → ls ≡ ms
unfolding raii_set_key raii_key key_u32
raii_set_key_injective [] [] p q e = refl
raii_set_key_injective [] (m ∷ ms) p q e = absurd (ground arith)
raii_set_key_injective (l ∷ ls) [] p q e = absurd (ground arith)
raii_set_key_injective (l ∷ ls) (m ∷ ms) p q e =
    let (a, rest) =
      raii_key_code l m (raii_set_key ls) (raii_set_key ms) (p 0 l refl) (q 0 m refl) e in
    let later =
      raii_set_key_injective ls ms (λ i x at. p (suc i) x at) (λ i x at. q (suc i) x at) rest in
    ground arith
