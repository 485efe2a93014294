-- ===== src/ControlFlow/Adding/Locals.antt =====
-- The locals of a new context, interned one after the other.
use giga_drill_breaker.Common.{
  zero, suc, ◌+◌, ◌*◌, ◌<◌, ◌≡◌, refl, some, List, [], ◌∷◌, arith, length,
}
use giga_drill_breaker.Interner.{Interner, id_limit, size, intern}
use giga_drill_breaker.Interner.Laws.{IsDense, resolve-lt-size}
use giga_drill_breaker.Interner.Growth.{
  Grows, Grows-refl, Grows-trans, Grows-weaken, intern-Grows, find-intern_self,
}
use giga_drill_breaker.Contexts.Keys.{All}
use giga_drill_breaker.ControlFlow.Types.{RaiiLocal, StoredRaiiLocal}
use giga_drill_breaker.ControlFlow.Sets.Keys.{IsLocal}
use giga_drill_breaker.ControlFlow.Queries.{resolve_local, resolve_locals}
use giga_drill_breaker.ControlFlow.State.{intern_local, intern_locals}
use giga_drill_breaker.ControlFlow.Later.{Grows-Keeps, resolve_local-later}

pub intern_local_lem :
    (l : RaiiLocal) (i : Interner)
    → IsDense i
    → size i + 3 < id_limit
    → Grows 3 i (intern_local l i).1
      × (resolve_local (intern_local l i).1 (intern_local l i).0 ≡ some l)
      × IsLocal (intern_local l i).0
unfolding intern_local resolve_local
intern_local_lem l i dense room =
    let (type_name, i1) = intern l.type_name i in
    let (var_name, i2) = intern l.var_name i1 in
    let (decl_location, i3) = intern l.decl_location i2 in
    let g1 = intern-Grows l.type_name i dense (omega arith) in
    let g2 = intern-Grows l.var_name i1 g1.dense (omega (arith, g1.bounded)) in
    let g12 = Grows-trans g1 g2 in
    let g3 = intern-Grows l.decl_location i2 g2.dense (omega (arith, g12.bounded)) in
    let g = Grows-trans g12 g3 in
    let r1 =
      g.dense.of_index _ _ ((Grows-trans g2 g3).stable _ _ (find-intern_self l.type_name i)) in
    let r2 = g.dense.of_index _ _ (g3.stable _ _ (find-intern_self l.var_name i1)) in
    let r3 = g.dense.of_index _ _ (find-intern_self l.decl_location i2) in
    (
      g,
      rw (r1, r2, r3) refl,
      (
        omega (arith, g.bounded, resolve-lt-size i3 type_name r1),
        omega (arith, g.bounded, resolve-lt-size i3 var_name r2),
        omega (arith, g.bounded, resolve-lt-size i3 decl_location r3),
      ),
    )

All-cons :
    (s : StoredRaiiLocal) (ss : List StoredRaiiLocal)
    → IsLocal s
    → All IsLocal ss
    → All IsLocal (s ∷ ss)
All-cons s ss p ps zero x at = ground arith
All-cons s ss p ps (suc i) x at = ps i x at

pub intern_locals_lem :
    (ls : List RaiiLocal) (i : Interner)
    → IsDense i
    → size i + 3 * length ls < id_limit
    → Grows (3 * length ls) i (intern_locals ls i).1
      × (resolve_locals (intern_locals ls i).1 (intern_locals ls i).0 ≡ some ls)
      × All IsLocal (intern_locals ls i).0
unfolding intern_locals resolve_locals
intern_locals_lem [] i dense room =
    (Grows-weaken 0 (omega arith) (Grows-refl i dense), refl, λ k x h. cc)
intern_locals_lem (l ∷ ls) i dense room =
    let (s, i1) = intern_local l i in
    let (ss, i2) = intern_locals ls i1 in
    let (g1, r1, p1) = intern_local_lem l i dense (omega arith) in
    let (g2, r2, p2) = intern_locals_lem ls i1 g1.dense (omega (arith, g1.bounded)) in
    let later = resolve_local-later i1 i2 (Grows-Keeps g1.dense g2) s l r1 in
    (
      Grows-weaken (3 * suc (length ls)) (omega arith) (Grows-trans g1 g2),
      rw (later, r2) refl,
      All-cons s ss p1 p2,
    )
