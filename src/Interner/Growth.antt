-- ===== src/Interner/Growth.antt =====
-- A series of calls of `intern`, as the mutators of the call graph make.
use giga_drill_breaker.Common.{
  ℕ, ◌+◌, ◌≤◌, ◌<◌, ◌≡◌, String, some, arith, length-append, inl, inr, Option-cases, string_eq, [],
  ◌∷◌,
}
use giga_drill_breaker.Interner.{Interner, id_limit, find, size, intern}
use giga_drill_breaker.Interner.Laws.{
  IsDense, intern-IsDense, intern_hit, intern_miss, find-intern, Grown-find, still, other,
}

-- From `i` to `j` at most `n` strings came in, and every known string kept its id.
pub record Grows (n : ℕ) (i j : Interner) : Type 0 where
  pub dense : IsDense j
  pub bounded : size j ≤ size i + n
  pub stable : (s : String) (id : ℕ) → find s i ≡ some id → find s j ≡ some id

pub Grows-refl : (i : Interner) → IsDense i → Grows 0 i i
Grows-refl i dense = record { dense = dense; bounded = omega arith; stable = λ s id h. h }

pub Grows-weaken : {n : ℕ} {i j : Interner} (m : ℕ) → n ≤ m → Grows n i j → Grows m i j
Grows-weaken m h g = record {
  dense = g.dense;
  bounded = omega (arith, g.bounded);
  stable = g.stable;
}

pub Grows-trans : {n m : ℕ} {i j k : Interner} → Grows n i j → Grows m j k → Grows (n + m) i k
Grows-trans g h = record {
  dense = h.dense;
  bounded = omega (arith, g.bounded, h.bounded);
  stable = λ s id p. h.stable s id (g.stable s id p);
}

pub intern-Grows :
    (s : String) (i : Interner) → IsDense i → size i < id_limit → Grows 1 i (intern s i).1
unfolding size
intern-Grows s i dense room = record {
  dense = intern-IsDense s i dense room;
  bounded = elim (Option-cases (find s i)) [
    | inl miss ↦ ground (arith, intern_miss s i miss, length-append i.strings (s ∷ []))
    | inr (id, hit) ↦ ground (arith, intern_hit s i hit)
  ];
  stable = λ t id h. Grown-find t (other s still) h;
}

pub find-intern_self : (s : String) (i : Interner) → find s (intern s i).1 ≡ some (intern s i).0
find-intern_self s i = ground (arith, find-intern s i s)
