-- ===== src/Interner/Laws.antt =====
-- `intern`, `find` and `resolve` of the string interner.
use giga_drill_breaker.Common.{
  ℕ, ite, ℕ_discrete, ◌<◌, ◌%◌, ◌≡◌, sym, inl, inr, String, none, some, [], ◌∷◌, ◌++◌, arith,
  length, get_elem?, refl, get_elem?-concat, lt-length_of_get_elem?, Option-cases, string_eq,
}
use giga_drill_breaker.Common.Map
use giga_drill_breaker.Interner.{
  Interner, id_limit, empty, find, resolve, size, intern, intern_locked,
}

-- The index and the table say the same.
pub record IsDense (i : Interner) : Type 0 where
  pub of_index : (s : String) (id : ℕ) → find s i ≡ some id → resolve id i ≡ some s
  pub of_table : (s : String) (id : ℕ) → resolve id i ≡ some s → find s i ≡ some id

pub empty-IsDense : IsDense empty
unfolding empty find resolve Map.find
empty-IsDense = record { of_index = λ s id h. cc; of_table = λ s id h. cc }

pub resolve_lem : (i : Interner) (id : ℕ) → resolve id i ≡ get_elem? i.strings id
unfolding resolve
resolve_lem i id = refl

pub resolve-lt-size : (i : Interner) (id : ℕ) {t : String} → resolve id i ≡ some t → id < size i
unfolding resolve size
resolve-lt-size i id h = lt-length_of_get_elem? i.strings id h

module _ (s : String) (i : Interner) where
  -- A hit changes nothing; a miss appends.
  pub intern_hit : {id : ℕ} → find s i ≡ some id → intern s i ≡ (id, i)
  unfolding intern
  intern_hit h = ground arith

  pub intern_miss :
      find s i ≡ none
      → intern s i ≡ (
        length i.strings % id_limit,
        record {
          strings = i.strings ++ s ∷ [];
          index = Map.insert s (length i.strings % id_limit) i.index;
        },
      )
  unfolding intern
  intern_miss h = ground arith

  -- After `intern s` the index knows `s` by the returned id, and all else as before.
  pub find-intern :
      (t : String)
      → find t (intern s i).1 ≡ ite (string_eq.dec s t) (some (intern s i).0) (find t i)
  unfolding intern find
  find-intern t = elim (Option-cases (Map.find s i.index)) [
    | inl miss ↦ ground (arith, Map.find-insert s t (length i.strings % id_limit) i.index)
    | inr (id, hit) ↦ ground arith
  ]

  -- A miss appends `s` to the table.
  pub resolve-intern_miss :
      find s i ≡ none
      → (id : ℕ)
      → resolve id (intern s i).1 ≡ ite (ℕ_discrete id (length i.strings)) (some s) (resolve id i)
  unfolding intern resolve
  resolve-intern_miss miss id = ground (arith, get_elem?-concat i.strings s id)

  -- The id that `intern` returns resolves to the string, in a table that agrees with its index and
  -- has ids left.
  pub resolve-intern :
      IsDense i → size i < id_limit → resolve (intern s i).0 (intern s i).1 ≡ some s
  unfolding size
  resolve-intern dense room = elim (Option-cases (find s i)) [
    | inl miss ↦ ground (arith, resolve-intern_miss miss (length i.strings), intern_miss miss)
    | inr (id, hit) ↦ ground (arith, intern_hit hit, dense.of_index s id)
  ]

  -- What an id resolved to before `intern`, it resolves to after it.
  pub resolve-intern_old :
      (id : ℕ) {t : String} → resolve id i ≡ some t → resolve id (intern s i).1 ≡ some t
  unfolding size
  resolve-intern_old id h = elim (Option-cases (find s i)) [
    | inl miss ↦ ground (arith, resolve-lt-size i id h, resolve-intern_miss miss id)
    | inr (id', hit) ↦ ground (arith, intern_hit hit)
  ]

  -- `intern` keeps the index and the table in agreement, as long as ids are left.
  pub intern-IsDense : IsDense i → size i < id_limit → IsDense (intern s i).1
  unfolding size
  intern-IsDense dense room = elim (Option-cases (find s i)) [
    | inr (id, hit) ↦ rw (intern_hit hit) dense
    | inl miss ↦ record {
      of_index = λ t id h. ground (
        arith,
        find-intern t,
        intern_miss miss,
        dense.of_index t id,
        resolve-intern_miss miss id,
        λ (q : resolve id i ≡ some t). resolve-lt-size i id q,
      );
      of_table = λ t id h. ground (
        arith,
        find-intern t,
        intern_miss miss,
        dense.of_table t id,
        resolve-intern_miss miss id,
      );
    }
  ]

-- Two strings with one id are one string.
pub intern_injective :
    (i : Interner) (s t : String) (id : ℕ)
    → IsDense i
    → find s i ≡ some id
    → find t i ≡ some id
    → s ≡ t
intern_injective i s t id dense p q = ground (arith, dense.of_index s id p, dense.of_index t id q)

-- Between the probe and the unique lock other threads may intern any strings, `s` among them.
pub data Grown (i : Interner) : Interner → Type 0 where
  still : Grown i i
  other : {j : Interner} (t : String) → Grown i j → Grown i (intern t j).1

pub Grown-find :
    {i j : Interner} (s : String) {id : ℕ} → Grown i j → find s i ≡ some id → find s j ≡ some id
Grown-find s still h = h
Grown-find s {id} (other {j} t g) h = elim (string_eq.dec t s) [
  | yes e ↦ rw e (rw (intern_hit s j (Grown-find s g h)) (Grown-find s g h))
  | no ne ↦ ground (arith, find-intern t j s, Grown-find s g h)
]

-- `intern` whose probe saw `i` and whose search under the unique lock saw `j`.
pub intern_racing : String → Interner → Interner → ℕ × Interner
intern_racing s i j = elim (find s i) [ some id ↦ (id, j) | none ↦ intern_locked s j ]

intern-locked : (s : String) (j : Interner) → intern_locked s j ≡ intern s j
unfolding intern
intern-locked s j = ground arith

-- Whatever strings other threads intern between the probe under the shared lock and the search
-- under the unique one, `intern` does what it does in one step at the moment of the unique lock.
pub intern_racing-eq-intern :
    (s : String) {i j : Interner} → Grown i j → intern_racing s i j ≡ intern s j
unfolding intern_racing
intern_racing-eq-intern s {i} {j} g = elim (Option-cases (find s i)) [
  | inl miss ↦ rw (miss, intern_racing) (intern-locked s j)
  | inr (id, hit) ↦ rw (hit, intern_racing) (sym (intern_hit s j (Grown-find s g hit)))
]
