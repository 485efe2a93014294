-- ===== src/ControlFlow/Sets/Laws.antt =====
-- A set that went into a table is read back under its number, as long as the keys tell sets apart.
use giga_drill_breaker.Common.{
  ℕ, zero, suc, ◌+◌, ◌%◌, ◌==◌, nat_eq, ℕ_discrete, subst, ap, ◌<◌, ◌≤◌, ◌≡◌, refl, ◌∙◌, ◌≢◌, inl,
  inr, List, [], ◌∷◌, ◌++◌, some, arith, length, get_elem?, get_elem?-concat, length-append,
  lt-length_of_get_elem?, Option-cases,
}
use giga_drill_breaker.Common.Map
use giga_drill_breaker.Contexts.{Bytes}
use giga_drill_breaker.ControlFlow.Types.{is_empty}
use giga_drill_breaker.ControlFlow.Sets.{SetTable, set_limit, seeded, intern_set, bytes_eq}

-- The table and its keys say the same; only entry 0 is empty.
pub record IsSetTable {A : Type 0} (key : List A → Bytes) (Fits : List A → Type 0) (t : SetTable A)
    : Type 0 where
  pub first : get_elem? t.sets 0 ≡ some []
  pub filled : (id : ℕ) (xs : List A) → get_elem? t.sets (suc id) ≡ some xs → xs ≢ []
  pub fits : (id : ℕ) (xs : List A) → get_elem? t.sets id ≡ some xs → Fits xs
  pub known :
      (k : Bytes) (id : ℕ)
      → Map.find k t.ids ≡ some id
      → (xs : List A) × (get_elem? t.sets id ≡ some xs) × (key xs ≡ k)

-- What a table holds, it holds under the same number later.
pub record SetGrows {A : Type 0} (n : ℕ) (t t' : SetTable A) : Type 0 where
  pub bounded : length t'.sets ≤ length t.sets + n
  pub stable :
      (id : ℕ) (xs : List A) → get_elem? t.sets id ≡ some xs → get_elem? t'.sets id ≡ some xs

pub SetGrows-refl : {A : Type 0} (t : SetTable A) → SetGrows 0 t t
SetGrows-refl t = record { bounded = omega arith; stable = λ id xs h. h }

pub SetGrows-trans :
    {A : Type 0} {n m : ℕ} {t u v : SetTable A}
    → SetGrows n t u
    → SetGrows m u v
    → SetGrows (n + m) t v
SetGrows-trans g h = record {
  bounded = omega (arith, g.bounded, h.bounded);
  stable = λ id xs p. h.stable id xs (g.stable id xs p);
}

pub seeded-IsSetTable :
    {A : Type 0} (key : List A → Bytes) (Fits : List A → Type 0)
    → Fits []
    → IsSetTable key Fits (seeded {A = A})
unfolding seeded Map.find
seeded-IsSetTable {A} key Fits nil = record {
  first = refl;
  filled = λ id xs h. cc;
  fits = one;
  known = λ k id h. absurd (ground arith);
}
  where
    one : (id : ℕ) (xs : List A) → get_elem? ([] ∷ []) id ≡ some xs → Fits xs
    one zero xs h = subst Fits (ground arith) nil
    one (suc id) xs h = absurd (ground arith)

module _ {A : Type 0} (key : List A → Bytes) (Fits : List A → Type 0)
    (injective : (xs ys : List A) → Fits xs → Fits ys → key xs ≡ key ys → xs ≡ ys) (t : SetTable A)
    (ok : IsSetTable key Fits t) where
  -- The table that a miss leaves.
  appended-IsSetTable :
      (x : A) (xs : List A)
      → Fits (x ∷ xs)
      → length t.sets < set_limit
      → IsSetTable key Fits (record {
        sets = t.sets ++ (x ∷ xs) ∷ [];
        ids = Map.insert (key (x ∷ xs)) (length t.sets % set_limit) t.ids;
      })
  appended-IsSetTable x xs fit room = record {
    first = ground (
      arith,
      ok.first,
      get_elem?-concat t.sets (x ∷ xs) 0,
      lt-length_of_get_elem? t.sets 0 ok.first,
    );
    filled = λ id ys h. ground (arith, get_elem?-concat t.sets (x ∷ xs) (suc id), ok.filled id ys);
    fits = λ id ys h. elim (ℕ_discrete id (length t.sets)) [
      | yes e ↦ subst Fits (ground (arith, get_elem?-concat t.sets (x ∷ xs) id)) fit
      | no ne ↦ ok.fits id ys (ground (arith, get_elem?-concat t.sets (x ∷ xs) id))
    ];
    known = λ k id h. elim (bytes_eq.dec (key (x ∷ xs)) k) [
      | yes e ↦ (
        x ∷ xs,
        ground (
          arith,
          Map.find-insert (key (x ∷ xs)) k (length t.sets % set_limit) t.ids,
          get_elem?-concat t.sets (x ∷ xs) id,
        ),
        e,
      )
      | no ne ↦
          let (ys, p, q) =
            ok.known k id (
              ground (arith, Map.find-insert (key (x ∷ xs)) k (length t.sets % set_limit) t.ids)) in
          (
            ys,
            ground (arith, lt-length_of_get_elem? t.sets id p, get_elem?-concat t.sets (x ∷ xs) id),
            q,
          )
    ];
  }

  appended-SetGrows :
      (xs : List A) (m : Map.Map Bytes ℕ)
      → SetGrows 1 t (record { sets = t.sets ++ xs ∷ []; ids = m })
  appended-SetGrows xs m = record {
    bounded = omega (arith, length-append {0} t.sets (xs ∷ []));
    stable = λ id ys h.
        ground (arith, get_elem?-concat t.sets xs id, lt-length_of_get_elem? t.sets id h);
  }

  -- What `intern_set` promises: the set stands under the number that it returns.
  pub record Interned (xs : List A) (r : ℕ × SetTable A) : Type 0 where
    pub valid : IsSetTable key Fits r.1
    pub grows : SetGrows 1 t r.1
    pub stored : get_elem? r.1.sets r.0 ≡ some xs

  pub intern_set-Interned :
      (xs : List A) → Fits xs → length t.sets < set_limit → Interned xs (intern_set (key xs) xs t)
  unfolding intern_set
  intern_set-Interned [] fit room = record {
    valid = ok;
    grows = record { bounded = omega arith; stable = λ id ys h. h };
    stored = ok.first;
  }
  intern_set-Interned (x ∷ xs) fit room = elim (Option-cases (Map.find (key (x ∷ xs)) t.ids)) [
    | inl miss ↦
        rw (miss, intern_set)
          (record {
            valid = appended-IsSetTable x xs fit room;
            grows = appended-SetGrows (x ∷ xs) _;
            stored = ground (arith, get_elem?-concat t.sets (x ∷ xs) (length t.sets));
          })
    | inr (id, hit) ↦
        let (ys, p, q) = ok.known (key (x ∷ xs)) id hit in
        let same = injective ys (x ∷ xs) (ok.fits id ys p) fit q in
        rw (hit, intern_set)
          (record {
            valid = ok;
            grows = record { bounded = omega arith; stable = λ i zs h. h };
            stored = p ∙ ap some same;
          })
  ]

-- A set's number is 0 exactly when the set is empty.
pub set_zero_iff :
    {A : Type 0} {key : List A → Bytes} {Fits : List A → Type 0} (t : SetTable A)
    → IsSetTable key Fits t
    → (id : ℕ) (xs : List A) → get_elem? t.sets id ≡ some xs
    → (id == 0) ≡ is_empty xs
unfolding is_empty
set_zero_iff t ok zero xs h = ground (arith, ok.first)
set_zero_iff t ok (suc id) [] h = absurd (ok.filled id [] h refl)
set_zero_iff t ok (suc id) (x ∷ xs) h = ground arith
