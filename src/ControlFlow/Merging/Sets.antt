-- ===== src/ControlFlow/Merging/Sets.antt =====
-- The set tables of a shard, moved into those of the master.
use giga_drill_breaker.Common.{
  ℕ, zero, suc, ◌+◌, ◌≤◌, ◌≡◌, refl, sym, ap, ◌∙◌, some, List, [], ◌∷◌, arith, length, get_elem?,
}
use giga_drill_breaker.Contexts.{Bytes}
use giga_drill_breaker.Graph.Absorb.{remapped}
use giga_drill_breaker.ControlFlow.Sets.{SetTable, set_limit, intern_set}
use giga_drill_breaker.ControlFlow.Sets.Laws.{
  IsSetTable, SetGrows, SetGrows-refl, intern_set-Interned,
}
use giga_drill_breaker.ControlFlow.Absorb.{remap_sets, remap_table}

module _ {A : Type 0} (key : List A → Bytes) (Fits : List A → Type 0)
    (injective : (xs ys : List A) → Fits xs → Fits ys → key xs ≡ key ys → xs ≡ ys)
    (f : List A → List A) where
  -- A set is moved by `f` and stored under its key.
  abbrev pub move : List A → SetTable A → ℕ × SetTable A
  move xs t = intern_set (key (f xs)) (f xs) t

  -- Every set of the list stands, moved, under the number that the remap gives.
  pub record Moved (xss : List (List A)) (t : SetTable A) (r : List ℕ × SetTable A) : Type 0 where
    pub valid : IsSetTable key Fits r.1
    pub grows : SetGrows (length xss) t r.1
    pub at :
        (k : ℕ) (xs : List A)
        → get_elem? xss k ≡ some xs
        → get_elem? r.1.sets (remapped r.0 k) ≡ some (f xs)

  -- One more set in front.
  at_cons :
      (xs : List A) (xss : List (List A)) (id : ℕ) (ids : List ℕ) (t : SetTable A)
      → get_elem? t.sets id ≡ some (f xs)
      → ((k : ℕ) (ys : List A)
          → get_elem? xss k ≡ some ys
          → get_elem? t.sets (remapped ids k) ≡ some (f ys))
      → (k : ℕ) (ys : List A) → get_elem? (xs ∷ xss) k ≡ some ys
      → get_elem? t.sets (remapped (id ∷ ids) k) ≡ some (f ys)
  unfolding remapped
  at_cons xs xss id ids t first rest zero ys h = ground arith
  at_cons xs xss id ids t first rest (suc k) ys h = rest k ys h

  remap_sets-Moved :
      (xss : List (List A)) (t : SetTable A)
      → IsSetTable key Fits t
      → ((k : ℕ) (xs : List A) → get_elem? xss k ≡ some xs → Fits (f xs))
      → length t.sets + length xss ≤ set_limit
      → Moved xss t (remap_sets move xss t)
  unfolding remap_sets remapped
  remap_sets-Moved [] t ok fit room = record {
    valid = ok;
    grows = SetGrows-refl t;
    at = λ k xs h. absurd (ground arith);
  }
  remap_sets-Moved (xs ∷ xss) t ok fit room =
      let (id, t1) = move xs t in
      let one = intern_set-Interned key Fits injective t ok (f xs) (fit 0 xs refl) (omega arith) in
      let rest =
        remap_sets-Moved xss t1 one.valid (λ k ys h. fit (suc k) ys h)
          (omega (arith, one.grows.bounded)) in
      record {
        valid = rest.valid;
        grows = record {
          bounded = omega (arith, one.grows.bounded, rest.grows.bounded);
          stable = λ k ys h. rest.grows.stable k ys (one.grows.stable k ys h);
        };
        at =
            at_cons xs xss id (remap_sets move xss t1).0 (remap_sets move xss t1).1
              (rest.grows.stable id (f xs) one.stored) rest.at;
      }

  pub remap_table-Moved :
      (xss : List (List A)) (t : SetTable A)
      → f [] ≡ []
      → IsSetTable key Fits t
      → get_elem? xss 0 ≡ some []
      → ((k : ℕ) (xs : List A) → get_elem? xss k ≡ some xs → Fits (f xs))
      → length t.sets + length xss ≤ set_limit
      → Moved xss t (remap_table move xss t)
  unfolding remap_table
  remap_table-Moved [] t nil ok head fit room = absurd (ground arith)
  remap_table-Moved (ys ∷ xss) t nil ok head fit room =
      let rest = remap_sets-Moved xss t ok (λ k xs h. fit (suc k) xs h) (omega arith) in
      let empty : f ys ≡ [] = ground (arith, nil) in
      record {
        valid = rest.valid;
        grows = record { bounded = omega (arith, rest.grows.bounded); stable = rest.grows.stable };
        at =
            at_cons ys xss 0 (remap_sets move xss t).0 (remap_sets move xss t).1
              (rest.valid.first ∙ ap some (sym empty)) rest.at;
      }
