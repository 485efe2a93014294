-- ===== src/ControlFlow/Positions.antt =====
-- Where in a vector of contexts a test holds: what an index map is to list under a key.
use giga_drill_breaker.Common.{
  ℕ, zero, suc, ◌+◌, ◌<◌, ◌≡◌, refl, Bool, true, false, ◌&&◌, some, List, [], ◌∷◌, ◌++◌, map, arith,
  length, get_elem?, modify, keep, contains, if◌then◌else◌,
}
use giga_drill_breaker.ControlFlow.Types.{StoredContext}
use giga_drill_breaker.ControlFlow.Removal.{tombstone}

-- The positions, counted from `n`, of the contexts that pass a test.
abbrev pub positions : (StoredContext → Bool) → ℕ → List StoredContext → List ℕ
positions p n [] = []
positions p n (x ∷ xs) = let rest = positions p (suc n) xs in if p x then n ∷ rest else rest

pub positions-append :
    (p : StoredContext → Bool) (n : ℕ) (xs : List StoredContext) (x : StoredContext)
    → positions p n (xs ++ x ∷ [])
      ≡ (if p x then positions p n xs ++ (n + length xs) ∷ [] else positions p n xs)
positions-append p n [] x = ground arith
positions-append p n (y ∷ xs) x = ground (arith, positions-append p (suc n) xs x)

-- A test on positions and one on contexts, joined.
pub keep-positions :
    (q : ℕ → Bool) (p p' : StoredContext → Bool) (n : ℕ) (xs : List StoredContext)
    → ((i : ℕ) (se : StoredContext) → get_elem? xs i ≡ some se → p' se ≡ (p se && q (n + i)))
    → keep q (positions p n xs) ≡ positions p' n xs
keep-positions q p p' n [] h = refl
keep-positions q p p' n (x ∷ xs) h = ground (
  arith,
  h 0 x refl,
  keep-positions q p p' (suc n) xs (λ i se at. ground (arith, h (suc i) se at)),
)

-- Tests that agree on the contexts of the vector have the same positions.
pub positions_same :
    (p p' : StoredContext → Bool) (n : ℕ) (xs : List StoredContext)
    → ((i : ℕ) (se : StoredContext) → get_elem? xs i ≡ some se → p se ≡ p' se)
    → positions p n xs ≡ positions p' n xs
positions_same p p' n [] h = refl
positions_same p p' n (x ∷ xs) h =
    ground (arith, h 0 x refl, positions_same p p' (suc n) xs (λ i se at. h (suc i) se at))

pub positions-map :
    (p : StoredContext → Bool) (f : StoredContext → StoredContext) (n : ℕ) (xs : List StoredContext)
    → positions p n (map f xs) ≡ positions (λ x. p (f x)) n xs
positions-map p f n [] = refl
positions-map p f n (x ∷ xs) = ground (arith, positions-map p f (suc n) xs)

contains-positions_early :
    (p : StoredContext → Bool) (m n : ℕ) (xs : List StoredContext)
    → m < n
    → contains (positions p n xs) m ≡ false
contains-positions_early p m n [] h = refl
contains-positions_early p m n (x ∷ xs) h =
    ground (arith, contains-positions_early p m (suc n) xs (omega arith))

pub contains-positions :
    (p : StoredContext → Bool) (n i : ℕ) (xs : List StoredContext) {se : StoredContext}
    → get_elem? xs i ≡ some se
    → contains (positions p n xs) (n + i) ≡ p se
contains-positions p n i [] h = absurd (ground arith)
contains-positions p n zero (x ∷ xs) h =
    ground (arith, contains-positions_early p n (suc n) xs (omega arith))
contains-positions p n (suc i) (x ∷ xs) {se} h =
    ground (arith, contains-positions p (suc n) i xs {se = se} (ground arith))

-- One live context fewer.
pub positions-tombstone :
    (i n : ℕ) (xs : List StoredContext) {se : StoredContext}
    → get_elem? xs i ≡ some se
    → se.live ≡ true
    → suc (length (positions (λ x. x.live) n (modify i tombstone xs)))
      ≡ length (positions (λ x. x.live) n xs)
unfolding tombstone
positions-tombstone i n [] h l = absurd (ground arith)
positions-tombstone zero n (x ∷ xs) h l = ground arith
positions-tombstone (suc i) n (x ∷ xs) h l = ground (arith, positions-tombstone i (suc n) xs h l)

pub no_positions :
    (p : StoredContext → Bool) (n : ℕ) (xs : List StoredContext)
    → ((i : ℕ) (se : StoredContext) → get_elem? xs i ≡ some se → p se ≡ false)
    → positions p n xs ≡ []
no_positions p n [] h = refl
no_positions p n (x ∷ xs) h =
    ground (arith, h 0 x refl, no_positions p (suc n) xs (λ i se at. h (suc i) se at))
