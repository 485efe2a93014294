-- ===== src/Common/Lists.antt =====
-- Vectors of the source as lists under native indices, and how often a value occurs in one.
use Prim.Native.Nat.{ℕ, zero, suc, ◌+◌, ◌<◌}
use mathlib.Core.Path.{◌≡◌, refl, ap}
use mathlib.Core.Logic.{ite, ◌⊎◌, inl, inr}
use mathlib.Core.Bool.{Bool, true, false}
use mathlib.Core.Option.{Option, none, some}
use mathlib.Core.Option
use mathlib.Core.List.{List, [], ◌∷◌, ◌++◌}
use native.Mathlib.Omega.{arith}
use native.Mathlib.Decide.{ℕ_discrete}
use giga_drill_breaker.Common.Tests.{if◌then◌else◌, ltb}

module _ {ℓ} {A : Type ℓ} where
  abbrev pub length : List A → ℕ
  length [] = 0
  length (x ∷ xs) = suc (length xs)

  abbrev pub get_elem? : List A → ℕ → Option A
  get_elem? [] i = none
  get_elem? (x ∷ xs) zero = some x
  get_elem? (x ∷ xs) (suc i) = get_elem? xs i

  -- `v[i] = f(v[i])`; out of bounds nothing is written.
  abbrev pub modify : ℕ → (A → A) → List A → List A
  modify i f [] = []
  modify zero f (x ∷ xs) = f x ∷ xs
  modify (suc i) f (x ∷ xs) = x ∷ modify i f xs

  -- The erase-remove idiom: the elements that pass the test, in order.
  abbrev pub keep : (A → Bool) → List A → List A
  keep p [] = []
  keep p (x ∷ xs) = if p x then x ∷ keep p xs else keep p xs

  pub length-append : (xs ys : List A) → length (xs ++ ys) ≡ length xs + length ys
  length-append [] ys = omega arith
  length-append (x ∷ xs) ys = omega (arith, length-append xs ys)

  pub length-modify : (i : ℕ) (f : A → A) (xs : List A) → length (modify i f xs) ≡ length xs
  length-modify i f [] = refl
  length-modify zero f (x ∷ xs) = refl
  length-modify (suc i) f (x ∷ xs) = ap suc (length-modify i f xs)

  pub get_elem?-modify :
      (i j : ℕ) (f : A → A) (xs : List A)
      → get_elem? (modify i f xs) j
        ≡ ite (ℕ_discrete i j) (Option.map f (get_elem? xs j)) (get_elem? xs j)
  get_elem?-modify i j f [] = ground arith
  get_elem?-modify zero zero f (x ∷ xs) = ground arith
  get_elem?-modify zero (suc j) f (x ∷ xs) = ground arith
  get_elem?-modify (suc i) zero f (x ∷ xs) = ground arith
  get_elem?-modify (suc i) (suc j) f (x ∷ xs) = ground (arith, get_elem?-modify i j f xs)

  pub get_elem?-concat :
      (xs : List A) (x : A) (j : ℕ)
      → get_elem? (xs ++ x ∷ []) j ≡ ite (ℕ_discrete j (length xs)) (some x) (get_elem? xs j)
  get_elem?-concat [] x zero = ground arith
  get_elem?-concat [] x (suc j) = ground arith
  get_elem?-concat (y ∷ xs) x zero = ground arith
  get_elem?-concat (y ∷ xs) x (suc j) = ground (arith, get_elem?-concat xs x j)

  pub lt-length_of_get_elem? :
      (xs : List A) (i : ℕ) {x : A} → get_elem? xs i ≡ some x → i < length xs
  lt-length_of_get_elem? [] i h = cc
  lt-length_of_get_elem? (y ∷ xs) zero h = omega arith
  lt-length_of_get_elem? (y ∷ xs) (suc i) h = omega (arith, lt-length_of_get_elem? xs i h)

  pub get_elem?_at_length : (xs : List A) → get_elem? xs (length xs) ≡ none
  get_elem?_at_length [] = refl
  get_elem?_at_length (y ∷ xs) = get_elem?_at_length xs

  pub List-cases : (xs : List A) → (xs ≡ []) ⊎ ((x : A) × (rest : List A) × (xs ≡ x ∷ rest))
  List-cases [] = inl refl
  List-cases (x ∷ xs) = inr (x, xs, refl)

-- How often a number stands in a list.
abbrev pub count : ℕ → List ℕ → ℕ
count i [] = 0
count i (x ∷ xs) = ite (ℕ_discrete x i) 1 0 + count i xs

-- `std::find(...) != end()`, and `set.count(i)`.
abbrev pub contains : List ℕ → ℕ → Bool
contains [] i = false
contains (x ∷ xs) i = ite (ℕ_discrete x i) true (contains xs i)

-- `set.insert(i)`; the model keeps the order of arrival.
abbrev pub insert_new : ℕ → List ℕ → List ℕ
insert_new i xs = if contains xs i then xs else xs ++ i ∷ []

pub count-append : (i : ℕ) (xs ys : List ℕ) → count i (xs ++ ys) ≡ count i xs + count i ys
count-append i [] ys = omega arith
count-append i (x ∷ xs) ys = omega (arith, count-append i xs ys)

pub contains-append :
    (i : ℕ) (xs ys : List ℕ)
    → contains (xs ++ ys) i ≡ (if contains xs i then true else contains ys i)
contains-append i [] ys = refl
contains-append i (x ∷ xs) ys = ground (arith, contains-append i xs ys)

pub contains-insert_new :
    (i j : ℕ) (xs : List ℕ)
    → contains (insert_new i xs) j ≡ ite (ℕ_discrete i j) true (contains xs j)
contains-insert_new i j xs = ground (arith, contains-append j xs (i ∷ []))

pub count-keep :
    (i : ℕ) (p : ℕ → Bool) (xs : List ℕ) → count i (keep p xs) ≡ (if p i then count i xs else 0)
count-keep i p [] = ground arith
count-keep i p (x ∷ xs) = elim (ℕ_discrete x i) [
  | yes e ↦ ground (arith, count-keep i p xs, ap p e)
  | no ne ↦ ground (arith, count-keep i p xs)
]

pub contains-keep :
    (i : ℕ) (p : ℕ → Bool) (xs : List ℕ)
    → contains (keep p xs) i ≡ (if p i then contains xs i else false)
contains-keep i p [] = ground arith
contains-keep i p (x ∷ xs) = elim (ℕ_discrete x i) [
  | yes e ↦ ground (arith, contains-keep i p xs, ap p e)
  | no ne ↦ ground (arith, contains-keep i p xs)
]

pub contains_iff_count : (i : ℕ) (xs : List ℕ) → ltb 0 (count i xs) ≡ contains xs i
contains_iff_count i [] = ground arith
contains_iff_count i (x ∷ xs) = ground (arith, contains_iff_count i xs)

-- `std::set::insert`: the elements ascend.
abbrev pub set_insert : ℕ → List ℕ → List ℕ
set_insert i [] = i ∷ []
set_insert i (x ∷ xs) =
    ite (ℕ_discrete x i) (x ∷ xs) (if ltb i x then i ∷ x ∷ xs else x ∷ set_insert i xs)

pub contains-set_insert :
    (i j : ℕ) (xs : List ℕ)
    → contains (set_insert i xs) j ≡ ite (ℕ_discrete i j) true (contains xs j)
contains-set_insert i j [] = refl
contains-set_insert i j (x ∷ xs) = ground (arith, contains-set_insert i j xs)
