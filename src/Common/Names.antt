-- ===== src/Common/Names.antt =====
-- Sets of names as lists.
use Prim.Native.Nat.{ℕ, ◌+◌, ◌<◌, ◌≤◌}
use giga_drill_breaker.Common.Lists.{length}
use mathlib.Core.Path.{ap, ◌≡◌, refl}
use mathlib.Core.Bool.{Bool, true, false, ◌||◌}
use mathlib.Core.List.{List, [], ◌∷◌, ◌++◌}
use native.Mathlib.Omega.{arith}
use Prim.Native.String.{String}
use giga_drill_breaker.Common.Tests.{if◌then◌else◌}
use giga_drill_breaker.Common.Equality.{◌==◌, string_eq}

-- A `std::set` of names; nothing here depends on its order.
abbrev pub has_name : List String → String → Bool
has_name [] s = false
has_name (t ∷ ts) s = t == s || has_name ts s

abbrev pub insert_name : String → List String → List String
insert_name s ts = if has_name ts s then ts else ts ++ s ∷ []

abbrev pub erase_name : String → List String → List String
erase_name s [] = []
erase_name s (t ∷ ts) = if t == s then erase_name s ts else t ∷ erase_name s ts

pub has_name-append :
    (c : String) (xs ys : List String) → has_name (xs ++ ys) c ≡ (has_name xs c || has_name ys c)
has_name-append c [] ys = refl
has_name-append c (x ∷ xs) ys = ground (arith, has_name-append c xs ys)

pub has_name-insert_name :
    (c s : String) (xs : List String) → has_name (insert_name s xs) c ≡ (s == c || has_name xs c)
has_name-insert_name c s xs = ground (arith, has_name-append c xs (s ∷ []))

pub has_name-erase_name :
    (c s : String) (xs : List String)
    → has_name (erase_name s xs) c ≡ (if s == c then false else has_name xs c)
has_name-erase_name c s [] = ground arith
has_name-erase_name c s (x ∷ xs) = ground (arith, has_name-erase_name c s xs)

-- How many of the names are not in a set yet.
abbrev pub fresh : List String → List String → ℕ
fresh [] seen = 0
fresh (u ∷ us) seen = (if has_name seen u then 0 else 1) + fresh us seen

-- A set that gains one of the names has fewer left.
module _ (seen seen' : List String) (c : String)
    (grown : (x : String) → has_name seen' x ≡ (c == x || has_name seen x)) where
  fresh_grown : (us : List String) → fresh us seen' ≤ fresh us seen
  fresh_grown [] = omega arith
  fresh_grown (u ∷ us) = ground (arith, grown u, fresh_grown us)

  fresh_fewer :
      (us : List String)
      → has_name us c ≡ true
      → has_name seen c ≡ false
      → fresh us seen' < fresh us seen
  fresh_fewer [] m f = absurd (ground arith)
  fresh_fewer (u ∷ us) m f = elim (string_eq.dec u c) [
    | yes e ↦ ground (arith, f, grown u, fresh_grown us, ap (has_name seen) e)
    | no ne ↦ ground (arith, grown u, fresh_fewer us (ground (arith, m)) f)
  ]

pub fresh_less :
    (us seen seen' : List String) (c : String)
    → ((x : String) → has_name seen' x ≡ (c == x || has_name seen x))
    → has_name us c ≡ true
    → has_name seen c ≡ false
    → fresh us seen' < fresh us seen
fresh_less us seen seen' c grown m f = fresh_fewer seen seen' c grown us m f

pub fresh-le-length : (us seen : List String) → fresh us seen ≤ length us
fresh-le-length [] seen = omega arith
fresh-le-length (u ∷ us) seen = ground (arith, fresh-le-length us seen)
