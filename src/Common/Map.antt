-- ===== src/Common/Map.antt =====
-- `std::unordered_map` as an association list; its order stands for the order of iteration, which
-- the standard leaves open. `operator[]` on a missing key makes an entry with an empty vector.
use mathlib.Core.Path.{◌≡◌, refl}
use mathlib.Core.Logic.{ite}
use mathlib.Core.Option.{Option, none, some}
use mathlib.Core.List.{List, [], ◌∷◌, ◌++◌}
use native.Mathlib.Omega.{arith}
use giga_drill_breaker.Common.Equality.{Eq}

abbrev pub Map {ℓ} : Type ℓ → Type ℓ → Type ℓ
Map K V = List (K × V)

module _ {ℓ} {K V : Type ℓ} ⦃e : Eq K⦄ where
  -- `m.find(k)`
  unfoldable pub find : K → Map K V → Option V
  find k [] = none
  find k ((j, v) ∷ m) = ite (e.dec j k) (some v) (find k m)

  -- `m[k] = v`, and `m.emplace(k, v)` where `k` is missing.
  unfoldable pub insert : K → V → Map K V → Map K V
  insert k v [] = (k, v) ∷ []
  insert k v ((j, w) ∷ m) = ite (e.dec j k) ((j, v) ∷ m) ((j, w) ∷ insert k v m)

  -- `m.erase(k)`
  unfoldable pub erase : K → Map K V → Map K V
  erase k [] = []
  erase k ((j, w) ∷ m) = ite (e.dec j k) (erase k m) ((j, w) ∷ erase k m)

  pub find-insert :
      (k j : K) (v : V) (m : Map K V) → find j (insert k v m) ≡ ite (e.dec k j) (some v) (find j m)
  unfolding find insert
  find-insert k j v [] = refl
  find-insert k j v ((i, w) ∷ m) = ground (arith, find-insert k j v m)

  pub find-erase : (k j : K) (m : Map K V) → find j (erase k m) ≡ ite (e.dec k j) none (find j m)
  unfolding find erase
  find-erase k j [] = ground arith
  find-erase k j ((i, w) ∷ m) = ground (arith, find-erase k j m)

module _ {ℓ} {K V : Type ℓ} ⦃e : Eq K⦄ where
  -- The vector stored under a key, empty if there is none.
  unfoldable pub get_list : K → Map K (List V) → List V
  get_list k m = elim (find k m) [ none ↦ [] | some xs ↦ xs ]

  -- `m[k].push_back(v)`
  unfoldable pub push : K → V → Map K (List V) → Map K (List V)
  push k v m = insert k (get_list k m ++ v ∷ []) m

  pub get_list_lem :
      (k : K) (m : Map K (List V)) → get_list k m ≡ (elim (find k m) [ none ↦ [] | some xs ↦ xs ])
  unfolding get_list
  get_list_lem k m = refl

  pub get_list-insert :
      (k j : K) (xs : List V) (m : Map K (List V))
      → get_list j (insert k xs m) ≡ ite (e.dec k j) xs (get_list j m)
  unfolding get_list
  get_list-insert k j xs m = ground (arith, find-insert k j xs m)

  pub get_list-erase :
      (k j : K) (m : Map K (List V)) → get_list j (erase k m) ≡ ite (e.dec k j) [] (get_list j m)
  unfolding get_list
  get_list-erase k j m = ground (arith, find-erase k j m)

  pub get_list-push :
      (k j : K) (v : V) (m : Map K (List V))
      → get_list j (push k v m) ≡ ite (e.dec k j) (get_list k m ++ v ∷ []) (get_list j m)
  unfolding push
  get_list-push k j v m = get_list-insert k j _ m
