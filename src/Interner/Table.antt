-- ===== src/Interner/Table.antt =====
-- Tables that are indexed as a whole: `installStrings` and the move constructor.
use giga_drill_breaker.Common.{
  ℕ, zero, suc, ◌+◌, ◌≤◌, ◌≡◌, refl, sym, ◌∙◌, ◌≢◌, ite, String, true, false, Option, none, some,
  inl, inr, Option-cases, List, [], ◌∷◌, arith, length, get_elem?, string_eq,
}
use giga_drill_breaker.Common.Map
use giga_drill_breaker.Interner.{
  Interner, id_limit, find, resolve, size, index_from, emplace, rebuild_index, moved,
  install_strings,
}
use giga_drill_breaker.Interner.Laws.{IsDense}

-- No string stands at two positions.
abbrev pub IsDistinct : List String → Type 0
IsDistinct xs = (s : String) (a b : ℕ) → get_elem? xs a ≡ some s → get_elem? xs b ≡ some s → a ≡ b

-- The position of the first occurrence, counted from `n`.
first_index : ℕ → String → List String → Option ℕ
first_index n s [] = none
first_index n s (t ∷ xs) = ite (string_eq.dec t s) (some n) (first_index (suc n) s xs)

abbrev or_else : Option ℕ → Option ℕ → Option ℕ
or_else (some a) o = some a
or_else none o = o

find-index_from :
    (n : ℕ) (xs : List String) (m : Map.Map String ℕ) (s : String)
    → n + length xs ≤ id_limit
    → Map.find s (index_from n xs m) ≡ or_else (Map.find s m) (first_index n s xs)
unfolding index_from emplace first_index
find-index_from n [] m s h = ground arith
find-index_from n (t ∷ xs) m s h =
    ground (arith, find-index_from (suc n) xs (emplace t n m) s, Map.find-insert t s n m)

first_index_sound :
    (n : ℕ) (s : String) (xs : List String) (id : ℕ)
    → first_index n s xs ≡ some id
    → (k : ℕ) × (id ≡ n + k) × (get_elem? xs k ≡ some s)
unfolding first_index
first_index_sound n s [] id h = cc
first_index_sound n s (t ∷ xs) id h = elim (string_eq.dec t s) [
  | yes e ↦ (0, ground arith, ground arith)
  | no ne ↦
      let (k, p, q) = first_index_sound (suc n) s xs id (ground arith) in (suc k, omega arith, q)
]

first_index_complete :
    (n : ℕ) (s : String) (xs : List String) (k : ℕ)
    → get_elem? xs k ≡ some s
    → (id : ℕ) × (first_index n s xs ≡ some id)
unfolding first_index
first_index_complete n s [] k h = cc
first_index_complete n s (t ∷ xs) zero h = (n, ground arith)
first_index_complete n s (t ∷ xs) (suc k) h = elim (string_eq.dec t s) [
  | yes e ↦ (n, ground arith)
  | no ne ↦ let (id, p) = first_index_complete (suc n) s xs k h in (id, ground arith)
]

find-rebuild :
    (xs : List String) (s : String)
    → length xs ≤ id_limit
    → Map.find s (rebuild_index xs) ≡ first_index 0 s xs
unfolding rebuild_index Map.find
find-rebuild xs s h = find-index_from 0 xs [] s (omega arith)

rebuild-IsDense :
    (xs : List String)
    → length xs ≤ id_limit
    → IsDistinct xs
    → IsDense (record { strings = xs; index = rebuild_index xs })
unfolding find resolve
rebuild-IsDense xs h d = record {
  of_index = λ s id e.
      let (k, p, q) = first_index_sound 0 s xs id (sym (find-rebuild xs s h) ∙ e) in
      let same : id ≡ k = omega arith in rw same q;
  of_table = λ s id e.
      let (id', p) = first_index_complete 0 s xs id e in
      let (k, p', q) = first_index_sound 0 s xs id' p in
      let same : id' ≡ id = omega (arith, d s k id q e) in find-rebuild xs s h ∙ rw same at p;
}

pub install_strings_used :
    (xs : List String) (i : Interner) → i.strings ≢ [] → install_strings xs i ≡ (false, i)
unfolding install_strings
install_strings_used xs i used = ground arith

-- On an empty interner `installStrings` accepts a table without repetitions that fits the ids; the
-- index then agrees with it, and every id resolves to the string at its position.
pub install_strings-IsDense :
    (xs : List String) (i : Interner)
    → length xs ≤ id_limit
    → IsDistinct xs
    → i.strings ≡ []
    → ((install_strings xs i).0 ≡ true)
      × IsDense (install_strings xs i).1
      × ((id : ℕ) → resolve id (install_strings xs i).1 ≡ get_elem? xs id)
unfolding install_strings resolve
install_strings-IsDense xs i h d fresh = (
  rw (fresh, install_strings),
  rw (fresh, install_strings) (rebuild-IsDense xs h d),
  λ id. rw (fresh, install_strings),
)

IsDense-IsDistinct : (i : Interner) → IsDense i → IsDistinct i.strings
unfolding resolve
IsDense-IsDistinct i dense s a b p q = ground (arith, dense.of_table s a p, dense.of_table s b q)

-- The table decides what `find` says.
find_of_table :
    (i j : Interner) (s : String)
    → IsDense i
    → IsDense j
    → ((id : ℕ) → resolve id i ≡ resolve id j)
    → find s i ≡ find s j
find_of_table i j s di dj same = elim (Option-cases (find s i)) [
  | inr (id, hit) ↦ ground (arith, dj.of_table s id, di.of_index s id, same id)
  | inl miss ↦ elim (Option-cases (find s j)) [
    | inl miss' ↦ cc
    | inr (id, hit) ↦ ground (arith, di.of_table s id, dj.of_index s id, same id)
  ]
]

-- The move constructor, which rebuilds the index, keeps every id and every string of an interner
-- that agrees with its index and fits the ids.
pub moved_keeps :
    (i : Interner) (s : String) (id : ℕ)
    → IsDense i
    → size i ≤ id_limit
    → IsDense (moved i) × (find s (moved i) ≡ find s i) × (resolve id (moved i) ≡ resolve id i)
unfolding moved size resolve
moved_keeps i s id dense h = (kept, find_of_table (moved i) i s kept dense (λ _. refl), refl)
  where
    kept : IsDense (moved i)
    kept = rebuild-IsDense i.strings h (IsDense-IsDistinct i dense)
