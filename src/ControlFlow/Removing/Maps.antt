-- ===== src/ControlFlow/Removing/Maps.antt =====
-- The index maps after `removeTUs`.
use giga_drill_breaker.Common.{
  ℕ, suc, ◌+◌, ◌≡◌, refl, ap, ite, ℕ_discrete, Bool, true, false, not, ◌&&◌, some, none, List, [],
  ◌∷◌, arith, get_elem?, keep, contains, if◌then◌else◌, Bool-cases, Option-cases, List-cases, inl,
  inr, nat_eq, String,
}
use giga_drill_breaker.Common.Map
use giga_drill_breaker.Common.Map.{Map}
use giga_drill_breaker.Interner
use giga_drill_breaker.Interner.{Interner}
use giga_drill_breaker.ControlFlow.Types.{StoredContext}
use giga_drill_breaker.ControlFlow.Removal.{
  Removal, tombstone, survivors, scrub, scrub_sites, erase_tus,
}
use giga_drill_breaker.ControlFlow.Positions.{positions, positions_same, keep-positions}
use giga_drill_breaker.ControlFlow.Indexed.{Lists, live_and}
use giga_drill_breaker.ControlFlow.Removing.Loop.{InLoop}

keep-keep : (p : ℕ → Bool) (xs : List ℕ) → keep p (keep p xs) ≡ keep p xs
keep-keep p [] = refl
keep-keep p (x ∷ xs) = ground (arith, keep-keep p xs)

pub get_list-scrub :
    (dead ks : List ℕ) (m : Map ℕ (List ℕ)) (k : ℕ)
    → Map.get_list k (scrub dead ks m)
      ≡ (if contains ks k then survivors dead (Map.get_list k m) else Map.get_list k m)
unfolding scrub survivors
get_list-scrub dead [] m k = refl
get_list-scrub dead (j ∷ ks) m k = ground (
  arith,
  get_list-scrub dead ks (Map.insert j (survivors dead (Map.get_list j m)) m) k,
  Map.get_list-insert j k (survivors dead (Map.get_list j m)) m,
  keep-keep (λ i. not (contains dead i)) (Map.get_list k m),
)

-- One site of `scrub_sites`.
abbrev scrub_site : List ℕ → ℕ → Map ℕ (List ℕ) → Map ℕ (List ℕ)
scrub_site dead j m = elim (Map.find j m) [
  | none ↦ m
  | some is ↦ elim (survivors dead is) [ [] ↦ Map.erase j m | i ∷ rest ↦ Map.insert j (i ∷ rest) m ]
]

get_list-scrub_site :
    (dead : List ℕ) (j : ℕ) (m : Map ℕ (List ℕ)) (k : ℕ)
    → Map.get_list k (scrub_site dead j m)
      ≡ ite (ℕ_discrete j k) (survivors dead (Map.get_list k m)) (Map.get_list k m)
unfolding survivors
get_list-scrub_site dead j m k = elim (Option-cases (Map.find j m)) [
  | inl miss ↦ rw (miss, scrub_site) (ground (arith, miss, Map.get_list_lem j m))
  | inr (is, hit) ↦ elim (List-cases (survivors dead is)) [
    | inl e ↦
        rw (hit, scrub_site)
          (ground (arith, hit, e, Map.get_list_lem j m, Map.get_list-erase j k m))
    | inr (i, rest, e) ↦
        rw (hit, scrub_site)
          (ground (arith, hit, e, Map.get_list_lem j m, Map.get_list-insert j k (i ∷ rest) m))
  ]
]

pub get_list-scrub_sites :
    (dead ks : List ℕ) (m : Map ℕ (List ℕ)) (k : ℕ)
    → Map.get_list k (scrub_sites dead ks m)
      ≡ (if contains ks k then survivors dead (Map.get_list k m) else Map.get_list k m)
unfolding scrub_sites survivors
get_list-scrub_sites dead [] m k = refl
get_list-scrub_sites dead (j ∷ ks) m k = ground (
  arith,
  get_list-scrub_sites dead ks (scrub_site dead j m) k,
  get_list-scrub_site dead j m k,
  keep-keep (λ i. not (contains dead i)) (Map.get_list k m),
)

-- The ids of the paths that the interner knows.
unfoldable pub tu_ids : List String → Interner → List ℕ
tu_ids [] i = []
tu_ids (tu ∷ tus) i = elim (Interner.find tu i) [
  | none ↦ tu_ids tus i
  | some id ↦ id ∷ tu_ids tus i
]

pub get_list-erase_tus :
    (tus : List String) (i : Interner) (m : Map ℕ (List ℕ)) (k : ℕ)
    → Map.get_list k (erase_tus tus i m)
      ≡ (if contains (tu_ids tus i) k then [] else Map.get_list k m)
unfolding erase_tus tu_ids
get_list-erase_tus [] i m k = refl
get_list-erase_tus (tu ∷ tus) i m k = elim (Option-cases (Interner.find tu i)) [
  | inl miss ↦ ground (arith, miss, get_list-erase_tus tus i m k)
  | inr (id, hit) ↦
      ground (arith, hit, get_list-erase_tus tus i (Map.erase id m) k, Map.get_list-erase id k m)
]

-- Tests on two vectors that agree position by position.
positions_pointwise :
    (p p' : StoredContext → Bool) (n : ℕ) (xs ys : List StoredContext)
    → ((i : ℕ) (x : StoredContext)
        → get_elem? xs i ≡ some x
        → (y : StoredContext) × (get_elem? ys i ≡ some y) × (p y ≡ p' x))
    → ((i : ℕ) → get_elem? xs i ≡ none → get_elem? ys i ≡ none)
    → positions p n ys ≡ positions p' n xs
positions_pointwise p p' n [] [] h o = refl
positions_pointwise p p' n [] (y ∷ ys) h o = absurd (ground (arith, o 0))
positions_pointwise p p' n (x ∷ xs) [] h o = let (y, a, b) = h 0 x refl in absurd (ground arith)
positions_pointwise p p' n (x ∷ xs) (y ∷ ys) h o =
    let (y', a, b) = h 0 x refl in
    ground (
      arith,
      positions_pointwise p p' (suc n) xs ys (λ i z at. h (suc i) z at) (λ i at. o (suc i) at),
    )

zero_plus : (i : ℕ) (xs : List ℕ) → contains xs (0 + i) ≡ contains xs i
zero_plus i xs = ap (contains xs) (omega arith)

module _ (orig : List StoredContext) (r : Removal) (ok : InLoop orig r)
    (doom : StoredContext → Bool)
    (killed : (j : ℕ) (x : StoredContext)
      → get_elem? orig j ≡ some x
      → contains r.dead j ≡ (x.live && doom x)) where
  -- The live contexts of a test afterwards, as positions before.
  pub after_removal :
      (test : StoredContext → Bool)
      → ((x : StoredContext) → test (tombstone x) ≡ test x)
      → positions (live_and test) 0 r.contexts
        ≡ positions (λ x. x.live && (test x && not (doom x))) 0 orig
  unfolding tombstone
  after_removal test blind =
      positions_pointwise _ _ 0 orig r.contexts
        (λ i x at. (
          if contains r.dead i then tombstone x else x,
          ok.at i x at,
          ground (arith, killed i x at, blind x),
        ))
        ok.beyond

  pub surviving :
      (test : StoredContext → Bool)
      → survivors r.dead (positions (live_and test) 0 orig)
        ≡ positions (λ x. x.live && (test x && not (doom x))) 0 orig
  unfolding survivors
  surviving test =
      keep-positions _ _ _ 0 orig (λ i x at. ground (arith, killed i x at, zero_plus i r.dead))

  pub untouched :
      (test : StoredContext → Bool)
      → ((i : ℕ) (x : StoredContext)
          → get_elem? orig i ≡ some x
          → (x.live && (test x && doom x)) ≡ false)
      → positions (live_and test) 0 orig
        ≡ positions (λ x. x.live && (test x && not (doom x))) 0 orig
  untouched test none_doomed =
      positions_same _ _ 0 orig (λ i x at. ground (arith, none_doomed i x at))

  -- A map whose affected keys were scrubbed.
  pub scrubbed :
      (test : ℕ → StoredContext → Bool) (m m' : Map ℕ (List ℕ)) (ks : List ℕ)
      → ((k : ℕ) (x : StoredContext) → test k (tombstone x) ≡ test k x)
      → ((i k : ℕ) (x : StoredContext)
          → get_elem? orig i ≡ some x
          → contains r.dead i ≡ true
          → test k x ≡ true
          → contains ks k ≡ true)
      → ((k : ℕ)
          → Map.get_list k m'
            ≡ (if contains ks k then survivors r.dead (Map.get_list k m) else Map.get_list k m))
      → Lists test m orig
      → Lists test m' r.contexts
  scrubbed test m m' ks blind covered new lists k = elim (Bool-cases (contains ks k)) [
    | inl affected ↦ ground (
      arith,
      affected,
      new k,
      ap (survivors r.dead) (lists k),
      surviving (test k),
      after_removal (test k) (blind k),
    )
    | inr spared ↦ ground (
      arith,
      spared,
      new k,
      lists k,
      untouched (test k) (λ i x at. ground (arith, spared, covered i k x at, killed i x at)),
      after_removal (test k) (blind k),
    )
  ]
