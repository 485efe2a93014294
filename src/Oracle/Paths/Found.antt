-- ===== src/Oracle/Paths/Found.antt =====
-- What the path search finds.
use giga_drill_breaker.Common.{
  ℕ, zero, suc, ◌<◌, ◌≤◌, ◌≡◌, refl, sym, ap, ◌∙◌, ◌⊎◌, inl, inr, ◌↔◌, String, true, false, not,
  List, [], ◌∷◌, ◌++◌, arith, length, length-append, ltb, if_true, if_false, subst, has_name, fresh,
  fresh_less, fresh-le-length, Bool-cases, if_both, string_eq,
}
use giga_drill_breaker.Oracle.Paths.{try_callers, search, find_paths_to_target}

pub data In {A : Type 0} (x : A) : List A → Type 0 where
  here : {xs : List A} → In x (x ∷ xs)
  there : {y : A} {xs : List A} → In x xs → In x (y ∷ xs)

pub In-left : {A : Type 0} {x : A} {xs : List A} (ys : List A) → In x xs → In x (xs ++ ys)
In-left ys here = here
In-left ys (there i) = there (In-left ys i)

pub In-last : {A : Type 0} (x : A) (xs : List A) → In x (xs ++ x ∷ [])
In-last x [] = here
In-last x (y ∷ xs) = there (In-last x xs)

pub In-nil : {A : Type 0} {x : A} → In x [] → ⊥
In-nil i = elim i [ ]

pub In-cons : {A : Type 0} {x y : A} {ys : List A} → In x (y ∷ ys) → (x ≡ y) ⊎ In x ys
In-cons here = inl refl
In-cons (there i) = inr i

pub In-split : {A : Type 0} {x : A} (y : A) (xs : List A) → In x (xs ++ y ∷ []) → In x xs ⊎ (x ≡ y)
In-split y [] here = inr refl
In-split y [] (there i) = elim i [ ]
In-split y (z ∷ xs) here = inl here
In-split y (z ∷ xs) (there i) = elim (In-split y xs i) [ inl j ↦ inl (there j) | inr e ↦ inr e ]

module _ (callers : String → List String) (entries : List String) where
  -- The paths that lead to what is already on `path`, backwards from `node`: a path ends at the first
  -- entry point, and no name comes twice.
  pub data Extends : String → List String → List String → Type 0 where
    found :
        {node : String} {path : List String}
        → has_name entries node ≡ true
        → Extends node path (node ∷ path)
    step :
        {node : String} {path p : List String} (c : String)
        → has_name entries node ≡ false
        → has_name (callers node) c ≡ true
        → has_name (node ∷ path) c ≡ false
        → Extends c (node ∷ path) p
        → Extends node path p

  module _ (max : ℕ) where
    -- The loop over callers keeps what a search from one of them keeps.
    module _ (dfs : String → List (List String) → List (List String)) (path : List String) where
      module _ (c : String) (cs : List String) (out : List (List String)) where
        try_skip :
            has_name path c ≡ true
            → try_callers dfs max path (c ∷ cs) out ≡ try_callers dfs max path cs out
        unfolding try_callers
        try_skip e = rw (e, try_callers) refl

        try_more :
            has_name path c ≡ false
            → ltb (length (dfs c out)) max ≡ true
            → try_callers dfs max path (c ∷ cs) out ≡ try_callers dfs max path cs (dfs c out)
        unfolding try_callers
        try_more e l = rw (e, l, try_callers) refl

        try_full :
            has_name path c ≡ false
            → ltb (length (dfs c out)) max ≡ false
            → try_callers dfs max path (c ∷ cs) out ≡ dfs c out
        unfolding try_callers
        try_full e l = rw (e, l, try_callers) refl

        -- The three ways of one round.
        try_cases :
            (P : List (List String) → Type 0)
            → (has_name path c ≡ true → P (try_callers dfs max path cs out))
            → (has_name path c ≡ false
                → ltb (length (dfs c out)) max ≡ true
                → P (try_callers dfs max path cs (dfs c out)))
            → (has_name path c ≡ false → ltb (length (dfs c out)) max ≡ false → P (dfs c out))
            → P (try_callers dfs max path (c ∷ cs) out)
        try_cases P skip more full = elim (Bool-cases (has_name path c)) [
          | inl e ↦ subst P (sym (try_skip e)) (skip e)
          | inr e ↦ elim (Bool-cases (ltb (length (dfs c out)) max)) [
            | inl l ↦ subst P (sym (try_more e l)) (more e l)
            | inr l ↦ subst P (sym (try_full e l)) (full e l)
          ]
        ]

      try_keeps :
          ((c : String) (out : List (List String)) (p : List String) → In p out → In p (dfs c out))
          → (cs : List String) (out : List (List String)) (p : List String) → In p out
          → In p (try_callers dfs max path cs out)
      unfolding try_callers
      try_keeps keeps [] out p i = i
      try_keeps keeps (c ∷ cs) out p i =
          try_cases c cs out (In p) (λ e. try_keeps keeps cs out p i)
            (λ e l. try_keeps keeps cs (dfs c out) p (keeps c out p i)) (λ e l. keeps c out p i)

      try_bound :
          ((c : String) (out : List (List String)) → length out ≤ max → length (dfs c out) ≤ max)
          → (cs : List String) (out : List (List String)) → length out ≤ max
          → length (try_callers dfs max path cs out) ≤ max
      unfolding try_callers
      try_bound b [] out h = h
      try_bound b (c ∷ cs) out h =
          try_cases c cs out (λ (o : List (List String)). length o ≤ max)
            (λ e. try_bound b cs out h) (λ e l. try_bound b cs (dfs c out) (b c out h))
            (λ e l. b c out h)

      try_grows :
          ((c : String) (out : List (List String)) → length out ≤ length (dfs c out))
          → (cs : List String) (out : List (List String))
          → length out ≤ length (try_callers dfs max path cs out)
      unfolding try_callers
      try_grows g [] out = omega arith
      try_grows g (c ∷ cs) out =
          try_cases c cs out (λ (o : List (List String)). length out ≤ length o)
            (λ e. try_grows g cs out) (λ e l. omega (arith, g c out, try_grows g cs (dfs c out)))
            (λ e l. g c out)

      -- Where a path of the result comes from.
      abbrev Origin : List String → List (List String) → List String → Type 0
      Origin cs out p =
          In p out
          ⊎ ((c : String) × (has_name cs c ≡ true) × (has_name path c ≡ false) × Extends c path p)

      later :
          (c : String) (cs : List String) (out : List (List String)) (p : List String)
          → Origin cs out p
          → Origin (c ∷ cs) out p
      later c cs out p (inl j) = inl j
      later c cs out p (inr (d, m, f, x)) = inr (d, ground (arith, m), f, x)

      try_sound :
          ((c : String) (out : List (List String)) (p : List String)
            → has_name path c ≡ false
            → In p (dfs c out)
            → In p out ⊎ Extends c path p)
          → (cs : List String) (out : List (List String)) (p : List String)
          → In p (try_callers dfs max path cs out)
          → Origin cs out p
      unfolding try_callers
      try_sound s [] out p i = inl i
      try_sound s (c ∷ cs) out p i =
          let first : has_name path c ≡ false → In p (dfs c out) → Origin (c ∷ cs) out p =
            λ e j. elim (s c out p e j) [ inl k ↦ inl k | inr x ↦ inr (c, ground arith, e, x) ] in
          try_cases c cs out (λ o. In p o → Origin (c ∷ cs) out p)
            (λ e j. later c cs out p (try_sound s cs out p j))
            (λ e l k. elim (try_sound s cs (dfs c out) p k) [
              | inl j ↦ first e j
              | inr (d, m, f, x) ↦ inr (d, ground (arith, m), f, x)
            ])
            (λ e l k. first e k) i

      -- A loop that was not cut off has found what the search from each caller finds.
      try_complete :
          ((c : String) (out : List (List String)) → length out ≤ length (dfs c out))
          → ((c : String) (out : List (List String)) (q : List String)
              → In q out
              → In q (dfs c out))
          → (c : String) (p : List String) → has_name path c ≡ false
          → ((out : List (List String)) → length (dfs c out) < max → In p (dfs c out))
          → (cs : List String) (out : List (List String)) → has_name cs c ≡ true
          → length (try_callers dfs max path cs out) < max
          → In p (try_callers dfs max path cs out)
      unfolding try_callers
      try_complete g keeps c p f own [] out m h = absurd (ground arith)
      try_complete g keeps c p f own (d ∷ cs) out m h =
          try_cases d cs out (λ (o : List (List String)). length o < max → In p o)
            (λ e k. elim (string_eq.dec d c) [
              | yes s ↦ absurd (ground (arith, e, f, ap (has_name path) s))
              | no ne ↦ try_complete g keeps c p f own cs out (ground (arith, m)) k
            ])
            (λ e l k. elim (string_eq.dec d c) [
              | yes s ↦
                  let got : In p (dfs d out) =
                    subst (λ x. In p (dfs x out)) (sym s)
                      (own out (ground (arith, l, ap (λ x. length (dfs x out)) s))) in
                  try_keeps keeps cs (dfs d out) p got
              | no ne ↦ try_complete g keeps c p f own cs (dfs d out) (ground (arith, m)) k
            ])
            (λ e l k. absurd (ground arith)) h

    -- The search from a node.
    search_keeps :
        (fuel : ℕ) (path : List String) (node : String) (out : List (List String)) (p : List String)
        → In p out
        → In p (search callers entries max fuel path node out)
    unfolding search
    search_keeps zero path node out p i = i
    search_keeps (suc fuel) path node out p i = if_both (In p) (not (ltb (length out) max)) i (
        if_both (In p) (has_name entries node) (In-left ((node ∷ path) ∷ []) i) (
          try_keeps (search callers entries max fuel (node ∷ path)) (node ∷ path)
            (λ c o q j. search_keeps fuel (node ∷ path) c o q j) (callers node) out p i))

    search_grows :
        (fuel : ℕ) (path : List String) (node : String) (out : List (List String))
        → length out ≤ length (search callers entries max fuel path node out)
    unfolding search
    search_grows zero path node out = omega arith
    search_grows (suc fuel) path node out =
        let same : length out ≤ length out = omega arith in
        let one : length out ≤ length (out ++ (node ∷ path) ∷ []) =
          omega (arith, length-append {0} out ((node ∷ path) ∷ [])) in
        if_both (λ (o : List (List String)). length out ≤ length o) (not (ltb (length out) max))
          same
          (if_both (λ (o : List (List String)). length out ≤ length o) (has_name entries node) one
            (try_grows (search callers entries max fuel (node ∷ path)) (node ∷ path)
              (λ c o. search_grows fuel (node ∷ path) c o) (callers node) out))

    search_bound :
        (fuel : ℕ) (path : List String) (node : String) (out : List (List String))
        → length out ≤ max
        → length (search callers entries max fuel path node out) ≤ max
    unfolding search
    search_bound zero path node out h = h
    search_bound (suc fuel) path node out h = elim (Bool-cases (ltb (length out) max)) [
      | inr full ↦
          subst (λ (o : List (List String)). length o ≤ max) (sym (if_true _ _ _ (ap not full))) h
      | inl room ↦
          let one : length (out ++ (node ∷ path) ∷ []) ≤ max =
            ground (arith, room, length-append out ((node ∷ path) ∷ [])) in
          subst (λ (o : List (List String)). length o ≤ max) (sym (if_false _ _ _ (ap not room)))
            (if_both (λ (o : List (List String)). length o ≤ max) (has_name entries node) one
              (try_bound (search callers entries max fuel (node ∷ path)) (node ∷ path)
                (λ c o b. search_bound fuel (node ∷ path) c o b) (callers node) out h))
    ]

    search_sound :
        (fuel : ℕ) (path : List String) (node : String) (out : List (List String)) (p : List String)
        → In p (search callers entries max fuel path node out)
        → In p out ⊎ Extends node path p
    unfolding search
    search_sound zero path node out p i = inl i
    search_sound (suc fuel) path node out p i =
        if_both (λ o. In p o → In p out ⊎ Extends node path p) (not (ltb (length out) max))
          (λ j. inl j)
          (elim (Bool-cases (has_name entries node)) [
            | inl e ↦
                subst (λ o. In p o → In p out ⊎ Extends node path p) (sym (if_true _ _ _ e))
                  (λ j. elim (In-split (node ∷ path) out j) [
                    | inl k ↦ inl k
                    | inr same ↦ inr (subst (Extends node path) (sym same) (found e))
                  ])
            | inr e ↦
                subst (λ o. In p o → In p out ⊎ Extends node path p) (sym (if_false _ _ _ e))
                  (λ j.
                    elim (try_sound (search callers entries max fuel (node ∷ path)) (node ∷ path)
                      (λ c o q f k. search_sound fuel (node ∷ path) c o q k) (callers node) out p
                      j) [ inl k ↦ inl k | inr (c, m, f, x) ↦ inr (step c e m f x) ])
          ])
          i

    -- `names` holds every caller.
    module _ (names : List String)
        (closed : (n c : String) → has_name (callers n) c ≡ true → has_name names c ≡ true) where
      search_complete :
          (fuel : ℕ) (path : List String) (node : String) (out : List (List String))
          (p : List String)
          → fresh names (node ∷ path) < fuel
          → Extends node path p
          → length (search callers entries max fuel path node out) < max
          → In p (search callers entries max fuel path node out)
      unfolding search
      search_complete zero path node out p enough x h = absurd (omega arith)
      search_complete (suc fuel) path node out p enough (found e) h =
          let grows = search_grows (suc fuel) path node out in
          let room : ltb (length out) max ≡ true = ground (arith, grows, h) in
          let open_ = if_false (not (ltb (length out) max)) out _ (ap not room) in
          let taken = if_true (has_name entries node) (out ++ (node ∷ path) ∷ []) _ e in
          subst (In p) (sym (open_ ∙ taken)) (In-last (node ∷ path) out)
      search_complete (suc fuel) path node out p enough (step c e m f x) h =
          let grows = search_grows (suc fuel) path node out in
          let room : ltb (length out) max ≡ true = ground (arith, grows, h) in
          let open_ = if_false (not (ltb (length out) max)) out _ (ap not room) in
          let passed = if_false (has_name entries node) (out ++ (node ∷ path) ∷ []) _ e in
          let fewer =
            fresh_less names (node ∷ path) (c ∷ node ∷ path) c (λ x. refl) (closed node c m) f in
          subst (In p) (sym (open_ ∙ passed)) (
            try_complete (search callers entries max fuel (node ∷ path)) (node ∷ path)
              (λ d o. search_grows fuel (node ∷ path) d o)
              (λ d o q j. search_keeps fuel (node ∷ path) d o q j) c p f
              (λ o k. search_complete fuel (node ∷ path) c o p (omega (arith, fewer, enough)) x k)
              (callers node) out m
              (subst (λ (o : List (List String)). length o < max) (open_ ∙ passed) h))

-- The search gives at most `max` paths, each of them one that the calls allow.
pub find_paths_bound :
    (callers : String → List String) (entries : List String) (max fuel : ℕ) (target : String)
    → (length (find_paths_to_target callers entries max fuel target) ≤ max)
      × ((p : List String)
          → In p (find_paths_to_target callers entries max fuel target)
          → Extends callers entries target [] p)
unfolding find_paths_to_target
find_paths_bound callers entries max fuel target = (
  search_bound callers entries max fuel [] target [] (omega arith),
  λ p i. elim (search_sound callers entries max fuel [] target [] p i) [
    | inl j ↦ elim j [ ]
    | inr x ↦ x
  ],
)

-- With fuel for each name and one more, a search of `findPathsToTarget` that stays below its limit
-- gives exactly the paths that the calls allow: backwards from the target, from caller to caller
-- without a name twice, up to the first entry point.
pub find_paths_iff :
    (callers : String → List String) (entries : List String) (max fuel : ℕ) (target : String)
    (names : List String)
    → ((n c : String) → has_name (callers n) c ≡ true → has_name names c ≡ true)
    → length names < fuel
    → length (find_paths_to_target callers entries max fuel target) < max
    → (p : List String)
    → In p (find_paths_to_target callers entries max fuel target)
      ↔ Extends callers entries target [] p
unfolding find_paths_to_target
find_paths_iff callers entries max fuel target names closed enough below p = (
  (find_paths_bound callers entries max fuel target).1 p,
  λ x.
      search_complete callers entries max names closed fuel [] target [] p
        (omega (arith, fresh-le-length names (target ∷ []))) x below,
)

-- Two names in a row are a call.
abbrev pub IsChain : (String → List String) → List String → Type 0
IsChain callers [] = Unit
IsChain callers (a ∷ []) = Unit
IsChain callers (a ∷ b ∷ r) = (has_name (callers b) a ≡ true) × IsChain callers (b ∷ r)

abbrev pub IsSimple : List String → Type 0
IsSimple [] = Unit
IsSimple (a ∷ r) = (has_name r a ≡ false) × IsSimple r

abbrev pub last_of : String → List String → String
last_of d [] = d
last_of d (a ∷ r) = last_of a r

-- A path starts at an entry point, ends at the target, is made of calls and has no name twice.
pub record IsRoute (callers : String → List String) (entries : List String) (target : String)
    (p : List String) : Type 0 where
  pub first : (e : String) × (r : List String) × (p ≡ e ∷ r) × (has_name entries e ≡ true)
  pub last : last_of target p ≡ target
  pub chain : IsChain callers p
  pub simple : IsSimple p

Extends-IsRoute :
    (callers : String → List String) (entries : List String) (target node : String)
    (path p : List String)
    → IsChain callers (node ∷ path)
    → IsSimple (node ∷ path)
    → last_of target (node ∷ path) ≡ target
    → Extends callers entries node path p
    → IsRoute callers entries target p
Extends-IsRoute callers entries target node path p chain simple last (found e) = record {
  first = (node, path, refl, e);
  last = last;
  chain = chain;
  simple = simple;
}
Extends-IsRoute callers entries target node path p chain simple last (step c e m f x) =
    Extends-IsRoute callers entries target c (node ∷ path) p (m, chain) (f, simple) last x

-- `findPathsToTarget` gives at most as many paths as its limit, and each of them starts at an
-- entry point, ends at the target, is made of calls and has no name twice.
pub find_paths_lem :
    (callers : String → List String) (entries : List String) (max fuel : ℕ) (target : String)
    → (length (find_paths_to_target callers entries max fuel target) ≤ max)
      × ((p : List String)
          → In p (find_paths_to_target callers entries max fuel target)
          → IsRoute callers entries target p)
find_paths_lem callers entries max fuel target =
    let (bound, sound) = find_paths_bound callers entries max fuel target in
    (
      bound,
      λ p i. Extends-IsRoute callers entries target target [] p tt (refl, tt) refl (sound p i),
    )
