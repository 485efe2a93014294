-- ===== src/ControlFlow/Answers.antt =====
-- What each query answers on an index that represents a list of contexts.
use giga_drill_breaker.Common.{
  ℕ, ◌≡◌, refl, sym, ap, ◌∙◌, Bool, true, false, ◌&&◌, ◌||◌, none, some, List, [], ◌∷◌, arith, keep,
  ◌==◌, nat_eq, string_eq, String, inl, inr, Option-cases,
}
use giga_drill_breaker.Common.Map
use giga_drill_breaker.Common.Map.{Map}
use giga_drill_breaker.Interner
use giga_drill_breaker.ControlFlow.Types.{CallSiteContext, StoredContext}
use giga_drill_breaker.ControlFlow.State.{ControlFlowIndex}
use giga_drill_breaker.ControlFlow.Queries.{
  any, indices_at, context_at_site, is_caller, context_of_caller, contexts_at_site, gather,
  first_of,
}
use giga_drill_breaker.ControlFlow.Positions.{positions}
use giga_drill_breaker.ControlFlow.Indexed.{live_and, at_site}
use giga_drill_breaker.ControlFlow.Views.{
  Shows, Views, nil, live, dead, head?, gather-Views, first_of-Views, same_name, other_name,
}
use giga_drill_breaker.ControlFlow.Represents.{Represents}

pub keep_same :
    (p q : CallSiteContext → Bool) (cs : List CallSiteContext)
    → ((c : CallSiteContext) → p c ≡ q c)
    → keep p cs ≡ keep q cs
keep_same p q [] h = refl
keep_same p q (c ∷ cs) h = ground (arith, h c, keep_same p q cs h)

pub keep_none :
    (idx : ControlFlowIndex) (q : CallSiteContext → Bool) {ses : List StoredContext}
    {cs : List CallSiteContext}
    → ((se : StoredContext) (c : CallSiteContext) → Shows idx se c → q c ≡ false)
    → Views idx ses cs
    → keep q cs ≡ []
keep_none idx q h nil = refl
keep_none idx q h (live {se} {c} s l v) = rw (h se c s) (keep_none idx q h v)
keep_none idx q h (dead l v) = keep_none idx q h v

-- The vector under a key of one map.
module _ (idx : ControlFlowIndex) (cs : List CallSiteContext)
    (views : Views idx idx.table.contexts cs) (m : Map ℕ (List ℕ)) (k : ℕ)
    (p test : StoredContext → Bool) (q : CallSiteContext → Bool)
    (listed : Map.get_list k m ≡ positions (live_and test) 0 idx.table.contexts)
    (agree : (se : StoredContext) (c : CallSiteContext)
      → Shows idx se c
      → (test se && p se) ≡ q c) where
  pub gather_entry : (is : List ℕ) → Map.find k m ≡ some is → gather p idx is ≡ some (keep q cs)
  gather_entry is h =
      let e : is ≡ positions (live_and test) 0 idx.table.contexts =
        ground (arith, Map.get_list_lem k m, listed) in
      rw e (gather-Views idx p test q agree 0 views (λ i. ground arith))

  first_of_entry :
      (is : List ℕ) → Map.find k m ≡ some is → first_of p idx is ≡ some (head? (keep q cs))
  first_of_entry is h =
      let e : is ≡ positions (live_and test) 0 idx.table.contexts =
        ground (arith, Map.get_list_lem k m, listed) in
      rw e (first_of-Views idx p test q agree 0 views (λ i. ground arith))

  pub no_entry : Map.find k m ≡ none → keep q cs ≡ []
  unfolding gather
  no_entry h =
      let e : [] ≡ positions (live_and test) 0 idx.table.contexts =
        ground (arith, Map.get_list_lem k m, listed) in
      let g = gather-Views idx p test q agree 0 views (λ i. ground arith) in
      let g' : gather p idx [] ≡ some (keep q cs) = ap (gather p idx) e ∙ g in ground arith

module _ (idx : ControlFlowIndex) (cs : List CallSiteContext) (r : Represents idx cs) where
  -- The loops over the contexts at a call site, for a test that both sides know.
  module _ (site : String) (p : StoredContext → Bool) (q : CallSiteContext → Bool)
      (pq : (se : StoredContext) (c : CallSiteContext) → Shows idx se c → p se ≡ q c) where
    abbrev there : CallSiteContext → Bool
    there c = c.call_site == site && q c

    there_agree :
        (id : ℕ)
        → Interner.find site idx.interner ≡ some id
        → (se : StoredContext) (c : CallSiteContext) → Shows idx se c
        → (at_site id se && p se) ≡ there c
    there_agree id hit se c s = ground (
      arith,
      same_name idx.interner site c.call_site id se.site r.dense hit s.call_site,
      pq se c s,
    )

    gather_site :
        (is : List ℕ) → indices_at site idx ≡ some is → gather p idx is ≡ some (keep there cs)
    unfolding indices_at
    gather_site is h = elim (Option-cases (Interner.find site idx.interner)) [
      | inl miss ↦ absurd (ground arith)
      | inr (id, hit) ↦
          gather_entry idx cs r.views idx.table.by_site id p (at_site id) there
            (r.indexed.linked.sites id) (there_agree id hit) is (ground arith)
    ]

    first_of_site :
        (is : List ℕ)
        → indices_at site idx ≡ some is
        → first_of p idx is ≡ some (head? (keep there cs))
    unfolding indices_at
    first_of_site is h = elim (Option-cases (Interner.find site idx.interner)) [
      | inl miss ↦ absurd (ground arith)
      | inr (id, hit) ↦
          first_of_entry idx cs r.views idx.table.by_site id p (at_site id) there
            (r.indexed.linked.sites id) (there_agree id hit) is (ground arith)
    ]

    no_site : indices_at site idx ≡ none → keep there cs ≡ []
    unfolding indices_at
    no_site h = elim (Option-cases (Interner.find site idx.interner)) [
      | inl miss ↦
          keep_none idx there
            (λ se c s.
              ground
                (arith, other_name idx.interner site c.call_site se.site r.dense miss s.call_site))
            r.views
      | inr (id, hit) ↦
          no_entry idx cs r.views idx.table.by_site id p (at_site id) there
            (r.indexed.linked.sites id) (there_agree id hit) (ground arith)
    ]

  abbrev yes_all : CallSiteContext → Bool
  yes_all c = true

  refl_all : (se : StoredContext) (c : CallSiteContext) → Shows idx se c → any se ≡ yes_all c
  refl_all se c s = refl

  same :
      (site : String)
      → keep (λ c. c.call_site == site && yes_all c) cs ≡ keep (λ c. c.call_site == site) cs
  same site = keep_same _ _ cs (λ c. ground arith)

  nobody :
      (site caller : String)
      → Interner.find caller idx.interner ≡ none
      → keep (λ c. c.call_site == site && (c.caller_usr == caller || c.caller_name == caller)) cs
        ≡ []
  nobody site caller unknown =
      keep_none idx _
        (λ se c s. ground (
          arith,
          other_name idx.interner caller c.caller_usr se.caller r.dense unknown s.caller_usr,
          other_name idx.interner caller c.caller_name se.caller_display r.dense unknown
              s.caller_name,
        ))
        r.views

  -- On an index that stands for a list of contexts, `contextsAtSite` gives exactly those of the
  -- call site, in their order.
  pub contexts_at_site-Represents :
      (site : String) → contexts_at_site site idx ≡ some (keep (λ c. c.call_site == site) cs)
  unfolding contexts_at_site
  contexts_at_site-Represents site = elim (Option-cases (indices_at site idx)) [
    | inl miss ↦
        rw (miss, contexts_at_site)
          (ap some (sym (no_site site any yes_all refl_all miss) ∙ same site))
    | inr (is, hit) ↦
        rw (hit, contexts_at_site)
          (gather_site site any yes_all refl_all is hit ∙ ap some (same site))
  ]

  pub context_at_site-Represents :
      (site : String) → context_at_site site idx ≡ some (head? (keep (λ c. c.call_site == site) cs))
  unfolding context_at_site
  context_at_site-Represents site = elim (Option-cases (indices_at site idx)) [
    | inl miss ↦
        rw (miss, context_at_site)
          (ap (λ l. some (head? l)) (sym (no_site site any yes_all refl_all miss) ∙ same site))
    | inr (is, hit) ↦
        rw (hit, context_at_site)
          (first_of_site site any yes_all refl_all is hit ∙ ap (λ l. some (head? l)) (same site))
  ]

  -- The test of the overload that takes a caller.
  abbrev calls_from : String → CallSiteContext → Bool
  calls_from caller c = c.caller_usr == caller || c.caller_name == caller

  calls_agree :
      (caller : String) (id : ℕ)
      → Interner.find caller idx.interner ≡ some id
      → (se : StoredContext) (c : CallSiteContext) → Shows idx se c
      → is_caller id se ≡ calls_from caller c
  unfolding is_caller
  calls_agree caller id hit se c s = ground (
    arith,
    same_name idx.interner caller c.caller_usr id se.caller r.dense hit s.caller_usr,
    same_name idx.interner caller c.caller_name id se.caller_display r.dense hit s.caller_name,
  )

  -- On an index that stands for a list of contexts, `contextAtSite` with a caller gives the first
  -- context of the call site whose caller has that usr or that name, and nothing if there is none.
  pub context_of_caller-Represents :
      (site caller : String)
      → context_of_caller site caller idx
        ≡ some (
            head? (
              keep
                (λ c. c.call_site == site && (c.caller_usr == caller || c.caller_name == caller))
                cs))
  unfolding context_of_caller
  context_of_caller-Represents site caller = elim (Option-cases (indices_at site idx)) [
    | inl miss ↦ elim (Option-cases (Interner.find caller idx.interner)) [
      | inl unknown ↦
          rw (miss, context_of_caller) (ap (λ l. some (head? l)) (sym (nobody site caller unknown)))
      | inr (id, known) ↦
          rw (miss, context_of_caller)
            (ap (λ l. some (head? l))
              (sym (
                no_site site (is_caller id) (calls_from caller) (calls_agree caller id known)
                  miss)))
    ]
    | inr (is, hit) ↦ elim (Option-cases (Interner.find caller idx.interner)) [
      | inl unknown ↦
          rw (hit, unknown, context_of_caller)
            (ap (λ l. some (head? l)) (sym (nobody site caller unknown)))
      | inr (id, known) ↦
          rw (hit, known, context_of_caller)
            (first_of_site site (is_caller id) (calls_from caller) (calls_agree caller id known) is
              hit)
    ]
  ]
