-- ===== src/Liveness/Handles.antt =====
-- What the walk does to each edge that it sees.
use giga_drill_breaker.Common.{
  ℕ, zero, suc, ◌≡◌, refl, inl, inr, String, Bool, true, not, ◌&&◌, ◌||◌, some, List, [], ◌∷◌,
  arith, get_elem?, string_eq, has_name, has_name-insert_name, has_name-append, Bool-cases, subst,
}
use giga_drill_breaker.Graph.Types.{CallGraphEdge, proven, plausible, virtual_dispatch}
use giga_drill_breaker.Liveness.{
  GraphView, Sweep, mark, is_of, is_sure, class_at, should_follow, construct, pursue, for_edges,
}
use giga_drill_breaker.Liveness.Lives.{is_plain, is_waiting, builds}

-- `s'` comes after `s`: nothing is forgotten, and what is newly alive is queued.
pub record Beyond (s s' : Sweep) : Type 0 where
  pub alive : (x : String) → has_name s.alive x ≡ true → has_name s'.alive x ≡ true
  pub constructed :
      (c : String) → has_name s.constructed c ≡ true → has_name s'.constructed c ≡ true
  pub queue : (x : String) → has_name s.queue x ≡ true → has_name s'.queue x ≡ true
  pub fresh :
      (x : String) → has_name s'.alive x ≡ true → (has_name s.alive x || has_name s'.queue x) ≡ true
  pub known :
      (x : String)
      → (has_name s.alive x || has_name s.deferred x) ≡ true
      → (has_name s'.alive x || has_name s'.deferred x) ≡ true

pub Beyond-refl : (s : Sweep) → Beyond s s
Beyond-refl s = record {
  alive = λ x h. h;
  constructed = λ x h. h;
  queue = λ x h. h;
  fresh = λ x h. ground arith;
  known = λ x h. h;
}

pub Beyond-trans : {a b c : Sweep} → Beyond a b → Beyond b c → Beyond a c
Beyond-trans p q = record {
  alive = λ x h. q.alive x (p.alive x h);
  constructed = λ x h. q.constructed x (p.constructed x h);
  queue = λ x h. q.queue x (p.queue x h);
  fresh = λ x h. ground (arith, q.fresh x h, p.fresh x, q.queue x);
  known = λ x h. q.known x (p.known x h);
}

pub mark-Beyond : (u : String) (s : Sweep) → Beyond s (mark u s)
mark-Beyond u s = record {
  alive = λ x h. ground (arith, has_name-insert_name x u s.alive);
  constructed = λ x h. ground arith;
  queue = λ x h. ground (arith, has_name-append x s.queue (u ∷ []));
  fresh =
      λ x h. ground (arith, has_name-insert_name x u s.alive, has_name-append x s.queue (u ∷ []));
  known = λ x h. ground (arith, has_name-insert_name x u s.alive);
}

-- The walk has done with an edge what it does while it goes.
pub record Handled (v : GraphView) (optimistic : Bool) (e : CallGraphEdge)
    (alive deferred constructed : List String) : Type 0 where
  pub plain : is_plain v optimistic e ≡ true → has_name alive e.callee_usr ≡ true
  pub waiting :
      is_waiting v optimistic e ≡ true
      → (has_name alive e.callee_usr || has_name deferred e.callee_usr) ≡ true
  pub built : (c : String) → builds v optimistic c e ≡ true → has_name constructed c ≡ true

-- A virtual dispatch is proven or plausible.
abbrev pub is_decided : CallGraphEdge → Bool
is_decided e = not (is_of virtual_dispatch e) || (is_sure proven e || is_sure plausible e)

module _ (v : GraphView) (optimistic : Bool) where
  pub Handled-Beyond :
      (e : CallGraphEdge) {s s' : Sweep}
      → Beyond s s'
      → Handled v optimistic e s.alive s.deferred s.constructed
      → Handled v optimistic e s'.alive s'.deferred s'.constructed
  Handled-Beyond e b h = record {
    plain = λ p. b.alive e.callee_usr (h.plain p);
    waiting = λ p. b.known e.callee_usr (h.waiting p);
    built = λ c p. b.constructed c (h.built c p);
  }

  module _ (e : CallGraphEdge) (s : Sweep) where
    construct-Beyond : Beyond s (construct v e s)
    construct-Beyond = record {
      alive = λ x h. ground arith;
      constructed =
          λ c h. ground (arith, has_name-insert_name c (class_at v e.callee_usr) s.constructed);
      queue = λ x h. ground arith;
      fresh = λ x h. ground arith;
      known = λ x h. ground arith;
    }

    pursue-Beyond : Beyond s (pursue v optimistic e s)
    pursue-Beyond = elim (Bool-cases (should_follow v optimistic s.constructed e)) [
      | inl follows ↦ rw follows (mark-Beyond e.callee_usr s)
      | inr ignores ↦
          elim (Bool-cases (optimistic && (is_of virtual_dispatch e && is_sure plausible e))) [
            | inl waiting ↦
                rw (ignores, waiting)
                  (record {
                    alive = λ x h. h;
                    constructed = λ x h. h;
                    queue = λ x h. h;
                    fresh = λ x h. ground arith;
                    known = λ x h. ground (arith, has_name-append x s.deferred (e.callee_usr ∷ []));
                  })
            | inr other ↦ rw (ignores, other) (Beyond-refl s)
          ]
    ]

    built-construct :
        (c : String)
        → builds v optimistic c e ≡ true
        → has_name (construct v e s).constructed c ≡ true
    built-construct c h =
        ground (arith, has_name-insert_name c (class_at v e.callee_usr) s.constructed)

    alive-pursue :
        is_plain v optimistic e ≡ true
        → has_name (pursue v optimistic e s).alive e.callee_usr ≡ true
    alive-pursue h = ground (arith, has_name-insert_name e.callee_usr e.callee_usr s.alive)

    known-pursue :
        is_decided e ≡ true
        → is_waiting v optimistic e ≡ true
        → (has_name (pursue v optimistic e s).alive e.callee_usr
            || has_name (pursue v optimistic e s).deferred e.callee_usr)
          ≡ true
    known-pursue d h = ground (
      arith,
      has_name-insert_name e.callee_usr e.callee_usr s.alive,
      has_name-append e.callee_usr s.deferred (e.callee_usr ∷ []),
    )

  pub for_edges-Beyond :
      (es : List CallGraphEdge) (s : Sweep) → Beyond s (for_edges v optimistic es s)
  unfolding for_edges
  for_edges-Beyond [] s = Beyond-refl s
  for_edges-Beyond (e ∷ es) s =
      Beyond-trans (construct-Beyond e s)
        (Beyond-trans (pursue-Beyond e (construct v e s)) (for_edges-Beyond es _))

  abbrev pub IsDone : CallGraphEdge → Sweep → Type 0
  IsDone e s = Handled v optimistic e s.alive s.deferred s.constructed

  pub for_edges-IsDone :
      (es : List CallGraphEdge) (s : Sweep)
      → ((i : ℕ) (e : CallGraphEdge) → get_elem? es i ≡ some e → is_decided e ≡ true)
      → (i : ℕ) (e : CallGraphEdge) → get_elem? es i ≡ some e
      → IsDone e (for_edges v optimistic es s)
  unfolding for_edges
  for_edges-IsDone [] s decided i e at = absurd (ground arith)
  for_edges-IsDone (e' ∷ es) s decided (suc i) e at =
      for_edges-IsDone es _ (λ j f a. decided (suc j) f a) i e at
  for_edges-IsDone (e' ∷ es) s decided zero e at =
      let s1 = construct v e' s in
      let s2 = pursue v optimistic e' s1 in
      let b = pursue-Beyond e' s1 in
      let here : IsDone e' s2 = record {
        plain = alive-pursue e' s1;
        waiting = known-pursue e' s1 (decided 0 e' refl);
        built = λ c h. b.constructed c (built-construct e' s c h);
      } in
      let same : e' ≡ e = ground arith in
      subst (λ f. IsDone f (for_edges v optimistic es s2)) same
        (Handled-Beyond e' (for_edges-Beyond es s2) here)
