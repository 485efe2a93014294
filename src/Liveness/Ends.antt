-- ===== src/Liveness/Ends.antt =====
-- The fuel of the walk: a function is queued once, and a further round needs a new function or class.
use giga_drill_breaker.Common.{
  ℕ, zero, suc, ◌+◌, ◌≤◌, ◌<◌, ◌≡◌, refl, inl, inr, String, Bool, true, false, ◌&&◌, some, List, [],
  ◌∷◌, ◌++◌, arith, length, length-append, get_elem?, if◌then◌else◌, ◌==◌, string_eq, has_name,
  has_name-append, Bool-cases, List-cases,
}
use giga_drill_breaker.Graph.Types.{CallGraphEdge, plausible, virtual_dispatch, constructor_call}
use giga_drill_breaker.Liveness.{
  GraphView, Sweep, mark, is_of, is_sure, class_at, is_served, should_follow, construct, pursue,
  for_edges, drain, recheck,
}

-- The names of the list that are not in the set.
abbrev pub missing : List String → List String → ℕ
missing set [] = 0
missing set (x ∷ xs) = (if has_name set x then 0 else 1) + missing set xs

missing-le :
    (set : List String) (n : String) (xs : List String)
    → missing (set ++ n ∷ []) xs ≤ missing set xs
missing-le set n [] = omega arith
missing-le set n (x ∷ xs) = ground (arith, missing-le set n xs, has_name-append x set (n ∷ []))

missing-lt :
    (set : List String) (n : String) (xs : List String)
    → has_name xs n ≡ true
    → has_name set n ≡ false
    → missing (set ++ n ∷ []) xs < missing set xs
missing-lt set n [] h new = absurd (ground arith)
missing-lt set n (x ∷ xs) h new =
    ground (arith, missing-lt set n xs, missing-le set n xs, has_name-append x set (n ∷ []))

-- The usrs and the classes that the graph can answer with.
pub record IsBounded (v : GraphView) (usrs classes : List String) : Type 0 where
  pub usr :
      (u : String) (i : ℕ) (e : CallGraphEdge)
      → get_elem? (v.callees_of u) i ≡ some e
      → has_name usrs e.callee_usr ≡ true
  pub of_name :
      (name u : String) → has_name (v.usrs_for_name name) u ≡ true → has_name usrs u ≡ true
  pub class : (u : String) → (class_at v u == "") ≡ false → has_name classes (class_at v u) ≡ true

module _ (v : GraphView) (optimistic : Bool) (usrs classes : List String)
    (bounded : IsBounded v usrs classes) where
  abbrev pub work : Sweep → ℕ
  work s = missing s.alive usrs + length s.queue

  abbrev pub open_names : Sweep → ℕ
  open_names s = missing s.alive usrs + missing s.constructed classes

  abbrev pub total : Sweep → ℕ
  total s = open_names s + (if s.changed then 1 else 0)

  pub record Shrinks (s s' : Sweep) : Type 0 where
    pub less_work : work s' ≤ work s
    pub less_total : total s' ≤ total s
    pub kept :
        ((d : String) → has_name s.deferred d ≡ true → has_name usrs d ≡ true)
        → (d : String) → has_name s'.deferred d ≡ true
        → has_name usrs d ≡ true

  Shrinks-refl : (s : Sweep) → Shrinks s s
  Shrinks-refl s = record { less_work = omega arith; less_total = omega arith; kept = λ h. h }

  pub Shrinks-trans : {a b c : Sweep} → Shrinks a b → Shrinks b c → Shrinks a c
  Shrinks-trans p q = record {
    less_work = omega (arith, p.less_work, q.less_work);
    less_total = omega (arith, p.less_total, q.less_total);
    kept = λ h. q.kept (p.kept h);
  }

  pub mark-Shrinks : (u : String) (s : Sweep) → has_name usrs u ≡ true → Shrinks s (mark u s)
  mark-Shrinks u s h = elim (Bool-cases (has_name s.alive u)) [
    | inl known ↦ rw known (Shrinks-refl s)
    | inr new ↦ rw new (record {
      less_work = omega (arith, missing-lt s.alive u usrs h new, length-append s.queue (u ∷ []));
      less_total = omega (arith, missing-lt s.alive u usrs h new);
      kept = λ k. k;
    })
  ]

  construct-Shrinks : (e : CallGraphEdge) (s : Sweep) → Shrinks s (construct v e s)
  construct-Shrinks e s = elim (Bool-cases (is_of constructor_call e)) [
    | inr other ↦ rw other (Shrinks-refl s)
    | inl maker ↦ elim (Bool-cases (class_at v e.callee_usr == "")) [
      | inl free ↦ rw (maker, free) (Shrinks-refl s)
      | inr member ↦ elim (Bool-cases (has_name s.constructed (class_at v e.callee_usr))) [
        | inl known ↦ rw (maker, member, known) (Shrinks-refl s)
        | inr new ↦
            rw (maker, member, new)
              (record {
                less_work = omega arith;
                less_total = ground (
                  arith,
                  missing-lt s.constructed (class_at v e.callee_usr) classes
                      (bounded.class e.callee_usr member) new,
                );
                kept = λ k. k;
              })
      ]
    ]
  ]

  pursue-Shrinks :
      (e : CallGraphEdge) (s : Sweep)
      → has_name usrs e.callee_usr ≡ true
      → Shrinks s (pursue v optimistic e s)
  pursue-Shrinks e s h = elim (Bool-cases (should_follow v optimistic s.constructed e)) [
    | inl follows ↦ rw follows (mark-Shrinks e.callee_usr s h)
    | inr ignores ↦
        elim (Bool-cases (optimistic && (is_of virtual_dispatch e && is_sure plausible e))) [
          | inl waiting ↦
              rw (ignores, waiting)
                (record {
                  less_work = omega arith;
                  less_total = omega arith;
                  kept = λ k d m.
                      ground (arith, k d, has_name-append d s.deferred (e.callee_usr ∷ []));
                })
          | inr other ↦ rw (ignores, other) (Shrinks-refl s)
        ]
  ]

  for_edges-Shrinks :
      (es : List CallGraphEdge) (s : Sweep)
      → ((i : ℕ) (e : CallGraphEdge) → get_elem? es i ≡ some e → has_name usrs e.callee_usr ≡ true)
      → Shrinks s (for_edges v optimistic es s)
  unfolding for_edges
  for_edges-Shrinks [] s h = Shrinks-refl s
  for_edges-Shrinks (e ∷ es) s h = Shrinks-trans (construct-Shrinks e s) (
      Shrinks-trans (pursue-Shrinks e (construct v e s) (h 0 e refl))
        (for_edges-Shrinks es _ (λ i f at. h (suc i) f at)))

  pub drain_ends :
      (fuel : ℕ) (s : Sweep)
      → work s ≤ fuel
      → ((drain v optimistic fuel s).queue ≡ []) × Shrinks s (drain v optimistic fuel s)
  unfolding drain
  drain_ends zero s h = (ground arith, Shrinks-refl s)
  drain_ends (suc fuel) s h = elim (List-cases s.queue) [
    | inl empty ↦
        rw (empty, drain)
          (empty, record { less_work = ground arith; less_total = omega arith; kept = λ k. k })
    | inr (u, rest, e) ↦
        let s1 : Sweep = record s { queue = rest } in
        let step = for_edges-Shrinks (v.callees_of u) s1 (bounded.usr u) in
        let pop : work s ≡ suc (work s1) = ground arith in
        let (empty, more) =
          drain_ends fuel (for_edges v optimistic (v.callees_of u) s1)
            (omega (arith, step.less_work)) in
        rw (e, drain)
          (
            empty,
            Shrinks-trans
                (record { less_work = omega arith; less_total = omega arith; kept = λ k. k })
                (Shrinks-trans step more),
          )
  ]

  recheck-Shrinks :
      (ds : List String) (s : Sweep)
      → ((d : String) → has_name ds d ≡ true → has_name usrs d ≡ true)
      → Shrinks s (recheck v optimistic ds s)
        × (s.changed ≡ true → (recheck v optimistic ds s).changed ≡ true)
  unfolding recheck
  recheck-Shrinks [] s h = (Shrinks-refl s, λ c. c)
  recheck-Shrinks (d ∷ ds) s h =
      let here : has_name usrs d ≡ true = h d (ground arith) in
      let later : (x : String) → has_name ds x ≡ true → has_name usrs x ≡ true =
        (λ x m. h x (ground arith)) in
      elim (Bool-cases (is_served v s.constructed d)) [
        | inr still ↦
            let s1 : Sweep = record s { deferred = s.deferred ++ d ∷ [] } in
            let (r, c) = recheck-Shrinks ds s1 later in
            rw (still, recheck)
              (
                Shrinks-trans
                    (record {
                      less_work = omega arith;
                      less_total = omega arith;
                      kept = λ k x m. ground (arith, k x, has_name-append x s.deferred (d ∷ []));
                    })
                    r,
                c,
              )
        | inl served ↦ elim (Bool-cases (has_name s.alive d)) [
          | inl old ↦ rw (served, old, recheck) (recheck-Shrinks ds s later)
          | inr new ↦
              let s1 : Sweep = record s {
                alive = s.alive ++ d ∷ [];
                queue = s.queue ++ d ∷ [];
                changed = true;
              } in
              let (r, c) = recheck-Shrinks ds s1 later in
              rw (served, new, recheck)
                (
                  Shrinks-trans
                      (record {
                        less_work = omega (
                          arith,
                          missing-lt s.alive d usrs here new,
                          length-append s.queue (d ∷ []),
                        );
                        less_total = ground (arith, missing-lt s.alive d usrs here new);
                        kept = λ k. k;
                      })
                      r,
                  λ _. c refl,
                )
        ]
      ]

  pub recheck-again :
      (s2 : Sweep)
      → s2.queue ≡ []
      → ((d : String) → has_name s2.deferred d ≡ true → has_name usrs d ≡ true)
      → let r : Sweep =
          (if s2.changed && optimistic
            then recheck v optimistic s2.deferred (record s2 { deferred = [] })
            else s2) in
        Shrinks s2 r × (r.changed ≡ false → r.queue ≡ [])
  recheck-again s2 empty h = elim (Bool-cases (s2.changed && optimistic)) [
    | inr once ↦ rw once (Shrinks-refl s2, λ _. empty)
    | inl again ↦
        let s3 : Sweep = record s2 { deferred = [] } in
        let (r, c) = recheck-Shrinks s2.deferred s3 h in
        rw again (
          Shrinks-trans
              (record {
                less_work = omega arith;
                less_total = omega arith;
                kept = λ k d m. absurd (ground arith);
              })
              r,
          λ still. absurd (ground arith),
        )
  ]
