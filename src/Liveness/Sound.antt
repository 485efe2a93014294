-- ===== src/Liveness/Sound.antt =====
-- The marks of the walk against what is alive.
use giga_drill_breaker.Common.{
  ℕ, zero, suc, ◌≡◌, refl, inl, inr, String, Bool, true, false, ◌&&◌, some, List, [], ◌∷◌, arith,
  get_elem?, if_both, ◌==◌, string_eq, has_name, has_name-insert_name, has_name-append, Bool-cases,
  List-cases, subst,
}
use giga_drill_breaker.Graph.Types.{CallGraphEdge, plausible, virtual_dispatch, constructor_call}
use giga_drill_breaker.Liveness.{
  GraphView, Sweep, mark, is_of, is_sure, class_at, is_served, should_follow, construct, pursue,
  for_edges, drain, recheck, round, rounds,
}
use giga_drill_breaker.Liveness.Lives.{
  Calls, is_plain, is_waiting, builds, Lives, call, dispatch, is_served_sound,
}

module _ (v : GraphView) (optimistic : Bool) (roots : List String) where
  abbrev pub Alive : String → Type 0
  Alive u = Lives v optimistic roots u

  abbrev pub Made : String → Type 0
  Made c =
      (w : String) × (e : CallGraphEdge) × Alive w
      × Calls v optimistic w e
      × (builds v optimistic c e ≡ true)

  abbrev pub Waits : String → Type 0
  Waits d =
      (w : String) × (e : CallGraphEdge) × Alive w
      × Calls v optimistic w e
      × (is_waiting v optimistic e ≡ true)
      × (e.callee_usr ≡ d)

  pub record IsSound (s : Sweep) : Type 0 where
    pub alive : (u : String) → has_name s.alive u ≡ true → Alive u
    pub queued : (u : String) → has_name s.queue u ≡ true → Alive u
    pub made : (c : String) → has_name s.constructed c ≡ true → Made c
    pub waits : (d : String) → has_name s.deferred d ≡ true → Waits d

  mark-IsSound : (u : String) (s : Sweep) → Alive u → IsSound s → IsSound (mark u s)
  mark-IsSound u s lives h = elim (Bool-cases (has_name s.alive u)) [
    | inl known ↦ rw known h
    | inr new ↦ rw new (record {
      alive = λ x m. elim (string_eq.dec u x) [
        | yes e ↦ subst Alive e lives
        | no ne ↦ h.alive x (ground (arith, has_name-insert_name x u s.alive))
      ];
      queued = λ x m. elim (string_eq.dec u x) [
        | yes e ↦ subst Alive e lives
        | no ne ↦ h.queued x (ground (arith, has_name-append x s.queue (u ∷ [])))
      ];
      made = h.made;
      waits = h.waits;
    })
  ]

  serve :
      (s : Sweep) (d : String) → IsSound s → Waits d → is_served v s.constructed d ≡ true → Alive d
  serve s d h (w, e, lives, calls, waiting, same) served =
      let (c, built, serving) = is_served_sound v optimistic s.constructed d served in
      let (w', made, lives', calls', builder) = h.made c built in
      subst Alive same (dispatch c e made lives calls waiting lives' calls' builder (ground arith))

  module _ (u : String) (e : CallGraphEdge) (lives : Alive u) (calls : Calls v optimistic u e) where
    construct-IsSound : (s : Sweep) → IsSound s → IsSound (construct v e s)
    construct-IsSound s h = elim (Bool-cases (is_of constructor_call e)) [
      | inr other ↦ rw other h
      | inl maker ↦ elim (Bool-cases (class_at v e.callee_usr == "")) [
        | inl free ↦ rw (maker, free) h
        | inr member ↦ elim (Bool-cases (has_name s.constructed (class_at v e.callee_usr))) [
          | inl known ↦ rw (maker, member, known) h
          | inr new ↦
              rw (maker, member, new)
                (record {
                  alive = h.alive;
                  queued = h.queued;
                  made = λ c m. elim (string_eq.dec (class_at v e.callee_usr) c) [
                    | yes same ↦ (u, e, lives, calls, ground arith)
                    | no ne ↦ h.made c (
                        ground
                          (arith, has_name-insert_name c (class_at v e.callee_usr) s.constructed))
                  ];
                  waits = h.waits;
                })
        ]
      ]
    ]

    pursue-IsSound : (s : Sweep) → IsSound s → IsSound (pursue v optimistic e s)
    pursue-IsSound s h = elim (Bool-cases (should_follow v optimistic s.constructed e)) [
      | inl follows ↦
          let target : Alive e.callee_usr = elim (Bool-cases (is_plain v optimistic e)) [
            | inl plain ↦ call e lives calls plain
            | inr not_plain ↦
                serve s e.callee_usr h (u, e, lives, calls, ground arith, refl) (ground arith)
          ] in
          rw follows (mark-IsSound e.callee_usr s target h)
      | inr ignores ↦
          elim (Bool-cases (optimistic && (is_of virtual_dispatch e && is_sure plausible e))) [
            | inl waiting ↦
                rw (ignores, waiting)
                  (record {
                    alive = h.alive;
                    queued = h.queued;
                    made = h.made;
                    waits = λ d m. elim (string_eq.dec e.callee_usr d) [
                      | yes same ↦ (u, e, lives, calls, ground arith, same)
                      | no ne ↦
                          h.waits d
                            (ground (arith, has_name-append d s.deferred (e.callee_usr ∷ [])))
                    ];
                  })
            | inr other ↦ rw (ignores, other) h
          ]
    ]

  for_edges-IsSound :
      (u : String) (es : List CallGraphEdge) (s : Sweep)
      → Alive u
      → ((i : ℕ) (e : CallGraphEdge) → get_elem? es i ≡ some e → Calls v optimistic u e)
      → IsSound s
      → IsSound (for_edges v optimistic es s)
  unfolding for_edges
  for_edges-IsSound u [] s lives calls h = h
  for_edges-IsSound u (e ∷ es) s lives calls h =
      for_edges-IsSound u es _ lives (λ i e' at. calls (suc i) e' at)
        (pursue-IsSound u e lives (calls 0 e refl) _
          (construct-IsSound u e lives (calls 0 e refl) s h))

  drain-IsSound : (fuel : ℕ) (s : Sweep) → IsSound s → IsSound (drain v optimistic fuel s)
  unfolding drain
  drain-IsSound zero s h = h
  drain-IsSound (suc fuel) s h = elim (List-cases s.queue) [
    | inl empty ↦ rw (empty, drain) h
    | inr (u, rest, e) ↦
        rw (e, drain)
          (drain-IsSound fuel _ (
            for_edges-IsSound u (v.callees_of u) (record s { queue = rest })
              (h.queued u (ground arith)) (λ i e' at. (i, at))
              (record {
                alive = h.alive;
                queued = λ x m. h.queued x (ground arith);
                made = h.made;
                waits = h.waits;
              })))
  ]

  recheck-IsSound :
      (ds : List String) (s : Sweep)
      → ((d : String) → has_name ds d ≡ true → Waits d)
      → IsSound s
      → IsSound (recheck v optimistic ds s)
  unfolding recheck
  recheck-IsSound [] s waiting h = h
  recheck-IsSound (d ∷ ds) s waiting h =
      let here : Waits d = waiting d (ground arith) in
      let later : (x : String) → has_name ds x ≡ true → Waits x =
        (λ x m. waiting x (ground arith)) in
      elim (Bool-cases (is_served v s.constructed d)) [
        | inr still ↦
            rw (still, recheck)
              (recheck-IsSound ds _ later (record {
                alive = h.alive;
                queued = h.queued;
                made = h.made;
                waits = λ x m. elim (string_eq.dec d x) [
                  | yes same ↦ subst Waits same here
                  | no ne ↦ h.waits x (ground (arith, has_name-append x s.deferred (d ∷ [])))
                ];
              }))
        | inl served ↦ elim (Bool-cases (has_name s.alive d)) [
          | inl known ↦ rw (served, known, recheck) (recheck-IsSound ds s later h)
          | inr new ↦
              let h' = mark-IsSound d s (serve s d h here served) h in
              rw (served, new, recheck)
                (recheck-IsSound ds _ later (record {
                  alive = λ x m. h'.alive x (ground arith);
                  queued = λ x m. h'.queued x (ground arith);
                  made = h.made;
                  waits = h.waits;
                }))
        ]
      ]

  round-IsSound : (fuel : ℕ) (s : Sweep) → IsSound s → IsSound (round v optimistic fuel s)
  unfolding round
  round-IsSound fuel s h =
      let s1 : Sweep = record s { changed = false } in
      let s2 = drain v optimistic fuel s1 in
      let h2 : IsSound s2 =
        drain-IsSound fuel s1
          (record { alive = h.alive; queued = h.queued; made = h.made; waits = h.waits }) in
      if_both IsSound (s2.changed && optimistic)
        (recheck-IsSound s2.deferred (record s2 { deferred = [] }) h2.waits
          (record {
            alive = h2.alive;
            queued = h2.queued;
            made = h2.made;
            waits = λ d m. absurd (ground arith);
          }))
        h2

  pub rounds-IsSound :
      (inner fuel : ℕ) (s : Sweep) → IsSound s → IsSound (rounds v optimistic inner fuel s)
  unfolding rounds
  rounds-IsSound inner zero s h = h
  rounds-IsSound inner (suc fuel) s h =
      let h' = round-IsSound inner s h in
      if_both IsSound (round v optimistic inner s).changed (rounds-IsSound inner fuel _ h') h'
