-- ===== src/Liveness/Complete.antt =====
-- The deferred targets, and what is left to do, while edges are followed.
use giga_drill_breaker.Common.{
  ◌≡◌, refl, ◌⊎◌, inl, inr, String, Bool, true, false, ◌&&◌, List, [], ◌∷◌, arith, ◌==◌, string_eq,
  has_name, has_name-append, Bool-cases,
}
use giga_drill_breaker.Graph.Types.{CallGraphEdge, plausible, virtual_dispatch, constructor_call}
use giga_drill_breaker.Liveness.{
  GraphView, Sweep, is_of, is_sure, class_at, is_served, should_follow, construct, pursue,
  for_edges,
}
use giga_drill_breaker.Liveness.Lives.{Calls}
use giga_drill_breaker.Liveness.Handles.{IsDone}

module _ (v : GraphView) (optimistic : Bool) where
  -- The deferred targets are not served by what has been constructed.
  abbrev pub Quiet : Sweep → Type 0
  Quiet s = (d : String) → has_name s.deferred d ≡ true → is_served v s.constructed d ≡ false

  pub record IsClosing (s : Sweep) : Type 0 where
    pub done :
        (u : String)
        → has_name s.alive u ≡ true
        → (has_name s.queue u ≡ true)
          ⊎ ((e : CallGraphEdge) → Calls v optimistic u e → IsDone v optimistic e s)
    pub strict : optimistic ≡ false → (d : String) → has_name s.deferred d ≡ false

  -- In the middle of a pass, a change lifts the promise on deferred targets.
  abbrev pub Calm : Sweep → Type 0
  Calm s = s.changed ≡ false → Quiet s

  construct-Calm : (e : CallGraphEdge) (s : Sweep) → Calm s → Calm (construct v e s)
  construct-Calm e s h = elim (Bool-cases (is_of constructor_call e)) [
    | inr other ↦ rw other h
    | inl maker ↦ elim (Bool-cases (class_at v e.callee_usr == "")) [
      | inl free ↦ rw (maker, free) h
      | inr member ↦ elim (Bool-cases (has_name s.constructed (class_at v e.callee_usr))) [
        | inl known ↦ rw (maker, member, known) h
        | inr new ↦ rw (maker, member, new) (λ still. absurd (ground arith))
      ]
    ]
  ]

  pursue-Calm : (e : CallGraphEdge) (s : Sweep) → Calm s → Calm (pursue v optimistic e s)
  pursue-Calm e s h = elim (Bool-cases (should_follow v optimistic s.constructed e)) [
    | inl follows ↦ elim (Bool-cases (has_name s.alive e.callee_usr)) [
      | inl known ↦ rw (follows, known) h
      | inr new ↦ rw (follows, new) (λ still d m. h still d m)
    ]
    | inr ignores ↦
        elim (Bool-cases (optimistic && (is_of virtual_dispatch e && is_sure plausible e))) [
          | inl waiting ↦
              rw (ignores, waiting)
                (λ still d m. elim (string_eq.dec e.callee_usr d) [
                  | yes same ↦
                      let unserved : is_served v s.constructed e.callee_usr ≡ false =
                        ground arith in
                      rw⁻¹ same unserved
                  | no ne ↦
                      h still d (ground (arith, has_name-append d s.deferred (e.callee_usr ∷ [])))
                ])
          | inr other ↦ rw (ignores, other) h
        ]
  ]

  pub for_edges-Calm :
      (es : List CallGraphEdge) (s : Sweep) → Calm s → Calm (for_edges v optimistic es s)
  unfolding for_edges
  for_edges-Calm [] s h = h
  for_edges-Calm (e ∷ es) s h =
      for_edges-Calm es _ (pursue-Calm e (construct v e s) (construct-Calm e s h))

  pub for_edges-strict :
      (es : List CallGraphEdge) (s : Sweep)
      → optimistic ≡ false
      → (d : String) → has_name (for_edges v optimistic es s).deferred d ≡ has_name s.deferred d
  unfolding for_edges
  for_edges-strict [] s h d = refl
  for_edges-strict (e ∷ es) s h d =
      ground (arith, for_edges-strict es (pursue v optimistic e (construct v e s)) h d)
