-- ===== src/Liveness/Closing.antt =====
-- The rounds of the walk, and what is settled between them.
use giga_drill_breaker.Common.{
  ℕ, zero, suc, ◌≡◌, refl, inl, inr, String, Bool, true, false, ◌&&◌, ◌||◌, List, [], ◌∷◌, ◌++◌,
  arith, if◌then◌else◌, if_both, string_eq, has_name, has_name-append, Bool-cases, List-cases,
}
use giga_drill_breaker.Graph.Types.{CallGraphEdge}
use giga_drill_breaker.Liveness.{
  GraphView, Sweep, is_served, for_edges, drain, recheck, round, rounds,
}
use giga_drill_breaker.Liveness.Lives.{Calls, Lives, root, call, dispatch, is_served_complete}
use giga_drill_breaker.Liveness.Handles.{
  Beyond, Handled-Beyond, is_decided, for_edges-Beyond, for_edges-IsDone,
}
use giga_drill_breaker.Liveness.Complete.{IsClosing, Quiet, Calm, for_edges-Calm, for_edges-strict}

module _ (v : GraphView) (optimistic : Bool)
    (decided : (u : String) (e : CallGraphEdge)
      → Calls v optimistic u e
      → is_decided e ≡ true) where
  drain-IsClosing :
      (fuel : ℕ) (s : Sweep)
      → IsClosing v optimistic s
      → Calm v optimistic s
      → IsClosing v optimistic (drain v optimistic fuel s)
        × Calm v optimistic (drain v optimistic fuel s)
  unfolding drain
  drain-IsClosing zero s h calm = (h, calm)
  drain-IsClosing (suc fuel) s h calm = elim (List-cases s.queue) [
    | inl empty ↦ rw (empty, drain) (h, calm)
    | inr (u, rest, e) ↦
        let es = v.callees_of u in
        let s1 : Sweep = record s { queue = rest } in
        let b = for_edges-Beyond v optimistic es s1 in
        let all = for_edges-IsDone v optimistic es s1 (λ i f at. decided u f (i, at)) in
        rw (e, drain)
          (drain-IsClosing fuel (for_edges v optimistic es s1)
            (record {
              done = λ x m. elim (Bool-cases (has_name s.alive x)) [
                | inr new ↦ inl (ground (arith, b.fresh x m))
                | inl old ↦ elim (h.done x old) [
                  | inr handled ↦ inr (λ f calls. Handled-Beyond v optimistic f b (handled f calls))
                  | inl queued ↦ elim (string_eq.dec u x) [
                    | yes same ↦ inr (λ f calls.
                        let calls' : Calls v optimistic u f = rw same calls in
                        all calls'.0 f calls'.1)
                    | no ne ↦ inl (b.queue x (ground arith))
                  ]
                ]
              ];
              strict = λ p d. ground (arith, for_edges-strict v optimistic es s1 p d, h.strict p d);
            })
            (for_edges-Calm v optimistic es s1 calm))
  ]

  pub drain-Beyond-alive :
      (fuel : ℕ) (s : Sweep) (x : String)
      → has_name s.alive x ≡ true
      → has_name (drain v optimistic fuel s).alive x ≡ true
  unfolding drain
  drain-Beyond-alive zero s x h = h
  drain-Beyond-alive (suc fuel) s x h = elim (List-cases s.queue) [
    | inl empty ↦ rw (empty, drain) h
    | inr (u, rest, e) ↦
        let s1 : Sweep = record s { queue = rest } in
        rw (e, drain)
          (drain-Beyond-alive fuel _ x
            ((for_edges-Beyond v optimistic (v.callees_of u) s1).alive x h))
  ]

  -- What the second look at the deferred targets does.
  pub record IsRechecked (ds : List String) (s r : Sweep) : Type 0 where
    pub alive : (x : String) → has_name s.alive x ≡ true → has_name r.alive x ≡ true
    pub queue : (x : String) → has_name s.queue x ≡ true → has_name r.queue x ≡ true
    pub fresh :
        (x : String) → has_name r.alive x ≡ true → (has_name s.alive x || has_name r.queue x) ≡ true
    pub constructed : r.constructed ≡ s.constructed
    pub known :
        (x : String)
        → (has_name s.alive x || (has_name s.deferred x || has_name ds x)) ≡ true
        → (has_name r.alive x || has_name r.deferred x) ≡ true
    pub quiet : Quiet v optimistic r

  pub recheck-IsRechecked :
      (ds : List String) (s : Sweep)
      → Quiet v optimistic s
      → IsRechecked ds s (recheck v optimistic ds s)
  unfolding recheck
  recheck-IsRechecked [] s quiet = record {
    alive = λ x h. h;
    queue = λ x h. h;
    fresh = λ x h. ground arith;
    constructed = refl;
    known = λ x h. ground arith;
    quiet = quiet;
  }
  recheck-IsRechecked (d ∷ ds) s quiet = elim (Bool-cases (is_served v s.constructed d)) [
    | inr still ↦
        let s1 : Sweep = record s { deferred = s.deferred ++ d ∷ [] } in
        let r = recheck-IsRechecked ds s1 (λ x m. elim (string_eq.dec d x) [
          | yes same ↦ rw⁻¹ same still
          | no ne ↦ quiet x (ground (arith, has_name-append x s.deferred (d ∷ [])))
        ]) in
        rw (still, recheck)
          (record {
            alive = r.alive;
            queue = r.queue;
            fresh = r.fresh;
            constructed = r.constructed;
            known = λ x h. r.known x (ground (arith, has_name-append x s.deferred (d ∷ [])));
            quiet = r.quiet;
          })
    | inl served ↦ elim (Bool-cases (has_name s.alive d)) [
      | inl old ↦
          let r = recheck-IsRechecked ds s quiet in
          rw (served, old, recheck)
            (record {
              alive = r.alive;
              queue = r.queue;
              fresh = r.fresh;
              constructed = r.constructed;
              known = λ x h. r.known x (ground arith);
              quiet = r.quiet;
            })
      | inr new ↦
          let s1 : Sweep = record s {
            alive = s.alive ++ d ∷ [];
            queue = s.queue ++ d ∷ [];
            changed = true;
          } in
          let r = recheck-IsRechecked ds s1 quiet in
          rw (served, new, recheck)
            (record {
              alive = λ x h. r.alive x (ground (arith, has_name-append x s.alive (d ∷ [])));
              queue = λ x h. r.queue x (ground (arith, has_name-append x s.queue (d ∷ [])));
              fresh = λ x h. ground (
                arith,
                r.fresh x h,
                r.queue x,
                has_name-append x s.alive (d ∷ []),
                has_name-append x s.queue (d ∷ []),
              );
              constructed = r.constructed;
              known = λ x h. r.known x (ground (arith, has_name-append x s.alive (d ∷ [])));
              quiet = r.quiet;
            })
    ]
  ]

  -- What holds between rounds.
  pub record IsSettled (s : Sweep) : Type 0 where
    pub closing : IsClosing v optimistic s
    pub quiet : Quiet v optimistic s

  settle :
      (s2 : Sweep)
      → IsClosing v optimistic s2
      → Calm v optimistic s2
      → IsSettled (
          if s2.changed && optimistic
          then recheck v optimistic s2.deferred (record s2 { deferred = [] })
          else s2)
  settle s2 h calm = elim (Bool-cases (s2.changed && optimistic)) [
    | inr once ↦ rw once (record {
      closing = h;
      quiet = λ d m. elim (Bool-cases optimistic) [
        | inl opt ↦ calm (ground arith) d m
        | inr pess ↦ absurd (ground (arith, h.strict pess d))
      ];
    })
    | inl again ↦
        let s3 : Sweep = record s2 { deferred = [] } in
        let r = recheck-IsRechecked s2.deferred s3 (λ d m. absurd (ground arith)) in
        let b : Beyond s2 (recheck v optimistic s2.deferred s3) = record {
          alive = r.alive;
          constructed = λ c m. rw r.constructed m;
          queue = r.queue;
          fresh = r.fresh;
          known = λ x m. r.known x (ground arith);
        } in
        rw again (record {
          closing = record {
            done = λ x m. elim (Bool-cases (has_name s2.alive x)) [
              | inr new ↦ inl (ground (arith, r.fresh x m))
              | inl old ↦ elim (h.done x old) [
                | inl queued ↦ inl (r.queue x queued)
                | inr handled ↦ inr (λ f calls. Handled-Beyond v optimistic f b (handled f calls))
              ]
            ];
            strict = λ pess d. absurd (ground arith);
          };
          quiet = r.quiet;
        })
  ]

  round-IsSettled : (fuel : ℕ) (s : Sweep) → IsSettled s → IsSettled (round v optimistic fuel s)
  unfolding round
  round-IsSettled fuel s h =
      let s1 : Sweep = record s { changed = false } in
      let both =
        drain-IsClosing fuel s1
          (record {
            done = λ x m. elim (h.closing.done x m) [
              | inl queued ↦ inl queued
              | inr handled ↦ inr handled
            ];
            strict = h.closing.strict;
          })
          (λ still. h.quiet) in
      settle (drain v optimistic fuel s1) both.0 both.1

  pub rounds-IsSettled :
      (inner fuel : ℕ) (s : Sweep) → IsSettled s → IsSettled (rounds v optimistic inner fuel s)
  unfolding rounds
  rounds-IsSettled inner zero s h = h
  rounds-IsSettled inner (suc fuel) s h =
      let h' = round-IsSettled inner s h in
      if_both IsSettled (round v optimistic inner s).changed (rounds-IsSettled inner fuel _ h') h'

  -- A settled walk with nothing queued has marked everything that the marked roots lead to.
  pub Lives-marked :
      (roots : List String) (s : Sweep)
      → IsSettled s
      → s.queue ≡ []
      → ((u : String) → has_name roots u ≡ true → has_name s.alive u ≡ true)
      → {u : String} → Lives v optimistic roots u
      → has_name s.alive u ≡ true
  Lives-marked roots s h empty begun (root m) = begun _ m
  Lives-marked roots s h empty begun (call {u} e lives calls plain) =
      elim (h.closing.done u (Lives-marked roots s h empty begun lives)) [
        | inl queued ↦ absurd (ground arith)
        | inr handled ↦ (handled e calls).plain plain
      ]
  Lives-marked roots s h empty begun
        (dispatch {u} {w} c e made lives calls waiting lives' calls' builder serving) =
      elim (h.closing.done u (Lives-marked roots s h empty begun lives)) [
        | inl queued ↦ absurd (ground arith)
        | inr handled ↦ elim (h.closing.done w (Lives-marked roots s h empty begun lives')) [
          | inl queued ↦ absurd (ground arith)
          | inr handled' ↦
              let built = (handled' made calls').built c builder in
              let served =
                is_served_complete v optimistic s.constructed e.callee_usr c built serving in
              ground (arith, (handled e calls).waiting waiting, h.quiet e.callee_usr)
        ]
      ]
