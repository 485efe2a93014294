-- ===== src/Liveness/Verdict.antt =====
-- The functions that the analyzer finds alive.
use giga_drill_breaker.Common.{
  ℕ, zero, suc, ◌+◌, ◌≡◌, ◌↔◌, inl, String, Bool, true, false, ◌&&◌, some, List, [], ◌++◌, arith,
  length, get_elem?, if_both, string_eq, has_name,
}
use giga_drill_breaker.Graph.Types.{CallGraphEdge}
use giga_drill_breaker.Liveness.{GraphView, Sweep, start_sweep, drain, round, rounds, analyze}
use giga_drill_breaker.Liveness.Lives.{Calls, Lives, root, call, dispatch}
use giga_drill_breaker.Liveness.Handles.{is_decided}
use giga_drill_breaker.Liveness.Sound.{IsSound, rounds-IsSound}
use giga_drill_breaker.Liveness.Closing.{
  IsSettled, rounds-IsSettled, Lives-marked, drain-Beyond-alive, recheck-IsRechecked,
}
use giga_drill_breaker.Liveness.Ends.{IsBounded}
use giga_drill_breaker.Liveness.Correct.{
  rounds_ends, root_usrs, start_sweep-IsFresh, alive-start_sweep, missing-nothing,
}

-- Virtual dispatch comes with a proven or a plausible confidence.
abbrev pub IsDecided : GraphView → Type 0
IsDecided v =
    (u : String) (i : ℕ) (e : CallGraphEdge)
    → get_elem? (v.callees_of u) i ≡ some e
    → is_decided e ≡ true

-- The usrs of the entry points and of the public API.
abbrev pub roots : GraphView → List String → List String → List String
roots v entry_points public_api = root_usrs v entry_points ++ root_usrs v public_api

module _ (v : GraphView) (optimistic : Bool) (decided : IsDecided v) where
  round-alive :
      (fuel : ℕ) (s : Sweep) (x : String)
      → has_name s.alive x ≡ true
      → has_name (round v optimistic fuel s).alive x ≡ true
  unfolding round
  round-alive fuel s x h =
      let s2 = drain v optimistic fuel (record s { changed = false }) in
      let walk =
        λ (u : String) (e : CallGraphEdge) (c : Calls v optimistic u e). decided u c.0 e c.1 in
      let h2 : has_name s2.alive x ≡ true =
        drain-Beyond-alive v optimistic walk fuel (record s { changed = false }) x h in
      if_both (λ (r : Sweep). has_name r.alive x ≡ true) (s2.changed && optimistic)
        ((recheck-IsRechecked v optimistic walk s2.deferred (record s2 { deferred = [] })
            (λ d m. absurd (ground arith))).alive
          x h2)
        h2

  rounds-alive :
      (inner fuel : ℕ) (s : Sweep) (x : String)
      → has_name s.alive x ≡ true
      → has_name (rounds v optimistic inner fuel s).alive x ≡ true
  unfolding rounds
  rounds-alive inner zero s x h = h
  rounds-alive inner (suc fuel) s x h =
      let h' = round-alive inner s x h in
      if_both (λ (r : Sweep). has_name r.alive x ≡ true) (round v optimistic inner s).changed
        (rounds-alive inner fuel (round v optimistic inner s) x h') h'

  module _ (usrs classes : List String) (bounded : IsBounded v usrs classes)
      (entry_points public_api : List String) where
    pub analyze_ends : (analyze v usrs classes optimistic entry_points public_api).queue ≡ []
    unfolding analyze
    analyze_ends =
        let s = start_sweep v entry_points public_api in
        let f = start_sweep-IsFresh v optimistic usrs classes bounded entry_points public_api in
        rounds_ends v optimistic usrs classes bounded (length usrs)
          (suc (length usrs + length classes)) s f.room
          (ground (arith, f.room, f.constructed, missing-nothing classes))
          (λ d m. absurd (ground (arith, f.deferred)))

    -- Given that virtual dispatch is proven or plausible and the answers of the graph stay within
    -- given lists of usrs and classes, the walk marks exactly the least set of usrs that holds the
    -- entry points and the public API and is closed under proven edges and, if it is optimistic,
    -- under all edges but virtual dispatch and under dispatch to targets that a class constructed
    -- in the set serves.
    pub analyze_lem :
        (u : String)
        → (has_name (analyze v usrs classes optimistic entry_points public_api).alive u ≡ true)
          ↔ Lives v optimistic (roots v entry_points public_api) u
    unfolding analyze
    analyze_lem u =
        let s = start_sweep v entry_points public_api in
        let rs = roots v entry_points public_api in
        let f = start_sweep-IsFresh v optimistic usrs classes bounded entry_points public_api in
        let begun = alive-start_sweep v optimistic usrs classes bounded entry_points public_api in
        let walk =
          λ (w : String) (e : CallGraphEdge) (c : Calls v optimistic w e). decided w c.0 e c.1 in
        let sound : IsSound v optimistic rs s = record {
          alive = λ x m. root (ground (arith, begun x));
          queued = λ x m. root (ground (arith, begun x, f.same x));
          made = λ c m. absurd (ground (arith, f.constructed));
          waits = λ d m. absurd (ground (arith, f.deferred));
        } in
        let settled : IsSettled v optimistic walk s = record {
          closing = record {
            done = λ x m. inl (ground (arith, f.same x));
            strict = λ p d. ground (arith, f.deferred);
          };
          quiet = λ d m. absurd (ground (arith, f.deferred));
        } in
        let end = rounds v optimistic (length usrs) (suc (length usrs + length classes)) s in
        (
          (rounds-IsSound v optimistic rs (length usrs) (suc (length usrs + length classes)) s
                sound).alive
              u,
          Lives-marked v optimistic walk rs end
              (rounds-IsSettled v optimistic walk (length usrs) (suc (length usrs + length classes))
                s settled)
              analyze_ends
              (λ x m.
                rounds-alive (length usrs) (suc (length usrs + length classes)) s x
                  (ground (arith, begun x))),
        )

-- What is alive on proven edges is alive.
Lives-optimistic :
    (v : GraphView) (roots : List String) {u : String}
    → Lives v false roots u
    → Lives v true roots u
Lives-optimistic v roots (root m) = root m
Lives-optimistic v roots (call e lives calls plain) =
    call e (Lives-optimistic v roots lives) calls (ground arith)
Lives-optimistic v roots (dispatch c e made lives calls waiting lives' calls' builder serving) =
    absurd (ground arith)

-- Given that virtual dispatch is proven or plausible and the answers of the graph stay within
-- given lists of usrs and classes, every usr that the pessimistic walk marks is marked by the
-- optimistic one.
pub analyze_monotone :
    (v : GraphView) (usrs classes entry_points public_api : List String) (u : String)
    → IsDecided v
    → IsBounded v usrs classes
    → has_name (analyze v usrs classes false entry_points public_api).alive u ≡ true
    → has_name (analyze v usrs classes true entry_points public_api).alive u ≡ true
analyze_monotone v usrs classes entry_points public_api u decided bounded h =
    (analyze_lem v true decided usrs classes bounded entry_points public_api u).1 (
      Lives-optimistic v _
        ((analyze_lem v false decided usrs classes bounded entry_points public_api u).0 h))
