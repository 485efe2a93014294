-- ===== src/Liveness/Correct.antt =====
-- The walk as a whole.
use giga_drill_breaker.Common.{
  ℕ, zero, suc, ◌≤◌, ◌<◌, ◌≡◌, refl, inl, inr, String, Bool, true, false, ◌||◌, List, [], ◌∷◌, ◌++◌,
  arith, length, string_eq, has_name, has_name-insert_name, has_name-append, Bool-cases,
}
use giga_drill_breaker.Liveness.{
  GraphView, Sweep, mark, mark_all, mark_names, start_sweep, drain, round, rounds,
}
use giga_drill_breaker.Liveness.Ends.{
  IsBounded, missing, work, open_names, Shrinks-trans, mark-Shrinks, drain_ends, recheck-again,
}

module _ (v : GraphView) (optimistic : Bool) (usrs classes : List String)
    (bounded : IsBounded v usrs classes) where
  pub rounds_ends :
      (inner fuel : ℕ) (s : Sweep)
      → work v optimistic usrs classes bounded s ≤ inner
      → open_names v optimistic usrs classes bounded s < fuel
      → ((d : String) → has_name s.deferred d ≡ true → has_name usrs d ≡ true)
      → (rounds v optimistic inner fuel s).queue ≡ []
  unfolding rounds round
  rounds_ends inner zero s w h k = absurd (ground arith)
  rounds_ends inner (suc fuel) s w h k =
      let s1 : Sweep = record s { changed = false } in
      let (empty, p) = drain_ends v optimistic usrs classes bounded inner s1 w in
      let (q, stop) =
        recheck-again v optimistic usrs classes bounded (drain v optimistic inner s1) empty
          (p.kept k) in
      let all = Shrinks-trans v optimistic usrs classes bounded p q in
      elim (Bool-cases (round v optimistic inner s).changed) [
        | inl more ↦
            let next =
              rounds_ends inner fuel (round v optimistic inner s) (omega (arith, all.less_work))
                (ground (arith, all.less_total)) (all.kept k) in
            rw (more, rounds) next
        | inr still ↦ rw (still, rounds) (stop still)
      ]

-- The usrs that the names stand for.
abbrev pub root_usrs : GraphView → List String → List String
root_usrs v [] = []
root_usrs v (name ∷ names) = v.usrs_for_name name ++ root_usrs v names

alive-mark_all :
    (us : List String) (s : Sweep) (x : String)
    → has_name (mark_all us s).alive x ≡ (has_name s.alive x || has_name us x)
unfolding mark_all
alive-mark_all [] s x = ground arith
alive-mark_all (u ∷ us) s x =
    ground (arith, alive-mark_all us (mark u s) x, has_name-insert_name x u s.alive)

alive-mark_names :
    (v : GraphView) (names : List String) (s : Sweep) (x : String)
    → has_name (mark_names v names s).alive x
      ≡ (has_name s.alive x || has_name (root_usrs v names) x)
unfolding mark_names
alive-mark_names v [] s x = ground arith
alive-mark_names v (name ∷ names) s x = ground (
  arith,
  alive-mark_names v names (mark_all (v.usrs_for_name name) s) x,
  alive-mark_all (v.usrs_for_name name) s x,
  has_name-append x (v.usrs_for_name name) (root_usrs v names),
)

pub missing-nothing : (xs : List String) → missing [] xs ≡ length xs
missing-nothing [] = refl
missing-nothing (x ∷ xs) = omega (arith, missing-nothing xs)

module _ (v : GraphView) (optimistic : Bool) (usrs classes : List String)
    (bounded : IsBounded v usrs classes) where
  -- Nothing has been looked at yet.
  pub record IsFresh (s : Sweep) : Type 0 where
    pub same : (x : String) → has_name s.queue x ≡ has_name s.alive x
    pub deferred : s.deferred ≡ []
    pub constructed : s.constructed ≡ []
    pub room : work v optimistic usrs classes bounded s ≤ length usrs

  mark_all-IsFresh :
      (us : List String) (s : Sweep)
      → ((u : String) → has_name us u ≡ true → has_name usrs u ≡ true)
      → IsFresh s
      → IsFresh (mark_all us s)
  unfolding mark_all
  mark_all-IsFresh [] s h f = f
  mark_all-IsFresh (u ∷ us) s h f =
      mark_all-IsFresh us (mark u s) (λ x m. h x (ground arith))
        (record {
          same = λ x. ground (
            arith,
            f.same x,
            has_name-insert_name x u s.alive,
            has_name-append x s.queue (u ∷ []),
          );
          deferred = ground (arith, f.deferred);
          constructed = ground (arith, f.constructed);
          room = omega (
            arith,
            f.room,
            (mark-Shrinks v optimistic usrs classes bounded u s (h u (ground arith))).less_work,
          );
        })

  mark_names-IsFresh :
      (names : List String) (s : Sweep) → IsFresh s → IsFresh (mark_names v names s)
  unfolding mark_names
  mark_names-IsFresh [] s f = f
  mark_names-IsFresh (name ∷ names) s f =
      mark_names-IsFresh names _
        (mark_all-IsFresh (v.usrs_for_name name) s (bounded.of_name name) f)

  pub start_sweep-IsFresh :
      (entry_points public_api : List String) → IsFresh (start_sweep v entry_points public_api)
  unfolding start_sweep
  start_sweep-IsFresh entry_points public_api = mark_names-IsFresh public_api _ (
      mark_names-IsFresh entry_points _ (record {
        same = λ x. refl;
        deferred = refl;
        constructed = refl;
        room = omega (arith, missing-nothing usrs);
      }))

  pub alive-start_sweep :
      (entry_points public_api : List String) (x : String)
      → has_name (start_sweep v entry_points public_api).alive x
        ≡ has_name (root_usrs v entry_points ++ root_usrs v public_api) x
  unfolding start_sweep
  alive-start_sweep entry_points public_api x =
      let s0 : Sweep = record {
        alive = [];
        queue = [];
        constructed = [];
        deferred = [];
        changed = true;
      } in
      ground (
        arith,
        alive-mark_names v public_api (mark_names v entry_points s0) x,
        alive-mark_names v entry_points s0 x,
        has_name-append x (root_usrs v entry_points) (root_usrs v public_api),
      )
