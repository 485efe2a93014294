-- ===== src/Graph/Closure/Reachable.antt =====
-- The closure against reachability.
use giga_drill_breaker.Common.{
  ℕ, zero, suc, ◌≡◌, refl, subst, ◌≢◌, ◌↔◌, ◌⊎◌, inl, inr, true, false, List, ◌∷◌, arith, contains,
  List-cases, Bool-cases, nat_eq, none, Option-cases,
}
use giga_drill_breaker.Common.Map
use giga_drill_breaker.Graph.Closure.{
  Walk, Relation, visit_all, closure_loop, start_walk, closure_walk, transitive_closure,
}
use giga_drill_breaker.Graph.Closure.Visits.{visited-visit_all, stack-visit_all, result-visit_all}
use giga_drill_breaker.Graph.Closure.Termination.{closure_walk_ends}

-- One step of the relation.
abbrev pub Related : Relation → ℕ → ℕ → Type 0
Related relation a b = contains (Map.get_list a relation) b ≡ true

-- One step or more.
pub data Reach (relation : Relation) (a : ℕ) : ℕ → Type 0 where
  one : {b : ℕ} → Related relation a b → Reach relation a b
  more : {b c : ℕ} → Reach relation a b → Related relation b c → Reach relation a c

-- Nothing is reached from a value without an entry.
not-related : {relation : Relation} (a b : ℕ) → Map.find a relation ≡ none → ¬ Reach relation a b
unfolding Map.get_list
not-related a b missing (one r) = ground arith
not-related a b missing (more {b = mid} p r) = not-related a mid missing p

module _ (start : ℕ) (relation : Relation) where
  record IsWalking (w : Walk) : Type 0 where
    begun : contains w.visited start ≡ true
    seen : (x : ℕ) → contains w.visited x ≡ true → (x ≡ start) ⊎ (contains w.result x ≡ true)
    found : (x : ℕ) → contains w.result x ≡ true → contains w.visited x ≡ true
    queued : (x : ℕ) → contains w.stack x ≡ true → contains w.visited x ≡ true
    sound : (x : ℕ) → contains w.result x ≡ true → Reach relation start x
    proper : contains w.result start ≡ false
    closed :
        (x y : ℕ)
        → contains w.visited x ≡ true
        → Related relation x y
        → (contains w.stack x ≡ true) ⊎ (contains w.visited y ≡ true)

  IsWalking-start : IsWalking (start_walk start)
  unfolding start_walk
  IsWalking-start = record {
    begun = ground arith;
    seen = λ x h. ground arith;
    found = λ x h. cc;
    queued = λ x h. h;
    sound = λ x h. absurd (ground arith);
    proper = refl;
    closed = λ x y h r. inl h;
  }

  IsWalking-round :
      (w : Walk) (cur : ℕ) (rest : List ℕ)
      → w.stack ≡ cur ∷ rest
      → IsWalking w
      → IsWalking (visit_all (Map.get_list cur relation) (record w { stack = rest }))
  IsWalking-round w cur rest e h =
      let ts = Map.get_list cur relation in
      let w' = record w { stack = rest } in
      record {
        begun = ground (arith, h.begun, visited-visit_all ts w' start);
        seen = λ x m. ground (arith, h.seen x, visited-visit_all ts w' x, result-visit_all ts w' x);
        found =
            λ x m. ground (arith, h.found x, visited-visit_all ts w' x, result-visit_all ts w' x);
        queued =
            λ x m. ground (arith, h.queued x, visited-visit_all ts w' x, stack-visit_all ts w' x);
        sound = λ x m. elim (Bool-cases (contains w.result x)) [
          | inl old ↦ h.sound x old
          | inr new ↦
              let step : Related relation cur x = ground (arith, result-visit_all ts w' x) in
              elim (h.seen cur (h.queued cur (ground arith))) [
                | inl first ↦ one (subst (λ a. Related relation a x) first step)
                | inr later ↦ more (h.sound cur later) step
              ]
        ];
        proper = ground (arith, h.proper, h.begun, result-visit_all ts w' start);
        closed = λ x y m r. ground (
          arith,
          h.closed x y,
          visited-visit_all ts w' x,
          visited-visit_all ts w' y,
          stack-visit_all ts w' x,
        );
      }

  IsWalking-loop : (fuel : ℕ) (w : Walk) → IsWalking w → IsWalking (closure_loop fuel relation w)
  unfolding closure_loop
  IsWalking-loop zero w h = h
  IsWalking-loop (suc fuel) w h = elim (List-cases w.stack) [
    | inl empty ↦ rw (empty, closure_loop) h
    | inr (cur, rest, e) ↦
        rw (e, closure_loop) (IsWalking-loop fuel _ (IsWalking-round w cur rest e h))
  ]

  closure_walk-IsWalking : IsWalking (closure_walk start relation)
  unfolding closure_walk
  closure_walk-IsWalking = IsWalking-loop _ _ IsWalking-start

  complete :
      {x : ℕ} → Reach relation start x → contains (closure_walk start relation).visited x ≡ true
  complete (one {b} r) =
      let h = closure_walk-IsWalking in
      ground (arith, h.closed start b h.begun r, closure_walk_ends start relation)
  complete (more {b} {c} p r) =
      let h = closure_walk-IsWalking in
      ground (arith, h.closed b c (complete p) r, closure_walk_ends start relation)

  -- `transitiveClosure` returns exactly the ids that one step or more of the relation lead to,
  -- except the start itself.
  pub contains-transitive_closure :
      (x : ℕ)
      → (contains (transitive_closure start relation) x ≡ true)
        ↔ (Reach relation start x × (x ≢ start))
  unfolding transitive_closure
  contains-transitive_closure x = elim (Option-cases (Map.find start relation)) [
    | inl missing ↦ (λ m. absurd (ground arith), λ (r, _). absurd (not-related start x missing r))
    | inr (xs, there) ↦
        let h = closure_walk-IsWalking in
        (
          λ m.
              let m' : contains (closure_walk start relation).result x ≡ true = ground arith in
              (h.sound x m', λ e. ground (arith, h.proper)),
          λ (r, ne). ground (arith, h.seen x (complete r)),
        )
  ]
