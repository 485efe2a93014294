-- ===== src/Graph/Hierarchy/Descendants.antt =====
-- The walk down the hierarchy against reachability, and its fuel.
use giga_drill_breaker.Common.{
  ℕ, zero, suc, ◌+◌, ◌≤◌, ◌≡◌, refl, ◌↔◌, ◌⊎◌, inl, inr, true, false, ◌||◌, List, [], ◌∷◌, arith,
  length, contains, if◌then◌else◌, subst, length-append, contains-append, List-cases, Bool-cases,
  nat_eq,
}
use giga_drill_breaker.Common.Map
use giga_drill_breaker.Graph.Closure.{Relation, targets}
use giga_drill_breaker.Graph.Closure.Reachable.{Related, Reach, one, more}
use giga_drill_breaker.Graph.Hierarchy.{Descent, push_all, expand, descend, descent}

contains-push_all :
    (ds stack : List ℕ) (x : ℕ)
    → contains (push_all ds stack) x ≡ (contains ds x || contains stack x)
unfolding push_all
contains-push_all [] stack x = refl
contains-push_all (d ∷ ds) stack x = ground (arith, contains-push_all ds (d ∷ stack) x)

length-push_all : (ds stack : List ℕ) → length (push_all ds stack) ≡ length ds + length stack
unfolding push_all
length-push_all [] stack = omega arith
length-push_all (d ∷ ds) stack = omega (arith, length-push_all ds (d ∷ stack))

-- The pairs of the classes that are still to be expanded.
abbrev pending : List ℕ → Relation → ℕ
pending v [] = 0
pending v ((c, ds) ∷ relation) = (if contains v c then 0 else length ds) + pending v relation

pending-le :
    (v : List ℕ) (n : ℕ) (relation : Relation) → pending (n ∷ v) relation ≤ pending v relation
pending-le v n [] = omega arith
pending-le v n ((c, ds) ∷ relation) = ground (arith, pending-le v n relation)

pending-expanded :
    (v : List ℕ) (n : ℕ) (relation : Relation)
    → contains v n ≡ false
    → pending (n ∷ v) relation + length (Map.get_list n relation) ≤ pending v relation
unfolding Map.get_list Map.find
pending-expanded v n [] new = omega arith
pending-expanded v n ((c, ds) ∷ relation) new =
    ground (arith, pending-expanded v n relation, pending-le v n relation)

pending-start : (relation : Relation) → pending [] relation ≡ length (targets relation)
unfolding targets
pending-start [] = refl
pending-start ((c, ds) ∷ relation) =
    omega (arith, pending-start relation, length-append ds (targets relation))

descend_ends :
    (fuel : ℕ) (relation : Relation) (d : Descent)
    → pending d.visited relation + length d.stack ≤ fuel
    → (descend fuel relation d).stack ≡ []
unfolding descend expand
descend_ends zero relation d h = ground arith
descend_ends (suc fuel) relation d h = elim (List-cases d.stack) [
  | inl empty ↦ rw (empty, descend) empty
  | inr (cls, rest, e) ↦
      rw (e, descend)
        (descend_ends fuel relation _ (
          ground (
            arith,
            pending-expanded d.visited cls relation,
            length-push_all (Map.get_list cls relation) rest,
          )))
]

-- The loop of `getAllDerivedClasses` ends: within the fuel given, its stack is empty, whatever the
-- relation.
pub descent_ends : (base : ℕ) (relation : Relation) → (descent base relation).stack ≡ []
unfolding descent
descent_ends base relation = descend_ends _ relation _ (omega (arith, pending-start relation))

module _ (base : ℕ) (relation : Relation) where
  record IsDescending (d : Descent) : Type 0 where
    begun : (contains d.stack base ≡ true) ⊎ (contains d.visited base ≡ true)
    queued : (x : ℕ) → contains d.stack x ≡ true → (x ≡ base) ⊎ Reach relation base x
    found :
        (x : ℕ)
        → contains d.result x ≡ true
        → Reach relation base x × ((contains d.stack x ≡ true) ⊎ (contains d.visited x ≡ true))
    closed :
        (x y : ℕ) → contains d.visited x ≡ true → Related relation x y → contains d.result y ≡ true

  IsDescending-round :
      (d : Descent) (cls : ℕ) (rest : List ℕ)
      → d.stack ≡ cls ∷ rest
      → IsDescending d
      → IsDescending (expand relation cls (record d { stack = rest }))
  unfolding expand
  IsDescending-round d cls rest e h = elim (Bool-cases (contains d.visited cls)) [
    | inl known ↦
        rw (known, expand)
          (record {
            begun = ground (arith, h.begun);
            queued = λ x m. h.queued x (ground arith);
            found = λ x m. let (r, place) = h.found x m in (r, ground arith);
            closed = h.closed;
          })
    | inr new ↦
        let ds = Map.get_list cls relation in
        let step : (x : ℕ) → Related relation cls x → Reach relation base x = (λ x r.
          elim (h.queued cls (ground arith)) [
            | inl same ↦ one (subst (λ a. Related relation a x) same r)
            | inr reach ↦ more reach r
          ]) in
        rw (new, expand)
          (record {
            begun = ground (arith, h.begun, contains-push_all ds rest base);
            queued = λ x m. elim (Bool-cases (contains ds x)) [
              | inl below ↦ inr (step x below)
              | inr other ↦ h.queued x (ground (arith, contains-push_all ds rest x))
            ];
            found = λ x m. elim (Bool-cases (contains ds x)) [
              | inl below ↦ (step x below, ground (arith, contains-push_all ds rest x))
              | inr other ↦
                  let (r, place) = h.found x (ground (arith, contains-append x d.result ds)) in
                  (r, ground (arith, contains-push_all ds rest x))
            ];
            closed = λ x y m r. ground (arith, h.closed x y, contains-append y d.result ds);
          })
  ]

  IsDescending-loop :
      (fuel : ℕ) (d : Descent) → IsDescending d → IsDescending (descend fuel relation d)
  unfolding descend
  IsDescending-loop zero d h = h
  IsDescending-loop (suc fuel) d h = elim (List-cases d.stack) [
    | inl empty ↦ rw (empty, descend) h
    | inr (cls, rest, e) ↦
        rw (e, descend) (IsDescending-loop fuel _ (IsDescending-round d cls rest e h))
  ]

  descent-IsDescending : IsDescending (descent base relation)
  unfolding descent
  descent-IsDescending = IsDescending-loop _ _ (record {
    begun = inl (ground arith);
    queued = λ x m. inl (ground arith);
    found = λ x m. absurd (ground arith);
    closed = λ x y m r. absurd (ground arith);
  })

  complete : {x : ℕ} → Reach relation base x → contains (descent base relation).result x ≡ true
  complete (one {b} r) =
      let h = descent-IsDescending in
      h.closed base b (ground (arith, h.begun, descent_ends base relation)) r
  complete (more {b} {c} p r) =
      let h = descent-IsDescending in
      let (reach, place) = h.found b (complete p) in
      h.closed b c (ground (arith, descent_ends base relation)) r

  -- The walk of `getAllDerivedClasses` lists exactly the classes below the base, at any depth,
  -- cycles included.
  pub contains-descent :
      (x : ℕ) → (contains (descent base relation).result x ≡ true) ↔ Reach relation base x
  contains-descent x = (λ m. (descent-IsDescending.found x m).0, complete)
