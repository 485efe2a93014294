-- ===== src/Liveness/Lives.antt =====
-- What it means to be alive, apart from any order of the walk.
use giga_drill_breaker.Common.{
  ℕ, ◌≡◌, inl, inr, String, Bool, true, not, ◌&&◌, ◌||◌, some, List, [], ◌∷◌, arith, get_elem?,
  ◌==◌, string_eq, has_name, Bool-cases,
}
use giga_drill_breaker.Graph.Types.{CallGraphEdge, proven, virtual_dispatch, constructor_call}
use giga_drill_breaker.Liveness.{GraphView, is_of, is_sure, class_at, any_name, is_served}

module _ (v : GraphView) (optimistic : Bool) where
  -- The graph shows the edge `e` out of `u`.
  abbrev pub Calls : String → CallGraphEdge → Type 0
  Calls u e = (i : ℕ) × (get_elem? (v.callees_of u) i ≡ some e)

  -- Followed whatever has been constructed.
  abbrev pub is_plain : CallGraphEdge → Bool
  is_plain e = is_sure proven e || optimistic && not (is_of virtual_dispatch e)

  -- Followed once a class that serves its target is constructed.
  abbrev pub is_waiting : CallGraphEdge → Bool
  is_waiting e = optimistic && (is_of virtual_dispatch e && not (is_sure proven e))

  -- A call of a constructor of `c`.
  abbrev pub builds : String → CallGraphEdge → Bool
  builds c e =
      is_of constructor_call e
      && (class_at v e.callee_usr == c && not (class_at v e.callee_usr == ""))

  -- `usr` is an implementation that objects of class `c` use.
  abbrev pub serves : String → String → Bool
  serves c usr =
      has_name (v.get_classes_for_impl usr) c || not (class_at v usr == "") && class_at v usr == c

  -- The least set with the roots that is closed under the edges to follow.
  pub data Lives (roots : List String) : String → Type 0 where
    root : {u : String} → has_name roots u ≡ true → Lives roots u
    call :
        {u : String} (e : CallGraphEdge)
        → Lives roots u
        → Calls u e
        → is_plain e ≡ true
        → Lives roots e.callee_usr
    dispatch :
        {u w : String} (c : String) (e made : CallGraphEdge)
        → Lives roots u
        → Calls u e
        → is_waiting e ≡ true
        → Lives roots w
        → Calls w made
        → builds c made ≡ true
        → serves c e.callee_usr ≡ true
        → Lives roots e.callee_usr

any_name_sound :
    (set cs : List String)
    → any_name set cs ≡ true
    → (c : String) × (has_name set c ≡ true) × (has_name cs c ≡ true)
any_name_sound set [] h = absurd (ground arith)
any_name_sound set (c ∷ cs) h = elim (Bool-cases (has_name set c)) [
  | inl here ↦ (c, here, ground arith)
  | inr later ↦ let (d, p, q) = any_name_sound set cs (ground arith) in (d, p, ground arith)
]

any_name_complete :
    (set cs : List String) (c : String)
    → has_name set c ≡ true
    → has_name cs c ≡ true
    → any_name set cs ≡ true
any_name_complete set [] c p q = absurd (ground arith)
any_name_complete set (d ∷ cs) c p q = ground (arith, any_name_complete set cs c p)

-- The test of the code finds a constructed class that serves the target.
pub is_served_sound :
    (v : GraphView) (optimistic : Bool) (constructed : List String) (usr : String)
    → is_served v constructed usr ≡ true
    → (c : String) × (has_name constructed c ≡ true) × (serves v optimistic c usr ≡ true)
is_served_sound v optimistic constructed usr h =
    elim (Bool-cases (any_name constructed (v.get_classes_for_impl usr))) [
      | inl listed ↦
          let (c, p, q) = any_name_sound constructed (v.get_classes_for_impl usr) listed in
          (c, p, ground arith)
      | inr unlisted ↦ (class_at v usr, ground arith, ground arith)
    ]

pub is_served_complete :
    (v : GraphView) (optimistic : Bool) (constructed : List String) (usr c : String)
    → has_name constructed c ≡ true
    → serves v optimistic c usr ≡ true
    → is_served v constructed usr ≡ true
is_served_complete v optimistic constructed usr c p q =
    ground (arith, any_name_complete constructed (v.get_classes_for_impl usr) c p)
