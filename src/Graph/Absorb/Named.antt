-- ===== src/Graph/Absorb/Named.antt =====
-- The merged edges by the names of what calls what, whatever ids these names have on either side.
use giga_drill_breaker.Common.{
  ℕ, zero, suc, ◌+◌, ◌<◌, ◌≤◌, ◌≡◌, refl, ite, String, Bool, false, ◌&&◌, some, none, List, [], ◌∷◌,
  arith, length, get_elem?, ◌==◌, nat_eq, string_eq, if◌then◌else◌,
}
use giga_drill_breaker.Interner
use giga_drill_breaker.Interner.{Interner, id_limit}
use giga_drill_breaker.Graph.Types.{
  StoredEdge, EdgeKey, key_of, edge_key_eq, kind_code, confidence_code, context_code,
}
use giga_drill_breaker.Graph.Edges.{refs_limit}
use giga_drill_breaker.Graph.Edges.Consistent.{refs_of}
use giga_drill_breaker.Graph.State.{CallGraph}
use giga_drill_breaker.Graph.State.WellFormed.{IsWellFormed, HasIds}
use giga_drill_breaker.Graph.Absorb.{remapped, remapped_edge, absorb}
use giga_drill_breaker.Graph.Absorb.Registered.{brought, CanAbsorb}
use giga_drill_breaker.Graph.Absorb.Contributed.{find-remapped}
use giga_drill_breaker.Graph.Absorb.Preserved.{remap_of, strings_of, absorb-Grows, refs_brought}

-- The text at an id is this one.
abbrev pub is_name : List String → ℕ → String → Bool
is_name names id s = elim (get_elem? names id) [ none ↦ false | some t ↦ t == s ]

-- An edge between functions of these names, at this call site, of the kind that the key gives.
abbrev pub is_call : List String → String → String → String → EdgeKey → StoredEdge → Bool
is_call names caller callee site k e =
    is_name names e.caller caller
    && (is_name names e.callee callee
        && (is_name names e.call_site site
            && (kind_code e.kind == k.kind
                && (confidence_code e.confidence == k.confidence
                    && (context_code e.exec_context == k.exec_context
                        && e.indirection_depth == k.indirection_depth)))))

-- The registrations that a graph's edges hold of such a call.
abbrev pub held : List String → String → String → String → EdgeKey → List StoredEdge → ℕ
held names caller callee site k [] = 0
held names caller callee site k (e ∷ es) =
    (if is_call names caller callee site k e then e.refs else 0)
    + held names caller callee site k es

abbrev pub total_refs : List StoredEdge → ℕ
total_refs [] = 0
total_refs (e ∷ es) = e.refs + total_refs es

-- The ids of each edge are ids of the graph's strings.
abbrev pub NamesStrings : CallGraph → Type 0
NamesStrings g =
    (i : ℕ) (e : StoredEdge)
    → get_elem? g.edges.edges i ≡ some e
    → (e.caller < length g.interner.strings)
      × (e.callee < length g.interner.strings)
      × (e.call_site < length g.interner.strings)

brought-le-total_refs :
    (remap : List ℕ) (k : EdgeKey) (es : List StoredEdge) → brought remap k es ≤ total_refs es
brought-le-total_refs remap k [] = omega arith
brought-le-total_refs remap k (e ∷ es) = ground (arith, brought-le-total_refs remap k es)

key_match :
    (e : StoredEdge) (k : EdgeKey) (n : ℕ)
    → ite (edge_key_eq.dec (key_of e) k) n 0 ≡ (
        if e.caller == k.caller
          && (e.callee == k.callee
              && (e.call_site == k.call_site
                  && (kind_code e.kind == k.kind
                      && (confidence_code e.confidence == k.confidence
                          && (context_code e.exec_context == k.exec_context
                              && e.indirection_depth == k.indirection_depth)))))
        then n
        else 0)
unfolding key_of
key_match e k n = ground arith

present :
    (names : List String) (id : ℕ)
    → id < length names
    → (s : String) × (get_elem? names id ≡ some s)
present [] id h = absurd (omega arith)
present (s ∷ names) zero h = (s, refl)
present (s ∷ names) (suc id) h = present names id (omega arith)

module _ (shard g : CallGraph) (ok : IsWellFormed g) (ids : HasIds (strings_of shard) g) where
  -- A string of the shard is the one that the master then finds under the remapped id.
  id_match :
      (id : ℕ) (s : String) (k : ℕ)
      → id < length shard.interner.strings
      → Interner.find s (absorb shard g).interner ≡ some k
      → (remapped (remap_of shard g) id == k) ≡ is_name shard.interner.strings id s
  id_match id s k lt known =
      let (t, at) = present shard.interner.strings id lt in
      let grown = (absorb-Grows shard g ok ids).0 in
      let there =
        grown.stable t _
          (find-remapped shard.interner.strings g.interner id t ok.dense (omega arith) at) in
      elim (string_eq.dec t s) [
        | yes same ↦ ground arith
        | no ne ↦ ground (
          arith,
          grown.dense.of_index t (remapped (remap_of shard g) id) there,
          grown.dense.of_index s k known,
        )
      ]

  brought-held :
      (caller callee site : String) (k : EdgeKey) (es : List StoredEdge)
      → Interner.find caller (absorb shard g).interner ≡ some k.caller
      → Interner.find callee (absorb shard g).interner ≡ some k.callee
      → Interner.find site (absorb shard g).interner ≡ some k.call_site
      → ((i : ℕ) (e : StoredEdge)
          → get_elem? es i ≡ some e
          → (e.caller < length shard.interner.strings)
            × (e.callee < length shard.interner.strings)
            × (e.call_site < length shard.interner.strings))
      → brought (remap_of shard g) k es ≡ held shard.interner.strings caller callee site k es
  unfolding remapped_edge
  brought-held caller callee site k [] p q r inside = refl
  brought-held caller callee site k (e ∷ es) p q r inside =
      let (a, b, c) = inside 0 e refl in
      let rest = brought-held caller callee site k es p q r (λ i x at. inside (suc i) x at) in
      let here = key_match (remapped_edge (remap_of shard g) e) k e.refs in
      cc (
        rest,
        here,
        id_match e.caller caller k.caller a p,
        id_match e.callee callee k.callee b q,
        id_match e.call_site site k.call_site c r,
      )

  -- In a well-formed graph with ids left for the strings and nodes of the shard and room for its
  -- registrations, and for a shard whose edges name its strings, `absorb` adds to the
  -- registrations of a call those that the shard holds of the call between functions of the same
  -- names, at the same site and of the same kind.
  pub refs_of-absorb :
      (caller callee site : String) (k : EdgeKey)
      → NamesStrings shard
      → ((k : EdgeKey) → refs_of k g.edges + total_refs shard.edges.edges < refs_limit)
      → Interner.find caller (absorb shard g).interner ≡ some k.caller
      → Interner.find callee (absorb shard g).interner ≡ some k.callee
      → Interner.find site (absorb shard g).interner ≡ some k.call_site
      → refs_of k (absorb shard g).edges
        ≡ refs_of k g.edges + held shard.interner.strings caller callee site k shard.edges.edges
  refs_of-absorb caller callee site k inside room p q r =
      let fits : CanAbsorb (remap_of shard g) shard.edges.edges g.edges =
        λ k. omega (arith, room k, brought-le-total_refs (remap_of shard g) k shard.edges.edges) in
      let h = brought-held caller callee site k shard.edges.edges p q r inside in
      omega (arith, refs_brought shard g ok fits k, h)
