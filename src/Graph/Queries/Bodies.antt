-- ===== src/Graph/Queries/Bodies.antt =====
-- The bodies of the six loops: which references each adds for one stored edge.
use giga_drill_breaker.Common.{
  ℕ, ◌≡◌, refl, inl, inr, List, [], ◌∷◌, Bool, true, false, not, ◌&&◌, arith, map, contains, ite,
  ℕ_discrete, nat_eq, Bool-cases,
}
use giga_drill_breaker.Common.Map
use giga_drill_breaker.Graph.Types.{StoredEdge, EdgeKind, function_pointer_return, virtual_dispatch}
use giga_drill_breaker.Graph.Relations.{Relations}
use giga_drill_breaker.Graph.Closure.{transitive_closure}
use giga_drill_breaker.Graph.Queries.{
  outgoing, incoming, ref_of, is_live, is_kind, is_expandable, is_deferred, joined_kind, stored_out,
  stored_in, dispatch_out, dispatch_in, deferred_out, deferred_in,
}
use giga_drill_breaker.Graph.Queries.Emission.{
  shows, IsBody, shows-put, put-IsFaithful, shows-emit, emit-IsFaithful, emit_all-IsFaithful,
  shows-emit_all,
}

abbrev pub is_stored : StoredEdge → Bool
is_stored se = is_live se && not (is_kind function_pointer_return se)

abbrev pub same : ℕ → ℕ → Bool
same a b = ite (ℕ_discrete a b) true false

shows-targets :
    (se : StoredEdge) (kind : EdgeKind) (xs : List ℕ) (a s : ℕ)
    → shows outgoing a s (map (λ x. ref_of se x kind) xs) ≡ (contains xs a && same se.call_site s)
unfolding ref_of
shows-targets se kind [] a s = refl
shows-targets se kind (x ∷ xs) a s = ground (arith, shows-targets se kind xs a s)

pub stored_out-IsBody :
    IsBody outgoing stored_out (λ a s se. is_stored se && (same se.callee a && same se.call_site s))
unfolding stored_out ref_of
stored_out-IsBody = record {
  keeps = λ se g ok. elim (Bool-cases (is_stored se)) [
    | inl shown ↦
        rw (shown, stored_out) (put-IsFaithful outgoing (ref_of se se.callee se.kind) g ok _)
    | inr hidden ↦ rw (hidden, stored_out) ok
  ];
  shown = λ se g a s ok. ground (
    arith,
    shows-put outgoing (ref_of se se.callee se.kind) g ok (is_kind virtual_dispatch se) a s,
  );
}

pub stored_in-IsBody :
    IsBody incoming stored_in (λ a s se. is_stored se && (same se.caller a && same se.call_site s))
unfolding stored_in ref_of
stored_in-IsBody = record {
  keeps = λ se g ok. elim (Bool-cases (is_stored se)) [
    | inl shown ↦
        rw (shown, stored_in) (put-IsFaithful incoming (ref_of se se.callee se.kind) g ok _)
    | inr hidden ↦ rw (hidden, stored_in) ok
  ];
  shown =
      λ se g a s ok. ground (arith, shows-put incoming (ref_of se se.callee se.kind) g ok true a s);
}

module _ (r : Relations) where
  pub dispatch_out-IsBody : IsBody outgoing (dispatch_out r) (λ a s se.
      is_expandable se
      && (contains (transitive_closure se.callee r.method_overrides) a && same se.call_site s))
  unfolding dispatch_out
  dispatch_out-IsBody = record {
    keeps = λ se g ok. elim (Bool-cases (is_expandable se)) [
      | inl shown ↦ rw (shown, dispatch_out) (emit_all-IsFaithful outgoing _ g ok)
      | inr hidden ↦ rw (hidden, dispatch_out) ok
    ];
    shown = λ se g a s ok.
        let xs = transitive_closure se.callee r.method_overrides in
        ground (
          arith,
          shows-emit_all outgoing (map (λ x. ref_of se x se.kind) xs) g a s ok,
          shows-targets se se.kind xs a s,
        );
  }

  pub deferred_out-IsBody : IsBody outgoing (deferred_out r) (λ a s se.
      is_deferred se
      && (contains (Map.get_list se.callee r.function_returns) a && same se.call_site s))
  unfolding deferred_out
  deferred_out-IsBody = record {
    keeps = λ se g ok. elim (Bool-cases (is_deferred se)) [
      | inl shown ↦ rw (shown, deferred_out) (emit_all-IsFaithful outgoing _ g ok)
      | inr hidden ↦ rw (hidden, deferred_out) ok
    ];
    shown = λ se g a s ok.
        let xs = Map.get_list se.callee r.function_returns in
        ground (
          arith,
          shows-emit_all outgoing (map (λ x. ref_of se x (joined_kind se)) xs) g a s ok,
          shows-targets se (joined_kind se) xs a s,
        );
  }

module _ (callee : ℕ) where
  pub dispatch_in-IsBody :
      IsBody incoming
        (dispatch_in callee)
        (λ a s se. is_expandable se && (same se.caller a && same se.call_site s))
  unfolding dispatch_in ref_of
  dispatch_in-IsBody = record {
    keeps = λ se g ok. elim (Bool-cases (is_expandable se)) [
      | inl shown ↦
          rw (shown, dispatch_in) (emit-IsFaithful incoming (ref_of se callee se.kind) g ok)
      | inr hidden ↦ rw (hidden, dispatch_in) ok
    ];
    shown = λ se g a s ok. ground (arith, shows-emit incoming (ref_of se callee se.kind) g ok a s);
  }

  pub deferred_in-IsBody :
      IsBody incoming
        (deferred_in callee)
        (λ a s se. is_deferred se && (same se.caller a && same se.call_site s))
  unfolding deferred_in ref_of
  deferred_in-IsBody = record {
    keeps = λ se g ok. elim (Bool-cases (is_deferred se)) [
      | inl shown ↦
          rw (shown, deferred_in)
            (emit-IsFaithful incoming (ref_of se callee (joined_kind se)) g ok)
      | inr hidden ↦ rw (hidden, deferred_in) ok
    ];
    shown = λ se g a s ok.
        ground (arith, shows-emit incoming (ref_of se callee (joined_kind se)) g ok a s);
  }
