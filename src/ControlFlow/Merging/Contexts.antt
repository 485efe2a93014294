-- ===== src/ControlFlow/Merging/Contexts.antt =====
-- The records of a shard under the ids and set numbers of the master.
use giga_drill_breaker.Common.{
  ℕ, zero, suc, ◌+◌, ◌≤◌, ◌<◌, ◌≡◌, refl, sym, ◌∙◌, some, none, List, [], ◌∷◌, map, arith, length,
  get_elem?, String, Bool-cases, Option-cases, inl, inr, ◌==◌, nat_eq, string_eq, if◌then◌else◌,
}
use giga_drill_breaker.Interner
use giga_drill_breaker.Interner.{Interner, id_limit, size, find, resolve}
use giga_drill_breaker.Interner.Laws.{IsDense, resolve_lem, resolve-lt-size}
use giga_drill_breaker.Interner.Growth.{Grows}
use giga_drill_breaker.Contexts.Keys.{All}
use giga_drill_breaker.Graph.Absorb.{intern_strings, remapped}
use giga_drill_breaker.Graph.Absorb.Contributed.{intern_strings-Grows, find-remapped}
use giga_drill_breaker.ControlFlow.Types.{StoredRaiiLocal, RaiiLocal, no_string}
use giga_drill_breaker.ControlFlow.Queries.{resolve_tu, resolve_local, resolve_locals}
use giga_drill_breaker.ControlFlow.Sets.Keys.{IsLocal}
use giga_drill_breaker.ControlFlow.Absorb.{remapped_local}

remapped_out :
    (ss : List String) (i : Interner) (k : ℕ)
    → get_elem? ss k ≡ none
    → remapped (intern_strings ss i).0 k ≡ 0
unfolding remapped intern_strings
remapped_out [] i k h = refl
remapped_out (s ∷ ss) i zero h = absurd (ground arith)
remapped_out (s ∷ ss) i (suc k) h = remapped_out ss (Interner.intern s i).1 k h

-- The master's interner with the strings of the shard.
module _ (shard i : Interner) (dense : IsDense i)
    (room : size i + length shard.strings ≤ no_string) where
  abbrev strings : List ℕ
  strings = (intern_strings shard.strings i).0

  abbrev merged : Interner
  merged = (intern_strings shard.strings i).1

  pub merged-Grows : Grows (length shard.strings) i merged
  merged-Grows = intern_strings-Grows shard.strings i dense (omega arith)

  pub resolve-remapped :
      (id : ℕ) (s : String)
      → resolve id shard ≡ some s
      → resolve (remapped strings id) merged ≡ some s
  resolve-remapped id s h =
      merged-Grows.dense.of_index s (remapped strings id)
        (find-remapped shard.strings i id s dense (omega arith) (sym (resolve_lem shard id) ∙ h))

  pub remapped-lt :
      (id : ℕ) (s : String) → resolve id shard ≡ some s → remapped strings id < no_string
  remapped-lt id s h = omega (
    arith,
    resolve-lt-size merged (remapped strings id) (resolve-remapped id s h),
    merged-Grows.bounded,
  )

  -- Also of an id that is out of range.
  remapped_fits : (id : ℕ) → remapped strings id < id_limit
  remapped_fits id = elim (Option-cases (resolve id shard)) [
    | inr (s, h) ↦ omega (arith, remapped-lt id s h)
    | inl out ↦ ground (arith, remapped_out shard.strings i id, resolve_lem shard id)
  ]

  pub moved_locals-IsLocal :
      (ls : List StoredRaiiLocal) → All IsLocal (map (remapped_local strings) ls)
  unfolding remapped_local
  moved_locals-IsLocal [] k x h = absurd (ground arith)
  moved_locals-IsLocal (l ∷ ls) zero x h =
      ground
        (arith, remapped_fits l.type_name, remapped_fits l.var_name, remapped_fits l.decl_location)
  moved_locals-IsLocal (l ∷ ls) (suc k) x h = moved_locals-IsLocal ls k x h

  resolve_local-remapped :
      (l : StoredRaiiLocal) (x : RaiiLocal)
      → resolve_local shard l ≡ some x
      → resolve_local merged (remapped_local strings l) ≡ some x
  unfolding resolve_local remapped_local
  resolve_local-remapped l x h = elim (Option-cases (resolve l.type_name shard)) [
    | inl a ↦ absurd (ground arith)
    | inr (t, a) ↦ elim (Option-cases (resolve l.var_name shard)) [
      | inl b ↦ absurd (ground arith)
      | inr (v, b) ↦ elim (Option-cases (resolve l.decl_location shard)) [
        | inl c ↦ absurd (ground arith)
        | inr (d, c) ↦ ground (
          arith,
          resolve-remapped l.type_name t a,
          resolve-remapped l.var_name v b,
          resolve-remapped l.decl_location d c,
        )
      ]
    ]
  ]

  pub resolve_locals-remapped :
      (ls : List StoredRaiiLocal) (xs : List RaiiLocal)
      → resolve_locals shard ls ≡ some xs
      → resolve_locals merged (map (remapped_local strings) ls) ≡ some xs
  unfolding resolve_locals
  resolve_locals-remapped [] xs h = h
  resolve_locals-remapped (l ∷ ls) xs h = elim (Option-cases (resolve_local shard l)) [
    | inl a ↦ absurd (ground arith)
    | inr (x, a) ↦ elim (Option-cases (resolve_locals shard ls)) [
      | inl b ↦ absurd (ground arith)
      | inr (rest, b) ↦
          ground (arith, resolve_local-remapped l x a, resolve_locals-remapped ls rest b)
    ]
  ]

  abbrev moved_tu : ℕ → ℕ
  moved_tu tu = if tu == no_string then no_string else remapped strings tu

  pub moved_tu_lem :
      (tu : ℕ) (s : String)
      → resolve_tu shard tu ≡ some s
      → (resolve_tu merged (moved_tu tu) ≡ some s)
        × ((moved_tu tu == no_string) ≡ (tu == no_string))
  unfolding resolve_tu
  moved_tu_lem tu s h = elim (Bool-cases (tu == no_string)) [
    | inl e ↦ (ground arith, ground arith)
    | inr e ↦
        let known : resolve tu shard ≡ some s = ground arith in
        let fits = remapped-lt tu s known in
        (ground (arith, fits, resolve-remapped tu s known), ground (arith, fits))
  ]
