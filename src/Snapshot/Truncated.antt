-- ===== src/Snapshot/Truncated.antt =====
-- src/callgraph/Snapshot.cpp: `readMeta` on a section that was cut off.
use giga_drill_breaker.Common.{
  ℕ, zero, suc, ◌≡◌, refl, sym, ap, ◌∙◌, ◌≢◌, true, false, List, [], ◌∷◌, ◌++◌, arith, length, ltb,
  inl, inr, Bool-cases,
}
use giga_drill_breaker.Contexts.{Bytes}
use giga_drill_breaker.Snapshot.{Reader, Read, reader, len_str}
use giga_drill_breaker.Snapshot.Meta.{
  SnapshotMeta, read_channel_type_spec, read_stamp, in_range, read_ids, read_row, read_rows,
  emit_meta, read_meta,
}
use giga_drill_breaker.Snapshot.Prefix.{
  IsLocal, pure-IsLocal, bind-IsLocal, u8-IsLocal, u32-IsLocal, u64-IsLocal, len_str-IsLocal,
  count-IsLocal, while_ok-IsLocal, read_list-IsLocal,
}
use giga_drill_breaker.Snapshot.Decoding.{FitsMeta, meta_lem}

stamp-IsLocal : IsLocal read_stamp
unfolding read_stamp
stamp-IsLocal =
    bind-IsLocal _ len_str-IsLocal
      λ p. bind-IsLocal _ u64-IsLocal λ t. bind-IsLocal _ u64-IsLocal λ n. pure-IsLocal _

spec-IsLocal : IsLocal read_channel_type_spec
unfolding read_channel_type_spec
spec-IsLocal = bind-IsLocal _ len_str-IsLocal λ n.
    bind-IsLocal _ (read_list-IsLocal len_str len_str-IsLocal) λ p.
      bind-IsLocal _ (read_list-IsLocal len_str len_str-IsLocal)
        λ c. bind-IsLocal _ len_str-IsLocal λ k. pure-IsLocal _

in_range-IsLocal : (deps id : ℕ) (m : Read (List ℕ)) → IsLocal m → IsLocal (in_range deps id m)
unfolding in_range
in_range-IsLocal deps id m p = record {
  sticks = λ r h. elim (Bool-cases (ltb id deps)) [
    | inl e ↦ p.sticks r (ground arith)
    | inr e ↦ absurd (ground arith)
  ];
  extends = λ r q h. elim (Bool-cases (ltb id deps)) [
    | inl e ↦ let g : (m r).1.ok ≡ true = ground arith in ground (arith, p.extends r q g)
    | inr e ↦ absurd (ground arith)
  ];
}

ids-IsLocal : (deps n : ℕ) → IsLocal (read_ids deps n)
unfolding read_ids
ids-IsLocal deps zero = pure-IsLocal []
ids-IsLocal deps (suc n) = while_ok-IsLocal (pure-IsLocal []) (
    bind-IsLocal _ u32-IsLocal λ id.
      in_range-IsLocal deps id _
        (bind-IsLocal _ (ids-IsLocal deps n) λ ids. pure-IsLocal (id ∷ ids)))

rows-IsLocal : (deps n : ℕ) → IsLocal (read_rows deps n)
unfolding read_rows read_row
rows-IsLocal deps zero = pure-IsLocal []
rows-IsLocal deps (suc n) =
    while_ok-IsLocal (bind-IsLocal _ (rows-IsLocal deps n) λ rows. pure-IsLocal ([] ∷ rows)) (
      bind-IsLocal _ (bind-IsLocal _ count-IsLocal (ids-IsLocal deps))
        λ ids. bind-IsLocal _ (rows-IsLocal deps n) λ rows. pure-IsLocal (ids ∷ rows))

meta-IsLocal : IsLocal read_meta
unfolding read_meta
meta-IsLocal = bind-IsLocal _ (read_list-IsLocal len_str len_str-IsLocal) λ a.
    bind-IsLocal _ (read_list-IsLocal len_str len_str-IsLocal) λ b. bind-IsLocal _ u8-IsLocal λ c.
      bind-IsLocal _ (read_list-IsLocal read_channel_type_spec spec-IsLocal) λ d.
        bind-IsLocal _ (read_list-IsLocal read_stamp stamp-IsLocal) λ f.
          bind-IsLocal _ (read_list-IsLocal len_str len_str-IsLocal) λ e.
            bind-IsLocal _ (read_list-IsLocal read_stamp stamp-IsLocal)
              λ g. bind-IsLocal _ (rows-IsLocal (length g) (length f)) λ rows. pure-IsLocal _

no_rest : (p q : Bytes) → p ++ q ≡ [] → q ≡ []
no_rest [] q h = h
no_rest (x ∷ p) q h = absurd (ground arith)

append_none : (s : Bytes) → s ++ [] ≡ s
append_none [] = refl
append_none (x ∷ s) = ap (λ t. x ∷ t) (append_none s)

-- From any proper prefix of what `emitMeta` wrote of meta data that fit, `readMeta` returns false.
pub read_meta-truncated :
    (m : SnapshotMeta) (p q : Bytes)
    → FitsMeta m
    → p ++ q ≡ emit_meta m
    → q ≢ []
    → (read_meta (reader p)).1.ok ≡ false
read_meta-truncated m p q h e n = elim (Bool-cases (read_meta (reader p)).1.ok) [
  | inr f ↦ f
  | inl t ↦
      let whole : read_meta (reader (p ++ q)) ≡ (m, reader []) =
        ap (λ s. read_meta (reader s)) (e ∙ sym (append_none (emit_meta m)))
        ∙ (meta_lem m h).gives [] in
      let same = sym (meta-IsLocal.extends (reader p) q t) ∙ whole in
      let left : (read_meta (reader p)).1.rest ++ q ≡ [] =
        ap (λ (x : SnapshotMeta × Reader). x.1.rest) same in
      absurd (n (no_rest _ q left))
]
