-- ===== src/Snapshot/Dirty/Clean.antt =====
-- src/callgraph/Snapshot.cpp: what a translation unit is that `dirtyTUs` does not report.
use giga_drill_breaker.Common.{
  ℕ, ◌+◌, ◌%◌, zero, suc, ◌≡◌, refl, sym, ap, ◌∙◌, Bool, true, false, not, Option, none, some, List,
  [], ◌∷◌, map, get_elem?, nat_eq, arith, inl, inr, Bool-cases, Option-cases,
}
use giga_drill_breaker.Contexts.{Bytes}
use giga_drill_breaker.ControlFlow.Sets.{bytes_eq}
use giga_drill_breaker.Snapshot.Meta.{FileStamp, SnapshotMeta}
use giga_drill_breaker.Snapshot.Dirty.{
  stamp_file, stamp_files, same_parsed_version, stamp_eq, recorded_at, changed_deps, deps_changed,
  is_changed, any_changed, Verdict, clean, own_stamp, dependency, by_deps, by_stamp, verdict,
  is_dirty, dirty_tus,
}

-- The file is there with the recorded size, and was modified in the second that the stamp names; or it
-- has no status, and the stamp is that of such a file.
abbrev pub IsUnchanged : FileStamp → Option (ℕ × ℕ) → Type 0
IsUnchanged d none = (d.size ≡ 0) × (d.mtime_ns ≡ 0)
IsUnchanged d (some (mtime, size)) = (d.size ≡ size) × (d.mtime_ns + mtime % 1000000000 ≡ mtime)

-- The unit has a recorded stamp equal to its own, and no dependency of its row has changed.
pub record IsClean (status : Bytes → Option (ℕ × ℕ)) (meta : SnapshotMeta) (current : FileStamp)
    : Type 0 where
  pub at : ℕ
  pub recorded : get_elem? meta.files at ≡ some current
  pub deps :
      (ids : List ℕ) (k id : ℕ) (d : FileStamp)
      → get_elem? meta.tu_deps at ≡ some ids
      → get_elem? ids k ≡ some id
      → get_elem? meta.deps id ≡ some d
      → IsUnchanged d (status d.path)

stamp_eq_lem : (a b : FileStamp) → stamp_eq a b ≡ true → a ≡ b
unfolding stamp_eq
stamp_eq_lem a b h = ground arith

changed_lem :
    (status : Bytes → Option (ℕ × ℕ)) (deps : List FileStamp) (id : ℕ) (d : FileStamp)
    → get_elem? deps id ≡ some d
    → get_elem? (deps_changed status deps) id
      ≡ some (not (same_parsed_version d (stamp_file status d.path)))
unfolding deps_changed changed_deps stamp_files
changed_lem status [] id d h = absurd (ground arith)
changed_lem status (x ∷ deps) zero d h = ground arith
changed_lem status (x ∷ deps) (suc id) d h = changed_lem status deps id d h

any_changed_lem :
    (changed : List Bool) (ids : List ℕ) (k id : ℕ) (b : Bool)
    → any_changed changed ids ≡ false
    → get_elem? ids k ≡ some id
    → get_elem? changed id ≡ some b
    → b ≡ false
unfolding any_changed
any_changed_lem changed [] k id b h at e = absurd (ground arith)
any_changed_lem changed (x ∷ ids) zero id b h at e = elim (Bool-cases b) [
  | inl c ↦ absurd (ground arith)
  | inr c ↦ c
]
any_changed_lem changed (x ∷ ids) (suc k) id b h at e =
    elim (Bool-cases (is_changed (get_elem? changed x))) [
      | inl c ↦ absurd (ground arith)
      | inr c ↦ any_changed_lem changed ids k id b (ground arith) at e
    ]

by_deps_lem :
    (changed : List Bool) (ids : List ℕ)
    → by_deps changed (some ids) ≡ clean
    → any_changed changed ids ≡ false
unfolding by_deps
by_deps_lem changed ids h = elim (Bool-cases (any_changed changed ids)) [
  | inl c ↦ absurd (ground arith)
  | inr c ↦ c
]

by_stamp_lem :
    (changed : List Bool) (meta : SnapshotMeta) (current : FileStamp) (j : ℕ)
    → by_stamp changed meta current j ≡ clean
    → (get_elem? meta.files j ≡ some current) × (by_deps changed (get_elem? meta.tu_deps j) ≡ clean)
unfolding by_stamp
by_stamp_lem changed meta current j h = elim (Option-cases (get_elem? meta.files j)) [
  | inl e ↦ absurd (ground arith)
  | inr (f, e) ↦ elim (Bool-cases (stamp_eq f current)) [
    | inr c ↦ absurd (ground arith)
    | inl c ↦ (e ∙ ap some (stamp_eq_lem f current c), ground arith)
  ]
]

unchanged_lem :
    (status : Bytes → Option (ℕ × ℕ)) (d : FileStamp)
    → same_parsed_version d (stamp_file status d.path) ≡ true
    → IsUnchanged d (status d.path)
unfolding same_parsed_version stamp_file
unchanged_lem status d h = elim (Option-cases (status d.path)) [
  | inl e ↦ rw e (ground arith, ground arith)
  | inr ((mtime, size), e) ↦ rw e (ground arith, ground arith)
]

verdict_lem :
    (status : Bytes → Option (ℕ × ℕ)) (meta : SnapshotMeta) (current : FileStamp)
    → verdict (deps_changed status meta.deps) meta current ≡ clean
    → IsClean status meta current
unfolding verdict
verdict_lem status meta current h = elim (Option-cases (recorded_at current.path 0 meta.files)) [
  | inl e ↦ absurd (ground arith)
  | inr (j, e) ↦
      let clear : by_stamp (deps_changed status meta.deps) meta current j ≡ clean = ground arith in
      let (same, row) = by_stamp_lem (deps_changed status meta.deps) meta current j clear in
      record {
        at = j;
        recorded = same;
        deps = λ ids k id d here there is.
            let none_changed =
              by_deps_lem (deps_changed status meta.deps) ids
                (ap (by_deps (deps_changed status meta.deps)) (sym here) ∙ row) in
            let same_version =
              any_changed_lem (deps_changed status meta.deps) ids k id _ none_changed there
                (changed_lem status meta.deps id d is) in
            unchanged_lem status d (ground (arith, same_version));
      }
]

not_dirty : (v : Verdict) → is_dirty v ≡ false → v ≡ clean
not_dirty clean h = refl
not_dirty own_stamp h = absurd (ground arith)
not_dirty dependency h = absurd (ground arith)

clean_at :
    (status : Bytes → Option (ℕ × ℕ)) (meta : SnapshotMeta) (changed : List Bool)
    (current : List FileStamp) (i : ℕ) (f : FileStamp)
    → get_elem? current i ≡ some f
    → get_elem? (map is_dirty (map (verdict changed meta) current)) i ≡ some false
    → verdict changed meta f ≡ clean
clean_at status meta changed [] i f at h = absurd (ground arith)
clean_at status meta changed (x ∷ current) zero f at h =
    not_dirty (verdict changed meta f) (ground arith)
clean_at status meta changed (x ∷ current) (suc i) f at h =
    clean_at status meta changed current i f at h

-- A translation unit that `dirtyTUs` does not flag has a recorded stamp equal to its own. Each
-- recorded dependency of it either has a status, with the recorded size and a modification time
-- whose whole seconds are the recorded time, or has none and is recorded with size and time 0.
pub dirty_tus_lem :
    (status : Bytes → Option (ℕ × ℕ)) (meta : SnapshotMeta) (current : List FileStamp) (i : ℕ)
    (f : FileStamp)
    → get_elem? current i ≡ some f
    → get_elem? (dirty_tus status meta current).0 i ≡ some false
    → IsClean status meta f
unfolding dirty_tus
dirty_tus_lem status meta current i f at h =
    verdict_lem status meta f
      (clean_at status meta (deps_changed status meta.deps) current i f at h)
