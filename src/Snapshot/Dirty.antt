-- ===== src/Snapshot/Dirty.antt =====
-- src/callgraph/Snapshot.cpp, `stampFiles` and `dirtyTUs`: which translation units a warm start has to
-- parse again. What the operating system says of a path, its modification time and size, is a parameter.
pub mod Clean
use giga_drill_breaker.Common.{
  ℕ, zero, suc, ◌+◌, ◌-◌, ◌%◌, Bool, true, false, not, ◌&&◌, Option, none, some, List, [], ◌∷◌, map,
  get_elem?, ◌==◌, nat_eq, if◌then◌else◌,
}
use giga_drill_breaker.Contexts.{Bytes}
use giga_drill_breaker.ControlFlow.Sets.{bytes_eq}
use giga_drill_breaker.Snapshot.Meta.{FileStamp, SnapshotMeta}

-- A file without a status keeps the zeros.
unfoldable pub stamp_file : (Bytes → Option (ℕ × ℕ)) → Bytes → FileStamp
stamp_file status path = elim (status path) [
  | none ↦ record { path = path; mtime_ns = 0; size = 0 }
  | some (mtime, size) ↦ record { path = path; mtime_ns = mtime; size = size }
]

unfoldable pub stamp_files : (Bytes → Option (ℕ × ℕ)) → List Bytes → List FileStamp
unfolding stamp_file
stamp_files status files = map (stamp_file status) files

abbrev pub ns_per_second : ℕ
ns_per_second = 1000000000

unfoldable pub same_parsed_version : FileStamp → FileStamp → Bool
same_parsed_version recorded now =
    recorded.size == now.size && recorded.mtime_ns == now.mtime_ns - now.mtime_ns % ns_per_second

-- `operator==` of FileStamp.
unfoldable pub stamp_eq : FileStamp → FileStamp → Bool
stamp_eq a b = a.path == b.path && (a.mtime_ns == b.mtime_ns && a.size == b.size)

-- `recorded`: the last index of a path, from `i` on.
unfoldable pub recorded_at : Bytes → ℕ → List FileStamp → Option ℕ
recorded_at path i [] = none
recorded_at path i (f ∷ files) = elim (recorded_at path (suc i) files) [
  | some j ↦ some j
  | none ↦ if f.path == path then some i else none
]

-- Each dependency against its stamp now.
unfoldable pub changed_deps : List FileStamp → List FileStamp → List Bool
unfolding same_parsed_version
changed_deps [] now = []
changed_deps (d ∷ deps) [] = []
changed_deps (d ∷ deps) (n ∷ now) = not (same_parsed_version d n) ∷ changed_deps deps now

unfoldable pub deps_changed : (Bytes → Option (ℕ × ℕ)) → List FileStamp → List Bool
unfolding changed_deps stamp_files
deps_changed status deps =
    changed_deps deps (stamp_files status (map (λ (d : FileStamp). d.path) deps))

abbrev pub is_changed : Option Bool → Bool
is_changed none = false
is_changed (some b) = b

unfoldable pub any_changed : List Bool → List ℕ → Bool
any_changed changed [] = false
any_changed changed (id ∷ ids) =
    if is_changed (get_elem? changed id) then true else any_changed changed ids

-- Why a unit is parsed again, if it is.
pub data Verdict : Type 0 where
  clean own_stamp dependency : Verdict

-- A unit whose stamp is the recorded one, by the row of its dependencies.
unfoldable pub by_deps : List Bool → Option (List ℕ) → Verdict
unfolding any_changed
by_deps changed none = clean
by_deps changed (some ids) = if any_changed changed ids then dependency else clean

unfoldable pub by_stamp : List Bool → SnapshotMeta → FileStamp → ℕ → Verdict
unfolding by_deps stamp_eq
by_stamp changed meta current j = elim (get_elem? meta.files j) [
  | none ↦ own_stamp
  | some f ↦ if stamp_eq f current then by_deps changed (get_elem? meta.tu_deps j) else own_stamp
]

unfoldable pub verdict : List Bool → SnapshotMeta → FileStamp → Verdict
unfolding by_stamp recorded_at
verdict changed meta current = elim (recorded_at current.path 0 meta.files) [
  | none ↦ own_stamp
  | some j ↦ by_stamp changed meta current j
]

abbrev pub is_dirty : Verdict → Bool
is_dirty clean = false
is_dirty own_stamp = true
is_dirty dependency = true

abbrev pub via_dependency : List Verdict → ℕ
via_dependency [] = 0
via_dependency (dependency ∷ vs) = suc (via_dependency vs)
via_dependency (clean ∷ vs) = via_dependency vs
via_dependency (own_stamp ∷ vs) = via_dependency vs

-- The flags of the units, and how many are set for a dependency.
unfoldable pub dirty_tus : (Bytes → Option (ℕ × ℕ)) → SnapshotMeta → List FileStamp → List Bool × ℕ
unfolding verdict deps_changed
dirty_tus status meta current =
    let vs = map (verdict (deps_changed status meta.deps) meta) current in
    (map is_dirty vs, via_dependency vs)
