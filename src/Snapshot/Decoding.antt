-- ===== src/Snapshot/Decoding.antt =====
-- src/callgraph/Snapshot.cpp: `readMeta` after `emitMeta`.
use giga_drill_breaker.Common.{
  ℕ, suc, ◌^◌, ◌<◌, ◌≡◌, refl, subst, Bool, true, false, List, [], ◌∷◌, ◌++◌, arith, length,
  if◌then◌else◌,
}
use giga_drill_breaker.Contexts.{Bytes}
use giga_drill_breaker.Contexts.Codes.{IsU32, IsText}
use giga_drill_breaker.Contexts.Keys.{All}
use giga_drill_breaker.Snapshot.{
  Read, reader, pure, ◌>>=◌, put_u32, put_len_str, put_bytes, u8, u32, len_str, read_list,
  emit_many, emit_list,
}
use giga_drill_breaker.Snapshot.Meta.{
  ChannelTypeSpec, FileStamp, SnapshotMeta, emit_channel_type_spec, read_channel_type_spec,
  emit_stamp, read_stamp, put_flag, is_set, emit_rows, in_range, read_ids, read_row, read_rows,
  emit_meta, read_meta,
}
use giga_drill_breaker.Snapshot.Laws.{
  Gives, Gives-bind, Gives-last, IsCodec, u8_lem, u32_lem, u64_lem, len_str_lem, count_lem,
  length-emit_many, read_list_lem,
}

-- A vector of texts that fits.
abbrev pub IsTexts : List Bytes → Type 0
IsTexts xs = IsU32 (length xs) × All IsText xs

pub record FitsStamp (f : FileStamp) : Type 0 where
  pub path : IsText f.path
  pub mtime : f.mtime_ns < 2 ^ 64
  pub size : f.size < 2 ^ 64

pub record FitsSpec (s : ChannelTypeSpec) : Type 0 where
  pub name : IsText s.qualified_type_name
  pub produce : IsTexts s.produce_methods
  pub consume : IsTexts s.consume_methods
  pub category : IsText s.category

-- A row of indices into `deps` dependencies.
abbrev pub FitsRow : ℕ → List ℕ → Type 0
FitsRow deps ids = IsU32 (length ids) × All (λ id. id < deps) ids

-- The lengths fit a uint32_t, the stamps a uint64_t, there is a row for each file and its indices are
-- those of dependencies.
pub record FitsMeta (m : SnapshotMeta) : Type 0 where
  pub collapse : IsTexts m.collapse_paths
  pub allowlist : IsTexts m.lock_allowlist
  pub channels : IsU32 (length m.channel_types) × All FitsSpec m.channel_types
  pub files : IsU32 (length m.files) × All FitsStamp m.files
  pub entries : IsTexts m.entry_points
  pub deps : IsU32 (length m.deps) × All FitsStamp m.deps
  pub row_count : length m.tu_deps ≡ length m.files
  pub rows : All (FitsRow (length m.deps)) m.tu_deps

str_codec : IsCodec put_len_str len_str IsText
unfolding put_len_str put_u32 put_bytes
str_codec = record { long = λ s. omega arith; decodes = len_str_lem }

texts_lem : (xs : List Bytes) → IsTexts xs → Gives (read_list len_str) (emit_list put_len_str xs) xs
texts_lem xs h = read_list_lem put_len_str len_str IsText str_codec xs h.0 h.1

stamp_codec : IsCodec emit_stamp read_stamp FitsStamp
unfolding emit_stamp read_stamp put_len_str put_u32 put_bytes
stamp_codec = record {
  long = λ f. omega arith;
  decodes = λ f h.
      Gives-bind _ (len_str_lem f.path h.path)
        (Gives-bind _ (u64_lem f.mtime_ns h.mtime) (Gives-last _ (u64_lem f.size h.size)));
}

spec_codec : IsCodec emit_channel_type_spec read_channel_type_spec FitsSpec
unfolding emit_channel_type_spec read_channel_type_spec put_len_str put_u32 put_bytes
spec_codec = record {
  long = λ s. omega arith;
  decodes = λ s h. Gives-bind _ (len_str_lem s.qualified_type_name h.name) (
      Gives-bind _ (texts_lem s.produce_methods h.produce) (
        Gives-bind _ (texts_lem s.consume_methods h.consume)
          (Gives-last _ (len_str_lem s.category h.category))));
}

flag_lem : (b : Bool) → Gives u8 (put_flag b) (if b then 1 else 0)
unfolding put_flag
flag_lem true = u8_lem 1 (omega arith)
flag_lem false = u8_lem 0 (omega arith)

is_set-flag : (b : Bool) → is_set (if b then 1 else 0) ≡ b
unfolding is_set
is_set-flag true = refl
is_set-flag false = refl

u32_codec : IsCodec put_u32 u32 IsU32
unfolding put_u32 put_bytes
u32_codec = record { long = λ n. omega arith; decodes = u32_lem }

in_range_lem :
    (deps id : ℕ) (m : Read (List ℕ)) (s : Bytes) (ids : List ℕ)
    → id < deps
    → Gives m s ids
    → Gives (in_range deps id m) s ids
unfolding in_range
in_range_lem deps id m s ids h g = record { gives = λ r. ground (arith, g.gives r) }

read_ids_lem :
    (deps : ℕ) (ids : List ℕ)
    → IsU32 deps
    → All (λ id. id < deps) ids
    → Gives (read_ids deps (length ids)) (emit_many put_u32 ids) ids
unfolding read_ids emit_many
read_ids_lem deps [] u h = record { gives = λ r. refl }
read_ids_lem deps (id ∷ ids) u h =
    let d =
      Gives-bind (λ i. in_range deps i (read_ids deps (length ids) >>= λ is. pure (i ∷ is)))
        (u32_lem id (let p : id < deps = h 0 id refl in omega arith))
        (in_range_lem deps id (read_ids deps (length ids) >>= λ is. pure (id ∷ is))
          (emit_many put_u32 ids) (id ∷ ids) (h 0 id refl)
          (Gives-last (λ is. id ∷ is) (read_ids_lem deps ids u λ i x at. h (suc i) x at))) in
    record { gives = d.gives }

read_row_lem :
    (deps : ℕ) (ids : List ℕ)
    → IsU32 deps
    → FitsRow deps ids
    → Gives (read_row deps) (emit_list put_u32 ids) ids
unfolding read_row emit_list
read_row_lem deps ids u h =
    count_lem (read_ids deps) (length ids) (emit_many put_u32 ids) ids h.0
      (length-emit_many put_u32 u32 IsU32 u32_codec ids) (read_ids_lem deps ids u h.1)

read_rows_lem :
    (deps : ℕ) (files : List FileStamp) (rows : List (List ℕ))
    → IsU32 deps
    → length rows ≡ length files
    → All (FitsRow deps) rows
    → Gives (read_rows deps (length files)) (emit_rows files rows) rows
unfolding read_rows emit_rows
read_rows_lem deps [] [] u n h = record { gives = λ r. refl }
read_rows_lem deps [] (ids ∷ rows) u n h = absurd (ground arith)
read_rows_lem deps (f ∷ files) [] u n h = absurd (ground arith)
read_rows_lem deps (f ∷ files) (ids ∷ rows) u n h =
    let d =
      Gives-bind (λ is. read_rows deps (length files) >>= λ rest. pure (is ∷ rest))
        (read_row_lem deps ids u (h 0 ids refl))
        (Gives-last (λ rest. ids ∷ rest)
          (read_rows_lem deps files rows u (omega arith) λ i x at. h (suc i) x at)) in
    record { gives = d.gives }

pub meta_lem : (m : SnapshotMeta) → FitsMeta m → Gives read_meta (emit_meta m) m
unfolding read_meta emit_meta
meta_lem m h =
    subst (λ b. Gives read_meta (emit_meta m) (record m { lock_builtins = b }))
      (is_set-flag m.lock_builtins)
      (Gives-bind _ (texts_lem m.collapse_paths h.collapse) (
        Gives-bind _ (texts_lem m.lock_allowlist h.allowlist) (
          Gives-bind _ (flag_lem m.lock_builtins) (
            Gives-bind _
              (read_list_lem emit_channel_type_spec read_channel_type_spec FitsSpec spec_codec
                m.channel_types h.channels.0 h.channels.1)
              (Gives-bind _
                (read_list_lem emit_stamp read_stamp FitsStamp stamp_codec m.files h.files.0
                  h.files.1)
                (Gives-bind _ (texts_lem m.entry_points h.entries) (
                  Gives-bind _
                    (read_list_lem emit_stamp read_stamp FitsStamp stamp_codec m.deps h.deps.0
                      h.deps.1)
                    (Gives-last _ (
                      read_rows_lem (length m.deps) m.files m.tu_deps h.deps.0 h.row_count
                        h.rows)))))))))

-- Where its lengths, stamps and indices fit and there is a row of dependencies for each file,
-- `readMeta` reads from what `emitMeta` wrote the same meta data and leaves the bytes after it.
pub read_meta-emit_meta :
    (m : SnapshotMeta) (r : Bytes)
    → FitsMeta m
    → read_meta (reader (emit_meta m ++ r)) ≡ (m, reader r)
read_meta-emit_meta m r h = (meta_lem m h).gives r
