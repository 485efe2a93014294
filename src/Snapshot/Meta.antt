-- ===== src/Snapshot/Meta.antt =====
-- src/callgraph/Snapshot.cpp, the meta section: what an index was baked from.
use giga_drill_breaker.Common.{
  ℕ, zero, suc, Bool, true, false, List, [], ◌∷◌, ◌++◌, length, ltb, if◌then◌else◌,
}
use giga_drill_breaker.Contexts.{Bytes}
use giga_drill_breaker.Snapshot.{
  Read, pure, while_ok, ◌>>=◌, failed, put_u8, put_u32, put_u64, put_len_str, u8, u32, u64, len_str,
  count, read_list, emit_list,
}

pub record ChannelTypeSpec : Type 0 where
  pub qualified_type_name : Bytes
  pub produce_methods : List Bytes
  pub consume_methods : List Bytes
  pub category : Bytes

pub record FileStamp : Type 0 where
  pub path : Bytes
  pub mtime_ns : ℕ
  pub size : ℕ

pub record SnapshotMeta : Type 0 where
  pub collapse_paths : List Bytes
  pub lock_allowlist : List Bytes
  pub lock_builtins : Bool
  pub channel_types : List ChannelTypeSpec
  pub files : List FileStamp
  pub deps : List FileStamp
  pub tu_deps : List (List ℕ)
  pub entry_points : List Bytes

unfoldable pub emit_channel_type_spec : ChannelTypeSpec → Bytes
unfolding put_len_str emit_list
emit_channel_type_spec spec =
    put_len_str spec.qualified_type_name
    ++ (emit_list put_len_str spec.produce_methods
        ++ (emit_list put_len_str spec.consume_methods ++ put_len_str spec.category))

unfoldable pub read_channel_type_spec : Read ChannelTypeSpec
unfolding len_str read_list
read_channel_type_spec = do
  name ← len_str
  produce ← read_list len_str
  consume ← read_list len_str
  category ← len_str
  pure (record {
    qualified_type_name = name;
    produce_methods = produce;
    consume_methods = consume;
    category = category;
  })

unfoldable pub emit_stamp : FileStamp → Bytes
unfolding put_len_str put_u64
emit_stamp f = put_len_str f.path ++ (put_u64 f.mtime_ns ++ put_u64 f.size)

unfoldable pub read_stamp : Read FileStamp
unfolding len_str u64
read_stamp = do
  path ← len_str
  mtime ← u64
  size ← u64
  pure (record { path = path; mtime_ns = mtime; size = size })

unfoldable pub put_flag : Bool → Bytes
unfolding put_u8
put_flag b = put_u8 (if b then 1 else 0)

unfoldable pub is_set : ℕ → Bool
is_set n = ltb 0 n

-- For each file, in order, the indices of its dependencies: none where `tuDeps` is shorter.
unfoldable pub emit_rows : List FileStamp → List (List ℕ) → Bytes
unfolding emit_list put_u32
emit_rows [] rows = []
emit_rows (f ∷ files) [] = emit_list put_u32 [] ++ emit_rows files []
emit_rows (f ∷ files) (ids ∷ rows) = emit_list put_u32 ids ++ emit_rows files rows

-- The test of an index: one out of range ends the loop and is not kept.
unfoldable pub in_range : ℕ → ℕ → Read (List ℕ) → Read (List ℕ)
in_range deps id next r = elim (ltb id deps) [ false ↦ ([], failed r) | true ↦ next r ]

-- The inner loop.
unfoldable pub read_ids : ℕ → ℕ → Read (List ℕ)
unfolding u32 in_range while_ok
read_ids deps zero = pure []
read_ids deps (suc m) =
    while_ok (pure []) (do id ← u32; in_range deps id (read_ids deps m >>= λ ids. pure (id ∷ ids)))

unfoldable pub read_row : ℕ → Read (List ℕ)
unfolding count read_ids
read_row deps = do m ← count; read_ids deps m

-- The outer loop: the rows after a failure stay as `resize` made them.
unfoldable pub read_rows : ℕ → ℕ → Read (List (List ℕ))
unfolding read_row while_ok
read_rows deps zero = pure []
read_rows deps (suc n) =
    while_ok (do rows ← read_rows deps n; pure ([] ∷ rows))
      (do ids ← read_row deps; rows ← read_rows deps n; pure (ids ∷ rows))

unfoldable pub emit_meta : SnapshotMeta → Bytes
unfolding emit_list put_len_str put_flag emit_channel_type_spec emit_stamp emit_rows
emit_meta meta =
    emit_list put_len_str meta.collapse_paths
    ++ (emit_list put_len_str meta.lock_allowlist
        ++ (put_flag meta.lock_builtins
            ++ (emit_list emit_channel_type_spec meta.channel_types
                ++ (emit_list emit_stamp meta.files
                    ++ (emit_list put_len_str meta.entry_points
                        ++ (emit_list emit_stamp meta.deps
                            ++ emit_rows meta.files meta.tu_deps))))))

-- What `readMeta` returns is the flag of the reader it leaves.
unfoldable pub read_meta : Read SnapshotMeta
unfolding read_list len_str u8 is_set read_channel_type_spec read_stamp read_rows
read_meta = do
  collapse ← read_list len_str
  allowlist ← read_list len_str
  builtins ← u8
  channels ← read_list read_channel_type_spec
  files ← read_list read_stamp
  entries ← read_list len_str
  deps ← read_list read_stamp
  rows ← read_rows (length deps) (length files)
  pure (record {
    collapse_paths = collapse;
    lock_allowlist = allowlist;
    lock_builtins = is_set builtins;
    channel_types = channels;
    files = files;
    deps = deps;
    tu_deps = rows;
    entry_points = entries;
  })
