-- ===== src/Snapshot/Tests.antt =====
-- Runs of the codec on the meta data of an index of one file with one header.
use giga_drill_breaker.Common.{
  ℕ, zero, suc, ◌+◌, ◌^◌, ◌<◌, ◌≡◌, refl, true, false, List, [], ◌∷◌, ◌++◌, ◌≤◌, arith, length,
  some, none, Option, map, get_elem?, ℕ_discrete,
}
use giga_drill_breaker.Contexts.{Bytes}
use giga_drill_breaker.Contexts.Codes.{IsText}
use giga_drill_breaker.Contexts.Keys.{All}
use giga_drill_breaker.Snapshot.{reader, chunk, cut, put_u32, u32, ◌>>=◌, read_list, len_str}
use giga_drill_breaker.Snapshot.Meta.{
  ChannelTypeSpec, FileStamp, SnapshotMeta, emit_meta, read_meta,
}
use giga_drill_breaker.ControlFlow.Sets.{bytes_eq}
use giga_drill_breaker.Snapshot.File.{
  IndexSummary, Range, magic, header_bytes, emit_table, emit_file, load_header, begin_section,
}
use giga_drill_breaker.Snapshot.Saved.{ranges_of, load_header-emit_file}
use giga_drill_breaker.Snapshot.Sections.{load_header_lem}
use giga_drill_breaker.Snapshot.Dirty.{dirty_tus}
use giga_drill_breaker.Snapshot.Dirty.Clean.{IsClean, dirty_tus_lem}
use giga_drill_breaker.Snapshot.Decoding.{
  FitsStamp, FitsSpec, FitsRow, FitsMeta, read_meta-emit_meta,
}
use giga_drill_breaker.Snapshot.Truncated.{read_meta-truncated}

abbrev source : FileStamp
source = record { path = 97 ∷ []; mtime_ns = 7; size = 300 }

abbrev header : FileStamp
header = record { path = 104 ∷ []; mtime_ns = 5; size = 20 }

abbrev queue : ChannelTypeSpec
queue = record {
  qualified_type_name = 81 ∷ [];
  produce_methods = (112 ∷ []) ∷ [];
  consume_methods = [];
  category = [];
}

abbrev small : SnapshotMeta
small = record {
  collapse_paths = [];
  lock_allowlist = [];
  lock_builtins = true;
  channel_types = queue ∷ [];
  files = source ∷ [];
  deps = header ∷ [];
  tu_deps = (0 ∷ []) ∷ [];
  entry_points = [];
}

-- The bytes of a number come with the lowest first.
put_u32_run : put_u32 (2 ^ 24 + 258) ≡ 2 ∷ 1 ∷ 0 ∷ 1 ∷ []
unfolding put_u32
put_u32_run = refl

-- Three bytes are no number: the reader keeps them and fails.
u32_run : u32 (reader (1 ∷ 2 ∷ 3 ∷ [])) ≡ (0, record { rest = 1 ∷ 2 ∷ 3 ∷ []; ok = false })
unfolding u32
u32_run = refl

-- A count of more elements than there are bytes is refused before any is read.
read_list_run :
    read_list len_str (reader (9 ∷ 0 ∷ 0 ∷ 0 ∷ 1 ∷ [])) ≡ ([], record { rest = 1 ∷ []; ok = false })
unfolding read_list ◌>>=◌
read_list_run = refl

-- An index without its dependency makes the meta data corrupt.
unknown_dependency :
    (read_meta (reader (emit_meta (record small { tu_deps = (1 ∷ []) ∷ [] })))).1.ok ≡ false
unfolding read_meta emit_meta ◌>>=◌
unknown_dependency = refl

All-empty : {A : Type 0} (P : A → Type 0) → All P []
All-empty P i x h = absurd (ground arith)

All-single : {A : Type 0} (P : A → Type 0) (a : A) → P a → All P (a ∷ [])
All-single P a p zero x h = ground arith
All-single P a p (suc i) x h = absurd (ground arith)

small_fits : FitsMeta small
small_fits = record {
  collapse = (omega arith, All-empty IsText);
  allowlist = (omega arith, All-empty IsText);
  channels = (
    omega arith,
    All-single FitsSpec queue (record {
      name = omega arith;
      produce = (omega arith, All-single IsText (112 ∷ []) (omega arith));
      consume = (omega arith, All-empty IsText);
      category = omega arith;
    }),
  );
  files = (
    omega arith,
    All-single FitsStamp source
        (record { path = omega arith; mtime = omega arith; size = omega arith }),
  );
  entries = (omega arith, All-empty IsText);
  deps = (
    omega arith,
    All-single FitsStamp header
        (record { path = omega arith; mtime = omega arith; size = omega arith }),
  );
  row_count = refl;
  rows = All-single (FitsRow 1) (0 ∷ []) (omega arith, All-single (λ id. id < 1) 0 (omega arith));
}

read_meta-emit_meta_example :
    read_meta (reader (emit_meta small ++ 42 ∷ [])) ≡ (small, reader (42 ∷ []))
read_meta-emit_meta_example = read_meta-emit_meta small (42 ∷ []) small_fits

-- All bytes of the meta data but the last, a zero.
abbrev cut_off : Bytes
cut_off =
    0 ∷ 0 ∷ 0 ∷ 0 ∷ 0 ∷ 0 ∷ 0 ∷ 0 ∷ 1 ∷ 1 ∷ 0 ∷ 0 ∷ 0 ∷ 1 ∷ 0 ∷ 0 ∷ 0 ∷ 81 ∷ 1 ∷ 0 ∷ 0 ∷ 0 ∷ 1 ∷ 0
    ∷ 0 ∷ 0 ∷ 112 ∷ 0 ∷ 0 ∷ 0 ∷ 0 ∷ 0 ∷ 0 ∷ 0 ∷ 0 ∷ 1 ∷ 0 ∷ 0 ∷ 0 ∷ 1 ∷ 0 ∷ 0 ∷ 0 ∷ 97 ∷ 7 ∷ 0 ∷ 0
    ∷ 0 ∷ 0 ∷ 0 ∷ 0 ∷ 0 ∷ 44 ∷ 1 ∷ 0 ∷ 0 ∷ 0 ∷ 0 ∷ 0 ∷ 0 ∷ 0 ∷ 0 ∷ 0 ∷ 0 ∷ 1 ∷ 0 ∷ 0 ∷ 0 ∷ 1 ∷ 0 ∷ 0
    ∷ 0 ∷ 104 ∷ 5 ∷ 0 ∷ 0 ∷ 0 ∷ 0 ∷ 0 ∷ 0 ∷ 0 ∷ 20 ∷ 0 ∷ 0 ∷ 0 ∷ 0 ∷ 0 ∷ 0 ∷ 0 ∷ 1 ∷ 0 ∷ 0 ∷ 0 ∷ 0
    ∷ 0 ∷ 0 ∷ []

cut_off-rest : cut_off ++ 0 ∷ [] ≡ emit_meta small
unfolding emit_meta
cut_off-rest = refl

read_meta-truncated_example : (read_meta (reader cut_off)).1.ok ≡ false
read_meta-truncated_example =
    read_meta-truncated small cut_off (0 ∷ []) small_fits cut_off-rest (λ e. ground arith)

abbrev counts : IndexSummary
counts = record { nodes = 2; edges = 1; call_sites = 1; channel_sites = 0 }

abbrev parts : List Bytes
parts = (1 ∷ 2 ∷ []) ∷ (3 ∷ []) ∷ [] ∷ (4 ∷ []) ∷ []

abbrev found : List (Option Range)
found = ranges_of header_bytes parts

small_file : length (emit_file counts parts) < 2 ^ 64
unfolding emit_file
small_file = omega arith

-- A header of another version is refused.
other_version : load_header (magic ++ (put_u32 8 ++ emit_table 0 header_bytes parts)) ≡ none
unfolding load_header put_u32 emit_table chunk cut bytes_eq ℕ_discrete
other_version = refl

parts_loads : load_header (emit_file counts parts) ≡ some (counts, found)
parts_loads =
    (load_header-emit_file counts parts
      (record {
        nodes = omega arith;
        edges = omega arith;
        sites = omega arith;
        channels = omega arith;
      })
      refl small_file).0

load_header-emit_file_example :
    (load_header (emit_file counts parts) ≡ some (counts, found))
    × (map (begin_section (emit_file counts parts)) found ≡ map reader parts)
load_header-emit_file_example =
    load_header-emit_file counts parts
      (record {
        nodes = omega arith;
        edges = omega arith;
        sites = omega arith;
        channels = omega arith;
      })
      refl small_file

load_header_lem_example :
    (r : Range) × (get_elem? found 1 ≡ some (some r))
    × (r.offset + r.size ≤ length (emit_file counts parts))
    × (length (begin_section (emit_file counts parts) (some r)).rest ≡ r.size)
load_header_lem_example =
    load_header_lem (emit_file counts parts) counts found 1 parts_loads (omega arith)

-- The header as the frontend sees it, whose time is in whole seconds, and two states of the files: the
-- same second, and another size.
abbrev baked : SnapshotMeta
baked = record small { deps = (record header { mtime_ns = 0 }) ∷ [] }

abbrev status : Bytes → Option (ℕ × ℕ)
status path = some (7, 20)

abbrev edited : Bytes → Option (ℕ × ℕ)
edited path = some (7, 21)

dirty_tus_run : dirty_tus status baked (source ∷ header ∷ []) ≡ (false ∷ true ∷ [], 0)
unfolding dirty_tus bytes_eq ℕ_discrete
dirty_tus_run = refl

edited-dirty_tus : dirty_tus edited baked (source ∷ []) ≡ (true ∷ [], 1)
unfolding dirty_tus bytes_eq ℕ_discrete
edited-dirty_tus = refl

source_clean : get_elem? (dirty_tus status baked (source ∷ [])).0 0 ≡ some false
unfolding dirty_tus bytes_eq ℕ_discrete
source_clean = refl

dirty_tus_lem_example : IsClean status baked source
dirty_tus_lem_example = dirty_tus_lem status baked (source ∷ []) 0 source refl source_clean

-- A dependency recorded with zeros is unchanged when it is not there.
vanished-dirty_tus :
    dirty_tus
      (λ path. none)
      (record small { deps = (record { path = 104 ∷ []; mtime_ns = 0; size = 0 }) ∷ [] })
      (source ∷ [])
    ≡ (false ∷ [], 0)
unfolding dirty_tus bytes_eq ℕ_discrete
vanished-dirty_tus = refl
