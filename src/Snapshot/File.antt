-- ===== src/Snapshot/File.antt =====
-- src/callgraph/Snapshot.cpp, the header of the file: magic, version, summary and the table that says
-- where each section lies.
use giga_drill_breaker.Common.{
  ℕ, zero, suc, ◌+◌, ◌-◌, Bool, true, false, not, ◌&&◌, Option, none, some, List, [], ◌∷◌, ◌++◌,
  length, get_elem?, modify, ltb, ◌==◌, nat_eq, if◌then◌else◌,
}
use giga_drill_breaker.Contexts.{Bytes}
use giga_drill_breaker.ControlFlow.Sets.{bytes_eq}
use giga_drill_breaker.Snapshot.{
  Reader, Read, reader, pure, ◌>>=◌, failed, while_ok, put_u8, put_u32, put_u64, u8, u32, u64,
  bytes, cut, emit_many,
}

abbrev pub magic : Bytes
magic = 86 ∷ 89 ∷ 67 ∷ 83 ∷ []

abbrev pub format_version : ℕ
format_version = 9

abbrev pub section_kinds : ℕ
section_kinds = 4

abbrev pub header_bytes : ℕ
header_bytes = 112

pub record IndexSummary : Type 0 where
  pub nodes : ℕ
  pub edges : ℕ
  pub call_sites : ℕ
  pub channel_sites : ℕ

-- The loop over the sections, each at the offset where the one before it ends.
unfoldable pub emit_table : ℕ → ℕ → List Bytes → Bytes
unfolding put_u8 put_u64
emit_table kind offset [] = []
emit_table kind offset (s ∷ sections) =
    put_u8 kind
    ++ (put_u64 offset
        ++ (put_u64 (length s) ++ emit_table (suc kind) (offset + length s) sections))

unfoldable pub emit_summary : IndexSummary → Bytes
unfolding put_u64
emit_summary s =
    put_u64 s.nodes ++ (put_u64 s.edges ++ (put_u64 s.call_sites ++ put_u64 s.channel_sites))

-- What `save` writes once the sections are there.
unfoldable pub emit_file : IndexSummary → List Bytes → Bytes
unfolding put_u32 emit_summary emit_table emit_many
emit_file s sections =
    magic
    ++ (put_u32 format_version
        ++ (emit_summary s
            ++ (put_u32 section_kinds
                ++ (emit_table 0 header_bytes sections ++ emit_many (λ d. d) sections))))

-- Offset and length of a section; `none` while it is not present.
pub record Range : Type 0 where
  pub offset : ℕ
  pub size : ℕ

abbrev pub no_ranges : List (Option Range)
no_ranges = none ∷ none ∷ none ∷ none ∷ []

-- A kind that the table may still name.
abbrev pub is_absent : Option (Option Range) → Bool
is_absent none = false
is_absent (some none) = true
is_absent (some (some r)) = false

unfoldable pub is_valid : ℕ → List (Option Range) → ℕ → ℕ → ℕ → Bool
is_valid file_size ranges kind offset size =
    is_absent (get_elem? ranges kind)
    && (not (ltb file_size offset) && not (ltb (file_size - offset) size))

-- The end of the loop's body: a bad entry fails and ends the loop.
unfoldable pub add_range :
    ℕ
    → List (Option Range)
    → ℕ
    → ℕ
    → ℕ
    → (List (Option Range) → Read (List (Option Range)))
    → Read (List (Option Range))
unfolding is_valid
add_range file_size ranges kind offset size next r =
    elim (r.ok && is_valid file_size ranges kind offset size) [
      | false ↦ (ranges, failed r)
      | true ↦ next (modify kind (λ _. some (record { offset = offset; size = size })) ranges) r
    ]

unfoldable pub read_table : ℕ → ℕ → List (Option Range) → Read (List (Option Range))
unfolding while_ok u8 u64 add_range
read_table file_size zero ranges = pure ranges
read_table file_size (suc n) ranges = while_ok (pure ranges) (do
  kind ← u8
  offset ← u64
  size ← u64
  add_range file_size ranges kind offset size (read_table file_size n))

unfoldable pub read_summary : Read IndexSummary
unfolding u64
read_summary = do
  nodes ← u64
  edges ← u64
  sites ← u64
  channels ← u64
  pure (record { nodes = nodes; edges = edges; call_sites = sites; channel_sites = channels })

-- The number of entries, the table, and that the header ends where the first section begins.
unfoldable pub load_table : ℕ → IndexSummary → Reader → Option (IndexSummary × List (Option Range))
unfolding u32 read_table
load_table file_size s r =
    let (n, r') = u32 r in
    if r'.ok && n == section_kinds
    then (let (ranges, r'') = read_table file_size n no_ranges r' in
        if r''.ok && (file_size - length r''.rest) == header_bytes then some (s, ranges) else none)
    else none

unfoldable pub load_summary : ℕ → Reader → Option (IndexSummary × List (Option Range))
unfolding read_summary load_table
load_summary file_size r = let (s, r') = read_summary r in load_table file_size s r'

unfoldable pub load_version : ℕ → Reader → Option (IndexSummary × List (Option Range))
unfolding u32 load_summary
load_version file_size r =
    let (v, r') = u32 r in if v == format_version then load_summary file_size r' else none

-- What `load` checks before it reads a section: the summary and where the sections lie.
unfoldable pub load_header : Bytes → Option (IndexSummary × List (Option Range))
unfolding bytes load_version
load_header file =
    let (m, r) = bytes 4 (reader file) in
    if r.ok && m == magic then load_version (length file) r else none

-- The reader of a section. A range that was accepted lies in the file.
unfoldable pub begin_section : Bytes → Option Range → Reader
begin_section file none = reader []
begin_section file (some range) = elim (cut range.offset file) [
  | none ↦ reader []
  | some (before, rest) ↦ elim (cut range.size rest) [
    | none ↦ reader []
    | some (s, after) ↦ reader s
  ]
]
