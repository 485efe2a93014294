-- ===== src/Snapshot/Saved.antt =====
-- src/callgraph/Snapshot.cpp: the header that `load` finds in the file that `save` wrote.
use giga_drill_breaker.Common.{
  ℕ, suc, ◌+◌, ◌*◌, ◌^◌, ◌<◌, ◌≤◌, ◌≡◌, refl, ap, ◌∙◌, true, Option, some, List, [], ◌∷◌, ◌++◌, map,
  arith, length, modify, nat_eq, ℕ_discrete, length-append,
}
use giga_drill_breaker.Contexts.{Bytes}
use giga_drill_breaker.Contexts.Codes.{append_assoc}
use giga_drill_breaker.ControlFlow.Sets.{bytes_eq}
use giga_drill_breaker.Snapshot.{
  Read, reader, ◌>>=◌, u64, bytes, cut, chunk, put_u8, put_u32, put_u64, emit_many,
}
use giga_drill_breaker.Snapshot.File.{
  IndexSummary, Range, magic, format_version, section_kinds, header_bytes, no_ranges, emit_summary,
  emit_table, emit_file, is_valid, begin_section, add_range, read_table, read_summary, load_table,
  load_summary, load_version, load_header,
}
use giga_drill_breaker.Snapshot.Laws.{
  Gives, Gives-bind, Gives-last, u8_lem, u32_lem, u64_lem, cut-append,
}
use giga_drill_breaker.Snapshot.Sections.{section_step}

pub record FitsSummary (s : IndexSummary) : Type 0 where
  pub nodes : s.nodes < 2 ^ 64
  pub edges : s.edges < 2 ^ 64
  pub sites : s.call_sites < 2 ^ 64
  pub channels : s.channel_sites < 2 ^ 64

-- Where sections lie that follow one another from an offset on.
abbrev pub ranges_of : ℕ → List Bytes → List (Option Range)
ranges_of offset [] = []
ranges_of offset (s ∷ ss) =
    some (record { offset = offset; size = length s }) ∷ ranges_of (offset + length s) ss

summary_lem : (s : IndexSummary) → FitsSummary s → Gives read_summary (emit_summary s) s
unfolding read_summary emit_summary
summary_lem s h = Gives-bind _ (u64_lem s.nodes h.nodes) (
    Gives-bind _ (u64_lem s.edges h.edges) (
      Gives-bind _ (u64_lem s.call_sites h.sites)
        (Gives-last _ (u64_lem s.channel_sites h.channels))))

add_range_lem :
    (size : ℕ) (ranges : List (Option Range)) (k o n : ℕ)
    (next : List (Option Range) → Read (List (Option Range))) (t : Bytes)
    (out : List (Option Range))
    → is_valid size ranges k o n ≡ true
    → Gives (next (modify k (λ _. some (record { offset = o; size = n })) ranges)) t out
    → Gives (add_range size ranges k o n next) t out
unfolding add_range
add_range_lem size ranges k o n next t out v g = record { gives = λ r. ground (arith, g.gives r) }

-- One entry of the table.
entry_lem :
    (size m : ℕ) (ranges : List (Option Range)) (k o n : ℕ) (t : Bytes) (out : List (Option Range))
    → k < 2 ^ 8
    → o < 2 ^ 64
    → n < 2 ^ 64
    → is_valid size ranges k o n ≡ true
    → Gives
        (read_table size m (modify k (λ _. some (record { offset = o; size = n })) ranges))
        t
        out
    → Gives (read_table size (suc m) ranges) (put_u8 k ++ (put_u64 o ++ (put_u64 n ++ t))) out
unfolding read_table
entry_lem size m ranges k o n t out p q s v g =
    let d =
      Gives-bind (λ x. u64 >>= λ y. u64 >>= λ z. add_range size ranges x y z (read_table size m))
        (u8_lem k p)
        (Gives-bind (λ y. u64 >>= λ z. add_range size ranges k y z (read_table size m))
          (u64_lem o q)
          (Gives-bind (λ z. add_range size ranges k o z (read_table size m)) (u64_lem n s)
            (add_range_lem size ranges k o n (read_table size m) t out v g))) in
    record { gives = d.gives }

end_lem : (size : ℕ) (ranges : List (Option Range)) → Gives (read_table size 0 ranges) [] ranges
unfolding read_table
end_lem size ranges = record { gives = λ r. refl }

table_lem :
    (size o : ℕ) (a b c d : Bytes)
    → o + (length a + (length b + (length c + length d))) ≤ size
    → size < 2 ^ 64
    → Gives
        (read_table size 4 no_ranges)
        (emit_table 0 o (a ∷ b ∷ c ∷ d ∷ []))
        (ranges_of o (a ∷ b ∷ c ∷ d ∷ []))
unfolding emit_table is_valid
table_lem size o a b c d h l =
    entry_lem size 3 no_ranges 0 o (length a) _ _ (omega arith) (omega arith) (omega arith)
      (ground arith)
      (entry_lem size 2 _ 1 (o + length a) (length b) _ _ (omega arith) (omega arith) (omega arith)
        (ground arith)
        (entry_lem size 1 _ 2 (o + length a + length b) (length c) _ _ (omega arith) (omega arith)
          (omega arith) (ground arith)
          (entry_lem size 0 _ 3 (o + length a + length b + length c) (length d) _ _ (omega arith)
            (omega arith) (omega arith) (ground arith) (end_lem size _))))

section_at :
    (p s q : Bytes)
    → begin_section (p ++ (s ++ q)) (some (record { offset = length p; size = length s }))
      ≡ reader s
section_at p s q =
    section_step (p ++ (s ++ q)) p (s ++ q) s q (record { offset = length p; size = length s })
      (cut-append p (s ++ q)) (cut-append s q)

contents_lem :
    (p : Bytes) (ss : List Bytes)
    → map (begin_section (p ++ emit_many (λ d. d) ss)) (ranges_of (length p) ss) ≡ map reader ss
unfolding emit_many
contents_lem p [] = refl
contents_lem p (s ∷ ss) =
    let rest = contents_lem (p ++ s) ss in
    let e : map (begin_section (p ++ (s ++ emit_many (λ d. d) ss)))
          (ranges_of (length p + length s) ss)
        ≡ map reader ss =
      cc (rest, append_assoc p s (emit_many (λ d. d) ss), length-append p s) in
    cc (section_at p s (emit_many (λ d. d) ss), e)

length-emit_table : (k o : ℕ) (ss : List Bytes) → length (emit_table k o ss) ≡ 17 * length ss
unfolding emit_table put_u8 put_u64
length-emit_table k o [] = omega arith
length-emit_table k o (s ∷ ss) = omega (arith, length-emit_table (suc k) (o + length s) ss)

length-emit_summary : (s : IndexSummary) → length (emit_summary s) ≡ 32
unfolding emit_summary put_u64
length-emit_summary s = refl

-- The header in front of the sections.
abbrev header_of : IndexSummary → List Bytes → Bytes
header_of s ss =
    magic
    ++ (put_u32 format_version
        ++ (emit_summary s ++ (put_u32 section_kinds ++ emit_table 0 header_bytes ss)))

file-split :
    (s : IndexSummary) (ss : List Bytes) → emit_file s ss ≡ header_of s ss ++ emit_many (λ d. d) ss
unfolding emit_file
file-split s ss = cc (
  append_assoc magic
      (put_u32 format_version
        ++ (emit_summary s ++ (put_u32 section_kinds ++ emit_table 0 header_bytes ss)))
      (emit_many (λ d. d) ss),
  append_assoc (put_u32 format_version)
      (emit_summary s ++ (put_u32 section_kinds ++ emit_table 0 header_bytes ss))
      (emit_many (λ d. d) ss),
  append_assoc (emit_summary s) (put_u32 section_kinds ++ emit_table 0 header_bytes ss)
      (emit_many (λ d. d) ss),
  append_assoc (put_u32 section_kinds) (emit_table 0 header_bytes ss) (emit_many (λ d. d) ss),
)

length-header :
    (s : IndexSummary) (ss : List Bytes) → length ss ≡ 4 → length (header_of s ss) ≡ header_bytes
unfolding put_u32
length-header s ss h = omega (
  arith,
  length-append (emit_summary s) (put_u32 section_kinds ++ emit_table 0 header_bytes ss),
  length-emit_summary s,
  length-emit_table 0 header_bytes ss,
)

at_magic : (r : Bytes) → load_header (magic ++ r) ≡ load_version (length (magic ++ r)) (reader r)
unfolding load_header chunk cut bytes bytes_eq ℕ_discrete
at_magic r = refl

at_version :
    (size : ℕ) (r : Bytes)
    → load_version size (reader (put_u32 format_version ++ r)) ≡ load_summary size (reader r)
unfolding load_version ℕ_discrete
at_version size r = rw (load_version, (u32_lem 9 (omega arith)).gives r)

at_summary :
    (size : ℕ) (s : IndexSummary) (r : Bytes)
    → FitsSummary s
    → load_summary size (reader (emit_summary s ++ r)) ≡ load_table size s (reader r)
unfolding load_summary
at_summary size s r h = rw (load_summary, (summary_lem s h).gives r)

at_table :
    (size : ℕ) (s : IndexSummary) (a b c d r : Bytes)
    → header_bytes + (length a + (length b + (length c + length d))) ≤ size
    → size < 2 ^ 64
    → size ≡ header_bytes + length r
    → load_table size s
        (reader (put_u32 section_kinds ++ (emit_table 0 header_bytes (a ∷ b ∷ c ∷ d ∷ []) ++ r)))
      ≡ some (s, ranges_of header_bytes (a ∷ b ∷ c ∷ d ∷ []))
unfolding load_table
at_table size s a b c d r h l e =
    let ss = a ∷ b ∷ c ∷ d ∷ [] in
    let one = (u32_lem 4 (omega arith)).gives (emit_table 0 header_bytes ss ++ r) in
    let two = (table_lem size header_bytes a b c d h l).gives r in
    rw (load_table, one, two) (ground arith)

length-file :
    (s : IndexSummary) (ss : List Bytes)
    → length ss ≡ 4
    → length (emit_file s ss) ≡ header_bytes + length (emit_many (λ d. d) ss)
length-file s ss h =
    ap length (file-split s ss)
    ∙ length-append (header_of s ss) (emit_many (λ d. d) ss)
    ∙ ap (λ n. n + length (emit_many (λ d. d) ss)) (length-header s ss h)

length-four :
    (a b c d : Bytes)
    → length (emit_many (λ x. x) (a ∷ b ∷ c ∷ d ∷ []))
      ≡ length a + (length b + (length c + length d))
unfolding emit_many
length-four a b c d = omega (
  arith,
  length-append a (b ++ (c ++ (d ++ []))),
  length-append b (c ++ (d ++ [])),
  length-append c (d ++ []),
  length-append d [],
)

loads :
    (s : IndexSummary) (a b c d : Bytes)
    → FitsSummary s
    → length (emit_file s (a ∷ b ∷ c ∷ d ∷ [])) < 2 ^ 64
    → load_header (emit_file s (a ∷ b ∷ c ∷ d ∷ []))
      ≡ some (s, ranges_of header_bytes (a ∷ b ∷ c ∷ d ∷ []))
unfolding emit_file
loads s a b c d f l =
    let ss = a ∷ b ∷ c ∷ d ∷ [] in
    let r = emit_many (λ x. x) ss in
    let t = put_u32 section_kinds ++ (emit_table 0 header_bytes ss ++ r) in
    let size = length (emit_file s ss) in
    let e : size ≡ header_bytes + length r = length-file s ss refl in
    let n : length r ≡ length a + (length b + (length c + length d)) = length-four a b c d in
    at_magic (put_u32 format_version ++ (emit_summary s ++ t))
    ∙ at_version size (emit_summary s ++ t)
    ∙ at_summary size s t f
    ∙ at_table size s a b c d r (omega (arith, e, n)) l e

-- In a file that `save` wrote of four sections, `load` finds the summary, and the reader of each
-- section has exactly the bytes that were saved, while the counts and the file's size fit 64 bits.
pub load_header-emit_file :
    (s : IndexSummary) (ss : List Bytes)
    → FitsSummary s
    → length ss ≡ section_kinds
    → length (emit_file s ss) < 2 ^ 64
    → (load_header (emit_file s ss) ≡ some (s, ranges_of header_bytes ss))
      × (map (begin_section (emit_file s ss)) (ranges_of header_bytes ss) ≡ map reader ss)
load_header-emit_file s [] f n l = absurd (ground arith)
load_header-emit_file s (a ∷ []) f n l = absurd (ground arith)
load_header-emit_file s (a ∷ b ∷ []) f n l = absurd (ground arith)
load_header-emit_file s (a ∷ b ∷ c ∷ []) f n l = absurd (ground arith)
load_header-emit_file s (a ∷ b ∷ c ∷ d ∷ x ∷ ss) f n l = absurd (ground arith)
load_header-emit_file s (a ∷ b ∷ c ∷ d ∷ []) f n l =
    let ss = a ∷ b ∷ c ∷ d ∷ [] in
    (
      loads s a b c d f l,
      cc (contents_lem (header_of s ss) ss, file-split s ss, length-header s ss refl),
    )
