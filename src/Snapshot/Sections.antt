-- ===== src/Snapshot/Sections.antt =====
-- src/callgraph/Snapshot.cpp: what a header that `load` accepts says of the file, whatever the file is.
use giga_drill_breaker.Common.{
  ℕ, zero, suc, ◌+◌, ◌-◌, ◌<◌, ◌≤◌, ◌≡◌, refl, sym, ap, ◌∙◌, true, ◌&&◌, Option, none, some, List,
  [], ◌∷◌, arith, length, get_elem?, modify, ◌==◌, nat_eq, if◌then◌else◌, Bool-cases, inl, inr,
  Option-cases, subst, length-modify, if_true,
}
use giga_drill_breaker.Contexts.{Bytes}
use giga_drill_breaker.ControlFlow.Sets.{bytes_eq}
use giga_drill_breaker.Snapshot.{Reader, Read, reader, ◌>>=◌, while_ok, u8, u32, u64, bytes, cut}
use giga_drill_breaker.Snapshot.File.{
  IndexSummary, Range, magic, format_version, section_kinds, header_bytes, no_ranges, is_valid,
  begin_section, add_range, read_table, read_summary, load_table, load_summary, load_version,
  load_header,
}

-- Each range that is present lies in the file.
abbrev InFile : ℕ → List (Option Range) → Type 0
InFile size ranges =
    (k : ℕ) (r : Range) → get_elem? ranges k ≡ some (some r) → r.offset + r.size ≤ size

abbrev absent : List (Option Range) → ℕ
absent [] = 0
absent (none ∷ rs) = suc (absent rs)
absent (some r ∷ rs) = absent rs

valid_lem :
    (size : ℕ) (ranges : List (Option Range)) (k o n : ℕ)
    → is_valid size ranges k o n ≡ true
    → (get_elem? ranges k ≡ some none) × (o + n ≤ size)
unfolding is_valid
valid_lem size ranges k o n h = elim (Option-cases (get_elem? ranges k)) [
  | inl e ↦ absurd (ground arith)
  | inr (none, e) ↦ (e, ground arith)
  | inr (some r, e) ↦ absurd (ground arith)
]

absent-modify :
    (k : ℕ) (r : Range) (ranges : List (Option Range))
    → get_elem? ranges k ≡ some none
    → suc (absent (modify k (λ _. some r) ranges)) ≡ absent ranges
absent-modify k r [] h = absurd (ground arith)
absent-modify zero r (none ∷ rs) h = refl
absent-modify zero r (some x ∷ rs) h = absurd (ground arith)
absent-modify (suc k) r (none ∷ rs) h = ap suc (absent-modify k r rs h)
absent-modify (suc k) r (some x ∷ rs) h = absent-modify k r rs h

InFile-modify :
    (size k : ℕ) (r : Range) (ranges : List (Option Range))
    → InFile size ranges
    → r.offset + r.size ≤ size
    → InFile size (modify k (λ _. some r) ranges)
InFile-modify size k r [] p h j x at = absurd (ground arith)
InFile-modify size zero r (y ∷ rs) p h zero x at = ground arith
InFile-modify size zero r (y ∷ rs) p h (suc j) x at = p (suc j) x at
InFile-modify size (suc k) r (y ∷ rs) p h zero x at = p zero x at
InFile-modify size (suc k) r (y ∷ rs) p h (suc j) x at =
    InFile-modify size k r rs (λ i z e. p (suc i) z e) h j x at

record Filled (size n : ℕ) (old new : List (Option Range)) : Type 0 where
  pub inside : InFile size new
  pub fewer : absent new + n ≡ absent old
  pub same_length : length new ≡ length old

-- The end of the loop's body, when it succeeds.
added :
    (size k o n : ℕ) (ranges : List (Option Range))
    (next : List (Option Range) → Read (List (Option Range))) (r : Reader)
    → (add_range size ranges k o n next r).1.ok ≡ true
    → (is_valid size ranges k o n ≡ true)
      × (add_range size ranges k o n next r
          ≡ next (modify k (λ _. some (record { offset = o; size = n })) ranges) r)
unfolding add_range
added size k o n ranges next r h = elim (Bool-cases (r.ok && is_valid size ranges k o n)) [
  | inl e ↦ (ground arith, ground arith)
  | inr e ↦ absurd (ground arith)
]

read_table_lem :
    (size n : ℕ) (ranges : List (Option Range)) (r : Reader)
    → InFile size ranges
    → (read_table size n ranges r).1.ok ≡ true
    → Filled size n ranges (read_table size n ranges r).0
unfolding read_table while_ok ◌>>=◌
read_table_lem size zero ranges r p h = record {
  inside = p;
  fewer = omega arith;
  same_length = refl;
}
read_table_lem size (suc n) ranges r p h = elim (Bool-cases r.ok) [
  | inr e ↦ absurd (ground arith)
  | inl e ↦
      let k = (u8 r).0 in
      let o = (u64 (u8 r).1).0 in
      let l = (u64 (u64 (u8 r).1).1).0 in
      let r' = (u64 (u64 (u8 r).1).1).1 in
      let body : read_table size (suc n) ranges r
          ≡ add_range size ranges k o l (read_table size n) r' =
        rw e in
      let (v, step) =
        added size k o l ranges (read_table size n) r'
          (ap (λ (x : List (Option Range) × Reader). x.1.ok) (sym body) ∙ h) in
      let (free, fits) = valid_lem size ranges k o l v in
      let new = modify k (λ _. some (record { offset = o; size = l })) ranges in
      let whole = body ∙ step in
      let f =
        read_table_lem size n new r'
          (InFile-modify size k (record { offset = o; size = l }) ranges p fits)
          (ap (λ (x : List (Option Range) × Reader). x.1.ok) (sym whole) ∙ h) in
      let one = absent-modify k (record { offset = o; size = l }) ranges free in
      subst (λ (x : List (Option Range) × Reader). Filled size (suc n) ranges x.0) (sym whole)
        (record {
          inside = f.inside;
          fewer = omega (arith, f.fewer, one);
          same_length =
              f.same_length ∙ length-modify k (λ _. some (record { offset = o; size = l })) ranges;
        })
]

all_present :
    (ranges : List (Option Range)) (k : ℕ)
    → absent ranges ≡ 0
    → k < length ranges
    → (r : Range) × (get_elem? ranges k ≡ some (some r))
all_present [] k a h = absurd (omega arith)
all_present (none ∷ rs) k a h = absurd (ground arith)
all_present (some r ∷ rs) zero a h = (r, refl)
all_present (some r ∷ rs) (suc k) a h = all_present rs k a (omega arith)

cut_lem :
    (n : ℕ) (s : Bytes)
    → n ≤ length s
    → (a b : Bytes) × (cut n s ≡ some (a, b)) × (length a ≡ n) × (length b + n ≡ length s)
unfolding cut
cut_lem zero s h = ([], s, refl, refl, omega arith)
cut_lem (suc n) [] h = absurd (omega arith)
cut_lem (suc n) (x ∷ s) h =
    let (a, b, e, p, q) = cut_lem n s (omega arith) in
    (x ∷ a, b, ground arith, ap suc p, omega arith)

pub section_step :
    (file a b c d : Bytes) (r : Range)
    → cut r.offset file ≡ some (a, b)
    → cut r.size b ≡ some (c, d)
    → begin_section file (some r) ≡ reader c
unfolding begin_section
section_step file a b c d r p q = rw (begin_section, p, q)

section_lem :
    (file : Bytes) (r : Range)
    → r.offset + r.size ≤ length file
    → length (begin_section file (some r)).rest ≡ r.size
section_lem file r h =
    let (a, b, e, p, q) = cut_lem r.offset file (omega arith) in
    let (c, d, e', p', q') = cut_lem r.size b (omega arith) in
    ap (λ (x : Reader). length x.rest) (section_step file a b c d r e e') ∙ p'

-- What `load` found in the table.
record Found (size : ℕ) (ranges : List (Option Range)) : Type 0 where
  pub inside : InFile size ranges
  pub complete : absent ranges ≡ 0
  pub four : length ranges ≡ 4

no_ranges-InFile : (size : ℕ) → InFile size no_ranges
no_ranges-InFile size zero r h = absurd (ground arith)
no_ranges-InFile size (suc zero) r h = absurd (ground arith)
no_ranges-InFile size (suc (suc zero)) r h = absurd (ground arith)
no_ranges-InFile size (suc (suc (suc zero))) r h = absurd (ground arith)
no_ranges-InFile size (suc (suc (suc (suc k)))) r h = absurd (ground arith)

-- The end of `load_table`, on what the loop left.
closed :
    (size : ℕ) (s t : IndexSummary) (new ranges : List (Option Range)) (r : Reader)
    → if◌then◌else◌ {A = Option (IndexSummary × List (Option Range))}
        (r.ok && (size - length r.rest) == header_bytes)
        (some (s, new))
        none
      ≡ some (t, ranges)
    → (r.ok ≡ true) × (new ≡ ranges)
closed size s t new ranges r h =
    elim (Bool-cases (r.ok && (size - length r.rest) == header_bytes)) [
      | inr e ↦ absurd (ground arith)
      | inl e ↦ (ground arith, ground arith)
    ]

table_Found :
    (size : ℕ) (s t : IndexSummary) (r : Reader) (ranges : List (Option Range))
    → load_table size s r ≡ some (t, ranges)
    → Found size ranges
unfolding load_table
table_Found size s t r ranges h = elim (Bool-cases ((u32 r).1.ok && (u32 r).0 == section_kinds)) [
  | inr e ↦ absurd (ground arith)
  | inl e ↦
      let n : (u32 r).0 ≡ 4 = ground arith in
      let out = read_table size (u32 r).0 no_ranges (u32 r).1 in
      let (ok, same) = closed size s t out.0 ranges out.1 (sym (if_true _ _ _ e) ∙ h) in
      let f = read_table_lem size (u32 r).0 no_ranges (u32 r).1 (no_ranges-InFile size) ok in
      let four : length out.0 ≡ 4 = f.same_length in
      let fewer : absent out.0 + (u32 r).0 ≡ 4 = f.fewer in
      subst (Found size) same (record { inside = f.inside; complete = omega arith; four = four })
]

version_Found :
    (size : ℕ) (t : IndexSummary) (r : Reader) (ranges : List (Option Range))
    → load_version size r ≡ some (t, ranges)
    → Found size ranges
unfolding load_version load_summary
version_Found size t r ranges h = elim (Bool-cases ((u32 r).0 == format_version)) [
  | inr e ↦ absurd (ground arith)
  | inl e ↦
      table_Found size (read_summary (u32 r).1).0 t (read_summary (u32 r).1).1 ranges
        (sym (if_true _ _ _ e) ∙ h)
]

header_Found :
    (file : Bytes) (t : IndexSummary) (ranges : List (Option Range))
    → load_header file ≡ some (t, ranges)
    → Found (length file) ranges
unfolding load_header
header_Found file t ranges h =
    elim (Bool-cases ((bytes 4 (reader file)).1.ok && (bytes 4 (reader file)).0 == magic)) [
      | inr e ↦ absurd (ground arith)
      | inl e ↦
          version_Found (length file) t (bytes 4 (reader file)).1 ranges (sym (if_true _ _ _ e) ∙ h)
    ]

-- Of any file whose header `load` accepts, the table gives for each of the four kinds a range that
-- lies in the file, and the reader of the section has exactly as many bytes as the range.
pub load_header_lem :
    (file : Bytes) (s : IndexSummary) (ranges : List (Option Range)) (kind : ℕ)
    → load_header file ≡ some (s, ranges)
    → kind < section_kinds
    → (r : Range) × (get_elem? ranges kind ≡ some (some r))
      × (r.offset + r.size ≤ length file)
      × (length (begin_section file (some r)).rest ≡ r.size)
load_header_lem file s ranges kind h lt =
    let f = header_Found file s ranges h in
    let (r, at) = all_present ranges kind f.complete (omega (arith, f.four)) in
    (r, at, f.inside kind r at, section_lem file r (f.inside kind r at))
