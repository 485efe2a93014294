-- ===== src/Checks/Resolution.antt =====
-- `resolveCheckSpec` against the last word that a specification has on a check.
use Prim.Native.Char.{Char, code}
use Prim.Native.String.{◌++◌ as ◌<>◌}
use text.Mathlib.TextEquality.{Char-path}
use text.Mathlib.TextLemmas.{nil-append, cons-append}
use giga_drill_breaker.Common.{
  ◌≡◌, ◌≢◌, refl, sym, ap, ◌∙◌, inl, inr, String, Bool, true, false, not, ◌&&◌, ◌||◌, ◌⊎◌, Option,
  none, some, List, [], ◌∷◌, map, get_elem?, suc, ℕ, arith, if◌then◌else◌, ◌==◌, string_eq, nat_eq,
  ℕ_discrete, has_name, has_name-insert_name, has_name-erase_name, insert_name, erase_name,
  Bool-cases, Option-cases, if_true, if_false,
}
use giga_drill_breaker.Common.Map
use giga_drill_breaker.Checks.{
  Registry, Vocabulary, vocabulary, Entry, read_entry, checks, empty_entry, unknown_name, meaning,
  apply_all, complaint, Verdict, accepted, refused, resolve_entries, resolve_check_spec,
}
use giga_drill_breaker.Checks.Names.{is_check, is_group, stands_in, Describes, vocabulary-Describes}

has_name-apply_all :
    (c : String) (disable : Bool) (ms enabled : List String)
    → has_name (apply_all disable ms enabled) c
      ≡ (if has_name ms c then not disable else has_name enabled c)
unfolding apply_all
has_name-apply_all c disable [] enabled = refl
has_name-apply_all c true (m ∷ ms) enabled =
    ground
      (arith, has_name-apply_all c true ms (erase_name m enabled), has_name-erase_name c m enabled)
has_name-apply_all c false (m ∷ ms) enabled =
    ground (
      arith,
      has_name-apply_all c false ms (insert_name m enabled),
      has_name-insert_name c m enabled,
    )

-- How an entry is written.
abbrev pub spelling : Entry → String
spelling e = if e.disable then "-" <> e.name else e.name

-- No name that is to be enabled begins with a minus.
abbrev pub IsSpelled : Entry → Type 0
IsSpelled e = e.disable ≡ false → (s : String) → e.name ≢ "-" <> s

-- The entry names a group or a check.
abbrev pub is_meant : Registry → Entry → Bool
is_meant r e = not (e.name == "") && (is_group r e.name || is_check r e.name)

-- It mentions a check: by a group, if it names one, or by its name.
abbrev pub mentions : Registry → Entry → String → Bool
mentions r e c = if is_group r e.name then stands_in r e.name c else e.name == c

abbrev pub all_meant : Registry → List Entry → Bool
all_meant r [] = true
all_meant r (e ∷ es) = is_meant r e && all_meant r es

-- The entries in front of the first one that names nothing.
abbrev pub meant_prefix : Registry → List Entry → List Entry
meant_prefix r [] = []
meant_prefix r (e ∷ es) = if is_meant r e then e ∷ meant_prefix r es else []

-- What the last entry that mentions a check says of it.
abbrev pub last_word : Registry → String → List Entry → Option Bool
last_word r c [] = none
last_word r c (e ∷ es) = elim (last_word r c es) [
  | some b ↦ some b
  | none ↦ if mentions r e c then some (not e.disable) else none
]

abbrev pub or_before : Option Bool → Bool → Bool
or_before none b = b
or_before (some b') b = b'

abbrev pub set_of : Verdict → List String
set_of (accepted enabled) = enabled
set_of (refused error enabled) = enabled

abbrev pub is_accepted : Verdict → Bool
is_accepted (accepted enabled) = true
is_accepted (refused error enabled) = false

abbrev minus : Char
minus = "-"

pub minus-append : (s : String) → "-" <> s ≡ String.◌∷◌ minus s
minus-append s = cons-append minus "" s ∙ ap (λ t. String.◌∷◌ minus t) (nil-append s)

read_minus : (s : String) → read_entry (String.◌∷◌ minus s) ≡ record { disable = true; name = s }
unfolding read_entry ℕ_discrete
read_minus s = refl

read_plain :
    (name : String)
    → ((s : String) → name ≢ "-" <> s)
    → read_entry name ≡ record { disable = false; name = name }
unfolding read_entry
read_plain String.[] h = refl
read_plain (String.◌∷◌ c s) h = elim (Bool-cases (code c == b'-')) [
  | inr e ↦ ground arith
  | inl e ↦
      let same : c ≡ minus = Char-path c minus (ground arith) in
      absurd (h s (ap (λ d. String.◌∷◌ d s) same ∙ sym (minus-append s)))
]

read_entry-spelling : (e : Entry) → IsSpelled e → read_entry (spelling e) ≡ e
read_entry-spelling e h = elim (Bool-cases e.disable) [
  | inl d ↦ ground (arith, minus-append e.name, read_minus e.name)
  | inr d ↦ ground (arith, read_plain e.name (h d))
]

module _ (r : Registry) (v : Vocabulary) (d : Describes r v) where
  meant_lem :
      (e : Entry)
      → is_meant r e ≡ true
      → (ms : List String) × (meaning v e ≡ checks ms)
        × ((c : String) → has_name ms c ≡ mentions r e c)
  unfolding meaning
  meant_lem e h = elim (Option-cases (Map.find e.name v.groups)) [
    | inr (ms, at) ↦
        let (g, all) = d.found e.name ms at in (ms, ground arith, λ c. ground (arith, all c))
    | inl gone ↦
        let no_group = d.missing e.name gone in
        (e.name ∷ [], ground (arith, d.checks e.name), λ c. ground arith)
  ]

  unmeant_lem :
      (e : Entry)
      → is_meant r e ≡ false
      → (meaning v e ≡ empty_entry) ⊎ (meaning v e ≡ unknown_name)
  unfolding meaning
  unmeant_lem e h = elim (Bool-cases (e.name == "")) [
    | inl e ↦ inl (ground arith)
    | inr full ↦ elim (Option-cases (Map.find e.name v.groups)) [
      | inr (ms, at) ↦ let (g, _) = d.found e.name ms at in absurd (ground arith)
      | inl gone ↦ inr (ground (arith, d.checks e.name))
    ]
  ]

  resolve_meant :
      (raw : String) (rest enabled ms : List String) (e : Entry)
      → read_entry raw ≡ e
      → meaning v e ≡ checks ms
      → resolve_entries v (raw ∷ rest) enabled
        ≡ resolve_entries v rest (apply_all e.disable ms enabled)
  unfolding resolve_entries
  resolve_meant raw rest enabled ms e p q =
      ground (arith, ap (meaning v) p, ap (λ (x : Entry). x.disable) p)

  resolve_unmeant :
      (raw : String) (rest enabled : List String) (e : Entry)
      → read_entry raw ≡ e
      → (meaning v e ≡ empty_entry) ⊎ (meaning v e ≡ unknown_name)
      → (error : String) × (resolve_entries v (raw ∷ rest) enabled ≡ refused error enabled)
  unfolding resolve_entries
  resolve_unmeant raw rest enabled e p (inl q) =
      (complaint (read_entry raw) empty_entry, ground (arith, ap (meaning v) p))
  resolve_unmeant raw rest enabled e p (inr q) =
      (complaint (read_entry raw) unknown_name, ground (arith, ap (meaning v) p))

  last_word_step :
      (c : String) (e : Entry) (es : List Entry) (b : Bool)
      → or_before (last_word r c (e ∷ es)) b
        ≡ or_before (last_word r c es) (if mentions r e c then not e.disable else b)
  last_word_step c e es b = elim (Option-cases (last_word r c es)) [
    | inl p ↦ elim (Bool-cases (mentions r e c)) [ inl m ↦ rw (p, m) | inr m ↦ rw (p, m) ]
    | inr (w, p) ↦ rw p
  ]

  resolve_entries_lem :
      (es : List Entry) (enabled : List String) (c : String)
      → ((i : ℕ) (e : Entry) → get_elem? es i ≡ some e → IsSpelled e)
      → (is_accepted (resolve_entries v (map spelling es) enabled) ≡ all_meant r es)
        × (has_name (set_of (resolve_entries v (map spelling es) enabled)) c
            ≡ or_before (last_word r c (meant_prefix r es)) (has_name enabled c))
  unfolding resolve_entries
  resolve_entries_lem [] enabled c h = (refl, refl)
  resolve_entries_lem (e ∷ es) enabled c h =
      let same = read_entry-spelling e (h 0 e refl) in
      elim (Bool-cases (is_meant r e)) [
        | inl m ↦
            let (ms, is, all) = meant_lem e m in
            let (first, second) =
              resolve_entries_lem es (apply_all e.disable ms enabled) c
                (λ i x at. h (suc i) x at) in
            let step = resolve_meant (spelling e) (map spelling es) enabled ms e same is in
            let word = last_word_step c e (meant_prefix r es) (has_name enabled c) in
            let applied : has_name (apply_all e.disable ms enabled) c
                ≡ (if mentions r e c then not e.disable else has_name enabled c) =
              has_name-apply_all c e.disable ms enabled
              ∙ ap (λ b. if b then not e.disable else has_name enabled c) (all c) in
            (
              ap is_accepted step ∙ first ∙ ap (λ b. b && all_meant r es) (sym m),
              ap (λ x. has_name (set_of x) c) step
                  ∙ second
                  ∙ ap (or_before (last_word r c (meant_prefix r es))) applied
                  ∙ sym word
                  ∙ ap (λ xs. or_before (last_word r c xs) (has_name enabled c))
                      (sym (if_true (is_meant r e) (e ∷ meant_prefix r es) [] m)),
            )
        | inr m ↦
            let (error, step) =
              resolve_unmeant (spelling e) (map spelling es) enabled e same (unmeant_lem e m) in
            (
              ap is_accepted step ∙ ap (λ b. b && all_meant r es) (sym m),
              ap (λ x. has_name (set_of x) c) step
                  ∙ ap (λ xs. or_before (last_word r c xs) (has_name enabled c))
                      (sym (if_false (is_meant r e) (e ∷ meant_prefix r es) [] m)),
            )
      ]

-- `resolveCheckSpec` accepts a specification exactly when each of its entries, with or without a
-- minus in front, names a group or a check of the program or of an extension. On every check the
-- last entry that mentions it decides, a minus in front disabling it, and what no entry mentions
-- stays. A refused specification has taken effect up to its first bad entry.
pub resolve_check_spec_lem :
    (r : Registry) (es : List Entry) (enabled : List String) (c : String)
    → ((i : ℕ) (e : Entry) → get_elem? es i ≡ some e → IsSpelled e)
    → (is_accepted (resolve_check_spec r (map spelling es) enabled) ≡ all_meant r es)
      × (has_name (set_of (resolve_check_spec r (map spelling es) enabled)) c
          ≡ or_before (last_word r c (meant_prefix r es)) (has_name enabled c))
unfolding resolve_check_spec
resolve_check_spec_lem r es enabled c h =
    resolve_entries_lem r (vocabulary r) (vocabulary-Describes r) es enabled c h
