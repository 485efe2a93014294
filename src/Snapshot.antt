-- ===== src/Snapshot.antt =====
-- src/callgraph/Snapshot.cpp, the bytes of a snapshot: the little-endian writers, the reader that
-- checks its bounds, and the list loops that both ends share. A string is the list of its bytes.
pub mod Meta
pub mod File
pub mod Sections
pub mod Dirty
pub mod Saved
pub mod Laws
pub mod Prefix
pub mod Decoding
pub mod Truncated
mod Tests
use giga_drill_breaker.Common.{
  ℕ, zero, suc, ◌+◌, ◌*◌, ◌/◌, ◌%◌, ◌^◌, Bool, true, false, ◌&&◌, Option, none, some, List, [], ◌∷◌,
  ◌++◌, length, ltb, if◌then◌else◌,
}
use giga_drill_breaker.Contexts.{Bytes}

-- The loop of the writers: `n` bytes of a number, the lowest first.
unfoldable pub put_bytes : ℕ → ℕ → Bytes
put_bytes zero v = []
put_bytes (suc n) v = v % 2 ^ 8 ∷ put_bytes n (v / 2 ^ 8)

unfoldable pub put_u8 : ℕ → Bytes
put_u8 v = v % 2 ^ 8 ∷ []

unfoldable pub put_u32 : ℕ → Bytes
unfolding put_bytes
put_u32 v = put_bytes 4 v

unfoldable pub put_u64 : ℕ → Bytes
unfolding put_bytes
put_u64 v = put_bytes 8 v

unfoldable pub put_len_str : Bytes → Bytes
unfolding put_u32
put_len_str s = put_u32 (length s % 2 ^ 32) ++ s

-- `rest` is what lies between the pointers `p` and `end`.
pub record Reader : Type 0 where
  pub rest : Bytes
  pub ok : Bool

abbrev pub reader : Bytes → Reader
reader bytes = record { rest = bytes; ok = true }

-- Code that reads: it changes the reader and returns a value, on failure too.
abbrev pub Read : Type 0 → Type 0
Read A = Reader → A × Reader

abbrev pub pure : {A : Type 0} → A → Read A
pure a r = (a, r)

infixl 5 ◌>>=◌
unfoldable pub ◌>>=◌ : {A B : Type 0} → Read A → (A → Read B) → Read B
◌>>=◌ m f r = let (a, r') = m r in f a r'

abbrev pub failed : Reader → Reader
failed r = record r { ok = false }

-- The first `n` bytes and the others, if there are as many.
unfoldable pub cut : ℕ → Bytes → Option (Bytes × Bytes)
cut zero s = some ([], s)
cut (suc n) [] = none
cut (suc n) (b ∷ s) = elim (cut n s) [ none ↦ none | some (t, u) ↦ some (b ∷ t, u) ]

-- The test of the bounds: too few bytes leave the pointer and give a default.
unfoldable pub chunk : {A : Type 0} → ℕ → A → (Bytes → A) → Read A
unfolding cut
chunk n default f r = elim (cut n r.rest) [
  | none ↦ (default, failed r)
  | some (s, t) ↦ (f s, record r { rest = t })
]

-- The loop of the readers: the bytes are joined, each shifted by its place.
unfoldable pub join_bytes : Bytes → ℕ
join_bytes [] = 0
join_bytes (b ∷ s) = b + 2 ^ 8 * join_bytes s

unfoldable pub u8 : Read ℕ
unfolding chunk join_bytes
u8 = chunk 1 0 join_bytes

unfoldable pub u32 : Read ℕ
unfolding chunk join_bytes
u32 = chunk 4 0 join_bytes

unfoldable pub u64 : Read ℕ
unfolding chunk join_bytes
u64 = chunk 8 0 join_bytes

unfoldable pub bytes : ℕ → Read Bytes
unfolding chunk
bytes len = chunk len [] (λ s. s)

unfoldable pub len_str : Read Bytes
unfolding u32 bytes
len_str = do len ← u32; bytes len

unfoldable pub checked : ℕ → Read ℕ
checked n r = if r.ok && ltb (length r.rest) n then (0, failed r) else (n, r)

unfoldable pub count : Read ℕ
unfolding u32 checked
count = do n ← u32; checked n

-- One test of `r.ok` in a loop's condition, with what is left to do on either answer.
unfoldable pub while_ok : {A : Type 0} → Read A → Read A → Read A
while_ok stop step r = elim r.ok [ false ↦ stop r | true ↦ step r ]

-- The loops `for (i = 0; r.ok && i < n; ++i)` that read the elements of a vector.
unfoldable pub read_many : {A : Type 0} → Read A → ℕ → Read (List A)
unfolding while_ok
read_many read zero = pure []
read_many read (suc n) = while_ok (pure []) (do a ← read; xs ← read_many read n; pure (a ∷ xs))

unfoldable pub read_list : {A : Type 0} → Read A → Read (List A)
unfolding count read_many
read_list read = do n ← count; read_many read n

unfoldable pub emit_many : {A : Type 0} → (A → Bytes) → List A → Bytes
emit_many emit [] = []
emit_many emit (a ∷ xs) = emit a ++ emit_many emit xs

unfoldable pub emit_list : {A : Type 0} → (A → Bytes) → List A → Bytes
unfolding put_u32 emit_many
emit_list emit xs = put_u32 (length xs % 2 ^ 32) ++ emit_many emit xs
