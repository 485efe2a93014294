-- ===== src/Snapshot/Prefix.antt =====
-- src/callgraph/Snapshot.cpp: a reader that does not fail depends on the bytes it takes only.
use giga_drill_breaker.Common.{
  ℕ, zero, suc, ◌≡◌, refl, ap, ◌∙◌, true, ◌&&◌, some, [], ◌∷◌, ◌++◌, arith, length, ltb,
  length-append, Bool-cases, inl, inr, Option-cases,
}
use giga_drill_breaker.Contexts.{Bytes}
use giga_drill_breaker.Snapshot.{
  Reader, Read, pure, ◌>>=◌, cut, chunk, join_bytes, u8, u32, u64, bytes, len_str, checked, count,
  while_ok, read_many, read_list,
}

-- The reader with more bytes behind its own.
abbrev pub extend : Reader → Bytes → Reader
extend r q = record r { rest = r.rest ++ q }

-- Code that never clears the failure flag and, where it does not fail, reads the same from a longer
-- input.
pub record IsLocal {A : Type 0} (m : Read A) : Type 0 where
  pub sticks : (r : Reader) → (m r).1.ok ≡ true → r.ok ≡ true
  pub extends :
      (r : Reader) (q : Bytes) → (m r).1.ok ≡ true → m (extend r q) ≡ ((m r).0, extend (m r).1 q)

pub pure-IsLocal : {A : Type 0} (a : A) → IsLocal (pure a)
pure-IsLocal a = record { sticks = λ r h. h; extends = λ r q h. refl }

pub bind-IsLocal :
    {A B : Type 0} {m : Read A} (f : A → Read B)
    → IsLocal m
    → ((a : A) → IsLocal (f a))
    → IsLocal (m >>= f)
unfolding ◌>>=◌
bind-IsLocal {A = A} {m = m} f p g = record {
  sticks = λ r h. p.sticks r ((g (m r).0).sticks (m r).1 h);
  extends = λ r q h.
      ap (λ (x : A × Reader). f x.0 x.1) (p.extends r q ((g (m r).0).sticks (m r).1 h))
      ∙ (g (m r).0).extends (m r).1 q h;
}

cut_longer : (n : ℕ) (s q a b : Bytes) → cut n s ≡ some (a, b) → cut n (s ++ q) ≡ some (a, b ++ q)
unfolding cut
cut_longer zero s q a b h = ground arith
cut_longer (suc n) [] q a b h = absurd (ground arith)
cut_longer (suc n) (x ∷ s) q a b h = elim (Option-cases (cut n s)) [
  | inl e ↦ absurd (ground arith)
  | inr ((t, u), e) ↦ ground (arith, cut_longer n s q t u e)
]

chunk-IsLocal : {A : Type 0} (n : ℕ) (d : A) (f : Bytes → A) → IsLocal (chunk n d f)
unfolding chunk
chunk-IsLocal n d f = record {
  sticks = λ r h. elim (Option-cases (cut n r.rest)) [
    | inl e ↦ absurd (ground arith)
    | inr ((t, u), e) ↦ ground arith
  ];
  extends = λ r q h. elim (Option-cases (cut n r.rest)) [
    | inl e ↦ absurd (ground arith)
    | inr ((t, u), e) ↦ ground (arith, cut_longer n r.rest q t u e)
  ];
}

pub u8-IsLocal : IsLocal u8
unfolding u8
u8-IsLocal = chunk-IsLocal 1 0 join_bytes

pub u32-IsLocal : IsLocal u32
unfolding u32
u32-IsLocal = chunk-IsLocal 4 0 join_bytes

pub u64-IsLocal : IsLocal u64
unfolding u64
u64-IsLocal = chunk-IsLocal 8 0 join_bytes

pub len_str-IsLocal : IsLocal len_str
unfolding len_str bytes
len_str-IsLocal = bind-IsLocal bytes u32-IsLocal λ n. chunk-IsLocal n [] λ s. s

checked-IsLocal : (n : ℕ) → IsLocal (checked n)
unfolding checked
checked-IsLocal n = record {
  sticks = λ r h. elim (Bool-cases (r.ok && ltb (length r.rest) n)) [
    | inl e ↦ absurd (ground arith)
    | inr e ↦ ground arith
  ];
  extends = λ r q h. elim (Bool-cases (r.ok && ltb (length r.rest) n)) [
    | inl e ↦ absurd (ground arith)
    | inr e ↦ ground (arith, length-append r.rest q)
  ];
}

pub count-IsLocal : IsLocal count
unfolding count
count-IsLocal = bind-IsLocal checked u32-IsLocal checked-IsLocal

-- A loop's test, where what is left to do after a failure does not clear the flag.
pub while_ok-IsLocal :
    {A : Type 0} {stop step : Read A} → IsLocal stop → IsLocal step → IsLocal (while_ok stop step)
unfolding while_ok
while_ok-IsLocal {stop = stop} {step = step} p q = record {
  sticks = λ r h. elim (Bool-cases r.ok) [ inl e ↦ e | inr e ↦ p.sticks r (ground arith) ];
  extends = λ r s h. elim (Bool-cases r.ok) [
    | inl e ↦ let g : (step r).1.ok ≡ true = ground arith in ground (arith, q.extends r s g)
    | inr e ↦ let g : (stop r).1.ok ≡ true = ground arith in absurd (ground (arith, p.sticks r g))
  ];
}

pub read_many-IsLocal :
    {A : Type 0} (read : Read A) (n : ℕ) → IsLocal read → IsLocal (read_many read n)
unfolding read_many
read_many-IsLocal read zero p = pure-IsLocal []
read_many-IsLocal read (suc n) p =
    while_ok-IsLocal (pure-IsLocal []) (
      bind-IsLocal _ p λ a. bind-IsLocal _ (read_many-IsLocal read n p) λ xs. pure-IsLocal (a ∷ xs))

pub read_list-IsLocal : {A : Type 0} (read : Read A) → IsLocal read → IsLocal (read_list read)
unfolding read_list
read_list-IsLocal read p = bind-IsLocal _ count-IsLocal λ n. read_many-IsLocal read n p
