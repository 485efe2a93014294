-- ===== src/Snapshot/Laws.antt =====
-- src/callgraph/Snapshot.cpp: what one reader gives on the bytes of its writer.
use giga_drill_breaker.Common.{
  ℕ, zero, suc, ◌*◌, ◌/◌, ◌%◌, ◌^◌, ◌≤◌, ◌<◌, ◌≡◌, refl, ap, ◌∙◌, subst, some, List, [], ◌∷◌, ◌++◌,
  arith, length, ltb, length-append, if_false,
}
use native.Mathlib.Nat.{pow-suc}
use giga_drill_breaker.Contexts.{Bytes}
use giga_drill_breaker.Contexts.Codes.{IsU32, IsText, append_assoc}
use giga_drill_breaker.Contexts.Keys.{All}
use giga_drill_breaker.Snapshot.{
  Reader, Read, reader, pure, ◌>>=◌, failed, put_bytes, put_u8, put_u32, put_u64, put_len_str, cut,
  chunk, join_bytes, u8, u32, u64, bytes, len_str, checked, count, read_many, read_list, emit_many,
  emit_list,
}

-- From any input that starts with these bytes, the code reads this value and leaves the others.
pub record Gives {A : Type 0} (m : Read A) (s : Bytes) (a : A) : Type 0 where
  pub gives : (r : Bytes) → m (reader (s ++ r)) ≡ (a, reader r)

pub Gives-pure : {A : Type 0} (a : A) → Gives (pure a) [] a
Gives-pure a = record { gives = λ r. refl }

pub Gives-bind :
    {A B : Type 0} {m : Read A} (f : A → Read B) {s t : Bytes} {a : A} {b : B}
    → Gives m s a
    → Gives (f a) t b
    → Gives (m >>= f) (s ++ t) b
unfolding ◌>>=◌
Gives-bind {m} f {s} {t} {a} {b} p q = record {
  gives = λ r.
      ap (λ x. (m >>= f) (reader x)) (append_assoc s t r)
      ∙ ap (λ x. f x.0 x.1) (p.gives (t ++ r))
      ∙ q.gives r;
}

pub Gives-last :
    {A B : Type 0} {m : Read A} (f : A → B) {s : Bytes} {a : A}
    → Gives m s a
    → Gives (m >>= λ x. pure (f x)) s (f a)
unfolding ◌>>=◌
Gives-last f p = record { gives = λ r. ap (λ x. (f x.0, x.1)) (p.gives r) }

pub cut-append : (s t : Bytes) → cut (length s) (s ++ t) ≡ some (s, t)
unfolding cut
cut-append [] t = refl
cut-append (b ∷ s) t = rw (cut-append s t)

chunk_lem : {A : Type 0} (d : A) (f : Bytes → A) (s : Bytes) → Gives (chunk (length s) d f) s (f s)
unfolding chunk
chunk_lem d f s = record { gives = λ r. rw (chunk, cut-append s r) }

pub length-put_bytes : (n v : ℕ) → length (put_bytes n v) ≡ n
unfolding put_bytes
length-put_bytes zero v = refl
length-put_bytes (suc n) v = ap suc (length-put_bytes n (v / 2 ^ 8))

-- The bytes of a number that fits join to it.
join_bytes-put_bytes : (n v : ℕ) → v < (2 ^ 8) ^ n → join_bytes (put_bytes n v) ≡ v
unfolding put_bytes join_bytes
join_bytes-put_bytes zero v h = omega arith
join_bytes-put_bytes (suc n) v h = omega (
  arith,
  join_bytes-put_bytes n (v / 2 ^ 8)
      (let e : (2 ^ 8) ^ suc n ≡ (2 ^ 8) ^ n * 2 ^ 8 = pow-suc (2 ^ 8) n in omega arith),
)

number_lem : (n v : ℕ) → v < (2 ^ 8) ^ n → Gives (chunk n 0 join_bytes) (put_bytes n v) v
number_lem n v h =
    subst (λ k. Gives (chunk k 0 join_bytes) (put_bytes n v) v) (length-put_bytes n v)
      (subst (λ w. Gives (chunk (length (put_bytes n v)) 0 join_bytes) (put_bytes n v) w)
        (join_bytes-put_bytes n v h) (chunk_lem 0 join_bytes (put_bytes n v)))

pub u32_lem : (v : ℕ) → IsU32 v → Gives u32 (put_u32 v) v
unfolding u32 put_u32
u32_lem v h = number_lem 4 v (omega arith)

pub u64_lem : (v : ℕ) → v < 2 ^ 64 → Gives u64 (put_u64 v) v
unfolding u64 put_u64
u64_lem v h = number_lem 8 v (omega arith)

pub u8_lem : (v : ℕ) → v < 2 ^ 8 → Gives u8 (put_u8 v) v
unfolding u8 put_u8
u8_lem v h = record { gives = λ r. ap (λ x. (x, reader r)) (omega arith) }

pub len_str_lem : (s : Bytes) → IsText s → Gives len_str (put_len_str s) s
unfolding len_str put_len_str bytes
len_str_lem s h =
    Gives-bind bytes (u32_lem (length s % 2 ^ 32) (omega arith))
      (subst (λ k. Gives (bytes k) s s) (omega arith) (chunk_lem [] (λ t. t) s))

-- What follows a count, where there are as many bytes.
checked_lem :
    {A : Type 0} (f : ℕ → Read A) (n : ℕ) (s : Bytes) (a : A)
    → n ≤ length s
    → Gives (f n) s a
    → Gives (checked n >>= f) s a
unfolding checked ◌>>=◌
checked_lem f n s a h g = record {
  gives = λ r.
      ap (λ (x : ℕ × Reader). f x.0 x.1)
        (if_false (ltb (length (s ++ r)) n) (0, failed (reader (s ++ r))) (n, reader (s ++ r))
          (ground (arith, length-append s r)))
      ∙ g.gives r;
}

pub count_lem :
    {A : Type 0} (f : ℕ → Read A) (n : ℕ) (s : Bytes) (a : A)
    → IsU32 n
    → n ≤ length s
    → Gives (f n) s a
    → Gives (count >>= f) (put_u32 (n % 2 ^ 32) ++ s) a
unfolding count ◌>>=◌
count_lem f n s a u h g =
    let d =
      Gives-bind (λ k. checked k >>= f) (u32_lem (n % 2 ^ 32) (omega arith))
        (subst (λ k. Gives (checked k >>= f) s a) (omega arith) (checked_lem f n s a h g)) in
    record { gives = d.gives }

-- Writer and reader of one kind of value, and that each value has a byte.
pub record IsCodec {A : Type 0} (emit : A → Bytes) (read : Read A) (Fits : A → Type 0)
    : Type 0 where
  pub long : (a : A) → 1 ≤ length (emit a)
  pub decodes : (a : A) → Fits a → Gives read (emit a) a

module _ {A : Type 0} (emit : A → Bytes) (read : Read A) (Fits : A → Type 0)
    (c : IsCodec emit read Fits) where
  pub length-emit_many : (xs : List A) → length xs ≤ length (emit_many emit xs)
  unfolding emit_many
  length-emit_many [] = omega arith
  length-emit_many (a ∷ xs) =
      omega (arith, c.long a, length-emit_many xs, length-append (emit a) (emit_many emit xs))

  read_many_lem :
      (xs : List A) → All Fits xs → Gives (read_many read (length xs)) (emit_many emit xs) xs
  unfolding read_many emit_many ◌>>=◌
  read_many_lem [] h = record { gives = λ r. refl }
  read_many_lem (a ∷ xs) h =
      let d =
        Gives-bind (λ b. read_many read (length xs) >>= λ bs. pure (b ∷ bs))
          (c.decodes a (h 0 a refl))
          (Gives-last (λ bs. a ∷ bs) (read_many_lem xs λ i x at. h (suc i) x at)) in
      record { gives = λ r. d.gives r }

  -- A vector with its length in front, where the length fits.
  pub read_list_lem :
      (xs : List A)
      → IsU32 (length xs)
      → All Fits xs
      → Gives (read_list read) (emit_list emit xs) xs
  unfolding read_list emit_list
  read_list_lem xs u h =
      count_lem (read_many read) (length xs) (emit_many emit xs) xs u (length-emit_many xs)
        (read_many_lem xs h)
