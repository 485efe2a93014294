-- ===== src/Contexts/Codes.antt =====
-- The parts of a key, one after the other.
use giga_drill_breaker.Common.{
  ℕ, ◌<◌, ◌%◌, ◌/◌, ◌^◌, ◌≡◌, refl, sym, ap, ◌∙◌, Bool, true, false, [], ◌∷◌, ◌++◌, arith, length,
}
use giga_drill_breaker.Contexts.{Bytes, key_u32, key_str, key_flag}

-- What follows a code does not blur it.
abbrev pub IsCode {ℓ} : {A : Type ℓ} → (A → Bytes) → (A → Type 0) → Type ℓ
IsCode {A} enc Fits =
    (a b : A) (r q : Bytes) → Fits a → Fits b → enc a ++ r ≡ enc b ++ q → (a ≡ b) × (r ≡ q)

pub append_assoc : (a b c : Bytes) → (a ++ b) ++ c ≡ a ++ (b ++ c)
append_assoc [] b c = refl
append_assoc (x ∷ a) b c = ap (λ l. x ∷ l) (append_assoc a b c)

pub digits :
    (v w : ℕ)
    → v < 4294967296
    → w < 4294967296
    → v % 256 ≡ w % 256
    → v / 256 % 256 ≡ w / 256 % 256
    → v / 65536 % 256 ≡ w / 65536 % 256
    → v / 16777216 % 256 ≡ w / 16777216 % 256
    → v ≡ w
digits v w p q a b c d = omega arith

same_length : (s t r q : Bytes) → length s ≡ length t → s ++ r ≡ t ++ q → (s ≡ t) × (r ≡ q)
same_length [] [] r q h e = (refl, e)
same_length [] (y ∷ t) r q h e = absurd (ground arith)
same_length (x ∷ s) [] r q h e = absurd (ground arith)
same_length (x ∷ s) (y ∷ t) r q h e =
    let rest : s ++ r ≡ t ++ q = ground arith in
    let (p, p') = same_length s t r q (omega arith) rest in (ground arith, p')

-- A number that fits a uint32_t.
abbrev pub IsU32 : ℕ → Type 0
IsU32 n = n < 2 ^ 32

pub key_u32-IsCode : IsCode key_u32 IsU32
unfolding key_u32
key_u32-IsCode v w r q p p' e = (
  digits v w (omega arith) (omega arith) (ground arith) (ground arith) (ground arith)
      (ground arith),
  ground arith,
)

pub flag_code : (a b : Bool) (r q : Bytes) → key_flag a ++ r ≡ key_flag b ++ q → (a ≡ b) × (r ≡ q)
unfolding key_flag
flag_code true true r q e = (refl, ground arith)
flag_code false false r q e = (refl, ground arith)
flag_code true false r q e = absurd (ground arith)
flag_code false true r q e = absurd (ground arith)

-- A text whose length fits.
abbrev pub IsText : Bytes → Type 0
IsText s = IsU32 (length s)

pub key_str-IsCode : IsCode key_str IsText
unfolding key_str
key_str-IsCode s t r q p p' e =
    let (same, rest) =
      key_u32-IsCode (length s % 2 ^ 32) (length t % 2 ^ 32) (s ++ r) (t ++ q) (omega arith)
        (omega arith)
        (sym (append_assoc (key_u32 (length s % 2 ^ 32)) s r)
          ∙ e
          ∙ append_assoc (key_u32 (length t % 2 ^ 32)) t q) in
    same_length s t r q (omega arith) rest
