-- ===== src/Oracle/Subtype.antt =====
-- Which handler catches which exception: `isSubtypeOf` and `isCaughtByScope`. The names of types are
-- bytes, as in the scopes.
use Prim.Native.Char.{code}
use giga_drill_breaker.Common.{
  ℕ, zero, suc, ◌≡◌, ap, ◌∙◌, String, Bool, true, false, ◌||◌, Option, none, some, List, [], ◌∷◌,
  arith, if◌then◌else◌, ◌==◌, nat_eq, Option-cases, inl, inr, ◌⊎◌,
}
use giga_drill_breaker.Contexts.{Bytes, CatchHandlerInfo, TryCatchScope}
use giga_drill_breaker.ControlFlow.Sets.{bytes_eq}

unfoldable pub bytes_of : String → Bytes
bytes_of String.[] = []
bytes_of (String.◌∷◌ c s) = code c ∷ bytes_of s

-- `stdExceptionHierarchy`
abbrev pub std_exception_hierarchy : List (String × String)
std_exception_hierarchy =
    ("std::bad_alloc", "std::exception")
    ∷ ("std::bad_cast", "std::exception")
    ∷ ("std::bad_typeid", "std::exception")
    ∷ ("std::bad_function_call", "std::exception")
    ∷ ("std::bad_weak_ptr", "std::exception")
    ∷ ("std::bad_array_new_length", "std::bad_alloc")
    ∷ ("std::logic_error", "std::exception")
    ∷ ("std::runtime_error", "std::exception")
    ∷ ("std::domain_error", "std::logic_error")
    ∷ ("std::invalid_argument", "std::logic_error")
    ∷ ("std::length_error", "std::logic_error")
    ∷ ("std::out_of_range", "std::logic_error")
    ∷ ("std::overflow_error", "std::runtime_error")
    ∷ ("std::underflow_error", "std::runtime_error")
    ∷ ("std::range_error", "std::runtime_error")
    ∷ ("std::system_error", "std::runtime_error")
    ∷ ("std::ios_base::failure", "std::system_error")
    ∷ ("std::filesystem::filesystem_error", "std::system_error")
    ∷ []

-- The base of the first pair that has the type.
unfoldable pub base_of : List (String × String) → Bytes → Option Bytes
base_of [] t = none
base_of ((derived, base) ∷ pairs) t =
    if bytes_of derived == t then some (bytes_of base) else base_of pairs t

-- `while (!s.empty() && s.back() == c) s.pop_back()`
unfoldable pub trim_end : ℕ → Bytes → Bytes
trim_end c [] = []
trim_end c (x ∷ xs) = elim (trim_end c xs) [
  | [] ↦ if x == c then [] else x ∷ []
  | y ∷ ys ↦ x ∷ y ∷ ys
]

-- `if (s.compare(0, prefix.size(), prefix) == 0) s = s.substr(prefix.size())`
unfoldable pub without_prefix : Bytes → Bytes → Option Bytes
without_prefix [] s = some s
without_prefix (p ∷ ps) [] = none
without_prefix (p ∷ ps) (x ∷ xs) = if p == x then without_prefix ps xs else none

unfoldable pub drop_const : Bytes → Bytes
drop_const s = elim (without_prefix (bytes_of "const ") s) [ none ↦ s | some rest ↦ rest ]

unfoldable pub strip : Bytes → Bytes
strip t = trim_end b' ' (drop_const (trim_end b'&' t))

abbrev pub has_bytes : List Bytes → Bytes → Bool
has_bytes [] t = false
has_bytes (x ∷ xs) t = x == t || has_bytes xs t

-- The loop over the bases; the fuel bounds its rounds.
unfoldable pub climb : ℕ → List Bytes → Bytes → Bytes → Bool
climb zero visited current caught = false
climb (suc fuel) visited current caught = elim (base_of std_exception_hierarchy current) [
  | none ↦ false
  | some base ↦
      let rest = climb fuel (current ∷ visited) base caught in
      if base == caught then true else if has_bytes (current ∷ visited) base then false else rest
]

-- One more than the pairs of the table.
abbrev pub climb_fuel : ℕ
climb_fuel = 19

unfoldable pub is_subtype_of : Bytes → Bytes → Bool
is_subtype_of thrown caught =
    if thrown == caught
    then true
    else let t = strip thrown in
      let c = strip caught in if t == c then true else climb climb_fuel [] t c

unfoldable pub catches : Bytes → CatchHandlerInfo → Bool
catches exception h = h.is_catch_all || is_subtype_of exception h.caught_type

abbrev pub any_handler : Bytes → List CatchHandlerInfo → Bool
any_handler exception [] = false
any_handler exception (h ∷ hs) = catches exception h || any_handler exception hs

unfoldable pub is_caught_by_scope : Bytes → TryCatchScope → Bool
is_caught_by_scope exception scope = any_handler exception scope.handlers

-- One type derives from another in the table, in one step or several.
pub data Derives : Bytes → Bytes → Type 0 where
  direct : {t base : Bytes} → base_of std_exception_hierarchy t ≡ some base → Derives t base
  further :
      {t base c : Bytes}
      → base_of std_exception_hierarchy t ≡ some base
      → Derives base c
      → Derives t c

climb_sound :
    (fuel : ℕ) (visited : List Bytes) (current caught : Bytes)
    → climb fuel visited current caught ≡ true
    → Derives current caught
unfolding climb
climb_sound zero visited current caught h = absurd (ground arith)
climb_sound (suc fuel) visited current caught h =
    elim (Option-cases (base_of std_exception_hierarchy current)) [
      | inl top ↦ absurd (ground arith)
      | inr (base, e) ↦ elim (bytes_eq.dec base caught) [
        | yes same ↦ direct (e ∙ ap some same)
        | no differ ↦ further e (climb_sound fuel (current ∷ visited) base caught (ground arith))
      ]
    ]

-- A type is taken for a subtype only if it is the same, apart from reference and const, or derives
-- from the other in the table.
pub is_subtype_of_sound :
    (thrown caught : Bytes)
    → is_subtype_of thrown caught ≡ true
    → (thrown ≡ caught) ⊎ ((strip thrown ≡ strip caught) ⊎ Derives (strip thrown) (strip caught))
unfolding is_subtype_of
is_subtype_of_sound thrown caught h = elim (bytes_eq.dec thrown caught) [
  | yes e ↦ inl e
  | no ne ↦ elim (bytes_eq.dec (strip thrown) (strip caught)) [
    | yes e ↦ inr (inl e)
    | no ne' ↦ inr (inr (climb_sound climb_fuel [] (strip thrown) (strip caught) (ground arith)))
  ]
]
