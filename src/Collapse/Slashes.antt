-- ===== src/Collapse/Slashes.antt =====
-- The patterns of the filter, by the slashes at their ends.
use Prim.Native.Char.{Char, code}
use Prim.Native.String.{◌++◌ as ◌<>◌}
use text.Mathlib.TextEquality.{Char-path}
use text.Mathlib.TextLemmas.{nil-append, cons-append, cons≢nil}
use giga_drill_breaker.Common.{
  ◌≡◌, refl, sym, ap, ◌∙◌, ◌≢◌, ◌⊎◌, inl, inr, String, true, arith, ◌==◌, nat_eq, string_eq,
  ℕ_discrete, if◌then◌else◌, Bool-cases, subst,
}
use giga_drill_breaker.Collapse.{starts_slash, ends_slash, lead, normalize}

abbrev pub BeginsWithSlash : String → Type 0
BeginsWithSlash p = (s : String) × (p ≡ "/" <> s)

abbrev pub EndsWithSlash : String → Type 0
EndsWithSlash p = (s : String) × (p ≡ s <> "/")

-- The second text is the first with a slash put in front, where there is none.
abbrev pub Fronted : String → String → Type 0
Fronted p m = (BeginsWithSlash p × (m ≡ p)) ⊎ (¬ BeginsWithSlash p × (m ≡ "/" <> p))

abbrev pub Backed : String → String → Type 0
Backed m q = (EndsWithSlash m × (q ≡ m)) ⊎ (¬ EndsWithSlash m × (q ≡ m <> "/"))

-- A pattern and what the filter looks for: an empty one as it is, any other with a slash at each end.
abbrev pub Slashed : String → String → Type 0
Slashed p q = ((p ≡ "") × (q ≡ "")) ⊎ ((p ≢ "") × ((m : String) × Fronted p m × Backed m q))

abbrev slash : Char
slash = "/"

slash-append : (s : String) → "/" <> s ≡ String.◌∷◌ slash s
slash-append s = cons-append slash "" s ∙ ap (λ t. String.◌∷◌ slash t) (nil-append s)

slash_of_code : (c : Char) → (code c == b'/') ≡ true → c ≡ slash
slash_of_code c h = Char-path c slash (ground arith)

begins_of : (p : String) → starts_slash p ≡ true → BeginsWithSlash p
unfolding starts_slash
begins_of String.[] h = absurd (ground arith)
begins_of (String.◌∷◌ c s) h =
    (s, ap (λ d. String.◌∷◌ d s) (slash_of_code c h) ∙ sym (slash-append s))

of_begins : (p s : String) → p ≡ "/" <> s → starts_slash p ≡ true
unfolding starts_slash ℕ_discrete
of_begins p s e = ap starts_slash (e ∙ slash-append s)

ends_of : (p : String) → ends_slash p ≡ true → EndsWithSlash p
unfolding ends_slash
ends_of String.[] h = absurd (ground arith)
ends_of (String.◌∷◌ c String.[]) h =
    ("", ap (λ d. String.◌∷◌ d "") (slash_of_code c h) ∙ sym (nil-append "/"))
ends_of (String.◌∷◌ c (String.◌∷◌ d s)) h =
    let (t, e) = ends_of (String.◌∷◌ d s) h in
    (String.◌∷◌ c t, ap (λ u. String.◌∷◌ c u) e ∙ sym (cons-append c t "/"))

ends-append : (s : String) → ends_slash (s <> "/") ≡ true
unfolding ends_slash ℕ_discrete
ends-append String.[] = ap ends_slash (nil-append "/")
ends-append (String.◌∷◌ c String.[]) =
    ap ends_slash (cons-append c "" "/" ∙ ap (λ t. String.◌∷◌ c t) (nil-append "/"))
ends-append (String.◌∷◌ c (String.◌∷◌ d s)) =
    ap ends_slash
      (cons-append c (String.◌∷◌ d s) "/" ∙ ap (λ t. String.◌∷◌ c t) (cons-append d s "/"))
    ∙ (ap ends_slash (sym (cons-append d s "/")) ∙ ends-append (String.◌∷◌ d s))

lead-Fronted : (p : String) → p ≢ "" → Fronted p (lead p)
unfolding lead
lead-Fronted p full = elim (Bool-cases (starts_slash p)) [
  | inl h ↦ inl (begins_of p h, ground arith)
  | inr h ↦ inr ((λ (s, e). let t = of_begins p s e in absurd (ground arith)), ground arith)
]

lead_full : (p : String) → p ≢ "" → lead p ≢ ""
unfolding lead
lead_full p full = elim (Bool-cases (starts_slash p)) [
  | inl h ↦ λ e. full (ground arith)
  | inr h ↦ λ e. cons≢nil (sym (slash-append p) ∙ ground arith)
]

back_lem : (m : String) → m ≢ "" → Backed m (if ends_slash m then m else m <> "/")
back_lem m full = elim (Bool-cases (ends_slash m)) [
  | inl h ↦ inl (ends_of m h, ground arith)
  | inr h ↦
      inr
        ((λ (s, e). let t = ap ends_slash e ∙ ends-append s in absurd (ground arith)), ground arith)
]

normalize_step :
    (p : String)
    → normalize p
      ≡ (if lead p == "" then lead p else if ends_slash (lead p) then lead p else lead p <> "/")
unfolding normalize
normalize_step p = refl

lead_empty : (p : String) → p ≡ "" → lead p ≡ ""
unfolding lead
lead_empty p e = ground arith

-- The constructor's text for a pattern.
pub Slashed-normalize : (p : String) → Slashed p (normalize p)
Slashed-normalize p = elim (string_eq.dec p "") [
  | yes e ↦ inl (e, ground (arith, normalize_step p, lead_empty p e))
  | no full ↦
      let e : normalize p ≡ (if ends_slash (lead p) then lead p else lead p <> "/") =
        ground (arith, normalize_step p, lead_full p full) in
      inr (
        full,
        (
          lead p,
          lead-Fronted p full,
          subst (Backed (lead p)) (sym e) (back_lem (lead p) (lead_full p full)),
        ),
      )
]

Fronted-unique : (p m n : String) → Fronted p m → Fronted p n → m ≡ n
Fronted-unique p m n (inl (_, e)) (inl (_, f)) = e ∙ sym f
Fronted-unique p m n (inl (b, e)) (inr (no_slash, f)) = absurd (no_slash b)
Fronted-unique p m n (inr (no_slash, e)) (inl (b, f)) = absurd (no_slash b)
Fronted-unique p m n (inr (_, e)) (inr (_, f)) = e ∙ sym f

Backed-unique : (p m n : String) → Backed p m → Backed p n → m ≡ n
Backed-unique p m n (inl (_, e)) (inl (_, f)) = e ∙ sym f
Backed-unique p m n (inl (b, e)) (inr (no_slash, f)) = absurd (no_slash b)
Backed-unique p m n (inr (no_slash, e)) (inl (b, f)) = absurd (no_slash b)
Backed-unique p m n (inr (_, e)) (inr (_, f)) = e ∙ sym f

-- There is no other such text.
pub Slashed-unique : (p q r : String) → Slashed p q → Slashed p r → q ≡ r
Slashed-unique p q r (inl (_, e)) (inl (_, f)) = e ∙ sym f
Slashed-unique p q r (inl (e, _)) (inr (full, _)) = absurd (full e)
Slashed-unique p q r (inr (full, _)) (inl (e, _)) = absurd (full e)
Slashed-unique p q r (inr (_, (m, a, b))) (inr (_, (n, c, d))) =
    Backed-unique n q r (subst (λ x. Backed x q) (Fronted-unique p m n a c) b) d
