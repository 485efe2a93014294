-- ===== src/Checks/Tests.antt =====
-- Runs of the check specifications, and their theorem on one of them.
use Prim.Native.Char.{Char, code}
use Prim.Native.String.{◌++◌ as ◌<>◌}
use text.Mathlib.TextLemmas.{head-eq_of_cons-eq}
use giga_drill_breaker.Common.{
  ℕ, zero, suc, ◌≡◌, ◌≢◌, refl, ap, ◌∙◌, arith, Option, none, some, map, get_elem?, String, true,
  false, List, [], ◌∷◌, string_eq, has_name, ℕ_discrete,
}
use giga_drill_breaker.Common.Map
use giga_drill_breaker.Checks.{
  Registry, Entry, builtin_anneal_checks, check, join_groups, learn_builtin, learn_names,
  learn_groups, vocabulary, read_entry, apply_all, meaning, resolve_entries, resolve_check_spec,
}
use giga_drill_breaker.Checks.Resolution.{
  is_accepted, minus-append, spelling, IsSpelled, all_meant, set_of, or_before, last_word,
  meant_prefix, resolve_check_spec_lem,
}

abbrev no_extensions : Registry
no_extensions = record { check_names = []; check_groups = [] }

-- Everything, without the noisy checks, but with one of them.
abbrev spec : List String
spec = "all" ∷ "-noisy" ∷ "exception-escape" ∷ []

spec_accepted : is_accepted (resolve_check_spec no_extensions spec []) ≡ true
unfolding resolve_check_spec resolve_entries vocabulary builtin_anneal_checks check join_groups
    learn_builtin learn_names learn_groups read_entry apply_all meaning Map.find Map.insert Map.push
    Map.get_list string_eq ℕ_discrete
spec_accepted = refl

-- The same specification, entry by entry.
abbrev entries : List Entry
entries =
    record { disable = false; name = "all" }
    ∷ record { disable = true; name = "noisy" }
    ∷ record { disable = false; name = "exception-escape" }
    ∷ []

abbrev name_of : Option Entry → String
name_of none = ""
name_of (some e) = e.name

no_minus : (c : Char) (t s : String) → code c ≢ b'-' → String.◌∷◌ c t ≢ "-" <> s
no_minus c t s n e = n (ap code (head-eq_of_cons-eq (e ∙ minus-append s)))

entries-IsSpelled : (i : ℕ) (e : Entry) → get_elem? entries i ≡ some e → IsSpelled e
entries-IsSpelled zero e h d s p =
    no_minus "a" "ll" s (λ q. absurd (omega arith)) (ap name_of h ∙ p)
entries-IsSpelled (suc zero) e h d s p = absurd (ground arith)
entries-IsSpelled (suc (suc zero)) e h d s p =
    no_minus "e" "xception-escape" s (λ q. absurd (omega arith)) (ap name_of h ∙ p)
entries-IsSpelled (suc (suc (suc i))) e h d s p = absurd (ground arith)

resolve_check_spec_lem_example :
    (is_accepted (resolve_check_spec no_extensions (map spelling entries) [])
      ≡ all_meant no_extensions entries)
    × (has_name
          (set_of (resolve_check_spec no_extensions (map spelling entries) []))
          "exception-escape"
        ≡ or_before
            (last_word no_extensions "exception-escape" (meant_prefix no_extensions entries))
            (has_name [] "exception-escape"))
resolve_check_spec_lem_example =
    resolve_check_spec_lem no_extensions entries [] "exception-escape" entries-IsSpelled

entries_meant : all_meant no_extensions entries ≡ true
unfolding builtin_anneal_checks check string_eq ℕ_discrete
entries_meant = refl

-- A name that is neither is refused.
unknown_refused : all_meant no_extensions (record { disable = false; name = "nosuch" } ∷ []) ≡ false
unfolding builtin_anneal_checks check string_eq ℕ_discrete
unknown_refused = refl
