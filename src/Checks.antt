-- ===== src/Checks.antt =====
-- src/anneal/CheckSet.cpp: named checks and the ordered specifications that select them.
pub mod Names
pub mod Resolution
mod Tests
use Prim.Native.Char.{code}
use Prim.Native.String.{◌++◌ as ◌<>◌}
use giga_drill_breaker.Common.{
  ℕ, String, Bool, true, false, ◌||◌, Option, none, some, List, [], ◌∷◌, ◌++◌, if◌then◌else◌, ◌==◌,
  string_eq, nat_eq, has_name, insert_name, erase_name,
}
use giga_drill_breaker.Common.Map
use giga_drill_breaker.Common.Map.{Map}

pub record CheckInfo : Type 0 where
  pub name : String
  pub summary : String
  pub default_on : Bool
  pub groups : List String

check : String → String → Bool → List String → CheckInfo
check name summary default_on groups = record {
  name = name;
  summary = summary;
  default_on = default_on;
  groups = groups;
}

unfoldable pub builtin_anneal_checks : List CheckInfo
unfolding check
builtin_anneal_checks =
    check "adl-visibility" "Fragile ADL resolutions: an invisible overload would win or tie" true []
    ∷ check "ctad-visibility" "CTAD deducing differently because a deduction guide is not included"
        true []
    ∷ check "specialization-visibility"
        "TU instantiates a primary template whose explicit specialization exists elsewhere (IFNDR)"
        true []
    ∷ check "default-arg-divergence"
        "Declaration sites that disagree on a parameter's default argument" true []
    ∷ check "static-init-order"
        "Dynamic initializers reading another TU's dynamically-initialized global (SIOF)" true []
    ∷ check "static-init-hazards"
        "Static initializers reaching dlopen/dlsym or thread create/join (loader-lock deadlock risk)"
        false ("compute-heavy" ∷ [])
    ∷ check "header-static-duplication"
        "Mutable header-defined statics materialized by multiple TUs (forked per-TU state)" true []
    ∷ check "exception-spec-divergence"
        "Declaration sites that disagree on whether a function can throw" true []
    ∷ check "exception-escape"
        "noexcept functions that can transitively reach an uncaught throw across TUs" false
        ("noisy" ∷ [])
    ∷ check "odr-violations" "Vague-linkage definitions that differ across sites or TUs" false
        ("compute-heavy" ∷ [])
    ∷ check "coverage-properties"
        "GVA linkage / COMDAT properties that make coverage records vanish" false ("noisy" ∷ [])
    ∷ check "dead-code" "Functions unreachable from the entry points via the call graph" false
        ("compute-heavy" ∷ [])
    ∷ []

-- What the organization's extensions registered at start-up.
pub record Registry : Type 0 where
  pub check_names : List String
  pub check_groups : Map String (List String)

insert_names : List String → List String → List String
insert_names [] set = set
insert_names (s ∷ ss) set = insert_names ss (insert_name s set)

default_on_names : List CheckInfo → List String → List String
default_on_names [] set = set
default_on_names (c ∷ cs) set =
    default_on_names cs (if c.default_on then insert_name c.name set else set)

unfoldable pub default_check_set : Registry → List String
unfolding insert_names default_on_names builtin_anneal_checks
default_check_set r = insert_names r.check_names (default_on_names builtin_anneal_checks [])

-- The two tables that `resolveCheckSpec` fills before it reads the specification.
pub record Vocabulary : Type 0 where
  pub known : List String
  pub groups : Map String (List String)

join_groups : String → List String → Map String (List String) → Map String (List String)
join_groups name [] m = m
join_groups name (group ∷ gs) m = join_groups name gs (Map.push group name m)

learn_builtin : List CheckInfo → Vocabulary → Vocabulary
learn_builtin [] v = v
learn_builtin (c ∷ cs) v = learn_builtin cs (record {
  known = insert_name c.name v.known;
  groups = join_groups c.name c.groups (Map.push "all" c.name v.groups);
})

learn_names : List String → Vocabulary → Vocabulary
learn_names [] v = v
learn_names (s ∷ ss) v =
    learn_names ss (record { known = insert_name s v.known; groups = Map.push "all" s v.groups })

learn_groups : Map String (List String) → Vocabulary → Vocabulary
learn_groups [] v = v
learn_groups ((group, members) ∷ rest) v =
    learn_groups rest
      (record v { groups = Map.insert group (Map.get_list group v.groups ++ members) v.groups })

unfoldable pub vocabulary : Registry → Vocabulary
unfolding join_groups learn_builtin learn_names learn_groups builtin_anneal_checks
vocabulary r = learn_groups r.check_groups (
    learn_names r.check_names
      (learn_builtin builtin_anneal_checks (record { known = []; groups = [] })))

-- An entry of a specification: `-` in front disables.
pub record Entry : Type 0 where
  pub disable : Bool
  pub name : String

unfoldable pub read_entry : String → Entry
read_entry String.[] = record { disable = false; name = "" }
read_entry (String.◌∷◌ c s) =
    if code c == b'-'
    then record { disable = true; name = s }
    else record { disable = false; name = String.◌∷◌ c s }

pub apply_all : Bool → List String → List String → List String
apply_all disable [] enabled = enabled
apply_all disable (m ∷ ms) enabled =
    apply_all disable ms (if disable then erase_name m enabled else insert_name m enabled)

-- The checks that an entry stands for: the members of a group, or one known check.
pub data Meaning : Type 0 where
  checks : List String → Meaning
  empty_entry unknown_name : Meaning

unfoldable pub meaning : Vocabulary → Entry → Meaning
meaning v e = if e.name == "" then empty_entry else elim (Map.find e.name v.groups) [
  | some members ↦ checks members
  | none ↦ if has_name v.known e.name then checks (e.name ∷ []) else unknown_name
]

-- The function returns whether it accepted the specification; `enabled` was written up to the entry
-- that it refused.
pub data Verdict : Type 0 where
  accepted : List String → Verdict
  refused : String → List String → Verdict

abbrev pub complaint : Entry → Meaning → String
complaint e empty_entry = "empty entry in checks specification"
complaint e unknown_name =
    "unknown check or group '" <> (e.name <> "' (see docs/checks/README.md for the list)")
complaint e (checks _) = ""

unfoldable pub resolve_entries : Vocabulary → List String → List String → Verdict
resolve_entries v [] enabled = accepted enabled
resolve_entries v (raw ∷ rest) enabled =
    let e = read_entry raw in
    elim (meaning v e) [
      | checks members ↦ resolve_entries v rest (apply_all e.disable members enabled)
      | empty_entry ↦ refused (complaint e empty_entry) enabled
      | unknown_name ↦ refused (complaint e unknown_name) enabled
    ]

unfoldable pub resolve_check_spec : Registry → List String → List String → Verdict
unfolding resolve_entries vocabulary
resolve_check_spec r spec enabled = resolve_entries (vocabulary r) spec enabled
