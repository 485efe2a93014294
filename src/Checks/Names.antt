-- ===== src/Checks/Names.antt =====
-- The checks and groups that a specification can name, without the tables of `resolveCheckSpec`.
use mathlib.Core.Option.{Option, none, some}
use giga_drill_breaker.Common.{
  ◌≡◌, refl, sym, ap, ◌∙◌, String, Bool, true, false, ◌&&◌, ◌||◌, List, [], ◌∷◌, ◌++◌, arith, ◌==◌,
  string_eq, has_name, has_name-append, has_name-insert_name, insert_name,
}
use giga_drill_breaker.Common.Map
use giga_drill_breaker.Common.Map.{Map}
use giga_drill_breaker.Checks.{
  CheckInfo, Registry, Vocabulary, builtin_anneal_checks, join_groups, learn_builtin, learn_names,
  learn_groups, vocabulary,
}

-- One of the checks has this name.
abbrev pub is_named : List CheckInfo → String → Bool
is_named [] c = false
is_named (i ∷ is) c = i.name == c || is_named is c

-- One of the checks is in this group.
abbrev pub is_tag : List CheckInfo → String → Bool
is_tag [] g = false
is_tag (i ∷ is) g = has_name i.groups g || is_tag is g

-- The check of this name is in this group.
abbrev pub is_tagged : List CheckInfo → String → String → Bool
is_tagged [] g c = false
is_tagged (i ∷ is) g c = (has_name i.groups g && i.name == c) || is_tagged is g c

abbrev pub has_group : Map String (List String) → String → Bool
has_group [] g = false
has_group ((h, members) ∷ rest) g = h == g || has_group rest g

abbrev pub is_member : Map String (List String) → String → String → Bool
is_member [] g c = false
is_member ((h, members) ∷ rest) g c = (h == g && has_name members c) || is_member rest g c

-- A check of the program or of an extension.
abbrev pub is_check : Registry → String → Bool
is_check r c = is_named builtin_anneal_checks c || has_name r.check_names c

-- `all`, a group of one of the program's checks, or one that an extension registered.
abbrev pub is_group : Registry → String → Bool
is_group r g = "all" == g || (is_tag builtin_anneal_checks g || has_group r.check_groups g)

-- What stands in a group: every check in `all`, and what the checks and the extensions say.
abbrev pub stands_in : Registry → String → String → Bool
stands_in r g c =
    ("all" == g && is_check r c)
    || (is_tagged builtin_anneal_checks g c || is_member r.check_groups g c)

abbrev list_of : Option (List String) → List String
list_of none = []
list_of (some xs) = xs

abbrev is_known : Option (List String) → Bool
is_known none = false
is_known (some members) = true

known-push :
    (k g c : String) (m : Map String (List String))
    → is_known (Map.find g (Map.push k c m)) ≡ (k == g || is_known (Map.find g m))
unfolding Map.push
known-push k g c m = ground (arith, Map.find-insert k g (Map.get_list k m ++ c ∷ []) m)

members-push :
    (k g s c : String) (m : Map String (List String))
    → has_name (Map.get_list g (Map.push k s m)) c
      ≡ ((k == g && s == c) || has_name (Map.get_list g m) c)
members-push k g s c m = elim (string_eq.dec k g) [
  | yes e ↦ ground (
    arith,
    Map.get_list-push k g s m,
    has_name-append c (Map.get_list k m) (s ∷ []),
    ap (λ x. has_name (Map.get_list x m) c) e,
  )
  | no ne ↦ ground (arith, Map.get_list-push k g s m)
]

known-join_groups :
    (name g : String) (gs : List String) (m : Map String (List String))
    → is_known (Map.find g (join_groups name gs m)) ≡ (has_name gs g || is_known (Map.find g m))
unfolding join_groups
known-join_groups name g [] m = refl
known-join_groups name g (h ∷ gs) m =
    ground (arith, known-join_groups name g gs (Map.push h name m), known-push h g name m)

members-join_groups :
    (name g c : String) (gs : List String) (m : Map String (List String))
    → has_name (Map.get_list g (join_groups name gs m)) c
      ≡ ((has_name gs g && name == c) || has_name (Map.get_list g m) c)
unfolding join_groups
members-join_groups name g c [] m = refl
members-join_groups name g c (h ∷ gs) m =
    ground (arith, members-join_groups name g c gs (Map.push h name m), members-push h g name c m)

-- What a part of the tables says once more of them is learnt.
record Learns (v w : Vocabulary) (named tag : String → Bool) (tagged : String → String → Bool)
    : Type 0 where
  pub checks : (c : String) → has_name w.known c ≡ (named c || has_name v.known c)
  pub groups :
      (g : String) → is_known (Map.find g w.groups) ≡ (tag g || is_known (Map.find g v.groups))
  pub members :
      (g c : String)
      → has_name (Map.get_list g w.groups) c ≡ (tagged g c || has_name (Map.get_list g v.groups) c)

some_check : List CheckInfo → Bool
some_check [] = false
some_check (c ∷ cs) = true

builtin_Learns :
    (cs : List CheckInfo) (v : Vocabulary)
    → Learns v
        (learn_builtin cs v)
        (is_named cs)
        (λ g. ("all" == g && some_check cs) || is_tag cs g)
        (λ g c. ("all" == g && is_named cs c) || is_tagged cs g c)
unfolding learn_builtin some_check
builtin_Learns [] v = record {
  checks = λ c. refl;
  groups = λ g. ground arith;
  members = λ g c. ground arith;
}
builtin_Learns (i ∷ is) v =
    let m = Map.push "all" i.name v.groups in
    let w : Vocabulary = record {
      known = insert_name i.name v.known;
      groups = join_groups i.name i.groups m;
    } in
    let rest = builtin_Learns is w in
    record {
      checks = λ c. ground (arith, rest.checks c, has_name-insert_name c i.name v.known);
      groups = λ g. ground (
        arith,
        rest.groups g,
        known-join_groups i.name g i.groups m,
        known-push "all" g i.name v.groups,
      );
      members = λ g c. ground (
        arith,
        rest.members g c,
        members-join_groups i.name g c i.groups m,
        members-push "all" g i.name c v.groups,
      );
    }

some_name : List String → Bool
some_name [] = false
some_name (s ∷ ss) = true

names_Learns :
    (ss : List String) (v : Vocabulary)
    → Learns v
        (learn_names ss v)
        (has_name ss)
        (λ g. "all" == g && some_name ss)
        (λ g c. "all" == g && has_name ss c)
unfolding learn_names some_name
names_Learns [] v = record {
  checks = λ c. refl;
  groups = λ g. ground arith;
  members = λ g c. ground arith;
}
names_Learns (s ∷ ss) v =
    let w : Vocabulary = record {
      known = insert_name s v.known;
      groups = Map.push "all" s v.groups;
    } in
    let rest = names_Learns ss w in
    record {
      checks = λ c. ground (arith, rest.checks c, has_name-insert_name c s v.known);
      groups = λ g. ground (arith, rest.groups g, known-push "all" g s v.groups);
      members = λ g c. ground (arith, rest.members g c, members-push "all" g s c v.groups);
    }

known-insert :
    (k g : String) (ms : List String) (m : Map String (List String))
    → is_known (Map.find g (Map.insert k ms m)) ≡ (k == g || is_known (Map.find g m))
known-insert k g ms m = ground (arith, Map.find-insert k g ms m)

members-insert :
    (k g c : String) (ms : List String) (m : Map String (List String))
    → has_name (Map.get_list g (Map.insert k (Map.get_list k m ++ ms) m)) c
      ≡ ((k == g && has_name ms c) || has_name (Map.get_list g m) c)
members-insert k g c ms m = elim (string_eq.dec k g) [
  | yes e ↦ ground (
    arith,
    Map.get_list-insert k g (Map.get_list k m ++ ms) m,
    has_name-append c (Map.get_list k m) ms,
    ap (λ x. has_name (Map.get_list x m) c) e,
  )
  | no ne ↦ ground (arith, Map.get_list-insert k g (Map.get_list k m ++ ms) m)
]

groups_Learns :
    (gs : Map String (List String)) (v : Vocabulary)
    → Learns v (learn_groups gs v) (λ c. false) (has_group gs) (is_member gs)
unfolding learn_groups
groups_Learns [] v = record { checks = λ c. refl; groups = λ g. refl; members = λ g c. refl }
groups_Learns ((h, ms) ∷ gs) v =
    let w : Vocabulary = record v {
      groups = Map.insert h (Map.get_list h v.groups ++ ms) v.groups;
    } in
    let rest = groups_Learns gs w in
    record {
      checks = λ c. rest.checks c;
      groups = λ g.
          ground (arith, rest.groups g, known-insert h g (Map.get_list h v.groups ++ ms) v.groups);
      members = λ g c. ground (arith, rest.members g c, members-insert h g c ms v.groups);
    }

abbrev nothing : Vocabulary
nothing = record { known = []; groups = [] }

-- The tables say exactly this.
pub record Describes (r : Registry) (v : Vocabulary) : Type 0 where
  pub checks : (c : String) → has_name v.known c ≡ is_check r c
  pub found :
      (g : String) (ms : List String)
      → Map.find g v.groups ≡ some ms
      → (is_group r g ≡ true) × ((c : String) → has_name ms c ≡ stands_in r g c)
  pub missing : (g : String) → Map.find g v.groups ≡ none → is_group r g ≡ false

abbrev built : Registry → Vocabulary
built r =
    learn_groups r.check_groups
      (learn_names r.check_names (learn_builtin builtin_anneal_checks nothing))

some_builtin : some_check builtin_anneal_checks ≡ true
unfolding some_check builtin_anneal_checks
some_builtin = refl

module _ (r : Registry) where
  built_checks : (c : String) → has_name (built r).known c ≡ is_check r c
  built_checks c =
      let x = (builtin_Learns builtin_anneal_checks nothing).checks c in
      let y = (names_Learns r.check_names (learn_builtin builtin_anneal_checks nothing)).checks c in
      let z =
        (groups_Learns r.check_groups
            (learn_names r.check_names (learn_builtin builtin_anneal_checks nothing))).checks
          c in
      ground (arith, x, y, z)

  built_groups : (g : String) → is_known (Map.find g (built r).groups) ≡ is_group r g
  unfolding Map.find
  built_groups g =
      let x = (builtin_Learns builtin_anneal_checks nothing).groups g in
      let y = (names_Learns r.check_names (learn_builtin builtin_anneal_checks nothing)).groups g in
      let z =
        (groups_Learns r.check_groups
            (learn_names r.check_names (learn_builtin builtin_anneal_checks nothing))).groups
          g in
      ground (arith, x, y, z, some_builtin)

  built_members : (g c : String) → has_name (Map.get_list g (built r).groups) c ≡ stands_in r g c
  unfolding Map.find Map.get_list
  built_members g c =
      let x = (builtin_Learns builtin_anneal_checks nothing).members g c in
      let y =
        (names_Learns r.check_names (learn_builtin builtin_anneal_checks nothing)).members g c in
      let z =
        (groups_Learns r.check_groups
            (learn_names r.check_names (learn_builtin builtin_anneal_checks nothing))).members
          g c in
      ground (arith, x, y, z)

  pub vocabulary-Describes : Describes r (vocabulary r)
  unfolding vocabulary
  vocabulary-Describes = record {
    checks = built_checks;
    found = λ g ms h. (
      sym (built_groups g) ∙ ap is_known h,
      λ c.
          sym (ap (λ xs. has_name xs c) (Map.get_list_lem g (built r).groups ∙ ap list_of h))
          ∙ built_members g c,
    );
    missing = λ g h. sym (built_groups g) ∙ ap is_known h;
  }
