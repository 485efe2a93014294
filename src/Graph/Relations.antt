-- ===== src/Graph/Relations.antt =====
-- The relations of src/callgraph/CallGraph.cpp in id space: the class hierarchy, method overrides,
-- effective implementations and function returns, each with its reverse where the source keeps one.
use giga_drill_breaker.Common.{
  ℕ, ◌≡◌, refl, [], ◌∷◌, true, arith, contains, insert_new, set_insert, if◌then◌else◌,
  contains-insert_new, contains-set_insert, contains-append, nat_eq, ite, ℕ_discrete,
}
use giga_drill_breaker.Common.Map
use giga_drill_breaker.Graph.Closure.{Relation}

pub record Relations : Type 0 where
  pub derived_classes : Relation
  pub method_overrides : Relation
  pub override_bases : Relation
  pub effective_impl_classes : Relation
  pub function_returns : Relation
  pub returned_by : Relation

pub empty : Relations
empty = record {
  derived_classes = [];
  method_overrides = [];
  override_bases = [];
  effective_impl_classes = [];
  function_returns = [];
  returned_by = [];
}

-- `auto &vec = m[a]; if (find(vec, b) == end) vec.push_back(b)`
pub add_pair : ℕ → ℕ → Relation → Relation
add_pair a b m = Map.insert a (insert_new b (Map.get_list a m)) m

pub add_derived_class : ℕ → ℕ → Relations → Relations
add_derived_class base derived r = record r {
  derived_classes = add_pair base derived r.derived_classes;
}

pub add_method_override : ℕ → ℕ → Relations → Relations
add_method_override base overriding r = record r {
  method_overrides = add_pair base overriding r.method_overrides;
  override_bases = add_pair overriding base r.override_bases;
}

pub add_effective_impl : ℕ → ℕ → Relations → Relations
add_effective_impl class_id impl r = record r {
  effective_impl_classes =
      Map.insert impl (set_insert class_id (Map.get_list impl r.effective_impl_classes))
        r.effective_impl_classes;
}

pub add_function_return : ℕ → ℕ → Relations → Relations
add_function_return func ret r =
    let known = Map.get_list func r.function_returns in
    record r {
      function_returns = Map.insert func (set_insert ret known) r.function_returns;
      returned_by = if contains known ret then r.returned_by else Map.push ret func r.returned_by;
    }

-- The maps that run backwards hold the same pairs.
pub record IsMirrored (r : Relations) : Type 0 where
  pub overrides :
      (a b : ℕ)
      → contains (Map.get_list a r.method_overrides) b
        ≡ contains (Map.get_list b r.override_bases) a
  pub returns :
      (a b : ℕ)
      → contains (Map.get_list a r.function_returns) b ≡ contains (Map.get_list b r.returned_by) a

pub empty-IsMirrored : IsMirrored empty
unfolding empty Map.get_list Map.find
empty-IsMirrored = record { overrides = λ a b. refl; returns = λ a b. refl }

contains-add_pair :
    (a b : ℕ) (m : Relation) (c d : ℕ)
    → contains (Map.get_list c (add_pair a b m)) d ≡ (
        ite
          (ℕ_discrete a c)
          (ite (ℕ_discrete b d) true (contains (Map.get_list c m) d))
          (contains (Map.get_list c m) d))
unfolding add_pair
contains-add_pair a b m c d = ground (
  arith,
  Map.get_list-insert a c (insert_new b (Map.get_list a m)) m,
  contains-insert_new b d (Map.get_list a m),
)

-- `addMethodOverride` and `addFunctionReturn` keep both directions of their relations in step.
pub add_pairs-IsMirrored :
    (a b : ℕ) (r : Relations)
    → IsMirrored r
    → IsMirrored (add_method_override a b r) × IsMirrored (add_function_return a b r)
unfolding add_method_override add_function_return
add_pairs-IsMirrored a b r ok = (
  record {
    overrides = λ c d. ground (
      arith,
      ok.overrides c d,
      contains-add_pair a b r.method_overrides c d,
      contains-add_pair b a r.override_bases d c,
    );
    returns = ok.returns;
  },
  record {
    overrides = ok.overrides;
    returns = λ c d. ground (
      arith,
      ok.returns c d,
      ok.returns a b,
      Map.get_list-insert a c (set_insert b (Map.get_list a r.function_returns)) r.function_returns,
      contains-set_insert b d (Map.get_list a r.function_returns),
      Map.get_list-push b d a r.returned_by,
      contains-append c (Map.get_list b r.returned_by) (a ∷ []),
    );
  },
)

-- The relations without a reverse leave the others alone.
pub add_plain-IsMirrored :
    (a b : ℕ) (r : Relations)
    → IsMirrored r
    → IsMirrored (add_derived_class a b r) × IsMirrored (add_effective_impl a b r)
unfolding add_derived_class add_effective_impl
add_plain-IsMirrored a b r ok = (
  record { overrides = ok.overrides; returns = ok.returns },
  record { overrides = ok.overrides; returns = ok.returns },
)
