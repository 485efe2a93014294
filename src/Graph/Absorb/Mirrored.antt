-- ===== src/Graph/Absorb/Mirrored.antt =====
-- The relations after `absorb`.
use giga_drill_breaker.Common.{ℕ, List, [], ◌∷◌}
use giga_drill_breaker.Graph.Closure.{Relation}
use giga_drill_breaker.Graph.Relations.{
  Relations, IsMirrored, add_plain-IsMirrored, add_pairs-IsMirrored,
}
use giga_drill_breaker.Graph.Absorb.{remapped, absorb_pairs, absorb_relation, absorb_relations}

module _ (add : ℕ → ℕ → Relations → Relations)
    (keeps : (a b : ℕ) (r : Relations) → IsMirrored r → IsMirrored (add a b r))
    (remap : List ℕ) where
  absorb_pairs-IsMirrored :
      (a : ℕ) (bs : List ℕ) (r : Relations)
      → IsMirrored r
      → IsMirrored (absorb_pairs add remap a bs r)
  unfolding absorb_pairs
  absorb_pairs-IsMirrored a [] r ok = ok
  absorb_pairs-IsMirrored a (b ∷ bs) r ok =
      absorb_pairs-IsMirrored a bs _ (keeps (remapped remap a) (remapped remap b) r ok)

  absorb_relation-IsMirrored :
      (shard : Relation) (r : Relations)
      → IsMirrored r
      → IsMirrored (absorb_relation add remap shard r)
  unfolding absorb_relation
  absorb_relation-IsMirrored [] r ok = ok
  absorb_relation-IsMirrored ((a, bs) ∷ rest) r ok =
      absorb_relation-IsMirrored rest _ (absorb_pairs-IsMirrored a bs r ok)

pub absorb_relations-IsMirrored :
    (remap : List ℕ) (shard r : Relations)
    → IsMirrored r
    → IsMirrored (absorb_relations remap shard r)
unfolding absorb_relations
absorb_relations-IsMirrored remap shard r ok =
    absorb_relation-IsMirrored _ (λ a b q k. (add_pairs-IsMirrored a b q k).1) remap _ _
      (absorb_relation-IsMirrored _ (λ a b q k. (add_plain-IsMirrored b a q k).1) remap _ _
        (absorb_relation-IsMirrored _ (λ a b q k. (add_pairs-IsMirrored a b q k).0) remap _ _
          (absorb_relation-IsMirrored _ (λ a b q k. (add_plain-IsMirrored a b q k).0) remap _ _
            ok)))
