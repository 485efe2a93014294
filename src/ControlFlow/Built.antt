-- ===== src/ControlFlow/Built.antt =====
-- Every index that the operations build, with the list of contexts that they ought to leave.
use giga_drill_breaker.Common.{◌≡◌, not, some, String, List, [], ◌∷◌, ◌++◌, keep, length}
use giga_drill_breaker.ControlFlow.Types.{CallSiteContext}
use giga_drill_breaker.ControlFlow.State.{ControlFlowIndex, empty, size, add_call_site_context}
use giga_drill_breaker.ControlFlow.Queries.{all_contexts}
use giga_drill_breaker.ControlFlow.Removal.{remove_tus, compact}
use giga_drill_breaker.ControlFlow.Absorb.{absorb}
use giga_drill_breaker.ControlFlow.Represents.{
  Represents, empty-Represents, all_contexts-Represents,
}
use giga_drill_breaker.ControlFlow.Adding.{HasRoom, add_call_site_context-Represents}
use giga_drill_breaker.ControlFlow.Adding.Names.{normal}
use giga_drill_breaker.ControlFlow.Removing.{remove_tus-Represents, size-Represents}
use giga_drill_breaker.ControlFlow.Removing.Doomed.{is_from}
use giga_drill_breaker.ControlFlow.Compacting.{compact-Represents}
use giga_drill_breaker.ControlFlow.Merging.{CanMerge, absorb-Represents}

pub data Built : ControlFlowIndex → List CallSiteContext → Type 0 where
  fresh : Built empty []
  added :
      {idx : ControlFlowIndex} {cs : List CallSiteContext} (ctx : CallSiteContext)
      → HasRoom ctx idx
      → Built idx cs
      → Built (add_call_site_context ctx idx) (cs ++ normal ctx ∷ [])
  removed :
      {idx : ControlFlowIndex} {cs : List CallSiteContext} (tus : List String)
      → Built idx cs
      → Built (remove_tus tus idx).1 (keep (λ c. not (is_from tus c)) cs)
  compacted :
      {idx : ControlFlowIndex} {cs : List CallSiteContext} → Built idx cs → Built (compact idx) cs
  merged :
      {idx shard : ControlFlowIndex} {cs ds : List CallSiteContext}
      → CanMerge shard idx
      → Built shard ds
      → Built idx cs
      → Built (absorb shard idx) (cs ++ ds)

pub Built-Represents :
    {idx : ControlFlowIndex} {cs : List CallSiteContext} → Built idx cs → Represents idx cs
Built-Represents fresh = empty-Represents
Built-Represents (added {idx} {cs} ctx room b) =
    add_call_site_context-Represents ctx idx cs (Built-Represents b) room
Built-Represents (removed {idx} {cs} tus b) =
    (remove_tus-Represents tus idx cs (Built-Represents b)).0
Built-Represents (compacted {idx} {cs} b) = (compact-Represents idx cs (Built-Represents b)).0
Built-Represents (merged {idx} {shard} {cs} {ds} room a b) =
    absorb-Represents shard idx cs ds (Built-Represents a) (Built-Represents b) room

-- Whatever insertions, removals, compactions and merges with room for ids and texts built the
-- index, `allContexts` gives exactly the contexts that came in and were not removed, in their
-- order, and `size` is their number.
pub Built-all_contexts :
    (idx : ControlFlowIndex) (cs : List CallSiteContext)
    → Built idx cs
    → (all_contexts idx ≡ some cs) × (size idx ≡ length cs)
Built-all_contexts idx cs b = (
  all_contexts-Represents idx cs (Built-Represents b),
  size-Represents idx cs (Built-Represents b),
)
