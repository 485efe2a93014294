-- ===== src/ControlFlow/Represents.antt =====
-- The refinement: an index with the list of public contexts that it stands for. The list is what the
-- index promises; ids, sets and maps are how it keeps it.
use giga_drill_breaker.Common.{◌≡◌, some, [], List}
use giga_drill_breaker.Interner.Laws.{IsDense, empty-IsDense}
use giga_drill_breaker.Contexts.{ConditionalGuard, TryCatchScope, scope_set_key, guard_set_key}
use giga_drill_breaker.Contexts.Keys.{All, IsGuard, IsScope}
use giga_drill_breaker.ControlFlow.Types.{CallSiteContext, StoredRaiiLocal}
use giga_drill_breaker.ControlFlow.Sets.{SetTable, raii_set_key}
use giga_drill_breaker.ControlFlow.Sets.Keys.{IsLocal}
use giga_drill_breaker.ControlFlow.Sets.Laws.{IsSetTable, seeded-IsSetTable}
use giga_drill_breaker.ControlFlow.State.{ControlFlowIndex, empty, no_contexts}
use giga_drill_breaker.ControlFlow.Queries.{all_contexts}
use giga_drill_breaker.ControlFlow.Indexed.{IsIndexed, no_contexts-IsIndexed}
use giga_drill_breaker.ControlFlow.Views.{Views, nil, materialize_live-Views}

abbrev pub AreScopes : SetTable TryCatchScope → Type 0
AreScopes t = IsSetTable scope_set_key (All IsScope) t

abbrev pub AreGuards : SetTable ConditionalGuard → Type 0
AreGuards t = IsSetTable guard_set_key (All IsGuard) t

abbrev pub AreLocals : SetTable StoredRaiiLocal → Type 0
AreLocals t = IsSetTable raii_set_key (All IsLocal) t

pub record Represents (idx : ControlFlowIndex) (cs : List CallSiteContext) : Type 0 where
  pub dense : IsDense idx.interner
  pub scopes : AreScopes idx.scope_sets
  pub guards : AreGuards idx.guard_sets
  pub locals : AreLocals idx.raii_sets
  pub indexed : IsIndexed idx.table
  pub views : Views idx idx.table.contexts cs

nothing : {A : Type 0} (P : A → Type 0) → All P []
nothing P i x h = cc

pub empty-Represents : Represents empty []
unfolding empty no_contexts
empty-Represents = record {
  dense = empty-IsDense;
  scopes = seeded-IsSetTable scope_set_key (All IsScope) (nothing IsScope);
  guards = seeded-IsSetTable guard_set_key (All IsGuard) (nothing IsGuard);
  locals = seeded-IsSetTable raii_set_key (All IsLocal) (nothing IsLocal);
  indexed = no_contexts-IsIndexed;
  views = nil;
}

pub all_contexts-Represents :
    (idx : ControlFlowIndex) (cs : List CallSiteContext)
    → Represents idx cs
    → all_contexts idx ≡ some cs
unfolding all_contexts
all_contexts-Represents idx cs r = materialize_live-Views idx r.views
