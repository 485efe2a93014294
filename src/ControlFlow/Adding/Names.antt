-- ===== src/ControlFlow/Adding/Names.antt =====
-- The strings of a new context, interned one after the other.
use giga_drill_breaker.Common.{
  ℕ, ◌+◌, ◌<◌, ◌≡◌, refl, true, false, some, arith, ◌==◌, string_eq, String, if◌then◌else◌,
  Bool-cases, inl, inr,
}
use giga_drill_breaker.Interner.{Interner, id_limit, size, intern, find}
use giga_drill_breaker.Interner.Laws.{IsDense}
use giga_drill_breaker.Interner.Growth.{
  Grows, Grows-refl, Grows-trans, Grows-weaken, intern-Grows, find-intern_self,
}
use giga_drill_breaker.ControlFlow.Types.{CallSiteContext, StoredContext, no_string}
use giga_drill_breaker.ControlFlow.State.{intern_or, intern_names}

-- A context as queries give it back: a name stands in for an empty usr.
unfoldable pub normal : CallSiteContext → CallSiteContext
normal ctx = record ctx {
  caller_usr = if ctx.caller_usr == "" then ctx.caller_name else ctx.caller_usr;
  callee_usr = if ctx.callee_usr == "" then ctx.callee_name else ctx.callee_usr;
}

-- The ids of a record are those of the context's names.
pub record Named (ctx : CallSiteContext) (se : StoredContext) (j : Interner) : Type 0 where
  pub caller_name : find ctx.caller_name j ≡ some se.caller_display
  pub callee_name : find ctx.callee_name j ≡ some se.callee_display
  pub caller_usr : find (normal ctx).caller_usr j ≡ some se.caller
  pub callee_usr : find (normal ctx).callee_usr j ≡ some se.callee
  pub call_site : find ctx.call_site j ≡ some se.site
  pub untracked : (ctx.tu_path == "") ≡ true → se.tu_path ≡ no_string
  pub tu_path : (ctx.tu_path == "") ≡ false → find ctx.tu_path j ≡ some se.tu_path
  pub caller_noexcept : se.caller_noexcept ≡ ctx.caller_noexcept
  pub inside_catch_block : se.inside_catch_block ≡ ctx.inside_catch_block
  pub live : se.live ≡ true

pub Named-later :
    {n : ℕ} {i j : Interner} (ctx : CallSiteContext) (se : StoredContext)
    → Grows n i j
    → Named ctx se i
    → Named ctx se j
Named-later ctx se g named = record {
  caller_name = g.stable _ _ named.caller_name;
  callee_name = g.stable _ _ named.callee_name;
  caller_usr = g.stable _ _ named.caller_usr;
  callee_usr = g.stable _ _ named.callee_usr;
  call_site = g.stable _ _ named.call_site;
  untracked = named.untracked;
  tu_path = λ e. g.stable _ _ (named.tu_path e);
  caller_noexcept = named.caller_noexcept;
  inside_catch_block = named.inside_catch_block;
  live = named.live;
}

module _ (s : String) (id : ℕ) (i : Interner) (dense : IsDense i) where
  intern_or-Grows : size i < id_limit → Grows 1 i (intern_or s id i).1
  unfolding intern_or
  intern_or-Grows room = elim (Bool-cases (s == "")) [
    | inl e ↦ rw (e, intern_or) (Grows-weaken 1 (omega arith) (Grows-refl i dense))
    | inr e ↦ rw (e, intern_or) (intern-Grows s i dense room)
  ]

  intern_or_empty : (s == "") ≡ true → (intern_or s id i).0 ≡ id
  unfolding intern_or
  intern_or_empty e = rw (e, intern_or) refl

  intern_or_used : (s == "") ≡ false → find s (intern_or s id i).1 ≡ some (intern_or s id i).0
  unfolding intern_or
  intern_or_used e = rw (e, intern_or) (find-intern_self s i)

  -- The id of the string, or of the name that stands in for it.
  find-intern_or :
      (t : String)
      → size i < id_limit
      → find t i ≡ some id
      → find (if s == "" then t else s) (intern_or s id i).1 ≡ some (intern_or s id i).0
  find-intern_or t room known = elim (Bool-cases (s == "")) [
    | inl e ↦ let g = intern_or-Grows room in ground (arith, intern_or_empty e, g.stable t id known)
    | inr e ↦ ground (arith, intern_or_used e)
  ]

pub intern_names_lem :
    (ctx : CallSiteContext) (i : Interner)
    → IsDense i
    → size i + 6 < id_limit
    → Grows 6 i (intern_names ctx i).1 × Named ctx (intern_names ctx i).0 (intern_names ctx i).1
unfolding intern_names normal
intern_names_lem ctx i dense room =
    let (callee_display, i1) = intern ctx.callee_name i in
    let (caller_display, i2) = intern ctx.caller_name i1 in
    let (callee, i3) = intern_or ctx.callee_usr callee_display i2 in
    let (caller, i4) = intern_or ctx.caller_usr caller_display i3 in
    let (site, i5) = intern ctx.call_site i4 in
    let g1 = intern-Grows ctx.callee_name i dense (omega arith) in
    let g2 = intern-Grows ctx.caller_name i1 g1.dense (omega (arith, g1.bounded)) in
    let g12 = Grows-trans g1 g2 in
    let g3 =
      intern_or-Grows ctx.callee_usr callee_display i2 g2.dense (omega (arith, g12.bounded)) in
    let g13 = Grows-trans g12 g3 in
    let g4 =
      intern_or-Grows ctx.caller_usr caller_display i3 g3.dense (omega (arith, g13.bounded)) in
    let g14 = Grows-trans g13 g4 in
    let g5 = intern-Grows ctx.call_site i4 g4.dense (omega (arith, g14.bounded)) in
    let g15 = Grows-trans g14 g5 in
    let g6 = intern_or-Grows ctx.tu_path no_string i5 g5.dense (omega (arith, g15.bounded)) in
    let g56 = Grows-trans g5 g6 in
    let g46 = Grows-trans g4 g56 in
    let g36 = Grows-trans g3 g46 in
    let g26 = Grows-trans g2 g36 in
    let callee_known = g2.stable _ _ (find-intern_self ctx.callee_name i) in
    let caller_known = g3.stable _ _ (find-intern_self ctx.caller_name i1) in
    (
      Grows-trans g15 g6,
      record {
        caller_name = g36.stable _ _ (find-intern_self ctx.caller_name i1);
        callee_name = g26.stable _ _ (find-intern_self ctx.callee_name i);
        caller_usr = g56.stable _ _ (
            find-intern_or ctx.caller_usr caller_display i3 g3.dense ctx.caller_name
              (omega (arith, g13.bounded)) caller_known);
        callee_usr = g46.stable _ _ (
            find-intern_or ctx.callee_usr callee_display i2 g2.dense ctx.callee_name
              (omega (arith, g12.bounded)) callee_known);
        call_site = g6.stable _ _ (find-intern_self ctx.call_site i4);
        untracked = λ e. intern_or_empty ctx.tu_path no_string i5 g5.dense e;
        tu_path = λ e. intern_or_used ctx.tu_path no_string i5 g5.dense e;
        caller_noexcept = refl;
        inside_catch_block = refl;
        live = refl;
      },
    )
