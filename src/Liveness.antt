-- ===== src/Liveness.antt =====
-- src/anneal/DeadCodeAnalyzer.cpp: which functions are alive. The walk starts from the entry points
-- and, in its optimistic form, follows virtual dispatch once a class that serves the target has been
-- constructed. `GraphView` is what the analyzer asks of the call graph.
pub mod Lives
pub mod Sound
pub mod Handles
pub mod Complete
pub mod Closing
pub mod Ends
pub mod Correct
pub mod Verdict
pub mod Report
pub mod Tests
use giga_drill_breaker.Common.{
  ℕ, zero, suc, ◌+◌, String, Bool, true, false, not, ◌&&◌, ◌||◌, Option, none, some, List, [], ◌∷◌,
  ◌++◌, length, if◌then◌else◌, ◌==◌, string_eq, has_name, insert_name, ite, ltb,
}
use giga_drill_breaker.Common.Map
use giga_drill_breaker.Common.Map.{Map}
use giga_drill_breaker.Graph.Types.{
  CallGraphEdge, Confidence, proven, plausible, EdgeKind, function_pointer, virtual_dispatch,
  constructor_call, Kind-discrete, Confidence-discrete, Node,
}
use giga_drill_breaker.Graph.State.{CallGraph}
use giga_drill_breaker.Graph.Lookup.{callees_of, find_node, get_classes_for_impl, usrs_for_name}

-- The queries, with every usr and every class that they can answer with.
pub record GraphView : Type 0 where
  pub callees_of : String → List CallGraphEdge
  pub find_node : String → Option Node
  pub get_classes_for_impl : String → List String
  pub usrs_for_name : String → List String

pub view_of : CallGraph → GraphView
view_of g = record {
  callees_of = λ name. callees_of name g;
  find_node = λ name. find_node name g;
  get_classes_for_impl = λ name. get_classes_for_impl name g;
  usrs_for_name = λ name. usrs_for_name name g;
}

-- The locals of `bfs`; `alive` is the set that it fills.
pub record Sweep : Type 0 where
  pub alive : List String
  pub queue : List String
  pub constructed : List String
  pub deferred : List String
  pub changed : Bool

-- `if (alive.insert(usr).second) queue.push(usr)`
abbrev pub mark : String → Sweep → Sweep
mark usr s =
    if has_name s.alive usr
    then s
    else record s { alive = insert_name usr s.alive; queue = s.queue ++ usr ∷ [] }

mark_all : List String → Sweep → Sweep
mark_all [] s = s
mark_all (usr ∷ usrs) s = mark_all usrs (mark usr s)

abbrev pub is_of : EdgeKind → CallGraphEdge → Bool
is_of k e = ite (Kind-discrete e.kind k) true false

abbrev pub is_sure : Confidence → CallGraphEdge → Bool
is_sure c e = ite (Confidence-discrete e.confidence c) true false

abbrev pub any_name : List String → List String → Bool
any_name set [] = false
any_name set (c ∷ cs) = has_name set c || any_name set cs

-- The enclosing class of the node with this usr, empty if there is none.
abbrev pub class_at : GraphView → String → String
class_at v usr = elim (v.find_node usr) [ none ↦ "" | some n ↦ n.enclosing_class ]

-- A class that serves the target has been constructed.
abbrev pub is_served : GraphView → List String → String → Bool
is_served v constructed usr =
    any_name constructed (v.get_classes_for_impl usr)
    || not (class_at v usr == "") && has_name constructed (class_at v usr)

-- The lambda `shouldFollowEdge`.
abbrev pub should_follow : GraphView → Bool → List String → CallGraphEdge → Bool
should_follow v optimistic constructed e =
    if is_sure proven e
    then true
    else if not optimistic
    then false
    else if is_of function_pointer e
    then true
    else if is_of virtual_dispatch e
    then is_served v constructed e.callee_usr
    else true

-- A constructor call makes the enclosing class constructed.
abbrev pub construct : GraphView → CallGraphEdge → Sweep → Sweep
construct v e s =
    if not (is_of constructor_call e)
    then s
    else if class_at v e.callee_usr == ""
    then s
    else if has_name s.constructed (class_at v e.callee_usr)
    then s
    else record s {
      constructed = insert_name (class_at v e.callee_usr) s.constructed;
      changed = true;
    }

abbrev pub pursue : GraphView → Bool → CallGraphEdge → Sweep → Sweep
pursue v optimistic e s =
    if should_follow v optimistic s.constructed e
    then mark e.callee_usr s
    else if optimistic && (is_of virtual_dispatch e && is_sure plausible e)
    then record s { deferred = s.deferred ++ e.callee_usr ∷ [] }
    else s

module _ (v : GraphView) (optimistic : Bool) where
  pub for_edges : List CallGraphEdge → Sweep → Sweep
  for_edges [] s = s
  for_edges (e ∷ es) s = for_edges es (pursue v optimistic e (construct v e s))

  pub drain : ℕ → Sweep → Sweep
  drain zero s = s
  drain (suc fuel) s = elim s.queue [
    | [] ↦ s
    | u ∷ rest ↦ drain fuel (for_edges (v.callees_of u) (record s { queue = rest }))
  ]

  -- The deferred targets once more; those that are still not served stay.
  pub recheck : List String → Sweep → Sweep
  recheck [] s = s
  recheck (d ∷ ds) s = recheck ds (
      if not (is_served v s.constructed d)
      then record s { deferred = s.deferred ++ d ∷ [] }
      else if has_name s.alive d
      then s
      else record (mark d s) { changed = true })

  -- The body of `while (changed)`.
  pub round : ℕ → Sweep → Sweep
  round fuel s =
      let s' = drain fuel (record s { changed = false }) in
      if s'.changed && optimistic then recheck s'.deferred (record s' { deferred = [] }) else s'

  pub rounds : ℕ → ℕ → Sweep → Sweep
  rounds inner zero s = s
  rounds inner (suc fuel) s =
      let s' = round inner s in if s'.changed then rounds inner fuel s' else s'

mark_names : GraphView → List String → Sweep → Sweep
unfolding mark_all
mark_names v [] s = s
mark_names v (name ∷ names) s = mark_names v names (mark_all (v.usrs_for_name name) s)

pub start_sweep : GraphView → List String → List String → Sweep
unfolding mark_names
start_sweep v entry_points public_api = mark_names v public_api (
    mark_names v entry_points
      (record { alive = []; queue = []; constructed = []; deferred = []; changed = true }))

-- `bfs` from the entry points and the public API. Each function is queued once; each further round
-- needs a function or a class that is new.
pub analyze : GraphView → List String → List String → Bool → List String → List String → Sweep
analyze v usrs classes optimistic entry_points public_api =
    rounds v optimistic (length usrs) (suc (length usrs + length classes))
      (start_sweep v entry_points public_api)

pub data Liveness : Type 0 where
  alive optimistically_alive dead : Liveness

unfoldable pub rank : Liveness → ℕ
rank alive = 2
rank optimistically_alive = 1
rank dead = 0

-- The verdict on one usr, by the sets of the two walks.
abbrev pub judge : List String → List String → String → Liveness
judge pessimistic optimistic usr =
    if has_name pessimistic usr
    then alive
    else if has_name optimistic usr
    then optimistically_alive
    else dead

pub add_result : String → Liveness → Map String Liveness → Map String Liveness
add_result name l m = elim (Map.find name m) [
  | none ↦ Map.insert name l m
  | some known ↦ if ltb (rank known) (rank l) then Map.insert name l m else m
]

pub add_results : List String → List String → List Node → Map String Liveness → Map String Liveness
add_results pessimistic optimistic [] m = m
add_results pessimistic optimistic (n ∷ ns) m =
    add_results pessimistic optimistic ns
      (add_result n.qualified_name (judge pessimistic optimistic n.usr) m)

-- By display name: overloads that share one get the best verdict among them.
pub get_results : List String → List String → List Node → Map String Liveness
get_results pessimistic optimistic nodes = add_results pessimistic optimistic nodes []
