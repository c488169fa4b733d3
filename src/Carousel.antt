-- ===== src/Carousel.antt =====
-- carousel/carousel.go: the state of the deduction engine and its queries. The operations are in
-- the modules below: Touchdown (the acknowledgements), Demand, Expand, Deduce and Replenish.
-- An occurrence is named by its ID wherever the source holds a pointer to it; `occs` is the store
-- and `order` the IDs in exposure order. The shared Codebase is a field of the state.
pub mod Touchdown
pub mod Demand
pub mod Expand
pub mod Deduce
pub mod Replenish
pub mod Calls
pub mod Window
pub mod History
use subsea_cable_runtime.Base.{
  ℕ, zero, suc, ◌+◌, Bool, true, false, not, ◌&&◌, ◌||◌, Option, none, some, String, List, [], ◌∷◌,
  ◌++◌, ◌==◌, string_eq, if◌then◌else◌, Map, get, put, del, length, show_ℕ, ◌<>◌, is_some,
}
use subsea_cable_runtime.Diag.{Span, Diagnostic}
use subsea_cable_runtime.Value.{Value, Output, digest}
use subsea_cable_runtime.Syntax.{Exprs, nil, Expr, Params}
use subsea_cable_runtime.Expr.{Primitives, Env, no_env}
use subsea_cable_runtime.Codebase.{Codebase, Artifact, DeductionRecord}

pub data Kind : Type 0 where
  kind_goal kind_arrow kind_serial kind_parallel kind_map kind_function kind_anchor : Kind

-- The deduction state of an occurrence.
pub data State : Type 0 where
  undeduced committed failed withdrawn : State

pub record PolicyRef : Type 0 where
  pub ident : String
  pub args : List Value
  pub span : Span

-- An inline Goal arrow, and a function arrow.
pub record Arrow : Type 0 where
  pub params : Params
  pub body : Expr
  pub span : Span

pub record Func : Type 0 where
  pub params : Params
  pub body : Exprs
  pub span : Span

pub record Occurrence : Type 0 where
  pub id : String
  pub kind : Kind
  pub parent_id : String
  pub children : List String
  pub keys : List String
  pub deps : List String
  pub lineage : String
  pub policies : List PolicyRef
  pub state : State
  pub seq : ℕ
  pub ref_kind : String
  pub name : String
  pub arity : ℕ
  pub pinned_hash : String
  pub artifact_hash : String
  pub goal_node_id : String
  pub revision : ℕ
  pub input : String
  pub eager : Bool
  pub arg_exprs : Exprs
  pub env : Env
  pub arrow : Option Arrow
  pub ctx : Option Artifact
  pub leaf : String
  pub args : List Value
  pub fn : Option Func
  pub fn_env : Env
  pub artifact : String
  pub failure : Option Diagnostic

-- A Go literal of an Occurrence leaves the fields that it does not name at these.
abbrev pub blank : Occurrence
blank = record {
  id = "";
  kind = kind_goal;
  parent_id = "";
  children = [];
  keys = [];
  deps = [];
  lineage = "";
  policies = [];
  state = committed;
  seq = 0;
  ref_kind = "";
  name = "";
  arity = 0;
  pinned_hash = "";
  artifact_hash = "";
  goal_node_id = "";
  revision = 0;
  input = "";
  eager = false;
  arg_exprs = nil;
  env = no_env;
  arrow = none;
  ctx = none;
  leaf = "";
  args = [];
  fn = none;
  fn_env = no_env;
  artifact = "";
  failure = none;
}

deducible_kind : Kind → Bool
deducible_kind kind_goal = true
deducible_kind kind_arrow = true
deducible_kind _ = false

leaf_kind : Kind → Bool
leaf_kind kind_function = true
leaf_kind kind_anchor = true
leaf_kind _ = false

unfoldable pub deducible : Occurrence → Bool
unfolding deducible_kind
deducible o = deducible_kind o.kind

unfoldable pub is_leaf : Occurrence → Bool
unfolding leaf_kind
is_leaf o = leaf_kind o.kind

abbrev pub is_undeduced : State → Bool
is_undeduced undeduced = true
is_undeduced _ = false

label_kind : Kind → Occurrence → String
label_kind kind_goal o = o.name <> ("/" <> show_ℕ o.arity)
label_kind kind_arrow o = "[" <> (show_ℕ o.arity <> "] -> ...")
label_kind kind_anchor o = "$" <> o.leaf
label_kind kind_function o = "fn " <> o.leaf
label_kind kind_serial o = "serial"
label_kind kind_parallel o = "parallel"
label_kind kind_map o = "resolving-map"

unfoldable pub label : Occurrence → String
unfolding label_kind
label o = label_kind o.kind o

pub data EventKind : Type 0 where
  occurrence_exposed alias_resolved deduction_committed deduction_failed deduction_blocked :
      EventKind
  touchdown_published touchdown_consumed touchdown_discarded demand_observed : EventKind
  demand_withdrawn prefetch_reconfigured prefetch_target_reached prefetch_blocked : EventKind
  prefetch_exhausted atomic_prefetch_overshoot demanded_touchdown_over_target : EventKind

pub record Event : Type 0 where
  pub kind : EventKind
  pub occ : String
  pub entry : Option DeductionRecord
  pub diag : Option Diagnostic
  pub reason : String
  pub count : ℕ
  pub window : ℕ
  pub evaluation_instance : String
  pub attempt : String

-- The event that names its kind and occurrence only.
abbrev pub event : EventKind → String → Event
event kind occ = record {
  kind = kind;
  occ = occ;
  entry = none;
  diag = none;
  reason = "";
  count = 0;
  window = 0;
  evaluation_instance = "";
  attempt = "";
}

pub data TouchdownState : Type 0 where
  buffered consumed discarded : TouchdownState

pub record TouchdownCell : Type 0 where
  pub state : TouchdownState
  pub consumed_by : String

-- The parts of Config that do not change, with the digest function and the evaluator's fuel.
pub record Config : Type 0 where
  pub run_id : String
  pub primitives : Primitives
  pub sha256 : String → String
  pub fuel : ℕ

pub record Carousel : Type 0 where
  pub codebase : Codebase
  pub occs : Map String Occurrence
  pub order : List String
  pub seq : ℕ
  pub demanded : Map String Bool
  pub window : Map String Bool
  pub touchdowns : Map String TouchdownCell
  pub prefetch : ℕ
  pub events : List Event
  pub blocked : Map String String
  pub last_prefix : String
  -- Fuel ran out in a loop of Replenish; the source has no such state.
  pub unfinished : Bool

-- ValueSource: the outputs that the Outcome & Value Store has resolved.
abbrev pub ValueSource : Type 0
ValueSource = String → Option Output

-- New
unfoldable pub new_carousel : Codebase → ℕ → Carousel
new_carousel codebase prefetch = record {
  codebase = codebase;
  occs = [];
  order = [];
  seq = 0;
  demanded = [];
  window = [];
  touchdowns = [];
  prefetch = prefetch;
  events = [];
  blocked = [];
  last_prefix = "";
  unfinished = false;
}

unfoldable pub emit : Event → Carousel → Carousel
emit e c = record c { events = c.events ++ e ∷ [] }

unfoldable pub drain : Carousel → List Event × Carousel
drain c = (c.events, record c { events = [] })

-- Window
unfoldable pub window_count : Carousel → ℕ
window_count c = length c.window

unfoldable pub in_window : Carousel → String → Bool
in_window c id = is_some (get id c.window)

unfoldable pub is_demanded : Carousel → String → Bool
is_demanded c id = is_some (get id c.demanded)

unfoldable pub occurrence : Carousel → String → Option Occurrence
occurrence c id = get id c.occs

occurrences_of : Carousel → List String → List Occurrence
occurrences_of c [] = []
occurrences_of c (id ∷ ids) = elim (get id c.occs) [
  | none ↦ occurrences_of c ids
  | some o ↦ o ∷ occurrences_of c ids
]

-- Occurrences
unfoldable pub occurrences : Carousel → List Occurrence
unfolding occurrences_of
occurrences c = occurrences_of c c.order

frontier_of : List Occurrence → List Occurrence
unfolding deducible
frontier_of [] = []
frontier_of (o ∷ os) =
    if deducible o && is_undeduced o.state then o ∷ frontier_of os else frontier_of os

-- Frontier
unfoldable pub frontier : Carousel → List Occurrence
unfolding frontier_of occurrences
frontier c = frontier_of (occurrences c)

module _ (cfg : Config) where
  unfoldable pub evaluation_instance_id : Occurrence → String
  evaluation_instance_id o = cfg.run_id <> ("/" <> (o.id <> ("/" <> digest cfg.sha256 o.args)))

  enroll : Occurrence → Carousel → Carousel
  unfolding emit
  enroll o c = emit (event occurrence_exposed o.id) (record c {
    seq = suc c.seq;
    occs = put o.id (record o { seq = suc c.seq }) c.occs;
    order = c.order ++ o.id ∷ [];
  })

  demand_eager : Occurrence → Carousel → Carousel
  unfolding emit deducible
  demand_eager o c =
      if o.eager && deducible o && is_undeduced o.state
      then emit (record (event demand_observed o.id) { reason = "eager" })
          (record c { demanded = put o.id true c.demanded })
      else c

  publish_into : Occurrence → Carousel → Carousel
  publish_into o c = record c {
    window = put o.id true c.window;
    touchdowns = put o.id (record { state = buffered; consumed_by = "" }) c.touchdowns;
  }

  publish : Occurrence → Carousel → Carousel
  unfolding emit is_leaf publish_into window_count evaluation_instance_id
  publish o c =
      if is_leaf o
      then (let c' = publish_into o c in
          emit
            (record (event touchdown_published o.id) {
              window = window_count c';
              evaluation_instance = evaluation_instance_id o;
            })
            c')
      else c

  -- Carousel.register
  unfoldable pub register : Occurrence → Carousel → Carousel
  unfolding enroll demand_eager publish
  register o c = publish o (demand_eager o (enroll o c))
