-- ===== src/Carousel/Deduce.antt =====
-- deduce of carousel/carousel.go: one reduction, committed whole or not at all.
pub mod Cases
pub mod Atomic
use subsea_cable_runtime.Base.{
  ℕ, zero, suc, Bool, true, false, ◌&&◌, not, Option, none, some, String, List, [], ◌∷◌, ◌++◌, map,
  ◌==◌, string_eq, nat_eq, if◌then◌else◌, Map, get, put, del, show_ℕ, ◌<>◌, ltb, length, is_some,
  leb, str_join,
}
use subsea_cable_runtime.Diag.{
  Span, Diagnostic, Err, pending, plain, diagnostic, deduction, new, as_diagnostic, Res, ok, err,
}
use subsea_cable_runtime.Value.{Value, Output, no_output, output, canonical}
use subsea_cable_runtime.Syntax.{Expr, Params, func_arrow, goal_arrow, pos}
use subsea_cable_runtime.Expr.{Primitives, Env, unit, scope, bind_params, Binding}
use subsea_cable_runtime.Codebase.{
  Codebase, Artifact, DeductionRecord, get_artifact, resolve_current, arities, append_deduction,
  goal_node_id, short,
}
use subsea_cable_runtime.Carousel.{
  Carousel, Config, Occurrence, Arrow, Func, Kind, kind_goal, kind_arrow, kind_serial,
  kind_parallel, kind_map, kind_function, kind_anchor, State, committed, failed, ValueSource, blank,
  emit, event, deduction_blocked, deduction_failed, deduction_committed, alias_resolved,
  demanded_touchdown_over_target, is_leaf, label, register, window_count,
}
use subsea_cable_runtime.Carousel.Expand.{Staged, ◌>>=◌, eval_args, expand_body, Place}

pub data Cause : Type 0 where
  by_demand by_prefetch : Cause

abbrev pub cause_text : Cause → String
cause_text by_demand = "demand"
cause_text by_prefetch = "prefetch"

blocked_text : Option String → String
blocked_text none = ""
blocked_text (some r) = r

-- reportBlocked: a reason is reported once until it changes.
unfoldable pub report_blocked : String → String → Carousel → Carousel
unfolding emit blocked_text
report_blocked id reason c =
    if blocked_text (get id c.blocked) == reason
    then c
    else emit (record (event deduction_blocked id) { reason = reason })
        (record c { blocked = put id reason c.blocked })

failure_of : Option Diagnostic → Diagnostic
failure_of (some d) = d
failure_of none = new "DeductionError" deduction none

attributed : Occurrence → Diagnostic → Diagnostic
attributed o d = record d {
  occurrence = o.id;
  lineages = (if o.lineage == "" then d.lineages else o.lineage ∷ []);
}

-- Carousel.fail
unfoldable pub fail : Occurrence → Cause → Err → Carousel → Carousel
unfolding emit failure_of attributed
fail o cause e c =
    let d = attributed o (failure_of (as_diagnostic e)) in
    emit (record (event deduction_failed o.id) { diag = some d; reason = cause_text cause })
      (record c {
        occs = put o.id (record o { state = failed; failure = some d }) c.occs;
        demanded = del o.id c.demanded;
      })

deduction_err : String → Err
deduction_err kind = diagnostic (new kind deduction none)

-- The arguments of the deduction, or the occurrence whose value is missing, or an error.
pub data Arguments : Type 0 where
  arguments : List Value → Arguments
  missing : String → Arguments
  refused : Err → Arguments

routed : String → Option Output → Arguments
unfolding deduction_err
routed input none = missing input
routed input (some no_output) = refused (deduction_err "InvalidStructuralContext")
routed input (some (output v)) = arguments (v ∷ [])

evaluated : Res (List Value) → Arguments
evaluated (ok vs) = arguments vs
evaluated (err (pending occ)) = missing occ
evaluated (err e) = refused e

-- cyclic: an ancestor is a Goal with the node. The parents of an occurrence are exposed before it,
-- so the walk up meets at most as many as there are occurrences.
cyclic_from : ℕ → Carousel → String → String → Bool
cyclic_from zero c id node = false
cyclic_from (suc f) c id node = elim (get id c.occs) [
  | none ↦ false
  | some p ↦ elim p.kind [
    | kind_goal ↦ if p.goal_node_id == node then true else cyclic_from f c p.parent_id node
    | _ ↦ cyclic_from f c p.parent_id node
  ]
]

unfoldable pub cyclic : Carousel → Occurrence → String → Bool
unfolding cyclic_from
cyclic c o node = cyclic_from (length c.occs) c o.parent_id node

missing_kind : List ℕ → String
missing_kind [] = "GoalNotFound"
missing_kind (a ∷ as') = "ArityMismatch"

current : Carousel → Occurrence → Option Artifact × ℕ → Res (Artifact × ℕ)
unfolding missing_kind deduction_err
current c o (some a, rev) = ok (a, rev)
current c o (none, rev) = err (deduction_err (missing_kind (arities c.codebase o.name)))

pinned : Carousel → Option Artifact → Res (Artifact × ℕ)
unfolding deduction_err
pinned c (some a) = ok (a, c.codebase.revision)
pinned c none = err (deduction_err "HashNotFound")

-- The artifact of a Goal reference and the revision it was read at.
find_artifact : Carousel → Occurrence → Res (Artifact × ℕ)
unfolding current pinned
find_artifact c o =
    if o.pinned_hash == ""
    then current c o (resolve_current c.codebase o.name o.arity)
    else pinned c (get_artifact c.codebase o.pinned_hash)

acyclic : Carousel → Occurrence → Artifact × ℕ → Res (Artifact × ℕ)
unfolding cyclic deduction_err
acyclic c o (a, rev) =
    if cyclic c o (goal_node_id a) then err (deduction_err "CycleDetected") else ok (a, rev)

pub record Reduction : Type 0 where
  pub art : Option Artifact
  pub revision : ℕ
  pub staged : Staged

no_art : Staged → Reduction
no_art st = record { art = none; revision = 0; staged = st }

module _ (cfg : Config) where
  -- The body of an artifact's arrow at its arguments: a function leaf, or an expanded Goal body.
  -- No other node is a Goal definition.
  reduce_arrow : Occurrence → Artifact → List Value → Expr → Res Staged
  reduce_arrow o a vs (func_arrow params body sp) =
      bind_params params vs [] deduction sp >>= λ vars. ok (
        record blank {
          id = o.id <> ".d";
          kind = kind_function;
          parent_id = o.id;
          lineage = o.lineage;
          leaf = a.name;
          args = vs;
          fn = some (record { params = params; body = body; span = sp });
          fn_env = scope vars (unit a.values);
          artifact = a.hash;
        },
        [],
      )
  reduce_arrow o a vs (goal_arrow params body sp) =
      bind_params params vs [] deduction sp >>= λ vars.
      expand_body cfg body (scope vars (unit a.values))
        (record { id = o.id <> ".d"; parent = o.id; lineage = o.lineage; art = some a })
  reduce_arrow o a vs x = err plain

  reduce_goal : Carousel → Occurrence → List Value → Res Reduction
  unfolding find_artifact acyclic reduce_arrow
  reduce_goal c o vs = find_artifact c o >>= acyclic c o >>= λ (a, rev).
      reduce_arrow o a vs a.def.arrow >>= λ st.
      ok (record { art = some a; revision = rev; staged = st })

  reduce_inline : Occurrence → List Value → Option Arrow → Res Reduction
  unfolding no_art
  reduce_inline o vs none = err plain
  reduce_inline o vs (some arrow) = bind_params arrow.params vs [] deduction arrow.span >>= λ vars.
      expand_body cfg arrow.body (scope vars o.env)
        (record { id = o.id <> ".d"; parent = o.id; lineage = o.lineage; art = o.ctx })
      >>= λ st. ok (no_art st)

  -- Only Goals and inline arrows are ever deduced.
  unfoldable pub reduce : Carousel → Occurrence → List Value → Kind → Res Reduction
  unfolding reduce_goal reduce_inline
  reduce c o vs kind_goal = reduce_goal c o vs
  reduce c o vs kind_arrow = reduce_inline o vs o.arrow
  reduce c o vs _ = err plain

unfoldable pub is_goal : Kind → Bool
is_goal kind_goal = true
is_goal _ = false

-- describe: the staged occurrences as one text, walked from the body child. A staged occurrence is
-- below the one that names it as a child, so the walk goes no deeper than their number.
brackets : Kind → String × String
brackets kind_serial = ("[", "]")
brackets kind_parallel = ("{", "}")
brackets kind_map = ("{", "}")
brackets _ = ("", "")

policy_text : Occurrence → String
policy_text o = str_join "" (map (λ p. "@" <> (p.ident <> " ")) o.policies)

children_text : (String → String) → List String → List String → List String
children_text walk [] keys = []
children_text walk (id ∷ ids) [] = walk id ∷ children_text walk ids []
children_text walk (id ∷ ids) (k ∷ keys) = (k <> (": " <> walk id)) ∷ children_text walk ids keys

is_composite : Kind → Bool
is_composite kind_serial = true
is_composite kind_parallel = true
is_composite kind_map = true
is_composite _ = false

described : (String → String) → Occurrence → String
unfolding brackets policy_text children_text is_composite label
described walk o =
    policy_text o
    <> (if is_composite o.kind
        then (brackets o.kind).0
          <> (str_join ", " (children_text walk o.children o.keys) <> (brackets o.kind).1)
        else label o)

find_staged : String → List Occurrence → Option Occurrence
find_staged id [] = none
find_staged id (o ∷ os) = if o.id == id then some o else find_staged id os

walk_id : ℕ → List Occurrence → String → String
unfolding described find_staged
walk_id zero os id = ""
walk_id (suc f) os id = elim (find_staged id os) [ none ↦ "" | some o ↦ described (walk_id f os) o ]

describe : Staged → String
unfolding described walk_id
describe (o, below) = described (walk_id (length below) below) o

unfoldable pub make_record : Config → Occurrence → Cause → List Value → Reduction → DeductionRecord
unfolding describe is_goal
make_record cfg o cause vs r = record {
  seq = 0;
  run_id = cfg.run_id;
  occurrence = o.id;
  reference_kind = (if is_goal o.kind then o.ref_kind else "inline-arrow");
  requested_name = (if is_goal o.kind then o.name else "");
  requested_arity = o.arity;
  artifact_hash = elim r.art [ none ↦ "" | some a ↦ a.hash ];
  goal_node_id = elim r.art [ none ↦ "" | some a ↦ goal_node_id a ];
  codebase_revision = r.revision;
  arguments = map canonical vs;
  result = describe r.staged;
  lineages = o.lineage ∷ [];
  primitive_profile = cfg.primitives.profile;
  cause = cause_text cause;
}

with_artifact : Option Artifact → ℕ → Occurrence → Occurrence
with_artifact none revision o = o
with_artifact (some a) revision o = record o {
  artifact_hash = a.hash;
  goal_node_id = goal_node_id a;
  revision = revision;
}

resolved_text : Occurrence → Artifact → ℕ → String
resolved_text o a revision =
    o.name <> ("/" <> (show_ℕ o.arity <> ("->" <> (short a <> ("@rev" <> show_ℕ revision)))))

emit_resolved : Option Artifact → Occurrence → ℕ → Carousel → Carousel
unfolding emit resolved_text
emit_resolved none o revision c = c
emit_resolved (some a) o revision c =
    if o.ref_kind == "unqualified"
    then emit (record (event alias_resolved o.id) { reason = resolved_text o a revision }) c
    else c

leaves : List Occurrence → ℕ
unfolding is_leaf
leaves [] = 0
leaves (o ∷ os) = if is_leaf o then suc (leaves os) else leaves os

-- What a commit does to the occurrence itself.
unfoldable pub settled : Occurrence → Reduction → Occurrence
unfolding with_artifact
settled o r =
    with_artifact r.art r.revision (record o { state = committed; children = r.staged.0.id ∷ [] })

module _ (cfg : Config) where
  unfoldable pub register_all : List Occurrence → Carousel → Carousel
  unfolding register
  register_all [] c = c
  register_all (o ∷ os) c = register_all os (register cfg o c)

  unfoldable pub over_target : Cause → String → List Occurrence → Carousel → Carousel
  unfolding emit window_count leaves
  over_target by_prefetch id staged c = c
  over_target by_demand id staged c =
      if ltb 0 (leaves staged) && ltb c.prefetch (window_count c)
      then emit
          (record (event demanded_touchdown_over_target id) {
            count = c.prefetch;
            window = window_count c;
          })
          c
      else c

  -- The occurrence is committed, and the event of it emitted, before its children are exposed.
  unfoldable pub mark_committed :
      Occurrence → Cause → Reduction → DeductionRecord → Carousel → Carousel
  unfolding settled emit emit_resolved
  mark_committed o cause r rec c =
      emit (record (event deduction_committed o.id) { entry = some rec; reason = cause_text cause })
        (emit_resolved r.art o r.revision (record c {
          occs = put o.id (settled o r) c.occs;
          demanded = del o.id c.demanded;
          blocked = del o.id c.blocked;
        }))

  unfoldable pub expose : Occurrence → Cause → Reduction → DeductionRecord → Carousel → Carousel
  unfolding mark_committed register_all over_target
  expose o cause r rec c =
      let staged = r.staged.0 ∷ r.staged.1 in
      over_target cause o.id staged (register_all staged (mark_committed o cause r rec c))

  commit_appended :
      Occurrence → Cause → Reduction → Carousel → Res DeductionRecord × Codebase → Bool × Carousel
  unfolding expose fail
  commit_appended o cause r c (err e, base) = (false, fail o cause e c)
  commit_appended o cause r c (ok rec, base) =
      (true, expose o cause r rec (record c { codebase = base }))

  commit : Occurrence → Cause → List Value → Carousel → Res Reduction → Bool × Carousel
  unfolding commit_appended make_record fail
  commit o cause vs c (err e) = (false, fail o cause e c)
  commit o cause vs c (ok r) =
      commit_appended o cause r c (append_deduction c.codebase (make_record cfg o cause vs r))

  with_arguments : Occurrence → Cause → Carousel → Arguments → Bool × Carousel
  unfolding commit reduce report_blocked fail
  with_arguments o cause c (missing occ) = (false, report_blocked o.id ("pendingValue:" <> occ) c)
  with_arguments o cause c (refused e) = (false, fail o cause e c)
  with_arguments o cause c (arguments vs) = commit o cause vs c (reduce cfg c o vs o.kind)

  unfoldable pub arguments_of : ValueSource → Occurrence → Arguments
  unfolding routed evaluated
  arguments_of values o =
      if o.input == ""
      then evaluated (eval_args cfg o.arg_exprs o.env)
      else routed o.input (values o.input)

  -- deduce
  unfoldable pub deduce : ValueSource → Occurrence → Cause → Carousel → Bool × Carousel
  unfolding with_arguments arguments_of
  deduce values o cause c = with_arguments o cause c (arguments_of values o)
