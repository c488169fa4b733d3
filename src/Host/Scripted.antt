-- ===== src/Host/Scripted.antt =====
-- The scripted Host of host/host.go: it records its calls, and runs registered Anchors.
use subsea_cable_runtime.Base.{
  ℕ, zero, suc, Bool, not, Option, none, some, String, List, [], ◌∷◌, ◌++◌, map, ◌==◌, string_eq,
  if◌then◌else◌, Map, get, put, ℤ, pos, sort_by, str_ltb,
}
use subsea_cable_runtime.Diag.{Diagnostic, Err, host, new, as_diagnostic, Res, ok, err}
use subsea_cable_runtime.Value.{Value, Output, no_output, output}
use subsea_cable_runtime.Syntax.{Exprs, nil, cons}
use subsea_cable_runtime.Expr.{Primitives, Env, AnchorCaller, eval}
use subsea_cable_runtime.Carousel.{Func}
use subsea_cable_runtime.Host.{LeafContext, succeeded, failed, Outcome, HostPort}

pub record Call : Type 0 where
  pub ctx : LeafContext
  pub name : String
  pub args : List Value
  pub nested : Bool

-- An Anchor of the script, a function of the source too.
abbrev pub AnchorFunc : Type 0
AnchorFunc = Call → Res Output

pub record Scripted : Type 0 where
  pub anchors : Map String AnchorFunc
  pub failures : Map String ℕ
  pub ticks : Map String ℤ
  pub fallback : Option AnchorFunc
  pub calls : List Call
  pub functions : List LeafContext
  pub cancelled_ids : List String

-- NewScripted
unfoldable pub new_scripted : Scripted
new_scripted = record {
  anchors = [];
  failures = [];
  ticks = [];
  fallback = none;
  calls = [];
  functions = [];
  cancelled_ids = [];
}

unfoldable pub register_anchor : String → AnchorFunc → Scripted → Scripted
register_anchor name fn h = record h { anchors = put name fn h.anchors }

unfoldable pub fail_next : String → ℕ → Scripted → Scripted
fail_next leaf n h = record h { failures = put leaf n h.failures }

unfoldable pub set_ticks : String → ℤ → Scripted → Scripted
set_ticks leaf n h = record h { ticks = put leaf n h.ticks }

duration : Scripted → String → ℤ
duration h leaf = elim (get leaf h.ticks) [ some t ↦ t | none ↦ pos 1 ]

failures_left : Scripted → String → ℕ
failures_left h leaf = elim (get leaf h.failures) [ some n ↦ n | none ↦ 0 ]

failure : Diagnostic → ℤ → Outcome
failure d ticks = record { status = failed; result = no_output; diag = some d; ticks = ticks }

success : Output → ℤ → Outcome
success out ticks = record { status = succeeded; result = out; diag = none; ticks = ticks }

-- An injected failure, while some are left for the leaf.
injected_of : ℕ → LeafContext → Scripted → Option Outcome × Scripted
unfolding failure duration
injected_of zero ctx h = (none, h)
injected_of (suc n) ctx h = (
  some (failure (new "InjectedFailure" host none) (duration h ctx.leaf)),
  record h { failures = put ctx.leaf n h.failures },
)

unfoldable pub injected : LeafContext → Scripted → Option Outcome × Scripted
unfolding injected_of failures_left
injected ctx h = injected_of (failures_left h ctx.leaf) ctx h

or_default : Option Diagnostic → Diagnostic → Diagnostic
or_default (some d) e = d
or_default none e = e

anchor_outcome : Res Output → ℤ → Outcome
unfolding failure success or_default
anchor_outcome (ok out) ticks = success out ticks
anchor_outcome (err e) ticks =
    failure (or_default (as_diagnostic e) (new "AnchorFailed" host none)) ticks

or_fallback : Option AnchorFunc → Option AnchorFunc → Option AnchorFunc
or_fallback (some fn) fallback = some fn
or_fallback none fallback = fallback

run_anchor : Option AnchorFunc → Call → ℤ → Outcome
unfolding anchor_outcome failure
run_anchor none c ticks = failure (new "AnchorNotFound" host none) (pos 1)
run_anchor (some fn) c ticks = anchor_outcome (fn c) ticks

resolve_anchor : Call → Scripted → Outcome × Scripted
unfolding run_anchor or_fallback duration
resolve_anchor c h =
    (run_anchor (or_fallback (get c.name h.anchors) h.fallback) c (duration h c.name), h)

after_injection : Call → Option Outcome × Scripted → Outcome × Scripted
unfolding resolve_anchor
after_injection c (some o, h) = (o, h)
after_injection c (none, h) = resolve_anchor c h

-- InvokeAnchor
unfoldable pub invoke_anchor : LeafContext → String → List Value → Scripted → Outcome × Scripted
unfolding after_injection resolve_anchor injected
invoke_anchor ctx name args h =
    let c : Call = record {
      ctx = ctx;
      name = name;
      args = args;
      nested = not (ctx.leaf == name);
    } in
    let h' = record h { calls = h.calls ++ c ∷ [] } in
    if c.nested then resolve_anchor c h' else after_injection c (injected ctx h')

-- The body of the function; Fn is set for every function leaf, and nil would be a panic.
body_of : Option Func → Exprs
body_of none = nil
body_of (some fn) = fn.body

-- Cancel
cancel_attempt : String → Scripted → Scripted
cancel_attempt id h = record h { cancelled_ids = h.cancelled_ids ++ id ∷ [] }

module _ {G : Type 0} (prim : Primitives) (fuel : ℕ) where
  -- The outcome of an evaluation; `none` is an evaluation that the model's fuel did not cover.
  unfoldable pub failed_eval : Err → LeafContext → Scripted × G → Outcome × (Scripted × G)
  unfolding failure duration or_default
  failed_eval e ctx (h, g) = (
    failure (or_default (as_diagnostic e) (new "HostError" host none)) (duration h ctx.leaf),
    (h, g),
  )

  -- The loop over the expressions of the body; `last` is the value of the one before.
  unfoldable pub evaluate_body :
      Exprs
      → Value
      → LeafContext
      → Env
      → AnchorCaller (Scripted × G)
      → Scripted × G
      → Outcome × (Scripted × G)
  unfolding failed_eval success duration
  evaluate_body nil last ctx env gateway (h, g) =
      (success (output last) (duration h ctx.leaf), (h, g))
  evaluate_body (cons x xs) last ctx env gateway s =
      elim (eval prim (some gateway) host fuel x env s) [
        | none ↦ failed_eval Err.exhausted ctx s
        | some (ok v, s') ↦ evaluate_body xs v ctx env gateway s'
        | some (err e, s') ↦ failed_eval e ctx s'
      ]

  unfoldable pub after_call :
      Option Func
      → LeafContext
      → Env
      → AnchorCaller (Scripted × G)
      → Option Outcome × Scripted
      → G
      → Outcome × (Scripted × G)
  unfolding evaluate_body body_of
  after_call fn ctx env gateway (some o, h) g = (o, (h, g))
  after_call fn ctx env gateway (none, h) g =
      evaluate_body (body_of fn) Value.invalid ctx env gateway (h, g)

  -- EvaluateFunction
  unfoldable pub evaluate_function :
      LeafContext
      → Option Func
      → Env
      → AnchorCaller (Scripted × G)
      → Scripted × G
      → Outcome × (Scripted × G)
  unfolding after_call injected
  evaluate_function ctx fn env gateway (h, g) =
      after_call fn ctx env gateway
        (injected ctx (record h { functions = h.functions ++ ctx ∷ [] })) g

  unfoldable pub scripted_port : HostPort Scripted G
  unfolding evaluate_function invoke_anchor cancel_attempt
  scripted_port = record {
    primitives = prim;
    evaluate_function = evaluate_function;
    invoke_anchor = invoke_anchor;
    cancel = cancel_attempt;
  }

unfoldable pub call_names : Scripted → List String
call_names h = map (λ c. c.name) h.calls

unfoldable pub sorted_anchors : Scripted → List String
sorted_anchors h = sort_by str_ltb (map (λ p. p.0) h.anchors)
