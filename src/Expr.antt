-- ===== src/Expr.antt =====
-- expr/expr.go: environments and the evaluator of value expressions. What evaluation does to the
-- state behind the Anchor gateway is a state `S` that is passed on. Evaluation recurs on the
-- expression; only following a top-level value binding, which may be cyclic in an unvalidated unit,
-- takes fuel: `none` means that a chain of bindings was longer than the fuel.
pub mod Monad
pub mod Total
pub mod Acyclic
pub mod Answers
pub mod Keeps
pub mod Gateway
use Monad.{Eval, pure, throw, lift, ◌>>=◌}
use subsea_cable_runtime.Base.{
  ℕ, zero, suc, Bool, true, false, not, ◌&&◌, ◌||◌, Option, none, some, String, List, [], ◌∷◌, ◌==◌,
  string_eq, nat_eq, if◌then◌else◌, Map, get, put, length,
}
use subsea_cable_runtime.Diag.{
  Phase, validation, Span, Err, diagnostic, diagnostics, pending, plain, Res, ok, err, new,
}
use subsea_cable_runtime.Value
use subsea_cable_runtime.Value.{
  Value, ValueMap, Key, string_key, bool_key, number_key_text, key_of, with_entry, get_entry,
  Output, no_output, output,
}
use subsea_cable_runtime.Syntax.{
  Expr, Exprs, Entries, Policies, goal_arrow, func_arrow, serial, parallel, map_lit, name, anchor,
  policied, number_lit, string_lit, bool_lit, unary, binary, group, nil, cons, no_entries, entry,
  Params, arity, MapKey, MapKeyKind, key_ident, key_string, key_number, key_bool, key_wildcard,
  Suffix, no_suffix, bracket_suffix, call_suffix, pos, is_upper, normalize_number_text,
}

-- The Host's primitive semantics, an interface in the source too.
pub record Primitives : Type 0 where
  pub profile : String
  pub literal : String → Res Value
  pub prim_unary : String → Value → Res Value
  pub prim_binary : String → Value → Value → Res Value

-- The top-level non-Goal bindings of a source unit.
pub record UnitEnv : Type 0 where
  pub values : Map String Expr

-- What a name resolves to. Only a unit supplies a thunk, so a thunk's environment is a unit.
pub data Binding : Type 0 where
  value : Value → Binding
  pending_on : String → Binding
  thunk : Expr → UnitEnv → Binding

pub data Env : Type 0 where
  no_env : Env
  unit : UnitEnv → Env
  scope : Map String Binding → Env → Env

-- Unit.Lookup
unit_lookup : UnitEnv → Option Expr → Option Binding
unit_lookup u none = none
unit_lookup u (some x) = some (thunk x u)

or_else : Option Binding → Option Binding → Option Binding
or_else (some b) rest = some b
or_else none rest = rest

-- Lookup of a scope, its parents, and the unit.
unfoldable pub env_lookup : Env → String → Option Binding
unfolding unit_lookup or_else
env_lookup no_env x = none
env_lookup (unit u) x = unit_lookup u (get x u.values)
env_lookup (scope vars parent) x = or_else (get x vars) (env_lookup parent x)

abbrev pub wildcard : Key
wildcard = record { id = "_"; display = "_" }

static_key_of : MapKeyKind → String → Key
static_key_of key_ident t = string_key t
static_key_of key_string t = string_key t
static_key_of key_number t = number_key_text (normalize_number_text t)
static_key_of key_bool t = bool_key (t == "true")
static_key_of key_wildcard t = wildcard

unfoldable pub static_key : MapKey → Key
unfolding static_key_of
static_key k = static_key_of k.kind k.text

unfoldable pub unwrap_group : Expr → Expr
unwrap_group (group x sp) = unwrap_group x
unwrap_group x = x

is_wildcard : MapKeyKind → Bool
is_wildcard key_wildcard = true
is_wildcard _ = false

-- The loop over a map literal: the first entry with the key, else the last wildcard entry.
unfoldable pub select : Entries → String → Option Expr → Option Expr
unfolding is_wildcard
select no_entries id wild = wild
select (entry k x es) id wild =
    if is_wildcard k.kind
    then select es id (some x)
    else if (static_key k).id == id
    then some x
    else select es id wild

-- An Anchor call from a function-leaf body: its identifier, span and arguments.
abbrev pub AnchorCaller : Type 0 → Type 0
AnchorCaller S = String → Span → List Value → S → Res Output × S

module _ {S : Type 0} (prim : Primitives) (anchors : Option (AnchorCaller S)) (phase : Phase) where
  unfoldable pub fail : String → Span → Eval S Value
  unfolding throw
  fail kind at = throw (diagnostic (new kind phase (some at)))

  wrap_err : Span → Err → Err
  wrap_err at (diagnostic d) = diagnostic d
  wrap_err at e = diagnostic (new "PrimitiveError" phase (some at))

  -- wrapPrim: a diagnostic passes, any other error becomes a PrimitiveError.
  unfoldable pub wrap_prim : Span → Res Value → Eval S Value
  unfolding pure throw wrap_err
  wrap_prim at (ok v) = pure v
  wrap_prim at (err e) = throw (wrap_err at e)

  unfoldable pub eval_not : Span → Value → Eval S Value
  unfolding fail pure
  eval_not at (Value.bool b) = pure (Value.bool (not b))
  eval_not at _ = fail "PrimitiveError" at

  -- The right operand of && and ||.
  unfoldable pub right_bool : Span → Value → Eval S Value
  unfolding fail pure
  right_bool at (Value.bool b) = pure (Value.bool b)
  right_bool at _ = fail "PrimitiveError" at

  -- The left operand of && (`stop` is false) or || (`stop` is true): the right one is evaluated
  -- only if the left one does not decide.
  unfoldable pub short_circuit : Span → Bool → Value → Eval S Value → Eval S Value
  unfolding fail pure right_bool ◌>>=◌
  short_circuit at stop (Value.bool true) right =
      if stop then pure (Value.bool true) else (right >>= right_bool at)
  short_circuit at stop (Value.bool false) right =
      if stop then (right >>= right_bool at) else pure (Value.bool false)
  short_circuit at stop _ right = fail "PrimitiveError" at

  unfoldable pub value_of : Span → Output → Eval S Value
  unfolding fail pure
  value_of at no_output = fail "NoOutputAsValue" at
  value_of at (output v) = pure v

  unfoldable pub call_anchor :
      Option (AnchorCaller S) → String → Span → Eval S (List Value) → Eval S Value
  unfolding throw value_of ◌>>=◌
  call_anchor none ident at args =
      throw (diagnostic (new "InvalidStructuralContext" validation (some at)))
  call_anchor (some caller) ident at args = do
    vs ← args
    out ← (λ s. some (caller ident at vs s))
    value_of at out

  module _ (call : Expr → UnitEnv → Eval S Value) where
    unfoldable pub resolve_binding : Span → Option Binding → Eval S Value
    unfolding fail pure throw
    resolve_binding at none = fail "UnboundName" at
    resolve_binding at (some (value v)) = pure v
    resolve_binding at (some (pending_on occ)) = throw (pending occ)
    resolve_binding at (some (thunk x u)) = call x u

    entry_binding : Span → UnitEnv → Option Expr → Eval S Binding
    unfolding pure throw
    entry_binding at u none = throw (diagnostic (new "KeyNotFound" phase (some at)))
    entry_binding at u (some x) = pure (thunk x u)

    in_map : Span → Key → Value → Eval S Binding
    unfolding pure throw
    in_map at k (Value.map_value m) = elim (get_entry k m) [
      | some v ↦ pure (value v)
      | none ↦ elim (get_entry wildcard m) [
        | some v ↦ pure (value v)
        | none ↦ throw (diagnostic (new "KeyNotFound" phase (some at)))
      ]
    ]
    in_map at k _ = throw (diagnostic (new "NotCallable" phase (some at)))

    -- `bare` is the thunk `x` out of its parentheses.
    select_in : Span → Key → Expr → Expr → UnitEnv → Eval S Binding
    unfolding entry_binding in_map ◌>>=◌
    select_in at k (map_lit es sp) x u = entry_binding at u (select es k.id none)
    select_in at k bare x u = call x u >>= in_map at k

    lookup_binding : Span → Key → Option Binding → Eval S Binding
    unfolding select_in in_map throw pure ◌>>=◌
    lookup_binding at k none = throw (diagnostic (new "UnboundName" phase (some at)))
    lookup_binding at k (some (pending_on occ)) = throw (pending occ)
    lookup_binding at k (some (value v)) = in_map at k v
    lookup_binding at k (some (thunk x u)) = select_in at k (unwrap_group x) x u

    lookup_key : Span → Res Key → Option Binding → Eval S Binding
    unfolding lookup_binding throw
    lookup_key at (err e) mb = throw (diagnostic (new "KeyNotFound" phase (some at)))
    lookup_key at (ok k) mb = lookup_binding at k mb

    -- LookupEntry
    unfoldable pub lookup_entry : String → Span → Env → Value → Eval S Binding
    unfolding lookup_key
    lookup_entry ident at env key = lookup_key at (key_of key) (env_lookup env ident)

    unfoldable pub entry_value : Span → Binding → Eval S Value
    unfolding resolve_binding
    entry_value at b = resolve_binding at (some b)

    unfoldable pub apply_unary : Span → String → Value → Eval S Value
    unfolding eval_not wrap_prim
    apply_unary at op v = if op == "!" then eval_not at v else wrap_prim at (prim.prim_unary op v)

    unfoldable pub apply_binary : Span → String → Value → Eval S Value → Eval S Value
    unfolding short_circuit wrap_prim ◌>>=◌
    apply_binary at op l right =
        if op == "&&" || op == "||"
        then short_circuit at (op == "||") l right
        else (right >>= λ r. wrap_prim at (prim.prim_binary op l r))

    -- Eval, with EvalAll, the entries of a map literal, and the one key of a lookup.
    unfoldable mutual
      unfolding fail pure throw wrap_prim resolve_binding lookup_entry entry_value apply_unary
          apply_binary call_anchor ◌>>=◌

      pub eval_expr : Expr → Env → Eval S Value
      eval_expr (group x sp) env = eval_expr x env
      eval_expr (number_lit t sp) env = wrap_prim sp (prim.literal t)
      eval_expr (string_lit raw v escape_err sp) env =
          if escape_err == "" then pure (Value.string v) else fail "InvalidUnicodeEscape" sp
      eval_expr (bool_lit b sp) env = pure (Value.bool b)
      eval_expr (unary op x sp) env = eval_expr x env >>= apply_unary sp op
      eval_expr (binary op l r sp) env =
          eval_expr l env >>= λ v. apply_binary sp op v (eval_expr r env)
      eval_expr (map_lit es sp) env =
          eval_entries es env Value.empty >>= λ m. pure (Value.map_value m)
      eval_expr (name ident hash no_suffix args sp) env = resolve_binding sp (env_lookup env ident)
      eval_expr (name ident hash call_suffix args sp) env =
          if is_upper ident
          then throw (diagnostic (new "InvalidStructuralContext" validation (some sp)))
          else fail "NotCallable" sp
      eval_expr (name ident hash bracket_suffix args sp) env =
          if is_upper ident
          then fail "InvalidStructuralContext" sp
          else (eval_key sp args env >>= λ key. lookup_entry ident sp env key >>= entry_value sp)
      eval_expr (anchor ident called args sp) env = call_anchor anchors ident sp (eval_all args env)
      eval_expr (goal_arrow p b sp) env = fail "InvalidStructuralContext" sp
      eval_expr (func_arrow p b sp) env = fail "InvalidStructuralContext" sp
      eval_expr (serial xs sp) env = fail "InvalidStructuralContext" sp
      eval_expr (parallel xs sp) env = fail "InvalidStructuralContext" sp
      eval_expr (policied ps t sp) env = fail "InvalidStructuralContext" sp

      pub eval_all : Exprs → Env → Eval S (List Value)
      eval_all nil env = pure []
      eval_all (cons x xs) env = eval_expr x env >>= λ v. eval_all xs env >>= λ vs. pure (v ∷ vs)

      pub eval_entries : Entries → Env → ValueMap → Eval S ValueMap
      eval_entries no_entries env m = pure m
      eval_entries (entry k x es) env m =
          eval_expr x env >>= λ v. eval_entries es env (with_entry (static_key k) v m)

      pub eval_key : Span → Exprs → Env → Eval S Value
      eval_key sp (cons x nil) env = eval_expr x env
      eval_key sp nil env = throw (diagnostic (new "InvalidStructuralContext" phase (some sp)))
      eval_key sp (cons x (cons y ys)) env =
          throw (diagnostic (new "InvalidStructuralContext" phase (some sp)))

  -- Evaluation of a top-level binding, with fuel for the bindings that it follows in turn.
  unfoldable pub eval_thunk : ℕ → Expr → UnitEnv → Eval S Value
  unfolding eval_expr
  eval_thunk zero x u s = none
  eval_thunk (suc f) x u s = eval_expr (eval_thunk f) x (unit u) s

  -- Evaluator.Eval
  unfoldable pub eval : ℕ → Expr → Env → Eval S Value
  unfolding eval_expr
  eval f = eval_expr (eval_thunk f)

bind_names : List String → List Value → Map String Binding → Map String Binding
bind_names [] vs vars = vars
bind_names (x ∷ xs) [] vars = vars
bind_names (x ∷ xs) (v ∷ vs) vars = bind_names xs vs (put x (value v) vars)

bind_keys : Phase → Span → List String → ValueMap → Map String Binding → Res (Map String Binding)
bind_keys phase at [] m vars = ok vars
bind_keys phase at (x ∷ xs) m vars = elim (get_entry (string_key x) m) [
  | none ↦ err (diagnostic (new "DestructureMismatch" phase (some at)))
  | some v ↦ bind_keys phase at xs m (put x (value v) vars)
]

bind_map : Phase → Span → List String → List Value → Map String Binding → Res (Map String Binding)
unfolding bind_keys
bind_map phase at names (Value.map_value m ∷ vs) vars = bind_keys phase at names m vars
bind_map phase at names vs vars = err (diagnostic (new "DestructureMismatch" phase (some at)))

-- BindParams, on the variables of the scope that it fills.
unfoldable pub bind_params :
    Params → List Value → Map String Binding → Phase → Span → Res (Map String Binding)
unfolding bind_names bind_map
bind_params p args vars phase at =
    if length args == arity p
    then (if p.destructure
        then bind_map phase at p.names args vars
        else ok (bind_names p.names args vars))
    else err (diagnostic (new "ArityMismatch" phase (some at)))
