-- ===== src/Expr/Gateway.antt =====
-- What evaluation does to the state behind the Anchor gateway: nothing but by the calls that it
-- makes on the gateway.
use subsea_cable_runtime.Base.{
  ℕ, zero, suc, ◌||◌, Option, none, some, String, List, ◌==◌, string_eq,
}
use subsea_cable_runtime.Diag
use subsea_cable_runtime.Diag.{Phase, Span, Err, Res, ok, err}
use subsea_cable_runtime.Value.{
  Value, Key, key_of, get_entry, Output, no_output, output, ValueMap, with_entry,
}
use subsea_cable_runtime.Value
use subsea_cable_runtime.Syntax.{
  Expr, Exprs, Entries, goal_arrow, func_arrow, serial, parallel, map_lit, name, anchor, policied,
  number_lit, string_lit, bool_lit, unary, binary, group, nil, cons, no_entries, entry, no_suffix,
  bracket_suffix, call_suffix, is_upper,
}
use subsea_cable_runtime.Expr.Monad.{Eval, pure, throw, ◌>>=◌}
use subsea_cable_runtime.Expr.{
  Primitives, UnitEnv, Binding, value, pending_on, thunk, Env, unit, env_lookup, AnchorCaller,
  call_anchor, resolve_binding, entry_binding, in_map, select_in, lookup_binding, lookup_key,
  lookup_entry, entry_value, apply_unary, apply_binary, eval_expr, eval_all, eval_entries, eval_key,
  eval_thunk, eval, static_key, unwrap_group, wildcard,
}
use subsea_cable_runtime.Expr.Keeps.{
  Lands, Keeps, Passes, pure-Keeps, throw-Keeps, bind-Keeps, branch-Keeps, fail-Keeps,
  wrap_prim-Keeps, eval_not-Keeps, short_circuit-Keeps, value_of-Keeps,
}

module _ {S : Type 0} {P : S → Type 0} (prim : Primitives) (phase : Phase) (caller : AnchorCaller S)
    (passing : Passes P caller) where
  call-Keeps :
      (ident : String) (at : Span) (args : List Value)
      → Keeps P (λ s. some (caller ident at args s))
  unfolding Lands
  call-Keeps ident at args = record { kept = λ s h. passing.passes ident at args s h }

  call_anchor-Keeps :
      (ident : String) (at : Span) (args : Eval S (List Value))
      → Keeps P args
      → Keeps P (call_anchor prim (some caller) phase (some caller) ident at args)
  unfolding call_anchor
  call_anchor-Keeps ident at args h =
      bind-Keeps h
        (λ vs. bind-Keeps (call-Keeps ident at vs) (value_of-Keeps prim phase (some caller) at))

  module _ (call : Expr → UnitEnv → Eval S Value)
      (calls : (x : Expr) (u : UnitEnv) → Keeps P (call x u)) where
    resolve_binding-Keeps :
        (at : Span) (b : Option Binding)
        → Keeps P (resolve_binding prim (some caller) phase call at b)
    unfolding resolve_binding
    resolve_binding-Keeps at none = fail-Keeps prim phase (some caller) _ at
    resolve_binding-Keeps at (some (value v)) = pure-Keeps v
    resolve_binding-Keeps at (some (pending_on occ)) = throw-Keeps _
    resolve_binding-Keeps at (some (thunk x u)) = calls x u

    found-Keeps :
        (at : Span) (found wild : Option Value)
        → Keeps P (elim found as (λ x. Eval S Binding) [
          | some v ↦ pure (value v)
          | none ↦ elim wild as (λ x. Eval S Binding) [
            | some v ↦ pure (value v)
            | none ↦ throw (Diag.diagnostic (Diag.new "KeyNotFound" phase (some at)))
          ]
        ])
    found-Keeps at (some v) wild = pure-Keeps _
    found-Keeps at none (some v) = pure-Keeps _
    found-Keeps at none none = throw-Keeps _

    in_map-Keeps :
        (at : Span) (k : Key) (v : Value) → Keeps P (in_map prim (some caller) phase call at k v)
    unfolding in_map
    in_map-Keeps at k (Value.map_value m) = found-Keeps at (get_entry k m) (get_entry wildcard m)
    in_map-Keeps at k (Value.bool b) = throw-Keeps _
    in_map-Keeps at k Value.invalid = throw-Keeps _
    in_map-Keeps at k (Value.number n) = throw-Keeps _
    in_map-Keeps at k (Value.string t) = throw-Keeps _

    entry_binding-Keeps :
        (at : Span) (u : UnitEnv) (x : Option Expr)
        → Keeps P (entry_binding prim (some caller) phase call at u x)
    unfolding entry_binding
    entry_binding-Keeps at u none = throw-Keeps _
    entry_binding-Keeps at u (some x) = pure-Keeps _

    select_in-Keeps :
        (at : Span) (k : Key) (bare x : Expr) (u : UnitEnv)
        → Keeps P (select_in prim (some caller) phase call at k bare x u)
    unfolding select_in
    select_in-Keeps at k (goal_arrow p b sp) x u = bind-Keeps (calls x u) (in_map-Keeps at k)
    select_in-Keeps at k (func_arrow p b sp) x u = bind-Keeps (calls x u) (in_map-Keeps at k)
    select_in-Keeps at k (serial xs sp) x u = bind-Keeps (calls x u) (in_map-Keeps at k)
    select_in-Keeps at k (parallel xs sp) x u = bind-Keeps (calls x u) (in_map-Keeps at k)
    select_in-Keeps at k (name i h s xs sp) x u = bind-Keeps (calls x u) (in_map-Keeps at k)
    select_in-Keeps at k (anchor i c xs sp) x u = bind-Keeps (calls x u) (in_map-Keeps at k)
    select_in-Keeps at k (policied ps t sp) x u = bind-Keeps (calls x u) (in_map-Keeps at k)
    select_in-Keeps at k (number_lit t sp) x u = bind-Keeps (calls x u) (in_map-Keeps at k)
    select_in-Keeps at k (string_lit r v e sp) x u = bind-Keeps (calls x u) (in_map-Keeps at k)
    select_in-Keeps at k (bool_lit b sp) x u = bind-Keeps (calls x u) (in_map-Keeps at k)
    select_in-Keeps at k (unary op y sp) x u = bind-Keeps (calls x u) (in_map-Keeps at k)
    select_in-Keeps at k (binary op l r sp) x u = bind-Keeps (calls x u) (in_map-Keeps at k)
    select_in-Keeps at k (group y sp) x u = bind-Keeps (calls x u) (in_map-Keeps at k)
    select_in-Keeps at k (map_lit es sp) x u = entry_binding-Keeps at u _

    lookup_binding-Keeps :
        (at : Span) (k : Key) (b : Option Binding)
        → Keeps P (lookup_binding prim (some caller) phase call at k b)
    unfolding lookup_binding
    lookup_binding-Keeps at k none = throw-Keeps _
    lookup_binding-Keeps at k (some (pending_on occ)) = throw-Keeps _
    lookup_binding-Keeps at k (some (value v)) = in_map-Keeps at k v
    lookup_binding-Keeps at k (some (thunk x u)) = select_in-Keeps at k (unwrap_group x) x u

    lookup_key-Keeps :
        (at : Span) (k : Res Key) (b : Option Binding)
        → Keeps P (lookup_key prim (some caller) phase call at k b)
    unfolding lookup_key
    lookup_key-Keeps at (err e) b = throw-Keeps _
    lookup_key-Keeps at (ok k) b = lookup_binding-Keeps at k b

    lookup-Keeps :
        (ident : String) (at : Span) (env : Env) (key : Value)
        → Keeps P (
            lookup_entry prim (some caller) phase call ident at env key
            >>= entry_value prim (some caller) phase call at)
    unfolding lookup_entry entry_value
    lookup-Keeps ident at env key =
        bind-Keeps (lookup_key-Keeps at (key_of key) (env_lookup env ident))
          (λ b. resolve_binding-Keeps at (some b))

    apply_unary-Keeps :
        (at : Span) (op : String) (v : Value)
        → Keeps P (apply_unary prim (some caller) phase call at op v)
    unfolding apply_unary
    apply_unary-Keeps at op v =
        branch-Keeps (op == "!") (eval_not-Keeps prim phase (some caller) at v)
          (wrap_prim-Keeps prim phase (some caller) at _)

    apply_binary-Keeps :
        (at : Span) (op : String) (v : Value) (right : Eval S Value)
        → Keeps P right
        → Keeps P (apply_binary prim (some caller) phase call at op v right)
    unfolding apply_binary
    apply_binary-Keeps at op v right h =
        branch-Keeps (op == "&&" || op == "||")
          (short_circuit-Keeps prim phase (some caller) at (op == "||") v right h)
          (bind-Keeps h (λ r. wrap_prim-Keeps prim phase (some caller) at _))

    mutual
      unfolding eval_expr eval_all eval_entries eval_key

      expr-Keeps : (x : Expr) (env : Env) → Keeps P (eval_expr prim (some caller) phase call x env)
      expr-Keeps (group x sp) env = expr-Keeps x env
      expr-Keeps (number_lit t sp) env =
          wrap_prim-Keeps prim phase (some caller) sp (prim.literal t)
      expr-Keeps (string_lit raw v e sp) env =
          branch-Keeps (e == "") (pure-Keeps _) (fail-Keeps prim phase (some caller) _ sp)
      expr-Keeps (bool_lit v sp) env = pure-Keeps _
      expr-Keeps (unary op x sp) env = bind-Keeps (expr-Keeps x env) (apply_unary-Keeps sp op)
      expr-Keeps (binary op l r sp) env = bind-Keeps (expr-Keeps l env) (λ v.
          apply_binary-Keeps sp op v (eval_expr prim (some caller) phase call r env)
            (expr-Keeps r env))
      expr-Keeps (map_lit es sp) env =
          bind-Keeps (entries-Keeps es env Value.empty) (λ m. pure-Keeps _)
      expr-Keeps (name ident hash no_suffix args sp) env = resolve_binding-Keeps sp _
      expr-Keeps (name ident hash call_suffix args sp) env =
          branch-Keeps (is_upper ident) (throw-Keeps _) (fail-Keeps prim phase (some caller) _ sp)
      expr-Keeps (name ident hash bracket_suffix args sp) env =
          branch-Keeps (is_upper ident) (fail-Keeps prim phase (some caller) _ sp)
            (bind-Keeps (key-Keeps sp args env) (lookup-Keeps ident sp env))
      expr-Keeps (anchor ident called args sp) env =
          call_anchor-Keeps ident sp (eval_all prim (some caller) phase call args env)
            (all-Keeps args env)
      expr-Keeps (goal_arrow p x sp) env = fail-Keeps prim phase (some caller) _ sp
      expr-Keeps (func_arrow p x sp) env = fail-Keeps prim phase (some caller) _ sp
      expr-Keeps (serial xs sp) env = fail-Keeps prim phase (some caller) _ sp
      expr-Keeps (parallel xs sp) env = fail-Keeps prim phase (some caller) _ sp
      expr-Keeps (policied ps t sp) env = fail-Keeps prim phase (some caller) _ sp

      all-Keeps : (xs : Exprs) (env : Env) → Keeps P (eval_all prim (some caller) phase call xs env)
      all-Keeps nil env = pure-Keeps _
      all-Keeps (cons x xs) env =
          bind-Keeps (expr-Keeps x env) (λ v. bind-Keeps (all-Keeps xs env) (λ vs. pure-Keeps _))

      entries-Keeps :
          (es : Entries) (env : Env) (m : ValueMap)
          → Keeps P (eval_entries prim (some caller) phase call es env m)
      entries-Keeps no_entries env m = pure-Keeps m
      entries-Keeps (entry key x es) env m =
          bind-Keeps (expr-Keeps x env)
            (λ v. entries-Keeps es env (with_entry (static_key key) v m))

      key-Keeps :
          (sp : Span) (xs : Exprs) (env : Env)
          → Keeps P (eval_key prim (some caller) phase call sp xs env)
      key-Keeps sp nil env = throw-Keeps _
      key-Keeps sp (cons x nil) env = expr-Keeps x env
      key-Keeps sp (cons x (cons y ys)) env = throw-Keeps _

  eval_thunk-Keeps :
      (f : ℕ) (x : Expr) (u : UnitEnv) → Keeps P (eval_thunk prim (some caller) phase f x u)
  unfolding eval_thunk Lands
  eval_thunk-Keeps zero x u = record { kept = λ s h. tt }
  eval_thunk-Keeps (suc f) x u = record {
    kept = λ s h.
        (expr-Keeps (eval_thunk prim (some caller) phase f) (eval_thunk-Keeps f) x (unit u)).kept s
          h;
  }

  pub eval-Keeps : (f : ℕ) (x : Expr) (env : Env) → Keeps P (eval prim (some caller) phase f x env)
  unfolding eval
  eval-Keeps f x env = expr-Keeps (eval_thunk prim (some caller) phase f) (eval_thunk-Keeps f) x env
