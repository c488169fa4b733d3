-- ===== src/Expr/Answers.antt =====
-- Evaluation of a unit whose top-level bindings are ranked: `eval` of expr/expr.go answers, with no
-- more fuel than the rank.
use subsea_cable_runtime.Base.{
  ℕ, zero, suc, ◌<◌, ◌≡◌, refl, true, Option, String, List, [], ◌∷◌, ◌==◌, string_eq, is_some,
  arith, Bool-cases, inl, inr,
}
use subsea_cable_runtime.Diag.{Phase, Span}
use subsea_cable_runtime.Value.{Value, Output, ValueMap, with_entry}
use subsea_cable_runtime.Value
use subsea_cable_runtime.Syntax.{
  Expr, Exprs, Entries, goal_arrow, func_arrow, serial, parallel, map_lit, name, anchor, policied,
  number_lit, string_lit, bool_lit, unary, binary, group, nil, cons, no_entries, entry, no_suffix,
  bracket_suffix, call_suffix, is_upper,
}
use subsea_cable_runtime.Expr.Monad.{Eval, throw}
use subsea_cable_runtime.Expr.{
  Primitives, UnitEnv, Env, unit, env_lookup, AnchorCaller, apply_unary, apply_binary, eval_expr,
  eval_all, eval_entries, eval_key, eval_thunk, eval, static_key,
}
use subsea_cable_runtime.Expr.Total.{
  Total, Below, BelowAll, BelowEntries, IsRanked, pure-Total, bind-Total, fail-Total,
  wrap_prim-Total, call_anchor-Total,
}
use subsea_cable_runtime.Expr.Acyclic.{
  Calls, Resolves, resolve_binding-Total, lookup-Total, apply_unary-Total, apply_binary-Total,
}

module _ {S : Type 0} (prim : Primitives) (anchors : Option (AnchorCaller S)) (phase : Phase)
    (u : UnitEnv) (rank : String → ℕ) (call : Expr → UnitEnv → Eval S Value) (k : ℕ) (env : Env)
    (calls : Calls prim anchors phase u rank call k)
    (names : Resolves prim anchors phase u rank call k env) where
  mutual
    unfolding eval_expr eval_all eval_entries eval_key Below BelowAll BelowEntries throw

    expr-Total : (x : Expr) → Below rank k x → Total (eval_expr prim anchors phase call x env)
    expr-Total (group x sp) b s = expr-Total x b s
    expr-Total (number_lit t sp) b s = wrap_prim-Total prim anchors phase sp (prim.literal t) s
    expr-Total (string_lit raw v e sp) b s = elim (Bool-cases (e == "")) [
      | inl valid ↦ rw valid (pure-Total (Value.string v) s)
      | inr bad ↦ rw bad (fail-Total prim anchors phase "InvalidUnicodeEscape" sp s)
    ]
    expr-Total (bool_lit v sp) b s = pure-Total (Value.bool v) s
    expr-Total (unary op x sp) b s =
        bind-Total (eval_expr prim anchors phase call x env)
          (apply_unary prim anchors phase call sp op) (expr-Total x b)
          (apply_unary-Total prim anchors phase u rank call sp op) s
    expr-Total (binary op l r sp) b s =
        bind-Total (eval_expr prim anchors phase call l env)
          (λ v.
            apply_binary prim anchors phase call sp op v (eval_expr prim anchors phase call r env))
          (expr-Total l b.0)
          (λ v.
            apply_binary-Total prim anchors phase u rank call sp op v
              (eval_expr prim anchors phase call r env) (expr-Total r b.1))
          s
    expr-Total (map_lit es sp) b s =
        bind-Total (eval_entries prim anchors phase call es env Value.empty) _
          (entries-Total es Value.empty b) (λ m. pure-Total (Value.map_value m)) s
    expr-Total (name ident hash no_suffix args sp) b s =
        resolve_binding-Total prim anchors phase u rank call k sp (env_lookup env ident) calls
          (names ident b.0) s
    expr-Total (name ident hash call_suffix args sp) b s = elim (Bool-cases (is_upper ident)) [
      | inl goal ↦ rw (goal, throw) refl
      | inr other ↦ rw other (fail-Total prim anchors phase "NotCallable" sp s)
    ]
    expr-Total (name ident hash bracket_suffix args sp) b s = elim (Bool-cases (is_upper ident)) [
      | inl goal ↦ rw goal (fail-Total prim anchors phase "InvalidStructuralContext" sp s)
      | inr other ↦ rw other (
          bind-Total (eval_key prim anchors phase call sp args env) _ (key-Total sp args b.1)
            (λ v.
              lookup-Total prim anchors phase u rank call k ident sp env v calls (names ident b.0))
            s)
    ]
    expr-Total (anchor ident called args sp) b s =
        call_anchor-Total prim anchors phase anchors ident sp
          (eval_all prim anchors phase call args env) (all-Total args b) s
    expr-Total (goal_arrow p x sp) b s =
        fail-Total prim anchors phase "InvalidStructuralContext" sp s
    expr-Total (func_arrow p x sp) b s =
        fail-Total prim anchors phase "InvalidStructuralContext" sp s
    expr-Total (serial xs sp) b s = fail-Total prim anchors phase "InvalidStructuralContext" sp s
    expr-Total (parallel xs sp) b s = fail-Total prim anchors phase "InvalidStructuralContext" sp s
    expr-Total (policied ps t sp) b s =
        fail-Total prim anchors phase "InvalidStructuralContext" sp s

    all-Total : (xs : Exprs) → BelowAll rank k xs → Total (eval_all prim anchors phase call xs env)
    all-Total nil b s = pure-Total {A = List Value} [] s
    all-Total (cons x xs) b s =
        bind-Total (eval_expr prim anchors phase call x env) _ (expr-Total x b.0)
          (λ v.
            bind-Total (eval_all prim anchors phase call xs env) _ (all-Total xs b.1)
              (λ vs. pure-Total (v ∷ vs)))
          s

    entries-Total :
        (es : Entries) (m : ValueMap)
        → BelowEntries rank k es
        → Total (eval_entries prim anchors phase call es env m)
    entries-Total no_entries m b s = pure-Total m s
    entries-Total (entry key x es) m b s =
        bind-Total (eval_expr prim anchors phase call x env) _ (expr-Total x b.0)
          (λ v. entries-Total es (with_entry (static_key key) v m) b.1) s

    key-Total :
        (sp : Span) (xs : Exprs)
        → BelowAll rank k xs
        → Total (eval_key prim anchors phase call sp xs env)
    key-Total sp nil b s = refl
    key-Total sp (cons x nil) b s = expr-Total x b.0 s
    key-Total sp (cons x (cons y ys)) b s = refl

module _ {S : Type 0} (prim : Primitives) (anchors : Option (AnchorCaller S)) (phase : Phase)
    (rank : String → ℕ) (u : UnitEnv) where
  ranked-Resolves :
      (call : Expr → UnitEnv → Eval S Value) (k : ℕ) (env : Env)
      → IsRanked rank u env
      → Resolves prim anchors phase u rank call k env
  unfolding IsRanked
  ranked-Resolves call k env h n lt x v e =
      let (same, below) = h n x v e in (same, (rank n, lt, below))

  eval_thunk-Total :
      (f r : ℕ) (x : Expr)
      → IsRanked rank u (unit u)
      → r < f
      → Below rank r x
      → Total (eval_thunk prim anchors phase f x u)
  unfolding eval_thunk
  eval_thunk-Total zero r x h lt b = absurd (omega (arith, lt))
  eval_thunk-Total (suc f) r x h lt b =
      expr-Total prim anchors phase u rank (eval_thunk prim anchors phase f) r (unit u)
        (λ q y less below. eval_thunk-Total f q y h (omega (arith, less, lt)) below)
        (ranked-Resolves (eval_thunk prim anchors phase f) r (unit u) h) x b

  -- Where the top-level bindings of the unit are ranked and the environment resolves names to
  -- values or to those bindings, Eval answers on every expression whose names have ranks below
  -- the fuel, with a value or an error, whatever the Host and the Anchor gateway do.
  pub eval_total :
      (f : ℕ) (x : Expr) (env : Env) (s : S)
      → IsRanked rank u (unit u)
      → IsRanked rank u env
      → Below rank f x
      → is_some (eval prim anchors phase f x env s) ≡ true
  unfolding eval
  eval_total f x env s h he b =
      expr-Total prim anchors phase u rank (eval_thunk prim anchors phase f) f env
        (λ q y less below. eval_thunk-Total f q y h less below)
        (ranked-Resolves (eval_thunk prim anchors phase f) f env he) x b s
