-- ===== src/Expr/Total.antt =====
-- Evaluation steps that answer in every state, and units whose top-level bindings are ranked, which
-- those without a cyclic binding are.
use subsea_cable_runtime.Base.{
  ℕ, ◌<◌, ◌≡◌, refl, Bool, true, false, Option, none, some, String, List, string_eq, is_some,
}
use subsea_cable_runtime.Diag.{Phase, Span, Res, ok, err}
use subsea_cable_runtime.Value.{Value, Output, no_output, output}
use subsea_cable_runtime.Syntax.{
  Expr, Exprs, Entries, goal_arrow, func_arrow, serial, parallel, map_lit, name, anchor, policied,
  number_lit, string_lit, bool_lit, unary, binary, group, nil, cons, no_entries, entry,
}
use subsea_cable_runtime.Expr.Monad.{Eval, pure, throw, ◌>>=◌, and_then}
use subsea_cable_runtime.Expr.{
  Primitives, UnitEnv, thunk, Env, env_lookup, AnchorCaller, fail, wrap_prim, eval_not, right_bool,
  short_circuit, value_of, call_anchor,
}

-- Every name in the expression has a rank below `k`.
module _ (rank : String → ℕ) where
  unfoldable mutual
    pub Below : ℕ → Expr → Type 0
    Below k (group x sp) = Below k x
    Below k (unary op x sp) = Below k x
    Below k (binary op l r sp) = Below k l × Below k r
    Below k (map_lit es sp) = BelowEntries k es
    Below k (name ident hash s args sp) = (rank ident < k) × BelowAll k args
    Below k (anchor ident called args sp) = BelowAll k args
    Below k (number_lit t sp) = Unit
    Below k (string_lit r v e sp) = Unit
    Below k (bool_lit b sp) = Unit
    Below k (goal_arrow p b sp) = Unit
    Below k (func_arrow p b sp) = Unit
    Below k (serial xs sp) = Unit
    Below k (parallel xs sp) = Unit
    Below k (policied ps t sp) = Unit

    pub BelowAll : ℕ → Exprs → Type 0
    BelowAll k nil = Unit
    BelowAll k (cons x xs) = Below k x × BelowAll k xs

    pub BelowEntries : ℕ → Entries → Type 0
    BelowEntries k no_entries = Unit
    BelowEntries k (entry key x es) = Below k x × BelowEntries k es

  -- The bindings that the environment resolves to expressions are of this unit, and mention only
  -- names of a lower rank.
  unfoldable pub IsRanked : UnitEnv → Env → Type 0
  IsRanked u env =
      (n : String) (x : Expr) (v : UnitEnv)
      → env_lookup env n ≡ some (thunk x v)
      → (v ≡ u) × Below (rank n) x

module _ {S A : Type 0} where
  -- The evaluation answers, with a value or with an error, in every state.
  abbrev pub Total : Eval S A → Type 0
  Total m = (s : S) → is_some (m s) ≡ true

  pub pure-Total : (a : A) → Total (pure {S = S} a)
  unfolding pure
  pure-Total a s = refl

  -- It answers, and its value satisfies `Q`.
  Answer : (A → Type 0) → Option (Res A × S) → Type 0
  Answer Q none = ⊥
  Answer Q (some (ok a, s)) = Q a
  Answer Q (some (err e, s)) = Unit

  unfoldable pub Yields : (A → Type 0) → Eval S A → Type 0
  unfolding Answer
  Yields Q m = (s : S) → Answer Q (m s)

module _ {S A B : Type 0} where
  pub bind-Total :
      (m : Eval S A) (f : A → Eval S B) → Total m → ((a : A) → Total (f a)) → Total (m >>= f)
  unfolding ◌>>=◌
  bind-Total m f h g s = by_result (m s) (h s)
    where
      by_result : (r : Option (Res A × S)) → is_some r ≡ true → is_some (and_then r f) ≡ true
      by_result none e = cc
      by_result (some (ok a, t)) e = g a t
      by_result (some (err x, t)) e = refl

  pub bind-Yields :
      (Q : A → Type 0) (m : Eval S A) (f : A → Eval S B)
      → Yields Q m
      → ((a : A) → Q a → Total (f a))
      → Total (m >>= f)
  unfolding ◌>>=◌ Yields
  bind-Yields Q m f h g s = by_result (m s) (h s)
    where
      by_result : (r : Option (Res A × S)) → Answer Q r → is_some (and_then r f) ≡ true
      by_result none e = absurd e
      by_result (some (ok a, t)) e = g a e t
      by_result (some (err x, t)) e = refl

  pub then-Yields :
      (Q : B → Type 0) (m : Eval S A) (f : A → Eval S B)
      → Total m
      → ((a : A) → Yields Q (f a))
      → Yields Q (m >>= f)
  unfolding ◌>>=◌ Yields
  then-Yields Q m f h g s = by_result (m s) (h s)
    where
      by_result : (r : Option (Res A × S)) → is_some r ≡ true → Answer Q (and_then r f)
      by_result none e = cc
      by_result (some (ok a, t)) e = g a t
      by_result (some (err x, t)) e = tt

module _ {S : Type 0} (prim : Primitives) (anchors : Option (AnchorCaller S)) (phase : Phase) where
  pub fail-Total : (kind : String) (at : Span) → Total (fail {S = S} prim anchors phase kind at)
  unfolding fail throw
  fail-Total kind at s = refl

  pub wrap_prim-Total :
      (at : Span) (r : Res Value) → Total (wrap_prim {S = S} prim anchors phase at r)
  unfolding wrap_prim pure throw
  wrap_prim-Total at (ok v) s = refl
  wrap_prim-Total at (err e) s = refl

  pub right_bool-Total :
      (at : Span) (v : Value) → Total (right_bool {S = S} prim anchors phase at v)
  unfolding right_bool pure fail throw
  right_bool-Total at (Value.bool b) s = refl
  right_bool-Total at Value.invalid s = refl
  right_bool-Total at (Value.number n) s = refl
  right_bool-Total at (Value.string t) s = refl
  right_bool-Total at (Value.map_value m) s = refl

  pub eval_not-Total : (at : Span) (v : Value) → Total (eval_not {S = S} prim anchors phase at v)
  unfolding eval_not pure fail throw
  eval_not-Total at (Value.bool b) s = refl
  eval_not-Total at Value.invalid s = refl
  eval_not-Total at (Value.number n) s = refl
  eval_not-Total at (Value.string t) s = refl
  eval_not-Total at (Value.map_value m) s = refl

  pub short_circuit-Total :
      (at : Span) (stop : Bool) (v : Value) (right : Eval S Value)
      → Total right
      → Total (short_circuit prim anchors phase at stop v right)
  unfolding short_circuit fail throw pure
  short_circuit-Total at true (Value.bool true) right h s = refl
  short_circuit-Total at false (Value.bool false) right h s = refl
  short_circuit-Total at false (Value.bool true) right h s =
      bind-Total right (right_bool prim anchors phase at) h (right_bool-Total at) s
  short_circuit-Total at true (Value.bool false) right h s =
      bind-Total right (right_bool prim anchors phase at) h (right_bool-Total at) s
  short_circuit-Total at stop Value.invalid right h s = refl
  short_circuit-Total at stop (Value.number n) right h s = refl
  short_circuit-Total at stop (Value.string t) right h s = refl
  short_circuit-Total at stop (Value.map_value m) right h s = refl

  pub value_of-Total : (at : Span) (o : Output) → Total (value_of {S = S} prim anchors phase at o)
  unfolding value_of fail throw pure
  value_of-Total at no_output s = refl
  value_of-Total at (output v) s = refl

  pub call_anchor-Total :
      (mc : Option (AnchorCaller S)) (ident : String) (at : Span) (args : Eval S (List Value))
      → Total args
      → Total (call_anchor prim anchors phase mc ident at args)
  unfolding call_anchor throw
  call_anchor-Total none ident at args h s = refl
  call_anchor-Total (some caller) ident at args h s =
      bind-Total args _ h
        (λ vs.
          bind-Total (λ s. some (caller ident at vs s)) (value_of prim anchors phase at) (λ s. refl)
            (value_of-Total at))
        s
