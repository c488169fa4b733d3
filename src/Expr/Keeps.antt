-- ===== src/Expr/Keeps.antt =====
-- Evaluation steps that keep a predicate of the state behind the Anchor gateway.
use subsea_cable_runtime.Base.{
  Bool, true, false, Option, none, some, String, List, string_eq, if◌then◌else◌,
}
use subsea_cable_runtime.Diag.{Phase, Span, Err, Res, ok, err}
use subsea_cable_runtime.Value.{Value, Output, no_output, output}
use subsea_cable_runtime.Expr.Monad.{Eval, pure, throw, ◌>>=◌, and_then}
use subsea_cable_runtime.Expr.{
  Primitives, AnchorCaller, fail, wrap_prim, eval_not, right_bool, short_circuit, value_of,
}

unfoldable pub Lands : {S A : Type 0} → (S → Type 0) → Option (Res A × S) → Type 0
Lands P none = Unit
Lands P (some (r, s)) = P s

pub record Keeps {S A : Type 0} (P : S → Type 0) (m : Eval S A) : Type 0 where
  pub kept : (s : S) → P s → Lands P (m s)

-- A gateway whose calls keep `P`.
pub record Passes {S : Type 0} (P : S → Type 0) (caller : AnchorCaller S) : Type 0 where
  pub passes :
      (ident : String) (at : Span) (args : List Value) (s : S) → P s → P (caller ident at args s).1

module _ {S : Type 0} {P : S → Type 0} where
  pub pure-Keeps : {A : Type 0} (a : A) → Keeps P (pure {S = S} a)
  unfolding pure Lands
  pure-Keeps a = record { kept = λ s h. h }

  pub throw-Keeps : {A : Type 0} (e : Err) → Keeps P (throw {S = S} {A = A} e)
  unfolding throw Lands
  throw-Keeps e = record { kept = λ s h. h }

  pub bind-Keeps :
      {A B : Type 0} {m : Eval S A} {f : A → Eval S B}
      → Keeps P m
      → ((a : A) → Keeps P (f a))
      → Keeps P (m >>= f)
  unfolding ◌>>=◌ Lands
  bind-Keeps {A} {B} {m} {f} h g = record { kept = λ s p. by_result (m s) (h.kept s p) }
    where
      by_result : (r : Option (Res A × S)) → Lands P r → Lands P (and_then r f)
      by_result none e = tt
      by_result (some (ok a, t)) e = (g a).kept t e
      by_result (some (err x, t)) e = e

  pub branch-Keeps :
      {A : Type 0} {a b : Eval S A} (c : Bool)
      → Keeps P a
      → Keeps P b
      → Keeps P (if c then a else b)
  branch-Keeps true h g = h
  branch-Keeps false h g = g

module _ {S : Type 0} {P : S → Type 0} (prim : Primitives) (phase : Phase)
    (anchors : Option (AnchorCaller S)) where
  pub fail-Keeps : (kind : String) (at : Span) → Keeps P (fail prim anchors phase kind at)
  unfolding fail
  fail-Keeps kind at = throw-Keeps _

  pub wrap_prim-Keeps : (at : Span) (r : Res Value) → Keeps P (wrap_prim prim anchors phase at r)
  unfolding wrap_prim
  wrap_prim-Keeps at (ok v) = pure-Keeps v
  wrap_prim-Keeps at (err e) = throw-Keeps _

  pub right_bool-Keeps : (at : Span) (v : Value) → Keeps P (right_bool prim anchors phase at v)
  unfolding right_bool
  right_bool-Keeps at (Value.bool b) = pure-Keeps _
  right_bool-Keeps at Value.invalid = fail-Keeps _ at
  right_bool-Keeps at (Value.number n) = fail-Keeps _ at
  right_bool-Keeps at (Value.string t) = fail-Keeps _ at
  right_bool-Keeps at (Value.map_value m) = fail-Keeps _ at

  pub eval_not-Keeps : (at : Span) (v : Value) → Keeps P (eval_not prim anchors phase at v)
  unfolding eval_not
  eval_not-Keeps at (Value.bool b) = pure-Keeps _
  eval_not-Keeps at Value.invalid = fail-Keeps _ at
  eval_not-Keeps at (Value.number n) = fail-Keeps _ at
  eval_not-Keeps at (Value.string t) = fail-Keeps _ at
  eval_not-Keeps at (Value.map_value m) = fail-Keeps _ at

  pub short_circuit-Keeps :
      (at : Span) (stop : Bool) (v : Value) (right : Eval S Value)
      → Keeps P right
      → Keeps P (short_circuit prim anchors phase at stop v right)
  unfolding short_circuit
  short_circuit-Keeps at stop (Value.bool true) right h =
      branch-Keeps stop (pure-Keeps _) (bind-Keeps h (right_bool-Keeps at))
  short_circuit-Keeps at stop (Value.bool false) right h =
      branch-Keeps stop (bind-Keeps h (right_bool-Keeps at)) (pure-Keeps _)
  short_circuit-Keeps at stop Value.invalid right h = fail-Keeps _ at
  short_circuit-Keeps at stop (Value.number n) right h = fail-Keeps _ at
  short_circuit-Keeps at stop (Value.string t) right h = fail-Keeps _ at
  short_circuit-Keeps at stop (Value.map_value m) right h = fail-Keeps _ at

  pub value_of-Keeps : (at : Span) (o : Output) → Keeps P (value_of prim anchors phase at o)
  unfolding value_of
  value_of-Keeps at no_output = fail-Keeps _ at
  value_of-Keeps at (output v) = pure-Keeps v
