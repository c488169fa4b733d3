-- ===== src/Runtime/Moves/Scripted.antt =====
-- The scripted Host of host/host.go reaches the Runtime's call sites through the gateway only.
use subsea_cable_runtime.Base.{ℕ, Option, none, some, String, List}
use subsea_cable_runtime.Diag.{Span, Err, host, Res, ok, err}
use subsea_cable_runtime.Value.{Value}
use subsea_cable_runtime.Syntax.{Exprs, nil, cons}
use subsea_cable_runtime.Expr.{Primitives, Env, AnchorCaller, eval}
use subsea_cable_runtime.Expr.Keeps.{Lands, Passes}
use subsea_cable_runtime.Expr.Gateway.{eval-Keeps}
use subsea_cable_runtime.Carousel.{Func}
use subsea_cable_runtime.Host.{LeafContext, Outcome}
use subsea_cable_runtime.Host.Scripted.{
  Scripted, failed_eval, evaluate_body, after_call, evaluate_function, scripted_port,
}
use subsea_cable_runtime.Runtime.State.{Gate}
use subsea_cable_runtime.Runtime.Moves.Starting.{IsGated}

module _ (prim : Primitives) (fuel : ℕ) (P : Gate → Type 0) (call : AnchorCaller (Scripted × Gate))
    (passing : Passes (λ t. P t.1) call) (ctx : LeafContext) (env : Env) where
  failed_eval-keeps :
      (e : Err) (s : Scripted × Gate) → P s.1 → P (failed_eval {G = Gate} prim fuel e ctx s).1.1
  unfolding failed_eval
  failed_eval-keeps e s p = p

  evaluate_body-keeps :
      (xs : Exprs) (last : Value) (s : Scripted × Gate)
      → P s.1
      → P (evaluate_body {G = Gate} prim fuel xs last ctx env call s).1.1
  unfolding evaluate_body Lands
  evaluate_body-keeps nil last s p = p
  evaluate_body-keeps (cons x xs) last s p =
      by_result (evaluate_body-keeps xs) (eval prim (some call) host fuel x env s)
        ((eval-Keeps prim host call passing fuel x env).kept s p)
    where
      by_result :
          ((v : Value) (t : Scripted × Gate)
            → P t.1
            → P (evaluate_body {G = Gate} prim fuel xs v ctx env call t).1.1)
          → (r : Option (Res Value × (Scripted × Gate))) → Lands (λ t. P t.1) r
          → P
              (elim r as (λ r'. Outcome × (Scripted × Gate)) [
                | none ↦ failed_eval {G = Gate} prim fuel Err.exhausted ctx s
                | some (ok v, s') ↦ evaluate_body {G = Gate} prim fuel xs v ctx env call s'
                | some (err e, s') ↦ failed_eval {G = Gate} prim fuel e ctx s'
              ]).1.1
      by_result rest none h = failed_eval-keeps Err.exhausted s p
      by_result rest (some (ok v, t)) h = rest v t h
      by_result rest (some (err e, t)) h = failed_eval-keeps e t h

  after_call-keeps :
      (fn : Option Func) (r : Option Outcome × Scripted) (g : Gate)
      → P g
      → P (after_call {G = Gate} prim fuel fn ctx env call r g).1.1
  unfolding after_call
  after_call-keeps fn (some o, h) g p = p
  after_call-keeps fn (none, h) g p = evaluate_body-keeps _ Value.invalid (h, g) p

evaluate_function_lem :
    (prim : Primitives) (fuel : ℕ) (P : Gate → Type 0) (ctx : LeafContext) (fn : Option Func)
    (env : Env) (call : AnchorCaller (Scripted × Gate)) (s : Scripted × Gate)
    → ((ident : String) (at : Span) (args : List Value) (t : Scripted × Gate)
        → P t.1
        → P (call ident at args t).1.1)
    → P s.1
    → P (evaluate_function {G = Gate} prim fuel ctx fn env call s).1.1
unfolding evaluate_function
evaluate_function_lem prim fuel P ctx fn env call s keeps p =
    after_call-keeps prim fuel P call (record { passes = keeps }) ctx env fn _ s.1 p

pub scripted_port-IsGated :
    (prim : Primitives) (fuel : ℕ) → IsGated (scripted_port {G = Gate} prim fuel)
unfolding scripted_port
scripted_port-IsGated prim fuel = record { through = evaluate_function_lem prim fuel }
