-- ===== src/Host.antt =====
-- host/host.go: what the Runtime asks of a Host. The Host keeps a state `H`; a function leaf calls
-- back through the Anchor gateway, which keeps a state `G` of the Runtime's.
pub mod Rational
pub mod Scripted
use subsea_cable_runtime.Base.{ℕ, String, Option, List, ℤ}
use subsea_cable_runtime.Diag.{Diagnostic}
use subsea_cable_runtime.Value.{Value, Output}
use subsea_cable_runtime.Expr.{Primitives, Env, AnchorCaller}
use subsea_cable_runtime.Carousel.{Func}

pub record LeafContext : Type 0 where
  pub run_id : String
  pub occurrence : String
  pub artifact : String
  pub leaf : String
  pub lineages : List String
  pub attempt_id : String
  pub attempt_no : ℕ
  pub args_digest : String

pub data Status : Type 0 where
  succeeded failed cancelled : Status

abbrev pub status_text : Status → String
status_text succeeded = "Succeeded"
status_text failed = "Failed"
status_text cancelled = "Cancelled"

pub record Outcome : Type 0 where
  pub status : Status
  pub result : Output
  pub diag : Option Diagnostic
  pub ticks : ℤ

-- The interface Host.
pub record HostPort (H G : Type 0) : Type 0 where
  pub primitives : Primitives
  pub evaluate_function :
      LeafContext → Option Func → Env → AnchorCaller (H × G) → H × G → Outcome × (H × G)
  pub invoke_anchor : LeafContext → String → List Value → H → Outcome × H
  pub cancel : String → H → H
