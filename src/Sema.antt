-- ===== src/Sema.antt =====
-- sema/sema.go: the prepared source unit that validation hands to the Codebase and the Carousel.
use subsea_cable_runtime.Base.{ℕ, Bool, String, List}
use subsea_cable_runtime.Diag.{Span, Diagnostic}
use subsea_cable_runtime.Syntax.{Expr, Exprs}
use subsea_cable_runtime.Expr.{UnitEnv}

-- One stored artifact that a hash prefix matches.
pub record PrefixMatch : Type 0 where
  pub hash : String
  pub arity : ℕ

pub record GoalDef : Type 0 where
  pub name : String
  pub arity : ℕ
  pub arrow : Expr
  pub is_function : Bool
  pub span : Span

-- The Root name node.
pub record RootName : Type 0 where
  pub ident : String
  pub hash : String
  pub args : Exprs
  pub span : Span

pub record SourceUnit : Type 0 where
  pub goals : List GoalDef
  pub values : UnitEnv
  pub root : RootName
  pub unsupported : List Diagnostic
