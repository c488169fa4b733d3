-- ===== src/Expr/Monad.antt =====
-- Evaluation steps: a state, an error, and `none` for fuel that ran out.
use subsea_cable_runtime.Base.{Option, none, some}
use subsea_cable_runtime.Diag.{Res, ok, err, Err}

abbrev pub Eval : Type 0 → Type 0 → Type 0
Eval S A = S → Option (Res A × S)

module _ {S A : Type 0} where
  unfoldable pub pure : A → Eval S A
  pure a s = some (ok a, s)

  unfoldable pub throw : Err → Eval S A
  throw e s = some (err e, s)

  unfoldable pub lift : Res A → Eval S A
  lift r s = some (r, s)

module _ {S A B : Type 0} where
  abbrev pub and_then : Option (Res A × S) → (A → Eval S B) → Option (Res B × S)
  and_then none f = none
  and_then (some (ok a, s)) f = f a s
  and_then (some (err e, s)) f = some (err e, s)

  infixl 10 ◌>>=◌
  unfoldable pub ◌>>=◌ : Eval S A → (A → Eval S B) → Eval S B
  ◌>>=◌ m f s = and_then (m s) f
