-- ===== src/Diag.antt =====
-- diag/diag.go: the diagnostic that every layer reports. The kind and the phase are the contract;
-- the message text and the free-form details are informative only, and are left out.
use subsea_cable_runtime.Base.{
  ℕ, Bool, false, true, Option, none, some, String, List, [], ◌∷◌, map, ◌==◌, string_eq,
  if◌then◌else◌, Eq, nat_eq, ◌&&◌, ◌≡◌, ◌↔◌, arith,
}

-- `source` to `policy` are the language's phases; `profile` is this program's own.
pub data Phase : Type 0 where
  source validation deduction host policy profile : Phase

pub record Span : Type 0 where
  pub line : ℕ
  pub col : ℕ

pub record Diagnostic : Type 0 where
  pub kind : String
  pub phase : Phase
  pub span : Option Span
  pub occurrence : String
  pub lineages : List String

-- diag.New; `at` is the span that diag.At copies, when there is one.
unfoldable pub new : String → Phase → Option Span → Diagnostic
new kind phase at = record { kind = kind; phase = phase; span = at; occurrence = ""; lineages = [] }

-- What a Go `error` of this program can be: a diagnostic, a list of them, the value barrier's
-- PendingError with its occurrence, or an error with a text only. `exhausted` is no error of the
-- program: it stands for an evaluation that the model's fuel did not cover.
pub data Err : Type 0 where
  diagnostic : Diagnostic → Err
  diagnostics : List Diagnostic → Err
  pending : String → Err
  plain : Err
  exhausted : Err

unfoldable pub kinds : List Diagnostic → List String
kinds = map (λ d. d.kind)

unfoldable pub has : List Diagnostic → String → Bool
has [] kind = false
has (d ∷ ds) kind = if d.kind == kind then true else has ds kind

-- diag.As
unfoldable pub as_diagnostic : Err → Option Diagnostic
as_diagnostic (diagnostic d) = some d
as_diagnostic (diagnostics []) = none
as_diagnostic (diagnostics (d ∷ ds)) = some d
as_diagnostic (pending occ) = none
as_diagnostic plain = none
as_diagnostic exhausted = none

-- A Go pair of a value and an error.
pub data Res {ℓ} (A : Type ℓ) : Type ℓ where
  ok : A → Res A
  err : Err → Res A

abbrev pub span_beq : Span → Span → Bool
span_beq a b = a.line == b.line && a.col == b.col

pub span_beq_iff : (a b : Span) → (span_beq a b ≡ true) ↔ (a ≡ b)
span_beq_iff a b = ground arith

instance abbrev pub span_eq : Eq Span
span_eq = record { beq = span_beq; beq_iff = span_beq_iff }
