-- ===== src/Codebase/Commit.antt =====
-- CommitUnit of codebase/codebase.go: canonical definitions, pins, staging and installation.
use subsea_cable_runtime.Base.{
  ℕ, suc, ◌+◌, ◌*◌, Bool, true, false, Option, none, some, String, List, [], ◌∷◌, if◌then◌else◌,
  Map, get, put, length, sort_by, str_ltb, show_ℕ, pair_eq, string_eq, nat_eq,
}
use subsea_cable_runtime.Diag.{Span, Diagnostic, validation, diagnostic, new, Res, ok, err, span_eq}
use subsea_cable_runtime.Syntax.{Expr}
use subsea_cable_runtime.Syntax.Canonical.{
  Writer, lit, ◌▹◌, Resolve, write_canon, frame_atom, frame_open, frame_close,
}
use subsea_cable_runtime.Expr.{UnitEnv}
use subsea_cable_runtime.Sema.{GoalDef, PrefixMatch, SourceUnit}
use subsea_cable_runtime.Codebase.{Artifact, Codebase, resolve_prefix}

-- What the `resolve` closure of CommitUnit keeps: the pins, and the first error.
pub record Pins : Type 0 where
  pub pinned : Map Span String
  pub perr : Option Diagnostic

note : Option Diagnostic → String → Span → Option Diagnostic
note (some d) kind at = some d
note none kind at = some (new kind validation (some at))

pin_match : Pins → String → Span → List PrefixMatch → String × Pins
unfolding note
pin_match st hash at [] = (hash, record st { perr = note st.perr "HashNotFound" at })
pin_match st hash at (m ∷ []) = (m.hash, record st { pinned = put at m.hash st.pinned })
pin_match st hash at (m ∷ n ∷ ms) =
    (hash, record st { perr = note st.perr "AmbiguousHashPrefix" at })

resolve_pin : Codebase → Resolve Pins
unfolding pin_match
resolve_pin c ident hash at st = elim (get at st.pinned) [
  | some full ↦ (full, st)
  | none ↦ pin_match st hash at (resolve_prefix c ident hash)
]

abbrev hash_profile : String
hash_profile = "poc-sha256-canon/1"

write_values : Bool → Resolve Pins → List (String × Expr) → Writer Pins
write_values erase resolve [] = lit ""
write_values erase resolve ((n, x) ∷ vs) =
    lit (frame_atom "v" n) ▹ write_canon erase (some resolve) x ▹ write_values erase resolve vs

-- The definition together with all the top-level values of its unit, sorted by name.
unfoldable pub canonical_def : GoalDef → UnitEnv → Bool → Resolve Pins → Writer Pins
unfolding write_values
canonical_def def values erase resolve =
    let vs = sort_by (λ p q. str_ltb p.0 q.0) values.values in
    lit (frame_open "artifact" (4 + 2 * length vs))
    ▹ lit (frame_atom "p" hash_profile)
    ▹ lit (frame_atom "i" (if erase then "" else def.name))
    ▹ lit (frame_atom "a" (show_ℕ def.arity))
    ▹ write_canon erase (some resolve) def.arrow
    ▹ write_values erase resolve vs
    ▹ lit frame_close

module _ (sha256 : String → String) where
  staged_artifact : GoalDef → UnitEnv → String → String → Pins → Artifact
  staged_artifact def values authored structural st = record {
    hash = sha256 authored;
    structure_hash = sha256 structural;
    name = def.name;
    arity = def.arity;
    def = def;
    values = values;
    pinned = st.pinned;
    canonical = authored;
  }

  checked : Option Diagnostic → Artifact → Res Artifact
  checked (some d) a = err (diagnostic d)
  checked none a = ok a

  -- One turn of the loop over the unit's Goals.
  stage_goal : Codebase → UnitEnv → GoalDef → Res Artifact
  unfolding staged_artifact checked resolve_pin canonical_def
  stage_goal c values def =
      let resolve = resolve_pin c in
      let (authored, st) =
        canonical_def def values false resolve (record { pinned = []; perr = none }) in
      let (structural, st') = canonical_def def values true resolve st in
      checked st'.perr (staged_artifact def values authored structural st')

  cons_staged : Res Artifact → Res (List Artifact) → Res (List Artifact)
  cons_staged (err e) rest = err e
  cons_staged (ok a) (err e) = err e
  cons_staged (ok a) (ok rest) = ok (a ∷ rest)

  unfoldable pub stage_goals : Codebase → UnitEnv → List GoalDef → Res (List Artifact)
  unfolding stage_goal cons_staged
  stage_goals c values [] = ok []
  stage_goals c values (def ∷ defs) =
      cons_staged (stage_goal c values def) (stage_goals c values defs)

  -- A stored artifact with the hash is kept, and the alias moves to it.
  unfoldable pub store : Option Artifact → Artifact → Codebase → Codebase
  store (some old) a c = record c { index = put (old.name, old.arity) old.hash c.index }
  store none a c = record c {
    artifacts = put a.hash a c.artifacts;
    index = put (a.name, a.arity) a.hash c.index;
  }

  unfoldable pub install_one : Artifact → Codebase → Codebase
  unfolding store
  install_one a c = store (get a.hash c.artifacts) a c

  unfoldable pub install : List Artifact → Codebase → Codebase
  unfolding install_one
  install [] c = c
  install (a ∷ rest) c = install rest (install_one a c)

  unfoldable pub commit_staged : Codebase → Res (List Artifact) → Res (List Artifact × ℕ) × Codebase
  unfolding install
  commit_staged c (err e) = (err e, c)
  commit_staged c (ok staged) =
      (ok (staged, suc c.revision), install staged (record c { revision = suc c.revision }))

  -- CommitUnit
  unfoldable pub commit_unit : Codebase → SourceUnit → Res (List Artifact × ℕ) × Codebase
  unfolding stage_goals commit_staged
  commit_unit c u = commit_staged c (stage_goals c u.values u.goals)
