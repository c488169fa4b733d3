-- ===== src/Codebase.antt =====
-- codebase/codebase.go: the artifacts, the index of names and arities with its revisions, the runs
-- and the deduction ledger. Every operation runs under the Codebase's lock, so it is one function
-- from the store to the store. SHA-256 is the argument `sha256`, a text's hexadecimal digest.
pub mod Commit
pub mod Ledger
pub mod Index
pub mod Runs
use Prim.Native.String.{slice}
use text.Mathlib.Text.{starts_with}
use subsea_cable_runtime.Base.{
  ℕ, zero, suc, ◌+◌, Bool, true, false, not, ◌&&◌, ◌||◌, Option, none, some, String, List, [], ◌∷◌,
  ◌++◌, map, ◌==◌, string_eq, nat_eq, pair_eq, if◌then◌else◌, Map, get, put, length, get_elem?,
  keep, sort_by, ltb, str_ltb, show_ℕ, to_lower, ◌<>◌, is_some,
}
use subsea_cable_runtime.Diag.{Span, Res, ok, err, plain}
use subsea_cable_runtime.Expr.{UnitEnv}
use subsea_cable_runtime.Sema.{GoalDef, PrefixMatch}

-- One immutable stored Goal term. `pinned` maps the hash-qualified name nodes to full hashes.
pub record Artifact : Type 0 where
  pub hash : String
  pub structure_hash : String
  pub name : String
  pub arity : ℕ
  pub def : GoalDef
  pub values : UnitEnv
  pub pinned : Map Span String
  pub canonical : String

unfoldable pub goal_node_id : Artifact → String
goal_node_id a = slice a.structure_hash 0 16 <> ("/" <> show_ℕ a.arity)

unfoldable pub short : Artifact → String
short a = slice a.hash 0 12

pub record DeductionRecord : Type 0 where
  pub seq : ℕ
  pub run_id : String
  pub occurrence : String
  pub reference_kind : String
  pub requested_name : String
  pub requested_arity : ℕ
  pub artifact_hash : String
  pub goal_node_id : String
  pub codebase_revision : ℕ
  pub arguments : List String
  pub result : String
  pub lineages : List String
  pub primitive_profile : String
  pub cause : String

pub record Codebase : Type 0 where
  pub artifacts : Map String Artifact
  pub index : Map (String × ℕ) String
  pub revision : ℕ
  pub ledger : List DeductionRecord
  pub by_occ : Map (String × String) ℕ
  pub runs : Map String Bool
  pub run_seq : ℕ

-- New
unfoldable pub new_codebase : Codebase
new_codebase = record {
  artifacts = [];
  index = [];
  revision = 0;
  ledger = [];
  by_occ = [];
  runs = [];
  run_seq = 0;
}

arities_of : String → Map (String × ℕ) String → List ℕ
arities_of name [] = []
arities_of name (((n, a), h) ∷ m) = if n == name then a ∷ arities_of name m else arities_of name m

unfoldable pub arities : Codebase → String → List ℕ
unfolding arities_of
arities c name = sort_by ltb (arities_of name c.index)

matches : String → String → Map String Artifact → List PrefixMatch
matches name prefix [] = []
matches name prefix ((h, a) ∷ m) =
    if a.name == name && starts_with h (to_lower prefix)
    then (record { hash = h; arity = a.arity }) ∷ matches name prefix m
    else matches name prefix m

unfoldable pub resolve_prefix : Codebase → String → String → List PrefixMatch
unfolding matches
resolve_prefix c name prefix =
    sort_by (λ p q. str_ltb p.hash q.hash) (matches name prefix c.artifacts)

-- Get
unfoldable pub get_artifact : Codebase → String → Option Artifact
get_artifact c hash = get hash c.artifacts

-- Artifacts
unfoldable pub sorted_artifacts : Codebase → List Artifact
sorted_artifacts c = sort_by (λ a b. str_ltb a.hash b.hash) (map (λ p. p.1) c.artifacts)

-- The artifact that an alias names now. The pointer that the source returns is nil where the index
-- names a hash with no artifact; the invariant of Codebase/Index excludes that.
unfoldable pub resolve_current : Codebase → String → ℕ → Option Artifact × ℕ
resolve_current c name arity = elim (get (name, arity) c.index) [
  | none ↦ (none, c.revision)
  | some h ↦ (get h c.artifacts, c.revision)
]

rebind_found : Codebase → String → ℕ → String → Option Artifact → Res ℕ × Codebase
rebind_found c name arity hash none = (err plain, c)
rebind_found c name arity hash (some a) =
    if a.name == name && a.arity == arity
    then (
      ok (suc c.revision),
      record c { revision = suc c.revision; index = put (name, arity) hash c.index },
    )
    else (err plain, c)

-- Rebind
unfoldable pub rebind : Codebase → String → ℕ → String → Res ℕ × Codebase
unfolding rebind_found
rebind c name arity hash = rebind_found c name arity hash (get hash c.artifacts)

run_name : ℕ → String
run_name n = "run-" <> show_ℕ n

-- The loop that counts `runSeq` up to a name that is free.
free_seq : ℕ → Map String Bool → ℕ → ℕ
unfolding run_name
free_seq zero runs seq = seq
free_seq (suc f) runs seq =
    let rest = free_seq f runs (suc seq) in
    if is_some (get (run_name (suc seq)) runs) then rest else suc seq

reserve : Codebase → String → Res String × Codebase
reserve c id =
    if is_some (get id c.runs)
    then (err plain, c)
    else (ok id, record c { runs = put id true c.runs })

-- RegisterRun. One of `length runs + 1` names in a row is free.
unfoldable pub register_run : Codebase → String → Res String × Codebase
unfolding free_seq reserve
register_run c id =
    if id == ""
    then (let seq = free_seq (suc (length c.runs)) c.runs c.run_seq in
        reserve (record c { run_seq = seq }) (run_name seq))
    else reserve c id

-- AppendDeduction
unfoldable pub append_deduction : Codebase → DeductionRecord → Res DeductionRecord × Codebase
append_deduction c r =
    if r.run_id == ""
    then (err plain, c)
    else if is_some (get (r.run_id, r.occurrence) c.by_occ)
    then (err plain, c)
    else (let r' = record r { seq = length c.ledger + 1 } in
        (
          ok r',
          record c {
            by_occ = put (r.run_id, r.occurrence) (length c.ledger) c.by_occ;
            ledger = c.ledger ++ r' ∷ [];
          },
        ))

record_at : List DeductionRecord → Option ℕ → Option DeductionRecord
record_at ledger none = none
record_at ledger (some i) = get_elem? ledger i

-- GetDeduction; an index past the ledger would be a panic, which the ledger's invariant excludes.
unfoldable pub get_deduction : Codebase → String → String → Option DeductionRecord
unfolding record_at
get_deduction c run occ = record_at c.ledger (get (run, occ) c.by_occ)

unfoldable pub run_ledger : Codebase → String → List DeductionRecord
run_ledger c run = keep (λ r. r.run_id == run) c.ledger
