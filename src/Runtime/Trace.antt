-- ===== src/Runtime/Trace.antt =====
-- runtime/trace.go: the append-only log. The Detail of an event, an auxiliary rendering, is left
-- out.
use subsea_cable_runtime.Base.{
  ℕ, suc, ◌+◌, Bool, false, ◌&&◌, ◌||◌, Option, none, String, List, [], ◌∷◌, ◌++◌, map, ◌==◌,
  string_eq, length, keep, if◌then◌else◌,
}
use subsea_cable_runtime.Diag.{Diagnostic}
use subsea_cable_runtime.Codebase.{DeductionRecord}

pub record TraceEvent : Type 0 where
  pub seq : ℕ
  pub time : ℕ
  pub kind : String
  pub run_id : String
  pub occ : String
  pub evaluation_instance : String
  pub attempt : String
  pub reason : String
  pub window : Option ℕ
  pub target : Option ℕ
  pub entry : Option DeductionRecord
  pub diag : Option Diagnostic

-- An event that names its time, kind and occurrence only.
abbrev pub trace_event : ℕ → String → String → TraceEvent
trace_event now kind occ = record {
  seq = 0;
  time = now;
  kind = kind;
  run_id = "";
  occ = occ;
  evaluation_instance = "";
  attempt = "";
  reason = "";
  window = none;
  target = none;
  entry = none;
  diag = none;
}

-- addEvent
unfoldable pub add_event : TraceEvent → List TraceEvent → List TraceEvent
add_event e t = t ++ (record e { seq = length t + 1 }) ∷ []

-- add, addDiag and addRecord
unfoldable pub add : ℕ → String → String → List TraceEvent → List TraceEvent
unfolding add_event
add now kind occ = add_event (trace_event now kind occ)

unfoldable pub add_diag :
    ℕ → String → String → Option Diagnostic → List TraceEvent → List TraceEvent
unfolding add_event
add_diag now kind occ d = add_event (record (trace_event now kind occ) { diag = d })

unfoldable pub add_record :
    ℕ → String → String → Option DeductionRecord → List TraceEvent → List TraceEvent
unfolding add_event
add_record now kind occ r = add_event (record (trace_event now kind occ) { entry = r })

-- Kinds, Filter and Count
unfoldable pub kinds : List TraceEvent → List String
kinds = map (λ e. e.kind)

one_of : String → List String → Bool
one_of k [] = false
one_of k (j ∷ js) = k == j || one_of k js

unfoldable pub filter : List String → List TraceEvent → List TraceEvent
unfolding one_of
filter wanted = keep (λ e. one_of e.kind wanted)

unfoldable pub count : String → String → List TraceEvent → ℕ
count kind occ [] = 0
count kind occ (e ∷ t) =
    let rest = count kind occ t in
    if e.kind == kind && (occ == "" || e.occ == occ) then suc rest else rest
