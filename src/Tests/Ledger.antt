-- ===== src/Tests/Ledger.antt =====
-- The Codebase on a unit with one Goal, and the ledger on one deduction.
use subsea_cable_runtime.Base.{
  string_eq, nat_eq, pair_eq, suc, ◌≡◌, ◌⊎◌, true, List, get, is_some, All,
}
use subsea_cable_runtime.Diag.{Err, ok, err, plain}
use subsea_cable_runtime.Codebase.{Artifact, new_codebase, append_deduction, rebind, register_run}
use subsea_cable_runtime.Codebase.Commit.{commit_unit}
use subsea_cable_runtime.Codebase.Ledger.{new-IsIndexed, append_deduction_lem, Refuses, Appends}
use subsea_cable_runtime.Codebase.Index.{
  IsAliased, Extends, new-IsAliased, commit_unit-IsAliased, commit_unit_atomic, rebind-IsAliased,
}
use subsea_cable_runtime.Codebase.Runs.{register_run_generates, register_run_named, Reserves}
use subsea_cable_runtime.Tests.Data.{digest_text, source, entry, committed_base, ping_hash}

append_deduction_lem_example :
    Refuses new_codebase entry (append_deduction new_codebase entry)
    ⊎ Appends new_codebase entry (append_deduction new_codebase entry)
append_deduction_lem_example = append_deduction_lem new_codebase entry new-IsIndexed

commit_unit-IsAliased_example : IsAliased committed_base
commit_unit-IsAliased_example = commit_unit-IsAliased digest_text new_codebase source new-IsAliased

commit_unit_atomic_example :
    let r = commit_unit digest_text new_codebase source in
    ((e : Err) × (r.0 ≡ err e) × (r.1 ≡ new_codebase))
    ⊎ ((staged : List Artifact) × (r.0 ≡ ok (staged, suc new_codebase.revision))
        × (r.1.revision ≡ suc new_codebase.revision)
        × Extends new_codebase r.1
        × All (λ a. is_some (get a.hash r.1.artifacts) ≡ true) staged)
commit_unit_atomic_example = commit_unit_atomic digest_text new_codebase source

base-IsAliased : IsAliased committed_base
base-IsAliased = commit_unit-IsAliased digest_text new_codebase source new-IsAliased

rebind-IsAliased_example : IsAliased (rebind committed_base "Ping" 0 ping_hash).1
rebind-IsAliased_example = rebind-IsAliased committed_base "Ping" 0 ping_hash base-IsAliased

register_run_generates_example : Reserves new_codebase (register_run new_codebase "")
register_run_generates_example = register_run_generates new_codebase

register_run_named_example :
    (Reserves new_codebase (register_run new_codebase "run-7")
      × ((register_run new_codebase "run-7").0 ≡ ok "run-7"))
    ⊎ ((is_some (get "run-7" new_codebase.runs) ≡ true)
        × (register_run new_codebase "run-7" ≡ (err plain, new_codebase)))
register_run_named_example = register_run_named new_codebase "run-7" (λ e. cc)
