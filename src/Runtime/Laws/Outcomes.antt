-- ===== src/Runtime/Laws/Outcomes.antt =====
-- The outcomes of scopes, and of the run, are final.
use subsea_cable_runtime.Base.{◌≡◌, refl, true, some, String, List, inr, get, string_eq}
use subsea_cable_runtime.Runtime.Policy.{is_terminal}
use subsea_cable_runtime.Runtime.State.{Run, Scope, Result, Settings}
use subsea_cable_runtime.Runtime.Operations.{Operation, operate_all}
use subsea_cable_runtime.Runtime.Moves.{
  Mode, Move, logs, calls, puts, resolves, pushes, pops, marks, lands, launches, finishes, counts,
  hosts, gates, exhausts, Evolves, here, next,
}
use subsea_cable_runtime.Runtime.Moves.Outcomes.{HasOutcome, Evolves-HasOutcome}
use subsea_cable_runtime.Runtime.Moves.Starting.{IsGated}
use subsea_cable_runtime.Runtime.Laws.Refinement.{operations-Evolves}

module _ {H S : Type 0} {set : Settings H S} {m : Mode} where
  Move-result :
      {t u : Run H S} (x : Result) → Move set m t u → t.result ≡ some x → u.result ≡ some x
  Move-result x (logs e h) r = rw h r
  Move-result x (calls c q h) r = rw h r
  Move-result x (puts j s f h) r = rw h r
  Move-result x (resolves id s a b h) r = rw h r
  Move-result x (pushes it a h) r = rw h r
  Move-result x (pops it rest o a h) r = rw h r
  Move-result x (marks id at a h) r = rw h r
  Move-result x (lands id h) r = rw h r
  Move-result x (launches id at o b h) r = rw h r
  Move-result x (finishes a b v w h) r = cc (b, r)
  Move-result x (counts w n h) r = rw h r
  Move-result x (hosts k h) r = rw h r
  Move-result x (gates k g a h) r = rw h r
  Move-result x (exhausts h) r = rw h r

  pub Evolves-result :
      {t u : Run H S} (x : Result) → Evolves set m t u → t.result ≡ some x → u.result ≡ some x
  Evolves-result x here r = r
  Evolves-result x (next a mv) r = Move-result x mv (Evolves-result x a r)

module _ {H S : Type 0} (set : Settings H S) (gated : IsGated set.port) (xs : List Operation)
    (r : Run H S) where
  -- Whatever calls (Step, Advance, Cancel, Demand, CancelScope, SetPrefetch) are made on a run
  -- whose Host reaches the call-site counter only through its gateway, a scope that is satisfied,
  -- failed or cancelled keeps its state, its output and its diagnostic.
  pub settled_forever :
      (id : String) (s : Scope S)
      → get id r.scopes ≡ some s
      → is_terminal s.state ≡ true
      → HasOutcome id s (operate_all set xs r).scopes
  settled_forever id s e term =
      Evolves-HasOutcome (inr term) (operations-Evolves set gated xs r)
        (record { found = s; there = e; same_state = refl; same_out = refl; same_diag = refl })

  -- Whatever calls (Step, Advance, Cancel, Demand, CancelScope, SetPrefetch) are made on a run
  -- whose Host reaches the call-site counter only through its gateway, the result of a finished
  -- run stays as it is.
  pub result_forever : (x : Result) → r.result ≡ some x → (operate_all set xs r).result ≡ some x
  result_forever x e = Evolves-result x (operations-Evolves set gated xs r) e
