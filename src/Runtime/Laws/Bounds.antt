-- ===== src/Runtime/Laws/Bounds.antt =====
-- The attempts in flight never exceed the concurrency.
use subsea_cable_runtime.Base.{◌≤◌, List, length}
use subsea_cable_runtime.Runtime.State.{Run, Settings}
use subsea_cable_runtime.Runtime.Operations.{Operation, operate_all}
use subsea_cable_runtime.Runtime.Moves.Flight.{Evolves-flight_bound}
use subsea_cable_runtime.Runtime.Moves.Starting.{IsGated}
use subsea_cable_runtime.Runtime.Laws.Refinement.{operations-Evolves}

module _ {H S : Type 0} (set : Settings H S) (gated : IsGated set.port) (xs : List Operation)
    (r : Run H S) where
  -- Whatever calls (Step, Advance, Cancel, Demand, CancelScope, SetPrefetch) are made on a run
  -- whose Host reaches the call-site counter only through its gateway, the number of attempts in
  -- flight does not exceed Concurrency, if it does not at first.
  pub flight_bound :
      length r.inflight ≤ set.concurrency → length (operate_all set xs r).inflight ≤ set.concurrency
  flight_bound h = Evolves-flight_bound (operations-Evolves set gated xs r) h
