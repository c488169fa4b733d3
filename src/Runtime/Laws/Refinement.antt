-- ===== src/Runtime/Laws/Refinement.antt =====
-- The calls on a run are sequences of the moves of the specification, and what they do to the
-- Carousel is a history of calls on it.
use subsea_cable_runtime.Base.{List, [], ◌∷◌}
use subsea_cable_runtime.Runtime.State.{Run, Settings}
use subsea_cable_runtime.Runtime.Act.{after}
use subsea_cable_runtime.Runtime.Operations.{
  Operation, steps, advances, cancels, requests, cancels_scope, sets_prefetch, operate, operate_all,
}
use subsea_cable_runtime.Runtime.Moves.{whole, Evolves, here}
use subsea_cable_runtime.Runtime.Moves.Acts.{Safe, Evolves-trans}
use subsea_cable_runtime.Runtime.Moves.Starting.{IsGated}
use subsea_cable_runtime.Runtime.Moves.Loops.{
  step_act-Safe, stabilize-Safe, request-Safe, set_prefetch-Safe, cancel_scope-Safe, cancel-Safe,
  outer-whole,
}

module _ {H S : Type 0} (set : Settings H S) (gated : IsGated set.port) where
  operate-Safe : (x : Operation) → Safe set whole (operate set x)
  unfolding operate
  operate-Safe steps = step_act-Safe set gated
  operate-Safe advances = outer-whole set (stabilize-Safe set gated)
  operate-Safe cancels = outer-whole set (cancel-Safe set)
  operate-Safe (requests id) = outer-whole set (request-Safe set id)
  operate-Safe (cancels_scope id) = outer-whole set (cancel_scope-Safe set id)
  operate-Safe (sets_prefetch n) = outer-whole set (set_prefetch-Safe set n)

  -- Every sequence of calls (Step, Advance, Cancel, Demand, CancelScope, SetPrefetch) on a run,
  -- whose Host reaches the call-site counter only through its gateway, is a sequence of moves of
  -- the specification in Runtime/Moves. There an attempt enters flight only while fewer than
  -- Concurrency are in flight and, if it is the first of its leaf, only while the Touchdown of
  -- the leaf is consumed by it; only a scope that is not terminal gets an outcome; a value is
  -- stored only as the output of a satisfied scope; a result is set only where there is none,
  -- with the steps and the time of the run; and a step is counted only where there is no result.
  pub operations-Evolves :
      (xs : List Operation) (r : Run H S) → Evolves set whole r (operate_all set xs r)
  unfolding operate_all
  operations-Evolves [] r = here
  operations-Evolves (x ∷ xs) r =
      Evolves-trans ((operate-Safe x).moves r) (operations-Evolves xs (after (operate set x) r))
