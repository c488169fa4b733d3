-- ===== src/Runtime/Operations.antt =====
-- The calls that a user of a run makes on it, and sequences of them.
use subsea_cable_runtime.Base.{String, List, [], ◌∷◌, ℤ}
use subsea_cable_runtime.Runtime.State.{Run, Settings}
use subsea_cable_runtime.Runtime.Act.{Act, after}
use subsea_cable_runtime.Runtime.Reactor.{
  step_act, stabilize, request, set_prefetch, cancel_scope, cancel,
}

pub data Operation : Type 0 where
  steps advances cancels : Operation
  requests cancels_scope : String → Operation
  sets_prefetch : ℤ → Operation

module _ {H S : Type 0} (set : Settings H S) where
  unfoldable pub operate : Operation → Act H S
  operate steps = step_act set
  operate advances = stabilize set
  operate cancels = cancel set
  operate (requests id) = request set id
  operate (cancels_scope id) = cancel_scope set id
  operate (sets_prefetch n) = set_prefetch set n

  unfoldable pub operate_all : List Operation → Run H S → Run H S
  unfolding operate after
  operate_all [] r = r
  operate_all (x ∷ xs) r = operate_all xs (after (operate x) r)
